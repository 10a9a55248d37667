-- ===== src/Cgi/Register/Digits.antt =====
-- cgi_register_success.dom.c: the digits of the content's size, and the number they spell.
use native.Mathlib.Nat.{pow-suc}
use caplifive_buildroot.Base.{
  ℕ, zero, suc, ◌+◌, ◌-◌, ◌*◌, ◌/◌, ◌^◌, ◌≤◌, ◌<◌, ◌≡◌, refl, ap, ◌∙◌, ◌≢◌, inl, inr, List, [], ◌∷◌,
  ◌++◌, done, arith, ◌==◌, if◌then◌else◌, Bool-cases, length, length-append,
}
use mathlib.Core.List.{append-nil, append_assoc}
use caplifive_buildroot.Cgi.Socket.Bytes.{AllBytes, AllBytes-append}
use caplifive_buildroot.Cgi.Register.{digits_loop, backwards}

-- The decimal digits of a number below 10 ^ n, the last one first, without leading zeroes.
decimal : ℕ → ℕ → List ℕ
decimal zero num = []
decimal (suc n) num =
    let rest = decimal n (num / 10) in
    if num == 0 then [] else (num - 10 * (num / 10) + b'0') ∷ rest

-- A text of digits, as a reader of decimal numbers takes it.
abbrev pub read_decimal : ℕ → List ℕ → ℕ
read_decimal acc [] = acc
read_decimal acc (c ∷ cs) = read_decimal (10 * acc + (c - b'0')) cs

little : List ℕ → ℕ
little [] = 0
little (c ∷ cs) = (c - b'0') + 10 * little cs

read_decimal-snoc :
    (acc c : ℕ) (cs : List ℕ)
    → read_decimal acc (cs ++ c ∷ []) ≡ 10 * read_decimal acc cs + (c - b'0')
read_decimal-snoc acc c [] = refl
read_decimal-snoc acc c (d ∷ cs) = read_decimal-snoc (10 * acc + (d - b'0')) c cs

length-backwards : (cs : List ℕ) → length (backwards cs) ≡ length cs
length-backwards [] = refl
length-backwards (c ∷ cs) =
    omega (arith, length-append (backwards cs) (c ∷ []), length-backwards cs)

read_decimal-backwards : (cs : List ℕ) → read_decimal 0 (backwards cs) ≡ little cs
unfolding little
read_decimal-backwards [] = refl
read_decimal-backwards (c ∷ cs) =
    omega (arith, read_decimal-snoc 0 c (backwards cs), read_decimal-backwards cs)

little-decimal : (n num : ℕ) → num < 10 ^ n → little (decimal n num) ≡ num
unfolding little decimal
little-decimal zero num h = omega arith
little-decimal (suc n) num h =
    let below : num / 10 < 10 ^ n = omega (arith, h, pow-suc 10 n) in
    elim (Bool-cases (num == 0)) [
      | inl none_left ↦ rw none_left (ground arith)
      | inr more ↦ rw more (omega (arith, little-decimal n (num / 10) below))
    ]

digits_loop-step :
    (rounds num : ℕ) (cs : List ℕ)
    → num ≢ 0
    → length cs < 16
    → digits_loop (suc rounds) num cs
      ≡ digits_loop rounds (num / 10) (cs ++ (num - 10 * (num / 10) + b'0') ∷ [])
unfolding digits_loop
digits_loop-step rounds num cs h lt = ground arith

digits_loop-stops : (rounds : ℕ) (cs : List ℕ) → 0 < rounds → digits_loop rounds 0 cs ≡ done cs
unfolding digits_loop
digits_loop-stops zero cs h = absurd (omega arith)
digits_loop-stops (suc rounds) cs h = refl

digits_loop-decimal :
    (n rounds num : ℕ) (cs : List ℕ)
    → num < 10 ^ n
    → n < rounds
    → length cs + n ≤ 16
    → digits_loop rounds num cs ≡ done (cs ++ decimal n num)
digits_loop-decimal zero rounds num cs h lt room =
    let e : num ≡ 0 = omega arith in
    rw (e, digits_loop-stops rounds cs (omega arith)) (unfold decimal in rw append-nil)
digits_loop-decimal (suc n) zero num cs h lt room = absurd (omega arith)
digits_loop-decimal (suc n) (suc rounds) num cs h lt room = elim (Bool-cases (num == 0)) [
  | inl none_left ↦
      let e : num ≡ 0 = ground arith in
      rw (e, digits_loop-stops (suc rounds) cs (omega arith)) (unfold decimal in rw append-nil)
  | inr more ↦
      let c = num - 10 * (num / 10) + b'0' in
      rw (digits_loop-step rounds num cs (ground arith) (omega arith)) (
        digits_loop-decimal n rounds (num / 10) (cs ++ c ∷ []) (omega (arith, h, pow-suc 10 n))
          (omega arith) (omega (arith, length-append cs (c ∷ [])))
        ∙ ap done (append_assoc cs (c ∷ []) (decimal n (num / 10)))
        ∙ (unfold decimal in rw more))
]

length-decimal : (n num : ℕ) → length (decimal n num) ≤ n
unfolding decimal
length-decimal zero num = omega arith
length-decimal (suc n) num = elim (Bool-cases (num == 0)) [
  | inl none_left ↦ rw none_left (omega arith)
  | inr more ↦ rw more (omega (arith, length-decimal n (num / 10)))
]

decimal-AllBytes : (n num : ℕ) → AllBytes (decimal n num)
unfolding decimal
decimal-AllBytes zero num = tt
decimal-AllBytes (suc n) num = elim (Bool-cases (num == 0)) [
  | inl none_left ↦ rw none_left tt
  | inr more ↦ rw more (omega arith, decimal-AllBytes n (num / 10))
]

pub backwards-AllBytes : (cs : List ℕ) → AllBytes cs → AllBytes (backwards cs)
backwards-AllBytes [] all = tt
backwards-AllBytes (c ∷ cs) all =
    AllBytes-append (backwards cs) (c ∷ []) (backwards-AllBytes cs all.1) (all.0, tt)

-- The loop ends within 17 rounds for every number of at most 16 digits, and what it leaves, put
-- last to first, is a text of digits that reads as the number.
pub digits_loop-reads :
    (n num : ℕ)
    → n ≤ 16
    → num < 10 ^ n
    → (ds : List ℕ) × (digits_loop 17 num [] ≡ done ds)
      × (read_decimal 0 (backwards ds) ≡ num)
      × (length (backwards ds) ≤ n)
      × AllBytes (backwards ds)
digits_loop-reads n num fits h =
    let ds = decimal n num in
    (
      ds,
      digits_loop-decimal n 17 num [] h (omega arith) (omega arith),
      read_decimal-backwards ds ∙ little-decimal n num h,
      omega (arith, length-backwards ds, length-decimal n num),
      backwards-AllBytes ds (decimal-AllBytes n num),
    )
