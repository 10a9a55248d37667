-- ===== src/Backend/Respond/Text.antt =====
-- miniweb_backend.smode.c, `ulong_to_str`: the digits are those of the number, and fit.
use caplifive_buildroot.Base.{
  ℕ, zero, suc, ◌+◌, ◌-◌, ◌*◌, ◌/◌, ◌%◌, ◌^◌, ◌≤◌, ◌<◌, ◌≡◌, refl, sym, ◌∙◌, inl, inr, List, [],
  ◌∷◌, ◌++◌, true, ltb, ◌==◌, if◌then◌else◌, Bool-cases, Returns, Returns-mono, Returns-chain,
  arith, length, length-append,
}
use mathlib.Core.List.{append_assoc, append-nil}
use caplifive_buildroot.Backend.Respond.{digits_of, backwards, ulong_to_str}

-- The number that decimal digits stand for, the last digit first, and behind the value of those
-- before
abbrev last_first : List ℕ → ℕ
last_first [] = 0
last_first (c ∷ cs) = c - b'0' + 10 * last_first cs

abbrev pub decimal_from : ℕ → List ℕ → ℕ
decimal_from acc [] = acc
decimal_from acc (c ∷ cs) = decimal_from (acc * 10 + (c - b'0')) cs

-- The decimal number that a text is
abbrev pub decimal : List ℕ → ℕ
decimal = decimal_from 0

decimal_from-snoc :
    (cs : List ℕ) (acc c : ℕ)
    → decimal_from acc (cs ++ c ∷ []) ≡ decimal_from acc cs * 10 + (c - b'0')
decimal_from-snoc [] acc c = refl
decimal_from-snoc (x ∷ xs) acc c = decimal_from-snoc xs (acc * 10 + (x - b'0')) c

decimal-backwards : (cs : List ℕ) → decimal (backwards cs) ≡ last_first cs
decimal-backwards [] = refl
decimal-backwards (c ∷ cs) =
    omega (arith, decimal_from-snoc (backwards cs) 0 c, decimal-backwards cs)

length-backwards : (cs : List ℕ) → length (backwards cs) ≡ length cs
length-backwards [] = refl
length-backwards (c ∷ cs) =
    omega (arith, length-append (backwards cs) (c ∷ []), length-backwards cs)

-- What the loop adds to the array
abbrev Added : ℕ → ℕ → List ℕ → List ℕ → Type 0
Added num k temp out = (ds : List ℕ) × (out ≡ temp ++ ds) × (last_first ds ≡ num) × (length ds ≤ k)

ten_times : (k : ℕ) → 10 ^ suc k ≡ 10 * 10 ^ k
ten_times k = omega arith

one_more :
    (temp : List ℕ) (num k : ℕ) (out : List ℕ)
    → Added (num / 10) k (temp ++ (b'0' + num % 10) ∷ []) out
    → Added num (suc k) temp out
one_more temp num k out (ds, e, v, n) = (
  (b'0' + num % 10) ∷ ds,
  e ∙ append_assoc temp ((b'0' + num % 10) ∷ []) ds,
  omega arith,
  omega arith,
)

digits_of-Added :
    (k rounds num : ℕ) (temp : List ℕ)
    → num < 10 ^ k
    → k < rounds
    → length temp + k ≤ 21
    → Returns (Added num k temp) (digits_of rounds num temp)
unfolding digits_of
digits_of-Added k zero num temp h r l = absurd (omega arith)
digits_of-Added zero (suc rounds) num temp h r l =
    let z : (num == 0) ≡ true = ground arith in
    rw z ([], sym (append-nil temp), omega arith, omega arith)
digits_of-Added (suc k) (suc rounds) num temp h r l = elim (Bool-cases (num == 0)) [
  | inl z ↦ rw z ([], sym (append-nil temp), ground arith, omega arith)
  | inr more ↦
      let room : ltb (length temp) 21 ≡ true = ground arith in
      rw (more, room)
        (Returns-mono (Added (num / 10) k (temp ++ (b'0' + num % 10) ∷ [])) (Added num (suc k) temp)
          (one_more temp num k) (digits_of rounds (num / 10) (temp ++ (b'0' + num % 10) ∷ []))
          (digits_of-Added k rounds (num / 10) (temp ++ (b'0' + num % 10) ∷ [])
            (omega (arith, h, ten_times k)) (omega arith)
            (omega (arith, length-append temp ((b'0' + num % 10) ∷ [])))))
]

in_order :
    (num : ℕ) (out : List ℕ)
    → Added num 20 [] out
    → (decimal (if num == 0 then b'0' ∷ [] else backwards out) ≡ num)
      × (length (if num == 0 then b'0' ∷ [] else backwards out) ≤ 20)
in_order num out (ds, e, v, n) = elim (Bool-cases (num == 0)) [
  | inl z ↦ rw z (ground arith, omega arith)
  | inr more ↦ rw (more, e) (decimal-backwards ds ∙ v, omega (arith, length-backwards ds))
]

-- For every unsigned long, and below 10 ^ 20, `ulong_to_str` ends, with a decimal text of the
-- number, of at most 20 digits.
pub ulong_to_str_fit :
    (num : ℕ)
    → num < 10 ^ 20
    → Returns (λ t. (decimal t ≡ num) × (length t ≤ 20)) (ulong_to_str num)
unfolding ulong_to_str
ulong_to_str_fit num h =
    Returns-chain (Added num 20 []) (λ t. (decimal t ≡ num) × (length t ≤ 20)) (digits_of 22 num [])
      _ (digits_of-Added 20 22 num [] h (omega arith) (omega arith)) (in_order num)
