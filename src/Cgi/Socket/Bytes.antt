-- ===== src/Cgi/Socket/Bytes.antt =====
-- cgi_register_success.dom.c, `putchar_to_socket`: the region is a byte buffer.
use Prim.Native.Nat.{bit_or}
use native.Mathlib.Decide.{dec_lt, ℕ_discrete}
use native.Mathlib.Nat.{add-mul-div_right, div-eq_of_lt}
use caplifive_buildroot.Base.Memory.{Region, update, update_self, update_ne}
use caplifive_buildroot.Base.{
  ℕ, ◌+◌, ◌-◌, ◌*◌, ◌/◌, ◌%◌, ◌^◌, ◌<◌, ◌≡◌, refl, sym, ap, ◌∙◌, ◌≢◌, inl, inr, List, [], ◌∷◌, ◌++◌,
  arith, Bool, ◌&&◌, ltb, ◌==◌, Bool-cases, true, false, length, length-append, get_or,
  get_or-append_left, get_or-append_last,
}
use mathlib.Core.List.{append-nil, append_assoc}
use caplifive_buildroot.Base.Bits.{bit_or_disjoint}
use caplifive_buildroot.Base.Words.{pow_add, pow_pos}
use caplifive_buildroot.Cgi.Socket.{
  Output, cleared, putchar_to_socket, put_all, start, byte_of, byte_at,
}

abbrev pub AllBytes : List ℕ → Type 0
AllBytes [] = Unit {0}
AllBytes (x ∷ xs) = (x < 256) × AllBytes xs

abbrev pub are_bytes : List ℕ → Bool
are_bytes [] = true
are_bytes (x ∷ xs) = ltb x 256 && are_bytes xs

pub are_bytes-AllBytes : (xs : List ℕ) → are_bytes xs ≡ true → AllBytes xs
are_bytes-AllBytes [] h = tt
are_bytes-AllBytes (x ∷ xs) h = elim (Bool-cases (ltb x 256)) [
  | inl byte ↦ (ground arith, are_bytes-AllBytes xs (rw byte at h))
  | inr large ↦ cc
]

pub AllBytes-append : (xs ys : List ℕ) → AllBytes xs → AllBytes ys → AllBytes (xs ++ ys)
AllBytes-append [] ys a b = b
AllBytes-append (x ∷ xs) ys a b = (a.0, AllBytes-append xs ys a.1 b)

-- The first bytes of the region.
abbrev pub Spells : Region → List ℕ → Type 0
Spells r bs = (k : ℕ) → k < length bs → byte_at r k ≡ get_or bs k 0

-- The bytes written so far are `bs`: the offsets and the size say where they end, and a word that
-- is not full has zeroes above its last byte.
pub record Wrote (bs : List ℕ) (o : Output) : Type 0 where
  pub size : o.size ≡ length bs
  pub outer : o.outer ≡ length bs / 8
  pub inner : o.inner ≡ length bs % 8
  pub spells : Spells o.region bs
  pub high : 0 < o.inner → o.region o.outer < 2 ^ (o.inner * 8)

-- The bytes of a word below 2 ^ (i * 8) with one more byte put above them.
word_low : (w b i j : ℕ) → j < i → byte_of (w + b * 2 ^ (i * 8)) j ≡ byte_of w j
word_low w b i j lt =
    let r = 2 ^ ((i - j - 1) * 8) in
    let exponent : i * 8 ≡ j * 8 + (8 + (i - j - 1) * 8) = omega arith in
    let split : 2 ^ (i * 8) ≡ 2 ^ (j * 8) * (256 * r) =
      rw (exponent, pow_add (j * 8) (8 + (i - j - 1) * 8), pow_add 8 ((i - j - 1) * 8)) in
    let regroup : b * 2 ^ (i * 8) ≡ b * (256 * r) * 2 ^ (j * 8) =
      omega (arith, ap (λ (t : ℕ). b * t) split) in
    rw (regroup, add-mul-div_right w (b * (256 * r)) (pow_pos (j * 8))) (omega arith)

word_top : (w b i : ℕ) → w < 2 ^ (i * 8) → b < 256 → byte_of (w + b * 2 ^ (i * 8)) i ≡ b
word_top w b i h lt = rw (add-mul-div_right w b (pow_pos (i * 8)), div-eq_of_lt h) (omega arith)

word_bound : (w b i : ℕ) → w < 2 ^ (i * 8) → b < 256 → w + b * 2 ^ (i * 8) < 2 ^ ((i + 1) * 8)
word_bound w b i h lt =
    let exponent : (i + 1) * 8 ≡ i * 8 + 8 = omega arith in
    rw (exponent, pow_add (i * 8) 8) (grind arith)

byte_at_eq : (r : Region) (k i j : ℕ) → k / 8 ≡ i → k % 8 ≡ j → byte_at r k ≡ byte_of (r i) j
byte_at_eq r k i j e f = rw (e, f)

lt_of_factor : (x a r n : ℕ) → x < a → 0 < r → n ≡ a * r → x < n
lt_of_factor x a r n h p e = grind arith

-- The word that `putchar_to_socket` stores.
stored : Output → ℕ → ℕ
stored o ch = cleared o o.outer + ch * 2 ^ (o.inner * 8)

module _ (o : Output) (ch : ℕ) (bs : List ℕ) (w : Wrote bs o) (byte : ch < 256)
    (fits : length bs + 1 < 2 ^ 64) where
  cleared_full : 0 < o.inner → cleared o ≡ o.region
  cleared_full h = let e : (o.inner == 0) ≡ false = ground arith in rw e

  cleared_other : (i : ℕ) → i ≢ o.outer → cleared o i ≡ o.region i
  cleared_other i h = elim (Bool-cases (o.inner == 0)) [
    | inl e ↦ rw e (update_ne o.region o.outer i 0 h)
    | inr e ↦ rw e
  ]

  low : cleared o o.outer < 2 ^ (o.inner * 8)
  low = elim (Bool-cases (o.inner == 0)) [
    | inl e ↦ rw (e, update_self o.region o.outer 0) (pow_pos (o.inner * 8))
    | inr e ↦ rw e (w.high (ground arith))
  ]

  stored-lt_next : stored o ch < 2 ^ ((o.inner + 1) * 8)
  unfolding stored
  stored-lt_next = word_bound (cleared o o.outer) ch o.inner low byte

  stored-lt : stored o ch < 2 ^ 64
  stored-lt =
      let exponent : 64 ≡ (o.inner + 1) * 8 + (7 - o.inner) * 8 = omega (arith, w.inner) in
      lt_of_factor (stored o ch) (2 ^ ((o.inner + 1) * 8)) (2 ^ ((7 - o.inner) * 8)) (2 ^ 64)
        stored-lt_next (pow_pos ((7 - o.inner) * 8))
        (ap (λ t. 2 ^ t) exponent ∙ pow_add ((o.inner + 1) * 8) ((7 - o.inner) * 8))

  putchar-stores : (putchar_to_socket ch o).region ≡ update (cleared o) o.outer (stored o ch)
  unfolding putchar_to_socket
  putchar-stores =
      let e : bit_or (cleared o o.outer) (ch * 2 ^ (o.inner * 8)) ≡ stored o ch =
        unfold stored in bit_or_disjoint (o.inner * 8) (cleared o o.outer) ch low in
      let f : stored o ch % 2 ^ 64 ≡ stored o ch = omega (arith, stored-lt) in rw (e, f)

  kept_byte :
      (k : ℕ)
      → k < length bs
      → byte_at (update (cleared o) o.outer (stored o ch)) k ≡ byte_at o.region k
  unfolding stored
  kept_byte k lt = elim (ℕ_discrete (k / 8) o.outer) [
    | yes same ↦
        let inside : k % 8 < o.inner = omega (arith, same, w.outer, w.inner) in
        byte_at_eq (update (cleared o) o.outer (stored o ch)) k o.outer (k % 8) same refl
        ∙ ap (λ t. byte_of t (k % 8)) (update_self (cleared o) o.outer (stored o ch))
        ∙ word_low (cleared o o.outer) ch o.inner (k % 8) inside
        ∙ ap (λ (r : Region). byte_of (r o.outer) (k % 8)) (cleared_full (omega arith))
        ∙ sym (byte_at_eq o.region k o.outer (k % 8) same refl)
    | no other ↦
        ap (λ t. byte_of t (k % 8))
          (update_ne (cleared o) o.outer (k / 8) (stored o ch) other ∙ cleared_other (k / 8) other)
  ]

  new_byte : (k : ℕ) → k ≡ length bs → byte_at (update (cleared o) o.outer (stored o ch)) k ≡ ch
  unfolding stored
  new_byte k e =
      byte_at_eq (update (cleared o) o.outer (stored o ch)) k o.outer o.inner
        (omega (arith, w.outer)) (omega (arith, w.inner))
      ∙ ap (λ t. byte_of t o.inner) (update_self (cleared o) o.outer (stored o ch))
      ∙ word_top (cleared o o.outer) ch o.inner low byte

  putchar-Spells : Spells (putchar_to_socket ch o).region (bs ++ ch ∷ [])
  putchar-Spells k lt = rw putchar-stores (elim (dec_lt k (length bs)) [
    | yes old ↦ kept_byte k old ∙ w.spells k old ∙ sym (get_or-append_left bs (ch ∷ []) k 0 old)
    | no new ↦
        let e : k ≡ length bs = omega (arith, lt, length-append bs (ch ∷ [])) in
        new_byte k e ∙ sym (get_or-append_last bs k ch 0 e)
  ])

  one_more : length (bs ++ ch ∷ []) ≡ length bs + 1
  one_more = length-append bs (ch ∷ [])

  putchar-size : (putchar_to_socket ch o).size ≡ length bs + 1
  unfolding putchar_to_socket
  putchar-size = omega (arith, w.size, fits)

  putchar-outer : (putchar_to_socket ch o).outer ≡ (length bs + 1) / 8
  unfolding putchar_to_socket
  putchar-outer = ground (arith, w.inner, w.outer, fits)

  putchar-inner : (putchar_to_socket ch o).inner ≡ (length bs + 1) % 8
  unfolding putchar_to_socket
  putchar-inner = ground (arith, w.inner, fits)

  putchar-same_word :
      0 < (putchar_to_socket ch o).inner
      → ((putchar_to_socket ch o).outer ≡ o.outer) × ((putchar_to_socket ch o).inner ≡ o.inner + 1)
  unfolding putchar_to_socket
  putchar-same_word h = ground arith

  putchar-high :
      0 < (putchar_to_socket ch o).inner
      → (putchar_to_socket ch o).region (putchar_to_socket ch o).outer
        < 2 ^ ((putchar_to_socket ch o).inner * 8)
  putchar-high h =
      let (outer, inner) = putchar-same_word h in
      rw (putchar-stores, outer, inner, update_self (cleared o) o.outer (stored o ch))
        stored-lt_next

  putchar-Wrote : Wrote (bs ++ ch ∷ []) (putchar_to_socket ch o)
  putchar-Wrote = record {
    size = rw one_more putchar-size;
    outer = rw one_more putchar-outer;
    inner = rw one_more putchar-inner;
    spells = putchar-Spells;
    high = putchar-high;
  }

-- Bytes put one after the other stand in the region one after the other, behind those that were
-- there, and the size counts them.
pub put_all-Wrote :
    (chs bs : List ℕ) (o : Output)
    → AllBytes chs
    → length bs + length chs < 2 ^ 64
    → Wrote bs o
    → Wrote (bs ++ chs) (put_all chs o)
unfolding put_all
put_all-Wrote [] bs o all fits w = rw append-nil w
put_all-Wrote (ch ∷ chs) bs o all fits w = rw (← append_assoc bs (ch ∷ []) chs) (
    put_all-Wrote chs (bs ++ ch ∷ []) (putchar_to_socket ch o) all.1
      (omega (arith, fits, length-append bs (ch ∷ [])))
      (putchar-Wrote o ch bs w all.0 (omega arith)))

pub start-Wrote : (r : Region) → Wrote [] (start r)
unfolding start
start-Wrote r = record {
  size = refl;
  outer = refl;
  inner = refl;
  spells = λ k lt. absurd (omega arith);
  high = λ h. absurd (omega arith);
}
