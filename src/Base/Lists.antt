-- ===== src/Base/Lists.antt =====
-- C arrays and byte strings as lists, measured and indexed by native numbers.
use Prim.Native.Nat.{ℕ, zero, suc, ◌+◌, ◌<◌, min}
use mathlib.Core.Path.{◌≡◌, refl, ap, ◌∙◌}
use mathlib.Core.Logic.{◌≢◌}
use native.Mathlib.Decide.{dec_lt}
use mathlib.Core.List.{List, [], ◌∷◌, ◌++◌}
use mathlib.Core.Option.{Option, none, some}
use native.Mathlib.Omega.{arith}

module _ {ℓ} {A : Type ℓ} where
  abbrev pub length : List A → ℕ
  length [] = 0
  length (x ∷ xs) = suc (length xs)

  abbrev pub get_elem? : List A → ℕ → Option A
  get_elem? [] i = none
  get_elem? (x ∷ xs) zero = some x
  get_elem? (x ∷ xs) (suc i) = get_elem? xs i

  abbrev pub get_or : List A → ℕ → A → A
  get_or [] i d = d
  get_or (x ∷ xs) zero d = x
  get_or (x ∷ xs) (suc i) d = get_or xs i d

  -- A write out of bounds changes nothing.
  abbrev pub set : List A → ℕ → A → List A
  set [] i v = []
  set (x ∷ xs) zero v = v ∷ xs
  set (x ∷ xs) (suc i) v = x ∷ set xs i v

  abbrev pub take : ℕ → List A → List A
  take zero xs = []
  take (suc n) [] = []
  take (suc n) (x ∷ xs) = x ∷ take n xs

  abbrev pub drop : ℕ → List A → List A
  drop zero xs = xs
  drop (suc n) [] = []
  drop (suc n) (x ∷ xs) = drop n xs

  abbrev pub replicate : ℕ → A → List A
  replicate zero a = []
  replicate (suc n) a = a ∷ replicate n a

  pub length-append : (xs ys : List A) → length (xs ++ ys) ≡ length xs + length ys
  length-append [] ys = omega arith
  length-append (x ∷ xs) ys = omega (arith, length-append xs ys)

  pub length-set : (xs : List A) (i : ℕ) (v : A) → length (set xs i v) ≡ length xs
  length-set [] i v = refl
  length-set (x ∷ xs) zero v = refl
  length-set (x ∷ xs) (suc i) v = ap suc (length-set xs i v)

  pub get_elem?-eq-get_or :
      (xs : List A) (i : ℕ) (d : A) → i < length xs → get_elem? xs i ≡ some (get_or xs i d)
  get_elem?-eq-get_or [] i d h = absurd (omega arith)
  get_elem?-eq-get_or (x ∷ xs) zero d h = refl
  get_elem?-eq-get_or (x ∷ xs) (suc i) d h = get_elem?-eq-get_or xs i d (omega arith)

  pub get_or-set_self :
      (xs : List A) (i : ℕ) (v d : A) → i < length xs → get_or (set xs i v) i d ≡ v
  get_or-set_self [] i v d h = absurd (omega arith)
  get_or-set_self (x ∷ xs) zero v d h = refl
  get_or-set_self (x ∷ xs) (suc i) v d h = get_or-set_self xs i v d (omega arith)

  pub get_or-set_ne :
      (xs : List A) (i j : ℕ) (v d : A) → i ≢ j → get_or (set xs i v) j d ≡ get_or xs j d
  get_or-set_ne [] i j v d h = refl
  get_or-set_ne (x ∷ xs) zero zero v d h = absurd (h refl)
  get_or-set_ne (x ∷ xs) zero (suc j) v d h = refl
  get_or-set_ne (x ∷ xs) (suc i) zero v d h = refl
  get_or-set_ne (x ∷ xs) (suc i) (suc j) v d h = get_or-set_ne xs i j v d (λ e. h (ap suc e))

  pub length-take : (n : ℕ) (xs : List A) → length (take n xs) ≡ min n (length xs)
  length-take zero xs = omega arith
  length-take (suc n) [] = omega arith
  length-take (suc n) (x ∷ xs) = omega (arith, length-take n xs)

  pub length-replicate : (n : ℕ) (a : A) → length (replicate n a) ≡ n
  length-replicate zero a = refl
  length-replicate (suc n) a = ap suc (length-replicate n a)

-- The elements at the given places of a list under construction: `xs` followed by one more.
pub get_or-append_last {ℓ} :
    {A : Type ℓ} (xs : List A) (i : ℕ) (x d : A) → i ≡ length xs → get_or (xs ++ x ∷ []) i d ≡ x
get_or-append_last [] zero x d h = refl
get_or-append_last [] (suc i) x d h = absurd (omega arith)
get_or-append_last (y ∷ ys) zero x d h = absurd (omega arith)
get_or-append_last (y ∷ ys) (suc i) x d h = get_or-append_last ys i x d (omega arith)

pub get_or-append_left {ℓ} :
    {A : Type ℓ} (xs ys : List A) (i : ℕ) (d : A)
    → i < length xs
    → get_or (xs ++ ys) i d ≡ get_or xs i d
get_or-append_left [] ys i d h = absurd (omega arith)
get_or-append_left (x ∷ xs) ys zero d h = refl
get_or-append_left (x ∷ xs) ys (suc i) d h = get_or-append_left xs ys i d (omega arith)

-- An array whose first `n` elements are those of `f` has one more of them after a write.
pub get_or-set_next {ℓ} :
    {A : Type ℓ} (xs : List A) (n : ℕ) (v d : A) (f : ℕ → A)
    → n < length xs
    → ((i : ℕ) → i < n → get_or xs i d ≡ f i)
    → v ≡ f n
    → (i : ℕ) → i < n + 1
    → get_or (set xs n v) i d ≡ f i
get_or-set_next xs n v d f room known e i lt = elim (dec_lt i n) [
  | yes old ↦ get_or-set_ne xs n i v d (omega arith) ∙ known i old
  | no new ↦ let here : i ≡ n = omega arith in rw here (get_or-set_self xs n v d room ∙ e)
]
