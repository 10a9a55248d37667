-- ===== src/Base/Outcome.antt =====
-- The outcome of code that may step outside an array (`fault`, undefined behaviour in C) or that a
-- bound on the rounds of a loop may cut short (`starved`).
use mathlib.Core.Path.{◌≡◌, refl}

pub data Run {ℓ} (A : Type ℓ) : Type ℓ where
  done : A → Run A
  fault : Run A
  starved : Run A

infixl 5 ◌>>=◌
abbrev pub ◌>>=◌ {ℓ κ} : {A : Type ℓ} {B : Type κ} → Run A → (A → Run B) → Run B
done a >>= f = f a
fault >>= f = fault
starved >>= f = starved

-- A predicate holds of what a run returns; `fault` and `starved` return nothing.
abbrev pub Returns {ℓ} : {A : Type ℓ} → (A → Type 0) → Run A → Type 0
Returns P (done a) = P a
Returns P fault = ⊥
Returns P starved = ⊥

pub Returns-mono {ℓ} :
    {A : Type ℓ} (P Q : A → Type 0)
    → ((a : A) → P a → Q a)
    → (r : Run A) → Returns P r
    → Returns Q r
Returns-mono P Q f (done a) h = f a h
Returns-mono P Q f fault h = h
Returns-mono P Q f starved h = h

pub Returns-chain {ℓ κ} :
    {A : Type ℓ} {B : Type κ} (P : A → Type 0) (Q : B → Type 0) (r : Run A) (f : A → Run B)
    → Returns P r
    → ((a : A) → P a → Returns Q (f a))
    → Returns Q (r >>= f)
Returns-chain P Q (done a) f h k = k a h
Returns-chain P Q fault f h k = h
Returns-chain P Q starved f h k = h

pub >>=-eq-done {ℓ κ} :
    {A : Type ℓ} {B : Type κ} (m : Run A) (f : A → Run B) {b : B}
    → (m >>= f) ≡ done b
    → (a : A) × (m ≡ done a) × (f a ≡ done b)
>>=-eq-done (done a) f h = (a, refl, h)
>>=-eq-done fault f h = cc
>>=-eq-done starved f h = cc

pub >>=_assoc {ℓ κ ν} :
    {A : Type ℓ} {B : Type κ} {C : Type ν} (m : Run A) (f : A → Run B) (g : B → Run C)
    → ((m >>= f) >>= g) ≡ (m >>= λ a. f a >>= g)
>>=_assoc (done a) f g = refl
>>=_assoc fault f g = refl
>>=_assoc starved f g = refl

pub >>=_cong {ℓ κ} :
    {A : Type ℓ} {B : Type κ} (m : Run A) (f g : A → Run B)
    → ((a : A) → f a ≡ g a)
    → (m >>= f) ≡ (m >>= g)
>>=_cong (done a) f g h = h a
>>=_cong fault f g h = refl
>>=_cong starved f g h = refl

-- The value that a run returns
pub Returns-done {ℓ} :
    {A : Type ℓ} (P : A → Type 0) (m : Run A) → Returns P m → (a : A) × (m ≡ done a) × P a
Returns-done P (done a) h = (a, refl, h)
Returns-done P fault h = absurd h
Returns-done P starved h = absurd h
