-- ===== src/Base/Bits.antt =====
-- `|` on words whose bits do not overlap is addition, and bytes packed into words can be read back.
use Prim.Native.Nat.{
  ℕ, zero, suc, ◌+◌, ◌*◌, ◌/◌, ◌%◌, ◌^◌, ◌≤◌, ◌<◌, max, bit_or, digits, bit_or-bitwise,
}
use mathlib.Core.Path.{◌≡◌, refl, ap, ◌∙◌}
use native.Mathlib.Omega.{arith}
use caplifive_buildroot.Base.Words.{pow_double, pow_suc_add}

abbrev or_digits : ℕ → ℕ → ℕ → ℕ
or_digits = digits (λ y. y) max

or_digits_fuel : (n m a b : ℕ) → a ≤ n → a ≤ m → or_digits n a b ≡ or_digits m a b
or_digits_fuel zero zero a b p q = refl
or_digits_fuel zero (suc m) zero b p q = refl
or_digits_fuel zero (suc m) (suc a) b p q = absurd (omega arith)
or_digits_fuel (suc n) zero zero b p q = refl
or_digits_fuel (suc n) zero (suc a) b p q = absurd (omega arith)
or_digits_fuel (suc n) (suc m) zero b p q = refl
or_digits_fuel (suc n) (suc m) (suc a) b p q =
    omega (arith, or_digits_fuel n m (suc a / 2) (b / 2) (omega arith) (omega arith))

zero-bit_or : (b : ℕ) → bit_or 0 b ≡ b
zero-bit_or b = bit_or-bitwise 0 b

bit_or_step : (a b : ℕ) → bit_or a b ≡ bit_or (a / 2) (b / 2) * 2 + max (a % 2) (b % 2)
bit_or_step zero b = omega (arith, zero-bit_or b, zero-bit_or (b / 2))
bit_or_step (suc a) b = omega (
  arith,
  bit_or-bitwise (suc a) b,
  bit_or-bitwise (suc a / 2) (b / 2),
  or_digits_fuel a (suc a / 2) (suc a / 2) (b / 2) (omega arith) (omega arith),
)

pub bit_or_disjoint : (k a b : ℕ) → a < 2 ^ k → bit_or a (b * 2 ^ k) ≡ a + b * 2 ^ k
bit_or_disjoint zero zero b h = rw zero-bit_or (omega arith)
bit_or_disjoint zero (suc a) b h = absurd (omega arith)
bit_or_disjoint (suc k) a b h =
    let x = b * 2 ^ k in
    let double : b * 2 ^ suc k ≡ 2 * x =
      omega (arith, ap (λ (t : ℕ). b * t) (pow_suc_add k ∙ pow_double k)) in
    let half : 2 * x / 2 ≡ x = omega arith in
    let small : a / 2 < 2 ^ k = omega (arith, pow_suc_add k, pow_double k) in
    rw (double, bit_or_step a (2 * x), half, bit_or_disjoint k (a / 2) b small) (omega arith)
