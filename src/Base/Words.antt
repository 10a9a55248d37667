-- ===== src/Base/Words.antt =====
-- Unsigned longs, ints and page arithmetic of the kernel's C, wrap-around written out.
use Prim.Native.Nat.{ℕ, zero, suc, ◌+◌, ◌-◌, ◌*◌, ◌/◌, ◌%◌, ◌^◌, ◌<◌, ◌≤◌}
use mathlib.Core.Path.{◌≡◌, ap, ◌∙◌}
use mathlib.Core.Bool.{Bool}
use mathlib.Core.Logic.{inl, inr}
use native.Mathlib.Omega.{arith}
use native.Mathlib.Nat.{add-zero}
use native.Mathlib.Numerals.{towards_suc}
use caplifive_buildroot.Base.Tests.{ltb, if◌then◌else◌, Bool-cases}

-- PAGE_SIZE
abbrev pub page_size : ℕ
page_size = 4096

-- `a + b` and `a - b` on unsigned long
abbrev pub add64 : ℕ → ℕ → ℕ
add64 a b = (a + b) % 2 ^ 64

abbrev pub sub64 : ℕ → ℕ → ℕ
sub64 a b = (a + 2 ^ 64 - b) % 2 ^ 64

-- `a < b` on two ints, given by their bit patterns
abbrev pub int_lt : ℕ → ℕ → Bool
int_lt a b = ltb ((a + 2 ^ 31) % 2 ^ 32) ((b + 2 ^ 31) % 2 ^ 32)

-- An int, given by its bit pattern, converted to unsigned long.
abbrev pub sign_extend : ℕ → ℕ
sign_extend a = if ltb a (2 ^ 31) then a else a + 2 ^ 64 - 2 ^ 32

-- The kernel's `round_up(x, PAGE_SIZE)`: `((x - 1) | (PAGE_SIZE - 1)) + 1` on unsigned long.
abbrev pub round_up_page : ℕ → ℕ
round_up_page x = (sub64 x 1 / 4096 * 4096 + 4095 + 1) % 2 ^ 64

-- The kernel's `ilog2`: the place of the highest set bit. The first argument bounds the width.
pub ilog2_below : ℕ → ℕ → ℕ
ilog2_below zero n = 0
ilog2_below (suc w) n = if ltb n 2 then 0 else ilog2_below w (n / 2) + 1

unfoldable pub ilog2 : ℕ → ℕ
unfolding ilog2_below
ilog2 n = ilog2_below 64 n

pub pow_double : (n : ℕ) → 2 ^ (n + 1) ≡ 2 * 2 ^ n
pow_double n = simp towards_suc (omega arith)

pub pow_suc_add : (n : ℕ) → 2 ^ suc n ≡ 2 ^ (n + 1)
pow_suc_add n = simp towards_suc

pub pow_pos : (n : ℕ) → 0 < 2 ^ n
pow_pos zero = omega arith
pow_pos (suc n) = omega (arith, pow_pos n, pow_suc_add n, pow_double n)

pub pow_add : (a b : ℕ) → 2 ^ (a + b) ≡ 2 ^ a * 2 ^ b
pow_add a zero = rw add-zero (omega arith)
pow_add a (suc b) =
    let e : a + suc b ≡ a + b + 1 = omega arith in
    rw e (
      omega (
        arith,
        pow_double (a + b),
        pow_add a b,
        ap (λ (t : ℕ). 2 ^ a * t) (pow_suc_add b ∙ pow_double b),
      ))

ilog2_below_bounds :
    (w n : ℕ) → 0 < n → n < 2 ^ w → (2 ^ ilog2_below w n ≤ n) × (n < 2 ^ (ilog2_below w n + 1))
unfolding ilog2_below
ilog2_below_bounds zero n p h = absurd (omega arith)
ilog2_below_bounds (suc w) n p h = elim (Bool-cases (ltb n 2)) [
  | inl small ↦ rw small (ground arith)
  | inr big ↦ rw big (
      let (low, high) =
        ilog2_below_bounds w (n / 2) (ground arith) (ground (arith, pow_double w, pow_suc_add w)) in
      omega (
        arith,
        low,
        high,
        pow_double (ilog2_below w (n / 2)),
        pow_double (ilog2_below w (n / 2) + 1),
      ))
]

-- `ilog2` is the base-2 logarithm, rounded down.
pub ilog2_bounds : (n : ℕ) → 0 < n → n < 2 ^ 64 → (2 ^ ilog2 n ≤ n) × (n < 2 ^ (ilog2 n + 1))
unfolding ilog2
ilog2_bounds n p h = ilog2_below_bounds 64 n p h
