-- ===== src/Base/Memory.antt =====
-- Memory regions as words by index, and the memory behind pointers to them.
use Prim.Native.Nat.{ℕ}
use mathlib.Core.Path.{◌≡◌}
use mathlib.Core.Logic.{◌≢◌}
use native.Mathlib.Omega.{arith}
use caplifive_buildroot.Base.Tests.{◌==◌, if◌then◌else◌}

abbrev pub Region : Type 0
Region = ℕ → ℕ

abbrev pub update : Region → ℕ → ℕ → Region
update r i v j = if i == j then v else r j

-- Two pointers may name the same region.
abbrev pub Memory : Type 0
Memory = ℕ → Region

abbrev pub write : Memory → ℕ → Region → Memory
write m at r q = if at == q then r else m q

pub update_self : (r : Region) (i v : ℕ) → update r i v i ≡ v
update_self r i v = ground arith

pub update_ne : (r : Region) (i j v : ℕ) → j ≢ i → update r i v j ≡ r j
update_ne r i j v h = ground arith

pub write_self : (m : Memory) (a : ℕ) (r : Region) → write m a r a ≡ r
write_self m a r = ground arith

pub write_ne : (m : Memory) (a q : ℕ) (r : Region) → q ≢ a → write m a r q ≡ m q
write_ne m a q r h = ground arith
