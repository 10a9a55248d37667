-- ===== src/Kernel/Table/Growth.antt =====
-- capstone.c: what the module relies on of the firmware, and a table that has grown.
use native.Mathlib.Decide.{dec_lt}
use caplifive_buildroot.Base.{ℕ, ◌≤◌, ◌<◌, ◌≡◌, refl, ◌∙◌, arith}
use caplifive_buildroot.Kernel.Sbi.{
  Platform, Sbi, region_count, region_query, region_create, field_base, field_len,
}
use caplifive_buildroot.Kernel.Table.{Driver, entry, max_region_n}
use caplifive_buildroot.Kernel.Table.Layout.{IsValid}

-- What the module relies on: the firmware has a number of regions that no call makes smaller and
-- that the module's table can hold, it reports that number, it numbers a new region within it,
-- and it answers queries with the base and the length of a region, which no call of the firmware
-- changes once the region is there.
pub record Firmware {W : Type 0} (p : Platform W) : Type 0 where
  pub count : W → ℕ
  pub base : W → ℕ → ℕ
  pub size : W → ℕ → ℕ
  pub capped : (w : W) → count w ≤ max_region_n
  pub told : (w : W) → (p.sbi region_count w).0 ≡ count w
  pub grows : (c : Sbi) (w : W) → count w ≤ count (p.sbi c w).1
  pub made :
      (at len : ℕ) (w : W)
      → (p.sbi (region_create at len) w).0 < count (p.sbi (region_create at len) w).1
  pub base_of : (i : ℕ) (w : W) → (p.sbi (region_query i field_base) w).0 ≡ base w i
  pub size_of : (i : ℕ) (w : W) → (p.sbi (region_query i field_len) w).0 ≡ size w i
  pub base_kept : (c : Sbi) (w : W) (i : ℕ) → i < count w → base (p.sbi c w).1 i ≡ base w i
  pub size_kept : (c : Sbi) (w : W) (i : ℕ) → i < count w → size (p.sbi c w).1 i ≡ size w i
  pub allocates : (order : ℕ) (w : W) → count w ≤ count (p.get_free_pages order w).1
  pub copies : (to from n : ℕ) (w : W) → count w ≤ count (p.copy_from_user to from n w)
  pub clears : (at n : ℕ) (w : W) → count w ≤ count (p.clear at n w)

-- The module knows of no region that the firmware does not have.
abbrev pub IsSynced : {W : Type 0} {p : Platform W} → Firmware p → Driver W → Type 0
IsSynced f d = d.region_n ≤ f.count d.world

-- The table `d'` is `d` with the regions up to `new` added as the firmware describes them.
pub record Extends {W : Type 0} (base size : ℕ → ℕ) (new : ℕ) (d d' : Driver W) : Type 0 where
  pub valid : IsValid d'
  pub count : d'.region_n ≡ new
  pub kept : (i : ℕ) → i < d.region_n → entry d' i ≡ entry d i
  pub learnt :
      (i : ℕ)
      → d.region_n ≤ i
      → i < new
      → ((entry d' i).base_paddr ≡ base i) × ((entry d' i).len ≡ size i)

pub world-IsValid :
    {W : Type 0} (d : Driver W) (w : W) → IsValid d → IsValid (record d { world = w })
world-IsValid d w v = record {
  table = v.table;
  count = v.count;
  small = v.small;
  on_page = v.on_page;
  ids = v.ids;
  pages = v.pages;
  below = v.below;
  apart = v.apart;
}

pub Extends-trans :
    {W : Type 0} (base size : ℕ → ℕ) (n m : ℕ) (a b c : Driver W)
    → Extends base size n a b
    → Extends base size m b c
    → a.region_n ≤ n
    → Extends base size m a c
Extends-trans base size n m a b c e f h = record {
  valid = f.valid;
  count = f.count;
  kept = λ i lt. f.kept i (omega (arith, e.count)) ∙ e.kept i lt;
  learnt = λ i lo hi. elim (dec_lt i n) [
    | yes lt ↦ rw (f.kept i (omega (arith, e.count))) (e.learnt i lo lt)
    | no ge ↦ f.learnt i (omega (arith, e.count)) hi
  ];
}

pub Extends-refl :
    {W : Type 0} (base size : ℕ → ℕ) (n : ℕ) (d : Driver W)
    → IsValid d
    → d.region_n ≡ n
    → Extends base size n d d
Extends-refl base size n d v e = record {
  valid = v;
  count = e;
  kept = λ i lt. refl;
  learnt = λ i lo hi. absurd (omega arith);
}
