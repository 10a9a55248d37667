-- ===== src/Kernel/Table/Layout.antt =====
-- capstone.c: what the table of regions looks like, and that every call that fills it keeps it so.
use caplifive_buildroot.Base.{
  ℕ, ◌+◌, ◌*◌, ◌%◌, ◌≤◌, ◌<◌, ◌≡◌, ◌⊎◌, inl, inr, arith, length, length-set, get_or-set_self,
  get_or-set_ne,
}
use native.Mathlib.Decide.{dec_lt}
use caplifive_buildroot.Kernel.Table.{
  Driver, RegionInfo, no_region, entry, appended, next_offset, map_size_limit, max_region_n,
}

-- A region that can be mapped, which is one below MAP_SIZE_LIMIT
abbrev pub IsMappable : RegionInfo → Type 0
IsMappable r = r.len < map_size_limit

-- The table has MAX_REGION_N entries, of which the first `region_n` are in use and numbered in
-- order. The windows of the mappable ones start on pages, in order, and do not overlap.
pub record IsValid {W : Type 0} (d : Driver W) : Type 0 where
  pub table : length d.regions ≡ max_region_n
  pub count : d.region_n ≤ max_region_n
  pub small : d.pre_mmap_offset ≤ d.region_n * map_size_limit
  pub on_page : d.pre_mmap_offset % 4096 ≡ 0
  pub ids : (i : ℕ) → i < d.region_n → (entry d i).region_id ≡ i
  pub pages : (i : ℕ) → i < d.region_n → (entry d i).mmap_offset % 4096 ≡ 0
  pub below :
      (i : ℕ)
      → i < d.region_n
      → IsMappable (entry d i)
      → (entry d i).mmap_offset + (entry d i).len ≤ d.pre_mmap_offset
  pub apart :
      (i j : ℕ)
      → i < j
      → j < d.region_n
      → IsMappable (entry d i)
      → (entry d i).mmap_offset + (entry d i).len ≤ (entry d j).mmap_offset

next_offset_bounds :
    (pre size n : ℕ)
    → pre ≤ n * map_size_limit
    → n < 64
    → pre % 4096 ≡ 0
    → (pre ≤ next_offset pre size)
      × (next_offset pre size ≤ (n + 1) * map_size_limit)
      × (next_offset pre size % 4096 ≡ 0)
next_offset_bounds pre size n h k e = ground arith

next_offset_covers :
    (pre size n : ℕ)
    → pre ≤ n * map_size_limit
    → n < 64
    → size < map_size_limit
    → pre + size ≤ next_offset pre size
next_offset_covers pre size n h k s = ground arith

module _ {W : Type 0} (id base size : ℕ) (d : Driver W) (v : IsValid d)
    (room : d.region_n < 64) where
  abbrev pub new_region : RegionInfo
  new_region = record {
    region_id = id;
    base_paddr = base;
    len = size;
    mmap_offset = d.pre_mmap_offset;
  }

  pub count-appended : (appended id base size d).region_n ≡ d.region_n + 1
  count-appended = omega arith

  pub entry-appended_last : entry (appended id base size d) d.region_n ≡ new_region
  entry-appended_last =
      get_or-set_self d.regions d.region_n new_region no_region (omega (arith, v.table))

  pub entry-appended_old : (i : ℕ) → i < d.region_n → entry (appended id base size d) i ≡ entry d i
  entry-appended_old i h = get_or-set_ne d.regions d.region_n i _ no_region (omega arith)

  -- An entry in use afterwards is the new one, or one that was in use before.
  appended_cases :
      (i : ℕ)
      → i < (appended id base size d).region_n
      → ((i < d.region_n) × (entry (appended id base size d) i ≡ entry d i))
        ⊎ ((i ≡ d.region_n) × (entry (appended id base size d) i ≡ new_region))
  appended_cases i h = elim (dec_lt i d.region_n) [
    | yes old ↦ inl (old, entry-appended_old i old)
    | no new ↦
        let e : i ≡ d.region_n = omega (arith, count-appended) in inr (e, rw e entry-appended_last)
  ]

  appended-ids :
      id ≡ d.region_n
      → (i : ℕ) → i < (appended id base size d).region_n
      → (entry (appended id base size d) i).region_id ≡ i
  appended-ids e i h = elim (appended_cases i h) [
    | inl (old, same) ↦ rw same (v.ids i old)
    | inr (last, new) ↦ rw new (omega arith)
  ]

  appended-pages :
      (i : ℕ)
      → i < (appended id base size d).region_n
      → (entry (appended id base size d) i).mmap_offset % 4096 ≡ 0
  appended-pages i h = elim (appended_cases i h) [
    | inl (old, same) ↦ rw same (v.pages i old)
    | inr (last, new) ↦ rw new v.on_page
  ]

  appended-below :
      (i : ℕ)
      → i < (appended id base size d).region_n
      → IsMappable (entry (appended id base size d) i)
      → (entry (appended id base size d) i).mmap_offset + (entry (appended id base size d) i).len
        ≤ (appended id base size d).pre_mmap_offset
  appended-below i h = elim (appended_cases i h) [
    | inl (old, same) ↦ rw same (λ m. omega (
      arith,
      v.below i old m,
      next_offset_bounds d.pre_mmap_offset size d.region_n v.small room v.on_page,
    ))
    | inr (last, new) ↦ rw new (next_offset_covers d.pre_mmap_offset size d.region_n v.small room)
  ]

  appended-apart :
      (i j : ℕ)
      → i < j
      → j < (appended id base size d).region_n
      → IsMappable (entry (appended id base size d) i)
      → (entry (appended id base size d) i).mmap_offset + (entry (appended id base size d) i).len
        ≤ (entry (appended id base size d) j).mmap_offset
  appended-apart i j lt h = elim (appended_cases j h) [
    | inl (old, same) ↦ rw (same, entry-appended_old i (omega arith)) (v.apart i j lt old)
    | inr (last, new) ↦ rw (new, entry-appended_old i (omega arith)) (v.below i (omega arith))
  ]

  pub appended-IsValid : id ≡ d.region_n → IsValid (appended id base size d)
  appended-IsValid e =
      let bounds = next_offset_bounds d.pre_mmap_offset size d.region_n v.small room v.on_page in
      record {
        table = rw length-set v.table;
        count = omega arith;
        small = rw count-appended bounds.1;
        on_page = bounds.2;
        ids = appended-ids e;
        pages = appended-pages;
        below = appended-below;
        apart = appended-apart;
      }
