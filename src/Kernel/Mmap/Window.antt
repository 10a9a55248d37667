-- ===== src/Kernel/Mmap/Window.antt =====
-- capstone.c, `device_mmap`: a window lies inside one region, or there is no mapping.
use native.Mathlib.Decide.{dec_lt}
use caplifive_buildroot.Base.{
  ℕ, zero, suc, ◌+◌, ◌-◌, ◌*◌, ◌/◌, ◌%◌, ◌^◌, ◌≤◌, ◌<◌, ◌≡◌, refl, inl, inr, true, false, Run, done,
  Returns, Returns-mono, Returns-chain, arith, ◌==◌, if◌then◌else◌, Bool-cases,
}
use caplifive_buildroot.Base.Words.{page_size, add64, sub64, int_lt}
use caplifive_buildroot.Kernel.Table.{Driver, entry, max_region_n}
use caplifive_buildroot.Kernel.Table.Layout.{IsValid, IsMappable}
use caplifive_buildroot.Kernel.Mmap.{
  Vma, Mapping, einval, remap, vm_offset, vm_size, holds_window, find_region, device_mmap,
}
use caplifive_buildroot.Kernel.Mmap.Search.{
  Within, Mapped, mapped, refused, holds_window_sound, holds_window_complete, find_region_hit,
  find_region_miss, find_region_end, Found,
}

module _ {W : Type 0} (d : Driver W) (vma : Vma) (v : IsValid d)
    (fits : vm_offset vma + vm_size vma < 2 ^ 64) where
  top :
      (i : ℕ)
      → i < d.region_n
      → IsMappable (entry d i)
      → (entry d i).mmap_offset + (entry d i).len < 2 ^ 64
  top i lt m = omega (arith, v.below i lt m, v.small, v.count)

  miss : (i : ℕ) → i < d.region_n → holds_window (entry d i) vma ≡ false → ¬ Within (entry d i) vma
  miss i lt h w = cc (h, holds_window_complete (entry d i) vma fits (top i lt w.mappable) w)

  skipped :
      (i j : ℕ)
      → ¬ Within (entry d i) vma
      → ((k : ℕ) → i + 1 ≤ k → k < j → ¬ Within (entry d k) vma)
      → (k : ℕ) → i ≤ k
      → k < j
      → ¬ Within (entry d k) vma
  skipped i j here later k lo hi = elim (dec_lt i k) [
    | yes lt ↦ later k (omega arith) hi
    | no ge ↦ let e : k ≡ i = omega arith in rw e here
  ]

  find_region-Found :
      (rounds i : ℕ)
      → i ≤ d.region_n
      → d.region_n < rounds + i
      → Returns (Found vma d i) (find_region rounds i vma d)
  find_region-Found zero i h f = absurd (omega arith)
  find_region-Found (suc rounds) i h f = elim (dec_lt i d.region_n) [
    | yes lt ↦ elim (Bool-cases (holds_window (entry d i) vma)) [
      | inl hit ↦ rw (find_region_hit vma d rounds i lt v.count hit) (
        omega arith,
        h,
        λ k lo hi. absurd (omega arith),
        λ _. holds_window_sound (entry d i) vma fits (top i lt) hit,
      )
      | inr out ↦ rw (find_region_miss vma d rounds i lt v.count out) (
          Returns-mono (Found vma d (i + 1)) (Found vma d i)
            (λ j r. (omega arith, r.1, skipped i j (miss i lt out) r.2, r.3))
            (find_region rounds (i + 1) vma d)
            (find_region-Found rounds (i + 1) (omega arith) (omega arith)))
    ]
    | no end ↦
        rw (find_region_end vma d rounds i (omega arith) v.count)
          (omega arith, h, λ k lo hi. absurd (omega arith), λ lt. absurd (end lt))
  ]

  abbrev answered : ℕ → Run Mapping
  answered i =
      if int_lt i d.region_n
      then done (
          remap vma.vm_start
            (add64 (entry d i).base_paddr (sub64 (vm_offset vma) (entry d i).mmap_offset)
              / page_size)
            (vm_size vma))
      else done einval

  answer : (j : ℕ) → Found vma d 0 j → Returns (Mapped d vma) (answered j)
  answer j r = elim (dec_lt j d.region_n) [
    | yes lt ↦
        let inside : int_lt j d.region_n ≡ true = ground (arith, v.count) in
        let w = r.3 lt in
        let e : sub64 (vm_offset vma) (entry d j).mmap_offset
            ≡ vm_offset vma - (entry d j).mmap_offset =
          omega (arith, w.from) in
        rw (inside, e) (mapped j lt w refl)
    | no end ↦
        let past : int_lt j d.region_n ≡ false = ground (arith, v.count) in
        rw past (refused (λ i lt. r.2 i (omega arith) (omega (arith, r.1))))
  ]

  -- On a valid table, and for a window whose end does not wrap around, `device_mmap` never faults; it
  -- maps a window inside one region in use at the same distance from the region's base, and refuses
  -- only the windows that lie in none.
  pub device_mmap-Mapped : Returns (Mapped d vma) (device_mmap vma d)
  unfolding device_mmap
  device_mmap-Mapped = elim (Bool-cases (d.region_n == 0)) [
    | inl none ↦ rw none (refused (λ i lt. absurd (ground arith)))
    | inr some ↦
        let inside : int_lt max_region_n d.region_n ≡ false = ground (arith, v.count) in
        rw (some, inside)
          (Returns-chain (Found vma d 0) (Mapped d vma) (find_region (max_region_n + 1) 0 vma d)
            answered (find_region-Found (max_region_n + 1) 0 (omega arith) (omega (arith, v.count)))
            (λ j r. answer j r))
  ]

-- The pages that a mapping shows belong to one region in use, and to no other.
abbrev pub Shows : {W : Type 0} → Driver W → Vma → Mapping → Type 0
Shows d vma einval = Unit {0}
Shows d vma (remap start pfn size) =
    0 < size
    → (i : ℕ) × (i < d.region_n)
      × ((entry d i).base_paddr ≤ pfn * page_size)
      × (pfn * page_size + size ≤ (entry d i).base_paddr + (entry d i).len)
      × ((j : ℕ) → j < d.region_n → Within (entry d j) vma → j ≡ i)

module _ {W : Type 0} (d : Driver W) (vma : Vma) (v : IsValid d) where
  pub one_region :
      (i j : ℕ)
      → i < d.region_n
      → j < d.region_n
      → 0 < vm_size vma
      → Within (entry d i) vma
      → Within (entry d j) vma
      → ¬ (i < j)
  one_region i j hi hj some wi wj lt = omega (arith, v.apart i j lt hj wi.mappable, wi.to, wj.from)

  Mapped-Shows :
      (m : Mapping)
      → ((i : ℕ) → i < d.region_n → (entry d i).base_paddr % page_size ≡ 0)
      → ((i : ℕ) → i < d.region_n → (entry d i).base_paddr + (entry d i).len ≤ 2 ^ 64)
      → Mapped d vma m
      → Shows d vma m
  Mapped-Shows einval aligned inside m = tt
  Mapped-Shows (remap start pfn size) aligned inside (mapped i lt w e) = λ some. (
    i,
    lt,
    omega (arith, aligned i lt, inside i lt, v.pages i lt, w.from, w.to, e),
    omega (arith, aligned i lt, inside i lt, v.pages i lt, w.from, w.to, e),
    λ j hj wj. same i j lt hj some w wj,
  )
    where
      same :
          (i j : ℕ)
          → i < d.region_n
          → j < d.region_n
          → 0 < vm_size vma
          → Within (entry d i) vma
          → Within (entry d j) vma
          → j ≡ i
      same i j hi hj some wi wj =
          omega (arith, one_region i j hi hj some wi wj, one_region j i hj hi some wj wi)

  -- With regions that start on a page and end inside the address space, a mapping shows only bytes
  -- of the region whose window was asked for, and a window lies in one region at most.
  pub device_mmap-Shows :
      ((i : ℕ) → i < d.region_n → (entry d i).base_paddr % page_size ≡ 0)
      → ((i : ℕ) → i < d.region_n → (entry d i).base_paddr + (entry d i).len ≤ 2 ^ 64)
      → vm_offset vma + vm_size vma < 2 ^ 64
      → Returns (Shows d vma) (device_mmap vma d)
  device_mmap-Shows aligned inside fits =
      Returns-mono (Mapped d vma) (Shows d vma) (λ m. Mapped-Shows m aligned inside)
        (device_mmap vma d) (device_mmap-Mapped d vma v fits)
