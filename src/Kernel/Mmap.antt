-- ===== src/Kernel/Mmap.antt =====
-- capstone.c, `device_mmap`: which physical pages a window on the device shows.
pub mod Search
pub mod Window
use caplifive_buildroot.Base.{
  ℕ, zero, suc, ◌+◌, ◌*◌, ◌/◌, ◌%◌, ◌^◌, Bool, true, false, ◌&&◌, Run, done, fault, starved, ◌>>=◌,
  ltb, leb, ◌==◌, if◌then◌else◌,
}
use caplifive_buildroot.Base.Words.{page_size, add64, sub64, int_lt}
use caplifive_buildroot.Kernel.Table.{Driver, RegionInfo, entry, map_size_limit, max_region_n}

-- The fields of struct vm_area_struct that the module reads.
pub record Vma : Type 0 where
  pub vm_start : ℕ
  pub vm_end : ℕ
  pub vm_pgoff : ℕ

-- -EINVAL, or the call of `remap_pfn_range` with its start, first page frame and size
pub data Mapping : Type 0 where
  einval : Mapping
  remap : (start pfn size : ℕ) → Mapping

abbrev pub vm_offset : Vma → ℕ
vm_offset vma = vma.vm_pgoff * page_size % 2 ^ 64

abbrev pub vm_size : Vma → ℕ
vm_size vma = sub64 vma.vm_end vma.vm_start

-- The loop's test of one region.
pub holds_window : RegionInfo → Vma → Bool
holds_window r vma =
    ltb r.len map_size_limit
    && leb r.mmap_offset (vm_offset vma)
    && leb (add64 (vm_offset vma) (vm_size vma)) (add64 r.mmap_offset r.len)

module _ {W : Type 0} where
  -- The second loop, from index `i`, for `rounds` rounds at most. It returns the final `i`.
  pub find_region : ℕ → ℕ → Vma → Driver W → Run ℕ
  find_region zero i vma d = starved
  find_region (suc rounds) i vma d =
      let rest = find_region rounds (i + 1) vma d in
      let round =
        if ltb i max_region_n
        then if holds_window (entry d i) vma then done i else rest
        else fault in
      if int_lt i d.region_n then round else done i

  -- Before it looks, the code prints each entry in use, so more entries than the table has fault.
  pub device_mmap : Vma → Driver W → Run Mapping
  device_mmap vma d =
      if d.region_n == 0
      then done einval
      else if int_lt max_region_n d.region_n
      then fault
      else find_region (max_region_n + 1) 0 vma d >>= λ i.
          if int_lt i d.region_n
          then done (
              remap vma.vm_start
                (add64 (entry d i).base_paddr (sub64 (vm_offset vma) (entry d i).mmap_offset)
                  / page_size)
                (vm_size vma))
          else done einval
