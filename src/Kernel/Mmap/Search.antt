-- ===== src/Kernel/Mmap/Search.antt =====
-- capstone.c, `device_mmap`: which region the search finds for a window.
use caplifive_buildroot.Base.{
  ℕ, suc, ◌+◌, ◌-◌, ◌/◌, ◌^◌, ◌≤◌, ◌<◌, ◌≡◌, true, false, done, arith, ltb,
}
use caplifive_buildroot.Base.Words.{page_size, add64, int_lt}
use caplifive_buildroot.Kernel.Table.{Driver, entry, RegionInfo, max_region_n}
use caplifive_buildroot.Kernel.Table.Layout.{IsMappable}
use caplifive_buildroot.Kernel.Mmap.{
  Vma, Mapping, einval, remap, vm_offset, vm_size, holds_window, find_region,
}

-- The window, as a range of offsets on the device, lies in the window of the region.
pub record Within (r : RegionInfo) (vma : Vma) : Type 0 where
  pub mappable : IsMappable r
  pub from : r.mmap_offset ≤ vm_offset vma
  pub to : vm_offset vma + vm_size vma ≤ r.mmap_offset + r.len

-- What `device_mmap` may do for a window: refuse it when no region in use holds it, or map it at
-- the same distance from the start of one that does.
pub data Mapped {W : Type 0} (d : Driver W) (vma : Vma) : Mapping → Type 0 where
  refused : ((i : ℕ) → i < d.region_n → ¬ Within (entry d i) vma) → Mapped d vma einval
  mapped :
      (i : ℕ) {pfn : ℕ}
      → i < d.region_n
      → Within (entry d i) vma
      → pfn ≡ add64 (entry d i).base_paddr (vm_offset vma - (entry d i).mmap_offset) / page_size
      → Mapped d vma (remap vma.vm_start pfn (vm_size vma))

pub holds_window_sound :
    (r : RegionInfo) (vma : Vma)
    → vm_offset vma + vm_size vma < 2 ^ 64
    → (IsMappable r → r.mmap_offset + r.len < 2 ^ 64)
    → holds_window r vma ≡ true
    → Within r vma
unfolding holds_window
holds_window_sound r vma fits top h = ground arith

pub holds_window_complete :
    (r : RegionInfo) (vma : Vma)
    → vm_offset vma + vm_size vma < 2 ^ 64
    → r.mmap_offset + r.len < 2 ^ 64
    → Within r vma
    → holds_window r vma ≡ true
unfolding holds_window
holds_window_complete r vma fits top w = ground arith

module _ {W : Type 0} (vma : Vma) (d : Driver W) where
  pub find_region_hit :
      (rounds i : ℕ)
      → i < d.region_n
      → d.region_n ≤ 64
      → holds_window (entry d i) vma ≡ true
      → find_region (suc rounds) i vma d ≡ done i
  unfolding find_region
  find_region_hit rounds i lt c h =
      let inside : int_lt i d.region_n ≡ true = ground arith in
      let room : ltb i max_region_n ≡ true = ground arith in rw (inside, room, h)

  pub find_region_miss :
      (rounds i : ℕ)
      → i < d.region_n
      → d.region_n ≤ 64
      → holds_window (entry d i) vma ≡ false
      → find_region (suc rounds) i vma d ≡ find_region rounds (i + 1) vma d
  unfolding find_region
  find_region_miss rounds i lt c h =
      let inside : int_lt i d.region_n ≡ true = ground arith in
      let room : ltb i max_region_n ≡ true = ground arith in rw (inside, room, h)

  pub find_region_end :
      (rounds i : ℕ) → i ≡ d.region_n → d.region_n ≤ 64 → find_region (suc rounds) i vma d ≡ done i
  unfolding find_region
  find_region_end rounds i e c = let past : int_lt i d.region_n ≡ false = ground arith in rw past

  -- What the search from `i` finds.
  abbrev pub Found : ℕ → ℕ → Type 0
  Found i j =
      (i ≤ j)
      × (j ≤ d.region_n)
      × ((k : ℕ) → i ≤ k → k < j → ¬ Within (entry d k) vma)
      × (j < d.region_n → Within (entry d j) vma)
