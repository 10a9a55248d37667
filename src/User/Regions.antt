-- ===== src/User/Regions.antt =====
-- libcapstone.c: what the library keeps about the regions of the device, and `map_region`.
pub mod Learn
pub mod Window
use caplifive_buildroot.Base.{
  ℕ, zero, suc, ◌+◌, ◌*◌, ◌/◌, ◌%◌, ◌^◌, Bool, true, false, ◌||◌, Option, none, some, List, Run,
  done, fault, starved, ◌>>=◌, ltb, leb, ◌==◌, if◌then◌else◌, set, get_or, replicate,
}
use caplifive_buildroot.Base.Words.{sign_extend, page_size}
use caplifive_buildroot.Kernel.Table.{
  Driver, QueryArgs, ioctl_region_query, map_size_limit, max_region_n,
}
use caplifive_buildroot.Kernel.Mmap.{Vma, Mapping, einval, remap, device_mmap}

-- The static variables. `region_n` is the bit pattern of an int.
pub record Known : Type 0 where
  pub region_mmap_offsets : List ℕ
  pub region_mmappable : List Bool
  pub region_n : ℕ

pub nothing_known : Known
nothing_known = record {
  region_mmap_offsets = replicate max_region_n 0;
  region_mmappable = replicate max_region_n false;
  region_n = 0;
}

-- What `map_region` returns: NULL, MAP_FAILED, or the start of the mapping, with the first page
-- frame and the size that the kernel mapped there.
pub data Pointer : Type 0 where
  null : Pointer
  map_failed : Pointer
  window : (at pfn size : ℕ) → Pointer

-- The writes for region `region_n`, and `++ region_n`. An index past the arrays is a fault.
pub remember : QueryArgs → Known → Run Known
remember q k =
    if ltb k.region_n max_region_n
    then done (record {
      region_mmap_offsets = set k.region_mmap_offsets k.region_n q.mmap_offset;
      region_mmappable = set k.region_mmappable k.region_n (ltb q.len map_size_limit);
      region_n = (k.region_n + 1) % 2 ^ 32;
    })
    else fault

-- The kernel's PAGE_ALIGN on unsigned long
abbrev pub page_align : ℕ → ℕ
page_align len = (len + 4095) % 2 ^ 64 / page_size * page_size

abbrev pub pointer_of : Mapping → Pointer
pointer_of einval = map_failed
pointer_of (remap at pfn size) = window at pfn size

module _ {W : Type 0} where
  -- IOCTL_REGION_QUERY for region `region_n`. The kernel's query changes nothing in the kernel.
  pub query_next : Driver W → Known → Run QueryArgs
  query_next d k =
      ioctl_region_query (record { region_id = sign_extend k.region_n; mmap_offset = 0; len = 0 }) d

  -- The loop of `map_region`, for `rounds` rounds at most, and whether it ended by its test.
  pub learn : ℕ → ℕ → Driver W → Known → Run (Bool × Known)
  learn zero region_id d k = starved
  learn (suc rounds) region_id d k =
      let more = query_next d k >>= λ q.
      let rest = remember q k >>= learn rounds region_id d in
      if q.len == 0 then done (false, k) else rest in
      if leb (sign_extend k.region_n) region_id then more else done (true, k)

  -- `mmap(NULL, len, …, dev_fd, offset)`: the checks of the system call, and then the module's own.
  -- `place` is the address that the kernel finds for a mapping of so many bytes.
  pub mmap : (ℕ → Option ℕ) → ℕ → ℕ → Driver W → Run Pointer
  mmap place len offset d =
      if offset % page_size == 0
      then if page_align len == 0 then done map_failed else elim (place (page_align len)) [
        | none ↦ done map_failed
        | some at ↦
            device_mmap
              (record {
                vm_start = at;
                vm_end = at + page_align len;
                vm_pgoff = offset / page_size;
              })
              d
            >>= λ m. done (pointer_of m)
      ]
      else done map_failed

  -- The part of `map_region` after its loop. An index past the arrays is a fault.
  abbrev pub shown : (ℕ → Option ℕ) → ℕ → ℕ → Driver W → Known → Run Pointer
  shown place region_id len d k =
      if ltb region_id max_region_n
      then if get_or k.region_mmappable region_id false
        then mmap place len (get_or k.region_mmap_offsets region_id 0) d
        else done null
      else fault

  pub map_region : (ℕ → Option ℕ) → ℕ → ℕ → Driver W → Known → Run (Pointer × Known)
  map_region place region_id len d k = learn (max_region_n + 1) region_id d k >>= λ r.
      (if r.0 then shown place region_id len d r.1 else done null) >>= λ at. done (at, r.1)
