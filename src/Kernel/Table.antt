-- ===== src/Kernel/Table.antt =====
-- capstone.c: the table of regions that the module keeps, and the calls that fill it and read it.
pub mod Layout
pub mod Growth
pub mod Fill
pub mod Overflow
pub mod Create
use caplifive_buildroot.Base.{
  ℕ, zero, suc, ◌+◌, ◌-◌, ◌/◌, ◌%◌, ◌^◌, List, Run, done, fault, starved, ◌>>=◌, ltb, ◌==◌,
  if◌then◌else◌, set, get_or, replicate,
}
use caplifive_buildroot.Base.Words.{
  page_size, add64, sub64, int_lt, sign_extend, round_up_page, ilog2,
}
use caplifive_buildroot.Kernel.Sbi.{Platform, region_create, region_query, region_count}
use caplifive_buildroot.Kernel.Sbi.{field_base, field_len}

-- MAP_SIZE_LIMIT and MAX_REGION_N
abbrev pub map_size_limit : ℕ
map_size_limit = 0x10000000

abbrev pub max_region_n : ℕ
max_region_n = 64

-- struct RegionInfo
pub record RegionInfo : Type 0 where
  pub region_id : ℕ
  pub base_paddr : ℕ
  pub len : ℕ
  pub mmap_offset : ℕ

abbrev pub no_region : RegionInfo
no_region = record { region_id = 0; base_paddr = 0; len = 0; mmap_offset = 0 }

-- The module's static variables. `region_n` is the bit pattern of an int.
pub record Driver (W : Type 0) : Type 0 where
  pub pre_mmap_offset : ℕ
  pub regions : List RegionInfo
  pub region_n : ℕ
  pub world : W

-- `capstone_init`, once `misc_register` has succeeded
unfoldable pub init : {W : Type 0} → W → Driver W
init w = record {
  pre_mmap_offset = 0;
  regions = replicate max_region_n no_region;
  region_n = 0;
  world = w;
}

-- `pre_mmap_offset` after a region of `len` bytes
abbrev pub next_offset : ℕ → ℕ → ℕ
next_offset pre len = if ltb len map_size_limit then round_up_page (add64 pre len) else pre

-- The writes to `regions[region_n]`, and `++ region_n`.
abbrev pub appended : {W : Type 0} → ℕ → ℕ → ℕ → Driver W → Driver W
appended id base size d = record d {
  regions =
      set d.regions d.region_n
        (record { region_id = id; base_paddr = base; len = size; mmap_offset = d.pre_mmap_offset });
  pre_mmap_offset = next_offset d.pre_mmap_offset size;
  region_n = (d.region_n + 1) % 2 ^ 32;
}

-- An index past the table is a fault.
pub append_region : {W : Type 0} → ℕ → ℕ → ℕ → Driver W → Run (Driver W)
append_region id base size d =
    if ltb d.region_n max_region_n then done (appended id base size d) else fault

-- `(len - 1) / PAGE_SIZE + 1`, and the order of the allocation that holds so many pages
abbrev pub pages_of : ℕ → ℕ
pages_of size = sub64 size 1 / page_size + 1

unfoldable pub order_of : ℕ → ℕ
order_of pages = if pages == 1 then 0 else ilog2 (pages - 1) + 1

-- struct ioctl_region_create_args and struct ioctl_region_query_args
pub record CreateArgs : Type 0 where
  pub len : ℕ
  pub region_id : ℕ
  pub mmap_offset : ℕ

pub record QueryArgs : Type 0 where
  pub region_id : ℕ
  pub mmap_offset : ℕ
  pub len : ℕ

module _ {W : Type 0} (p : Platform W) where
  -- One round of the loop of `probe_regions`.
  pub probe_round : Driver W → Run (Driver W)
  probe_round d =
      let (base, w) = p.sbi (region_query d.region_n field_base) d.world in
      let (size, w') = p.sbi (region_query d.region_n field_len) w in
      append_region d.region_n base size (record d { world = w' })

  -- The loop, for `rounds` rounds at most.
  pub probe_loop : ℕ → ℕ → Driver W → Run (Driver W)
  probe_loop zero new d = starved
  probe_loop (suc rounds) new d =
      let rest = probe_round d >>= probe_loop rounds new in
      if int_lt d.region_n new then rest else done (record d { region_n = new })

  -- Each round writes a further entry, so the 65th faults.
  pub probe_regions : Driver W → Run (Driver W)
  probe_regions d =
      let (n, w) = p.sbi region_count d.world in
      probe_loop (max_region_n + 1) (n % 2 ^ 32) (record d { world = w })

  -- What `ioctl_create_region` does with the identifier `id` that the firmware gave.
  pub record_region : ℕ → ℕ → ℕ → Driver W → Run (Driver W)
  record_region id base size d =
      if ltb id (sign_extend d.region_n)
      then done d
      else if sign_extend d.region_n == id
      then append_region id base size d
      else probe_regions d

  pub ioctl_create_region : CreateArgs → Driver W → Run (CreateArgs × Driver W)
  ioctl_create_region args d =
      let (vaddr, w) = p.get_free_pages (order_of (pages_of args.len)) d.world in
      let (id, w') = p.sbi (region_create (p.pa vaddr) args.len) w in
      if vaddr == 0
      then done (args, record d { world = w })
      else record_region id (p.pa vaddr) args.len (record d { world = w' }) >>= λ d'.
          done (record args { region_id = id }, d')

-- `regions[region_id]`, for an index inside the table
abbrev pub entry : {W : Type 0} → Driver W → ℕ → RegionInfo
entry d i = get_or d.regions i no_region

-- The `else` branch reads `regions[m_args.region_id]`, which is a fault past the table.
unfoldable pub ioctl_region_query : {W : Type 0} → QueryArgs → Driver W → Run QueryArgs
ioctl_region_query args d =
    if ltb args.region_id (sign_extend d.region_n)
    then if ltb args.region_id max_region_n
      then done (record args {
        len = (entry d args.region_id).len;
        mmap_offset = (entry d args.region_id).mmap_offset;
      })
      else fault
    else done (record args { len = 0; mmap_offset = 0 })
