-- ===== src/NullBlk/Store.antt =====
-- capstone_split/module/null_blk.c: the pages that hold a device's data, and the copies to and from
-- them.
pub mod Block
pub mod Round
pub mod Copy
pub mod ReadBack
pub mod Straddle
pub mod Discard
use caplifive_buildroot.Base.{
  ℕ, zero, suc, ◌+◌, ◌-◌, ◌*◌, ◌/◌, ◌%◌, ◌^◌, min, Bool, true, false, not, ◌&&◌, ◌||◌, ltb, leb,
  ◌==◌, if◌then◌else◌, Option, none, some, Run, done, fault, starved, ◌>>=◌,
}

-- struct nullb_page: the bytes of the page, and its bitmap: a bit for each sector, then
-- NULLB_PAGE_FREE (8) and NULLB_PAGE_LOCK (9).
pub record Page : Type 0 where
  pub bytes : ℕ → ℕ
  pub bitmap : ℕ → Bool

abbrev pub null_page_free : ℕ
null_page_free = 8

abbrev pub null_page_lock : ℕ
null_page_lock = 9

-- The kernel's radix tree is a map from an index to a page.
abbrev pub Tree : Type 0
Tree = ℕ → Option Page

abbrev pub put : Tree → ℕ → Option Page → Tree
put t idx p j = if idx == j then p else t j

abbrev pub set_bit : (ℕ → Bool) → ℕ → Bool → ℕ → Bool
set_bit bits i v j = if i == j then v else bits j

-- The device: its two trees, `curr_cache`, its block size, and whether its cache is active. The
-- kernel has `spare` pages left for it.
pub record Disk : Type 0 where
  pub data_tree : Tree
  pub cache_tree : Tree
  pub curr_cache : ℕ
  pub blocksize : ℕ
  pub cache_active : Bool
  pub spare : ℕ

-- A page by the tree that it is in and its index.
pub record Place : Type 0 where
  pub in_cache : Bool
  pub idx : ℕ

abbrev pub root : Disk → Bool → Tree
root d is_cache = if is_cache then d.cache_tree else d.data_tree

abbrev pub with_root : Disk → Bool → Tree → Disk
with_root d true t = record d { cache_tree = t }
with_root d false t = record d { data_tree = t }

-- `sector >> PAGE_SECTORS_SHIFT` and `sector & SECTOR_MASK`
abbrev pub page_of : ℕ → ℕ
page_of sector = sector / 8

abbrev pub sector_bit : ℕ → ℕ
sector_bit sector = sector % 8

abbrev pub empty_from : ℕ → (ℕ → Bool) → Bool
empty_from zero bits = true
empty_from (suc n) bits = not (bits n) && empty_from n bits

-- `null_page_empty`: the first MAP_SZ - 2 bits are clear
abbrev pub null_page_empty : Page → Bool
null_page_empty p = empty_from 8 p.bitmap

-- `null_free_sector`. A page with no sector left leaves the tree.
abbrev pub free_in : Disk → ℕ → Bool → Page → Disk
free_in d sector is_cache p =
    let p' = record p { bitmap = set_bit p.bitmap (sector_bit sector) false } in
    let gone = with_root d is_cache (put (root d is_cache) (page_of sector) none) in
    if null_page_empty p'
    then if is_cache
      then record gone { curr_cache = (d.curr_cache + 2 ^ 32 - 4096) % 2 ^ 32 }
      else gone
    else with_root d is_cache (put (root d is_cache) (page_of sector) (some p'))

abbrev pub free_found : Disk → ℕ → Bool → Option Page → Disk
free_found d sector is_cache none = d
free_found d sector is_cache (some p) = free_in d sector is_cache p

pub null_free_sector : ℕ → Bool → Disk → Disk
null_free_sector sector is_cache d = free_found d sector is_cache (root d is_cache (page_of sector))

-- `__null_lookup_page`
abbrev pub found_in : ℕ → Bool → Bool → Option Page → Option Place
found_in sector for_write is_cache none = none
found_in sector for_write is_cache (some p) =
    if for_write || p.bitmap (sector_bit sector)
    then some (record { in_cache = is_cache; idx = page_of sector })
    else none

abbrev pub lookup_in : Disk → ℕ → Bool → Bool → Option Place
lookup_in d sector for_write is_cache =
    found_in sector for_write is_cache (root d is_cache (page_of sector))

abbrev pub or_else : Option Place → Option Place → Option Place
or_else none q = q
or_else (some p) q = some p

unfoldable pub null_lookup_page : Disk → ℕ → Bool → Bool → Option Place
null_lookup_page d sector for_write ignore_cache =
    or_else (if ignore_cache then none else lookup_in d sector for_write true)
      (lookup_in d sector for_write false)

-- `memcpy` of `temp` bytes into a page, at `offset`
abbrev pub write_bytes : (ℕ → ℕ) → ℕ → ℕ → (ℕ → ℕ) → ℕ → ℕ
write_bytes bytes offset temp source j =
    if leb offset j && ltb j (offset + temp) then source (j - offset) else bytes j

abbrev pub filled : ℕ → ℕ → (ℕ → ℕ) → Page → Page
filled sector temp source p = record {
  bytes = write_bytes p.bytes (sector_bit sector * 512) temp source;
  bitmap = set_bit p.bitmap (sector_bit sector) true;
}

abbrev pub write_found : Place → (Page → Page) → Disk → Option Page → Disk
write_found at f d none = d
write_found at f d (some p) = with_root d at.in_cache (put (root d at.in_cache) at.idx (some (f p)))

abbrev pub write_page : Place → (Page → Page) → Disk → Disk
write_page at f d = write_found at f d (root d at.in_cache at.idx)

-- A page from the kernel: the bitmap is clear, the bytes are what they were.
module _ (junk : ℕ → ℕ) where
  abbrev pub null_alloc_page : Page
  null_alloc_page = record { bytes = junk; bitmap = λ i. false }

  -- `null_radix_tree_insert` of a new page. One that is there stays.
  abbrev pub insert_found : ℕ → Bool → Disk → Option Page → Disk
  insert_found idx is_cache d (some p) = d
  insert_found idx is_cache d none =
      let d' = with_root d is_cache (put (root d is_cache) idx (some null_alloc_page)) in
      if is_cache then record d' { curr_cache = (d.curr_cache + 4096) % 2 ^ 32 } else d'

  abbrev pub null_radix_tree_insert : ℕ → Bool → Disk → Disk
  null_radix_tree_insert idx is_cache d = insert_found idx is_cache d (root d is_cache idx)

  -- The part of `null_insert_page` after the first search. Without memory it searches once more.
  abbrev pub insert_missing : ℕ → Bool → Disk → Option Place × Disk
  insert_missing sector ignore_cache d =
      if d.spare == 0 then (null_lookup_page d sector true ignore_cache, d) else (
        some (record { in_cache = not ignore_cache; idx = page_of sector }),
        null_radix_tree_insert (page_of sector) (not ignore_cache)
            (record d { spare = d.spare - 1 }),
      )

  abbrev pub inserted : ℕ → Bool → Disk → Option Place → Option Place × Disk
  inserted sector ignore_cache d (some at) = (some at, d)
  inserted sector ignore_cache d none = insert_missing sector ignore_cache d

  unfoldable pub null_insert_page : ℕ → Bool → Disk → Option Place × Disk
  null_insert_page sector ignore_cache d =
      inserted sector ignore_cache d (null_lookup_page d sector true ignore_cache)

-- struct nullb: the device, its `cache_size`, and where the next search of the cache starts.
pub record Nullb : Type 0 where
  pub disk : Disk
  pub cache_size : ℕ
  pub cache_flush_pos : ℕ

-- One round of `copy_to_nullb`, for `temp` bytes, from the search of the page on. `false` is
-- -ENOSPC.
abbrev pub stored : ℕ → Bool → ℕ → (ℕ → ℕ) → Nullb → Option Place × Disk → Run (Bool × Nullb)
stored sector is_fua temp source s (none, d) = done (false, record s { disk = d })
stored sector is_fua temp source s (some at, d) =
    let d' = write_page at (filled sector temp source) d in
    let d'' = if is_fua then null_free_sector sector true d' else d' in
    if leb (sector_bit sector * 512 + temp) 4096
    then done (true, record s { disk = d'' })
    else fault

-- `make_cache_space` is the call of `null_make_cache_space` for a page, which needs this file.
module _ (junk : ℕ → ℕ) (make_cache_space : Nullb → Run Nullb) where
  unfoldable pub copy_to_round : ℕ → Bool → ℕ → (ℕ → ℕ) → Nullb → Run (Bool × Nullb)
  copy_to_round sector is_fua temp source s =
      (if s.disk.cache_active && not is_fua then make_cache_space s else done s) >>= λ ready.
      stored sector is_fua temp source ready
        (null_insert_page junk sector (not ready.disk.cache_active || is_fua) ready.disk)

  -- `copy_to_nullb`: `source` has the bytes from `off` on, of which `n` are left to copy.
  unfoldable pub copy_to_nullb : ℕ → ℕ → Bool → ℕ → (ℕ → ℕ) → Nullb → Run (Bool × Nullb)
  copy_to_nullb zero sector is_fua n source s = starved
  copy_to_nullb (suc rounds) sector is_fua n source s =
      let temp = min s.disk.blocksize n in
      let rest = copy_to_round sector is_fua temp source s >>= λ r.
      let again =
        copy_to_nullb rounds (sector + temp / 512) is_fua (n - temp) (λ j. source (temp + j)) r.1 in
      if r.0 then again else done r in
      if n == 0 then done (true, s) else rest

-- What the reader finds at a place, or zeroes.
abbrev pub bytes_found : ℕ → Option Page → ℕ → ℕ
bytes_found sector none k = 0
bytes_found sector (some p) k = p.bytes (sector_bit sector * 512 + k)

abbrev pub page_bytes : Disk → ℕ → Option Place → ℕ → ℕ
page_bytes d sector none k = 0
page_bytes d sector (some at) k = bytes_found sector (root d at.in_cache at.idx) k

-- A page that is found is read past its end where the block does not end in it.
abbrev pub copy_from_round : Disk → ℕ → ℕ → ℕ → (ℕ → ℕ) → Option Place → Run (ℕ → ℕ)
copy_from_round d sector temp at dest none = done (write_bytes dest at temp (λ k. 0))
copy_from_round d sector temp at dest (some place) =
    if leb (sector_bit sector * 512 + temp) 4096
    then done (write_bytes dest at temp (page_bytes d sector (some place)))
    else fault

-- `copy_from_nullb`: `n` bytes are left to copy, to `dest` from `at` on.
pub copy_from_nullb : ℕ → ℕ → ℕ → ℕ → (ℕ → ℕ) → Disk → Run (ℕ → ℕ)
copy_from_nullb zero sector n at dest d = starved
copy_from_nullb (suc rounds) sector n at dest d =
    let temp = min d.blocksize n in
    let rest =
      copy_from_round d sector temp at dest (null_lookup_page d sector false (not d.cache_active))
      >>= λ dest'. copy_from_nullb rounds (sector + temp / 512) (n - temp) (at + temp) dest' d in
    if n == 0 then done dest else rest

-- `null_handle_discard`, for the `n` bytes of its sectors
pub null_handle_discard : ℕ → ℕ → ℕ → Disk → Run Disk
null_handle_discard zero sector n d = starved
null_handle_discard (suc rounds) sector n d =
    let temp = min n d.blocksize in
    let d' = null_free_sector sector false d in
    let d'' = if d.cache_active then null_free_sector sector true d' else d' in
    let rest = null_handle_discard rounds (sector + temp / 512) (n - temp) d'' in
    if ltb 0 n then rest else done d
