-- ===== src/NullBlk/Cache.antt =====
-- null_blk.c: the write of a page of the cache back to the data.
pub mod Blocks
pub mod View
pub mod Flush
pub mod Refused
pub mod Space
pub mod Write
pub mod Tests
use caplifive_buildroot.Base.{
  ℕ, zero, suc, ◌+◌, ◌-◌, ◌*◌, ◌/◌, ◌%◌, ◌^◌, Bool, true, false, ltb, leb, if◌then◌else◌, Option,
  none, some, Run, done, fault, starved, ◌>>=◌,
}
use caplifive_buildroot.NullBlk.Store.{
  Page, null_page_free, null_page_lock, put, set_bit, Disk, Place, root, with_root, null_page_empty,
  write_bytes, write_page, null_insert_page,
}

-- `memcpy(dst + offset, src + offset, blocksize)` and `__set_bit(i, t_page->bitmap)`
abbrev pub copied : ℕ → ℕ → Page → Page → Page
copied i blocksize c_page t_page = record {
  bytes = write_bytes t_page.bytes (i * 512) blocksize (λ j. c_page.bytes (i * 512 + j));
  bitmap = set_bit t_page.bitmap i true;
}

-- A block that the cache has and that ends past its page is copied past the end of both pages.
abbrev pub flush_block : ℕ → ℕ → Page → Page → Run Page
flush_block i blocksize c_page t_page =
    if c_page.bitmap i
    then if leb (i * 512 + blocksize) 4096 then done (copied i blocksize c_page t_page) else fault
    else done t_page

-- The loop of `null_flush_cache_page`, from sector `i` of the page on.
unfoldable pub flush_blocks : ℕ → ℕ → ℕ → Page → Page → Run Page
flush_blocks zero i blocksize c_page t_page = starved
flush_blocks (suc rounds) i blocksize c_page t_page =
    let rest = flush_block i blocksize c_page t_page >>= λ t_page'.
    flush_blocks rounds (i + blocksize / 512) blocksize c_page t_page' in
    if ltb i 8 then rest else done t_page

-- The branch for a page of the cache that has been freed: the page of the data that has no sector
-- leaves its tree.
abbrev pub drop_empty : ℕ → Disk → Option Page → Disk
drop_empty idx d none = d
drop_empty idx d (some t_page) =
    if null_page_empty t_page then record d { data_tree = put d.data_tree idx none } else d

abbrev pub flush_freed : ℕ → Option Place × Disk → Disk
flush_freed idx (none, d) = d
flush_freed idx (some at, d) = drop_empty idx d (root d at.in_cache at.idx)

-- The loop on the page of the data at `at`, and the removal of the page from the cache.
abbrev pub flush_found : ℕ → ℕ → Page → Place → Disk → Option Page → Run (Bool × Disk)
flush_found rounds idx c_page at d none = fault
flush_found rounds idx c_page at d (some t_page) =
    flush_blocks rounds 0 d.blocksize c_page t_page >>= λ t_page'.
    let d' = with_root d at.in_cache (put (root d at.in_cache) at.idx (some t_page')) in
    done (
      true,
      record d' {
        cache_tree = put d'.cache_tree idx none;
        curr_cache = (d'.curr_cache + 2 ^ 32 - 4096) % 2 ^ 32;
      },
    )

-- Without a page for the data, the result is -ENOMEM, and the page stays in the cache, unlocked.
abbrev pub flush_to : ℕ → ℕ → Page → Option Place × Disk → Run (Bool × Disk)
flush_to rounds idx c_page (none, d) =
    done (false, record d { cache_tree = put d.cache_tree idx (some c_page) })
flush_to rounds idx c_page (some at, d) =
    flush_found rounds idx c_page at d (root d at.in_cache at.idx)

-- `null_flush_cache_page`, of the page with index `idx`, which is in the cache unless it has been
-- freed. `true` is the result 0.
module _ (junk : ℕ → ℕ) where
  unfoldable pub null_flush_cache_page : ℕ → ℕ → Page → Disk → Run (Bool × Disk)
  null_flush_cache_page rounds idx c_page d =
      let to = null_insert_page junk (idx * 8) true d in
      let c_page' = record c_page { bitmap = set_bit c_page.bitmap null_page_lock false } in
      if c_page'.bitmap null_page_free
      then done (true, flush_freed idx to)
      else flush_to rounds idx c_page' to
