-- ===== src/NullBlk/Cache/Space.antt =====
-- null_blk.c: the making of space in the cache, and the flush of a device, with no other thread
-- between.
pub mod Count
pub mod Batch
pub mod Flushes
pub mod Round
pub mod Search
pub mod Ends
pub mod Drain
use caplifive_buildroot.Base.{
  ℕ, zero, suc, ◌+◌, ◌-◌, ◌*◌, ◌%◌, ◌^◌, Bool, true, false, not, ◌||◌, ltb, ◌==◌, if◌then◌else◌,
  Option, none, some, List, [], ◌∷◌, Run, done, starved, ◌>>=◌,
}
use caplifive_buildroot.NullBlk.Store.{Page, null_page_lock, Tree, put, set_bit, Disk, Nullb}
use caplifive_buildroot.NullBlk.Cache.{null_flush_cache_page}

abbrev pub locked : Page → Page
locked p = record p { bitmap = set_bit p.bitmap null_page_lock true }

-- The first loop of a round of `null_make_cache_space`: what it does to a page that was found, and
-- whether the page is left in `c_pages`.
abbrev pub lock_page : ℕ × Page → Nullb → Option (ℕ × Page) × Nullb
lock_page (i, p) s =
    let s' = record s { cache_flush_pos = i } in
    if p.bitmap null_page_lock then (none, s') else (
      some (i, locked p),
      record s' { disk = record s.disk { cache_tree = put s.disk.cache_tree i (some (locked p)) } },
    )

unfoldable pub lock_pages : List (ℕ × Page) → Nullb → List (Option (ℕ × Page)) × Nullb
lock_pages [] s = ([], s)
lock_pages (e ∷ es) s =
    let (c, s') = lock_page e s in let (cs, s'') = lock_pages es s' in (c ∷ cs, s'')

-- There is room for `n` bytes, or nothing to flush.
abbrev pub enough : ℕ → Nullb → Bool
enough n s =
    ltb ((s.disk.curr_cache + n) % 2 ^ 64) (s.cache_size * 1024 * 1024 % 2 ^ 64)
    || s.disk.curr_cache == 0

-- After a search that found nothing, the next one starts at the first page.
abbrev pub restart : List (ℕ × Page) → Nullb → Nullb
restart [] s = record s { cache_flush_pos = 0 }
restart (e ∷ es) s = s

module _ (junk : ℕ → ℕ) where
  -- The second loop, with `one_round`. `false` is the error of a flush.
  unfoldable pub flush_pages : List (Option (ℕ × Page)) → ℕ → Disk → Run (Bool × (ℕ × Disk))
  flush_pages [] one_round d = done (true, (one_round, d))
  flush_pages (none ∷ cs) one_round d = flush_pages cs one_round d
  flush_pages (some (i, p) ∷ cs) one_round d = null_flush_cache_page junk 9 i p d >>= λ r.
      let rest = flush_pages cs (one_round + 1) r.1 in
      if r.0 then rest else done (false, (one_round, r.1))

  -- `radix_tree_gang_lookup`, from an index on, of FREE_BATCH pages at most.
  module _ (gang_lookup : Tree → ℕ → List (ℕ × Page)) where
    -- `null_make_cache_space`, from `again` on. `flushed` counts bytes of pages that have left the
    -- cache, so it does not wrap.
    unfoldable pub null_make_cache_space : ℕ → ℕ → ℕ → Nullb → Run (Bool × Nullb)
    null_make_cache_space zero n flushed s = starved
    null_make_cache_space (suc rounds) n flushed s =
        let pages = gang_lookup s.disk.cache_tree s.cache_flush_pos in
        let (c_pages, s') = lock_pages pages s in
        let rest = flush_pages c_pages 0 s'.disk >>= λ r.
        let s'' = record s' { disk = r.1.1 } in
        let flushed' = flushed + r.1.0 * 4096 in
        let again = null_make_cache_space rounds n flushed' (restart pages s'') in
        if not r.0 then done (false, s'') else if ltb flushed' n then again else done (true, s'') in
        if enough n s then done (true, s) else rest

    -- The call of `copy_to_nullb`, for a page. Its result is ignored.
    abbrev pub page_space : ℕ → Nullb → Run Nullb
    page_space rounds s = null_make_cache_space rounds 4096 0 s >>= λ r. done r.1

    -- `null_handle_flush`, with the loop for an active cache
    unfoldable pub flush_loop : ℕ → ℕ → Nullb → Run (Bool × Nullb)
    flush_loop rounds zero s = starved
    flush_loop rounds (suc calls) s =
        null_make_cache_space rounds (s.cache_size * 1024 * 1024 % 2 ^ 64) 0 s >>= λ r.
        let rest = flush_loop rounds calls r.1 in
        if not r.0 || r.1.disk.curr_cache == 0 then done r else rest

    unfoldable pub null_handle_flush : ℕ → ℕ → Nullb → Run (Bool × Nullb)
    null_handle_flush rounds calls s =
        if s.disk.cache_active then flush_loop rounds calls s else done (true, s)
