-- ===== src/NullBlk/Cache/Refused.antt =====
-- null_blk.c, the branches of `null_flush_cache_page` that copy nothing: a page that another writer
-- has freed, and no memory for a page of the data.
use native.Mathlib.Decide.{ℕ_discrete}
use caplifive_buildroot.Base.{
  ℕ, ◌*◌, ◌/◌, ◌<◌, ◌≡◌, refl, sym, ◌∙◌, inl, inr, arith, true, false, none, some, Bool-cases,
  Returns,
}
use caplifive_buildroot.NullBlk.Store.{
  Page, put, Disk, page_of, sector_bit, null_insert_page, null_lookup_page, null_page_free,
  null_page_empty,
}
use caplifive_buildroot.NullBlk.Store.Block.{reads, reads_page, base, reads-base, put_self, put_ne}
use caplifive_buildroot.NullBlk.Store.Discard.{empty-clear}
use caplifive_buildroot.NullBlk.Cache.{drop_empty, null_flush_cache_page}
use caplifive_buildroot.NullBlk.Cache.View.{cached_reads, shown, cached_reads-over}
use caplifive_buildroot.NullBlk.Cache.Flush.{Ready, insert_Ready, unlocked, unlocked-over}

-- What a dropped page read as.
dropped-reads :
    (p : Page) (i k : ℕ) → null_page_empty p ≡ true → i < 8 → reads_page (some p) i k ≡ 0
dropped-reads p i k e lt = rw (empty-clear 8 i p.bitmap e lt)

module _ (junk : ℕ → ℕ) where
  drop-Ready :
      (idx t k : ℕ) (d d1 : Disk)
      → Ready junk idx d d1
      → reads (drop_empty idx d1 (d1.data_tree idx)) t k ≡ reads d t k
  drop-Ready idx t k d d1 r =
      let p = base junk (d.data_tree idx) in
      elim (Bool-cases (null_page_empty p)) [
        | inl e ↦ elim (ℕ_discrete idx (page_of t)) [
          | yes here ↦
              rw (r.target, e, ← here, put_self d1.data_tree idx none)
                (sym (dropped-reads p (sector_bit t) k e (omega arith))
                  ∙ reads-base junk (d.data_tree idx) (sector_bit t) k)
          | no other ↦ rw (
            r.target,
            e,
            put_ne d1.data_tree idx (page_of t) none other,
            r.others (page_of t) other,
          )
        ]
        | inr e ↦ elim (ℕ_discrete idx (page_of t)) [
          | yes here ↦
              rw (r.target, e, ← here, r.target)
                (reads-base junk (d.data_tree idx) (sector_bit t) k)
          | no other ↦ rw (r.target, e, r.others (page_of t) other)
        ]
      ]

  drop-cache :
      (idx : ℕ) (d d1 : Disk)
      → Ready junk idx d d1
      → (drop_empty idx d1 (d1.data_tree idx)).cache_tree ≡ d.cache_tree
  drop-cache idx d d1 r = elim (Bool-cases (null_page_empty (base junk (d.data_tree idx)))) [
    | inl e ↦ rw (r.target, e, r.cache)
    | inr e ↦ rw (r.target, e, r.cache)
  ]

  -- Flushing a page that has been freed changes neither the cache nor what a block reads as.
  pub flush_freed-reads :
      (rounds idx t k : ℕ) (c : Page) (d : Disk)
      → 0 < d.spare
      → c.bitmap null_page_free ≡ true
      → Returns
          (λ r.
            (r.0 ≡ true)
            × (r.1.cache_tree ≡ d.cache_tree)
            × (cached_reads r.1 t k ≡ cached_reads d t k))
          (null_flush_cache_page junk rounds idx c d)
  unfolding null_flush_cache_page
  flush_freed-reads rounds idx t k c d spare freed =
      let (d1, e, r) = insert_Ready junk idx d spare in
      let d' = drop_empty idx d1 (d1.data_tree idx) in
      let cache = drop-cache idx d d1 r in
      let same : shown d' t k ≡ shown d t k = rw (cache, drop-Ready idx t k d d1 r) in
      rw (freed, e) (refl, cache, cached_reads-over d' t k ∙ same ∙ sym (cached_reads-over d t k))

  no_page :
      (idx : ℕ) (d : Disk)
      → d.spare ≡ 0
      → d.data_tree idx ≡ none
      → null_insert_page junk (idx * 8) true d ≡ (none, d)
  unfolding null_insert_page null_lookup_page
  no_page idx d spare absent =
      let place : idx * 8 / 8 ≡ idx = omega arith in rw (place, absent, spare, place, absent)

  abbrev released : ℕ → Page → Disk → Disk
  released idx c d = record d { cache_tree = put d.cache_tree idx (some (unlocked c)) }

  released-shown :
      (idx t k : ℕ) (c : Page) (d : Disk)
      → d.cache_tree idx ≡ some c
      → shown (released idx c d) t k ≡ shown d t k
  released-shown idx t k c d there = elim (ℕ_discrete idx (page_of t)) [
    | yes here ↦
        rw (← here, put_self d.cache_tree idx (some (unlocked c)), there)
          (unlocked-over c (sector_bit t) k _ (omega arith))
    | no other ↦ rw (put_ne d.cache_tree idx (page_of t) (some (unlocked c)) other)
  ]

  -- Flushing a page that the cache has, with no memory for a page of data that is not there: the
  -- result is -ENOMEM, the page stays in the cache, counted and unlocked, and every block reads as
  -- it did.
  pub flush_refused-reads :
      (rounds idx : ℕ) (c : Page) (d : Disk)
      → d.spare ≡ 0
      → d.data_tree idx ≡ none
      → d.cache_tree idx ≡ some c
      → c.bitmap null_page_free ≡ false
      → Returns
          (λ r.
            (r.0 ≡ false)
            × (r.1.cache_tree idx ≡ some (unlocked c))
            × (r.1.curr_cache ≡ d.curr_cache)
            × ((t k : ℕ) → cached_reads r.1 t k ≡ cached_reads d t k))
          (null_flush_cache_page junk rounds idx c d)
  unfolding null_flush_cache_page
  flush_refused-reads rounds idx c d spare absent there live =
      let d' = released idx c d in
      rw (live, no_page idx d spare absent)
        (
          refl,
          put_self d.cache_tree idx (some (unlocked c)),
          refl,
          λ t k.
              cached_reads-over d' t k
              ∙ released-shown idx t k c d there
              ∙ sym (cached_reads-over d t k),
        )
