-- ===== src/NullBlk/Cache/Write.antt =====
-- null_blk.c: a round of `copy_to_nullb` on a device with a cache.
pub mod Counts
pub mod Stored
pub mod Loop
pub mod ReadBack
use native.Mathlib.Decide.{ℕ_discrete}
use caplifive_buildroot.Base.{
  ℕ, ◌+◌, ◌-◌, ◌*◌, ◌/◌, ◌%◌, ◌^◌, ◌≤◌, ◌<◌, ◌≡◌, refl, sym, ap, ◌∙◌, ◌≢◌, inl, inr, arith, Bool,
  true, false, leb, ◌==◌, Option, none, some, Option-cases, Run, done,
}
use caplifive_buildroot.NullBlk.Store.{
  Page, Tree, put, Disk, Place, Nullb, page_of, sector_bit, null_lookup_page, null_insert_page,
  filled, write_page, null_page_free, null_page_lock, stored,
}
use caplifive_buildroot.NullBlk.Store.Block.{
  over, filled-over, filled-over_others, Sectors, Disjoint, aligned_fits, aligned-Disjoint, base,
  filled-reads, filled-others, put_self, put_ne, put_twice, set_bit_self, set_bit_ne,
  write_bytes_inside, write_bytes_outside,
}
use caplifive_buildroot.NullBlk.Store.Copy.{Sectors-pos}
use caplifive_buildroot.NullBlk.Cache.View.{cached_reads, over_page, shown, cached_reads-over}
use caplifive_buildroot.NullBlk.Cache.Space.Count.{present, count, count-eq, count_removed}
use caplifive_buildroot.NullBlk.Cache.Space.Batch.{Counted, some_below}
use caplifive_buildroot.NullBlk.Cache.Space.Round.{Idle}

over-base :
    (junk : ℕ → ℕ) (o : Option Page) (i k below : ℕ)
    → over (base junk o) i k below ≡ over_page o i k below
over-base junk none i k below = refl
over-base junk (some p) i k below = refl

-- The page of the block in the cache is written.
pub record ToCache (junk source : ℕ → ℕ) (sector temp : ℕ) (d d' : Disk) : Type 0 where
  pub tree :
      (i : ℕ)
      → d'.cache_tree i
        ≡ put d.cache_tree
            (page_of sector)
            (some (filled sector temp source (base junk (d.cache_tree (page_of sector)))))
            i
  pub untouched : d'.data_tree ≡ d.data_tree

-- After a round that has written the block at `sector`: it reads as the source, and all others read
-- as before.
pub record Shows (q sector : ℕ) (source : ℕ → ℕ) (d d' : Disk) : Type 0 where
  pub inside : (k : ℕ) → k < 512 * q → cached_reads d' sector k ≡ source k
  pub outside :
      (t k : ℕ) → t % q ≡ 0 → sector ≢ t → k < 512 * q → cached_reads d' t k ≡ cached_reads d t k

pub ToCache-Shows :
    (junk source : ℕ → ℕ) (q sector : ℕ) (d d' : Disk)
    → Sectors q
    → sector % q ≡ 0
    → ToCache junk source sector (512 * q) d d'
    → Shows q sector source d d'
ToCache-Shows junk source q sector d d' size a w = record {
  inside = λ k h.
      cached_reads-over d' sector k
      ∙ rw (w.tree (page_of sector), put_self d.cache_tree (page_of sector) (some new))
          (filled-over old sector (512 * q) k _ source h);
  outside = λ t k b ne h.
      cached_reads-over d' t k
      ∙ elim (ℕ_discrete (page_of sector) (page_of t)) [
        | yes here ↦
            rw
              (
                w.untouched,
                w.tree (page_of t),
                ← here,
                put_self d.cache_tree (page_of sector) (some new),
              )
              (filled-over_others old sector q t k _ source
                  (aligned-Disjoint q sector t size a b ne here) (Sectors-pos q size) h
                ∙ over-base junk (d.cache_tree (page_of sector)) (sector_bit t) k _)
        | no other ↦ rw (
          w.untouched,
          w.tree (page_of t),
          put_ne d.cache_tree (page_of sector) (page_of t) (some new) other,
        )
      ]
      ∙ sym (cached_reads-over d t k);
}
  where
    old : Page
    old = base junk (d.cache_tree (page_of sector))

    new : Page
    new = filled sector (512 * q) source old

-- The cache has no page for the block, and the data has one, which is written.
pub ToData-Shows :
    (source : ℕ → ℕ) (q sector : ℕ) (p : Page) (d : Disk)
    → Sectors q
    → sector % q ≡ 0
    → d.cache_tree (page_of sector) ≡ none
    → d.data_tree (page_of sector) ≡ some p
    → Shows q sector source d (record d {
      data_tree = put d.data_tree (page_of sector) (some (filled sector (512 * q) source p));
    })
ToData-Shows source q sector p d size a absent there = record {
  inside = λ k h.
      cached_reads-over d' sector k
      ∙ rw (absent, put_self d.data_tree (page_of sector) (some new))
          (filled-reads p sector (512 * q) k source h);
  outside = λ t k b ne h.
      cached_reads-over d' t k
      ∙ elim (ℕ_discrete (page_of sector) (page_of t)) [
        | yes here ↦
            rw (← here, absent, put_self d.data_tree (page_of sector) (some new), there)
              (filled-others p sector q t k source (aligned-Disjoint q sector t size a b ne here)
                (Sectors-pos q size) h)
        | no other ↦ rw (put_ne d.data_tree (page_of sector) (page_of t) (some new) other)
      ]
      ∙ sym (cached_reads-over d t k);
}
  where
    new : Page
    new = filled sector (512 * q) source p

    d' : Disk
    d' = record d { data_tree = put d.data_tree (page_of sector) (some new) }
