-- ===== src/NullBlk/Cache/Write/ReadBack.antt =====
-- null_blk.c: `copy_from_nullb` on a device with a cache gives what `copy_to_nullb` has written.
use caplifive_buildroot.Base.{
  ℕ, ◌+◌, ◌*◌, ◌%◌, ◌≤◌, ◌<◌, ◌≡◌, ◌∙◌, arith, Bool, true, false, List, Returns, Returns-mono,
}
use caplifive_buildroot.NullBlk.Store.{Page, Tree, Nullb, copy_to_nullb, copy_from_nullb}
use caplifive_buildroot.NullBlk.Store.Block.{Sectors}
use caplifive_buildroot.NullBlk.Store.Copy.{Sectors-pos}
use caplifive_buildroot.NullBlk.Store.ReadBack.{view, copy_from-CopiedFrom, by_block}
use caplifive_buildroot.NullBlk.Cache.Space.{page_space}
use caplifive_buildroot.NullBlk.Cache.View.{cached_reads}
use caplifive_buildroot.NullBlk.Cache.Space.Search.{IsGang}
use caplifive_buildroot.NullBlk.Cache.Space.Ends.{left}
use caplifive_buildroot.NullBlk.Cache.Write.Loop.{IsCached, CachedTo, copy_to-CachedTo}

view-cached :
    (s : Nullb) (sector k : ℕ)
    → s.disk.cache_active ≡ true
    → view s.disk sector k ≡ cached_reads s.disk sector k
view-cached s sector k on = rw on

module _ (junk : ℕ → ℕ) (gang_lookup : Tree → ℕ → List (ℕ × Page)) (n q fuel : ℕ)
    (gang : IsGang n gang_lookup) (size : Sectors q) where
  back :
      (m rounds sector at : ℕ) (source dest : ℕ → ℕ) (s s' : Nullb)
      → CachedTo n q sector m source s s'
      → sector % q ≡ 0
      → m < rounds
      → Returns
          (λ dest'. (b : ℕ) → b < 512 * q * m → dest' (at + b) ≡ source b)
          (copy_from_nullb rounds sector (512 * q * m) at dest s'.disk)
  back m rounds sector at source dest s s' c a lt =
      let (dest', run, f) =
        copy_from-CopiedFrom q size s'.disk c.cached.calm.counted.block (cached_reads s'.disk)
          (λ t k. view-cached s' t k c.cached.active) m rounds sector at dest a lt in
      rw run (
        by_block (λ b. dest' (at + b) ≡ source b) (512 * q) m (omega (arith, Sectors-pos q size))
          (λ j k lo hi. f.inside j k lo hi ∙ c.inside j k lo hi))

  -- What is written is what is read, on a device whose cache is active and used by no other
  -- thread: with blocks of 1, 2, 4 or 8 sectors, memory for the pages of the cache and two more
  -- for each block, and a cache that stays below 2 ^ 20 pages, all in use and unlocked, writing
  -- `m` aligned blocks below sector 8 * `n` without FUA succeeds, and reading them then gives the
  -- bytes written, whatever pages have been flushed to make space. The copies take `m + 1` rounds,
  -- the making of space more than two for each page that may be in the cache.
  pub cached_copy_from-copy_to :
      (m rounds sector at : ℕ) (source dest : ℕ → ℕ) (s : Nullb)
      → IsCached n q m s
      → sector % q ≡ 0
      → sector + q * m ≤ 8 * n
      → m < rounds
      → 2 * (left n s + m) < fuel
      → Returns
          (λ r.
            (r.0 ≡ true)
            × Returns
                (λ dest'. (b : ℕ) → b < 512 * q * m → dest' (at + b) ≡ source b)
                (copy_from_nullb rounds sector (512 * q * m) at dest r.1.disk))
          (copy_to_nullb junk
            (page_space junk gang_lookup fuel)
            rounds
            sector
            false
            (512 * q * m)
            source
            s)
  cached_copy_from-copy_to m rounds sector at source dest s c a fits lt enough =
      let written : Bool × Nullb → Type 0 =
        λ r. (r.0 ≡ true) × CachedTo n q sector m source s r.1 in
      let and_read : Bool × Nullb → Type 0 = λ r.
        (r.0 ≡ true)
        × Returns (λ dest'. (b : ℕ) → b < 512 * q * m → dest' (at + b) ≡ source b)
            (copy_from_nullb rounds sector (512 * q * m) at dest r.1.disk) in
      Returns-mono written and_read
        (λ r (ok, w). (ok, back m rounds sector at source dest s r.1 w a lt)) _
        (copy_to-CachedTo junk gang_lookup n q fuel gang size m rounds sector source s c a fits lt
          enough)
