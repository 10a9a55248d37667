-- ===== src/NullBlk/Cache/Write/Counts.antt =====
-- null_blk.c: a round of `copy_to_nullb` on a device with a cache, and the pages of the cache.
use native.Mathlib.Decide.{ℕ_discrete}
use caplifive_buildroot.Base.{
  ℕ, ◌+◌, ◌*◌, ◌%◌, ◌^◌, ◌≤◌, ◌<◌, ◌≡◌, refl, sym, ap, ◌∙◌, arith, true, false, Option, none, some,
}
use caplifive_buildroot.NullBlk.Store.{
  Page, Tree, put, Disk, page_of, sector_bit, filled, null_page_free, null_page_lock,
}
use caplifive_buildroot.NullBlk.Store.Block.{Sectors, base, put_self, put_ne, set_bit_ne}
use caplifive_buildroot.NullBlk.Cache.Space.Count.{present, count, count-eq, count_removed}
use caplifive_buildroot.NullBlk.Cache.Space.Batch.{Counted, some_below}
use caplifive_buildroot.NullBlk.Cache.Space.Round.{Idle}
use caplifive_buildroot.NullBlk.Cache.Write.{ToCache, Shows, ToCache-Shows, ToData-Shows}

-- The cache after the round: its pages are counted and in use, and the round has taken a page of
-- the kernel at most.
pub record Written (n q sector : ℕ) (source : ℕ → ℕ) (d d' : Disk) : Type 0 where
  pub shows : Shows q sector source d d'
  pub counted : Counted n q d'
  pub idle : Idle d'.cache_tree
  pub active : d'.cache_active ≡ d.cache_active
  pub more : count n d'.cache_tree ≤ count n d.cache_tree + 1
  pub slack : d.spare + count n d'.cache_tree ≤ d'.spare + count n d.cache_tree + 2

ToCache-Idle :
    (junk source : ℕ → ℕ) (sector temp : ℕ) (d d' : Disk)
    → Idle d.cache_tree
    → ToCache junk source sector temp d d'
    → Idle d'.cache_tree
ToCache-Idle junk source sector temp d d' idle w i p e = elim (ℕ_discrete (page_of sector) i) [
  | yes here ↦ at_page p (
      sym (put_self d.cache_tree (page_of sector) (some new))
      ∙ sym (w.tree (page_of sector))
      ∙ rw here e)
  | no other ↦
      idle i p (sym (put_ne d.cache_tree (page_of sector) i (some new) other) ∙ sym (w.tree i) ∙ e)
]
  where
    new : Page
    new = filled sector temp source (base junk (d.cache_tree (page_of sector)))

    free_bits :
        (o : Option Page)
        → d.cache_tree (page_of sector) ≡ o
        → ((base junk o).bitmap null_page_free ≡ false)
          × ((base junk o).bitmap null_page_lock ≡ false)
    free_bits none e = (refl, refl)
    free_bits (some c) e = idle (page_of sector) c e

    at_page :
        (p : Page)
        → some new ≡ some p
        → (p.bitmap null_page_free ≡ false) × (p.bitmap null_page_lock ≡ false)
    at_page p e =
        let o = base junk (d.cache_tree (page_of sector)) in
        let (free, unlocked) = free_bits _ refl in
        let same : new ≡ p = cc in
        rw (← same) (
          set_bit_ne o.bitmap (sector_bit sector) null_page_free true (omega arith) ∙ free,
          set_bit_ne o.bitmap (sector_bit sector) null_page_lock true (omega arith) ∙ unlocked,
        )

-- The page is in the cache already.
present_kept :
    (t u : Tree) (i : ℕ) (c new : Page)
    → t i ≡ some c
    → ((j : ℕ) → u j ≡ put t i (some new) j)
    → (j : ℕ) → present (u j) ≡ present (t j)
present_kept t u i c new there tree j = elim (ℕ_discrete i j) [
  | yes here ↦ rw (← here) (ap present (tree i ∙ put_self t i (some new)) ∙ sym (ap present there))
  | no other ↦ ap present (tree j ∙ put_ne t i j (some new) other)
]

module _ (junk source : ℕ → ℕ) (n q sector : ℕ) (size : Sectors q) where
  pub cached-Written :
      (d d' : Disk) (c : Page)
      → Counted n q d
      → Idle d.cache_tree
      → sector % q ≡ 0
      → d.cache_tree (page_of sector) ≡ some c
      → ToCache junk source sector (512 * q) d d'
      → d'.curr_cache ≡ d.curr_cache
      → d'.spare ≡ d.spare
      → d'.blocksize ≡ d.blocksize
      → d'.cache_active ≡ d.cache_active
      → Written n q sector source d d'
  cached-Written d d' c counted idle a there w counter spare block active =
      let i = page_of sector in
      let lt = some_below n q i d c counted there in
      let e : count n d'.cache_tree ≡ count n d.cache_tree =
        count-eq n d'.cache_tree d.cache_tree
          (λ j lj. present_kept d.cache_tree d'.cache_tree i c _ there w.tree j) in
      record {
        shows = ToCache-Shows junk source q sector d d' size a w;
        counted = record {
          bound = λ j ge.
              w.tree j ∙ put_ne d.cache_tree i j _ (omega (arith, lt, ge)) ∙ counted.bound j ge;
          counter = counter ∙ counted.counter ∙ ap (λ m. 4096 * m) (sym e);
          small = omega (arith, e, counted.small);
          memory = omega (arith, e, counted.memory, spare);
          block = block ∙ counted.block;
        };
        idle = ToCache-Idle junk source sector (512 * q) d d' idle w;
        active = active;
        more = omega (arith, e);
        slack = omega (arith, e, spare);
      }

  pub fresh-Written :
      (d d' : Disk)
      → Counted n q d
      → Idle d.cache_tree
      → sector % q ≡ 0
      → page_of sector < n
      → count n d.cache_tree + 1 < 2 ^ 20
      → count n d.cache_tree + 2 ≤ d.spare
      → d.cache_tree (page_of sector) ≡ none
      → ToCache junk source sector (512 * q) d d'
      → d'.curr_cache ≡ (d.curr_cache + 4096) % 2 ^ 32
      → d'.spare + 1 ≡ d.spare
      → d'.blocksize ≡ d.blocksize
      → d'.cache_active ≡ d.cache_active
      → Written n q sector source d d'
  fresh-Written d d' counted idle a lt small memory absent w counter spare block active =
      let i = page_of sector in
      let new = w.tree i ∙ put_self d.cache_tree i _ in
      let e : count n d.cache_tree + 1 ≡ count n d'.cache_tree =
        count_removed n i d'.cache_tree d.cache_tree lt (ap present new) (ap present absent)
          (λ j ne. sym (ap present (w.tree j ∙ put_ne d.cache_tree i j _ ne))) in
      record {
        shows = ToCache-Shows junk source q sector d d' size a w;
        counted = record {
          bound = λ j ge.
              w.tree j ∙ put_ne d.cache_tree i j _ (omega (arith, lt, ge)) ∙ counted.bound j ge;
          counter = counter ∙ grown d'.cache_tree d counted small e;
          small = omega (arith, e, small);
          memory = omega (arith, e, memory, spare);
          block = block ∙ counted.block;
        };
        idle = ToCache-Idle junk source sector (512 * q) d d' idle w;
        active = active;
        more = omega (arith, e);
        slack = omega (arith, e, spare);
      }
    where
      grown :
          (u : Tree) (d : Disk)
          → Counted n q d
          → count n d.cache_tree + 1 < 2 ^ 20
          → count n d.cache_tree + 1 ≡ count n u
          → (d.curr_cache + 4096) % 2 ^ 32 ≡ 4096 * count n u
      grown u d c small e = omega (arith, small, e, c.counter)

  pub below-Written :
      (d : Disk) (p : Page)
      → Counted n q d
      → Idle d.cache_tree
      → sector % q ≡ 0
      → d.cache_tree (page_of sector) ≡ none
      → d.data_tree (page_of sector) ≡ some p
      → Written n q sector source d (record d {
        data_tree = put d.data_tree (page_of sector) (some (filled sector (512 * q) source p));
      })
  below-Written d p counted idle a absent there = record {
    shows = ToData-Shows source q sector p d size a absent there;
    counted = record {
      bound = counted.bound;
      counter = counted.counter;
      small = counted.small;
      memory = counted.memory;
      block = counted.block;
    };
    idle = idle;
    active = refl;
    more = omega arith;
    slack = omega arith;
  }
