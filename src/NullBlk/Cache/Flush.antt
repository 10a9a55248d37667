-- ===== src/NullBlk/Cache/Flush.antt =====
-- null_blk.c, `null_flush_cache_page`: what a device with a cache reads as, before and after it.
use native.Mathlib.Decide.{ℕ_discrete}
use caplifive_buildroot.Base.{
  ℕ, ◌+◌, ◌-◌, ◌*◌, ◌/◌, ◌%◌, ◌^◌, ◌≤◌, ◌<◌, ◌≡◌, refl, sym, ap, ◌∙◌, ◌≢◌, inl, inr, arith, Bool,
  true, false, Option, none, some, Option-cases, done, Returns, Returns-chain, ◌>>=◌,
}
use caplifive_buildroot.NullBlk.Store.{
  Page, Tree, put, set_bit, Disk, Place, page_of, sector_bit, null_insert_page, null_page_free,
  null_page_lock,
}
use caplifive_buildroot.NullBlk.Store.Block.{
  over, Sectors, base, reads-base, put_self, put_ne, set_bit_ne,
}
use caplifive_buildroot.NullBlk.Store.Round.{insert_place}
use caplifive_buildroot.NullBlk.Cache.{flush_blocks, null_flush_cache_page}
use caplifive_buildroot.NullBlk.Cache.Blocks.{Merged, flush_blocks-Merged}
use caplifive_buildroot.NullBlk.Cache.View.{cached_reads, shown, cached_reads-over}

-- The disk that the page is copied to, and what the copy leaves.
pub record Ready (junk : ℕ → ℕ) (idx : ℕ) (d d1 : Disk) : Type 0 where
  pub target : d1.data_tree idx ≡ some (base junk (d.data_tree idx))
  pub others : (j : ℕ) → idx ≢ j → d1.data_tree j ≡ d.data_tree j
  pub cache : d1.cache_tree ≡ d.cache_tree
  pub counter : d1.curr_cache ≡ d.curr_cache
  pub block : d1.blocksize ≡ d.blocksize
  pub active : d1.cache_active ≡ d.cache_active
  pub left : d.spare ≤ d1.spare + 1

-- A page that has left the cache: what it held is in the data.
pub record Flushed (q idx : ℕ) (d d' : Disk) : Type 0 where
  pub removed : d'.cache_tree idx ≡ none
  pub kept : (j : ℕ) → idx ≢ j → d'.cache_tree j ≡ d.cache_tree j
  pub block : d'.blocksize ≡ d.blocksize
  pub active : d'.cache_active ≡ d.cache_active
  pub left : d.spare ≤ d'.spare + 1
  pub counted : d'.curr_cache ≡ (d.curr_cache + 2 ^ 32 - 4096) % 2 ^ 32
  pub same : (t k : ℕ) → t % q ≡ 0 → k < 512 * q → cached_reads d' t k ≡ cached_reads d t k

aligned_bit : (q t : ℕ) → Sectors q → t % q ≡ 0 → t % 8 % q ≡ 0
aligned_bit _ t Sectors.one e = omega arith
aligned_bit _ t Sectors.two e = omega arith
aligned_bit _ t Sectors.four e = omega arith
aligned_bit _ t Sectors.eight e = omega arith

zero_mod : (q : ℕ) → Sectors q → 0 % q ≡ 0
zero_mod _ Sectors.one = refl
zero_mod _ Sectors.two = refl
zero_mod _ Sectors.four = refl
zero_mod _ Sectors.eight = refl

abbrev pub unlocked : Page → Page
unlocked c = record c { bitmap = set_bit c.bitmap null_page_lock false }

pub unlocked-over :
    (c : Page) (j k below : ℕ) → j < 8 → over (unlocked c) j k below ≡ over c j k below
unlocked-over c j k below lt = rw (set_bit_ne c.bitmap null_page_lock j false (omega arith))

module _ (junk : ℕ → ℕ) where
  pub insert_Ready :
      (idx : ℕ) (d : Disk)
      → 0 < d.spare
      → (d1 : Disk) × (null_insert_page junk (idx * 8) true d
          ≡ (some (record { in_cache = false; idx = idx }), d1))
        × Ready junk idx d d1
  insert_Ready idx d spare = elim (Option-cases (d.data_tree idx)) [
    | inl absent ↦ (
      record d { data_tree = put d.data_tree idx (some (base junk none)); spare = d.spare - 1 },
      insert_place junk (idx * 8) d spare ∙ rw (place, absent) (ap fresh place),
      record {
        target =
            put_self d.data_tree idx (some (base junk none))
            ∙ ap (λ o. some (base junk o)) (sym absent);
        others = λ j ne. put_ne d.data_tree idx j (some (base junk none)) ne;
        cache = refl;
        counter = refl;
        block = refl;
        active = refl;
        left = omega arith;
      },
    )
    | inr (p, there) ↦ (
      d,
      insert_place junk (idx * 8) d spare ∙ rw (place, there),
      record {
        target = rw there;
        others = λ j ne. refl;
        cache = refl;
        counter = refl;
        block = refl;
        active = refl;
        left = omega arith;
      },
    )
  ]
    where
      fresh : ℕ → Option Place × Disk
      fresh i = (
        some (record { in_cache = false; idx = idx }),
        record d { data_tree = put d.data_tree i (some (base junk none)); spare = d.spare - 1 },
      )

      place : idx * 8 / 8 ≡ idx
      place = omega arith

  -- The disk with the copied page, and without the page of the cache.
  abbrev moved : ℕ → Disk → Page → Disk
  moved idx d1 t' = record d1 {
    data_tree = put d1.data_tree idx (some t');
    cache_tree = put d1.cache_tree idx none;
    curr_cache = (d1.curr_cache + 2 ^ 32 - 4096) % 2 ^ 32;
  }

  flush_runs :
      (temp rounds idx : ℕ) (c : Page) (d d1 : Disk)
      → d.blocksize ≡ temp
      → c.bitmap null_page_free ≡ false
      → null_insert_page junk (idx * 8) true d ≡ (some (record { in_cache = false; idx = idx }), d1)
      → Ready junk idx d d1
      → null_flush_cache_page junk rounds idx c d ≡ (
          flush_blocks rounds 0 temp (unlocked c) (base junk (d.data_tree idx)) >>= λ t'.
          done (true, moved idx d1 t'))
  unfolding null_flush_cache_page
  flush_runs temp rounds idx c d d1 block live e r = rw (live, e, r.target, r.block ∙ block)

  moved-Flushed :
      (q idx : ℕ) (c t' : Page) (d d1 : Disk)
      → Sectors q
      → d.cache_tree idx ≡ some c
      → Ready junk idx d d1
      → Merged q 0 (unlocked c) (base junk (d.data_tree idx)) t'
      → Flushed q idx d (moved idx d1 t')
  moved-Flushed q idx c t' d d1 size there r m = record {
    removed = put_self d1.cache_tree idx none;
    kept = λ j ne. put_ne d1.cache_tree idx j none ne ∙ ap (λ (t : Tree). t j) r.cache;
    block = r.block;
    active = r.active;
    left = r.left;
    counted = ap (λ n. (n + 2 ^ 32 - 4096) % 2 ^ 32) r.counter;
    same = λ t k a h.
        cached_reads-over (moved idx d1 t') t k
        ∙ elim (ℕ_discrete idx (page_of t)) [
          | yes here ↦ inside t k a h here
          | no other ↦ outside t k other
        ]
        ∙ sym (cached_reads-over d t k);
  }
    where
      inside :
          (t k : ℕ)
          → t % q ≡ 0
          → k < 512 * q
          → idx ≡ page_of t
          → shown (moved idx d1 t') t k ≡ shown d t k
      inside t k a h here =
          let i = sector_bit t in
          let lt : i < 8 = omega arith in
          rw (← here, put_self d1.cache_tree idx none, put_self d1.data_tree idx (some t'), there)
            (m.from i k (aligned_bit q t size a) (omega arith) lt h
              ∙ unlocked-over c i k _ lt
              ∙ ap (over c i k) (reads-base junk (d.data_tree idx) i k))

      outside : (t k : ℕ) → idx ≢ page_of t → shown (moved idx d1 t') t k ≡ shown d t k
      outside t k other = rw (
        put_ne d1.cache_tree idx (page_of t) none other,
        put_ne d1.data_tree idx (page_of t) (some t') other,
        r.cache,
        r.others (page_of t) other,
      )

  -- Flushing a page that the cache has, with memory for a page of data: the loop ends within nine
  -- rounds, the page leaves the cache, and every aligned block reads as it did.
  pub flush-Flushed :
      (q rounds idx : ℕ) (c : Page) (d : Disk)
      → Sectors q
      → d.blocksize ≡ 512 * q
      → 0 < d.spare
      → d.cache_tree idx ≡ some c
      → c.bitmap null_page_free ≡ false
      → 8 < rounds
      → Returns
          (λ r. (r.0 ≡ true) × Flushed q idx d r.1)
          (null_flush_cache_page junk rounds idx c d)
  flush-Flushed q rounds idx c d size block spare there live fuel =
      let (d1, e, r) = insert_Ready idx d spare in
      let loop =
        flush_blocks-Merged q size (unlocked c) rounds 0 (base junk (d.data_tree idx))
          (zero_mod q size) (omega arith) (omega arith) in
      rw (flush_runs (512 * q) rounds idx c d d1 block live e r) (
        Returns-chain _ (λ (f : Bool × Disk). (f.0 ≡ true) × Flushed q idx d f.1) _
          (λ t'. done (true, moved idx d1 t')) loop
          (λ t' m. (refl, moved-Flushed q idx c t' d d1 size there r m)))
