-- ===== src/NullBlk/Cache/Space/Flushes.antt =====
-- null_blk.c, the second loop of a round of `null_make_cache_space`: the locked pages leave the
-- cache.
use native.Mathlib.Decide.{ℕ_discrete}
use caplifive_buildroot.Base.{
  ℕ, ◌+◌, ◌*◌, ◌%◌, ◌≤◌, ◌<◌, ◌≡◌, refl, sym, ap, ◌∙◌, arith, Bool, true, Option, none, some, List,
  [], ◌∷◌, Returns, Returns-mono, Returns-done, done,
}
use caplifive_buildroot.NullBlk.Store.{Page, Disk}
use caplifive_buildroot.NullBlk.Store.Block.{Sectors}
use caplifive_buildroot.NullBlk.Cache.{null_flush_cache_page}
use caplifive_buildroot.NullBlk.Cache.View.{cached_reads}
use caplifive_buildroot.NullBlk.Cache.Flush.{Flushed, flush-Flushed}
use caplifive_buildroot.NullBlk.Cache.Space.{locked, flush_pages}
use caplifive_buildroot.NullBlk.Cache.Space.Count.{count, zero_count}
use caplifive_buildroot.NullBlk.Cache.Space.Batch.{
  Apart, Held, Held-other, size, entries, Counted, some_below, Flushed-fewer, Flushed-Counted,
}

-- After the pages of `es` have been flushed: what is left in the cache was there, and every aligned
-- block reads as it did.
pub record Batched (n q : ℕ) (es : List (ℕ × Page)) (d d' : Disk) : Type 0 where
  pub counted : Counted n q d'
  pub fewer : count n d'.cache_tree + size es ≡ count n d.cache_tree
  pub active : d'.cache_active ≡ d.cache_active
  pub slack : d.spare + count n d'.cache_tree ≤ d'.spare + count n d.cache_tree
  pub same : (t k : ℕ) → t % q ≡ 0 → k < 512 * q → cached_reads d' t k ≡ cached_reads d t k
  pub survivor :
      (j : ℕ) (p : Page) → d'.cache_tree j ≡ some p → (d.cache_tree j ≡ some p) × Apart j es

some_page_left :
    (n q i : ℕ) (d : Disk) (p : Page)
    → Counted n q d
    → d.cache_tree i ≡ some p
    → 0 < count n d.cache_tree
some_page_left n q i d p c there = elim (ℕ_discrete (count n d.cache_tree) 0) [
  | yes e ↦ let gone = zero_count n i d.cache_tree e (some_below n q i d p c there) in absurd cc
  | no more ↦ omega (arith, more)
]

Batched-cons :
    (n q i : ℕ) (p c : Page) (es : List (ℕ × Page)) (d d1 d' : Disk)
    → Counted n q d
    → d.cache_tree i ≡ some c
    → Flushed q i d d1
    → Batched n q es d1 d'
    → Batched n q ((i, p) ∷ es) d d'
Batched-cons n q i p c es d d1 d' counted there f b = record {
  counted = b.counted;
  fewer = omega (arith, b.fewer, Flushed-fewer n q i d d1 c counted there f);
  active = b.active ∙ f.active;
  slack = omega (arith, b.slack, f.left, Flushed-fewer n q i d d1 c counted there f);
  same = λ t k a h. b.same t k a h ∙ f.same t k a h;
  survivor = survivor;
}
  where
    survivor :
        (j : ℕ) (r : Page)
        → d'.cache_tree j ≡ some r
        → (d.cache_tree j ≡ some r) × Apart j ((i, p) ∷ es)
    survivor j r e =
        let (left, apart) = b.survivor j r e in
        elim (ℕ_discrete i j) [
          | yes same ↦ let gone : d1.cache_tree j ≡ none = rw (← same) f.removed in absurd cc
          | no other ↦ (sym (f.kept j other) ∙ left, (λ e'. other (sym e'), apart))
        ]

module _ (junk : ℕ → ℕ) (n q : ℕ) (sectors : Sectors q) where
  flush_pages-step :
      (i k : ℕ) (p : Page) (cs : List (Option (ℕ × Page))) (d d1 : Disk)
      → null_flush_cache_page junk 9 i p d ≡ done (true, d1)
      → flush_pages junk (some (i, p) ∷ cs) k d ≡ flush_pages junk cs (k + 1) d1
  unfolding flush_pages
  flush_pages-step i k p cs d d1 e = rw e

  -- Every flush of the loop succeeds.
  pub flush_pages-Batched :
      (es : List (ℕ × Page)) (k : ℕ) (d : Disk)
      → Counted n q d
      → Held d.cache_tree es
      → Returns
          (λ r. (r.0 ≡ true) × (r.1.0 ≡ k + size es) × Batched n q es d r.1.1)
          (flush_pages junk (entries es) k d)
  unfolding flush_pages
  flush_pages-Batched [] k d c h = (
    refl,
    omega arith,
    record {
      counted = c;
      fewer = omega arith;
      active = refl;
      slack = omega arith;
      same = λ t k a h. refl;
      survivor = λ j p e. (e, _);
    },
  )
  flush_pages-Batched ((i, p) ∷ es) k d c (there, live, apart, h) =
      let pos = some_page_left n q i d (locked p) c there in
      let pos' : 0 < d.spare = omega (arith, pos, c.memory) in
      let one : Bool × Disk → Type 0 = λ r. (r.0 ≡ true) × Flushed q i d r.1 in
      let all : Bool × (ℕ × Disk) → Type 0 =
        λ r. (r.0 ≡ true) × (r.1.0 ≡ k + size ((i, p) ∷ es)) × Batched n q ((i, p) ∷ es) d r.1.1 in
      let (r, e, (ok, f)) =
        Returns-done one _
          (flush-Flushed junk q 9 i (locked p) d sectors c.block pos' there live (omega arith)) in
      let c1 = Flushed-Counted n q i d r.1 (locked p) c there f in
      let h1 = Held-other es i d.cache_tree r.1.cache_tree apart f.kept h in
      rw
        (flush_pages-step i k (locked p) (entries es) d r.1
          (e ∙ ap (λ (b : Bool). done (b, r.1)) ok))
        (Returns-mono _ all
          (λ a (ok', k', b).
            (ok', omega (arith, k'), Batched-cons n q i p (locked p) es d r.1 a.1.1 c there f b))
          _ (flush_pages-Batched es (k + 1) r.1 c1 h1))
