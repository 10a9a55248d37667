-- ===== src/NullBlk/Cache/Space/Round.antt =====
-- null_blk.c, a whole round of `null_make_cache_space`.
use native.Mathlib.Decide.{ℕ_discrete}
use caplifive_buildroot.Base.{
  ℕ, ◌+◌, ◌*◌, ◌%◌, ◌≤◌, ◌<◌, ◌≡◌, refl, sym, ap, ◌∙◌, arith, Bool, true, false, some, List, [],
  ◌∷◌, Returns, Returns-mono,
}
use caplifive_buildroot.NullBlk.Store.{
  Page, Tree, put, Disk, page_of, sector_bit, null_page_free, null_page_lock,
}
use caplifive_buildroot.NullBlk.Store.Block.{over, Sectors, put_self, put_ne, set_bit_ne}
use caplifive_buildroot.NullBlk.Cache.View.{cached_reads, shown, cached_reads-over}
use caplifive_buildroot.NullBlk.Cache.Space.{locked, flush_pages}
use caplifive_buildroot.NullBlk.Cache.Space.Count.{present, count, count-eq}
use caplifive_buildroot.NullBlk.Cache.Space.Batch.{
  Holds, Holds-put, locked_tree, locked_tree-Apart, locked_tree-Held, size, entries, Counted,
  some_below,
}
use caplifive_buildroot.NullBlk.Cache.Space.Flushes.{flush_pages-Batched}

-- What locking pages of the cache leaves.
record Marked (n q : ℕ) (d d' : Disk) : Type 0 where
  counted : Counted n q d'
  number : count n d'.cache_tree ≡ count n d.cache_tree
  same : (t k : ℕ) → cached_reads d' t k ≡ cached_reads d t k

abbrev lock_one : ℕ → Page → Disk → Disk
lock_one i p d = record d { cache_tree = put d.cache_tree i (some (locked p)) }

locked-over : (p : Page) (j k below : ℕ) → j < 8 → over (locked p) j k below ≡ over p j k below
locked-over p j k below lt = rw (set_bit_ne p.bitmap null_page_lock j true (omega arith))

lock_one-shown :
    (i t k : ℕ) (p : Page) (d : Disk)
    → d.cache_tree i ≡ some p
    → shown (lock_one i p d) t k ≡ shown d t k
lock_one-shown i t k p d there = elim (ℕ_discrete i (page_of t)) [
  | yes here ↦
      rw (← here, put_self d.cache_tree i (some (locked p)), there)
        (locked-over p (sector_bit t) k _ (omega arith))
  | no other ↦ rw (put_ne d.cache_tree i (page_of t) (some (locked p)) other)
]

lock_one-present :
    (i j : ℕ) (p : Page) (t : Tree)
    → t i ≡ some p
    → present (put t i (some (locked p)) j) ≡ present (t j)
lock_one-present i j p t there = elim (ℕ_discrete i j) [
  | yes here ↦ rw (← here) (ap present (put_self t i (some (locked p))) ∙ sym (ap present there))
  | no other ↦ ap present (put_ne t i j (some (locked p)) other)
]

lock_one-Marked :
    (n q i : ℕ) (p : Page) (d : Disk)
    → Counted n q d
    → d.cache_tree i ≡ some p
    → Marked n q d (lock_one i p d)
lock_one-Marked n q i p d c there =
    let lt = some_below n q i d p c there in
    let t' = put d.cache_tree i (some (locked p)) in
    let e : count n t' ≡ count n d.cache_tree =
      count-eq n t' d.cache_tree (λ j lj. lock_one-present i j p d.cache_tree there) in
    record {
      counted = record {
        bound = λ j ge.
            put_ne d.cache_tree i j (some (locked p)) (omega (arith, lt, ge)) ∙ c.bound j ge;
        counter = c.counter ∙ ap (λ m. 4096 * m) (sym e);
        small = omega (arith, e, c.small);
        memory = omega (arith, e, c.memory);
        block = c.block;
      };
      number = e;
      same = λ t k.
          cached_reads-over (lock_one i p d) t k
          ∙ lock_one-shown i t k p d there
          ∙ sym (cached_reads-over d t k);
    }

lock_all-Marked :
    (n q : ℕ) (es : List (ℕ × Page)) (d : Disk)
    → Counted n q d
    → Holds d.cache_tree es
    → Marked n q d (record d { cache_tree = locked_tree es d.cache_tree })
lock_all-Marked n q [] d c h = record { counted = c; number = refl; same = λ t k. refl }
lock_all-Marked n q ((i, p) ∷ es) d c (there, free, unlocked, apart, h) =
    let m = lock_one-Marked n q i p d c there in
    let ms =
      lock_all-Marked n q es (lock_one i p d) m.counted
        (Holds-put es d.cache_tree i (some (locked p)) apart h) in
    record {
      counted = ms.counted;
      number = ms.number ∙ m.number;
      same = λ t k. ms.same t k ∙ m.same t k;
    }

-- Every page of the cache is in use, and no thread has it locked.
abbrev pub Idle : Tree → Type 0
Idle t =
    (i : ℕ) (p : Page)
    → t i ≡ some p
    → (p.bitmap null_page_free ≡ false) × (p.bitmap null_page_lock ≡ false)

-- After a round for the pages `es`.
pub record Emptied (n q : ℕ) (es : List (ℕ × Page)) (d d' : Disk) : Type 0 where
  pub counted : Counted n q d'
  pub idle : Idle d'.cache_tree
  pub fewer : count n d'.cache_tree + size es ≡ count n d.cache_tree
  pub active : d'.cache_active ≡ d.cache_active
  pub slack : d.spare + count n d'.cache_tree ≤ d'.spare + count n d.cache_tree
  pub same : (t k : ℕ) → t % q ≡ 0 → k < 512 * q → cached_reads d' t k ≡ cached_reads d t k

module _ (junk : ℕ → ℕ) (n q : ℕ) (sectors : Sectors q) where
  pub round-Emptied :
      (es : List (ℕ × Page)) (d : Disk)
      → Counted n q d
      → Idle d.cache_tree
      → Holds d.cache_tree es
      → Returns
          (λ r. (r.0 ≡ true) × (r.1.0 ≡ size es) × Emptied n q es d r.1.1)
          (flush_pages junk (entries es) 0 (record d { cache_tree = locked_tree es d.cache_tree }))
  round-Emptied es d c idle h =
      let d1 = record d { cache_tree = locked_tree es d.cache_tree } in
      let m = lock_all-Marked n q es d c h in
      let all : Bool × (ℕ × Disk) → Type 0 =
        λ r. (r.0 ≡ true) × (r.1.0 ≡ size es) × Emptied n q es d r.1.1 in
      Returns-mono _ all
        (λ r (ok, k, b). (
          ok,
          omega (arith, k),
          record {
            counted = b.counted;
            idle = λ j p e.
                let (left, apart) = b.survivor j p e in
                idle j p (sym (locked_tree-Apart es d.cache_tree j apart) ∙ left);
            fewer = b.fewer ∙ m.number;
            active = b.active;
            slack = omega (arith, b.slack, m.number);
            same = λ t k a lt. b.same t k a lt ∙ m.same t k;
          },
        ))
        _
        (flush_pages-Batched junk n q sectors es 0 d1 m.counted
          (locked_tree-Held es d.cache_tree h))
