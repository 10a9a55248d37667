-- ===== src/NullBlk/Cache/Space/Batch.antt =====
-- null_blk.c, a round of `null_make_cache_space`: the pages that were found are locked and flushed.
use caplifive_buildroot.Base.{
  ℕ, ◌+◌, ◌-◌, ◌*◌, ◌%◌, ◌^◌, ◌≤◌, ◌<◌, ◌≡◌, refl, sym, ap, ◌∙◌, ◌≢◌, inl, inr, arith, Bool-cases,
  ltb, false, Option, none, some, List, [], ◌∷◌,
}
use caplifive_buildroot.NullBlk.Store.{Nullb, Page, Tree, put, Disk, null_page_free, null_page_lock}
use caplifive_buildroot.NullBlk.Store.Block.{put_self, put_ne}
use caplifive_buildroot.NullBlk.Cache.Flush.{Flushed}
use caplifive_buildroot.NullBlk.Cache.Space.{locked, lock_pages}
use caplifive_buildroot.NullBlk.Cache.Space.Count.{present, count, count_removed}

-- An index that is not among the entries.
abbrev pub Apart : ℕ → List (ℕ × Page) → Type 0
Apart i [] = Unit
Apart i ((j, p) ∷ es) = (i ≢ j) × Apart i es

-- Entries with different indices, each a page of the tree that is in use and not locked.
abbrev pub Holds : Tree → List (ℕ × Page) → Type 0
Holds t [] = Unit
Holds t ((i, p) ∷ es) =
    (t i ≡ some p)
    × (p.bitmap null_page_free ≡ false)
    × (p.bitmap null_page_lock ≡ false)
    × Apart i es
    × Holds t es

-- The tree, and the list, with the pages locked.
abbrev pub locked_tree : List (ℕ × Page) → Tree → Tree
locked_tree [] t = t
locked_tree ((i, p) ∷ es) t = locked_tree es (put t i (some (locked p)))

abbrev pub entries : List (ℕ × Page) → List (Option (ℕ × Page))
entries [] = []
entries ((i, p) ∷ es) = some (i, locked p) ∷ entries es

abbrev pub last_pos : List (ℕ × Page) → ℕ → ℕ
last_pos [] pos = pos
last_pos ((i, p) ∷ es) pos = last_pos es i

abbrev pub size : List (ℕ × Page) → ℕ
size [] = 0
size (e ∷ es) = 1 + size es

pub lock_pages-all :
    (es : List (ℕ × Page)) (t : Tree) (s : Nullb)
    → Holds t es
    → lock_pages es s ≡ (
      entries es,
      record s {
        disk = record s.disk { cache_tree = locked_tree es s.disk.cache_tree };
        cache_flush_pos = last_pos es s.cache_flush_pos;
      },
    )
unfolding lock_pages
lock_pages-all [] t s h = refl
lock_pages-all ((i, p) ∷ es) t s (there, free, unlocked, apart, h) =
    let s' = record s {
      disk = record s.disk { cache_tree = put s.disk.cache_tree i (some (locked p)) };
      cache_flush_pos = i;
    } in
    rw (unlocked, lock_pages-all es t s' h)

pub Holds-put :
    (es : List (ℕ × Page)) (t : Tree) (i : ℕ) (o : Option Page)
    → Apart i es
    → Holds t es
    → Holds (put t i o) es
Holds-put [] t i o a h = h
Holds-put ((j, p) ∷ es) t i o (ne, far) (there, free, unlocked, apart, h) =
    (put_ne t i j o ne ∙ there, free, unlocked, apart, Holds-put es t i o far h)

pub locked_tree-Apart :
    (es : List (ℕ × Page)) (t : Tree) (i : ℕ) → Apart i es → locked_tree es t i ≡ t i
locked_tree-Apart [] t i a = refl
locked_tree-Apart ((j, p) ∷ es) t i (ne, a) =
    locked_tree-Apart es (put t j (some (locked p))) i a
    ∙ put_ne t j i (some (locked p)) (λ e. ne (sym e))

-- The entries after they have been locked.
abbrev pub Held : Tree → List (ℕ × Page) → Type 0
Held t [] = Unit
Held t ((i, p) ∷ es) =
    (t i ≡ some (locked p)) × (p.bitmap null_page_free ≡ false) × Apart i es × Held t es

pub locked_tree-Held : (es : List (ℕ × Page)) (t : Tree) → Holds t es → Held (locked_tree es t) es
locked_tree-Held [] t h = h
locked_tree-Held ((i, p) ∷ es) t (there, free, unlocked, apart, h) =
    let t' = put t i (some (locked p)) in
    (
      locked_tree-Apart es t' i apart ∙ put_self t i (some (locked p)),
      free,
      apart,
      locked_tree-Held es t' (Holds-put es t i (some (locked p)) apart h),
    )

pub Held-other :
    (es : List (ℕ × Page)) (i : ℕ) (t u : Tree)
    → Apart i es
    → ((j : ℕ) → i ≢ j → u j ≡ t j)
    → Held t es
    → Held u es
Held-other [] i t u a same h = h
Held-other ((j, p) ∷ es) i t u (ne, a) same (there, free, apart, h) =
    (same j ne ∙ there, free, apart, Held-other es i t u a same h)

-- A device with blocks of `q` sectors, all pages of the cache below `n`, their number counted in
-- `curr_cache`, and memory for as many pages of the data.
pub record Counted (n q : ℕ) (d : Disk) : Type 0 where
  pub bound : (i : ℕ) → n ≤ i → d.cache_tree i ≡ none
  pub counter : d.curr_cache ≡ 4096 * count n d.cache_tree
  pub small : count n d.cache_tree < 2 ^ 20
  pub memory : count n d.cache_tree ≤ d.spare
  pub block : d.blocksize ≡ 512 * q

pub some_below : (n q i : ℕ) (d : Disk) (p : Page) → Counted n q d → d.cache_tree i ≡ some p → i < n
some_below n q i d p c there = elim (Bool-cases (ltb i n)) [
  | inl lt ↦ ground (arith, lt)
  | inr ge ↦ let above : n ≤ i = ground (arith, ge) in let gone = c.bound i above in absurd cc
]

-- One flush.
pub Flushed-fewer :
    (n q i : ℕ) (d d' : Disk) (p : Page)
    → Counted n q d
    → d.cache_tree i ≡ some p
    → Flushed q i d d'
    → count n d'.cache_tree + 1 ≡ count n d.cache_tree
Flushed-fewer n q i d d' p c there f =
    count_removed n i d.cache_tree d'.cache_tree (some_below n q i d p c there) (ap present there)
      (ap present f.removed) (λ j ne. ap present (f.kept j ne))

pub Flushed-Counted :
    (n q i : ℕ) (d d' : Disk) (p : Page)
    → Counted n q d
    → d.cache_tree i ≡ some p
    → Flushed q i d d'
    → Counted n q d'
Flushed-Counted n q i d d' p c there f =
    let fewer = Flushed-fewer n q i d d' p c there f in
    let lt = some_below n q i d p c there in
    record {
      bound = λ j ge. f.kept j (omega (arith, lt, ge)) ∙ c.bound j ge;
      counter = f.counted ∙ counter d'.cache_tree fewer;
      small = omega (arith, fewer, c.small);
      memory = omega (arith, fewer, c.memory, f.left);
      block = f.block ∙ c.block;
    }
  where
    counter :
        (u : Tree)
        → count n u + 1 ≡ count n d.cache_tree
        → (d.curr_cache + 2 ^ 32 - 4096) % 2 ^ 32 ≡ 4096 * count n u
    counter u fewer = omega (arith, fewer, c.counter, c.small)
