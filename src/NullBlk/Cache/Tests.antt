-- ===== src/NullBlk/Cache/Tests.antt =====
-- null_blk.c: the results on the cache, on a small device.
use native.Mathlib.Decide.{ℕ_discrete}
use caplifive_buildroot.Base.{
  [], ◌∷◌, zero, suc, List, Option, Option-cases, inl, inr, sym, ap, ◌∙◌, ◌≤◌, starved, ◌-◌, ◌^◌,
  ◌≢◌, Bool, Bool-cases,
}
use caplifive_buildroot.Base.{
  ℕ, ◌+◌, ◌<◌, ◌≡◌, refl, arith, true, false, none, some, Returns, ◌==◌, if◌then◌else◌,
}
use caplifive_buildroot.NullBlk.Cache.{null_flush_cache_page}
use caplifive_buildroot.NullBlk.Cache.Space.{page_space, null_handle_flush}
use caplifive_buildroot.NullBlk.Cache.Space.Count.{count}
use caplifive_buildroot.NullBlk.Cache.Space.Round.{Idle}
use caplifive_buildroot.NullBlk.Cache.Space.Search.{Listed, IsGang}
use caplifive_buildroot.NullBlk.Cache.Space.Ends.{Calm}
use caplifive_buildroot.NullBlk.Cache.Space.Drain.{
  Drained, null_handle_flush-Drained, null_handle_flush-spins,
}
use caplifive_buildroot.NullBlk.Cache.View.{cached_reads}
use caplifive_buildroot.NullBlk.Cache.Flush.{unlocked}
use caplifive_buildroot.NullBlk.Cache.Refused.{flush_refused-reads}
use caplifive_buildroot.NullBlk.Store.{Nullb, Disk, Page, Tree, copy_to_nullb, copy_from_nullb}
use caplifive_buildroot.NullBlk.Store.Block.{Sectors}
use caplifive_buildroot.NullBlk.Cache.Write.Loop.{IsCached}
use caplifive_buildroot.NullBlk.Cache.Write.ReadBack.{cached_copy_from-copy_to}

-- The third block of the page with index 5 is in the cache.
abbrev pub cached_page : Page
cached_page = record { bytes = λ j. j + 1; bitmap = λ i. i == 4 }

abbrev pub cached_disk : ℕ → Disk
cached_disk spare = record {
  data_tree = λ i. none;
  cache_tree = λ i. if i == 5 then some cached_page else none;
  curr_cache = 4096;
  blocksize = 1024;
  cache_active = true;
  spare = spare;
}

flush_refused-reads_example :
    Returns
      (λ r.
        (r.0 ≡ false)
        × (r.1.cache_tree 5 ≡ some (unlocked cached_page))
        × (r.1.curr_cache ≡ 4096)
        × ((t k : ℕ) → cached_reads r.1 t k ≡ cached_reads (cached_disk 0) t k))
      (null_flush_cache_page (λ i. 9) 9 5 cached_page (cached_disk 0))
flush_refused-reads_example =
    flush_refused-reads (λ i. 9) 9 5 cached_page (cached_disk 0) refl refl refl refl

-- A search of the tree that stops at the first page.
abbrev pub first_of : ℕ → Option Page → List (ℕ × Page) → List (ℕ × Page)
first_of pos none rest = rest
first_of pos (some p) rest = (pos, p) ∷ []

unfoldable pub first_from : ℕ → Tree → ℕ → List (ℕ × Page)
first_from zero t pos = []
first_from (suc rounds) t pos = first_of pos (t pos) (first_from rounds t (pos + 1))

first_from-Listed : (rounds : ℕ) (t : Tree) (pos : ℕ) → Listed t (first_from rounds t pos)
unfolding first_from
first_from-Listed zero t pos = _
first_from-Listed (suc rounds) t pos = elim (Option-cases (t pos)) [
  | inl absent ↦ rw absent (first_from-Listed rounds t (pos + 1))
  | inr (p, there) ↦ rw there (there, _, _)
]

first_from-missed :
    (rounds n : ℕ) (t : Tree) (pos i : ℕ)
    → ((j : ℕ) → n ≤ j → t j ≡ none)
    → n ≤ pos + rounds
    → first_from rounds t pos ≡ []
    → pos ≤ i
    → t i ≡ none
unfolding first_from
first_from-missed zero n t pos i above reach e le = above i (omega arith)
first_from-missed (suc rounds) n t pos i above reach e le = elim (Option-cases (t pos)) [
  | inl absent ↦
      let rest = first_from rounds t (pos + 1) in
      let e' : rest ≡ [] = sym (ap (λ o. first_of pos o rest) absent) ∙ e in
      elim (ℕ_discrete pos i) [
        | yes same ↦ rw (← same) absent
        | no other ↦
            first_from-missed rounds n t (pos + 1) i above (omega arith) e' (omega (arith, other))
      ]
  | inr (p, there) ↦
      let rest = first_from rounds t (pos + 1) in
      let e' : ◌≡◌ {A = List (ℕ × Page)} ((pos, p) ∷ []) [] =
        sym (ap (λ o. first_of pos o rest) there) ∙ e in
      absurd cc
]

pub first_from-IsGang : (n : ℕ) → IsGang n (first_from n)
first_from-IsGang n = record {
  listed = first_from-Listed n;
  missed = λ t pos i above e le. first_from-missed n n t pos i above (omega arith) e le;
}

abbrev pub cached_nullb : Nullb
cached_nullb = record { disk = cached_disk 1; cache_size = 1; cache_flush_pos = 7 }

cached_tree_bound : (i : ℕ) → 8 ≤ i → (cached_disk 1).cache_tree i ≡ none
cached_tree_bound i le = ground arith

abbrev bit_of : ℕ → Option Page → Bool
bit_of b none = false
bit_of b (some p) = p.bitmap b

cached_bits : (b i : ℕ) → b ≢ 4 → bit_of b ((cached_disk 1).cache_tree i) ≡ false
cached_bits b i ne = elim (Bool-cases (i == 5)) [
  | inl here ↦ rw here (ground (arith, ne))
  | inr other ↦ rw other
]

cached-Idle : Idle (cached_disk 1).cache_tree
cached-Idle i p e = (
  sym (ap (bit_of 8) e) ∙ cached_bits 8 i (omega arith),
  sym (ap (bit_of 9) e) ∙ cached_bits 9 i (omega arith),
)

pub cached-Calm : Calm 8 2 cached_nullb
unfolding count
cached-Calm = record {
  counted = record {
    bound = cached_tree_bound;
    counter = refl;
    small = omega arith;
    memory = omega arith;
    block = refl;
  };
  idle = cached-Idle;
}

null_handle_flush-Drained_example :
    Returns
      (λ r. (r.0 ≡ true) × Drained 2 cached_nullb r.1)
      (null_handle_flush (λ i. 9) (first_from 8) 4 2 cached_nullb)
unfolding count
null_handle_flush-Drained_example =
    null_handle_flush-Drained (λ i. 9) (first_from 8) 8 2 4 2 cached_nullb (first_from-IsGang 8)
      Sectors.two cached-Calm refl (omega arith) (omega arith) (omega arith) (omega arith)

-- The largest cache, with a megabyte in it.
abbrev spinning_nullb : Nullb
spinning_nullb = record cached_nullb {
  disk = record (cached_disk 1) { curr_cache = 2 ^ 20 };
  cache_size = 2 ^ 44 - 1;
}

null_handle_flush-spins_example :
    null_handle_flush (λ i. 9) (first_from 8) 101 50 spinning_nullb ≡ starved
null_handle_flush-spins_example =
    null_handle_flush-spins (λ i. 9) (first_from 8) 100 50 spinning_nullb refl refl (omega arith)
      (omega arith)

abbrev roomy_nullb : Nullb
roomy_nullb = record cached_nullb { disk = cached_disk 5 }

roomy-IsCached : IsCached 8 2 2 roomy_nullb
unfolding count
roomy-IsCached = record {
  calm = record {
    counted = record {
      bound = cached_tree_bound;
      counter = refl;
      small = omega arith;
      memory = omega arith;
      block = refl;
    };
    idle = cached-Idle;
  };
  active = refl;
  small = omega arith;
  memory = omega arith;
}

-- Two blocks of page 5, the second of which is in the cache.
cached_copy_from-copy_to_example :
    Returns
      (λ r.
        (r.0 ≡ true)
        × Returns
            (λ dest'. (b : ℕ) → b < 2048 → dest' (7 + b) ≡ b + 3)
            (copy_from_nullb 3 42 2048 7 (λ i. 0) r.1.disk))
      (copy_to_nullb
        (λ i. 9)
        (page_space (λ i. 9) (first_from 8) 7)
        3
        42
        false
        2048
        (λ i. i + 3)
        roomy_nullb)
unfolding count
cached_copy_from-copy_to_example =
    cached_copy_from-copy_to (λ i. 9) (first_from 8) 8 2 7 (first_from-IsGang 8) Sectors.two 2 3 42
      7 (λ i. i + 3) (λ i. 0) roomy_nullb roomy-IsCached refl (omega arith) (omega arith)
      (omega arith)
