-- ===== src/NullBlk/Cache/Space/Count.antt =====
-- null_blk.c: the number of pages in a tree.
use native.Mathlib.Decide.{ℕ_discrete}
use caplifive_buildroot.Base.{ℕ, zero, suc, ◌+◌, ◌<◌, ◌≡◌, refl, ap, ◌≢◌, arith, Option, none, some}
use caplifive_buildroot.NullBlk.Store.{Page, Tree}

abbrev pub present : Option Page → ℕ
present none = 0
present (some p) = 1

unfoldable pub count : ℕ → Tree → ℕ
count zero t = 0
count (suc n) t = present (t n) + count n t

-- Two trees with pages at the same indices below `n`.
pub count-eq :
    (n : ℕ) (t u : Tree) → ((i : ℕ) → i < n → present (t i) ≡ present (u i)) → count n t ≡ count n u
unfolding count
count-eq zero t u h = refl
count-eq (suc n) t u h =
    let e = h n (omega arith) in
    let es = count-eq n t u (λ i lt. h i (omega arith)) in omega (arith, e, es)

-- A page less.
pub count_removed :
    (n i : ℕ) (t u : Tree)
    → i < n
    → present (t i) ≡ 1
    → present (u i) ≡ 0
    → ((j : ℕ) → i ≢ j → present (u j) ≡ present (t j))
    → count n u + 1 ≡ count n t
unfolding count
count_removed zero i t u lt here gone others = absurd (omega arith)
count_removed (suc n) i t u lt here gone others = elim (ℕ_discrete i n) [
  | yes same ↦
      let here' : present (t n) ≡ 1 = rw (← same) here in
      let gone' : present (u n) ≡ 0 = rw (← same) gone in
      let es = count-eq n u t (λ j lj. others j (omega (arith, same))) in
      omega (arith, here', gone', es)
  | no other ↦
      let e = others n other in
      let es = count_removed n i t u (omega (arith, other)) here gone others in omega (arith, e, es)
]

-- Without a page below `n`, there is none.
pub zero_count : (n i : ℕ) (t : Tree) → count n t ≡ 0 → i < n → t i ≡ none
unfolding count
zero_count zero i t e lt = absurd (omega arith)
zero_count (suc n) i t e lt = elim (ℕ_discrete i n) [
  | yes same ↦ rw same (absent (t n) (omega (arith, e)))
  | no other ↦ zero_count n i t (omega (arith, e)) (omega (arith, other))
]
  where
    absent : (o : Option Page) → present o ≡ 0 → o ≡ none
    absent none h = refl
    absent (some p) h = absurd (omega arith)

-- Without a page below `n` there are none to count.
pub count_zero : (n : ℕ) (t : Tree) → ((i : ℕ) → i < n → t i ≡ none) → count n t ≡ 0
unfolding count
count_zero zero t h = refl
count_zero (suc n) t h =
    let e = ap present (h n (omega arith)) in
    let es = count_zero n t (λ i lt. h i (omega arith)) in omega (arith, e, es)
