-- ===== src/NullBlk/Cache/Space/Search.antt =====
-- null_blk.c: the kernel's search for pages of a tree, as `null_make_cache_space` uses it.
use caplifive_buildroot.Base.{ℕ, ◌≤◌, ◌≡◌, none, some, List, [], ◌∷◌}
use caplifive_buildroot.NullBlk.Store.{Page, Tree}
use caplifive_buildroot.NullBlk.Cache.Space.Batch.{Apart, Holds}
use caplifive_buildroot.NullBlk.Cache.Space.Round.{Idle}

-- What the driver relies on of `radix_tree_gang_lookup`: it lists pages of the tree, each once, and
-- in a tree with all pages below `n`, it finds none only if there is none from the index on.
abbrev pub Listed : Tree → List (ℕ × Page) → Type 0
Listed t [] = Unit
Listed t ((i, p) ∷ es) = (t i ≡ some p) × Apart i es × Listed t es

pub record IsGang (n : ℕ) (gang_lookup : Tree → ℕ → List (ℕ × Page)) : Type 0 where
  pub listed : (t : Tree) (pos : ℕ) → Listed t (gang_lookup t pos)
  pub missed :
      (t : Tree) (pos i : ℕ)
      → ((j : ℕ) → n ≤ j → t j ≡ none)
      → gang_lookup t pos ≡ []
      → pos ≤ i
      → t i ≡ none

pub Listed-Holds : (es : List (ℕ × Page)) (t : Tree) → Idle t → Listed t es → Holds t es
Listed-Holds [] t idle l = l
Listed-Holds ((i, p) ∷ es) t idle (there, apart, l) =
    let (free, unlocked) = idle i p there in
    (there, free, unlocked, apart, Listed-Holds es t idle l)
