-- ===== src/NullBlk/Store/Discard.antt =====
-- null_blk.c, `null_handle_discard` on a device without a cache: discarded blocks read as zeroes.
use native.Mathlib.Decide.{ℕ_discrete}
use native.Mathlib.Nat.{mul-suc}
use caplifive_buildroot.Base.{
  ℕ, zero, suc, ◌+◌, ◌-◌, ◌*◌, ◌/◌, ◌%◌, ◌≤◌, ◌<◌, ◌≡◌, refl, sym, ap, ◌∙◌, ◌≢◌, ◌⊎◌, inl, inr,
  arith, min, Bool, true, false, not, ◌&&◌, ltb, if◌then◌else◌, Option, none, some, Option-cases,
  done, Bool-cases, Returns, Returns-mono,
}
use caplifive_buildroot.NullBlk.Store.{
  Page, Tree, put, set_bit, Disk, page_of, sector_bit, null_free_sector, empty_from,
  null_handle_discard,
}
use caplifive_buildroot.NullBlk.Store.Block.{
  Sectors, reads, reads_page, put_self, put_ne, set_bit_self, set_bit_ne,
}
use caplifive_buildroot.NullBlk.Store.Copy.{IsPlain, Sectors-pos}

and_split : (a b : Bool) → not a && b ≡ true → (a ≡ false) × (b ≡ true)
and_split true b e = cc
and_split false b e = (refl, e)

put_absent : (t : Tree) (i j : ℕ) → t i ≡ none → t j ≡ put t i none j
put_absent t i j e = elim (ℕ_discrete i j) [
  | yes same ↦ rw (← same) (e ∙ sym (put_self t i none))
  | no other ↦ sym (put_ne t i j none other)
]

pub empty-clear : (n i : ℕ) (bits : ℕ → Bool) → empty_from n bits ≡ true → i < n → bits i ≡ false
empty-clear zero i bits e lt = absurd (omega arith)
empty-clear (suc n) i bits e lt = elim (ℕ_discrete i n) [
  | yes same ↦ rw same (and_split (bits n) (empty_from n bits) e).0
  | no other ↦ empty-clear n i bits (and_split (bits n) (empty_from n bits) e).1 (omega arith)
]

-- The page of a sector, after the sector has been freed.
abbrev freed : ℕ → Option Page → Option Page
freed i none = none
freed i (some p) =
    let bits = set_bit p.bitmap i false in
    if empty_from 8 bits then none else some (record p { bitmap = bits })

freed-zero : (i k : ℕ) (o : Option Page) → reads_page (freed i o) i k ≡ 0
freed-zero i k none = refl
freed-zero i k (some p) = elim (Bool-cases (empty_from 8 (set_bit p.bitmap i false))) [
  | inl e ↦ rw e
  | inr e ↦ rw (e, set_bit_self p.bitmap i false)
]

freed-others :
    (i j k : ℕ) (o : Option Page) → i ≢ j → j < 8 → reads_page (freed i o) j k ≡ reads_page o j k
freed-others i j k none ne lt = refl
freed-others i j k (some p) ne lt = elim (Bool-cases (empty_from 8 (set_bit p.bitmap i false))) [
  | inl e ↦
      let clear : p.bitmap j ≡ false =
        sym (set_bit_ne p.bitmap i j false ne) ∙ empty-clear 8 j (set_bit p.bitmap i false) e lt in
      rw (e, clear)
  | inr e ↦ rw (e, set_bit_ne p.bitmap i j false ne)
]

free-tree :
    (sector i : ℕ) (d : Disk)
    → (null_free_sector sector false d).data_tree i
      ≡ put d.data_tree
          (page_of sector)
          (freed (sector_bit sector) (d.data_tree (page_of sector)))
          i
unfolding null_free_sector
free-tree sector i d = elim (Option-cases (d.data_tree (page_of sector))) [
  | inl absent ↦ rw absent (put_absent d.data_tree (page_of sector) i absent)
  | inr (p, there) ↦ elim (Bool-cases (empty_from 8 (set_bit p.bitmap (sector_bit sector) false))) [
    | inl e ↦ rw (there, e)
    | inr e ↦ rw (there, e)
  ]
]

free_kept :
    (sector : ℕ) (d : Disk)
    → ((null_free_sector sector false d).cache_active ≡ d.cache_active)
      × ((null_free_sector sector false d).blocksize ≡ d.blocksize)
unfolding null_free_sector
free_kept sector d = elim (Option-cases (d.data_tree (page_of sector))) [
  | inl absent ↦ rw absent (refl, refl)
  | inr (p, there) ↦ elim (Bool-cases (empty_from 8 (set_bit p.bitmap (sector_bit sector) false))) [
    | inl e ↦ rw (there, e) (refl, refl)
    | inr e ↦ rw (there, e) (refl, refl)
  ]
]

free-IsPlain : (q sector : ℕ) (d : Disk) → IsPlain q d → IsPlain q (null_free_sector sector false d)
free-IsPlain q sector d p =
    let (active, block) = free_kept sector d in
    record { uncached = active ∙ p.uncached; block = block ∙ p.block }

free-reads_self : (sector k : ℕ) (d : Disk) → reads (null_free_sector sector false d) sector k ≡ 0
free-reads_self sector k d =
    ap (λ o. reads_page o (sector_bit sector) k)
      (free-tree sector (page_of sector) d ∙ put_self d.data_tree (page_of sector) _)
    ∙ freed-zero (sector_bit sector) k (d.data_tree (page_of sector))

-- Sectors are apart when their places are.
sector_apart : (s t : ℕ) → s ≢ t → s / 8 ≡ t / 8 → s % 8 ≢ t % 8
sector_apart s t ne same e = ne (omega arith)

free-reads_other :
    (sector t k : ℕ) (d : Disk)
    → sector ≢ t
    → reads (null_free_sector sector false d) t k ≡ reads d t k
free-reads_other sector t k d ne = elim (ℕ_discrete (page_of sector) (page_of t)) [
  | yes same ↦
      let o = d.data_tree (page_of sector) in
      ap (λ o. reads_page o (sector_bit t) k)
        (free-tree sector (page_of t) d
          ∙ ap (λ i. put d.data_tree (page_of sector) (freed (sector_bit sector) o) i) (sym same)
          ∙ put_self d.data_tree (page_of sector) (freed (sector_bit sector) o))
      ∙ freed-others (sector_bit sector) (sector_bit t) k o (sector_apart sector t ne same)
          (omega arith)
      ∙ ap (λ i. reads_page (d.data_tree i) (sector_bit t) k) same
  | no other ↦
      ap (λ o. reads_page o (sector_bit t) k)
        (free-tree sector (page_of t) d ∙ put_ne d.data_tree (page_of sector) (page_of t) _ other)
]

-- After `m` blocks from `sector` on have been discarded.
pub record Discarded (q sector m : ℕ) (d d' : Disk) : Type 0 where
  pub plain : IsPlain q d'
  pub inside : (j k : ℕ) → j < m → reads d' (sector + q * j) k ≡ 0
  pub outside : (t k : ℕ) → (t < sector) ⊎ (sector + q * m ≤ t) → reads d' t k ≡ reads d t k

module _ (q : ℕ) (size : Sectors q) where
  discard-step :
      (rounds sector n rest : ℕ) (d : Disk)
      → IsPlain q d
      → n ≡ 512 * q + rest
      → null_handle_discard (suc rounds) sector n d
        ≡ null_handle_discard rounds (sector + q) rest (null_free_sector sector false d)
  unfolding null_handle_discard
  discard-step rounds sector n rest d p e =
      let pos = Sectors-pos q size in
      let more : ltb 0 n ≡ true = ground (arith, e, pos) in
      let temp : min n d.blocksize ≡ 512 * q = omega (arith, p.block, e) in
      let sectors : 512 * q / 512 ≡ q = omega arith in
      let left : n - 512 * q ≡ rest = omega (arith, e) in
      rw (more, temp, p.uncached) (rw (sectors, left))

  discard-end :
      (rounds sector : ℕ) (d : Disk)
      → null_handle_discard (suc rounds) sector (512 * q * 0) d ≡ done d
  unfolding null_handle_discard
  discard-end rounds sector d = let no : ltb 0 (512 * q * 0) ≡ false = ground arith in rw no

  Discarded-cons :
      (sector m : ℕ) (d d' : Disk)
      → Discarded q (sector + q) m (null_free_sector sector false d) d'
      → Discarded q sector (suc m) d d'
  Discarded-cons sector m d d' c = record {
    plain = c.plain;
    inside = inside;
    outside = λ t k far.
        c.outside t k (omega (arith, far, mul-suc q m))
        ∙ free-reads_other sector t k d (omega (arith, far, pos, mul-suc q m));
  }
    where
      pos : 0 < q
      pos = Sectors-pos q size

      inside : (j k : ℕ) → j < suc m → reads d' (sector + q * j) k ≡ 0
      inside zero k lt =
          let place : sector + q * 0 ≡ sector = omega arith in
          rw place (c.outside sector k (inl (omega (arith, pos))) ∙ free-reads_self sector k d)
      inside (suc j) k lt =
          let place : sector + q * suc j ≡ sector + q + q * j = omega (arith, mul-suc q j) in
          rw place (c.inside j k (omega arith))

  -- Discarding `m` blocks of a device without a cache ends within `m + 1` rounds: those blocks
  -- then read as zeroes, and everything else reads as it did.
  pub discard-Discarded :
      (m rounds sector : ℕ) (d : Disk)
      → IsPlain q d
      → m < rounds
      → Returns (Discarded q sector m d) (null_handle_discard rounds sector (512 * q * m) d)
  discard-Discarded m zero sector d p lt = absurd (omega arith)
  discard-Discarded zero (suc rounds) sector d p lt =
      rw (discard-end rounds sector d)
        (record { plain = p; inside = λ j k none. absurd (omega arith); outside = λ t k far. refl })
  discard-Discarded (suc m) (suc rounds) sector d p lt =
      rw
        (discard-step rounds sector (512 * q * suc m) (512 * q * m) d p
          (omega (arith, mul-suc (512 * q) m)))
        (Returns-mono _ _ (λ d' c. Discarded-cons sector m d d' c) _
          (discard-Discarded m rounds (sector + q) (null_free_sector sector false d)
            (free-IsPlain q sector d p) (omega arith)))
