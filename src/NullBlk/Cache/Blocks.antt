-- ===== src/NullBlk/Cache/Blocks.antt =====
-- null_blk.c, the loop of `null_flush_cache_page`: what the blocks of the page read as, after it.
use native.Mathlib.Decide.{ℕ_discrete}
use caplifive_buildroot.Base.{
  ℕ, zero, suc, ◌+◌, ◌-◌, ◌*◌, ◌/◌, ◌%◌, ◌≤◌, ◌<◌, ◌≡◌, refl, ap, ◌∙◌, ◌≢◌, inl, inr, arith, true,
  false, ltb, leb, some, done, Bool-cases, Returns, Returns-mono,
}
use caplifive_buildroot.NullBlk.Store.{Page}
use caplifive_buildroot.NullBlk.Store.Block.{
  over, Sectors, Disjoint, aligned_fits, aligned-Disjoint, reads_page, set_bit_self, set_bit_ne,
  write_bytes_inside, write_bytes_outside,
}
use caplifive_buildroot.NullBlk.Store.Copy.{Sectors-pos, aligned_next}
use caplifive_buildroot.NullBlk.Cache.{copied, flush_block, flush_blocks}

copied-reads :
    (i temp k : ℕ) (c t : Page)
    → k < temp
    → reads_page (some (copied i temp c t)) i k ≡ c.bytes (i * 512 + k)
copied-reads i temp k c t h =
    let e : i * 512 + k - i * 512 ≡ k = omega arith in
    rw (
      set_bit_self t.bitmap i true,
      write_bytes_inside t.bytes (i * 512) temp (i * 512 + k) (λ j. c.bytes (i * 512 + j))
          (omega arith) (omega arith),
      e,
    )

copied-others :
    (i q j k : ℕ) (c t : Page)
    → Disjoint q i j
    → 0 < q
    → k < 512 * q
    → reads_page (some (copied i (512 * q) c t)) j k ≡ reads_page (some t) j k
copied-others i q j k c t apart pos h = rw (
  set_bit_ne t.bitmap i j true (omega arith),
  write_bytes_outside t.bytes (i * 512) (512 * q) (j * 512 + k) (λ b. c.bytes (i * 512 + b))
      (omega arith),
)

-- After the loop from `i` on: the blocks before `i` are as they were, the others as the cache
-- shows them.
pub record Merged (q i : ℕ) (c t t' : Page) : Type 0 where
  pub before :
      (j k : ℕ)
      → j % q ≡ 0
      → j < i
      → j < 8
      → k < 512 * q
      → reads_page (some t') j k ≡ reads_page (some t) j k
  pub from :
      (j k : ℕ)
      → j % q ≡ 0
      → i ≤ j
      → j < 8
      → k < 512 * q
      → reads_page (some t') j k ≡ over c j k (reads_page (some t) j k)

-- One round of it.
record Round (q i : ℕ) (c t t' : Page) : Type 0 where
  here : (k : ℕ) → k < 512 * q → reads_page (some t') i k ≡ over c i k (reads_page (some t) i k)
  elsewhere :
      (j k : ℕ)
      → j % q ≡ 0
      → i ≢ j
      → j < 8
      → k < 512 * q
      → reads_page (some t') j k ≡ reads_page (some t) j k

small_Disjoint :
    (q i j : ℕ) → Sectors q → i % q ≡ 0 → j % q ≡ 0 → i ≢ j → i < 8 → j < 8 → Disjoint q i j
small_Disjoint q i j size a b ne li lj =
    let ei : i % 8 ≡ i = omega arith in
    let ej : j % 8 ≡ j = omega arith in
    let d : Disjoint q (i % 8) (j % 8) = aligned-Disjoint q i j size a b ne (omega arith) in
    omega (arith, d, ei, ej)

module _ (q : ℕ) (size : Sectors q) (c : Page) where
  block-Round :
      (i : ℕ) (t : Page)
      → i % q ≡ 0
      → i < 8
      → (t' : Page) × (flush_block i (512 * q) c t ≡ done t') × Round q i c t t'
  block-Round i t a lt = elim (Bool-cases (c.bitmap i)) [
    | inl set ↦
        let fits = aligned_fits q i size a in
        let inside : leb (i * 512 + 512 * q) 4096 ≡ true = ground (arith, fits) in
        (
          copied i (512 * q) c t,
          rw (set, inside),
          record {
            here = λ k h. rw set (copied-reads i (512 * q) k c t h);
            elsewhere = λ j k b ne lj h.
                copied-others i q j k c t (small_Disjoint q i j size a b ne lt lj)
                  (Sectors-pos q size) h;
          },
        )
    | inr clear ↦
        (t, rw clear, record { here = λ k h. rw clear; elsewhere = λ j k b ne lj h. refl })
  ]

  Merged-cons :
      (i : ℕ) (t t1 t' : Page)
      → i % q ≡ 0
      → i < 8
      → Round q i c t t1
      → Merged q (i + q) c t1 t'
      → Merged q i c t t'
  Merged-cons i t t1 t' a lt r m = record {
    before = λ j k b before lj h.
        m.before j k b (omega arith) lj h ∙ r.elsewhere j k b (omega arith) lj h;
    from = from;
  }
    where
      from :
          (j k : ℕ)
          → j % q ≡ 0
          → i ≤ j
          → j < 8
          → k < 512 * q
          → reads_page (some t') j k ≡ over c j k (reads_page (some t) j k)
      from j k b le lj h = elim (ℕ_discrete i j) [
        | yes same ↦
            let pos = Sectors-pos q size in
            m.before j k b (omega (arith, same, pos)) lj h ∙ rw (← same) (r.here k h)
        | no other ↦
            let apart = small_Disjoint q i j size a b other lt lj in
            m.from j k b (omega (arith, apart, other, le)) lj h
            ∙ ap (over c j k) (r.elsewhere j k b other lj h)
      ]

  flush-step :
      (rounds i : ℕ) (t t1 : Page)
      → i < 8
      → flush_block i (512 * q) c t ≡ done t1
      → flush_blocks (suc rounds) i (512 * q) c t ≡ flush_blocks rounds (i + q) (512 * q) c t1
  unfolding flush_blocks
  flush-step rounds i t t1 lt e =
      let more : ltb i 8 ≡ true = ground arith in
      let sectors : 512 * q / 512 ≡ q = omega arith in rw (more, e, sectors)

  flush-end : (rounds i : ℕ) (t : Page) → 8 ≤ i → flush_blocks (suc rounds) i (512 * q) c t ≡ done t
  unfolding flush_blocks
  flush-end rounds i t le = let no : ltb i 8 ≡ false = ground arith in rw no

  -- The loop ends within nine rounds.
  pub flush_blocks-Merged :
      (rounds i : ℕ) (t : Page)
      → i % q ≡ 0
      → 8 < rounds + i
      → 0 < rounds
      → Returns (Merged q i c t) (flush_blocks rounds i (512 * q) c t)
  flush_blocks-Merged zero i t a fuel pos = absurd (omega arith)
  flush_blocks-Merged (suc rounds) i t a fuel pos = elim (Bool-cases (ltb i 8)) [
    | inl more ↦
        let lt : i < 8 = ground (arith, more) in
        let (t1, e, r) = block-Round i t a lt in
        rw (flush-step rounds i t t1 lt e) (
          Returns-mono _ _ (λ t' m. Merged-cons i t t1 t' a lt r m) _
            (flush_blocks-Merged rounds (i + q) t1 (aligned_next q i size a)
              (omega (arith, Sectors-pos q size)) (omega arith)))
    | inr ended ↦
        let le : 8 ≤ i = ground (arith, ended) in
        rw (flush-end rounds i t le)
          (record { before = λ j k b lj l8 h. refl; from = λ j k b lj l8 h. absurd (omega arith) })
  ]
