-- ===== src/NullBlk/Request/Fetch.antt =====
-- null_blk.c, `null_handle_rq` and `null_handle_bio`: what the segments of a read get.
use native.Mathlib.Nat.{zero-div}
use caplifive_buildroot.Base.{
  ℕ, ◌+◌, ◌-◌, ◌*◌, ◌/◌, ◌%◌, ◌≤◌, ◌<◌, ◌≡◌, refl, ap, ◌∙◌, ◌⊎◌, inl, inr, arith, Bool, Bool-cases,
  true, false, ltb, ◌==◌, List, [], ◌∷◌, done,
}
use caplifive_buildroot.NullBlk.Store.{Disk, Nullb, copy_from_nullb}
use caplifive_buildroot.NullBlk.Store.Block.{Sectors, reads}
use caplifive_buildroot.NullBlk.Store.Copy.{IsPlain}
use caplifive_buildroot.NullBlk.Store.ReadBack.{view-reads, CopiedFrom, copy_from-CopiedFrom}
use caplifive_buildroot.NullBlk.Request.{Segment, Kernel, null_transfer, handle_segments}
use caplifive_buildroot.NullBlk.Request.Segments.{
  gathered, blocks_of, blocks, Whole, join_before, join_after, block_before, block_after,
  aligned_at, next_segment,
}

-- A byte of the memory that is in none of the segments
abbrev pub Outside : ℕ → List Segment → Type 0
Outside b [] = Unit {0}
Outside b (s ∷ ss) = ((b < s.at) ⊎ (s.at + s.bv_len ≤ b)) × Outside b ss

-- Segments of which no two have a byte in common
abbrev pub Apart : List Segment → Type 0
Apart [] = Unit {0}
Apart (s ∷ ss) = ((i : ℕ) → i < s.bv_len → Outside (s.at + i) ss) × Apart ss

-- After a read: the segments have what the blocks read as, the rest of the memory is as it was.
pub record Filled (q sector : ℕ) (ss : List Segment) (m m' : ℕ → ℕ) (d : Disk) : Type 0 where
  pub inside :
      (j i : ℕ)
      → j < blocks q ss
      → i < 512 * q
      → gathered ss m' (512 * q * j + i) ≡ reads d (sector + q * j) i
  pub outside : (b : ℕ) → Outside b ss → m' b ≡ m b

module _ (k : Kernel) (q rounds : ℕ) (size : Sectors q) (u : Nullb) (p : IsPlain q u.disk) where
  transfer_run :
      (s : Segment) (sector : ℕ) (fua : Bool) (m m1 : ℕ → ℕ)
      → (s.bv_len == 0) ≡ false
      → copy_from_nullb rounds sector s.bv_len s.at m u.disk ≡ done m1
      → null_transfer k rounds false s false sector fua (m, u) ≡ done (true, (m1, u))
  unfolding null_transfer
  transfer_run s sector fua m m1 some_bytes run =
      let all : (s.bv_len - s.bv_len == 0) ≡ true = ground arith in rw (some_bytes, run, all)

  transfer_empty :
      (s : Segment) (sector : ℕ) (fua : Bool) (m : ℕ → ℕ)
      → (s.bv_len == 0) ≡ true
      → null_transfer k rounds false s false sector fua (m, u) ≡ done (true, (m, u))
  unfolding null_transfer
  transfer_empty s sector fua m empty =
      let all : (s.bv_len - s.bv_len == 0) ≡ true = ground arith in rw (empty, all)

  transfer-CopiedFrom :
      (s : Segment) (sector : ℕ) (fua : Bool) (m : ℕ → ℕ)
      → sector % q ≡ 0
      → s.bv_len ≡ 512 * q * blocks_of q s
      → blocks_of q s < rounds
      → (m1 : ℕ → ℕ) × (null_transfer k rounds false s false sector fua (m, u)
          ≡ done (true, (m1, u)))
        × CopiedFrom q sector (blocks_of q s) s.at m m1 (reads u.disk)
  transfer-CopiedFrom s sector fua m a whole few = elim (Bool-cases (s.bv_len == 0)) [
    | inl empty ↦
        let no_blocks : blocks_of q s ≡ 0 =
          let e : s.bv_len ≡ 0 = ground (arith, empty) in
          ap (λ x. x / (512 * q)) e ∙ zero-div (512 * q) in
        (
          m,
          transfer_empty s sector fua m empty,
          record {
            inside = λ j i lt h. absurd (omega (arith, lt, no_blocks));
            outside = λ b far. refl;
          },
        )
    | inr some_bytes ↦
        let (m1, run, c) =
          copy_from-CopiedFrom q size u.disk p.block (reads u.disk)
            (λ t i. view-reads u.disk t i p.uncached) (blocks_of q s) rounds sector s.at m a few in
        (
          m1,
          transfer_run s sector fua m m1 some_bytes
              (ap (λ len. copy_from_nullb rounds sector len s.at m u.disk) whole ∙ run),
          c,
        )
  ]

  read-step :
      (op sector : ℕ) (s : Segment) (ss : List Segment) (fua : Bool) (m m1 : ℕ → ℕ)
      → k.op_is_write op ≡ false
      → null_transfer k rounds false s false sector fua (m, u) ≡ done (true, (m1, u))
      → handle_segments k rounds (done op) false (s ∷ ss) sector fua (m, u)
        ≡ handle_segments k rounds (done op) false ss (sector + s.bv_len / 512) fua (m1, u)
  unfolding handle_segments
  read-step op sector s ss fua m m1 read run = rw (read, run)

  Filled-cons :
      (sector : ℕ) (s : Segment) (ss : List Segment) (m m1 m' : ℕ → ℕ)
      → Apart (s ∷ ss)
      → s.bv_len ≡ 512 * q * blocks_of q s
      → CopiedFrom q sector (blocks_of q s) s.at m m1 (reads u.disk)
      → Filled q (sector + q * blocks_of q s) ss m1 m' u.disk
      → Filled q sector (s ∷ ss) m m' u.disk
  Filled-cons sector s ss m m1 m' (far, apart) whole c f = record {
    inside = λ j i lt h. elim (Bool-cases (ltb j (blocks_of q s))) [
      | inl less ↦
          let below : j < blocks_of q s = ground (arith, less) in
          let byte : 512 * q * j + i < s.bv_len =
            omega (arith, whole, (block_before q (blocks_of q s) j i size below h).1) in
          join_before s.bv_len (512 * q * j + i) (λ x. m' (s.at + x)) (gathered ss m') byte
          ∙ f.outside (s.at + (512 * q * j + i)) (far (512 * q * j + i) byte)
          ∙ c.inside j i below h
      | inr more ↦ after j i lt h more
    ];
    outside = λ b (away, others). f.outside b others ∙ c.outside b (omega (arith, away, whole));
  }
    where
      after :
          (j i : ℕ)
          → j < blocks_of q s + blocks q ss
          → i < 512 * q
          → ltb j (blocks_of q s) ≡ false
          → gathered (s ∷ ss) m' (512 * q * j + i) ≡ reads u.disk (sector + q * j) i
      after j i lt h more =
          let n = blocks_of q s in
          let x = j - n in
          let split : j ≡ n + x = ground (arith, more) in
          let (place, byte) = block_after q n x i in
          let at_sector : sector + q * j ≡ sector + q * n + q * x =
            ap (λ y. sector + q * y) split ∙ omega (arith, place) in
          let at_byte : 512 * q * j + i ≡ s.bv_len + (512 * q * x + i) =
            ap (λ y. 512 * q * y + i) split ∙ omega (arith, byte, whole) in
          rw (at_sector, at_byte)
            (join_after s.bv_len (512 * q * x + i) (λ y. m' (s.at + y)) (gathered ss m')
              ∙ f.inside x i (ground (arith, more, lt)) h)

  -- A read of whole blocks into segments that do not overlap.
  pub read-Filled :
      (op sector : ℕ) (ss : List Segment) (fua : Bool) (m : ℕ → ℕ)
      → k.op_is_write op ≡ false
      → sector % q ≡ 0
      → Whole rounds q ss
      → Apart ss
      → (m' : ℕ → ℕ) × (handle_segments k rounds (done op) false ss sector fua (m, u)
          ≡ done (true, (m', u)))
        × Filled q sector ss m m' u.disk
  unfolding handle_segments
  read-Filled op sector [] fua m read a w apart =
      (m, refl, record { inside = λ j i none h. absurd (omega arith); outside = λ b far. refl })
  read-Filled op sector (s ∷ ss) fua m read a (whole, few, w) apart =
      let n = blocks_of q s in
      let (m1, run, c) = transfer-CopiedFrom s sector fua m a whole few in
      let (m', rest, f) =
        read-Filled op (sector + q * n) ss fua m1 read (aligned_at q sector n size a) w apart.1 in
      (
        m',
        read-step op sector s ss fua m m1 read run
            ∙ ap (λ at. handle_segments k rounds (done op) false ss at fua (m1, u))
                (next_segment q s sector size whole)
            ∙ rest,
        Filled-cons sector s ss m m1 m' apart whole c f,
      )
