-- ===== src/NullBlk/Request/Segments.antt =====
-- null_blk.c, `null_handle_rq` and `null_handle_bio`: what the segments of a write leave.
use native.Mathlib.Nat.{mul-add}
use mathlib.Core.Path.{subst}
use caplifive_buildroot.Base.{
  ℕ, ◌+◌, ◌-◌, ◌*◌, ◌/◌, ◌%◌, ◌≤◌, ◌<◌, ◌≡◌, refl, sym, ap, ◌∙◌, inl, inr, arith, Bool, Bool-cases,
  true, false, ltb, if◌then◌else◌, List, [], ◌∷◌, done,
}
use caplifive_buildroot.NullBlk.Store.{Disk, Nullb, copy_to_nullb}
use caplifive_buildroot.NullBlk.Store.Block.{Sectors, reads}
use caplifive_buildroot.NullBlk.Store.Copy.{IsPlain, CopiedTo, copy_to-CopiedTo}
use caplifive_buildroot.NullBlk.Cache.Space.{page_space}
use caplifive_buildroot.NullBlk.Request.{Segment, Kernel, null_transfer, handle_segments}

-- The bytes of `f`, of which there are `w`, and then those of `g`
abbrev pub join : ℕ → (ℕ → ℕ) → (ℕ → ℕ) → ℕ → ℕ
join w f g b = if ltb b w then f b else g (b - w)

-- The bytes of the segments, in their order
abbrev pub gathered : List Segment → (ℕ → ℕ) → ℕ → ℕ
gathered [] m b = 0
gathered (s ∷ ss) m b = join s.bv_len (λ j. m (s.at + j)) (gathered ss m) b

abbrev pub blocks_of : ℕ → Segment → ℕ
blocks_of q s = s.bv_len / (512 * q)

abbrev pub blocks : ℕ → List Segment → ℕ
blocks q [] = 0
blocks q (s ∷ ss) = blocks_of q s + blocks q ss

-- Every segment is whole blocks, of which there are fewer than `rounds`.
abbrev pub Whole : ℕ → ℕ → List Segment → Type 0
Whole rounds q [] = Unit {0}
Whole rounds q (s ∷ ss) =
    (s.bv_len ≡ 512 * q * blocks_of q s) × (blocks_of q s < rounds) × Whole rounds q ss

pub join_before : (w b : ℕ) (f g : ℕ → ℕ) → b < w → join w f g b ≡ f b
join_before w b f g h = ground arith

pub join_after : (w b : ℕ) (f g : ℕ → ℕ) → join w f g (w + b) ≡ g b
join_after w b f g =
    let e : w + b - w ≡ b = omega arith in
    let no_less : ltb (w + b) w ≡ false = ground arith in rw (no_less, e)

-- The places of block `j`, when it is one of the first `a`, and when it comes after them
pub block_before :
    (q a j k : ℕ)
    → Sectors q
    → j < a
    → k < 512 * q
    → (q * j < q * a) × (512 * q * j + k < 512 * q * a)
block_before _ a j k Sectors.one lt h = (omega arith, omega arith)
block_before _ a j k Sectors.two lt h = (omega arith, omega arith)
block_before _ a j k Sectors.four lt h = (omega arith, omega arith)
block_before _ a j k Sectors.eight lt h = (omega arith, omega arith)

pub block_after :
    (q a j k : ℕ)
    → (q * (a + j) ≡ q * a + q * j) × (512 * q * (a + j) + k ≡ 512 * q * a + (512 * q * j + k))
block_after q a j k = (mul-add q a j, omega (arith, mul-add (512 * q) a j))

pub aligned_at : (q s j : ℕ) → Sectors q → s % q ≡ 0 → (s + q * j) % q ≡ 0
aligned_at _ s j Sectors.one e = omega arith
aligned_at _ s j Sectors.two e = omega arith
aligned_at _ s j Sectors.four e = omega arith
aligned_at _ s j Sectors.eight e = omega arith

-- The sectors of a segment
pub next_segment :
    (q : ℕ) (s : Segment) (sector : ℕ)
    → Sectors q
    → s.bv_len ≡ 512 * q * blocks_of q s
    → sector + s.bv_len / 512 ≡ sector + q * blocks_of q s
next_segment _ s sector Sectors.one e = omega arith
next_segment _ s sector Sectors.two e = omega arith
next_segment _ s sector Sectors.four e = omega arith
next_segment _ s sector Sectors.eight e = omega arith

-- One write after another is a write of both.
pub CopiedTo-join :
    (q sector a b : ℕ) (f g : ℕ → ℕ) (d d1 d' : Disk)
    → Sectors q
    → CopiedTo q sector a f d d1
    → CopiedTo q (sector + q * a) b g d1 d'
    → sector % q ≡ 0
    → CopiedTo q sector (a + b) (join (512 * q * a) f g) d d'
CopiedTo-join q sector a b f g d d1 d' size c e aligned = record {
  plain = e.plain;
  spare = omega (arith, c.spare, e.spare);
  inside = inside;
  outside = λ t k al far h.
      e.outside t k al (omega (arith, far, mul-add q a b)) h
      ∙ c.outside t k al (omega (arith, far, mul-add q a b)) h;
}
  where
    inside :
        (j k : ℕ)
        → j < a + b
        → k < 512 * q
        → reads d' (sector + q * j) k ≡ join (512 * q * a) f g (512 * q * j + k)
    inside j k lt h = elim (Bool-cases (ltb j a)) [
      | inl less ↦
          let below : j < a = ground (arith, less) in
          let (place, byte) = block_before q a j k size below h in
          e.outside (sector + q * j) k (aligned_at q sector j size aligned)
            (inl (omega (arith, place))) h
          ∙ c.inside j k below h
          ∙ sym (join_before (512 * q * a) (512 * q * j + k) f g byte)
      | inr more ↦
          let i = j - a in
          let split : j ≡ a + i = ground (arith, more) in
          let (place, byte) = block_after q a i k in
          let at_sector : sector + q * j ≡ sector + q * a + q * i =
            ap (λ x. sector + q * x) split ∙ omega (arith, place) in
          let at_byte : 512 * q * j + k ≡ 512 * q * a + (512 * q * i + k) =
            ap (λ x. 512 * q * x + k) split ∙ byte in
          rw (at_sector, at_byte)
            (e.inside i k (ground (arith, more, lt)) h
              ∙ sym (join_after (512 * q * a) (512 * q * i + k) f g))
    ]

module _ (k : Kernel) (q rounds : ℕ) (size : Sectors q) where
  transfer_write-step :
      (op sector : ℕ) (s : Segment) (ss : List Segment) (zoned fua : Bool) (m : ℕ → ℕ) (u : Nullb)
      (d1 : Disk)
      → k.op_is_write op ≡ true
      → copy_to_nullb k.alloc_pages
          (page_space k.alloc_pages k.gang_lookup rounds)
          rounds
          sector
          fua
          s.bv_len
          (λ j. m (s.at + j))
          u
        ≡ done (true, record u { disk = d1 })
      → handle_segments k rounds (done op) zoned (s ∷ ss) sector fua (m, u)
        ≡ handle_segments k rounds
            (done op)
            zoned
            ss
            (sector + s.bv_len / 512)
            fua
            (m, record u { disk = d1 })
  unfolding handle_segments null_transfer
  transfer_write-step op sector s ss zoned fua m u d1 write run = rw (write, run)

  -- A write of whole blocks writes the bytes of its segments, one after another.
  pub write-CopiedTo :
      (op sector : ℕ) (ss : List Segment) (zoned fua : Bool) (m : ℕ → ℕ) (u : Nullb)
      → k.op_is_write op ≡ true
      → IsPlain q u.disk
      → sector % q ≡ 0
      → Whole rounds q ss
      → blocks q ss ≤ u.disk.spare
      → (d' : Disk) × (handle_segments k rounds (done op) zoned ss sector fua (m, u)
          ≡ done (true, (m, record u { disk = d' })))
        × CopiedTo q sector (blocks q ss) (gathered ss m) u.disk d'
  unfolding handle_segments
  write-CopiedTo op sector [] zoned fua m u write p a w spare = (
    u.disk,
    refl,
    record {
      plain = p;
      spare = omega arith;
      inside = λ j i none h. absurd (omega arith);
      outside = λ t i al far h. refl;
    },
  )
  write-CopiedTo op sector (s ∷ ss) zoned fua m u write p a (whole, few, w) spare =
      let n = blocks_of q s in
      let f : ℕ → ℕ = λ j. m (s.at + j) in
      let (d1, run, c) =
        copy_to-CopiedTo k.alloc_pages (page_space k.alloc_pages k.gang_lookup rounds) q size n
          rounds sector fua f u p a few (omega arith) in
      let (d', rest, c') =
        write-CopiedTo op (sector + q * n) ss zoned fua m (record u { disk = d1 }) write c.plain
          (aligned_at q sector n size a) w (omega (arith, c.spare)) in
      (
        d',
        transfer_write-step op sector s ss zoned fua m u d1 write (
              ap
                (λ len.
                  copy_to_nullb k.alloc_pages (page_space k.alloc_pages k.gang_lookup rounds) rounds
                    sector fua len f u)
                whole
              ∙ run)
            ∙ ap
                (λ at.
                  handle_segments k rounds (done op) zoned ss at fua (m, record u { disk = d1 }))
                (next_segment q s sector size whole)
            ∙ rest,
        subst (λ len. CopiedTo q sector (n + blocks q ss) (join len f (gathered ss m)) u.disk d')
            (sym whole)
            (CopiedTo-join q sector n (blocks q ss) f (gathered ss m) u.disk d1 d' size c c' a),
      )
