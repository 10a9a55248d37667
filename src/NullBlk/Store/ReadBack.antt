-- ===== src/NullBlk/Store/ReadBack.antt =====
-- null_blk.c, `copy_from_nullb`: it reads what the blocks hold, and on a device without a cache what
-- `copy_to_nullb` has written.
use native.Mathlib.Nat.{mul-suc, div-add-mod, div-lt_iff_lt-mul, mul_comm, mod-lt}
use caplifive_buildroot.Base.{
  ℕ, zero, suc, ◌+◌, ◌-◌, ◌*◌, ◌/◌, ◌%◌, ◌≤◌, ◌<◌, ◌≡◌, refl, ap, ◌∙◌, ◌⊎◌, inl, inr, arith, min,
  Bool, true, false, not, leb, ◌==◌, Option, none, some, Option-cases, Run, done, Bool-cases,
  Returns,
}
use caplifive_buildroot.NullBlk.Store.{
  Disk, Place, page_of, sector_bit, null_lookup_page, write_bytes, Nullb, copy_to_nullb, page_bytes,
  copy_from_round, copy_from_nullb,
}
use caplifive_buildroot.NullBlk.Store.Block.{
  Sectors, aligned_fits, reads, write_bytes_inside, write_bytes_outside,
}
use caplifive_buildroot.NullBlk.Store.Copy.{IsPlain, copy_to-CopiedTo, Sectors-pos, aligned_next}

-- What a reader gets of the block at `sector`
abbrev pub view : Disk → ℕ → ℕ → ℕ
view d sector k = page_bytes d sector (null_lookup_page d sector false (not d.cache_active)) k

pub view-reads :
    (d : Disk) (sector k : ℕ) → d.cache_active ≡ false → view d sector k ≡ reads d sector k
unfolding null_lookup_page
view-reads d sector k off = rw off (elim (Option-cases (d.data_tree (page_of sector))) [
  | inl absent ↦ rw absent
  | inr (p, there) ↦ elim (Bool-cases (p.bitmap (sector_bit sector))) [
    | inl set ↦ rw (there, set, there)
    | inr clear ↦ rw (there, clear)
  ]
])

-- A round puts what the block reads as.
round_fetches :
    (sector temp at : ℕ) (dest : ℕ → ℕ) (d : Disk) (place : Option Place)
    → sector_bit sector * 512 + temp ≤ 4096
    → copy_from_round d sector temp at dest place
      ≡ done (write_bytes dest at temp (page_bytes d sector place))
round_fetches sector temp at dest d none fits = refl
round_fetches sector temp at dest d (some place) fits =
    let inside : leb (sector_bit sector * 512 + temp) 4096 ≡ true = ground arith in rw inside

-- After a read of `m` blocks to `at`.
pub record CopiedFrom (q sector m at : ℕ) (dest dest' : ℕ → ℕ) (v : ℕ → ℕ → ℕ) : Type 0 where
  pub inside :
      (j k : ℕ) → j < m → k < 512 * q → dest' (at + (512 * q * j + k)) ≡ v (sector + q * j) k
  pub outside : (b : ℕ) → (b < at) ⊎ (at + 512 * q * m ≤ b) → dest' b ≡ dest b

module _ (q : ℕ) (size : Sectors q) (d : Disk) (block : d.blocksize ≡ 512 * q) (v : ℕ → ℕ → ℕ)
    (views : (sector k : ℕ) → view d sector k ≡ v sector k) where
  pos : 0 < q
  pos = Sectors-pos q size

  copy_from-step :
      (rounds sector n rest at : ℕ) (dest dest' : ℕ → ℕ)
      → n ≡ 512 * q + rest
      → copy_from_round d sector
          (512 * q)
          at
          dest
          (null_lookup_page d sector false (not d.cache_active))
        ≡ done dest'
      → copy_from_nullb (suc rounds) sector n at dest d
        ≡ copy_from_nullb rounds (sector + q) rest (at + 512 * q) dest' d
  unfolding copy_from_nullb
  copy_from-step rounds sector n rest at dest dest' e run =
      let more : (n == 0) ≡ false = ground (arith, e, pos) in
      let temp : min d.blocksize n ≡ 512 * q = omega (arith, block, e) in
      let sectors : 512 * q / 512 ≡ q = omega arith in
      let left : n - 512 * q ≡ rest = omega (arith, e) in rw (more, temp, run) (rw (sectors, left))

  copy_from-end :
      (rounds sector at : ℕ) (dest : ℕ → ℕ)
      → copy_from_nullb (suc rounds) sector (512 * q * 0) at dest d ≡ done dest
  unfolding copy_from_nullb
  copy_from-end rounds sector at dest =
      let none : (512 * q * 0 == 0) ≡ true = ground arith in rw none

  CopiedFrom-cons :
      (sector m at : ℕ) (dest dest' f : ℕ → ℕ)
      → ((k : ℕ) → f k ≡ v sector k)
      → CopiedFrom q (sector + q) m (at + 512 * q) (write_bytes dest at (512 * q) f) dest' v
      → CopiedFrom q sector (suc m) at dest dest' v
  CopiedFrom-cons sector m at dest dest' f same c = record {
    inside = inside;
    outside = λ b far.
        c.outside b (omega (arith, far, mul-suc (512 * q) m))
        ∙ write_bytes_outside dest at (512 * q) b f (omega (arith, far, mul-suc (512 * q) m));
  }
    where
      inside :
          (j k : ℕ)
          → j < suc m
          → k < 512 * q
          → dest' (at + (512 * q * j + k)) ≡ v (sector + q * j) k
      inside zero k lt h =
          let place : sector + q * 0 ≡ sector = omega arith in
          let byte : at + (512 * q * 0 + k) ≡ at + k = omega arith in
          let back : at + k - at ≡ k = omega arith in
          rw (place, byte)
            (c.outside (at + k) (inl (omega (arith, h)))
              ∙ write_bytes_inside dest at (512 * q) (at + k) f (omega arith) (omega (arith, h))
              ∙ ap f back
              ∙ same k)
      inside (suc j) k lt h =
          let place : sector + q * suc j ≡ sector + q + q * j = omega (arith, mul-suc q j) in
          let byte : at + (512 * q * suc j + k) ≡ at + 512 * q + (512 * q * j + k) =
            omega (arith, mul-suc (512 * q) j) in
          rw (place, byte) (c.inside j k (omega arith) h)

  -- Reading `m` aligned blocks ends within `m + 1` rounds without an
  -- access outside a page: the destination has what the blocks read as, and is otherwise unchanged.
  pub copy_from-CopiedFrom :
      (m rounds sector at : ℕ) (dest : ℕ → ℕ)
      → sector % q ≡ 0
      → m < rounds
      → (dest' : ℕ → ℕ) × (copy_from_nullb rounds sector (512 * q * m) at dest d ≡ done dest')
        × CopiedFrom q sector m at dest dest' v
  copy_from-CopiedFrom m zero sector at dest a lt = absurd (omega arith)
  copy_from-CopiedFrom zero (suc rounds) sector at dest a lt = (
    dest,
    copy_from-end rounds sector at dest,
    record { inside = λ j k none h. absurd (omega arith); outside = λ b far. refl },
  )
  copy_from-CopiedFrom (suc m) (suc rounds) sector at dest a lt =
      let f = view d sector in
      let run =
        round_fetches sector (512 * q) at dest d
          (null_lookup_page d sector false (not d.cache_active))
          (omega (arith, aligned_fits q sector size a)) in
      let (dest', rest, c) =
        copy_from-CopiedFrom m rounds (sector + q) (at + 512 * q) (write_bytes dest at (512 * q) f)
          (aligned_next q sector size a) (omega arith) in
      (
        dest',
        copy_from-step rounds sector (512 * q * suc m) (512 * q * m) at dest
              (write_bytes dest at (512 * q) f) (omega (arith, mul-suc (512 * q) m)) run
            ∙ rest,
        CopiedFrom-cons sector m at dest dest' f (λ k. views sector k) c,
      )

-- The bytes of blocks `0 .. m`, counted through.
pub by_block :
    (P : ℕ → Type 0) (w m : ℕ)
    → 0 < w
    → ((j k : ℕ) → j < m → k < w → P (w * j + k))
    → (b : ℕ) → b < w * m
    → P b
by_block P w m pos h b lt =
    let below : b / w < m = (div-lt_iff_lt-mul pos).1 (omega (arith, lt, mul_comm m w)) in
    let split : w * (b / w) + b % w ≡ b = div-add-mod b w in
    rw (← split) (h (b / w) (b % w) below (mod-lt b pos))

module _ (junk : ℕ → ℕ) (space : Nullb → Run Nullb) (q : ℕ) (size : Sectors q) where
  -- What is written is what is read: on a device without a cache, with blocks of 1, 2, 4 or 8
  -- sectors, writing `m` aligned blocks succeeds while the kernel has a page for each of them, and
  -- reading them then gives the bytes written, within `m + 1` rounds each.
  pub copy_from-copy_to :
      (m rounds sector at : ℕ) (fua : Bool) (source dest : ℕ → ℕ) (s : Nullb)
      → IsPlain q s.disk
      → sector % q ≡ 0
      → m < rounds
      → m ≤ s.disk.spare
      → (d' : Disk) × (copy_to_nullb junk space rounds sector fua (512 * q * m) source s
          ≡ done (true, record s { disk = d' }))
        × (Returns
            (λ dest'. (b : ℕ) → b < 512 * q * m → dest' (at + b) ≡ source b)
            (copy_from_nullb rounds sector (512 * q * m) at dest d'))
  copy_from-copy_to m rounds sector at fua source dest s p a lt spare =
      let (d', run, c) =
        copy_to-CopiedTo junk space q size m rounds sector fua source s p a lt spare in
      let (dest', back, f) =
        copy_from-CopiedFrom q size d' c.plain.block (reads d')
          (λ t k. view-reads d' t k c.plain.uncached) m rounds sector at dest a lt in
      (
        d',
        run,
        rw back (
            by_block (λ b. dest' (at + b) ≡ source b) (512 * q) m
              (omega (arith, Sectors-pos q size))
              (λ j k lo hi. f.inside j k lo hi ∙ c.inside j k lo hi)),
      )
