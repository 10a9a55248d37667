-- ===== src/NullBlk/Store/Copy.antt =====
-- null_blk.c, `copy_to_nullb` and `copy_from_nullb` on a device without a cache: what is written is
-- what is read.
use native.Mathlib.Decide.{ℕ_discrete}
use native.Mathlib.Nat.{mul-suc}
use caplifive_buildroot.Base.{
  ℕ, zero, suc, ◌+◌, ◌-◌, ◌*◌, ◌/◌, ◌%◌, ◌≤◌, ◌<◌, ◌≡◌, refl, sym, ap, ◌∙◌, ◌≢◌, ◌⊎◌, inl, arith,
  min, Bool, true, false, ◌==◌, some, Run, done,
}
use caplifive_buildroot.NullBlk.Store.{
  put, Disk, page_of, sector_bit, copy_to_round, Nullb, copy_to_nullb, filled,
}
use caplifive_buildroot.NullBlk.Store.Block.{
  Sectors, aligned_fits, aligned-Disjoint, reads, reads_page, base, reads-base, filled-reads,
  filled-others, put_self, put_ne, Wrote,
}
use caplifive_buildroot.NullBlk.Store.Round.{round-Wrote}

Wrote-reads :
    (junk source : ℕ → ℕ) (sector temp k : ℕ) (d d' : Disk)
    → Wrote junk source sector temp d d'
    → k < temp
    → reads d' sector k ≡ source k
Wrote-reads junk source sector temp k d d' w h =
    let p = base junk (d.data_tree (page_of sector)) in
    rw
      (
        w.tree (page_of sector),
        put_self d.data_tree (page_of sector) (some (filled sector temp source p)),
      )
      (filled-reads p sector temp k source h)

Wrote-others :
    (junk source : ℕ → ℕ) (q sector t k : ℕ) (d d' : Disk)
    → Sectors q
    → Wrote junk source sector (512 * q) d d'
    → sector % q ≡ 0
    → t % q ≡ 0
    → sector ≢ t
    → 0 < q
    → k < 512 * q
    → reads d' t k ≡ reads d t k
Wrote-others junk source q sector t k d d' size w a b ne pos h =
    elim (ℕ_discrete (page_of sector) (page_of t)) [
      | yes same ↦
          let p = base junk (d.data_tree (page_of sector)) in
          ap (λ o. reads_page o (sector_bit t) k)
            (w.tree (page_of t)
              ∙ ap
                  (λ i.
                    put d.data_tree (page_of sector) (some (filled sector (512 * q) source p)) i)
                  (sym same)
              ∙ put_self d.data_tree (page_of sector) (some (filled sector (512 * q) source p)))
          ∙ filled-others p sector q t k source (aligned-Disjoint q sector t size a b ne same) pos h
          ∙ reads-base junk (d.data_tree (page_of sector)) (sector_bit t) k
          ∙ ap (λ i. reads_page (d.data_tree i) (sector_bit t) k) same
      | no other ↦
          ap (λ o. reads_page o (sector_bit t) k)
            (w.tree (page_of t) ∙ put_ne d.data_tree (page_of sector) (page_of t) _ other)
    ]

pub Sectors-pos : (q : ℕ) → Sectors q → 0 < q
Sectors-pos _ Sectors.one = omega arith
Sectors-pos _ Sectors.two = omega arith
Sectors-pos _ Sectors.four = omega arith
Sectors-pos _ Sectors.eight = omega arith

pub aligned_next : (q s : ℕ) → Sectors q → s % q ≡ 0 → (s + q) % q ≡ 0
aligned_next _ s Sectors.one e = omega arith
aligned_next _ s Sectors.two e = omega arith
aligned_next _ s Sectors.four e = omega arith
aligned_next _ s Sectors.eight e = omega arith

-- A device without a cache, with blocks of `q` sectors.
pub record IsPlain (q : ℕ) (d : Disk) : Type 0 where
  pub uncached : d.cache_active ≡ false
  pub block : d.blocksize ≡ 512 * q

-- After a write of `m` blocks from `sector` on: they read as the source, all others as before.
pub record CopiedTo (q sector m : ℕ) (source : ℕ → ℕ) (d d' : Disk) : Type 0 where
  pub plain : IsPlain q d'
  pub spare : d.spare ≤ d'.spare + m
  pub inside :
      (j k : ℕ) → j < m → k < 512 * q → reads d' (sector + q * j) k ≡ source (512 * q * j + k)
  pub outside :
      (t k : ℕ)
      → t % q ≡ 0
      → (t < sector) ⊎ (sector + q * m ≤ t)
      → k < 512 * q
      → reads d' t k ≡ reads d t k

module _ (junk : ℕ → ℕ) (space : Nullb → Run Nullb) (q : ℕ) (size : Sectors q) where
  pub copy_to-step :
      (rounds sector n rest : ℕ) (fua : Bool) (source : ℕ → ℕ) (s s1 : Nullb)
      → s.disk.blocksize ≡ 512 * q
      → n ≡ 512 * q + rest
      → copy_to_round junk space sector fua (512 * q) source s ≡ done (true, s1)
      → copy_to_nullb junk space (suc rounds) sector fua n source s
        ≡ copy_to_nullb junk space rounds (sector + q) fua rest (λ j. source (512 * q + j)) s1
  unfolding copy_to_nullb
  copy_to-step rounds sector n rest fua source s s1 block e run =
      let pos = Sectors-pos q size in
      let more : (n == 0) ≡ false = ground (arith, e, pos) in
      let temp : min s.disk.blocksize n ≡ 512 * q = omega (arith, block, e) in
      let sectors : 512 * q / 512 ≡ q = omega arith in
      let left : n - 512 * q ≡ rest = omega (arith, e) in rw (more, temp, run, sectors, left)

  pub copy_to-end :
      (rounds sector : ℕ) (fua : Bool) (source : ℕ → ℕ) (s : Nullb)
      → copy_to_nullb junk space (suc rounds) sector fua (512 * q * 0) source s ≡ done (true, s)
  unfolding copy_to_nullb
  copy_to-end rounds sector fua source s =
      let none : (512 * q * 0 == 0) ≡ true = ground arith in rw none

  -- The first block, and then the others.
  CopiedTo-cons :
      (sector m : ℕ) (source : ℕ → ℕ) (d d1 d' : Disk)
      → IsPlain q d
      → sector % q ≡ 0
      → Wrote junk source sector (512 * q) d d1
      → CopiedTo q (sector + q) m (λ j. source (512 * q + j)) d1 d'
      → CopiedTo q sector (suc m) source d d'
  CopiedTo-cons sector m source d d1 d' p a w c = record {
    plain = c.plain;
    spare = omega (arith, c.spare, w.spare);
    inside = inside;
    outside = λ t k b far h.
        c.outside t k b (omega (arith, far, mul-suc q m)) h
        ∙ Wrote-others junk source q sector t k d d1 size w a b
            (omega (arith, far, pos, mul-suc q m)) pos h;
  }
    where
      pos : 0 < q
      pos = Sectors-pos q size

      inside :
          (j k : ℕ)
          → j < suc m
          → k < 512 * q
          → reads d' (sector + q * j) k ≡ source (512 * q * j + k)
      inside zero k lt h =
          let place : sector + q * 0 ≡ sector = omega arith in
          let byte : 512 * q * 0 + k ≡ k = omega arith in
          rw (place, byte)
            (c.outside sector k a (inl (omega (arith, pos))) h
              ∙ Wrote-reads junk source sector (512 * q) k d d1 w h)
      inside (suc j) k lt h =
          let place : sector + q * suc j ≡ sector + q + q * j = omega (arith, mul-suc q j) in
          let byte : 512 * q * suc j + k ≡ 512 * q + (512 * q * j + k) =
            omega (arith, mul-suc (512 * q) j) in
          rw (place, byte) (c.inside j k (omega arith) h)

  Wrote-IsPlain :
      (sector : ℕ) (source : ℕ → ℕ) (d d' : Disk)
      → IsPlain q d
      → Wrote junk source sector (512 * q) d d'
      → IsPlain q d'
  Wrote-IsPlain sector source d d' p w = record { uncached = w.uncached; block = w.block ∙ p.block }

  -- Writing `m` aligned blocks to a device without a cache, while the kernel has a page for each,
  -- ends within `m + 1` rounds without an access outside a page: the blocks then read as the bytes
  -- written, and every other block reads as it did.
  pub copy_to-CopiedTo :
      (m rounds sector : ℕ) (fua : Bool) (source : ℕ → ℕ) (s : Nullb)
      → IsPlain q s.disk
      → sector % q ≡ 0
      → m < rounds
      → m ≤ s.disk.spare
      → (d : Disk) × (copy_to_nullb junk space rounds sector fua (512 * q * m) source s
          ≡ done (true, record s { disk = d }))
        × CopiedTo q sector m source s.disk d
  copy_to-CopiedTo m zero sector fua source s p a lt spare = absurd (omega arith)
  copy_to-CopiedTo zero (suc rounds) sector fua source s p a lt spare = (
    s.disk,
    copy_to-end rounds sector fua source s,
    record {
      plain = p;
      spare = omega arith;
      inside = λ j k none h. absurd (omega arith);
      outside = λ t k b far h. refl;
    },
  )
  copy_to-CopiedTo (suc m) (suc rounds) sector fua source s p a lt spare =
      let (d1, run, w) =
        round-Wrote junk space sector (512 * q) fua source s p.uncached (omega arith)
          (omega (arith, aligned_fits q sector size a)) in
      let (d', rest, c) =
        copy_to-CopiedTo m rounds (sector + q) fua (λ j. source (512 * q + j))
          (record s { disk = d1 }) (Wrote-IsPlain sector source s.disk d1 p w)
          (aligned_next q sector size a) (omega arith) (omega (arith, w.spare)) in
      (
        d',
        copy_to-step rounds sector (512 * q * suc m) (512 * q * m) fua source s
              (record s { disk = d1 }) p.block (omega (arith, mul-suc (512 * q) m)) run
            ∙ rest,
        CopiedTo-cons sector m source s.disk d1 d' p a w c,
      )
