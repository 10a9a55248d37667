-- ===== src/NullBlk/Store/Round.antt =====
-- null_blk.c: a round of `copy_to_nullb` on a device without a cache.
use caplifive_buildroot.Base.{
  ℕ, ◌+◌, ◌-◌, ◌*◌, ◌≤◌, ◌<◌, ◌≡◌, refl, ap, ◌∙◌, inl, inr, arith, Bool, true, false, leb, ◌==◌,
  if◌then◌else◌, Option, none, some, Option-cases, Run, done, Bool-cases,
}
use caplifive_buildroot.NullBlk.Store.{
  Page, Tree, put, set_bit, Disk, page_of, sector_bit, null_free_sector, null_lookup_page,
  null_insert_page, filled, write_page, empty_from, Nullb, stored, copy_to_round, free_in,
}
use caplifive_buildroot.NullBlk.Store.Block.{Wrote, base, put_self, put_twice}

-- What a write leaves alone.
record Same (d d' : Disk) : Type 0 where
  same_tree : d'.data_tree ≡ d.data_tree
  same_cache : d'.cache_active ≡ d.cache_active
  same_block : d'.blocksize ≡ d.blocksize
  same_spare : d'.spare ≡ d.spare

free_cache-Same : (sector : ℕ) (d : Disk) → Same d (null_free_sector sector true d)
unfolding null_free_sector
free_cache-Same sector d = elim (Option-cases (d.cache_tree (page_of sector))) [
  | inl absent ↦
      rw absent
        (record { same_tree = refl; same_cache = refl; same_block = refl; same_spare = refl })
  | inr (p, there) ↦ rw there (freed p)
]
  where
    freed : (p : Page) → Same d (free_in d sector true p)
    freed p = elim (Bool-cases (empty_from 8 (set_bit p.bitmap (sector_bit sector) false))) [
      | inl e ↦
          rw e
            (record { same_tree = refl; same_cache = refl; same_block = refl; same_spare = refl })
      | inr e ↦
          rw e
            (record { same_tree = refl; same_cache = refl; same_block = refl; same_spare = refl })
    ]

finished :
    (fua : Bool) (sector : ℕ) (d : Disk)
    → Same d (if fua then null_free_sector sector true d else d)
finished true sector d = free_cache-Same sector d
finished false sector d = record {
  same_tree = refl;
  same_cache = refl;
  same_block = refl;
  same_spare = refl;
}

module _ (junk : ℕ → ℕ) where
  abbrev pub after_insert : ℕ → Disk → Option Page → Disk
  after_insert sector d (some p) = d
  after_insert sector d none = record d {
    data_tree = put d.data_tree (page_of sector) (some (base junk none));
    spare = d.spare - 1;
  }

  pub insert_place :
      (sector : ℕ) (d : Disk)
      → 0 < d.spare
      → null_insert_page junk sector true d ≡ (
        some (record { in_cache = false; idx = page_of sector }),
        after_insert sector d (d.data_tree (page_of sector)),
      )
  unfolding null_insert_page null_lookup_page
  insert_place sector d spare = elim (Option-cases (d.data_tree (page_of sector))) [
    | inl absent ↦ let e : (d.spare == 0) ≡ false = ground arith in rw (absent, e, absent)
    | inr (p, there) ↦ rw there
  ]

  abbrev written : ℕ → ℕ → (ℕ → ℕ) → Disk → Disk
  written sector temp source d =
      write_page (record { in_cache = false; idx = page_of sector }) (filled sector temp source)
        (after_insert sector d (d.data_tree (page_of sector)))

  written-tree :
      (sector temp : ℕ) (source : ℕ → ℕ) (d : Disk) (i : ℕ)
      → (written sector temp source d).data_tree i
        ≡ put d.data_tree
            (page_of sector)
            (some (filled sector temp source (base junk (d.data_tree (page_of sector)))))
            i
  written-tree sector temp source d i = elim (Option-cases (d.data_tree (page_of sector))) [
    | inl absent ↦
        rw (absent, put_self d.data_tree (page_of sector) (some (base junk none)))
          (put_twice d.data_tree (page_of sector) i _ _)
    | inr (p, there) ↦ rw (there, there)
  ]

  written_kept :
      (sector temp : ℕ) (source : ℕ → ℕ) (d : Disk)
      → ((written sector temp source d).cache_active ≡ d.cache_active)
        × ((written sector temp source d).blocksize ≡ d.blocksize)
        × (d.spare ≤ (written sector temp source d).spare + 1)
  written_kept sector temp source d = elim (Option-cases (d.data_tree (page_of sector))) [
    | inl absent ↦
        rw (absent, put_self d.data_tree (page_of sector) (some (base junk none)))
          (refl, refl, omega arith)
    | inr (p, there) ↦ rw (there, there) (refl, refl, omega arith)
  ]

module _ (junk : ℕ → ℕ) (space : Nullb → Run Nullb) where
  pub uncached_round :
      (sector temp : ℕ) (fua : Bool) (source : ℕ → ℕ) (s : Nullb)
      → s.disk.cache_active ≡ false
      → copy_to_round junk space sector fua temp source s
        ≡ stored sector fua temp source s (null_insert_page junk sector true s.disk)
  unfolding copy_to_round
  uncached_round sector temp fua source s off = rw off

  pub round-Wrote :
      (sector temp : ℕ) (fua : Bool) (source : ℕ → ℕ) (s : Nullb)
      → s.disk.cache_active ≡ false
      → 0 < s.disk.spare
      → sector_bit sector * 512 + temp ≤ 4096
      → (d : Disk) × (copy_to_round junk space sector fua temp source s
          ≡ done (true, record s { disk = d }))
        × Wrote junk source sector temp s.disk d
  round-Wrote sector temp fua source u off spare fits =
      let d = u.disk in
      let d1 = written junk sector temp source d in
      let inside : leb (sector_bit sector * 512 + temp) 4096 ≡ true = ground arith in
      let d2 = if fua then null_free_sector sector true d1 else d1 in
      let s = finished fua sector d1 in
      let (active, block, left) = written_kept junk sector temp source d in
      (
        d2,
        rw (uncached_round sector temp fua source u off, insert_place junk sector d spare, inside)
            refl,
        record {
          tree = λ i. ap (λ (t : Tree). t i) s.same_tree ∙ written-tree junk sector temp source d i;
          uncached = s.same_cache ∙ active ∙ off;
          block = s.same_block ∙ block;
          spare = omega (arith, left, s.same_spare);
        },
      )
