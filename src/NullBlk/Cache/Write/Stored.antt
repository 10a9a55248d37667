-- ===== src/NullBlk/Cache/Write/Stored.antt =====
-- null_blk.c: a round of `copy_to_nullb` on a device with a cache, by where the page of its block is.
use caplifive_buildroot.Base.{
  ℕ, ◌+◌, ◌-◌, ◌*◌, ◌%◌, ◌^◌, ◌≤◌, ◌<◌, ◌≡◌, refl, inl, inr, arith, true, false, leb, ◌==◌, none,
  some, Option-cases, done,
}
use caplifive_buildroot.NullBlk.Store.{
  put, Disk, Nullb, page_of, sector_bit, null_lookup_page, null_insert_page, filled, stored,
}
use caplifive_buildroot.NullBlk.Store.Block.{Sectors, aligned_fits, base, put_self, put_twice}
use caplifive_buildroot.NullBlk.Cache.Space.Count.{count}
use caplifive_buildroot.NullBlk.Cache.Space.Batch.{Counted}
use caplifive_buildroot.NullBlk.Cache.Space.Round.{Idle}
use caplifive_buildroot.NullBlk.Cache.Write.Counts.{
  Written, cached-Written, fresh-Written, below-Written,
}

module _ (junk source : ℕ → ℕ) (n q sector : ℕ) (size : Sectors q) where
  -- The round from the search of the page on, with a page of the kernel left.
  pub stored-Written :
      (s : Nullb)
      → Counted n q s.disk
      → Idle s.disk.cache_tree
      → sector % q ≡ 0
      → page_of sector < n
      → count n s.disk.cache_tree + 1 < 2 ^ 20
      → count n s.disk.cache_tree + 2 ≤ s.disk.spare
      → (d : Disk) × (stored sector false
            (512 * q)
            source
            s
            (null_insert_page junk sector false s.disk)
          ≡ done (true, record s { disk = d }))
        × Written n q sector source s.disk d
  unfolding null_insert_page null_lookup_page
  stored-Written s counted idle a lt small memory =
      let d = s.disk in
      let i = page_of sector in
      let fits : leb (sector_bit sector * 512 + 512 * q) 4096 ≡ true =
        let within = aligned_fits q sector size a in ground (arith, within) in
      elim (Option-cases (d.cache_tree i)) [
        | inr (c, there) ↦ (
          record d { cache_tree = put d.cache_tree i (some (filled sector (512 * q) source c)) },
          rw (there, there, fits),
          cached-Written junk source n q sector size d _ c counted idle a there
              (record { tree = λ j. rw there refl; untouched = refl }) refl refl refl refl,
        )
        | inl absent ↦ elim (Option-cases (d.data_tree i)) [
          | inr (p, there) ↦ (
            record d { data_tree = put d.data_tree i (some (filled sector (512 * q) source p)) },
            rw (absent, there, there, fits),
            below-Written junk source n q sector size d p counted idle a absent there,
          )
          | inl no_data ↦
              let t = put d.cache_tree i (some (base junk none)) in
              let some_left : (d.spare == 0) ≡ false = ground (arith, memory) in
              (
                record d {
                  cache_tree = put t i (some (filled sector (512 * q) source (base junk none)));
                  curr_cache = (d.curr_cache + 4096) % 2 ^ 32;
                  spare = d.spare - 1;
                },
                rw (
                  absent,
                  no_data,
                  some_left,
                  absent,
                  put_self d.cache_tree i (some (base junk none)),
                  fits,
                ),
                fresh-Written junk source n q sector size d _ counted idle a lt small memory absent
                    (record {
                      tree = λ j. rw absent (put_twice d.cache_tree i j _ _);
                      untouched = refl;
                    })
                    refl (omega (arith, memory)) refl refl,
              )
        ]
      ]
