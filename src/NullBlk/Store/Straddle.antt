-- ===== src/NullBlk/Store/Straddle.antt =====
-- null_blk.c, `copy_to_nullb`: blocks that do not divide a page. `null_validate_conf` lets every
-- multiple of 512 up to 4096 pass as the size of a block.
use caplifive_buildroot.Base.{
  ℕ, zero, suc, ◌+◌, ◌*◌, ◌/◌, ◌%◌, ◌≤◌, ◌<◌, ◌≡◌, ◌≢◌, ◌⊎◌, refl, inl, inr, arith, min, Bool,
  false, leb, ◌==◌, Run, fault,
}
use mathlib.Core.Path.{subst}
use caplifive_buildroot.NullBlk.Config.{Host, Device, valid_device, null_validate_conf}
use caplifive_buildroot.NullBlk.Config.Valid.{blocksize-valid}
use caplifive_buildroot.NullBlk.Store.{Nullb, sector_bit, copy_to_nullb}
use caplifive_buildroot.NullBlk.Store.Round.{uncached_round, insert_place}

blocksize-validated :
    (h : Host) (d : Device)
    → ((null_validate_conf h d).1.blocksize % 512 ≡ 0)
      × (512 ≤ (null_validate_conf h d).1.blocksize)
      × ((null_validate_conf h d).1.blocksize ≤ 4096)
unfolding null_validate_conf valid_device
blocksize-validated h d = blocksize-valid d.blocksize

-- Blocks of `q` sectors divide a page, or one of the first three straddles the end of a page.
abbrev Straddles : ℕ → Type 0
Straddles b =
    (4096 % b ≡ 0) ⊎ ((j : ℕ) × (j < 3) × (4096 < sector_bit (j * (b / 512)) * 512 + min b b))

straddled_sectors : (q : ℕ) → 0 < q → q < 9 → Straddles (512 * q)
straddled_sectors zero some few = absurd (omega arith)
straddled_sectors (suc zero) some few = inl refl
straddled_sectors (suc (suc zero)) some few = inl refl
straddled_sectors (suc (suc (suc zero))) some few = inr (2, omega arith, omega arith)
straddled_sectors (suc (suc (suc (suc zero)))) some few = inl refl
straddled_sectors (suc (suc (suc (suc (suc zero))))) some few = inr (1, omega arith, omega arith)
straddled_sectors (suc (suc (suc (suc (suc (suc zero)))))) some few =
    inr (1, omega arith, omega arith)
straddled_sectors (suc (suc (suc (suc (suc (suc (suc zero))))))) some few =
    inr (1, omega arith, omega arith)
straddled_sectors (suc (suc (suc (suc (suc (suc (suc (suc zero)))))))) some few = inl refl
straddled_sectors (suc (suc (suc (suc (suc (suc (suc (suc (suc q))))))))) some few =
    absurd (omega arith)

straddled : (b : ℕ) → b % 512 ≡ 0 → 512 ≤ b → b ≤ 4096 → Straddles b
straddled b sectors least most =
    let e : 512 * (b / 512) ≡ b = omega (arith, sectors) in
    subst Straddles e (straddled_sectors (b / 512) (omega arith) (omega arith))

module _ (junk : ℕ → ℕ) (space : Nullb → Run Nullb) where
  -- A block that starts in a page and does not end in it is written past the page's end, on a
  -- device without a cache, while the kernel has a page.
  pub copy_to_straddles :
      (rounds sector n : ℕ) (fua : Bool) (source : ℕ → ℕ) (s : Nullb)
      → s.disk.cache_active ≡ false
      → 0 < s.disk.spare
      → 0 < n
      → 4096 < sector_bit sector * 512 + min s.disk.blocksize n
      → copy_to_nullb junk space (suc rounds) sector fua n source s ≡ fault
  unfolding copy_to_nullb
  copy_to_straddles rounds sector n fua source s off spare some_left far =
      let more : (n == 0) ≡ false = ground arith in
      let past : leb (sector_bit sector * 512 + min s.disk.blocksize n) 4096 ≡ false =
        ground arith in
      rw (
        more,
        uncached_round junk space sector (min s.disk.blocksize n) fua source s off,
        insert_place junk sector s.disk spare,
        past,
      )

  -- Whatever is asked for, if the size of a block that `null_validate_conf` leaves does not divide a
  -- page, then writing one of the first three blocks writes past the end of a page, on a device
  -- without a cache, while the kernel has a page.
  pub validated_straddles :
      (h : Host) (conf : Device) (rounds : ℕ) (fua : Bool) (source : ℕ → ℕ) (s : Nullb)
      → s.disk.blocksize ≡ (null_validate_conf h conf).1.blocksize
      → s.disk.cache_active ≡ false
      → 0 < s.disk.spare
      → 4096 % s.disk.blocksize ≢ 0
      → (j : ℕ) × (j < 3)
        × (copy_to_nullb junk space
              (suc rounds)
              (j * (s.disk.blocksize / 512))
              fua
              s.disk.blocksize
              source
              s
            ≡ fault)
  validated_straddles h conf rounds fua source s same off spare uneven =
      let (sectors, least, most) = blocksize-validated h conf in
      elim (straddled s.disk.blocksize (omega (arith, sectors, same)) (omega (arith, least, same))
        (omega (arith, most, same))) [
          | inl divides ↦ absurd (uneven divides)
          | inr (j, lt, past) ↦ (
            j,
            lt,
            copy_to_straddles rounds (j * (s.disk.blocksize / 512)) s.disk.blocksize fua source s
                off spare (omega (arith, least, same)) (omega (arith, past)),
          )
        ]
