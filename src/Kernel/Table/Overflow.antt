-- ===== src/Kernel/Table/Overflow.antt =====
-- capstone.c, `probe_regions`: a firmware with more regions than the table has entries.
use native.Mathlib.Decide.{dec_lt}
use caplifive_buildroot.Base.{ℕ, zero, suc, ◌+◌, ◌%◌, ◌^◌, ◌<◌, ◌≡◌, fault, arith}
use caplifive_buildroot.Kernel.Sbi.{Platform, region_count}
use caplifive_buildroot.Kernel.Table.{Driver, max_region_n, probe_loop, probe_regions}
use caplifive_buildroot.Kernel.Table.Layout.{IsValid}
use caplifive_buildroot.Kernel.Table.Fill.{
  probe_loop_more, probe_round_room, probe_round_full, asked, asked-IsValid, asked-count,
}
use caplifive_buildroot.Kernel.Table.Growth.{world-IsValid}

module _ {W : Type 0} (p : Platform W) where
  probe_loop-fault :
      (rounds new : ℕ) (d : Driver W)
      → IsValid d
      → 64 < new
      → new < 2 ^ 31
      → 64 < rounds + d.region_n
      → probe_loop p rounds new d ≡ fault
  probe_loop-fault zero new d v h k f = absurd (omega (arith, v.count))
  probe_loop-fault (suc rounds) new d v h k f = elim (dec_lt d.region_n 64) [
    | yes lt ↦
        rw (probe_loop_more p rounds new d (omega arith) k, probe_round_room p d lt)
          (probe_loop-fault rounds new (asked p d) (asked-IsValid p d v lt) h k
            (omega (arith, asked-count p d v lt)))
    | no ge ↦ rw (
      probe_loop_more p rounds new d (omega (arith, v.count)) k,
      probe_round_full p d (omega arith),
    )
  ]

  -- A count above the size of the table (and an int) makes `probe_regions` write past its end.
  pub probe_regions_overflow :
      (d : Driver W)
      → IsValid d
      → max_region_n < (p.sbi region_count d.world).0
      → (p.sbi region_count d.world).0 < 2 ^ 31
      → probe_regions p d ≡ fault
  unfolding probe_regions
  probe_regions_overflow d v lo hi =
      let n = (p.sbi region_count d.world).0 in
      let w = (p.sbi region_count d.world).1 in
      let e : n % 2 ^ 32 ≡ n = omega arith in
      rw e (
        probe_loop-fault (max_region_n + 1) n (record d { world = w }) (world-IsValid d w v) lo hi
          (omega arith))
