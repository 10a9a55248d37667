-- ===== src/Kernel/Table/Fill.antt =====
-- capstone.c, `probe_regions` and `ioctl_create_region`: what they leave in the table.
use native.Mathlib.Decide.{dec_lt}
use caplifive_buildroot.Base.{
  ℕ, zero, suc, ◌+◌, ◌%◌, ◌^◌, ◌≤◌, ◌<◌, ◌≡◌, refl, ◌∙◌, done, fault, ◌>>=◌, Returns, Returns-mono,
  arith,
}
use caplifive_buildroot.Kernel.Sbi.{
  Platform, Sbi, region_count, region_query, field_base, field_len,
}
use caplifive_buildroot.Kernel.Table.{
  Driver, appended, append_region, max_region_n, probe_round, probe_loop, probe_regions,
}
use caplifive_buildroot.Kernel.Table.Layout.{
  IsValid, appended-IsValid, entry-appended_old, entry-appended_last, count-appended,
}
use caplifive_buildroot.Kernel.Table.Growth.{
  Firmware, IsSynced, Extends, world-IsValid, Extends-trans, Extends-refl,
}

module _ {W : Type 0} (p : Platform W) where
  pub asked : Driver W → Driver W
  asked d =
      let (base, w) = p.sbi (region_query d.region_n field_base) d.world in
      let (size, w') = p.sbi (region_query d.region_n field_len) w in
      appended d.region_n base size (record d { world = w' })

  pub probe_round_room : (d : Driver W) → d.region_n < 64 → probe_round p d ≡ done (asked d)
  unfolding probe_round append_region asked
  probe_round_room d h = ground arith

  pub probe_round_full : (d : Driver W) → 64 ≤ d.region_n → probe_round p d ≡ fault
  unfolding probe_round append_region
  probe_round_full d h = ground arith

  pub probe_loop_more :
      (rounds new : ℕ) (d : Driver W)
      → d.region_n < new
      → new < 2 ^ 31
      → probe_loop p (suc rounds) new d ≡ (probe_round p d >>= probe_loop p rounds new)
  unfolding probe_loop
  probe_loop_more rounds new d h k = ground arith

  probe_loop_end :
      (rounds new : ℕ) (d : Driver W)
      → d.region_n ≡ new
      → new < 2 ^ 31
      → probe_loop p (suc rounds) new d ≡ done d
  unfolding probe_loop
  probe_loop_end rounds new d h k = ground arith

  pub asked-IsValid : (d : Driver W) → IsValid d → d.region_n < 64 → IsValid (asked d)
  unfolding asked
  asked-IsValid d v h = appended-IsValid d.region_n _ _ _ (world-IsValid d _ v) h refl

  pub asked-count :
      (d : Driver W) → IsValid d → d.region_n < 64 → (asked d).region_n ≡ d.region_n + 1
  unfolding asked
  asked-count d v h = omega arith

  -- The firmware has more than `new` regions, and describes those by `base` and `size`.
  record Tells (f : Firmware p) (base size : ℕ → ℕ) (new : ℕ) (w : W) : Type 0 where
    count : new ≤ f.count w
    bases : (i : ℕ) → i < new → f.base w i ≡ base i
    sizes : (i : ℕ) → i < new → f.size w i ≡ size i

  module _ (f : Firmware p) (base size : ℕ → ℕ) (new : ℕ) where
    -- A call of the firmware changes nothing of that.
    Tells-sbi : (c : Sbi) (w : W) → Tells f base size new w → Tells f base size new (p.sbi c w).1
    Tells-sbi c w t = record {
      count = omega (arith, t.count, f.grows c w);
      bases = λ i lt. f.base_kept c w i (omega (arith, t.count)) ∙ t.bases i lt;
      sizes = λ i lt. f.size_kept c w i (omega (arith, t.count)) ∙ t.sizes i lt;
    }

    asked-Tells :
        (d : Driver W) → Tells f base size new d.world → Tells f base size new (asked d).world
    unfolding asked
    asked-Tells d t =
        Tells-sbi (region_query d.region_n field_len) _
          (Tells-sbi (region_query d.region_n field_base) d.world t)

    asked-Extends :
        (d : Driver W)
        → IsValid d
        → d.region_n < 64
        → d.region_n < new
        → Tells f base size new d.world
        → Extends base size (d.region_n + 1) d (asked d)
    unfolding asked
    asked-Extends d v h lt t = record {
      valid = appended-IsValid d.region_n b s d' v' h refl;
      count = count-appended d.region_n b s d' v' h;
      kept = entry-appended_old d.region_n b s d' v' h;
      learnt = λ i lo hi.
          let e : i ≡ d.region_n = omega arith in
          rw (e, entry-appended_last d.region_n b s d' v' h)
            (
              f.base_of d.region_n d.world ∙ t.bases d.region_n lt,
              f.size_of d.region_n _ ∙ t1.sizes d.region_n lt,
            );
    }
      where
        b : ℕ
        b = (p.sbi (region_query d.region_n field_base) d.world).0

        w1 : W
        w1 = (p.sbi (region_query d.region_n field_base) d.world).1

        t1 : Tells f base size new w1
        t1 = Tells-sbi (region_query d.region_n field_base) d.world t

        s : ℕ
        s = (p.sbi (region_query d.region_n field_len) w1).0

        d' : Driver W
        d' = record d { world = (p.sbi (region_query d.region_n field_len) w1).1 }

        v' : IsValid d'
        v' = world-IsValid d _ v

    -- What the loop leaves, and the world's count beside it.
    abbrev Filled : Driver W → Driver W → Type 0
    Filled d d' = Extends base size new d d' × (new ≤ f.count d'.world)

    probe_loop-Extends :
        (rounds : ℕ) (d : Driver W)
        → IsValid d
        → d.region_n ≤ new
        → new ≤ 64
        → new < rounds + d.region_n
        → Tells f base size new d.world
        → Returns (Filled d) (probe_loop p rounds new d)
    probe_loop-Extends zero d v h k r t = absurd (omega arith)
    probe_loop-Extends (suc rounds) d v h k r t = elim (dec_lt d.region_n new) [
      | yes lt ↦
          let first = asked-Extends d v (omega arith) lt t in
          rw (probe_loop_more rounds new d lt (omega arith), probe_round_room d (omega arith))
            (Returns-mono (Filled (asked d)) (Filled d)
              (λ c e. (
                Extends-trans base size (d.region_n + 1) new d (asked d) c first e.0 (omega arith),
                e.1,
              ))
              (probe_loop p rounds new (asked d))
              (probe_loop-Extends rounds (asked d) first.valid (omega (arith, first.count)) k
                (omega (arith, first.count)) (asked-Tells d t)))
      | no ge ↦
          rw (probe_loop_end rounds new d (omega arith) (omega arith))
            (Extends-refl base size new d v (omega arith), t.count)
    ]

  -- Afterwards the firmware's regions are in use: those known before are as they were, the others
  -- are as the firmware describes them, and the table is valid.
  pub probe_regions-Extends :
      (f : Firmware p) (d : Driver W)
      → IsValid d
      → IsSynced f d
      → Returns
          (λ d'. Extends (f.base d.world) (f.size d.world) (f.count d.world) d d' × IsSynced f d')
          (probe_regions p d)
  unfolding probe_regions
  probe_regions-Extends f d v s =
      let n = f.count d.world in
      let base = f.base d.world in
      let size = f.size d.world in
      let w = (p.sbi region_count d.world).1 in
      let e : n % 2 ^ 32 ≡ n = omega (arith, f.capped d.world) in
      let told : Tells f base size n d.world = record {
        count = omega arith;
        bases = λ i lt. refl;
        sizes = λ i lt. refl;
      } in
      rw (f.told d.world, e)
        (Returns-mono (Filled f base size n (record d { world = w }))
          (λ d'. Extends base size n d d' × IsSynced f d')
          (λ c x. (
            record { valid = x.0.valid; count = x.0.count; kept = x.0.kept; learnt = x.0.learnt },
            omega (arith, x.0.count, x.1),
          ))
          (probe_loop p (max_region_n + 1) n (record d { world = w }))
          (probe_loop-Extends f base size n (max_region_n + 1) (record d { world = w })
            (world-IsValid d w v) s (f.capped d.world) (omega arith)
            (Tells-sbi f base size n region_count d.world told)))
