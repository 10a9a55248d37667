-- ===== src/Kernel/Ioctl/Safety.antt =====
-- capstone.c, `device_ioctl`: no sequence of calls breaks the table of regions.
use caplifive_buildroot.Base.{
  ◌≤◌, List, [], ◌∷◌, Returns, Returns-mono, Returns-chain, refl, arith, done, length-replicate,
  ◌≡◌, true, inl, inr, ltb, Bool-cases,
}
use caplifive_buildroot.Kernel.Sbi.{Platform}
use caplifive_buildroot.Kernel.Table.{
  Driver, init, QueryArgs, max_region_n, ioctl_create_region, ioctl_region_query, probe_regions,
  no_region,
}
use caplifive_buildroot.Kernel.Table.Layout.{IsValid}
use caplifive_buildroot.Kernel.Table.Fill.{probe_regions-Extends}
use caplifive_buildroot.Kernel.Table.Growth.{Firmware, IsSynced, Extends, world-IsValid}
use caplifive_buildroot.Kernel.Table.Create.{Grows, create_region-Grows}
use caplifive_buildroot.Kernel.Domain.World.{
  HasPages, create_dom-grows, call_dom-grows, revoke_region-grows, share_annotated-grows,
  share_region-grows, schedule_dom-grows,
}
use caplifive_buildroot.Base.Words.{sign_extend}
use caplifive_buildroot.Kernel.Domain.{ioctl_create_dom}
use caplifive_buildroot.Kernel.Ioctl.{Ioctl, device_ioctl}

-- A call that makes a domain with an S mode has memory for it.
abbrev pub Loadable : {W : Type 0} → Platform W → Ioctl → Type 0
Loadable p (Ioctl.create_dom a) = HasPages p a
Loadable p c = Unit {0}

abbrev pub AllLoadable : {W : Type 0} → Platform W → List Ioctl → Type 0
AllLoadable p [] = Unit {0}
AllLoadable p (c ∷ cs) = Loadable p c × AllLoadable p cs

module _ {W : Type 0} (p : Platform W) (f : Firmware p) where
  -- The state is sound: the table is valid, and known to the firmware.
  abbrev pub IsSound : Driver W → Type 0
  IsSound d = IsValid d × IsSynced f d

  -- What a call may do to the table: add entries, all known to the firmware.
  abbrev pub Kept : Driver W → Driver W → Type 0
  Kept d d' = Grows d d' × IsSynced f d'

  world-Kept :
      (d : Driver W) (w : W) → IsSound d → d.region_n ≤ f.count w → Kept d (record d { world = w })
  world-Kept d w s h =
      (record { valid = world-IsValid d w s.0; more = omega arith; kept = λ i lt. refl }, h)

  probe_regions-Kept : (d : Driver W) → IsSound d → Returns (Kept d) (probe_regions p d)
  probe_regions-Kept d s =
      Returns-mono
        (λ d'. Extends (f.base d.world) (f.size d.world) (f.count d.world) d d' × IsSynced f d')
        (Kept d)
        (λ d' x. (
          record { valid = x.0.valid; more = omega (arith, x.0.count, s.1); kept = x.0.kept },
          x.1,
        ))
        (probe_regions p d) (probe_regions-Extends p f d s.0 s.1)

  query-returns :
      (a : QueryArgs) (d : Driver W) → IsValid d → Returns (λ a'. Unit {0}) (ioctl_region_query a d)
  unfolding ioctl_region_query
  query-returns a d v = elim (Bool-cases (ltb a.region_id (sign_extend d.region_n))) [
    | inl known ↦
        let inside : ltb a.region_id max_region_n ≡ true = ground (arith, known, v.count) in
        rw (known, inside) tt
    | inr past ↦ rw past tt
  ]

  -- Every call of the device returns, keeps the entries in use as they are, and leaves a sound state.
  pub device_ioctl-Kept :
      (c : Ioctl) (d : Driver W)
      → Loadable p c
      → IsSound d
      → Returns (λ r. Kept d r.1) (device_ioctl p c d)
  unfolding device_ioctl
  device_ioctl-Kept (Ioctl.create_dom a) d l s =
      Returns-chain (λ r. d.region_n ≤ f.count r.1) (λ r. Kept d r.1) (ioctl_create_dom p a d.world)
        _ (create_dom-grows p f d.region_n a d.world l s.1) (λ r g. world-Kept d r.1 s g)
  device_ioctl-Kept (Ioctl.call_dom a) d l s =
      world-Kept d _ s (call_dom-grows p f d.region_n a d.world s.1)
  device_ioctl-Kept (Ioctl.create_region a) d l s =
      Returns-chain (λ r. Kept d r.1) (λ r. Kept d r.1) (ioctl_create_region p a d)
        (λ r. done (Ioctl.create_region r.0, r.1)) (create_region-Grows p f a d s.0 s.1) (λ r g. g)
  device_ioctl-Kept (Ioctl.share_region a) d l s =
      world-Kept d _ s (share_region-grows p f d.region_n a d.world s.1)
  device_ioctl-Kept (Ioctl.query_region a) d l s =
      Returns-chain (λ a'. Unit {0}) (λ r. Kept d r.1) (ioctl_region_query a d) _
        (query-returns a d s.0) (λ a' u. world-Kept d d.world s s.1)
  device_ioctl-Kept Ioctl.probe d l s =
      Returns-chain (Kept d) (λ r. Kept d r.1) (probe_regions p d) (λ d'. done (Ioctl.probe, d'))
        (probe_regions-Kept d s) (λ d' g. g)
  device_ioctl-Kept (Ioctl.schedule_dom a) d l s =
      world-Kept d _ s (schedule_dom-grows p f d.region_n a d.world s.1)
  device_ioctl-Kept (Ioctl.share_annotated a) d l s =
      world-Kept d _ s (share_annotated-grows p f d.region_n a d.world s.1)
  device_ioctl-Kept (Ioctl.revoke_region a) d l s =
      world-Kept d _ s (revoke_region-grows p f d.region_n a d.world s.1)
  device_ioctl-Kept (Ioctl.unrecognised n) d l s = world-Kept d d.world s s.1

  -- Every call of the device returns, and leaves a sound state sound.
  pub device_ioctl-IsSound :
      (c : Ioctl) (d : Driver W)
      → Loadable p c
      → IsSound d
      → Returns (λ r. IsSound r.1) (device_ioctl p c d)
  device_ioctl-IsSound c d l s =
      Returns-mono (λ r. Kept d r.1) (λ r. IsSound r.1) (λ r g. (g.0.valid, g.1))
        (device_ioctl p c d) (device_ioctl-Kept c d l s)

  pub init-IsSound : (w : W) → IsSound (init w)
  unfolding init
  init-IsSound w = (
    record {
      table = length-replicate 64 no_region;
      count = omega arith;
      small = omega arith;
      on_page = omega arith;
      ids = λ i lt. absurd (omega arith);
      pages = λ i lt. absurd (omega arith);
      below = λ i lt. absurd (omega arith);
      apart = λ i j lt k. absurd (omega arith);
    },
    omega arith,
  )
