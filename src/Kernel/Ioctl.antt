-- ===== src/Kernel/Ioctl.antt =====
-- capstone.c, `device_ioctl`: the calls of the device, one after the other.
pub mod Safety
use caplifive_buildroot.Base.{ℕ, List, [], ◌∷◌, Run, done, ◌>>=◌}
use caplifive_buildroot.Kernel.Sbi.{Platform}
use caplifive_buildroot.Kernel.Table.{
  Driver, CreateArgs, QueryArgs, ioctl_create_region, ioctl_region_query, probe_regions,
}
use caplifive_buildroot.Kernel.Domain.{
  DomCreateArgs, DomCallArgs, ShareArgs, ShareAnnotatedArgs, RevokeArgs, ioctl_create_dom,
  ioctl_call_dom, ioctl_revoke_region, ioctl_share_region_annotated, ioctl_share_region,
  ioctl_schedule_dom,
}

-- IOCTL_*, with the structure that the user passes. The kernel writes its result back into it.
pub data Ioctl : Type 0 where
  create_dom : DomCreateArgs → Ioctl
  call_dom : DomCallArgs → Ioctl
  create_region : CreateArgs → Ioctl
  share_region : ShareArgs → Ioctl
  query_region : QueryArgs → Ioctl
  probe : Ioctl
  schedule_dom : ℕ → Ioctl
  share_annotated : ShareAnnotatedArgs → Ioctl
  revoke_region : RevokeArgs → Ioctl
  unrecognised : ℕ → Ioctl

module _ {W : Type 0} (p : Platform W) where
  unfoldable pub device_ioctl : Ioctl → Driver W → Run (Ioctl × Driver W)
  device_ioctl (create_dom a) d =
      ioctl_create_dom p a d.world >>= λ r. done (create_dom r.0, record d { world = r.1 })
  device_ioctl (call_dom a) d =
      let (a', w) = ioctl_call_dom p a d.world in done (call_dom a', record d { world = w })
  device_ioctl (create_region a) d =
      ioctl_create_region p a d >>= λ r. done (create_region r.0, r.1)
  device_ioctl (share_region a) d =
      let (a', w) = ioctl_share_region p a d.world in done (share_region a', record d { world = w })
  device_ioctl (query_region a) d = ioctl_region_query a d >>= λ a'. done (query_region a', d)
  device_ioctl probe d = probe_regions p d >>= λ d'. done (probe, d')
  device_ioctl (schedule_dom a) d =
      done (schedule_dom a, record d { world = ioctl_schedule_dom p a d.world })
  device_ioctl (share_annotated a) d =
      let (a', w) = ioctl_share_region_annotated p a d.world in
      done (share_annotated a', record d { world = w })
  device_ioctl (revoke_region a) d =
      let (a', w) = ioctl_revoke_region p a d.world in
      done (revoke_region a', record d { world = w })
  device_ioctl (unrecognised n) d = done (unrecognised n, d)

  -- A sequence of calls, with what each leaves in the user's structure.
  pub run : List Ioctl → Driver W → Run (List Ioctl × Driver W)
  run [] d = done ([], d)
  run (c ∷ cs) d = device_ioctl c d >>= λ r. run cs r.1 >>= λ rs. done (r.0 ∷ rs.0, rs.1)
