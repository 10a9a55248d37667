-- ===== src/Dpdk/Tests.antt =====
-- dpdk-multip_client_0.dom.c: an exchange in which the server asks for packets.
use caplifive_buildroot.Base.{[], ◌∷◌, ◌==◌, if◌then◌else◌}
use caplifive_buildroot.Dpdk.{Client, server_receive}

-- The metadata is region 3, the packets' region is 8.
abbrev example_client : Client
example_client = record {
  regions = 3 ∷ 0 ∷ 0 ∷ 0 ∷ [];
  region_n = 1;
  memory = λ q i. if q == 3 then (if i == 0 then server_receive else 7) else 0;
}
