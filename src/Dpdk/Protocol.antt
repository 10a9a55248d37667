-- ===== src/Dpdk/Protocol.antt =====
-- dpdk-multip_client_0.dom.c, dpdk-multip_client_1.dom.c: what an exchange with the server does.
use caplifive_buildroot.Base.{ℕ, ◌≤◌, ◌<◌, ◌≡◌, ◌≢◌, ◌⊎◌, length, get_or}
use caplifive_buildroot.Base.Memory.{Memory}
use caplifive_buildroot.Dpdk.{ack, server_send, server_receive, prod_number, max_region_n, Client}

-- Between exchanges: the metadata's region is the only one shared.
pub record Ready (metadata : ℕ) (c : Client) : Type 0 where
  pub slots : length c.regions ≡ max_region_n
  pub one_shared : c.region_n ≡ 1
  pub first : get_or c.regions 0 0 ≡ metadata

-- The memory after the loop has run from `i` on.
pub record Produced (product : ℕ → ℕ) (i at : ℕ) (m m' : Memory) : Type 0 where
  pub made : (k : ℕ) → i ≤ k → k < prod_number → m' at k ≡ product k
  pub before : (k : ℕ) → (k < i) ⊎ (prod_number ≤ k) → m' at k ≡ m at k
  pub others : (q : ℕ) → q ≢ at → m' q ≡ m q

-- What an exchange leaves in memory, for each operation that the metadata may ask for.
pub record Exchanged (product : ℕ → ℕ) (metadata packets : ℕ) (m m' : Memory) : Type 0 where
  pub send :
      m metadata 0 ≡ server_send
      → (m' metadata 0 ≡ ack)
        × ((i : ℕ) → i ≢ 0 → m' metadata i ≡ m metadata i)
        × ((q : ℕ) → q ≢ metadata → m' q ≡ m q)
  pub receive :
      m metadata 0 ≡ server_receive
      → (m' metadata 0 ≡ ack)
        × (m' metadata 1 ≡ prod_number)
        × ((k : ℕ) → k < prod_number → m' packets k ≡ product k)
        × ((q : ℕ) → q ≢ metadata → q ≢ packets → m' q ≡ m q)
  pub neither : m metadata 0 ≢ server_send → m metadata 0 ≢ server_receive → m' ≡ m
