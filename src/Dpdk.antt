-- ===== src/Dpdk.antt =====
-- package/capstone-dpdk-multip/dom/dpdk-multip_client_0.dom.c, dpdk-multip_client_1.dom.c: domains
-- that take packets from a server or make packets for it.
pub mod Protocol
mod Tests
use caplifive_buildroot.Base.{
  ℕ, zero, suc, ◌+◌, ◌-◌, ◌*◌, ◌%◌, ◌^◌, List, ltb, ◌==◌, if◌then◌else◌, Run, done, fault, starved,
  ◌>>=◌, set, get_or,
}
use caplifive_buildroot.Base.Words.{add64, sub64}
use caplifive_buildroot.Base.Memory.{Region, update, Memory, write}

-- `ACK`, `SERVER_SEND`, `SERVER_RECEIVE`, `PROD_NUMBER`, `MAX_REGION_N` and `REGION_POP_NUM`
abbrev pub ack : ℕ
ack = 0

abbrev pub server_send : ℕ
server_send = 1

abbrev pub server_receive : ℕ
server_receive = 2

abbrev pub prod_number : ℕ
prod_number = 40

abbrev pub max_region_n : ℕ
max_region_n = 4

abbrev pub region_pop_num : ℕ
region_pop_num = 1

-- The packet that client 0 makes, and the one that client 1 makes.
abbrev pub product_0 : ℕ → ℕ
product_0 i = i * i * i * i % 2 ^ 64

abbrev pub product_1 : ℕ → ℕ
product_1 i = (i + i + i + i) % 2 ^ 64

-- `regions`, `region_n`, and the memory behind the pointers
pub record Client : Type 0 where
  pub regions : List ℕ
  pub region_n : ℕ
  pub memory : Memory

-- The loop of SERVER_RECEIVE from `i` on, on a region of `words` words. A round writes to the region
-- as the memory has it, and past its end to nothing.
pub produce_loop : (ℕ → ℕ) → ℕ → ℕ → ℕ → ℕ → Memory → Run Memory
produce_loop product words zero i at m = starved
produce_loop product words (suc rounds) i at m =
    let rest =
      produce_loop product words rounds (i + 1) at (write m at (update (m at) i (product i))) in
    if ltb i prod_number then if ltb i words then rest else fault else done m

-- The loop of SERVER_SEND from `i` on: it reads the packets and drops them.
pub consume_loop : ℕ → ℕ → ℕ → ℕ → Memory → Run Memory
consume_loop words vars_nr zero i m = starved
consume_loop words vars_nr (suc rounds) i m =
    let rest = consume_loop words vars_nr rounds (i + 1) m in
    if ltb i vars_nr then if ltb i words then rest else fault else done m

-- A write of one word behind a pointer
abbrev pub store : Memory → ℕ → ℕ → ℕ → Memory
store m at i v = write m at (update (m at) i v)

-- `dpdk_client`. `words` are the words of each region; that of the metadata has two at least.
pub dpdk_client : (ℕ → ℕ) → (ℕ → ℕ) → List ℕ → Memory → Run Memory
dpdk_client product words regions m =
    let metadata = get_or regions 0 0 in
    let packets = get_or regions 1 0 in
    let received = produce_loop product (words packets) (prod_number + 1) 0 packets m >>= λ m'.
    done (store (store m' metadata 0 ack) metadata 1 prod_number) in
    let vars_nr = m metadata 1 in
    let sent = consume_loop (words packets) vars_nr (vars_nr + 1) 0 m >>= λ m'.
    done (store m' metadata 0 ack) in
    if m metadata 0 == server_send
    then sent
    else if m metadata 0 == server_receive
    then received
    else done m

pub dpi_call : (ℕ → ℕ) → (ℕ → ℕ) → Client → Run Client
dpi_call product words c = dpdk_client product words c.regions c.memory >>= λ m.
    done (record c { region_n = sub64 c.region_n region_pop_num; memory = m })

-- There is no check of `region_n`: a fifth region would be written past the array.
pub dpi_share_region : ℕ → Client → Run Client
dpi_share_region region c =
    if ltb c.region_n max_region_n
    then done
        (record c { regions = set c.regions c.region_n region; region_n = add64 c.region_n 1 })
    else fault

-- `handle_dpi`, on `CAPSTONE_DPI_CALL` (0) and `CAPSTONE_DPI_REGION_SHARE` (1). On any other number
-- the entry prints and spins for ever.
pub client_entry : (ℕ → ℕ) → (ℕ → ℕ) → ℕ → ℕ → Client → Run Client
client_entry product words func arg c =
    if func == 0
    then dpi_call product words c
    else if func == 1
    then dpi_share_region arg c
    else starved

-- The server shares the region of the packets, and calls.
abbrev pub exchange : (ℕ → ℕ) → (ℕ → ℕ) → ℕ → Client → Run Client
exchange product words packets c =
    client_entry product words 1 packets c >>= λ c'. client_entry product words 0 0 c'
