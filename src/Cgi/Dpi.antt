-- ===== src/Cgi/Dpi.antt =====
-- cgi_register_success.dom.c, cgi_register_fail.dom.c: the entry of the domain. The monitor shares
-- regions with it and calls it; a call takes back the regions behind the first.
use caplifive_buildroot.Base.Memory.{Memory}
use caplifive_buildroot.Base.{
  ℕ, suc, ◌+◌, ◌*◌, ◌≤◌, ◌<◌, ◌≡◌, refl, ◌∙◌, ◌≢◌, List, [], ◌∷◌, ◌++◌, Run, done, fault, starved,
  ◌>>=◌, Returns, Returns-chain, arith, ltb, ◌==◌, if◌then◌else◌, true, length, set, get_or,
  length-set, get_or-set_self, get_or-set_ne,
}
use caplifive_buildroot.Base.Words.{add64, sub64}
use caplifive_buildroot.Cgi.Parse.{max_name}
use caplifive_buildroot.Cgi.Parse.Feed.{At, Avoids}
use caplifive_buildroot.Cgi.Register.{Page, success_page, register}
use caplifive_buildroot.Cgi.Register.Response.{Answered, content, register-success}

-- `MAX_REGION_N` and `CGI_REGION_POP_NUM`
abbrev pub max_region_n : ℕ
max_region_n = 4

abbrev pub cgi_region_pop_num : ℕ
cgi_region_pop_num = 2

-- `regions`, `region_n`, and the memory behind the pointers. `response_size` and the two offsets
-- are set anew by every call.
pub record Domain : Type 0 where
  pub regions : List ℕ
  pub region_n : ℕ
  pub memory : Memory

abbrev pub dpi_call : Page → ℕ → Domain → Run Domain
dpi_call p words d = register p words d.regions d.memory >>= λ m.
    done (record d { region_n = sub64 d.region_n cgi_region_pop_num; memory = m })

-- There is no check of `region_n`: a fifth region would be written past the array.
pub dpi_share_region : ℕ → Domain → Run Domain
dpi_share_region region d =
    if ltb d.region_n max_region_n
    then done
        (record d { regions = set d.regions d.region_n region; region_n = add64 d.region_n 1 })
    else fault

-- `handle_dpi`, on `CAPSTONE_DPI_CALL` (0) and `CAPSTONE_DPI_REGION_SHARE` (1). On any other number
-- the entry prints and spins for ever.
pub cgi_entry : Page → ℕ → ℕ → ℕ → Domain → Run Domain
cgi_entry p words func arg d =
    if func == 0 then dpi_call p words d else if func == 1 then dpi_share_region arg d else starved

-- A request as miniweb_backend.smode.c makes it: the socket's region and the response's are shared,
-- then comes the call.
abbrev pub serve : Page → ℕ → ℕ → ℕ → Domain → Run Domain
serve p words socket response d = cgi_entry p words 1 socket d >>= λ a.
    cgi_entry p words 1 response a >>= λ b. cgi_entry p words 0 0 b

-- Between requests: the metadata's region is the only one shared.
pub record Ready (metadata : ℕ) (d : Domain) : Type 0 where
  pub slots : length d.regions ≡ max_region_n
  pub one_shared : d.region_n ≡ 1
  pub first : get_or d.regions 0 0 ≡ metadata

share-adds :
    (region : ℕ) (d : Domain)
    → d.region_n < max_region_n
    → dpi_share_region region d
      ≡ done (record d { regions = set d.regions d.region_n region; region_n = d.region_n + 1 })
unfolding dpi_share_region
share-adds region d h =
    let e : ltb d.region_n max_region_n ≡ true = ground arith in
    let f : add64 d.region_n 1 ≡ d.region_n + 1 = omega arith in rw (e, f)

-- The regions at the time of the call.
abbrev pub shared : List ℕ → ℕ → ℕ → List ℕ
shared regions socket response = set (set regions 1 socket) 2 response

serve-calls :
    (p : Page) (words metadata socket response : ℕ) (d : Domain)
    → Ready metadata d
    → serve p words socket response d ≡ (
        register p words (shared d.regions socket response) d.memory >>= λ m.
        done (record { regions = shared d.regions socket response; region_n = 1; memory = m }))
unfolding cgi_entry
serve-calls p words metadata socket response d r =
    let n : d.region_n ≡ 1 = r.one_shared in
    rw (
      share-adds socket d (omega (arith, n)),
      n,
      share-adds response (record d { regions = set d.regions 1 socket; region_n = 2 })
          (omega arith),
    )

module _ (regions : List ℕ) (socket response : ℕ) (slots : length regions ≡ max_region_n) where
  shared_0 : get_or (shared regions socket response) 0 0 ≡ get_or regions 0 0
  shared_0 =
      get_or-set_ne (set regions 1 socket) 2 0 response 0 (λ e. absurd (omega (arith, e)))
      ∙ get_or-set_ne regions 1 0 socket 0 (λ e. absurd (omega (arith, e)))

  shared_1 : get_or (shared regions socket response) 1 0 ≡ socket
  shared_1 =
      get_or-set_ne (set regions 1 socket) 2 1 response 0 (λ e. absurd (omega (arith, e)))
      ∙ get_or-set_self regions 1 socket 0 (omega (arith, slots))

  shared_2 : get_or (shared regions socket response) 2 0 ≡ response
  shared_2 =
      get_or-set_self (set regions 1 socket) 2 response 0
        (omega (arith, slots, length-set regions 1 socket))

  shared_slots : length (shared regions socket response) ≡ max_region_n
  shared_slots = length-set (set regions 1 socket) 2 response ∙ length-set regions 1 socket ∙ slots

-- A request is served to the end, and the domain is then ready for the next one: with only the
-- metadata shared, in another region than the response's, and a request with a name of at most 16
-- bytes in the socket's region, sharing the two regions and calling leaves the right response in
-- the response's region and its size in the metadata, changes no other memory, and gives the two
-- regions back.
pub serve-Ready :
    (metadata socket response : ℕ) (d : Domain) (pre name rest : List ℕ) (words : ℕ)
    → Ready metadata d
    → metadata ≢ response
    → At (d.memory socket) 0 (pre ++ b'=' ∷ (name ++ b'&' ∷ rest))
    → Avoids b'=' pre
    → Avoids b'&' name
    → length name ≤ max_name
    → length pre + length name + 2 ≤ 8 * words
    → Returns
        (λ d'.
          Ready metadata d'
          × Answered success_page
              (metadata ∷ socket ∷ response ∷ [])
              name
              (length (content success_page name))
              d.memory
              d'.memory)
        (serve success_page (suc words) socket response d)
serve-Ready metadata socket response d pre name rest words r apart at before inside fits enough =
    let regions = shared d.regions socket response in
    let e0 : get_or regions 0 0 ≡ metadata = shared_0 d.regions socket response r.slots ∙ r.first in
    let e1 : get_or regions 1 0 ≡ socket = shared_1 d.regions socket response r.slots in
    let e2 : get_or regions 2 0 ≡ response = shared_2 d.regions socket response r.slots in
    let answered =
      register-success regions d.memory pre name rest words (rw (e0, e2) apart) (rw e1 at) before
        inside fits enough in
    rw (serve-calls success_page (suc words) metadata socket response d r) (
      Returns-chain _ _ (register success_page (suc words) regions d.memory) _ answered (λ m a. (
        record {
          slots = shared_slots d.regions socket response r.slots;
          one_shared = refl;
          first = e0;
        },
        record {
          digits = a.digits;
          reads = a.reads;
          spells = rw (← e2) a.spells;
          size = rw (← e0) a.size;
          metadata = λ i ne. rw (← e0) (a.metadata i ne);
          others = λ q ne0 ne2. a.others q (rw e0 ne0) (rw e2 ne2);
        },
      )))
