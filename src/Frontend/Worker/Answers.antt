-- ===== src/Frontend/Worker/Answers.antt =====
-- miniweb_frontend.c with miniweb_backend.smode.c behind it: what a connection is sent.
use caplifive_buildroot.Base.{
  ℕ, ◌+◌, ◌≤◌, ◌<◌, ◌≡◌, Bool-cases, ◌==◌, refl, ap, inl, inr, List, [], ◌∷◌, ◌++◌, Bool, true,
  false, Option, none, some, leb, Run, done, ◌>>=◌, arith, min, length,
}
use caplifive_buildroot.Backend.{Route, cgi, not_found, html}
use caplifive_buildroot.Backend.Respond.{
  Memory, Name, Shared, routed, response_head, html_fd_200response, html_fd_cgi,
}
use caplifive_buildroot.Backend.Respond.Text.{decimal}
use caplifive_buildroot.Frontend.Worker.{
  Content, Entry, readable, unreadable, Heap, prefix_length, string_of, Server, bytes_from, share,
  revoke, read_page, answered,
}

-- The regions that the domain has between two requests
abbrev pub idle_regions : List Shared
idle_regions =
    record { name = Name.cgi_fail; live = true }
    ∷ record { name = Name.cgi_success; live = true }
    ∷ record { name = Name.metadata; live = true }
    ∷ []

-- The server as the worker takes a connection
abbrev pub ready : Memory → List ℕ → Server
ready m sent = record { memory = m; shared = idle_regions; connected = true; sent = sent }

-- The connection is closed, and the domain has the regions that it had.
pub record Closed (t : Server) : Type 0 where
  pub closed : t.connected ≡ false
  pub balanced : t.shared ≡ idle_regions

-- The connection has been sent a page of the file.
abbrev pub SentPage : Content → List ℕ → Server → Type 0
SentPage c sent t =
    (num_char : List ℕ) × (decimal num_char ≡ c.size)
    × (t.sent ≡ sent ++ (response_head num_char ++ bytes_from c.bytes 0 c.size))

-- It has been sent the file of the error page, or the first 4096 bytes of it.
abbrev pub SentError : Content → List ℕ → Server → Type 0
SentError c sent t = t.sent ≡ sent ++ bytes_from c.bytes 0 (min c.size 4096)

module _ (run_cgi : Bool → Memory → Memory) (junk : ℕ → ℕ) where
  -- The server after the first call of the domain: the regions of the request and of the response
  -- are shared.
  abbrev pub taken : Memory → List ℕ → Server
  taken m sent = share Name.response (share Name.socket_fd (ready m sent))

  -- The server when the page has been read, and its region shared
  abbrev pub paged : Content → Memory → List ℕ → Server
  paged c m sent = share Name.html_fd (
      revoke Name.socket_fd
        (read_page (readable c) (taken (record m { status = html_fd_200response }) sent)))

abbrev pub SentFile : Content → List ℕ → Option Entry → Server → Type 0
SentFile error_page sent none t = SentError error_page sent t
SentFile error_page sent (some unreadable) t = ⊥
SentFile error_page sent (some (readable c)) t = SentPage c sent t

-- What the connection is sent for a request, by what the domain makes of it: what the CGI domain
-- puts, the file of the path, or the error page.
abbrev pub Sent :
    (Bool → Memory → Memory)
    → (List ℕ → Option Entry)
    → Content
    → Memory
    → List ℕ
    → Route
    → Server
    → Type 0
Sent run_cgi www error_page m sent (cgi b) t =
    let after = run_cgi b (record m { status = html_fd_cgi }) in
    t.sent ≡ sent ++ bytes_from after.response 0 after.socket_len
Sent run_cgi www error_page m sent not_found t = SentError error_page sent t
Sent run_cgi www error_page m sent (html path) t = SentFile error_page sent (www (string_of path)) t

-- A file that can be read, and that the domain has room for behind the head
abbrev pub Fits : Entry → Type 0
Fits unreadable = ⊥
Fits (readable c) = c.size ≤ 4000

-- A heap with a zero behind every block, and room for a byte more than was asked for
pub record IsRoomy (heap : Heap) : Type 0 where
  pub zeroed : (n : ℕ) → heap.beyond n ≡ []
  pub spare : (n : ℕ) → n < heap.usable n

pub append-nil : (xs : List ℕ) → xs ++ [] ≡ xs
append-nil [] = refl
append-nil (x ∷ xs) = ap (λ ys. x ∷ ys) (append-nil xs)

length-string_of : (xs : List ℕ) → length (string_of xs) ≤ length xs
length-string_of [] = omega arith
length-string_of (x ∷ xs) = elim (Bool-cases (x == 0)) [
  | inl zero ↦ rw zero (omega arith)
  | inr other ↦ rw other (omega (arith, length-string_of xs))
]

-- On such a heap the string is copied into its block.
pub path_fits :
    (heap : Heap) (path : List ℕ)
    → IsRoomy heap
    → leb (prefix_length + length (string_of path) + 1) (heap.usable (prefix_length + length path))
      ≡ true
path_fits heap path h =
    let n = length-string_of path in
    let m = h.spare (prefix_length + length path) in ground (arith, n, m)

module _ (run_cgi : Bool → Memory → Memory) (junk : ℕ → ℕ) (heap : Heap) (roomy : IsRoomy heap)
    (www : List ℕ → Option Entry) (error_page : Content)
    (keeps : (b : Bool) (m : Memory) → (run_cgi b m).status ≡ m.status)
    (small : (path : List ℕ) (c : Entry) → www path ≡ some c → Fits c) where
  abbrev after_call : Route → Memory → List ℕ → Run Server
  after_call r m sent =
      (routed run_cgi junk r m (taken run_cgi junk m sent).shared >>= λ q.
      done (record (taken run_cgi junk m sent) { memory = q.0; shared = q.1 }))
      >>= answered run_cgi junk heap www (some (readable error_page))
