-- ===== src/Frontend/Worker.antt =====
-- miniweb_frontend.c: one round of `workerThread`, with the domain behind it.

pub mod Bytes
pub mod Answers
pub mod Faults
use caplifive_buildroot.Base.{
  ℕ, zero, suc, ◌+◌, ◌-◌, ◌^◌, length, List, [], ◌∷◌, ◌++◌, Bool, true, false, ◌&&◌, Option, none,
  some, leb, ltb, ◌==◌, if◌then◌else◌, Run, done, fault, ◌>>=◌, min,
}
use caplifive_buildroot.Backend.Respond.{
  Memory, Name, name_eq, Shared, simple_memcpy, dom_call, html_fd_undefined, html_fd_404response,
  html_fd_200response, html_fd_cgi,
}

-- A file, as `read` gives it: how many bytes it reads, and which
pub record Content : Type 0 where
  pub size : ℕ
  pub bytes : ℕ → ℕ

-- What `open` finds: a file, or something that `read` fails on, such as a directory.
pub data Entry : Type 0 where
  readable : Content → Entry
  unreadable : Entry

-- (unsigned long)-1
abbrev pub minus_one : ℕ
minus_one = 2 ^ 64 - 1

-- The heap: the bytes behind a block of so many bytes, up to the first that is 0, and the bytes that
-- `malloc` gives for a block of so many.
pub record Heap : Type 0 where
  pub beyond : ℕ → List ℕ
  pub usable : ℕ → ℕ

-- The length of "/nested/capstone_split/www"
abbrev pub prefix_length : ℕ
prefix_length = 26

-- The string that starts with the given bytes
abbrev pub string_of : List ℕ → List ℕ
string_of [] = []
string_of (b ∷ bs) = if b == 0 then [] else b ∷ string_of bs

-- The server: the shared memory, the regions that the domain has, and whether the connection is open,
-- with what has been written to it.
pub record Server : Type 0 where
  pub memory : Memory
  pub shared : List Shared
  pub connected : Bool
  pub sent : List ℕ

-- `n` bytes from place `i` on
abbrev pub bytes_from : (ℕ → ℕ) → ℕ → ℕ → List ℕ
bytes_from f i zero = []
bytes_from f i (suc n) = f i ∷ bytes_from f (suc i) n

-- `shared_region_annotated(dom_id, …)` and `revoke_region`
abbrev pub share : Name → Server → Server
share n s = record s { shared = (record { name = n; live = true }) ∷ s.shared }

abbrev pub revoked : Name → List Shared → List Shared
revoked n [] = []
revoked n (r ∷ rs) = (if name_eq r.name n then record r { live = false } else r) ∷ revoked n rs

abbrev pub revoke : Name → Server → Server
revoke n s = record s { shared = revoked n s.shared }

-- `write(fd, response_region_base, socket_fd_region_len)` and `close(fd)`
abbrev pub respond : Server → Server
respond s = record s {
  sent = s.sent ++ bytes_from s.memory.response 0 s.memory.socket_len;
  connected = false;
}

-- `read(…, html_fd_region_base, 4096)` of a file, and its size in the metadata
abbrev pub read_page : Entry → Server → Server
read_page unreadable s = record s { memory = record s.memory { html_len = minus_one } }
read_page (readable c) s = record s {
  memory = record s.memory {
    html_bytes = simple_memcpy s.memory.html_bytes 0 c.bytes (min c.size 4096);
    html_len = min c.size 4096;
  };
}

-- A request that `read` has put into its region: at most 4096 bytes of it
abbrev pub received : Entry → Server → Server
received unreadable s = record s {
  memory = record s.memory { socket_len = minus_one; status = html_fd_undefined };
}
received (readable request) s = record s {
  memory = record s.memory {
    socket = simple_memcpy s.memory.socket 0 request.bytes (min request.size 4096);
    socket_len = min request.size 4096;
    status = html_fd_undefined;
  };
}

abbrev pub answer_cgi : Server → Server
answer_cgi s = respond (revoke Name.response (revoke Name.socket_fd s))

module _ (run_cgi : Bool → Memory → Memory) (junk : ℕ → ℕ) where
  abbrev pub call_dom : Server → Run Server
  call_dom s = dom_call run_cgi junk s.memory s.shared >>= λ r.
      done (record s { memory = r.0; shared = r.1 })

  -- From the revocation of the request's region to `close`: the same code for a page and for the
  -- 404 page
  abbrev pub answer_page : Entry → Server → Run Server
  answer_page c s = call_dom (share Name.html_fd (revoke Name.socket_fd (read_page c s))) >>= λ t.
      done (respond (revoke Name.response (revoke Name.html_fd t)))

  -- `html_fd_status == HTML_FD_404RESPONSE`, for a file with the error page that may be missing
  abbrev pub answer_404 : Option Entry → Server → Run Server
  answer_404 none s = done s
  answer_404 (some c) s = answer_page c s

  -- `html_fd_status == HTML_FD_200RESPONSE`, for the file of the path, that may be missing
  abbrev pub answer_200 : Option Entry → Option Entry → Server → Run Server
  answer_200 none error_page s =
      answer_404 error_page (record s { memory = record s.memory { status = html_fd_404response } })
  answer_200 (some c) error_page s = answer_page c s

  -- Behind the first call of the domain. A status that it does not know is left alone.
  -- The path of `html_fd_len` bytes is copied without a terminator, so the string goes on into the
  -- heap; it is appended to the prefix in a block that counts no terminator either.
  abbrev pub answered : Heap → (List ℕ → Option Entry) → Option Entry → Server → Run Server
  answered heap www error_page s =
      let n = length s.memory.path in
      let file_path = string_of (s.memory.path ++ heap.beyond n) in
      if s.memory.status == html_fd_200response
      then if leb (prefix_length + length file_path + 1) (heap.usable (prefix_length + n))
        then answer_200 (www file_path) error_page s
        else fault
      else if s.memory.status == html_fd_404response
      then answer_404 error_page s
      else if s.memory.status == html_fd_cgi
      then done (answer_cgi s)
      else done s

  -- One round of `workerThread`: `www` are the files below its prefix, by the path in the metadata.
  unfoldable pub worker_round :
      Heap → (List ℕ → Option Entry) → Option Entry → Entry → Server → Run Server
  worker_round heap www error_page request s =
      call_dom (share Name.response (share Name.socket_fd (received request s)))
      >>= answered heap www error_page
