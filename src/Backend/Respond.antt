-- ===== src/Backend/Respond.antt =====
-- miniweb_backend.smode.c: the loop of the domain over its calls: it reads the request, or it answers
-- with the file that the server has read.

pub mod Text
use Prim.Native.String.{String}
use caplifive_buildroot.Base.{
  ℕ, zero, suc, ◌+◌, ◌-◌, ◌*◌, ◌/◌, ◌%◌, ◌^◌, List, [], ◌∷◌, ◌++◌, Bool, true, false, ◌&&◌, Option,
  none, some, leb, ltb, ◌==◌, if◌then◌else◌, Run, done, fault, starved, ◌>>=◌, length, drop, get_or,
}
use caplifive_buildroot.Base.Words.{add64, sub64}
use caplifive_buildroot.Cgi.Register.{codes}
use caplifive_buildroot.Backend.{Route, cgi, not_found, html, request_reprocessing}
use caplifive_buildroot.User.Elf.{first_code}
use caplifive_buildroot.User.File.{Segment}

-- HTML_FD_*
abbrev pub html_fd_undefined : ℕ
html_fd_undefined = 0

abbrev pub html_fd_404response : ℕ
html_fd_404response = 1

abbrev pub html_fd_200response : ℕ
html_fd_200response = 2

abbrev pub html_fd_cgi : ℕ
html_fd_cgi = 3

-- The memory that the server and the domain share: the fields of the metadata, and the bytes of
-- three regions.
pub record Memory : Type 0 where
  pub status : ℕ
  pub html_len : ℕ
  pub socket_len : ℕ
  pub path : List ℕ
  pub socket : ℕ → ℕ
  pub html_bytes : ℕ → ℕ
  pub response : ℕ → ℕ

-- The regions, and those that the domain has, the last one shared first. A region that has been
-- revoked is still there, until it is popped.
pub data Name : Type 0 where
  metadata cgi_success cgi_fail socket_fd response html_fd : Name

abbrev pub name_eq : Name → Name → Bool
name_eq Name.metadata Name.metadata = true
name_eq Name.cgi_success Name.cgi_success = true
name_eq Name.cgi_fail Name.cgi_fail = true
name_eq Name.socket_fd Name.socket_fd = true
name_eq Name.response Name.response = true
name_eq Name.html_fd Name.html_fd = true
name_eq a b = false

pub record Shared : Type 0 where
  pub name : Name
  pub live : Bool

abbrev pub has : Name → List Shared → Bool
has n [] = false
has n (s ∷ ss) = if name_eq s.name n && s.live then true else has n ss

-- A byte of a region that is not, or no longer, the domain's cannot be read or written.
abbrev pub needs {ℓ} : {A : Type ℓ} → Name → List Shared → Run A → Run A
needs n ss m = if has n ss then m else fault

-- `region_n - 1`, the last region that was shared, has to be the one of the page.
abbrev pub needs_last {ℓ} : {A : Type ℓ} → List Shared → Run A → Run A
needs_last [] m = fault
needs_last (s ∷ ss) m = if name_eq s.name Name.html_fd && s.live then m else fault

-- `simple_memcpy(dest + at, src, n)`
abbrev pub simple_memcpy : (ℕ → ℕ) → ℕ → (ℕ → ℕ) → ℕ → ℕ → ℕ
simple_memcpy dest at src n j = if leb at j && ltb j (at + n) then src (j - at) else dest j

-- The size of a region
abbrev pub region_size : ℕ
region_size = 4096

-- `ulong_to_str`: the digits, the last one first, in an array of 21, and then in their order.
pub digits_of : ℕ → ℕ → List ℕ → Run (List ℕ)
digits_of zero num temp = starved
digits_of (suc rounds) num temp =
    let rest = digits_of rounds (num / 10) (temp ++ (b'0' + num % 10) ∷ []) in
    if num == 0 then done temp else if ltb (length temp) 21 then rest else fault

abbrev pub backwards : List ℕ → List ℕ
backwards [] = []
backwards (c ∷ cs) = backwards cs ++ c ∷ []

pub ulong_to_str : ℕ → Run (List ℕ)
ulong_to_str num =
    digits_of 22 num [] >>= λ temp. done (if num == 0 then b'0' ∷ [] else backwards temp)

-- `strcat_four_strings`: the text, which ends in two newlines, and its length
abbrev pub strcat_four_strings : List ℕ → List ℕ → List ℕ → List ℕ → List ℕ
strcat_four_strings str1 str2 str3 str4 = str1 ++ (str2 ++ (str3 ++ (str4 ++ b'\n' ∷ b'\n' ∷ [])))

abbrev pub response_head : List ℕ → List ℕ
response_head num_char =
    strcat_four_strings (codes "HTTP/1.1 200 OK\n")
      (codes "Connection: close\nContent-Type: text/html\n") (codes "Content-Length: ") num_char

abbrev pub from_list : List ℕ → ℕ → ℕ
from_list l i = get_or l i 0

-- `request_handle_404`. What does not fit into the region of the response is written past it.
unfoldable pub request_handle_404 : Memory → List Shared → Run (Memory × List Shared)
request_handle_404 m ss = needs_last ss (
    needs Name.response ss (
      if leb m.html_len region_size
      then done (
        record m {
          socket_len = m.html_len;
          response = simple_memcpy m.response 0 m.html_bytes m.html_len;
        },
        drop 3 ss,
      )
      else fault))

-- `request_handle_200`, once the head is in `buffer`
abbrev pub with_head : Memory → List Shared → List ℕ → Run (Memory × List Shared)
with_head m ss buffer = needs_last ss (
    needs Name.response ss (
      if leb (length buffer + m.html_len) region_size
      then done (
        record m {
          socket_len = add64 (length buffer) m.html_len;
          response =
              simple_memcpy (simple_memcpy m.response 0 (from_list buffer) (length buffer))
                (length buffer) m.html_bytes m.html_len;
        },
        drop 3 ss,
      )
      else fault))

unfoldable pub request_handle_200 : Memory → List Shared → Run (Memory × List Shared)
request_handle_200 m ss =
    ulong_to_str m.html_len >>= λ num_char. with_head m ss (response_head num_char)

module _ (run_cgi : Bool → Memory → Memory) (junk : ℕ → ℕ) where
  -- `request_handle_cgi`: the CGI domain gets the two regions, is called, and gives them back.
  abbrev pub request_handle_cgi : Bool → Memory → List Shared → Run (Memory × List Shared)
  request_handle_cgi register_success m ss =
      needs Name.response ss
        (done (run_cgi register_success (record m { status = html_fd_cgi }), drop 2 ss))

  -- The rest of `request_reprocessing`, once the request has been read
  unfoldable pub routed : Route → Memory → List Shared → Run (Memory × List Shared)
  routed (cgi register_success) m ss = request_handle_cgi register_success m ss
  routed not_found m ss = done (record m { status = html_fd_404response }, ss)
  routed (html path) m ss =
      done (record m { status = html_fd_200response; html_len = length path; path = path }, ss)

  -- One call of the domain: `main`'s loop. It returns 0, or (unsigned long)-1 for any other status.
  unfoldable pub dom_call : Memory → List Shared → Run (Memory × List Shared)
  dom_call m ss =
      if m.status == html_fd_undefined
      then needs Name.socket_fd ss (request_reprocessing junk m.socket >>= λ r. routed r m ss)
      else if m.status == html_fd_404response
      then request_handle_404 m ss
      else if m.status == html_fd_200response
      then request_handle_200 m ss
      else done (m, ss)

-- `create_dom_from_region`: the call of the firmware with base, length of the code, whole length
-- and entry. With no segment of code the loop's index is past the table.
pub data DomCreate : Type 0 where
  dom_create : (base code_len tot_len entry : ℕ) → DomCreate

abbrev pub tot_len_of : ℕ → ℕ
tot_len_of code_len = (sub64 (add64 code_len (4096 * 2)) 1 / 16 + 1) * 16 % 2 ^ 64

abbrev pub created : ℕ → ℕ → Option Segment → Run DomCreate
created base e_entry none = fault
created base e_entry (some s) = done (
    dom_create (add64 base s.p_offset) s.p_filesz (tot_len_of s.p_filesz) (sub64 e_entry s.p_vaddr))

pub create_dom_from_region : ℕ → ℕ → List Segment → Run DomCreate
create_dom_from_region base e_entry phdrs = created base e_entry (first_code phdrs)
