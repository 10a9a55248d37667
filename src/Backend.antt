-- ===== src/Backend.antt =====
-- package/capstone-nested-enclave/capstone_split/sdom/miniweb_backend.smode.c: the domain that reads
-- the first line of a request and decides who answers it.
pub mod Dispatch
pub mod Strings
pub mod Respond
pub mod Tests
use Prim.Native.String.{String}
use caplifive_buildroot.Base.{
  ℕ, zero, suc, ◌+◌, List, [], ◌∷◌, Bool, true, false, ◌||◌, not, ltb, ◌==◌, if◌then◌else◌, Run,
  done, fault, ◌>>=◌, length,
}
use caplifive_buildroot.Base.Memory.{update}
use caplifive_buildroot.Cgi.Register.{codes}

-- `read_line_from_socket`: `rounds` places of the buffer are left, from `i` on. It returns the
-- buffer and how far the pointer into the socket moves.
pub read_line_from_socket : ℕ → ℕ → (ℕ → ℕ) → (ℕ → ℕ) → (ℕ → ℕ) × ℕ
read_line_from_socket zero i socket buf = (buf, i)
read_line_from_socket (suc rounds) i socket buf =
    let rest = read_line_from_socket rounds (i + 1) socket (update buf i (socket i)) in
    if socket i == b'\n' then (update buf i 0, i + 1) else rest

-- A loop of `request_reprocessing` that copies the bytes up to a space, at most `limit` of them.
pub copy_word : ℕ → ℕ → (ℕ → ℕ) → List ℕ
copy_word zero i line = []
copy_word (suc limit) i line =
    let rest = line i ∷ copy_word limit (i + 1) line in if line i == b' ' then [] else rest

-- The array of the word, once its terminator has been written behind it.
abbrev pub terminated : ℕ → List ℕ → Run (List ℕ)
terminated size word = if ltb (length word) size then done word else fault

-- A string of C ends at the list's end, or at a zero in it. `simple_strcmp` and `simple_strncmp`
-- return the difference of two characters: these.
abbrev pub first_char : List ℕ → ℕ
first_char [] = 0
first_char (c ∷ cs) = c

unfoldable pub simple_strcmp : List ℕ → List ℕ → ℕ × ℕ
simple_strcmp [] str2 = (0, first_char str2)
simple_strcmp (c ∷ cs) [] = (c, 0)
simple_strcmp (c ∷ cs) (d ∷ ds) =
    let rest = simple_strcmp cs ds in
    if (c == 0) || (d == 0) then (c, d) else if not (c == d) then (c, d) else rest

unfoldable pub simple_strncmp : List ℕ → List ℕ → ℕ → ℕ × ℕ
simple_strncmp str1 str2 zero = (0, 0)
simple_strncmp [] str2 (suc n) = (0, first_char str2)
simple_strncmp (c ∷ cs) [] (suc n) = (c, 0)
simple_strncmp (c ∷ cs) (d ∷ ds) (suc n) =
    let rest = simple_strncmp cs ds n in
    if (c == 0) || (d == 0) then (c, d) else if not (c == d) then (c, d) else rest

abbrev pub is_zero : ℕ × ℕ → Bool
is_zero r = r.0 == r.1

-- What the domain does next: it calls one of the CGI domains, or it sets HTML_FD_404RESPONSE, or
-- HTML_FD_200RESPONSE with the path and its length.
pub data Route : Type 0 where
  cgi : (register_success : Bool) → Route
  not_found : Route
  html : (path : List ℕ) → Route

unfoldable pub route : List ℕ → List ℕ → Route
route method url =
    if is_zero (simple_strcmp method (codes "POST"))
    then if is_zero (simple_strncmp url (codes "/cgi/") 5)
      then if is_zero (simple_strncmp url (codes "/cgi/cgi_register_success.dom") 29)
        then cgi true
        else if is_zero (simple_strncmp url (codes "/cgi/cgi_register_fail.dom") 26)
        then cgi false
        else not_found
      else not_found
    else html url

-- `request_reprocessing`, with `char lineBuffer[256]`, `method[16]` and `url[128]`. What the
-- buffer has before is `junk`.
pub request_reprocessing : (junk socket : ℕ → ℕ) → Run Route
request_reprocessing junk socket =
    let line = (read_line_from_socket 256 0 socket junk).0 in
    terminated 16 (copy_word 16 0 line) >>= λ method.
    terminated 128 (copy_word 128 (length method + 1) line) >>= λ url. done (route method url)
