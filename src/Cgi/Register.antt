-- ===== src/Cgi/Register.antt =====
-- cgi_register_success.dom.c, cgi_register_fail.dom.c: `register_success` and `register_fail`
-- behind the parsing, on the memory behind the regions.
pub mod Digits
pub mod Response
use Prim.Native.String.{String}
use Prim.Native.Char.{code}
use caplifive_buildroot.Base.Memory.{
  Region, update, Memory, write, update_self, update_ne, write_self, write_ne,
}
use caplifive_buildroot.Base.{
  ℕ, zero, suc, ◌+◌, ◌-◌, ◌*◌, ◌/◌, ◌%◌, ◌^◌, List, [], ◌∷◌, ◌++◌, Run, done, fault, starved, ◌>>=◌,
  ltb, ◌==◌, if◌then◌else◌, length, get_or,
}
use caplifive_buildroot.Cgi.Socket.{Output, put_all, start}
use caplifive_buildroot.Cgi.Parse.{Scan, start_scan, scan_socket}

-- The code points of a text: its bytes, if it is ASCII.
abbrev pub codes : String → List ℕ
codes String.[] = []
codes (String.◌∷◌ c s) = code c ∷ codes s

-- What the two programs differ in: `CONTENT_FIXED_SIZE`, and the texts they put.
pub record Page : Type 0 where
  pub content_fixed_size : ℕ
  pub status : List ℕ
  pub headers : List ℕ
  pub greeting : List ℕ
  pub ending : List ℕ

abbrev pub success_page : Page
success_page = record {
  content_fixed_size = 83;
  status = codes "HTTP/1.1 200 OK\nConnection: close\nContent-length: ";
  headers = codes "\nContent-type: text/html\n\n";
  greeting = codes "<!DOCTYPE html>\n<html>\n<body>\n    Hello, ";
  ending = codes ". You are now registered.\n</body>\n</html>\n";
}

abbrev pub fail_page : Page
fail_page = record {
  content_fixed_size = 72;
  status = codes "HTTP/1.1 500 Internal Server Error\nConnection: close\nContent-length: ";
  headers = codes "\nContent-type: text/html\n\n";
  greeting = codes "<!DOCTYPE html>\n<html>\n<body>\n    Hello, ";
  ending = codes ". Register failed.\n</body>\n</html>\n";
}

-- The loop that fills `unsigned content_size_char[16]`, the last digit first.
pub digits_loop : ℕ → ℕ → List ℕ → Run (List ℕ)
digits_loop zero num content_size_char = starved
digits_loop (suc rounds) num content_size_char =
    let res = num / 10 in
    let rest = digits_loop rounds res (content_size_char ++ (num - 10 * res + b'0') ∷ []) in
    if num == 0
    then done content_size_char
    else if ltb (length content_size_char) 16
    then rest
    else fault

-- The order in which the loop over `content_size_char` puts its elements.
abbrev pub backwards : List ℕ → List ℕ
backwards [] = []
backwards (c ∷ cs) = backwards cs ++ c ∷ []

-- All that is put into the response.
pub response_text : Page → List ℕ → List ℕ → List ℕ
response_text p name content_size_char =
    p.status ++ (backwards content_size_char ++ (p.headers ++ (p.greeting ++ (name ++ p.ending))))

-- `METADATA_SOCKET_LEN_OFFSET_UL`
abbrev pub metadata_socket_len_offset : ℕ
metadata_socket_len_offset = 2

-- The response is written to `regions[2]`, and its size to the metadata, `regions[0]`.
pub respond : Page → List ℕ → List ℕ → Memory → List ℕ → Memory
respond p regions name m content_size_char =
    let response = get_or regions 2 0 in
    let metadata = get_or regions 0 0 in
    let out = put_all (response_text p name content_size_char) (start (m response)) in
    let written = write m response out.region in
    write written metadata (update (written metadata) metadata_socket_len_offset out.size)

-- `register_success`, `register_fail`: the name is found in `regions[1]`, for a bounded number of
-- words.
pub register : Page → ℕ → List ℕ → Memory → Run Memory
register p words regions m = scan_socket words 0 (m (get_or regions 1 0)) start_scan >>= λ found.
    digits_loop 17 ((length found.name + p.content_fixed_size) % 2 ^ 64) [] >>= λ digits.
    done (respond p regions found.name m digits)
