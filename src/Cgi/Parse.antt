-- ===== src/Cgi/Parse.antt =====
-- cgi_register_success.dom.c, `register_success` (the same in cgi_register_fail.dom.c): the name is
-- what stands between '=' and '&' in the request.
pub mod Feed
pub mod Name
use caplifive_buildroot.Base.Memory.{
  Region, update, Memory, write, update_self, update_ne, write_self, write_ne,
}
use caplifive_buildroot.Base.{
  ℕ, zero, suc, ◌+◌, List, [], ◌∷◌, ◌++◌, Run, done, fault, starved, ◌>>=◌, ltb, ◌==◌,
  if◌then◌else◌, length,
}
use caplifive_buildroot.Cgi.Socket.{byte_of}

-- `unsigned name[16]`
abbrev pub max_name : ℕ
max_name = 16

-- `find_target` (0 before '=', 1 behind it, 2 from '&' on), and `name[0 .. name_index)`
pub record Scan : Type 0 where
  pub find_target : ℕ
  pub name : List ℕ

abbrev pub start_scan : Scan
start_scan = record { find_target = 0; name = [] }

-- The body of the inner loop. A 17th byte would be written past `name`.
pub scan_byte : ℕ → Scan → Run Scan
scan_byte ch s =
    if s.find_target == 0
    then done (record s { find_target = if ch == b'=' then 1 else 0 })
    else if s.find_target == 1
    then if ch == b'&'
      then done (record s { find_target = 2 })
      else if ltb (length s.name) max_name
      then done (record s { name = s.name ++ ch ∷ [] })
      else fault
    else done s

-- The inner loop, with the rounds left and `inner_i`. It breaks when the target is found.
pub scan_word : ℕ → ℕ → ℕ → Scan → Run Scan
scan_word zero i word s = done s
scan_word (suc rounds) i word s = scan_byte (byte_of word i) s >>= λ s'.
    let rest = scan_word rounds (i + 1) word s' in if s'.find_target == 2 then done s' else rest

-- The outer loop from `outer_i`, for a bounded number of words.
pub scan_socket : ℕ → ℕ → Region → Scan → Run Scan
scan_socket zero outer socket s = starved
scan_socket (suc words) outer socket s =
    let rest = scan_word 8 0 (socket outer) s >>= scan_socket words (outer + 1) socket in
    if s.find_target == 2 then done s else rest
