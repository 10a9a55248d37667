-- ===== src/Cgi/Socket.antt =====
-- cgi_register_success.dom.c: bytes written into the response region, and read from the request.
pub mod Bytes
use Prim.Native.Nat.{bit_or}
use caplifive_buildroot.Base.Memory.{
  Region, update, Memory, write, update_self, update_ne, write_self, write_ne,
}
use caplifive_buildroot.Base.{
  ℕ, zero, suc, ◌+◌, ◌*◌, ◌/◌, ◌%◌, ◌^◌, List, [], ◌∷◌, ◌==◌, if◌then◌else◌,
}

-- `response_region_ptr`, `response_size`, `ptr_outer_offset` and `ptr_inner_offset`
pub record Output : Type 0 where
  pub region : Region
  pub size : ℕ
  pub outer : ℕ
  pub inner : ℕ

-- The words after the first `if`, which clears a word before its first byte.
abbrev pub cleared : Output → Region
cleared o = if o.inner == 0 then update o.region o.outer 0 else o.region

pub putchar_to_socket : ℕ → Output → Output
putchar_to_socket ch o =
    let next = bit_or (cleared o o.outer) (ch * 2 ^ (o.inner * 8)) in
    record {
      region = update (cleared o) o.outer (next % 2 ^ 64);
      size = (o.size + 1) % 2 ^ 64;
      outer = if o.inner + 1 == 8 then (o.outer + 1) % 2 ^ 64 else o.outer;
      inner = if o.inner + 1 == 8 then 0 else o.inner + 1;
    }

-- A row of calls of `putchar_to_socket`.
pub put_all : List ℕ → Output → Output
put_all [] o = o
put_all (ch ∷ chs) o = put_all chs (putchar_to_socket ch o)

-- `response_size = 0`, and the offsets at 0
pub start : Region → Output
start r = record { region = r; size = 0; outer = 0; inner = 0 }

-- `(word >> (i * 8)) & 0x000000ff`
abbrev pub byte_of : ℕ → ℕ → ℕ
byte_of word i = word / 2 ^ (i * 8) % 256

-- The byte at offset `k` of a region on a little-endian machine.
abbrev pub byte_at : Region → ℕ → ℕ
byte_at r k = byte_of (r (k / 8)) (k % 8)
