-- ===== src/User/Elf.antt =====
-- libcapstone.c: loading the code of a domain from an ELF file, as a program (`load_elf_code`) and
-- as a kernel module (`load_elf_code_ko`).
pub mod Parsed
pub mod Loads
pub mod Release
use caplifive_buildroot.Base.{
  ℕ, zero, suc, ◌+◌, ◌-◌, ◌*◌, ◌/◌, ◌%◌, ◌^◌, Bool, true, false, not, ◌&&◌, ◌||◌, Option, none,
  some, List, [], ◌∷◌, Run, done, fault, starved, ◌>>=◌, ltb, leb, ◌==◌, if◌then◌else◌,
}
use caplifive_buildroot.Base.Words.{add64, sub64, page_size}
use caplifive_buildroot.User.File.{
  Segment, Section, File, Process, ElfCode, map_failed_at, pt_load, em_riscv, sht_progbits,
  alloc_execinstr, elf_header_magic, starts_with, same_string, in_range, open_fd, close_fd,
  map_file, munmap,
}

abbrev pub is_load : Segment → Bool
is_load s = s.p_type == pt_load

-- PF_X is the lowest bit of the flags.
abbrev pub is_code : Segment → Bool
is_code s = is_load s && (s.p_flags % 2 == 1)

-- The two loops over the segments: the first loadable executable one, and the last loadable one.
unfoldable pub first_code : List Segment → Option Segment
first_code [] = none
first_code (s ∷ ss) = if is_code s then some s else first_code ss

abbrev pub or_last : Segment → Option Segment → Option Segment
or_last s (some t) = some t
or_last s none = if is_load s then some s else none

unfoldable pub last_load : List Segment → Option Segment
last_load [] = none
last_load (s ∷ ss) = or_last s (last_load ss)

abbrev pub is_exec : Section → Bool
is_exec s = (s.sh_type == sht_progbits) && (s.sh_flags == alloc_execinstr)

abbrev pub init_text : List ℕ
init_text = b'.' ∷ b'i' ∷ b'n' ∷ b'i' ∷ b't' ∷ b'.' ∷ b't' ∷ b'e' ∷ b'x' ∷ b't' ∷ []

abbrev pub or_first : Option Section → Section → Section
or_first (some e) s = e
or_first none s = s

abbrev pub seen : Option Section → Section → Option Section
seen exec s = if is_exec s then some (or_first exec s) else exec

-- The loop over the sections: the first executable one and `.init.text`.
pub scan_sections : List Section → Option Section → Option (Section × Section)
scan_sections [] exec = none
scan_sections (s ∷ ss) exec =
    let rest = scan_sections ss (seen exec s) in
    if is_exec s && same_string s.name init_text then some (or_first exec s, s) else rest

abbrev pub or_last_exec : Section → Option Section → Option Section
or_last_exec s (some t) = some t
or_last_exec s none = if is_exec s then some s else none

pub last_exec : List Section → Option Section
last_exec [] = none
last_exec (s ∷ ss) = or_last_exec s (last_exec ss)

-- What the loaders read of a file mapped at `f.at`: `none` for a file that they refuse. A failed
-- assertion ends the process, and is a fault here.
abbrev pub entry_outside : File → Segment → Bool
entry_outside f s = ltb f.e_entry s.p_vaddr || leb (add64 s.p_vaddr s.p_filesz) f.e_entry

abbrev pub code_of : File → ℕ → Segment → Segment → Run (Option ElfCode)
code_of f fd s last =
    let loadable_end = add64 last.p_vaddr last.p_memsz in
    if ltb s.p_vaddr loadable_end
    then done (
        some (record {
          fd = fd;
          map_base = f.at;
          code_start = add64 f.at s.p_offset;
          code_len = s.p_filesz;
          loadable_size = sub64 loadable_end s.p_vaddr;
          size = f.st_size;
          entry_offset = sub64 f.e_entry s.p_vaddr;
        }))
    else fault

abbrev pub with_last : File → ℕ → Segment → Option Segment → Run (Option ElfCode)
with_last f fd s none = fault
with_last f fd s (some last) = code_of f fd s last

abbrev pub with_first : File → ℕ → List Segment → Option Segment → Run (Option ElfCode)
with_first f fd segments none = done none
with_first f fd segments (some s) =
    if entry_outside f s then done none else with_last f fd s (last_load segments)

abbrev pub with_segments : File → ℕ → Option (List Segment) → Run (Option ElfCode)
with_segments f fd none = fault
with_segments f fd (some segments) = with_first f fd segments (first_code segments)

abbrev pub section_start : Section → ℕ
section_start s = add64 s.sh_addr s.sh_offset

abbrev pub code_of_ko : File → ℕ → Section → Section → Option Section → Run (Option ElfCode)
code_of_ko f fd exec init none = fault
code_of_ko f fd exec init (some last) =
    let exec_start = add64 f.at (section_start exec) in
    let init_text_start = add64 f.at (section_start init) in
    let loadable_end = add64 (section_start last) last.sh_size in
    if ltb (section_start exec) loadable_end
    then done (
        some (record {
          fd = fd;
          map_base = f.at;
          code_start = exec_start;
          code_len = sub64 (add64 init_text_start init.sh_size) exec_start;
          loadable_size = sub64 loadable_end (section_start exec);
          size = f.st_size;
          entry_offset = sub64 init_text_start exec_start;
        }))
    else fault

abbrev pub with_scanned :
    File → ℕ → List Section → Option (Section × Section) → Run (Option ElfCode)
with_scanned f fd sections none = done none
with_scanned f fd sections (some (exec, init)) = code_of_ko f fd exec init (last_exec sections)

abbrev pub with_sections : File → ℕ → Option (List Section) → Run (Option ElfCode)
with_sections f fd none = fault
with_sections f fd (some sections) = with_scanned f fd sections (scan_sections sections none)

abbrev pub is_riscv_elf : File → Bool
is_riscv_elf f = starts_with elf_header_magic f.e_ident && (f.e_machine == em_riscv)

-- `clean_up_mmap` and `clean_up_file`
abbrev pub kept : File → ℕ → Process → Option ElfCode → Option ElfCode × Process
kept f fd p (some c) = (some c, p)
kept f fd p none = (none, close_fd fd (munmap f.at f.st_size p))

-- The part of a loader after `open`. An address 0 is taken for the failure of `mmap`, so with
-- MAP_FAILED the header is read from there.
abbrev pub load_open :
    (ℕ → Run (Option ElfCode)) → File → ℕ → Process → Run (Option ElfCode × Process)
load_open parse f fd p =
    if not f.stat_works || (f.at == 0)
    then done (none, close_fd fd (open_fd fd p))
    else if f.at == map_failed_at
    then fault
    else (if is_riscv_elf f then parse fd else done none) >>= λ c.
        done (kept f fd (map_file f.at f.st_size (open_fd fd p)) c)

abbrev pub load_with :
    (ℕ → Run (Option ElfCode)) → File → Process → Option ℕ → Run (Option ElfCode × Process)
load_with parse f p none = done (none, p)
load_with parse f p (some fd) = load_open parse f fd p

-- `none` is the return value 1.
pub load_elf_code : File → Process → Run (Option ElfCode × Process)
load_elf_code f p = load_with (λ fd. with_segments f fd f.phdrs) f p f.fd

pub load_elf_code_ko : File → Process → Run (Option ElfCode × Process)
load_elf_code_ko f p = load_with (λ fd. with_sections f fd f.shdrs) f p f.fd

-- `release_elf_code` unmaps the length of the code, not that of the file.
unfoldable pub release_elf_code : ElfCode → Process → Process
release_elf_code c p = close_fd c.fd (munmap c.map_base c.code_len p)
