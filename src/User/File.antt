-- ===== src/User/File.antt =====
-- libcapstone.c: an ELF file, and the descriptors and pages of the process that loads it.
use caplifive_buildroot.Base.{
  ℕ, ◌+◌, ◌-◌, ◌/◌, ◌^◌, Bool, true, false, ◌&&◌, Option, List, [], ◌∷◌, ltb, leb, ◌==◌,
  if◌then◌else◌,
}
use caplifive_buildroot.Base.Words.{page_size}

-- Elf64_Phdr and Elf64_Shdr of <elf.h>, as far as they are read. The name of a section is the
-- string at its place in the table of names.
pub record Segment : Type 0 where
  pub p_type : ℕ
  pub p_flags : ℕ
  pub p_offset : ℕ
  pub p_vaddr : ℕ
  pub p_filesz : ℕ
  pub p_memsz : ℕ

pub record Section : Type 0 where
  pub name : List ℕ
  pub sh_type : ℕ
  pub sh_flags : ℕ
  pub sh_addr : ℕ
  pub sh_offset : ℕ
  pub sh_size : ℕ

-- A path, as the system calls answer for it: the descriptor that `open` gives, whether `fstat`
-- succeeds and the size that it gives, the address that `mmap` returns, and what the mapped file
-- has. A table that reaches past the mapped pages is `none`.
pub record File : Type 0 where
  pub fd : Option ℕ
  pub stat_works : Bool
  pub st_size : ℕ
  pub at : ℕ
  pub e_ident : List ℕ
  pub e_machine : ℕ
  pub e_entry : ℕ
  pub phdrs : Option (List Segment)
  pub shdrs : Option (List Section)

-- The process: its open descriptors, and the pages of its address space that are mapped.
pub record Process : Type 0 where
  pub fds : ℕ → Bool
  pub pages : ℕ → Bool

-- struct ElfCode
pub record ElfCode : Type 0 where
  pub fd : ℕ
  pub map_base : ℕ
  pub code_start : ℕ
  pub code_len : ℕ
  pub loadable_size : ℕ
  pub size : ℕ
  pub entry_offset : ℕ

-- MAP_FAILED, PT_LOAD, EM_RISCV, SHT_PROGBITS, and SHF_ALLOC | SHF_EXECINSTR
abbrev pub map_failed_at : ℕ
map_failed_at = 2 ^ 64 - 1

abbrev pub pt_load : ℕ
pt_load = 1

abbrev pub em_riscv : ℕ
em_riscv = 243

abbrev pub sht_progbits : ℕ
sht_progbits = 1

abbrev pub alloc_execinstr : ℕ
alloc_execinstr = 6

-- ELF_HEADER_MAGIC
abbrev pub elf_header_magic : List ℕ
elf_header_magic = 0x7f ∷ b'E' ∷ b'L' ∷ b'F' ∷ []

-- `strncmp` over the length of its first string, and `strcmp`: whether they return 0.
abbrev pub starts_with : List ℕ → List ℕ → Bool
starts_with [] ys = true
starts_with (x ∷ xs) [] = false
starts_with (x ∷ xs) (y ∷ ys) = (x == y) && starts_with xs ys

abbrev pub same_string : List ℕ → List ℕ → Bool
same_string [] [] = true
same_string [] (y ∷ ys) = false
same_string (x ∷ xs) [] = false
same_string (x ∷ xs) (y ∷ ys) = (x == y) && same_string xs ys

-- The pages of `n` bytes mapped at a page
abbrev pub in_range : ℕ → ℕ → ℕ → Bool
in_range at n page = leb (at / page_size) page && ltb page (at / page_size + (n + 4095) / page_size)

abbrev pub open_fd : ℕ → Process → Process
open_fd fd p = record p { fds = λ j. if fd == j then true else p.fds j }

abbrev pub close_fd : ℕ → Process → Process
close_fd fd p = record p { fds = λ j. if fd == j then false else p.fds j }

abbrev pub map_file : ℕ → ℕ → Process → Process
map_file at n p = record p { pages = λ j. if in_range at n j then true else p.pages j }

abbrev pub munmap : ℕ → ℕ → Process → Process
munmap at n p = record p { pages = λ j. if in_range at n j then false else p.pages j }
