-- ===== src/User/Elf/Loads.antt =====
-- libcapstone.c, `load_elf_code`: what is loaded from a file, and what is left open when nothing is.
use caplifive_buildroot.Base.{
  ℕ, ◌≡◌, ◌≢◌, ◌<◌, refl, sym, inl, inr, false, not, ◌||◌, Option, none, some, Run, Returns,
  Returns-mono, Returns-chain, arith, ◌==◌, Bool-cases,
}
use caplifive_buildroot.User.Elf.{
  with_segments, with_sections, is_riscv_elf, kept, load_open, load_with, load_elf_code,
  load_elf_code_ko,
}
use caplifive_buildroot.User.File.{
  File, Process, ElfCode, map_failed_at, open_fd, close_fd, map_file, munmap, in_range,
}
use caplifive_buildroot.User.Elf.Parsed.{
  IsReadable, IsReadableKo, IsFree, SameFds, SamePages, IsHeld, IsLoaded, Parsed,
  with_segments-Parsed, with_sections-Parsed,
}

-- What a loader leaves: nothing open or mapped that was not before, or the file open and mapped.
abbrev pub Outcome : (ElfCode → Type 0) → File → Process → Option ElfCode × Process → Type 0
Outcome Q f p (none, q) = SameFds p q × SamePages p q
Outcome Q f p (some c, q) =
    (fd : ℕ) × (f.fd ≡ some fd) × IsHeld f fd c × Q c × (q ≡ map_file f.at f.st_size (open_fd fd p))

module _ (Q : ElfCode → Type 0) (parse : ℕ → Run (Option ElfCode)) (f : File) (p : Process)
    (mapped : f.at ≢ map_failed_at) (fine : (fd : ℕ) → Returns (Parsed Q f fd) (parse fd))
    (free : IsFree f p) where
  closed_SameFds : (fd : ℕ) → f.fd ≡ some fd → SameFds p (close_fd fd (open_fd fd p))
  closed_SameFds fd e j = ground (arith, free.fd_free fd e)

  unmapped_SamePages :
      (fd : ℕ) → SamePages p (munmap f.at f.st_size (map_file f.at f.st_size (open_fd fd p)))
  unmapped_SamePages fd j = elim (Bool-cases (in_range f.at f.st_size j)) [
    | inl inside ↦ rw inside (sym (free.pages_free j inside))
    | inr outside ↦ rw outside
  ]

  after_parse :
      (fd : ℕ)
      → f.fd ≡ some fd
      → (o : Option ElfCode) → Parsed Q f fd o
      → Outcome Q f p (kept f fd (map_file f.at f.st_size (open_fd fd p)) o)
  after_parse fd e none h = (closed_SameFds fd e, unmapped_SamePages fd)
  after_parse fd e (some c) h = (fd, e, h.0, h.1, refl)

  load_open-Outcome : (fd : ℕ) → f.fd ≡ some fd → Returns (Outcome Q f p) (load_open parse f fd p)
  load_open-Outcome fd e = elim (Bool-cases (not f.stat_works || (f.at == 0))) [
    | inl bad ↦ rw bad (closed_SameFds fd e, λ j. refl)
    | inr good ↦ elim (Bool-cases (is_riscv_elf f)) [
      | inr other ↦ rw (good, lives, other) (after_parse fd e none tt)
      | inl elf ↦
          rw (good, lives, elf)
            (Returns-chain (Parsed Q f fd) (Outcome Q f p) (parse fd) _ (fine fd)
              (after_parse fd e))
    ]
  ]
    where
      lives : (f.at == map_failed_at) ≡ false
      lives = ground arith

  load_with-Outcome : (o : Option ℕ) → f.fd ≡ o → Returns (Outcome Q f p) (load_with parse f p o)
  load_with-Outcome none e = (λ j. refl, λ j. refl)
  load_with-Outcome (some fd) e = load_open-Outcome fd e

-- From a file that can be read to the end, `load_elf_code` returns: either it refuses the file, and
-- leaves no descriptor open and no page mapped that was not before, or the file is open and mapped,
-- and the entry lies in the code.
pub load_elf_code-Outcome :
    (f : File) (p : Process)
    → IsReadable f
    → IsFree f p
    → Returns (Outcome IsLoaded f p) (load_elf_code f p)
unfolding load_elf_code
load_elf_code-Outcome f p r free =
    load_with-Outcome IsLoaded (λ fd. with_segments f fd f.phdrs) f p r.mapped
      (λ fd. with_segments-Parsed f fd r f.phdrs r.table) free f.fd refl

pub load_elf_code_ko-Outcome :
    (f : File) (p : Process)
    → IsReadableKo f
    → IsFree f p
    → Returns (Outcome (λ c. 0 < c.loadable_size) f p) (load_elf_code_ko f p)
unfolding load_elf_code_ko
load_elf_code_ko-Outcome f p r free =
    load_with-Outcome (λ c. 0 < c.loadable_size) (λ fd. with_sections f fd f.shdrs) f p r.mapped
      (λ fd. with_sections-Parsed f fd r f.shdrs r.table) free f.fd refl

-- Whatever is open and mapped before, the loaders return.
module _ (parse : ℕ → Run (Option ElfCode)) (f : File) (p : Process)
    (mapped : f.at ≢ map_failed_at) where
  load_with_returns :
      ((fd : ℕ) → Returns (λ c. Unit {0}) (parse fd))
      → (o : Option ℕ) → Returns (λ r. Unit {0}) (load_with parse f p o)
  load_with_returns fine none = tt
  load_with_returns fine (some fd) =
      let lives : (f.at == map_failed_at) ≡ false = ground arith in
      elim (Bool-cases (not f.stat_works || (f.at == 0))) [
        | inl bad ↦ rw bad tt
        | inr good ↦ elim (Bool-cases (is_riscv_elf f)) [
          | inr other ↦ rw (good, lives, other) tt
          | inl elf ↦
              rw (good, lives, elf)
                (Returns-chain (λ c. Unit {0}) (λ r. Unit {0}) (parse fd) _ (fine fd) (λ c u. tt))
        ]
      ]

pub load_elf_code_returns :
    (f : File) (p : Process) → IsReadable f → Returns (λ r. Unit {0}) (load_elf_code f p)
unfolding load_elf_code
load_elf_code_returns f p r =
    load_with_returns (λ fd. with_segments f fd f.phdrs) f p r.mapped
      (λ fd.
        Returns-mono (Parsed IsLoaded f fd) (λ c. Unit {0}) (λ c h. tt) (with_segments f fd f.phdrs)
          (with_segments-Parsed f fd r f.phdrs r.table))
      f.fd

pub load_elf_code_ko_returns :
    (f : File) (p : Process) → IsReadableKo f → Returns (λ r. Unit {0}) (load_elf_code_ko f p)
unfolding load_elf_code_ko
load_elf_code_ko_returns f p r =
    load_with_returns (λ fd. with_sections f fd f.shdrs) f p r.mapped
      (λ fd.
        Returns-mono (Parsed (λ c. 0 < c.loadable_size) f fd) (λ c. Unit {0}) (λ c h. tt)
          (with_sections f fd f.shdrs) (with_sections-Parsed f fd r f.shdrs r.table))
      f.fd
