-- ===== src/User/Elf/Release.antt =====
-- libcapstone.c, `release_elf_code`: what is left of a file that was loaded.
use caplifive_buildroot.Base.{
  ℕ, ◌≡◌, Bool, true, false, not, ◌&&◌, ◌||◌, Option, none, some, Returns, Returns-mono, arith,
  if◌then◌else◌,
}
use caplifive_buildroot.User.Elf.{load_elf_code, release_elf_code}
use caplifive_buildroot.User.File.{File, Process, ElfCode, in_range}
use caplifive_buildroot.User.Elf.Loads.{Outcome, load_elf_code-Outcome}
use caplifive_buildroot.User.Elf.Parsed.{IsReadable, IsFree, SameFds, SamePages, IsLoaded}

-- After the release of what was loaded, if anything: the descriptors are as they were, and of the
-- file's pages those stay mapped that are not among as many bytes as the code has.
abbrev pub Left : File → Process → Option ElfCode × Process → Type 0
Left f p (none, q) = SameFds p q × SamePages p q
Left f p (some c, q) =
    SameFds p (release_elf_code c q)
    × ((j : ℕ)
        → (release_elf_code c q).pages j
          ≡ ((p.pages j || in_range f.at f.st_size j) && not (in_range f.at c.code_len j)))

unmapped :
    (before file code : Bool)
    → (if code then false else if file then true else before) ≡ ((before || file) && not code)
unmapped before file true = ground arith
unmapped before true false = ground arith
unmapped before false false = ground arith

Outcome-Left :
    (f : File) (p : Process)
    → IsFree f p
    → (r : Option ElfCode × Process) → Outcome IsLoaded f p r
    → Left f p r
unfolding release_elf_code
Outcome-Left f p free (none, q) o = o
Outcome-Left f p free (some c, q) (fd, e, held, loaded, same) =
    rw (same, held.held, held.base)
      (
        λ j. ground (arith, free.fd_free fd e),
        λ j. unmapped (p.pages j) (in_range f.at f.st_size j) (in_range f.at c.code_len j),
      )

-- Once a file has been loaded and released, the descriptors are as they were, but of the file's
-- pages those behind the length of the code stay mapped.
pub load-release :
    (f : File) (p : Process) → IsReadable f → IsFree f p → Returns (Left f p) (load_elf_code f p)
load-release f p r free =
    Returns-mono (Outcome IsLoaded f p) (Left f p) (Outcome-Left f p free) (load_elf_code f p)
      (load_elf_code-Outcome f p r free)
