-- ===== src/User/Elf/Parsed.antt =====
-- libcapstone.c: what the loaders find in a file, and where the code of the domain stands.
use caplifive_buildroot.Base.{
  ℕ, ◌^◌, ◌≡◌, ◌≢◌, ◌<◌, refl, inl, inr, true, false, Option, none, some, List, [], ◌∷◌, Returns,
  arith, ltb, Bool-cases, Option-cases,
}
use caplifive_buildroot.Base.Words.{add64}
use caplifive_buildroot.User.Elf.{
  first_code, last_load, is_code, scan_sections, last_exec, is_exec, section_start, entry_outside,
  with_segments, with_first, code_of, with_sections, with_scanned, code_of_ko,
}
use caplifive_buildroot.User.File.{
  Segment, Section, File, Process, ElfCode, map_failed_at, in_range,
}

-- A file that can be read to the end: `mmap` does not fail for it, its table of segments lies in the
-- mapped pages, and the last loadable segment ends above the start of the code.
pub record IsReadable (f : File) : Type 0 where
  pub mapped : f.at ≢ map_failed_at
  pub segments : List Segment
  pub table : f.phdrs ≡ some segments
  pub entry_word : f.e_entry < 2 ^ 64
  pub words :
      (s : Segment) → first_code segments ≡ some s → (s.p_vaddr < 2 ^ 64) × (s.p_filesz < 2 ^ 64)
  pub ordered :
      (s last : Segment)
      → first_code segments ≡ some s
      → last_load segments ≡ some last
      → s.p_vaddr < add64 last.p_vaddr last.p_memsz

pub record IsReadableKo (f : File) : Type 0 where
  pub mapped : f.at ≢ map_failed_at
  pub sections : List Section
  pub table : f.shdrs ≡ some sections
  pub ordered :
      (exec init last : Section)
      → scan_sections sections none ≡ some (exec, init)
      → last_exec sections ≡ some last
      → section_start exec < add64 (section_start last) last.sh_size

-- Where there is a segment with code, there is a last loadable one: the assertion on it never fails.
pub last_load_exists :
    (ss : List Segment) (s : Segment)
    → first_code ss ≡ some s
    → (t : Segment) × (last_load ss ≡ some t)
unfolding first_code last_load
last_load_exists [] s h = cc
last_load_exists (x ∷ xs) s h = elim (Option-cases (last_load xs)) [
  | inr (t, e) ↦ (t, rw e)
  | inl e ↦ elim (Bool-cases (is_code x)) [
    | inl c ↦ (x, ground arith)
    | inr c ↦ let (t, e') = last_load_exists xs s (ground arith) in absurd (cc (e, e'))
  ]
]

pub last_exec_exists :
    (ss : List Section) (o : Option Section) (exec init : Section)
    → scan_sections ss o ≡ some (exec, init)
    → (t : Section) × (last_exec ss ≡ some t)
unfolding scan_sections last_exec
last_exec_exists [] o exec init h = cc
last_exec_exists (x ∷ xs) o exec init h = elim (Option-cases (last_exec xs)) [
  | inr (t, e) ↦ (t, rw e)
  | inl e ↦ elim (Bool-cases (is_exec x)) [
    | inl c ↦ (x, ground arith)
    | inr c ↦ let (t, e') = last_exec_exists xs o exec init (ground arith) in absurd (cc (e, e'))
  ]
]

-- The system calls give what was free before: a descriptor that is not open, pages that are not
-- mapped.
pub record IsFree (f : File) (p : Process) : Type 0 where
  pub fd_free : (fd : ℕ) → f.fd ≡ some fd → p.fds fd ≡ false
  pub pages_free : (j : ℕ) → in_range f.at f.st_size j ≡ true → p.pages j ≡ false

-- The same descriptors are open, and the same pages mapped.
abbrev pub SameFds : Process → Process → Type 0
SameFds p q = (j : ℕ) → q.fds j ≡ p.fds j

abbrev pub SamePages : Process → Process → Type 0
SamePages p q = (j : ℕ) → q.pages j ≡ p.pages j

-- The code names the descriptor and the mapping of its file.
pub record IsHeld (f : File) (fd : ℕ) (c : ElfCode) : Type 0 where
  pub held : c.fd ≡ fd
  pub base : c.map_base ≡ f.at
  pub whole : c.size ≡ f.st_size

-- The entry lies in the code, and there are bytes to load.
pub record IsLoaded (c : ElfCode) : Type 0 where
  pub entry_inside : c.entry_offset < c.code_len
  pub some_bytes : 0 < c.loadable_size

abbrev pub Parsed : (ElfCode → Type 0) → File → ℕ → Option ElfCode → Type 0
Parsed Q f fd none = Unit {0}
Parsed Q f fd (some c) = IsHeld f fd c × Q c

module _ (f : File) (fd : ℕ) where
  pub code_of-Parsed :
      (s last : Segment)
      → s.p_vaddr < add64 last.p_vaddr last.p_memsz
      → entry_outside f s ≡ false
      → f.e_entry < 2 ^ 64
      → s.p_vaddr < 2 ^ 64
      → s.p_filesz < 2 ^ 64
      → Returns (Parsed IsLoaded f fd) (code_of f fd s last)
  code_of-Parsed s last lt inside ew vw fw =
      let above : ltb s.p_vaddr (add64 last.p_vaddr last.p_memsz) ≡ true = ground arith in
      rw above (
        record { held = refl; base = refl; whole = refl },
        record { entry_inside = ground arith; some_bytes = omega arith },
      )

  pub with_first-Parsed :
      (r : IsReadable f)
      → Returns (Parsed IsLoaded f fd) (with_first f fd r.segments (first_code r.segments))
  with_first-Parsed r = elim (Option-cases (first_code r.segments)) [
    | inl e ↦ rw e tt
    | inr (s, e) ↦ elim (Bool-cases (entry_outside f s)) [
      | inl out ↦ rw (e, out) tt
      | inr inside ↦
          let (last, e') = last_load_exists r.segments s e in
          rw (e, inside, e')
            (code_of-Parsed s last (r.ordered s last e e') inside r.entry_word (r.words s e).0
              (r.words s e).1)
    ]
  ]

  pub with_segments-Parsed :
      (r : IsReadable f) (o : Option (List Segment))
      → o ≡ some r.segments
      → Returns (Parsed IsLoaded f fd) (with_segments f fd o)
  with_segments-Parsed r o e = rw e (with_first-Parsed r)

  -- For a kernel module, where there is a section with code there is a last one.
  pub code_of_ko-Parsed :
      (exec init last : Section)
      → section_start exec < add64 (section_start last) last.sh_size
      → Returns (Parsed (λ c. 0 < c.loadable_size) f fd) (code_of_ko f fd exec init (some last))
  code_of_ko-Parsed exec init last lt =
      let above : ltb (section_start exec) (add64 (section_start last) last.sh_size) ≡ true =
        ground arith in
      rw above (record { held = refl; base = refl; whole = refl }, omega arith)

  pub with_scanned-Parsed :
      (r : IsReadableKo f)
      → Returns
          (Parsed (λ c. 0 < c.loadable_size) f fd)
          (with_scanned f fd r.sections (scan_sections r.sections none))
  with_scanned-Parsed r = elim (Option-cases (scan_sections r.sections none)) [
    | inl e ↦ rw e tt
    | inr ((exec, init), e) ↦
        let (last, e') = last_exec_exists r.sections none exec init e in
        rw (e, e') (code_of_ko-Parsed exec init last (r.ordered exec init last e e'))
  ]

  pub with_sections-Parsed :
      (r : IsReadableKo f) (o : Option (List Section))
      → o ≡ some r.sections
      → Returns (Parsed (λ c. 0 < c.loadable_size) f fd) (with_sections f fd o)
  with_sections-Parsed r o e = rw e (with_scanned-Parsed r)
