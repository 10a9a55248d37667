-- ===== src/User/Calls/Created.antt =====
-- libcapstone.c, `create_dom`, with capstone.c behind it: from a file to the firmware's domain.
use caplifive_buildroot.Base.{
  ℕ, ◌≡◌, ◌≢◌, refl, inl, inr, true, false, Option, none, some, Run, done, Returns, Returns-mono,
  Returns-done, arith, ◌==◌, Bool-cases,
}
use caplifive_buildroot.Kernel.Sbi.{Platform, dom_create}
use caplifive_buildroot.Kernel.Domain.{DomCreateArgs, dom_order, block_size, ioctl_create_dom}
use caplifive_buildroot.Kernel.Ioctl.{device_ioctl}
use caplifive_buildroot.User.Elf.{load_elf_code}
use caplifive_buildroot.User.File.{File, Process, ElfCode}
use caplifive_buildroot.User.Elf.Loads.{Outcome, load_elf_code-Outcome}
use caplifive_buildroot.User.Elf.Parsed.{IsReadable, IsFree, IsLoaded}
use caplifive_buildroot.User.Calls.{
  Session, create_dom_from_elf, with_c_code, create_dom_with, dom_args, minus_one,
}

-- What `create_dom` answers for a file with C-mode code and no S-mode code, and when.
pub data Answer {W : Type 0} (p : Platform W) (f : File) (s : Session W) (id : ℕ) : Type 0 where
  refused : (q : Process) → load_elf_code f s.process ≡ done (none, q) → id ≡ 1 → Answer p f s id
  no_memory :
      (code : ElfCode) (q : Process)
      → load_elf_code f s.process ≡ done (some code, q)
      → (p.get_free_pages (dom_order code.code_len) s.driver.world).0 ≡ 0
      → id ≡ minus_one
      → Answer p f s id
  made :
      (code : ElfCode) (q : Process) (vaddr : ℕ)
      → load_elf_code f s.process ≡ done (some code, q)
      → IsLoaded code
      → vaddr ≢ 0
      → vaddr ≡ (p.get_free_pages (dom_order code.code_len) s.driver.world).0
      → id
        ≡ (p.sbi
            (dom_create
              (p.pa vaddr)
              code.code_len
              (block_size (dom_order code.code_len))
              code.entry_offset)
            (p.copy_from_user vaddr code.code_start code.code_len
              (p.get_free_pages (dom_order code.code_len) s.driver.world).1)).0
      → Answer p f s id

module _ {W : Type 0} (p : Platform W) (place : ℕ → Option ℕ) where
  with_c_code-id :
      (load_s : File → Process → Run (Option ElfCode × Process)) (s : Session W) (c : ElfCode)
      (q : Process) (r : DomCreateArgs × W)
      → ioctl_create_dom p (dom_args c none) s.driver.world ≡ done r
      → Returns (λ a. a.0 ≡ r.0.dom_id) (with_c_code p place load_s none s (some c, q))
  unfolding create_dom_from_elf device_ioctl
  with_c_code-id load_s s c q r e = rw e refl

  create_dom-none :
      (c : ElfCode) (w : W)
      → (p.get_free_pages (dom_order c.code_len) w).0 ≡ 0
      → ioctl_create_dom p (dom_args c none) w
        ≡ done (dom_args c none, (p.get_free_pages (dom_order c.code_len) w).1)
  unfolding ioctl_create_dom
  create_dom-none c w e =
      let z : ((p.get_free_pages (dom_order c.code_len) w).0 == 0) ≡ true = ground arith in rw z

  -- The firmware's answer for the code that has been copied
  abbrev firmware_made : ElfCode → W → ℕ × W
  firmware_made c w =
      let (vaddr, w₁) = p.get_free_pages (dom_order c.code_len) w in
      p.sbi (dom_create (p.pa vaddr) c.code_len (block_size (dom_order c.code_len)) c.entry_offset)
        (p.copy_from_user vaddr c.code_start c.code_len w₁)

  create_dom-some :
      (c : ElfCode) (w : W)
      → ((p.get_free_pages (dom_order c.code_len) w).0 == 0) ≡ false
      → ioctl_create_dom p (dom_args c none) w
        ≡ done (record (dom_args c none) { dom_id = (firmware_made c w).0 }, (firmware_made c w).1)
  unfolding ioctl_create_dom
  create_dom-some c w e = rw e

  answer :
      (f : File) (s : Session W)
      → IsFree f s.process
      → (r : Option ElfCode × Process) → load_elf_code f s.process ≡ done r
      → Outcome IsLoaded f s.process r
      → Returns (λ r. Answer p f s r.0) (with_c_code p place load_elf_code none s r)
  answer f s free (none, q) e o = refused q e refl
  answer f s free (some c, q) e (fd, opened, held, loaded, same) =
      elim (Bool-cases ((p.get_free_pages (dom_order c.code_len) s.driver.world).0 == 0)) [
        | inl z ↦
            Returns-mono (λ r. r.0 ≡ minus_one) (λ r. Answer p f s r.0)
              (λ r i. no_memory c q e (ground arith) i)
              (with_c_code p place load_elf_code none s (some c, q))
              (with_c_code-id load_elf_code s c q _
                (create_dom-none c s.driver.world (ground arith)))
        | inr v ↦
            Returns-mono (λ r. r.0 ≡ (firmware_made c s.driver.world).0) (λ r. Answer p f s r.0)
              (λ r i.
                made c q (p.get_free_pages (dom_order c.code_len) s.driver.world).0 e loaded
                  (ground arith) refl i)
              (with_c_code p place load_elf_code none s (some c, q))
              (with_c_code-id load_elf_code s c q _ (create_dom-some c s.driver.world v))
      ]

  -- For a file with C-mode code that can be read to the end, and no S-mode code, `create_dom`
  -- returns one of three answers: 1 if the file is refused, (unsigned long)-1 if the module gets no
  -- memory, and otherwise the identifier that the firmware gives for the code that was copied, with
  -- an entry inside that code.
  pub create_dom-Answer :
      (f : File) (s : Session W)
      → IsReadable f
      → IsFree f s.process
      → Returns (λ r. Answer p f s r.0) (create_dom_with p place load_elf_code (some f) none s)
  create_dom-Answer f s r free =
      let (a, e, o) =
        Returns-done (Outcome IsLoaded f s.process) (load_elf_code f s.process)
          (load_elf_code-Outcome f s.process r free) in
      rw e (answer f s free a e o)
