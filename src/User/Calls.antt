-- ===== src/User/Calls.antt =====
-- libcapstone.c: the functions of the library, on the state of the module behind the device.

pub mod Closes
pub mod Created
pub mod Sound
use caplifive_buildroot.Base.{ℕ, ◌-◌, ◌^◌, Option, none, some, List, [], ◌∷◌, Run, done, ◌>>=◌}
use caplifive_buildroot.Base.Words.{sign_extend}
use caplifive_buildroot.Kernel.Sbi.{Platform}
use caplifive_buildroot.Kernel.Table.{Driver, CreateArgs}
use caplifive_buildroot.Kernel.Domain.{
  DomCreateArgs, DomCallArgs, ShareArgs, ShareAnnotatedArgs, RevokeArgs,
}
use caplifive_buildroot.Kernel.Ioctl.{Ioctl, device_ioctl}
use caplifive_buildroot.User.Regions.{Known, Pointer}
use caplifive_buildroot.User.Regions
use caplifive_buildroot.User.Elf.{load_elf_code, load_elf_code_ko, release_elf_code}
use caplifive_buildroot.User.File.{File, Process, ElfCode}

-- The program, and the module whose device it has opened.
pub record Session (W : Type 0) : Type 0 where
  pub process : Process
  pub known : Known
  pub driver : Driver W

-- (unsigned long)-1
abbrev pub minus_one : ℕ
minus_one = 2 ^ 64 - 1

-- The functions of libcapstone.h, with their arguments. A path that is NULL is `none`. `other` is a
-- call of the device by another program.
pub data Call : Type 0 where
  create_dom : (c_path s_path : Option File) → Call
  create_dom_ko : (c_path s_path : Option File) → Call
  call_dom : (dom_id : ℕ) → Call
  create_region : (len : ℕ) → Call
  shared_region_annotated : (dom_id region_id perm rev : ℕ) → Call
  share_region : (dom_id region_id : ℕ) → Call
  revoke_region : (region_id : ℕ) → Call
  map_region : (region_id len : ℕ) → Call
  probe_regions : Call
  region_count : Call
  schedule_dom : (dom_id : ℕ) → Call
  other : Ioctl → Call

pub data Reply : Type 0 where
  nothing : Reply
  value : ℕ → Reply
  pointer : Pointer → Reply

-- The structure that `create_dom_from_elf` passes
abbrev pub dom_args : ElfCode → Option ElfCode → DomCreateArgs
dom_args c none = record {
  code_begin = c.code_start;
  code_len = c.code_len;
  entry_offset = c.entry_offset;
  s_load_begin = 0;
  s_load_len = 0;
  s_entry_offset = 0;
  s_size = 0;
  dom_id = minus_one;
}
dom_args c (some s) = record {
  code_begin = c.code_start;
  code_len = c.code_len;
  entry_offset = c.entry_offset;
  s_load_begin = s.code_start;
  s_load_len = s.code_len;
  s_entry_offset = s.entry_offset;
  s_size = s.loadable_size;
  dom_id = minus_one;
}

-- The identifier in the structure of IOCTL_DOM_CREATE and IOCTL_REGION_CREATE, and the result in
-- that of IOCTL_DOM_CALL, after the call
abbrev pub answer : Ioctl → ℕ
answer (Ioctl.create_dom a) = a.dom_id
answer (Ioctl.create_region a) = a.region_id
answer (Ioctl.call_dom a) = a.retval
answer c = 0

module _ {W : Type 0} (p : Platform W) (place : ℕ → Option ℕ) where
  -- `ioctl(dev_fd, …)`, which the module always answers with 0
  abbrev pub ioctl : Ioctl → Session W → Run (Ioctl × Session W)
  ioctl c s = device_ioctl p c s.driver >>= λ r. done (r.0, record s { driver = r.1 })

  pub create_dom_from_elf : ElfCode → Option ElfCode → Session W → Run (ℕ × Session W)
  create_dom_from_elf c_code s_code s =
      ioctl (Ioctl.create_dom (dom_args c_code s_code)) s >>= λ r. done (answer r.0, r.1)

  abbrev pub released : ElfCode → Session W → Session W
  released c s = record s { process = release_elf_code c s.process }

  -- Behind the loading of the S-mode code
  abbrev pub with_s_code : ElfCode → Session W → Option ElfCode × Process → Run (ℕ × Session W)
  with_s_code c s (none, q) = done (minus_one, released c (record s { process = q }))
  with_s_code c s (some code, q) =
      create_dom_from_elf c (some code) (record s { process = q }) >>= λ r.
      done (r.0, released c (released code r.1))

  -- The two functions differ in the loader of the S-mode code.
  module _ (load_s : File → Process → Run (Option ElfCode × Process)) where
    abbrev pub with_c_code :
        Option File → Session W → Option ElfCode × Process → Run (ℕ × Session W)
    with_c_code s_path s (none, q) = done (1, record s { process = q })
    with_c_code none s (some c, q) =
        create_dom_from_elf c none (record s { process = q }) >>= λ r. done (r.0, released c r.1)
    with_c_code (some file) s (some c, q) = load_s file q >>= with_s_code c s

    abbrev pub create_dom_with : Option File → Option File → Session W → Run (ℕ × Session W)
    create_dom_with none s_path s = done (minus_one, s)
    create_dom_with (some file) s_path s = load_elf_code file s.process >>= with_c_code s_path s

  abbrev pub number : Run (ℕ × Session W) → Run (Reply × Session W)
  number m = m >>= λ r. done (Reply.value r.0, r.1)

  -- A function of the library that makes one call of the device, with a result or without.
  abbrev pub asked : Ioctl → Session W → Run (Reply × Session W)
  asked c s = ioctl c s >>= λ r. done (Reply.value (answer r.0), r.1)

  abbrev pub told : Ioctl → Session W → Run (Reply × Session W)
  told c s = ioctl c s >>= λ r. done (Reply.nothing, r.1)

  pub call : Call → Session W → Run (Reply × Session W)
  call (Call.create_dom c s_path) s = number (create_dom_with load_elf_code c s_path s)
  call (Call.create_dom_ko c s_path) s = number (create_dom_with load_elf_code_ko c s_path s)
  call (Call.call_dom dom) s = asked (Ioctl.call_dom (record { dom_id = dom; retval = 0 })) s
  call (Call.create_region len) s =
      asked (Ioctl.create_region (record { len = len; region_id = minus_one; mmap_offset = 0 })) s
  call (Call.shared_region_annotated dom region perm rev) s =
      told
        (Ioctl.share_annotated (record {
          dom_id = dom;
          region_id = region;
          annotation_perm = perm;
          annotation_rev = rev;
          retval = 0;
        }))
        s
  call (Call.share_region dom region) s =
      told (Ioctl.share_region (record { dom_id = dom; region_id = region; retval = 0 })) s
  call (Call.revoke_region region) s =
      told (Ioctl.revoke_region (record { region_id = region; retval = 0 })) s
  call (Call.map_region region len) s =
      Regions.map_region place region len s.driver s.known >>= λ r.
      done (Reply.pointer r.0, record s { known = r.1 })
  call Call.probe_regions s = told Ioctl.probe s
  call Call.region_count s = done (Reply.value s.known.region_n, s)
  call (Call.schedule_dom dom) s = told (Ioctl.schedule_dom dom) s
  call (Call.other c) s = told c s

  pub calls : List Call → Session W → Run (List Reply × Session W)
  calls [] s = done ([], s)
  calls (c ∷ cs) s = call c s >>= λ r. calls cs r.1 >>= λ rs. done (r.0 ∷ rs.0, rs.1)
