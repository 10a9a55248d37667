-- ===== src/User/Tests.antt =====
-- libcapstone.c: the calls on a small firmware and small files, and each result on a state of the
-- program.
use caplifive_buildroot.Base.{
  ℕ, refl, true, false, Option, none, some, List, [], ◌∷◌, Returns, arith, ltb, leb, if◌then◌else◌,
}
use caplifive_buildroot.Kernel.Ioctl.{Ioctl}
use caplifive_buildroot.Kernel.Tests.{Regions, example_platform, one_region, one_region-IsValid}
use caplifive_buildroot.User.Regions.{nothing_known, map_region}
use caplifive_buildroot.User.Regions.Learn.{Knows, nothing_known-Knows}
use caplifive_buildroot.User.Regions.Window.{Served, map_region-Served}
use caplifive_buildroot.User.Elf.{load_elf_code, first_code, last_load}
use caplifive_buildroot.User.File.{Segment, File, Process}
use caplifive_buildroot.User.Elf.Parsed.{IsReadable, IsFree}
use caplifive_buildroot.User.Elf.Release.{Left, load-release}
use caplifive_buildroot.User.Calls.{Session, Call, create_dom_with}
use caplifive_buildroot.User.Calls.Created.{Answer, create_dom-Answer}

-- A file of three pages with one segment of code of a little more than a page.
abbrev code_segment : Segment
code_segment = record {
  p_type = 1;
  p_flags = 5;
  p_offset = 0x1000;
  p_vaddr = 0x10000;
  p_filesz = 0x1100;
  p_memsz = 0x1200;
}

abbrev data_segment : Segment
data_segment = record {
  p_type = 1;
  p_flags = 6;
  p_offset = 0x2100;
  p_vaddr = 0x12000;
  p_filesz = 0x100;
  p_memsz = 0x400;
}

abbrev example_file : File
example_file = record {
  fd = some 4;
  stat_works = true;
  st_size = 0x2200;
  at = 0x7f0000000;
  e_ident = 0x7f ∷ b'E' ∷ b'L' ∷ b'F' ∷ 2 ∷ [];
  e_machine = 243;
  e_entry = 0x10010;
  phdrs = some (code_segment ∷ data_segment ∷ []);
  shdrs = none;
}

-- The same in another place
abbrev other_file : File
other_file = record example_file { fd = some 5; at = 0x7e0000000 }

abbrev missing_file : File
missing_file = record example_file { fd = none }

abbrev standard_streams : Process
standard_streams = record { fds = λ j. ltb j 4; pages = λ j. false }

example_file-IsReadable : IsReadable example_file
unfolding first_code last_load
example_file-IsReadable = record {
  mapped = omega arith;
  segments = code_segment ∷ data_segment ∷ [];
  table = refl;
  entry_word = omega arith;
  words = λ s e. ground arith;
  ordered = λ s last e e'. ground arith;
}

example_file-IsFree : IsFree example_file standard_streams
example_file-IsFree = record { fd_free = λ fd e. ground arith; pages_free = λ j e. refl }

abbrev example_session : Session Regions
example_session = record { process = standard_streams; known = nothing_known; driver = one_region }

abbrev place_low : ℕ → Option ℕ
place_low n = if leb n 0x100000000 then some 0x10000 else none

map_region-Served_example :
    Returns
      (λ r. Served one_region 0 0x1800 0x10000 r.0 × Knows one_region r.1)
      (map_region place_low 0 0x1800 one_region nothing_known)
map_region-Served_example =
    map_region-Served place_low one_region one_region-IsValid 0 0x1800 0x10000 (omega arith) refl
      nothing_known (nothing_known-Knows one_region)

load-release_example :
    Returns (Left example_file standard_streams) (load_elf_code example_file standard_streams)
load-release_example =
    load-release example_file standard_streams example_file-IsReadable example_file-IsFree

create_dom-Answer_example :
    Returns
      (λ r. Answer example_platform example_file example_session r.0)
      (create_dom_with example_platform place_low load_elf_code
        (some example_file)
        none
        example_session)
create_dom-Answer_example =
    create_dom-Answer example_platform place_low example_file example_session
      example_file-IsReadable example_file-IsFree

abbrev example_calls : List Call
example_calls =
    Call.create_dom (some example_file) none
    ∷ Call.create_region 0x1000
    ∷ Call.map_region 0 0x1000
    ∷ Call.other Ioctl.probe
    ∷ Call.map_region 2 0x1000
    ∷ []
