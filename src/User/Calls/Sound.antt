-- ===== src/User/Calls/Sound.antt =====
-- libcapstone.c: whatever a program calls, the module and the library agree on the regions.
use caplifive_buildroot.Base.{ℕ, Option, none, some, List, [], ◌∷◌}
use caplifive_buildroot.Kernel.Sbi.{Platform}
use caplifive_buildroot.Kernel.Table.Growth.{Firmware}
use caplifive_buildroot.Kernel.Ioctl.{Ioctl}
use caplifive_buildroot.Kernel.Ioctl.Safety.{Loadable, IsSound}
use caplifive_buildroot.User.Regions.Learn.{Knows}
use caplifive_buildroot.User.File.{File}
use caplifive_buildroot.User.Elf.Parsed.{IsReadable, IsReadableKo}
use caplifive_buildroot.User.Calls.Closes.{PagesFor}
use caplifive_buildroot.User.Calls.{Session, Call}

-- The files of a call, if it has any, can be read to the end.
abbrev pub Every : (File → Type 0) → Option File → Type 0
Every P none = Unit {0}
Every P (some f) = P f

abbrev pub CanRead : Call → Type 0
CanRead (Call.create_dom c s) = Every IsReadable c × Every IsReadable s
CanRead (Call.create_dom_ko c s) = Every IsReadable c × Every IsReadableKo s
CanRead c = Unit {0}

-- Memory for the code of an S mode
abbrev pub CanLoad : {W : Type 0} → Platform W → Call → Type 0
CanLoad p (Call.create_dom c s) = PagesFor p s
CanLoad p (Call.create_dom_ko c s) = PagesFor p s
CanLoad p (Call.other c) = Loadable p c
CanLoad p c = Unit {0}

abbrev pub AllCan : {W : Type 0} → Platform W → List Call → Type 0
AllCan p [] = Unit {0}
AllCan p (c ∷ cs) = CanRead c × CanLoad p c × AllCan p cs

module _ {W : Type 0} (p : Platform W) (f : Firmware p) (place : ℕ → Option ℕ) where
  -- The module's state is sound, and what the library keeps agrees with it.
  abbrev pub Agrees : Session W → Type 0
  Agrees s = IsSound p f s.driver × Knows s.driver s.known
