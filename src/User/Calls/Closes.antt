-- ===== src/User/Calls/Closes.antt =====
-- libcapstone.c, `create_dom` and `create_dom_ko`: the files are closed again, whatever happens.
use caplifive_buildroot.Base.{ℕ, ◌≡◌, ◌≢◌, Option, none, some}
use caplifive_buildroot.Kernel.Sbi.{Platform}
use caplifive_buildroot.User.File.{File, Process, open_fd, map_file}
use caplifive_buildroot.User.Elf.Parsed.{IsReadable, IsFree}

-- The kernel has pages whenever code for the S mode is loaded.
abbrev pub PagesFor : {W : Type 0} → Platform W → Option File → Type 0
PagesFor p none = Unit {0}
PagesFor {W} p (some s) = (order : ℕ) (w : W) → (p.get_free_pages order w).0 ≢ 0

module _ {W : Type 0} (p : Platform W) (place : ℕ → Option ℕ) where
  -- What the two functions need of a path that is not NULL, when it is loaded into a process.
  abbrev pub Openable : Option File → Process → Type 0
  Openable none q = Unit {0}
  Openable (some file) q = IsReadable file × IsFree file q

  -- The path of the S-mode code, behind that of the C-mode code
  abbrev pub OpenableBehind : Option File → Option File → Process → Type 0
  OpenableBehind none s_path q = Unit {0}
  OpenableBehind (some file) none q = Unit {0}
  OpenableBehind (some file) (some s) q =
      IsReadable s
      × ((fd : ℕ) → file.fd ≡ some fd → IsFree s (map_file file.at file.st_size (open_fd fd q)))
