-- ===== src/Kernel/Tests.antt =====
-- capstone.c: the calls on a small firmware, and each result on a state of the module.
use caplifive_buildroot.Base.{
  ℕ, ◌+◌, ◌%◌, ◌^◌, ◌≤◌, ◌<◌, ◌≡◌, refl, ap, List, [], ◌∷◌, ◌++◌, length, length-append, get_or,
  get_or-append_left, done, fault, Returns, arith, ◌==◌, if◌then◌else◌, min,
}
use caplifive_buildroot.Base.Words.{page_size}
use caplifive_buildroot.Kernel.Sbi.{Sbi, Platform, field_base}
use caplifive_buildroot.Kernel.Table.{
  Driver, RegionInfo, init, entry, appended, CreateArgs, probe_regions, ioctl_create_region,
  ioctl_region_query,
}
use caplifive_buildroot.Kernel.Table.Layout.{IsValid, appended-IsValid}
use caplifive_buildroot.Kernel.Table.Overflow.{probe_regions_overflow}
use caplifive_buildroot.Kernel.Table.Fill.{probe_regions-Extends}
use caplifive_buildroot.Kernel.Table.Growth.{Firmware, IsSynced, Extends}
use caplifive_buildroot.Kernel.Table.Create.{query-create_region}
use caplifive_buildroot.Kernel.Mmap.{Vma, device_mmap}
use caplifive_buildroot.Kernel.Mmap.Window.{device_mmap-Mapped, Shows, device_mmap-Shows}
use caplifive_buildroot.Kernel.Mmap.Search.{Mapped}
use caplifive_buildroot.Kernel.Ioctl.{Ioctl}
use caplifive_buildroot.Kernel.Ioctl.Safety.{init-IsSound}

-- A firmware that keeps the base and the length of each region, of the first 64 that it is asked
-- for, and reports them.
abbrev pub Regions : Type 0
Regions = List (ℕ × ℕ)

abbrev pub region_of : Regions → ℕ → ℕ × ℕ
region_of w i = get_or w i (0, 0)

abbrev pub example_sbi : Sbi → Regions → ℕ × Regions
example_sbi (Sbi.region_create base len) w = (min (length w) 63, w ++ (base, len) ∷ [])
example_sbi (Sbi.region_query region field) w =
    (if field == field_base then (region_of w region).0 else (region_of w region).1, w)
example_sbi Sbi.region_count w = (min (length w) 64, w)
example_sbi c w = (0, w)

abbrev pub example_platform : Platform Regions
example_platform = record {
  sbi = example_sbi;
  get_free_pages = λ order w. (0x90000000, w);
  pa = λ v. v;
  copy_from_user = λ to from n w. w;
  clear = λ at n w. w;
}

-- A call leaves all regions as they are, and may put one behind them.
pub data Next (w : Regions) : Regions → Type 0 where
  same : Next w w
  one_more : (r : ℕ × ℕ) → Next w (w ++ r ∷ [])

pub example_sbi-Next : (c : Sbi) (w : Regions) → Next w (example_sbi c w).1
example_sbi-Next (Sbi.dom_create b c t e) w = same
example_sbi-Next (Sbi.dom_call d) w = same
example_sbi-Next (Sbi.dom_call_with_cap d b s e) w = same
example_sbi-Next (Sbi.region_create b l) w = one_more (b, l)
example_sbi-Next (Sbi.region_share d r) w = same
example_sbi-Next (Sbi.region_query r f) w = same
example_sbi-Next (Sbi.dom_schedule d) w = same
example_sbi-Next Sbi.region_count w = same
example_sbi-Next (Sbi.region_share_annotated d r p v) w = same
example_sbi-Next (Sbi.region_revoke r) w = same

pub Next-grows : (w w' : Regions) → Next w w' → min (length w) 64 ≤ min (length w') 64
Next-grows w _ same = omega arith
Next-grows w _ (one_more r) = omega (arith, length-append w (r ∷ []))

pub Next-kept :
    (w w' : Regions) (i : ℕ) → Next w w' → i < min (length w) 64 → region_of w' i ≡ region_of w i
Next-kept w _ i same lt = refl
Next-kept w _ i (one_more r) lt = get_or-append_left w (r ∷ []) i (0, 0) (omega arith)

abbrev pub example_firmware : Firmware example_platform
example_firmware = record {
  count = λ w. min (length w) 64;
  base = λ w i. (region_of w i).0;
  size = λ w i. (region_of w i).1;
  capped = λ w. omega arith;
  told = λ w. refl;
  grows = λ c w. Next-grows w _ (example_sbi-Next c w);
  made = λ at len w. omega (arith, length-append w ((at, len) ∷ []));
  base_of = λ i w. refl;
  size_of = λ i w. refl;
  base_kept = λ c w i lt. ap (λ r. r.0) (Next-kept w _ i (example_sbi-Next c w) lt);
  size_kept = λ c w i lt. ap (λ r. r.1) (Next-kept w _ i (example_sbi-Next c w) lt);
  allocates = λ order w. omega arith;
  copies = λ to from n w. omega arith;
  clears = λ at n w. omega arith;
}

abbrev pub three : Regions
three = (0x80000000, 0x2000) ∷ (0x80010000, 0x2000) ∷ (0x80020000, 0x2000) ∷ []

-- The module once it knows one region of two pages, on a firmware with three.
abbrev pub one_region : Driver Regions
one_region = appended 0 0x80000000 0x2000 (init three)

pub one_region-IsValid : IsValid one_region
one_region-IsValid =
    appended-IsValid 0 0x80000000 0x2000 (init three)
      (init-IsSound example_platform example_firmware three).0 (unfold init in omega arith)
      (unfold init in refl)

pub one_region-IsSynced : IsSynced example_firmware one_region
unfolding init
one_region-IsSynced = omega arith

-- The only index in use is 0.
first_entry :
    (P : RegionInfo → Type 0)
    → P (entry one_region 0)
    → (i : ℕ) → i < one_region.region_n
    → P (entry one_region i)
unfolding init
first_entry P h i lt = let e : i ≡ 0 = omega arith in rw e h

abbrev one_window : Vma
one_window = record { vm_start = 0x10000; vm_end = 0x11000; vm_pgoff = 1 }

abbrev create_args : CreateArgs
create_args = record { len = 0x3000; region_id = 0; mmap_offset = 0 }

device_mmap-Mapped_example :
    Returns (Mapped one_region one_window) (device_mmap one_window one_region)
device_mmap-Mapped_example =
    device_mmap-Mapped one_region one_window one_region-IsValid (omega arith)

device_mmap-Shows_example :
    Returns (Shows one_region one_window) (device_mmap one_window one_region)
unfolding init
device_mmap-Shows_example =
    device_mmap-Shows one_region one_window one_region-IsValid
      (first_entry (λ r. r.base_paddr % page_size ≡ 0) refl)
      (first_entry (λ r. r.base_paddr + r.len ≤ 2 ^ 64) (omega arith)) (omega arith)

probe_regions-Extends_example :
    Returns
      (λ d'.
        Extends (example_firmware.base three) (example_firmware.size three) 3 one_region d'
        × IsSynced example_firmware d')
      (probe_regions example_platform one_region)
unfolding init
probe_regions-Extends_example =
    probe_regions-Extends example_platform example_firmware one_region one_region-IsValid
      one_region-IsSynced

query-create_region_example :
    Returns
      (λ r.
        ioctl_region_query (record { region_id = r.0.region_id; mmap_offset = 0; len = 0 }) r.1
        ≡ done (record { region_id = 0; mmap_offset = 0; len = 0x3000 }))
      (ioctl_create_region example_platform create_args (init []))
unfolding init
query-create_region_example =
    query-create_region example_platform create_args (init [])
      (record { region_id = 0; mmap_offset = 0; len = 0 })
      (init-IsSound example_platform example_firmware []).0 (omega arith)
      (λ e. absurd (omega (arith, e))) refl

-- A firmware with more regions than the table has entries.
abbrev crowded_platform : Platform ℕ
crowded_platform = record {
  sbi = λ c w. (70, w);
  get_free_pages = λ order w. (0, w);
  pa = λ v. v;
  copy_from_user = λ to from n w. w;
  clear = λ at n w. w + at + n;
}

init_zero-IsValid : IsValid {W = ℕ} (init 0)
unfolding init
init_zero-IsValid =
    let v = (init-IsSound example_platform example_firmware []).0 in
    record {
      table = v.table;
      count = v.count;
      small = v.small;
      on_page = v.on_page;
      ids = v.ids;
      pages = v.pages;
      below = v.below;
      apart = v.apart;
    }

probe_regions_overflow_example : probe_regions crowded_platform (init 0) ≡ fault
unfolding init
probe_regions_overflow_example =
    probe_regions_overflow crowded_platform (init 0) init_zero-IsValid (omega arith) (omega arith)
