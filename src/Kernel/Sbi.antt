-- ===== src/Kernel/Sbi.antt =====
-- What the kernel module calls and does not implement: the firmware's Capstone extension
-- (package/modcapstone/module/capstone-sbi.h gives its calls), the page allocator, and copies into
-- kernel memory. They act on an abstract world.
use caplifive_buildroot.Base.{ℕ}

-- SBI_EXT_CAPSTONE_*, with the arguments that the module passes.
pub data Sbi : Type 0 where
  dom_create : (base code_size tot_size entry : ℕ) → Sbi
  dom_call : (dom : ℕ) → Sbi
  dom_call_with_cap : (dom base size entry : ℕ) → Sbi
  region_create : (base len : ℕ) → Sbi
  region_share : (dom region : ℕ) → Sbi
  region_query : (region field : ℕ) → Sbi
  dom_schedule : (dom : ℕ) → Sbi
  region_count : Sbi
  region_share_annotated : (dom region perm rev : ℕ) → Sbi
  region_revoke : (region : ℕ) → Sbi

-- CAPSTONE_REGION_FIELD_BASE and CAPSTONE_REGION_FIELD_LEN
abbrev pub field_base : ℕ
field_base = 0

abbrev pub field_len : ℕ
field_len = 2

pub record Platform (W : Type 0) : Type 0 where
  -- `sbi_ecall(…).value`, an unsigned long
  pub sbi : Sbi → W → ℕ × W
  -- `__get_free_pages(GFP_HIGHUSER, order)`: an address, 0 when there is no memory
  pub get_free_pages : ℕ → W → ℕ × W
  -- `__pa`
  pub pa : ℕ → ℕ
  -- `copy_from_user(to, from, n)` into kernel memory
  pub copy_from_user : ℕ → ℕ → ℕ → W → W
  -- `memset(at, 0, n)`
  pub clear : ℕ → ℕ → W → W
