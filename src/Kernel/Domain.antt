-- ===== src/Kernel/Domain.antt =====
-- capstone.c: making, calling and scheduling domains, and sharing and revoking regions. None of
-- these touches the table of regions.
pub mod World
pub mod Creation
use caplifive_buildroot.Base.{
  ℕ, ◌+◌, ◌-◌, ◌*◌, ◌%◌, ◌^◌, ltb, ◌==◌, if◌then◌else◌, Run, done, fault, ◌>>=◌,
}
use caplifive_buildroot.Base.Words.{page_size, add64, sign_extend}
use caplifive_buildroot.Kernel.Table.{pages_of, order_of}
use caplifive_buildroot.Kernel.Sbi.{
  Platform, dom_create, dom_call, dom_call_with_cap, dom_schedule, region_share,
  region_share_annotated, region_revoke,
}

-- DOMAIN_DATA_SIZE
abbrev pub domain_data_size : ℕ
domain_data_size = 4096 * 16

-- struct ioctl_dom_create_args and the arguments of the other calls (include/capstone.h)
pub record DomCreateArgs : Type 0 where
  pub code_begin : ℕ
  pub code_len : ℕ
  pub entry_offset : ℕ
  pub s_load_begin : ℕ
  pub s_load_len : ℕ
  pub s_entry_offset : ℕ
  pub s_size : ℕ
  pub dom_id : ℕ

pub record DomCallArgs : Type 0 where
  pub dom_id : ℕ
  pub retval : ℕ

-- `retval` is an unsigned here.
pub record ShareArgs : Type 0 where
  pub dom_id : ℕ
  pub region_id : ℕ
  pub retval : ℕ

pub record ShareAnnotatedArgs : Type 0 where
  pub dom_id : ℕ
  pub region_id : ℕ
  pub annotation_perm : ℕ
  pub annotation_rev : ℕ
  pub retval : ℕ

pub record RevokeArgs : Type 0 where
  pub region_id : ℕ
  pub retval : ℕ

-- The order of the allocation for a domain of so many bytes of code.
unfoldable pub dom_order : ℕ → ℕ
dom_order code_len = order_of (pages_of (add64 code_len domain_data_size))

-- `(1 << order) * PAGE_SIZE`: the shift is one of an int, of which RISC-V takes five bits.
abbrev pub block_size : ℕ → ℕ
block_size order = sign_extend (2 ^ (order % 32)) * page_size % 2 ^ 64

module _ {W : Type 0} (p : Platform W) where
  -- The part of `ioctl_create_dom` for a domain with an S mode. The source tests the number of
  -- pages where it means the address that it got, so without memory it writes to address 0.
  unfoldable pub load_s_mode : DomCreateArgs → W → Run W
  load_s_mode args w =
      let (vaddr, w') = p.get_free_pages (order_of (pages_of args.s_size)) w in
      if pages_of args.s_size == 0
      then done w'
      else if vaddr == 0
      then fault
      else done
          (p.sbi
            (dom_call_with_cap args.dom_id (p.pa vaddr) args.s_size
              (add64 (p.pa vaddr) args.s_entry_offset))
            (p.clear (add64 vaddr args.s_load_len) (args.s_size - args.s_load_len)
              (p.copy_from_user vaddr args.s_load_begin args.s_load_len w'))).1

  unfoldable pub ioctl_create_dom : DomCreateArgs → W → Run (DomCreateArgs × W)
  ioctl_create_dom args w =
      let order = dom_order args.code_len in
      let (vaddr, w₁) = p.get_free_pages order w in
      let w₂ = p.copy_from_user vaddr args.code_begin args.code_len w₁ in
      let (id, w₃) =
        p.sbi (dom_create (p.pa vaddr) args.code_len (block_size order) args.entry_offset) w₂ in
      let args' = record args { dom_id = id } in
      if ltb args.s_size args.s_load_len
      then done (args, w)
      else if vaddr == 0
      then done (args, w₁)
      else (if ltb 0 args.s_load_len then load_s_mode args' w₃ else done w₃) >>= λ w₄.
          done (args', w₄)

  pub call_dom : ℕ → W → ℕ × W
  call_dom dom w = p.sbi (dom_call dom) w

  pub ioctl_call_dom : DomCallArgs → W → DomCallArgs × W
  ioctl_call_dom args w = let (r, w') = call_dom args.dom_id w in (record args { retval = r }, w')

  pub ioctl_revoke_region : RevokeArgs → W → RevokeArgs × W
  ioctl_revoke_region args w =
      let (r, w') = p.sbi (region_revoke args.region_id) w in
      (record args { retval = r % 2 ^ 32 }, w')

  pub ioctl_share_region_annotated : ShareAnnotatedArgs → W → ShareAnnotatedArgs × W
  ioctl_share_region_annotated args w =
      let (r, w') =
        p.sbi
          (region_share_annotated args.dom_id args.region_id args.annotation_perm
            args.annotation_rev)
          w in
      (record args { retval = r % 2 ^ 32 }, w')

  pub share_region : ℕ → ℕ → W → ℕ × W
  share_region dom region w = p.sbi (region_share dom region) w

  pub ioctl_share_region : ShareArgs → W → ShareArgs × W
  ioctl_share_region args w =
      let (r, w') = share_region args.dom_id args.region_id w in
      (record args { retval = r % 2 ^ 32 }, w')

  pub ioctl_schedule_dom : ℕ → W → W
  ioctl_schedule_dom dom w = (p.sbi (dom_schedule dom) w).1
