-- ===== src/Kernel/Domain/World.antt =====
-- capstone.c: the calls on domains leave the firmware with all the regions that it had.
use caplifive_buildroot.Base.{
  ℕ, ◌-◌, ◌≤◌, ◌<◌, ◌≡◌, ◌≢◌, false, Returns, Returns-chain, inl, inr, arith, ltb, ◌==◌, Bool-cases,
}
use caplifive_buildroot.Base.Words.{add64}
use caplifive_buildroot.Kernel.Sbi.{
  Platform, Sbi, dom_create, dom_call, dom_call_with_cap, dom_schedule, region_share,
  region_share_annotated, region_revoke,
}
use caplifive_buildroot.Kernel.Table.{pages_of, order_of}
use caplifive_buildroot.Kernel.Table.Growth.{Firmware}
use caplifive_buildroot.Kernel.Domain.{
  DomCreateArgs, DomCallArgs, ShareArgs, ShareAnnotatedArgs, RevokeArgs, dom_order, block_size,
  ioctl_create_dom, load_s_mode, ioctl_call_dom, call_dom, ioctl_revoke_region,
  ioctl_share_region_annotated, ioctl_share_region, share_region, ioctl_schedule_dom,
}

-- A domain with an S mode is made only while there is memory for it.
abbrev pub HasPages : {W : Type 0} → Platform W → DomCreateArgs → Type 0
HasPages {W} p a =
    0 < a.s_load_len → (w : W) → (p.get_free_pages (order_of (pages_of a.s_size)) w).0 ≢ 0

load_s_mode-returns :
    {W : Type 0} (p : Platform W) (a : DomCreateArgs) (w : W)
    → (p.get_free_pages (order_of (pages_of a.s_size)) w).0 ≢ 0
    → Returns (λ w'. Unit {0}) (load_s_mode p a w)
unfolding load_s_mode
load_s_mode-returns p a w some_pages =
    let there : ((p.get_free_pages (order_of (pages_of a.s_size)) w).0 == 0) ≡ false =
      ground (arith, some_pages) in
    elim (Bool-cases (pages_of a.s_size == 0)) [
      | inl none ↦ rw none tt
      | inr some ↦ rw (some, there) tt
    ]

pub create_dom-returns :
    {W : Type 0} (p : Platform W) (a : DomCreateArgs) (w : W)
    → HasPages p a
    → Returns (λ r. Unit {0}) (ioctl_create_dom p a w)
unfolding ioctl_create_dom
create_dom-returns p a w pages = elim (Bool-cases (ltb a.s_size a.s_load_len)) [
  | inl bad ↦ rw bad tt
  | inr good ↦ elim (Bool-cases ((p.get_free_pages (dom_order a.code_len) w).0 == 0)) [
    | inl failed ↦ rw (good, failed) tt
    | inr fine ↦ elim (Bool-cases (ltb 0 a.s_load_len)) [
      | inl s_mode ↦
          rw (good, fine, s_mode)
            (Returns-chain (λ w'. Unit {0}) (λ r. Unit {0}) (load_s_mode p _ _) _
              (load_s_mode-returns p _ _ (pages (ground arith) _)) (λ w' u. tt))
      | inr plain ↦ rw (good, fine, plain) tt
    ]
  ]
]

module _ {W : Type 0} (p : Platform W) (f : Firmware p) (n : ℕ) where
  load_s_mode-grows :
      (a : DomCreateArgs) (w : W)
      → (p.get_free_pages (order_of (pages_of a.s_size)) w).0 ≢ 0
      → n ≤ f.count w
      → Returns (λ w'. n ≤ f.count w') (load_s_mode p a w)
  unfolding load_s_mode
  load_s_mode-grows a w some_pages h =
      let (vaddr, w₁) = p.get_free_pages (order_of (pages_of a.s_size)) w in
      let w₂ = p.copy_from_user vaddr a.s_load_begin a.s_load_len w₁ in
      let w₃ = p.clear (add64 vaddr a.s_load_len) (a.s_size - a.s_load_len) w₂ in
      let alloc = f.allocates (order_of (pages_of a.s_size)) w in
      let there : (vaddr == 0) ≡ false = ground (arith, some_pages) in
      elim (Bool-cases (pages_of a.s_size == 0)) [
        | inl none ↦ rw none (omega (arith, alloc))
        | inr some ↦
            rw (some, there)
              (omega (
                arith,
                alloc,
                f.copies vaddr a.s_load_begin a.s_load_len w₁,
                f.clears (add64 vaddr a.s_load_len) (a.s_size - a.s_load_len) w₂,
                f.grows
                    (dom_call_with_cap a.dom_id (p.pa vaddr) a.s_size
                      (add64 (p.pa vaddr) a.s_entry_offset))
                    w₃,
              ))
      ]

  pub create_dom-grows :
      (a : DomCreateArgs) (w : W)
      → HasPages p a
      → n ≤ f.count w
      → Returns (λ r. n ≤ f.count r.1) (ioctl_create_dom p a w)
  unfolding ioctl_create_dom
  create_dom-grows a w pages h = elim (Bool-cases (ltb a.s_size a.s_load_len)) [
    | inl bad ↦ rw bad h
    | inr good ↦ elim (Bool-cases ((p.get_free_pages order w).0 == 0)) [
      | inl failed ↦ rw (good, failed) (omega (arith, alloc))
      | inr fine ↦ elim (Bool-cases (ltb 0 a.s_load_len)) [
        | inl s_mode ↦
            rw (good, fine, s_mode)
              (Returns-chain (λ w'. n ≤ f.count w') (λ r. n ≤ f.count r.1)
                (load_s_mode p (record a { dom_id = id }) w₃) _
                (load_s_mode-grows (record a { dom_id = id }) w₃ (pages (ground arith) w₃) made)
                (λ w' g. g))
        | inr plain ↦ rw (good, fine, plain) made
      ]
    ]
  ]
    where
      order : ℕ
      order = dom_order a.code_len

      alloc : f.count w ≤ f.count (p.get_free_pages order w).1
      alloc = f.allocates order w

      vaddr : ℕ
      vaddr = (p.get_free_pages order w).0

      w₂ : W
      w₂ = p.copy_from_user vaddr a.code_begin a.code_len (p.get_free_pages order w).1

      create : Sbi
      create = dom_create (p.pa vaddr) a.code_len (block_size order) a.entry_offset

      id : ℕ
      id = (p.sbi create w₂).0

      w₃ : W
      w₃ = (p.sbi create w₂).1

      made : n ≤ f.count w₃
      made = omega (
        arith,
        alloc,
        f.copies vaddr a.code_begin a.code_len (p.get_free_pages order w).1,
        f.grows create w₂,
      )

  pub call_dom-grows :
      (a : DomCallArgs) (w : W) → n ≤ f.count w → n ≤ f.count (ioctl_call_dom p a w).1
  unfolding ioctl_call_dom call_dom
  call_dom-grows a w h = omega (arith, f.grows (dom_call a.dom_id) w)

  pub revoke_region-grows :
      (a : RevokeArgs) (w : W) → n ≤ f.count w → n ≤ f.count (ioctl_revoke_region p a w).1
  unfolding ioctl_revoke_region
  revoke_region-grows a w h = omega (arith, f.grows (region_revoke a.region_id) w)

  pub share_annotated-grows :
      (a : ShareAnnotatedArgs) (w : W)
      → n ≤ f.count w
      → n ≤ f.count (ioctl_share_region_annotated p a w).1
  unfolding ioctl_share_region_annotated
  share_annotated-grows a w h = omega (
    arith,
    f.grows (region_share_annotated a.dom_id a.region_id a.annotation_perm a.annotation_rev) w,
  )

  pub share_region-grows :
      (a : ShareArgs) (w : W) → n ≤ f.count w → n ≤ f.count (ioctl_share_region p a w).1
  unfolding ioctl_share_region share_region
  share_region-grows a w h = omega (arith, f.grows (region_share a.dom_id a.region_id) w)

  pub schedule_dom-grows :
      (dom : ℕ) (w : W) → n ≤ f.count w → n ≤ f.count (ioctl_schedule_dom p dom w)
  unfolding ioctl_schedule_dom
  schedule_dom-grows dom w h = omega (arith, f.grows (dom_schedule dom) w)
