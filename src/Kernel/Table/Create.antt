-- ===== src/Kernel/Table/Create.antt =====
-- capstone.c, `ioctl_create_region` and `ioctl_region_query`: the order of the allocation, the
-- table afterwards, and what a query returns for the new region.
use native.Mathlib.Decide.{dec_lt}
use caplifive_buildroot.Base.{
  ℕ, ◌+◌, ◌-◌, ◌*◌, ◌/◌, ◌^◌, ◌≤◌, ◌<◌, ◌≡◌, refl, ap, true, false, ◌≢◌, inl, inr, done, Returns,
  Returns-mono, Returns-chain, arith, ltb, ◌==◌, Bool-cases,
}
use caplifive_buildroot.Base.Words.{page_size, sign_extend, ilog2, ilog2_bounds}
use caplifive_buildroot.Kernel.Sbi.{Platform, region_create}
use caplifive_buildroot.Kernel.Table.{
  Driver, entry, append_region, appended, max_region_n, probe_regions, record_region, pages_of,
  order_of, CreateArgs, QueryArgs, ioctl_create_region, ioctl_region_query,
}
use caplifive_buildroot.Kernel.Table.Layout.{
  IsValid, appended-IsValid, entry-appended_old, entry-appended_last,
}
use caplifive_buildroot.Kernel.Table.Fill.{probe_regions-Extends}
use caplifive_buildroot.Kernel.Table.Growth.{Firmware, IsSynced, Extends, world-IsValid}

order_above_fits :
    (size last x : ℕ)
    → 0 < size
    → size < 2 ^ 64
    → last ≡ (size - 1) / page_size
    → (2 ^ x ≤ last) × (last < 2 ^ (x + 1))
    → (size ≤ 2 ^ (x + 1) * page_size) × (0 < x + 1 → 2 ^ (x + 1 - 1) * page_size < size)
order_above_fits size last x h k e b =
    let same : 2 ^ (x + 1 - 1) ≡ 2 ^ x = ap (λ t. 2 ^ t) (omega arith) in
    (omega (arith, b.1), λ _. rw same (omega (arith, b.0)))

-- The allocation of `2 ^ order` pages holds the region, and half of it would not: for every
-- length above 0, the pages cover it, and an order above 0 is the least that does.
pub order_fits :
    (size : ℕ)
    → 0 < size
    → size < 2 ^ 64
    → (size ≤ 2 ^ order_of (pages_of size) * page_size)
      × (0 < order_of (pages_of size) → 2 ^ (order_of (pages_of size) - 1) * page_size < size)
unfolding order_of
order_fits size h k = elim (Bool-cases (pages_of size == 1)) [
  | inl one ↦ rw one (ground arith, λ absent. absurd (omega arith))
  | inr more ↦ rw more (
      order_above_fits size (pages_of size - 1) (ilog2 (pages_of size - 1)) h k (ground arith)
        (ilog2_bounds (pages_of size - 1) (ground arith) (ground arith)))
]

-- `d'` is a valid table in which all that was in use in `d` is as it was.
pub record Grows {W : Type 0} (d d' : Driver W) : Type 0 where
  pub valid : IsValid d'
  pub more : d.region_n ≤ d'.region_n
  pub kept : (i : ℕ) → i < d.region_n → entry d' i ≡ entry d i

Grows-refl : {W : Type 0} (d : Driver W) → IsValid d → Grows d d
Grows-refl d v = record { valid = v; more = omega arith; kept = λ i lt. refl }

appended-Grows :
    {W : Type 0} (at size : ℕ) (d : Driver W)
    → IsValid d
    → d.region_n < 64
    → Grows d (appended d.region_n at size d)
appended-Grows at size d v room = record {
  valid = appended-IsValid d.region_n at size d v room refl;
  more = omega arith;
  kept = entry-appended_old d.region_n at size d v room;
}

module _ {W : Type 0} (p : Platform W) where
  record_region_old :
      (id at size : ℕ) (d : Driver W)
      → id < d.region_n
      → d.region_n ≤ 64
      → record_region p id at size d ≡ done d
  unfolding record_region
  record_region_old id at size d h k = ground arith

  record_region_next :
      (at size : ℕ) (d : Driver W)
      → d.region_n < 64
      → record_region p d.region_n at size d ≡ done (appended d.region_n at size d)
  unfolding record_region append_region
  record_region_next at size d k = ground arith

  record_region_ahead :
      (id at size : ℕ) (d : Driver W)
      → d.region_n < id
      → d.region_n ≤ 64
      → record_region p id at size d ≡ probe_regions p d
  unfolding record_region
  record_region_ahead id at size d h k = ground arith

  module _ (f : Firmware p) where
    record_region-Grows :
        (id at len : ℕ) (d : Driver W)
        → id < f.count d.world
        → IsValid d
        → IsSynced f d
        → Returns (λ d'. Grows d d' × IsSynced f d') (record_region p id at len d)
    record_region-Grows id at len d made v s = elim (dec_lt id d.region_n) [
      | yes old ↦ rw (record_region_old id at len d old v.count) (Grows-refl d v, s)
      | no not_old ↦ elim (dec_lt d.region_n id) [
        | yes ahead ↦ rw (record_region_ahead id at len d ahead v.count) (
            Returns-mono
              (λ d'.
                Extends (f.base d.world) (f.size d.world) (f.count d.world) d d' × IsSynced f d')
              (λ d'. Grows d d' × IsSynced f d')
              (λ d' x. (
                record { valid = x.0.valid; more = omega (arith, x.0.count, s); kept = x.0.kept },
                x.1,
              ))
              (probe_regions p d) (probe_regions-Extends p f d v s))
        | no same ↦
            let e : id ≡ d.region_n = omega arith in
            rw (e, record_region_next at len d (omega (arith, f.capped d.world)))
              (appended-Grows at len d v (omega (arith, f.capped d.world)), omega arith)
      ]
    ]

    -- Whatever identifier the firmware gives, the call returns, the table stays valid and no
    -- larger than the firmware's, and all regions in use before stay as they were.
    pub create_region-Grows :
        (args : CreateArgs) (d : Driver W)
        → IsValid d
        → IsSynced f d
        → Returns (λ r. Grows d r.1 × IsSynced f r.1) (ioctl_create_region p args d)
    unfolding ioctl_create_region
    create_region-Grows args d v s = elim (Bool-cases (vaddr == 0)) [
      | inl failed ↦ rw failed (
        record { valid = world-IsValid d w v; more = omega arith; kept = λ i lt. refl },
        omega (arith, s, f.allocates order d.world),
      )
      | inr fine ↦ rw fine (
          Returns-chain (λ d'. Grows (record d { world = w' }) d' × IsSynced f d')
            (λ r. Grows d r.1 × IsSynced f r.1)
            (record_region p id (p.pa vaddr) args.len (record d { world = w' }))
            (λ d'. done (record args { region_id = id }, d'))
            (record_region-Grows id (p.pa vaddr) args.len (record d { world = w' })
              (f.made (p.pa vaddr) args.len w) (world-IsValid d w' v)
              (omega (
                arith,
                s,
                f.allocates order d.world,
                f.grows (region_create (p.pa vaddr) args.len) w,
              )))
            (λ d' g. (record { valid = g.0.valid; more = g.0.more; kept = g.0.kept }, g.1)))
    ]
      where
        order : ℕ
        order = order_of (pages_of args.len)

        got : ℕ × W
        got = p.get_free_pages order d.world

        vaddr : ℕ
        vaddr = got.0

        w : W
        w = got.1

        made : ℕ × W
        made = p.sbi (region_create (p.pa vaddr) args.len) w

        id : ℕ
        id = made.0

        w' : W
        w' = made.1

  -- The world once memory is there and the firmware has made the region.
  after_create : CreateArgs → Driver W → ℕ × W
  after_create args d =
      let (vaddr, w) = p.get_free_pages (order_of (pages_of args.len)) d.world in
      (p.pa vaddr, (p.sbi (region_create (p.pa vaddr) args.len) w).1)

  -- The identifier that the firmware gives it.
  abbrev pub given_id : CreateArgs → Driver W → ℕ
  given_id args d =
      let (vaddr, w) = p.get_free_pages (order_of (pages_of args.len)) d.world in
      (p.sbi (region_create (p.pa vaddr) args.len) w).0

  create_region_next :
      (args : CreateArgs) (d : Driver W)
      → d.region_n < max_region_n
      → (p.get_free_pages (order_of (pages_of args.len)) d.world).0 ≢ 0
      → given_id args d ≡ d.region_n
      → ioctl_create_region p args d
        ≡ done (
          record args { region_id = d.region_n },
          appended d.region_n
              (after_create args d).0
              args.len
              (record d { world = (after_create args d).1 }),
        )
  unfolding ioctl_create_region after_create
  create_region_next args d room mem next =
      let (vaddr, w) = p.get_free_pages (order_of (pages_of args.len)) d.world in
      let there : (vaddr == 0) ≡ false = ground arith in
      let d' = record d { world = (p.sbi (region_create (p.pa vaddr) args.len) w).1 } in
      rw (there, next, record_region_next (p.pa vaddr) args.len d' room)

  -- After a region has been created in order, which is when memory is there and the firmware
  -- numbers it `region_n`, a query by the identifier returned gives its length and its window.
  pub query-create_region :
      (args : CreateArgs) (d : Driver W) (q : QueryArgs)
      → IsValid d
      → d.region_n < max_region_n
      → (p.get_free_pages (order_of (pages_of args.len)) d.world).0 ≢ 0
      → given_id args d ≡ d.region_n
      → Returns
          (λ r.
            ioctl_region_query (record q { region_id = r.0.region_id }) r.1
            ≡ done (record {
              region_id = d.region_n;
              mmap_offset = d.pre_mmap_offset;
              len = args.len;
            }))
          (ioctl_create_region p args d)
  unfolding ioctl_region_query
  query-create_region args d q v room mem next =
      let (at, w) = after_create args d in
      let d' = record d { world = w } in
      let found : ltb d.region_n (sign_extend (appended d.region_n at args.len d').region_n)
          ≡ true =
        ground arith in
      let inside : ltb d.region_n max_region_n ≡ true = ground arith in
      rw (create_region_next args d room mem next) (
        rw (found, inside)
          (rw (entry-appended_last d.region_n at args.len d' (world-IsValid d w v) room)))
