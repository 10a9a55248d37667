-- ===== src/User/Regions/Window.antt =====
-- libcapstone.c, `map_region`: the mapping shows the region that was asked for, and nothing else.
use caplifive_buildroot.Base.{
  ℕ, ◌+◌, ◌-◌, ◌/◌, ◌%◌, ◌^◌, ◌≤◌, ◌<◌, ◌≡◌, ◌⊎◌, refl, inl, inr, Bool, true, false, done, Option,
  get_or, none, some, Returns, Returns-chain, Returns-mono, Option-cases, ◌>>=◌, arith, ltb, ◌==◌,
  if◌then◌else◌, Bool-cases,
}
use native.Mathlib.Decide.{dec_lt}
use caplifive_buildroot.Base.Words.{page_size, add64}
use caplifive_buildroot.Kernel.Table.{Driver, entry, map_size_limit, max_region_n}
use caplifive_buildroot.Kernel.Table.Layout.{IsValid, IsMappable}
use caplifive_buildroot.Kernel.Mmap.{Vma, Mapping, einval, remap, vm_offset, vm_size, device_mmap}
use caplifive_buildroot.Kernel.Mmap.Window.{device_mmap-Mapped}
use caplifive_buildroot.Kernel.Mmap.Search.{mapped, refused, Within, Mapped}
use caplifive_buildroot.User.Regions.{
  Known, Pointer, null, map_failed, window, page_align, pointer_of, learn, shown, mmap, shown,
  map_region,
}
use caplifive_buildroot.User.Regions.Learn.{Knows, Learnt, learn-Learnt}

-- The largest user address space of a 64-bit RISC-V Linux
abbrev pub task_size : ℕ
task_size = 2 ^ 56

-- What `map_region` may return for `len` bytes of a region, and when.
pub data Served {W : Type 0} (d : Driver W) (id len at : ℕ) : Pointer → Type 0 where
  absent : (k : ℕ) → k ≤ id → (k < d.region_n → (entry d k).len ≡ 0) → Served d id len at null
  too_large : id < d.region_n → ¬ IsMappable (entry d id) → Served d id len at null
  too_long :
      id < d.region_n
      → (page_align len ≡ 0) ⊎ ((entry d id).len < page_align len)
      → Served d id len at map_failed
  shows :
      {pfn : ℕ}
      → id < d.region_n
      → IsMappable (entry d id)
      → page_align len ≤ (entry d id).len
      → pfn ≡ (entry d id).base_paddr % 2 ^ 64 / page_size
      → Served d id len at (window at pfn (page_align len))

module _ {W : Type 0} (d : Driver W) (v : IsValid d) (id len at : ℕ)
    (fits : at + page_align len ≤ task_size) (here : id < d.region_n)
    (some_len : 0 < (entry d id).len) (small : IsMappable (entry d id))
    (some_bytes : 0 < page_align len) where
  abbrev vma : Vma
  vma = record {
    vm_start = at;
    vm_end = at + page_align len;
    vm_pgoff = (entry d id).mmap_offset / page_size;
  }

  vm_offset-vma : vm_offset vma ≡ (entry d id).mmap_offset
  vm_offset-vma = omega (arith, v.pages id here, v.below id here small, v.small, v.count)

  vm_size-vma : vm_size vma ≡ page_align len
  vm_size-vma = omega (arith, fits)

  -- A region whose window holds the start of the region's window is that region.
  same_region : (i : ℕ) → i < d.region_n → Within (entry d i) vma → i ≡ id
  same_region i lt w = elim (dec_lt i id) [
    | yes before ↦
        absurd
          (omega (arith, v.apart i id before here w.mappable, w.to, vm_offset-vma, vm_size-vma))
    | no not_before ↦ elim (dec_lt id i) [
      | yes behind ↦ absurd (omega (arith, v.apart id i behind lt small, w.from, vm_offset-vma))
      | no not_behind ↦ omega arith
    ]
  ]

  whole : page_align len ≤ (entry d id).len → Within (entry d id) vma
  whole le = record {
    mappable = small;
    from = omega (arith, vm_offset-vma);
    to = omega (arith, vm_offset-vma, vm_size-vma);
  }

  Served-window :
      (pfn : ℕ)
      → Within (entry d id) vma
      → pfn ≡ add64 (entry d id).base_paddr (vm_offset vma - (entry d id).mmap_offset) / page_size
      → Served d id len at (window at pfn (vm_size vma))
  Served-window pfn w e = rw vm_size-vma (
      shows here small (omega (arith, w.to, vm_offset-vma, vm_size-vma))
        (omega (arith, e, vm_offset-vma)))

  served : (m : Mapping) → Mapped d vma m → Served d id len at (pointer_of m)
  served einval (refused out) = too_long here (elim (dec_lt (entry d id).len (page_align len)) [
    | yes long ↦ inr long
    | no short ↦ absurd (out id here (whole (omega arith)))
  ])
  served (remap start pfn size) (mapped i lt w e) =
      let same : i ≡ id = same_region i lt w in Served-window pfn (rw same at w) (rw same at e)

  shown-Served :
      (place : ℕ → Option ℕ)
      → place (page_align len) ≡ some at
      → Returns (Served d id len at) (mmap place len (entry d id).mmap_offset d)
  unfolding mmap
  shown-Served place e =
      let whole_pages : ((entry d id).mmap_offset % page_size == 0) ≡ true =
        ground (arith, v.pages id here) in
      let some_pages : (page_align len == 0) ≡ false = ground arith in
      rw (whole_pages, some_pages, e)
        (Returns-chain (Mapped d vma) (Served d id len at) (device_mmap vma d)
          (λ m. done (pointer_of m))
          (device_mmap-Mapped d vma v
            (omega (arith, vm_offset-vma, vm_size-vma, v.below id here small, v.small, v.count)))
          served)

module _ {W : Type 0} (place : ℕ → Option ℕ) (d : Driver W) (v : IsValid d) (id len at : ℕ)
    (fits : at + page_align len ≤ task_size) (placed : place (page_align len) ≡ some at) where
  mmap_none : (offset : ℕ) → page_align len ≡ 0 → mmap place len offset d ≡ done map_failed
  unfolding mmap
  mmap_none offset e = elim (Bool-cases (offset % page_size == 0)) [
    | inl whole ↦ let nothing : (page_align len == 0) ≡ true = ground arith in rw (whole, nothing)
    | inr part ↦ rw part
  ]

  -- After the loop, for a region that it went past.
  shown_known :
      (k : Known)
      → id < k.region_n
      → Knows d k
      → Returns (Served d id len at) (shown place id len d k)
  shown_known k lt h =
      let inside : ltb id max_region_n ≡ true = ground (arith, h.few, v.count) in
      elim (Bool-cases (ltb (entry d id).len map_size_limit)) [
        | inr large ↦
            rw (inside, h.mappable id lt, large) (too_large (omega (arith, h.few)) (ground arith))
        | inl small ↦
            rw (inside, h.mappable id lt, small, h.offsets id lt)
              (elim (dec_lt 0 (page_align len)) [
                | yes bytes ↦
                    shown-Served d v id len at fits (omega (arith, h.few)) (h.filled id lt)
                      (ground arith) bytes place placed
                | no nothing ↦
                    rw (mmap_none (entry d id).mmap_offset (omega arith))
                      (too_long (omega (arith, h.few)) (inl (omega arith)))
              ])
      ]

  -- On a valid table, with what the library keeps in agreement with it, `map_region` returns: NULL
  -- if the region, or one before it, is missing or empty, or if the region is too large to be
  -- mapped; MAP_FAILED only if the length is 0, or longer than the region when rounded up to pages;
  -- and otherwise the mapping of the rounded length that shows the region from its base on. What
  -- the library keeps still agrees with the table.
  pub map_region-Served :
      (k : Known)
      → Knows d k
      → Returns (λ r. Served d id len at r.0 × Knows d r.1) (map_region place id len d k)
  unfolding map_region
  map_region-Served k h =
      Returns-chain (Learnt d v id) (λ (r : Pointer × Known). Served d id len at r.0 × Knows d r.1)
        (learn (max_region_n + 1) id d k) _
        (learn-Learnt d v (max_region_n + 1) id k (omega (arith, v.count)) h) after
    where
      after :
          (r : Bool × Known)
          → Learnt d v id r
          → Returns {A = Pointer × Known}
              (λ (q : Pointer × Known). Served d id len at q.0 × Knows d q.1)
              ((if r.0 then shown place id len d r.1 else done null) >>= λ a. done (a, r.1))
      after (true, k') l =
          Returns-chain (Served d id len at)
            (λ (q : Pointer × Known). Served d id len at q.0 × Knows d q.1)
            (shown place id len d k') _ (shown_known k' (l.1 refl) l.0) (λ a s. (s, l.0))
      after (false, k') l = (absent k'.region_n (l.2 refl).0 (l.2 refl).1, l.0)

module _ {W : Type 0} (place : ℕ → Option ℕ) (d : Driver W) (v : IsValid d) (id len : ℕ) where
  mmap_unplaced :
      (offset : ℕ) → place (page_align len) ≡ none → mmap place len offset d ≡ done map_failed
  unfolding mmap
  mmap_unplaced offset e = elim (Bool-cases (offset % page_size == 0)) [
    | inr part ↦ rw part
    | inl whole ↦ elim (Bool-cases (page_align len == 0)) [
      | inl nothing ↦ rw (whole, nothing)
      | inr bytes ↦ rw (whole, bytes, e)
    ]
  ]

  unplaced :
      (r : Bool × Known)
      → Learnt d v id r
      → place (page_align len) ≡ none
      → Returns {A = Pointer × Known}
          (λ q. Knows d q.1)
          ((if r.0 then shown place id len d r.1 else done null) >>= λ a. done (a, r.1))
  unplaced (false, k') l e = l.0
  unplaced (true, k') l e =
      let inside : ltb id max_region_n ≡ true = ground (arith, l.1 refl, l.0.few, v.count) in
      elim (Bool-cases (get_or k'.region_mmappable id false)) [
        | inl small ↦ rw (inside, small, mmap_unplaced (get_or k'.region_mmap_offsets id 0) e) l.0
        | inr large ↦ rw (inside, large) l.0
      ]

  -- Wherever the kernel puts the mapping, and if it has no room for it, `map_region` returns, and
  -- what the library keeps still agrees with the table.
  pub map_region-Knows :
      (k : Known)
      → ((n a : ℕ) → place n ≡ some a → a + n ≤ task_size)
      → Knows d k
      → Returns (λ r. Knows d r.1) (map_region place id len d k)
  unfolding map_region
  map_region-Knows k room h = elim (Option-cases (place (page_align len))) [
    | inr (at, e) ↦
        Returns-mono (λ (r : Pointer × Known). Served d id len at r.0 × Knows d r.1)
          (λ (r : Pointer × Known). Knows d r.1) (λ r s. s.1) (map_region place id len d k)
          (map_region-Served place d v id len at (room (page_align len) at e) e k h)
    | inl e ↦
        Returns-chain (Learnt d v id) (λ (r : Pointer × Known). Knows d r.1)
          (learn (max_region_n + 1) id d k) _
          (learn-Learnt d v (max_region_n + 1) id k (omega (arith, v.count)) h)
          (λ r l. unplaced r l e)
  ]
