-- ===== src/NullBlk/Store/Block.antt =====
-- null_blk.c: what a block of a device without a cache reads as, before and after a round of
-- `copy_to_nullb`.
use caplifive_buildroot.Base.{
  ℕ, ◌+◌, ◌-◌, ◌*◌, ◌/◌, ◌%◌, ◌≤◌, ◌<◌, ◌≡◌, refl, ◌≢◌, ◌⊎◌, arith, Bool, true, false,
  if◌then◌else◌, Option, none, some,
}
use caplifive_buildroot.NullBlk.Store.{
  Page, Tree, put, set_bit, Disk, page_of, sector_bit, write_bytes, filled,
}

-- The numbers of sectors in a block that divide the 8 of a page.
pub data Sectors : ℕ → Type 0 where
  one : Sectors 1
  two : Sectors 2
  four : Sectors 4
  eight : Sectors 8

-- Two blocks do not overlap, given the places of their first sectors in a page.
abbrev pub Disjoint : ℕ → ℕ → ℕ → Type 0
Disjoint q i j = (i + q ≤ j) ⊎ (j + q ≤ i)

pub aligned_fits : (q s : ℕ) → Sectors q → s % q ≡ 0 → s % 8 + q ≤ 8
aligned_fits _ s one e = omega arith
aligned_fits _ s two e = omega arith
aligned_fits _ s four e = omega arith
aligned_fits _ s eight e = omega arith

pub aligned-Disjoint :
    (q s t : ℕ)
    → Sectors q
    → s % q ≡ 0
    → t % q ≡ 0
    → s ≢ t
    → s / 8 ≡ t / 8
    → Disjoint q (s % 8) (t % 8)
aligned-Disjoint _ s t one a b ne same = omega arith
aligned-Disjoint _ s t two a b ne same = omega arith
aligned-Disjoint _ s t four a b ne same = omega arith
aligned-Disjoint _ s t eight a b ne same = omega arith

-- What a block reads as, by its page.
abbrev pub reads_page : Option Page → ℕ → ℕ → ℕ
reads_page none i k = 0
reads_page (some p) i k = if p.bitmap i then p.bytes (i * 512 + k) else 0

-- Byte `k` of the block that starts at `sector`
abbrev pub reads : Disk → ℕ → ℕ → ℕ
reads d sector k = reads_page (d.data_tree (page_of sector)) (sector_bit sector) k

-- The page that a write goes to.
abbrev pub base : (ℕ → ℕ) → Option Page → Page
base junk none = record { bytes = junk; bitmap = λ i. false }
base junk (some p) = p

pub reads-base :
    (junk : ℕ → ℕ) (o : Option Page) (i k : ℕ)
    → reads_page (some (base junk o)) i k ≡ reads_page o i k
reads-base junk none i k = refl
reads-base junk (some p) i k = refl

pub set_bit_self : (bits : ℕ → Bool) (i : ℕ) (v : Bool) → set_bit bits i v i ≡ v
set_bit_self bits i v = ground arith

pub set_bit_ne : (bits : ℕ → Bool) (i j : ℕ) (v : Bool) → i ≢ j → set_bit bits i v j ≡ bits j
set_bit_ne bits i j v h = ground arith

pub put_self : (t : Tree) (i : ℕ) (p : Option Page) → put t i p i ≡ p
put_self t i p = ground arith

pub put_ne : (t : Tree) (i j : ℕ) (p : Option Page) → i ≢ j → put t i p j ≡ t j
put_ne t i j p h = ground arith

pub put_twice : (t : Tree) (i j : ℕ) (p q : Option Page) → put (put t i p) i q j ≡ put t i q j
put_twice t i j p q = ground arith

pub write_bytes_inside :
    (bytes : ℕ → ℕ) (offset temp j : ℕ) (source : ℕ → ℕ)
    → offset ≤ j
    → j < offset + temp
    → write_bytes bytes offset temp source j ≡ source (j - offset)
write_bytes_inside bytes offset temp j source h k = ground arith

pub write_bytes_outside :
    (bytes : ℕ → ℕ) (offset temp j : ℕ) (source : ℕ → ℕ)
    → (j < offset) ⊎ (offset + temp ≤ j)
    → write_bytes bytes offset temp source j ≡ bytes j
write_bytes_outside bytes offset temp j source h = ground arith

-- What a page of the cache shows of a block that reads as `below` under it.
abbrev pub over : Page → ℕ → ℕ → ℕ → ℕ
over c_page i k below = if c_page.bitmap i then c_page.bytes (i * 512 + k) else below

-- What a written page shows
pub filled-over :
    (p : Page) (sector temp k below : ℕ) (source : ℕ → ℕ)
    → k < temp
    → over (filled sector temp source p) (sector_bit sector) k below ≡ source k
filled-over p sector temp k below source h =
    let e : sector_bit sector * 512 + k - sector_bit sector * 512 ≡ k = omega arith in
    rw (
      set_bit_self p.bitmap (sector_bit sector) true,
      write_bytes_inside p.bytes (sector_bit sector * 512) temp (sector_bit sector * 512 + k) source
          (omega arith) (omega arith),
      e,
    )

pub filled-over_others :
    (p : Page) (sector q t k below : ℕ) (source : ℕ → ℕ)
    → Disjoint q (sector_bit sector) (sector_bit t)
    → 0 < q
    → k < 512 * q
    → over (filled sector (512 * q) source p) (sector_bit t) k below ≡ over p (sector_bit t) k below
filled-over_others p sector q t k below source apart pos h = rw (
  set_bit_ne p.bitmap (sector_bit sector) (sector_bit t) true (omega arith),
  write_bytes_outside p.bytes (sector_bit sector * 512) (512 * q) (sector_bit t * 512 + k) source
      (omega arith),
)

pub filled-reads :
    (p : Page) (sector temp k : ℕ) (source : ℕ → ℕ)
    → k < temp
    → reads_page (some (filled sector temp source p)) (sector_bit sector) k ≡ source k
filled-reads p sector temp k source h = filled-over p sector temp k 0 source h

pub filled-others :
    (p : Page) (sector q t k : ℕ) (source : ℕ → ℕ)
    → Disjoint q (sector_bit sector) (sector_bit t)
    → 0 < q
    → k < 512 * q
    → reads_page (some (filled sector (512 * q) source p)) (sector_bit t) k
      ≡ reads_page (some p) (sector_bit t) k
filled-others p sector q t k source apart pos h =
    filled-over_others p sector q t k 0 source apart pos h

-- The disk after a write of a block: the page of the block is written, and the rest of the tree is
-- as it was.
pub record Wrote (junk source : ℕ → ℕ) (sector temp : ℕ) (d d' : Disk) : Type 0 where
  pub tree :
      (i : ℕ)
      → d'.data_tree i
        ≡ put d.data_tree
            (page_of sector)
            (some (filled sector temp source (base junk (d.data_tree (page_of sector)))))
            i
  pub uncached : d'.cache_active ≡ false
  pub block : d'.blocksize ≡ d.blocksize
  pub spare : d.spare ≤ d'.spare + 1
