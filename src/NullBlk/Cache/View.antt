-- ===== src/NullBlk/Cache/View.antt =====
-- null_blk.c: what a reader finds on a device with a cache.
use caplifive_buildroot.Base.{ℕ, ◌≡◌, inl, inr, false, Option, none, some, Option-cases, Bool-cases}
use caplifive_buildroot.NullBlk.Store.{
  Page, Disk, page_of, sector_bit, lookup_in, null_lookup_page, page_bytes,
}
use caplifive_buildroot.NullBlk.Store.Block.{over, reads}

-- Byte `k` of the block at `sector`, as a reader finds it: in the cache, else in the data.
abbrev pub cached_reads : Disk → ℕ → ℕ → ℕ
cached_reads d sector k = page_bytes d sector (null_lookup_page d sector false false) k

abbrev pub over_page : Option Page → ℕ → ℕ → ℕ → ℕ
over_page none i k below = below
over_page (some c) i k below = over c i k below

data_found :
    (d : Disk) (sector k : ℕ)
    → page_bytes d sector (lookup_in d sector false false) k ≡ reads d sector k
data_found d sector k = elim (Option-cases (d.data_tree (page_of sector))) [
  | inl absent ↦ rw absent
  | inr (p, there) ↦ elim (Bool-cases (p.bitmap (sector_bit sector))) [
    | inl set ↦ rw (there, set, there)
    | inr clear ↦ rw (there, clear)
  ]
]

abbrev pub shown : Disk → ℕ → ℕ → ℕ
shown d sector k =
    over_page (d.cache_tree (page_of sector)) (sector_bit sector) k (reads d sector k)

pub cached_reads-over : (d : Disk) (sector k : ℕ) → cached_reads d sector k ≡ shown d sector k
unfolding null_lookup_page
cached_reads-over d sector k = elim (Option-cases (d.cache_tree (page_of sector))) [
  | inl absent ↦ rw absent (data_found d sector k)
  | inr (c, there) ↦ elim (Bool-cases (c.bitmap (sector_bit sector))) [
    | inl set ↦ rw (there, set, there)
    | inr clear ↦ rw (there, clear) (data_found d sector k)
  ]
]
