-- ===== src/NullBlk/Request/RoundTrip.antt =====
-- null_blk.c, `null_process_cmd`: a write request and a read request on a device that keeps its
-- data in memory, with no cache.
use caplifive_buildroot.Base.{
  ℕ, ◌+◌, ◌*◌, ◌%◌, ◌^◌, ◌≤◌, ◌<◌, ◌≡◌, refl, sym, ap, ◌∙◌, inl, inr, arith, Bool, Bool-cases, true,
  false, ◌==◌, done,
}
use caplifive_buildroot.NullBlk.Config.{null_q_bio}
use caplifive_buildroot.NullBlk.Split.{split_round}
use caplifive_buildroot.NullBlk.Store.{Disk, Nullb}
use caplifive_buildroot.NullBlk.Store.Block.{Sectors, reads}
use caplifive_buildroot.NullBlk.Store.Copy.{IsPlain, CopiedTo, Sectors-pos}
use caplifive_buildroot.NullBlk.Store.ReadBack.{by_block}
use caplifive_buildroot.NullBlk.Tags.{blk_sts_ok}
use caplifive_buildroot.NullBlk.Request.{
  Request, Kernel, Io, req_op, domain_op, handle_segments, with_disk, transferred, is_bad,
  null_handle_memory_backed, null_process_cmd,
}
use caplifive_buildroot.NullBlk.Request.Segments.{gathered, blocks, Whole, write-CopiedTo}
use caplifive_buildroot.NullBlk.Request.Fetch.{Outside, Apart, Filled, read-Filled}

-- The domain computes what the driver would.
pub domain_op-req_op : (region_n opf : ℕ) → domain_op region_n opf ≡ done (req_op opf)
unfolding domain_op split_round
domain_op-req_op region_n opf = refl

-- A device that keeps its data in memory, with blocks of `q` sectors, no cache and no zones.
pub record IsBacked (q : ℕ) (io : Io) : Type 0 where
  pub backed : io.memory_backed ≡ true
  pub unzoned : io.zoned ≡ false
  pub plain : IsPlain q io.nullb.disk

-- A transfer of whole blocks from the start of a block, with no bad block among them.
pub record IsTransfer (k : Kernel) (q rounds : ℕ) (io : Io) (r : Request) : Type 0 where
  pub good : is_bad io.badblocks r.sector (r.nr_sectors % 2 ^ 32) ≡ false
  pub no_discard : (req_op r.opf == k.req_op_discard) ≡ false
  pub aligned : r.sector % q ≡ 0
  pub whole : Whole rounds q r.segments

module _ (k : Kernel) (q rounds region_n : ℕ) (size : Sectors q) where
  -- Bio-based or not, the segments of the request are transferred.
  process_runs :
      (r : Request) (io : Io) (ok : Bool) (m : ℕ → ℕ) (u : Nullb)
      → IsBacked q io
      → IsTransfer k q rounds io r
      → handle_segments k rounds
          (done (req_op r.opf))
          false
          r.segments
          r.sector
          r.fua
          (io.memory, io.nullb)
        ≡ done (ok, (m, u))
      → null_process_cmd k rounds region_n (req_op r.opf) r io
        ≡ done (transferred k rounds io (ok, (m, u)))
  unfolding null_process_cmd null_handle_memory_backed
  process_runs r io ok m u b t run = elim (Bool-cases (io.queue_mode == null_q_bio)) [
    | inl bio ↦
        simp (t.good, b.backed, b.unzoned, t.no_discard, bio, domain_op-req_op region_n r.opf, run)
    | inr rq ↦ simp (t.good, b.backed, b.unzoned, t.no_discard, rq, run)
  ]

  -- After a write request: the status is OK, and of the device only what the blocks read as has
  -- changed.
  pub process_write :
      (r : Request) (io : Io)
      → IsBacked q io
      → IsTransfer k q rounds io r
      → k.op_is_write (req_op r.opf) ≡ true
      → blocks q r.segments ≤ io.nullb.disk.spare
      → (d : Disk) × (null_process_cmd k rounds region_n (req_op r.opf) r io
          ≡ done (blk_sts_ok, with_disk d io))
        × CopiedTo q r.sector (blocks q r.segments) (gathered r.segments io.memory) io.nullb.disk d
  process_write r io b t write spare =
      let (d, run, c) =
        write-CopiedTo k q rounds size (req_op r.opf) r.sector r.segments false r.fua io.memory
          io.nullb write b.plain t.aligned t.whole spare in
      (d, process_runs r io true io.memory (record io.nullb { disk = d }) b t run, c)

  pub process_read :
      (r : Request) (io : Io)
      → IsBacked q io
      → IsTransfer k q rounds io r
      → k.op_is_write (req_op r.opf) ≡ false
      → Apart r.segments
      → (m : ℕ → ℕ) × (null_process_cmd k rounds region_n (req_op r.opf) r io
          ≡ done (blk_sts_ok, record io { memory = m }))
        × Filled q r.sector r.segments io.memory m io.nullb.disk
  process_read r io b t read apart =
      let (m, run, f) =
        read-Filled k q rounds size io.nullb b.plain (req_op r.opf) r.sector r.segments r.fua
          io.memory read t.aligned t.whole apart in
      (m, process_runs r io true m io.nullb b t run, f)

  -- What a write request has written, a later read request of the same blocks gets, however the two
  -- cut them into segments and whatever has become of the memory; the memory outside the read's
  -- segments is as it was.
  pub read-write :
      (w r : Request) (io : Io) (memory : ℕ → ℕ)
      → IsBacked q io
      → IsTransfer k q rounds io w
      → IsTransfer k q rounds io r
      → k.op_is_write (req_op w.opf) ≡ true
      → k.op_is_write (req_op r.opf) ≡ false
      → Apart r.segments
      → w.sector ≡ r.sector
      → blocks q w.segments ≡ blocks q r.segments
      → blocks q w.segments ≤ io.nullb.disk.spare
      → (d : Disk) × (null_process_cmd k rounds region_n (req_op w.opf) w io
          ≡ done (blk_sts_ok, with_disk d io))
        × (m : ℕ → ℕ) × (null_process_cmd k rounds region_n
              (req_op r.opf)
              r
              (record (with_disk d io) { memory = memory })
            ≡ done (blk_sts_ok, record (with_disk d io) { memory = m }))
        × ((b : ℕ)
            → b < 512 * q * blocks q r.segments
            → gathered r.segments m b ≡ gathered w.segments io.memory b)
        × ((b : ℕ) → Outside b r.segments → m b ≡ memory b)
  read-write w r io memory b tw tr write read apart same_sector same_blocks spare =
      let (d, wrote, c) = process_write w io b tw write spare in
      let io1 = record (with_disk d io) { memory = memory } in
      let b1 : IsBacked q io1 = record {
        backed = b.backed;
        unzoned = b.unzoned;
        plain = c.plain;
      } in
      let t1 : IsTransfer k q rounds io1 r = record {
        good = tr.good;
        no_discard = tr.no_discard;
        aligned = tr.aligned;
        whole = tr.whole;
      } in
      let (m, got, f) = process_read r io1 b1 t1 read apart in
      (
        d,
        wrote,
        m,
        got,
        by_block (λ x. gathered r.segments m x ≡ gathered w.segments io.memory x) (512 * q)
            (blocks q r.segments) (omega (arith, Sectors-pos q size))
            (λ j i lt h.
              f.inside j i lt h
              ∙ ap (λ s. reads d (s + q * j) i) (sym same_sector)
              ∙ c.inside j i (omega (arith, lt, same_blocks)) h),
        f.outside,
      )
