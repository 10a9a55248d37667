-- ===== src/NullBlk/Request.antt =====
-- capstone_split/module/null_blk.c: a request, from the function that takes it to its end.
pub mod Segments
pub mod Fetch
pub mod RoundTrip
use caplifive_buildroot.Base.{
  ℕ, zero, suc, ◌+◌, ◌-◌, ◌*◌, ◌/◌, ◌%◌, ◌^◌, Bool, true, false, not, ◌&&◌, ◌||◌, ltb, leb, ◌==◌,
  if◌then◌else◌, Option, none, some, List, [], ◌∷◌, Run, done, fault, ◌>>=◌,
}
use caplifive_buildroot.NullBlk.Config.{null_q_bio}
use caplifive_buildroot.NullBlk.Split.{Call, Answer, shared_call}
use caplifive_buildroot.NullBlk.Store.{
  Disk, Nullb, Tree, Page, write_bytes, copy_to_nullb, copy_from_nullb, null_handle_discard,
}
use caplifive_buildroot.NullBlk.Cache.Space.{page_space}
use caplifive_buildroot.NullBlk.Tags.{blk_sts_ok}

-- A struct bio_vec: `bv_len` bytes of the memory, from `at` on.
pub record Segment : Type 0 where
  pub at : ℕ
  pub bv_len : ℕ

-- What the block layer hands over: a struct request, or a struct bio. `opf` has the operation in
-- its low bits; `sector` and `nr_sectors` are what `blk_rq_pos` and `blk_rq_sectors` give.
pub record Request : Type 0 where
  pub opf : ℕ
  pub sector : ℕ
  pub nr_sectors : ℕ
  pub fua : Bool
  pub segments : List Segment

-- -ENOSPC and -ENOMEM
pub data Errno : Type 0 where
  enospc : Errno
  enomem : Errno

-- What the driver takes from the kernel, and from the zoned devices of another file.
pub record Kernel : Type 0 where
  pub op_is_write : ℕ → Bool
  pub req_op_flush : ℕ
  pub req_op_discard : ℕ
  pub blk_sts_ioerr : ℕ
  pub errno_to_blk_status : Errno → ℕ
  pub alloc_pages : ℕ → ℕ
  pub gang_lookup : Tree → ℕ → List (ℕ × Page)
  pub zone_valid_read_len : ℕ → ℕ → ℕ

-- A device as requests use it. `badblocks` is the table's answer, once bad blocks are enabled.
pub record Io : Type 0 where
  pub queue_mode : ℕ
  pub memory_backed : Bool
  pub zoned : Bool
  pub badblocks : Option (ℕ → ℕ → Bool)
  pub nullb : Nullb
  pub memory : ℕ → ℕ

-- `req_op`, and what `bio_op` says when the domain computes it
abbrev pub req_op : ℕ → ℕ
req_op opf = opf % 2 ^ 8

abbrev pub answered_op : Answer × ℕ → Run ℕ
answered_op (Answer.validated s d, region_n) = fault
answered_op (Answer.queue i, region_n) = fault
answered_op (Answer.op o, region_n) = done o
answered_op (Answer.status s, region_n) = fault
answered_op (Answer.refused, region_n) = fault

unfoldable pub domain_op : ℕ → ℕ → Run ℕ
domain_op region_n opf = shared_call 1 (λ n. false) 0 (Call.bio_op opf) region_n >>= answered_op

abbrev pub with_disk : Disk → Io → Io
with_disk d io = record io { nullb = record io.nullb { disk = d } }

-- `null_handle_badblocks`
abbrev pub is_bad : Option (ℕ → ℕ → Bool) → ℕ → ℕ → Bool
is_bad none sector nr_sectors = false
is_bad (some check) sector nr_sectors = check sector nr_sectors

module _ (k : Kernel) (rounds : ℕ) where
  -- The part of `null_transfer` after the copy, which fills what a zone does not hold.
  abbrev pub fill_pattern : Segment → ℕ → (ℕ → ℕ) → ℕ → ℕ
  fill_pattern s valid_len m =
      if s.bv_len - valid_len == 0
      then m
      else write_bytes m (s.at + valid_len) (s.bv_len - valid_len) (λ j. 255)

  abbrev pub transfer_read : Bool → Segment → ℕ → (ℕ → ℕ) × Nullb → Run (Bool × ((ℕ → ℕ) × Nullb))
  transfer_read zoned s sector (m, u) =
      let valid_len = if zoned then k.zone_valid_read_len sector s.bv_len else s.bv_len in
      let read = copy_from_nullb rounds sector valid_len s.at m u.disk in
      (if valid_len == 0 then done m else read) >>= λ m'.
      done (true, (fill_pattern s valid_len m', u))

  -- `null_transfer`. `false` is -ENOSPC.
  unfoldable pub null_transfer :
      Bool → Segment → Bool → ℕ → Bool → (ℕ → ℕ) × Nullb → Run (Bool × ((ℕ → ℕ) × Nullb))
  null_transfer zoned s is_write sector is_fua (m, u) =
      if is_write
      then (copy_to_nullb k.alloc_pages (page_space k.alloc_pages k.gang_lookup rounds) rounds
            sector is_fua s.bv_len (λ j. m (s.at + j)) u
          >>= λ r. done (r.0, (m, r.1)))
      else transfer_read zoned s sector (m, u)

  -- The loop of `null_handle_rq` and `null_handle_bio`. `ask` is how the operation is found.
  unfoldable pub handle_segments :
      Run ℕ → Bool → List Segment → ℕ → Bool → (ℕ → ℕ) × Nullb → Run (Bool × ((ℕ → ℕ) × Nullb))
  handle_segments ask zoned [] sector is_fua md = done (true, md)
  handle_segments ask zoned (s ∷ ss) sector is_fua md = ask >>= λ op.
      null_transfer zoned s (k.op_is_write op) sector is_fua md >>= λ r.
      let rest = handle_segments ask zoned ss (sector + s.bv_len / 512) is_fua r.1 in
      if r.0 then rest else done r

  abbrev pub null_handle_rq : Bool → Request → (ℕ → ℕ) × Nullb → Run (Bool × ((ℕ → ℕ) × Nullb))
  null_handle_rq zoned r = handle_segments (done (req_op r.opf)) zoned r.segments r.sector r.fua

  abbrev pub null_handle_bio : Bool → ℕ → Request → (ℕ → ℕ) × Nullb → Run (Bool × ((ℕ → ℕ) × Nullb))
  null_handle_bio zoned region_n r =
      handle_segments (domain_op region_n r.opf) zoned r.segments r.sector r.fua

  abbrev pub transferred : Io → Bool × ((ℕ → ℕ) × Nullb) → ℕ × Io
  transferred io (ok, (m, u)) = (
    if ok then blk_sts_ok else k.errno_to_blk_status Errno.enospc,
    record io { nullb = u; memory = m },
  )

  unfoldable pub null_handle_memory_backed : (region_n op : ℕ) → Request → Io → Run (ℕ × Io)
  null_handle_memory_backed region_n op r io =
      if op == k.req_op_discard
      then (null_handle_discard rounds r.sector (r.nr_sectors * 512 % 2 ^ 64) io.nullb.disk >>= λ d.
          done (blk_sts_ok, with_disk d io))
      else (if io.queue_mode == null_q_bio
          then null_handle_bio io.zoned region_n r (io.memory, io.nullb)
          else null_handle_rq io.zoned r (io.memory, io.nullb))
        >>= λ t. done (transferred io t)

  -- The number of sectors is an unsigned int here.
  unfoldable pub null_process_cmd : (region_n op : ℕ) → Request → Io → Run (ℕ × Io)
  null_process_cmd region_n op r io =
      let nr_sectors = r.nr_sectors % 2 ^ 32 in
      if is_bad io.badblocks r.sector nr_sectors
      then done (k.blk_sts_ioerr, io)
      else if io.memory_backed
      then null_handle_memory_backed region_n op (record r { nr_sectors = nr_sectors }) io
      else done (blk_sts_ok, io)
