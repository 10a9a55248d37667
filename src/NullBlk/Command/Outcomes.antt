-- ===== src/NullBlk/Command/Outcomes.antt =====
-- null_blk.c, `null_handle_cmd`: a flush.
use caplifive_buildroot.Base.{
  ℕ, ◌+◌, ◌*◌, ◌^◌, ◌<◌, ◌≡◌, refl, Bool, true, ◌==◌, if◌then◌else◌, Run, Returns, Returns-done,
}
use caplifive_buildroot.NullBlk.Config.{null_q_mq}
use caplifive_buildroot.NullBlk.Store.{Nullb}
use caplifive_buildroot.NullBlk.Store.Block.{Sectors}
use caplifive_buildroot.NullBlk.Cache.Space.Search.{IsGang}
use caplifive_buildroot.NullBlk.Cache.Space.Ends.{Calm, left}
use caplifive_buildroot.NullBlk.Cache.Space.Drain.{limit, Drained, null_handle_flush-Drained}
use caplifive_buildroot.NullBlk.Tags.{blk_sts_ok}
use caplifive_buildroot.NullBlk.Throttle.{Meter, null_handle_throttled}
use caplifive_buildroot.NullBlk.Request.{Request, Kernel, Io}
use caplifive_buildroot.NullBlk.Command.{Handled, null_handle_cmd}

-- What the throttle says of a request
abbrev pub charged : (ℕ → ℕ) → Bool → ℕ → Io → Meter → Bool × Meter
charged timer throttled bytes io t =
    if throttled
    then null_handle_throttled timer (io.queue_mode == null_q_mq) bytes t
    else (true, t)

module _ (k : Kernel) (rounds calls region_n : ℕ) (zoned_cmd : ℕ → Request → Io → Run (ℕ × Io))
    (timer : ℕ → ℕ) (throttled : Bool) (bytes : ℕ) where
  abbrev handled : ℕ → Request → ℕ → Io → Meter → Run Handled
  handled op r error io t =
      null_handle_cmd k rounds calls region_n timer zoned_cmd throttled bytes op r error io t

  -- A flush command that the throttle lets through, on a device with a cache that no other thread
  -- uses: it ends with status OK, nothing is cached afterwards, and every aligned block reads as it
  -- did.
  pub flush-Drained :
      (op error n q : ℕ) (r : Request) (io : Io) (t : Meter)
      → (op == k.req_op_flush) ≡ true
      → (charged timer throttled bytes io t).0 ≡ true
      → IsGang n k.gang_lookup
      → Sectors q
      → Calm n q io.nullb
      → io.nullb.disk.cache_active ≡ true
      → 0 < io.nullb.cache_size
      → limit io.nullb + io.nullb.disk.curr_cache < 2 ^ 64
      → 2 * left n io.nullb + 1 < rounds
      → left n io.nullb < calls
      → Returns
          (λ h. (h.accepted ≡ true) × (h.error ≡ blk_sts_ok) × Drained q io.nullb h.io.nullb)
          (handled op r error io t)
  unfolding null_handle_cmd
  flush-Drained op error n q r io t flush passes gang size calm active some_size fits fuel more =
      let drained : Bool × Nullb → Type 0 = λ f. (f.0 ≡ true) × Drained q io.nullb f.1 in
      let (f, run, (ok, d)) = Returns-done drained _ (
        null_handle_flush-Drained k.alloc_pages k.gang_lookup n q rounds calls io.nullb gang size
          calm active some_size fits fuel more) in
      simp (passes, flush, run, ok) (refl, refl, d)
