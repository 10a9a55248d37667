-- ===== src/NullBlk/Command.antt =====
-- capstone_split/module/null_blk.c: a command, from the function that handles it to its end.
pub mod Outcomes
pub mod Submit
mod Tests
use caplifive_buildroot.Base.{
  ℕ, ◌+◌, ◌*◌, ◌%◌, ◌^◌, Bool, true, false, not, ◌&&◌, ◌==◌, if◌then◌else◌, Option, none, some,
  List, Run, done, fault, ◌>>=◌,
}
use caplifive_buildroot.NullBlk.Config.{null_q_bio, null_q_mq, null_irq_timer}
use caplifive_buildroot.NullBlk.Split.{Call, Answer, shared_call}
use caplifive_buildroot.NullBlk.Store.{Disk}
use caplifive_buildroot.NullBlk.Cache.Space.{null_handle_flush}
use caplifive_buildroot.NullBlk.Tags.{Cmd, Queue, blk_sts_ok, alloc_cmd, free_cmd}
use caplifive_buildroot.NullBlk.Throttle.{Meter, null_handle_throttled}
use caplifive_buildroot.NullBlk.Request.{Errno, Request, Kernel, Io, domain_op, null_process_cmd}

-- NULL_IRQ_NONE and NULL_IRQ_SOFTIRQ
abbrev pub null_irq_none : ℕ
null_irq_none = 0

abbrev pub null_irq_softirq : ℕ
null_irq_softirq = 1

-- What `nullb_complete_cmd` leaves of a command: it is ended at once, or later by
-- `null_complete_rq` or `null_cmd_timer_expired`; or never, in a mode that there is not, and when
-- the block layer fakes a timeout.
pub data Completion : Type 0 where
  ended : Completion
  at_block_layer : Completion
  at_timer : Completion
  never : Completion

-- Without CONFIG_KMSAN
unfoldable pub nullb_complete_cmd : (fake_timeout : Bool) → (irqmode queue_mode : ℕ) → Completion
nullb_complete_cmd fake_timeout irqmode queue_mode =
    if irqmode == null_irq_softirq
    then if queue_mode == null_q_mq
      then if fake_timeout then never else at_block_layer
      else if queue_mode == null_q_bio
      then ended
      else never
    else if irqmode == null_irq_none
    then ended
    else if irqmode == null_irq_timer
    then at_timer
    else never

-- `end_cmd`: the status that the block layer gets, and whether the command's tag is put back. In
-- the bio-based mode the domain computes the status.
abbrev pub answered_status : Answer × ℕ → Run ℕ
answered_status (Answer.validated s d, region_n) = fault
answered_status (Answer.queue i, region_n) = fault
answered_status (Answer.op o, region_n) = fault
answered_status (Answer.status s, region_n) = done s
answered_status (Answer.refused, region_n) = fault

unfoldable pub end_cmd : (queue_mode region_n error : ℕ) → Run (Option ℕ × Bool)
end_cmd queue_mode region_n error =
    let by_domain =
      shared_call 1 (λ n. false) 0 (Call.end_cmd_bio error) region_n >>= answered_status >>= λ s.
      done (some s, true) in
    if queue_mode == null_q_mq
    then done (some error, false)
    else if queue_mode == null_q_bio
    then by_domain
    else done (none, true)

-- What `null_handle_cmd` leaves: its result, where `false` is BLK_STS_DEV_RESOURCE, and `error` of
-- the command. On `true`, the command has gone to `nullb_complete_cmd`.
pub record Handled : Type 0 where
  pub accepted : Bool
  pub error : ℕ
  pub io : Io
  pub meter : Meter

module _ (k : Kernel) (rounds calls region_n : ℕ) where
  abbrev pub flush_status : Bool → ℕ
  flush_status ok = if ok then blk_sts_ok else k.errno_to_blk_status Errno.enomem

  -- The part of `null_handle_cmd` after the throttle. `zoned_cmd` is `null_process_zoned_cmd`.
  abbrev pub handle_accepted :
      (zoned_cmd : ℕ → Request → Io → Run (ℕ × Io)) → ℕ → Request → ℕ → Io → Meter → Run Handled
  handle_accepted zoned_cmd op r error io t =
      if op == k.req_op_flush
      then (null_handle_flush k.alloc_pages k.gang_lookup rounds calls io.nullb >>= λ f.
          done (record {
            accepted = true;
            error = flush_status f.0;
            io = record io { nullb = f.1 };
            meter = t;
          }))
      else (if io.zoned then zoned_cmd op r io else null_process_cmd k rounds region_n op r io)
        >>= λ p. done (record {
          accepted = true;
          error = if error == blk_sts_ok then p.0 else error;
          io = p.1;
          meter = t;
        })

  -- `null_handle_cmd`, of a command whose `error` is given. `bytes` is `blk_rq_bytes`.
  unfoldable pub null_handle_cmd :
      (timer : ℕ → ℕ)
      → (zoned_cmd : ℕ → Request → Io → Run (ℕ × Io)) → (throttled : Bool) → (bytes : ℕ) → (op : ℕ)
      → Request
      → (error : ℕ) → Io
      → Meter
      → Run Handled
  null_handle_cmd timer zoned_cmd throttled bytes op r error io t =
      let charged =
        if throttled
        then null_handle_throttled timer (io.queue_mode == null_q_mq) bytes t
        else (true, t) in
      if charged.0
      then handle_accepted zoned_cmd op r error io charged.1
      else done (record { accepted = false; error = error; io = io; meter = charged.1 })

-- What `null_submit_bio` leaves: the status with which the bio has ended, if it has, the queue that
-- it went to with its index, and the device. `slept` means that the caller waits for a tag.
pub record Submitted : Type 0 where
  pub slept : Bool
  pub status : Option ℕ
  pub index : ℕ
  pub nq : Queue
  pub io : Io
  pub meter : Meter

abbrev pub answered_queue : Answer × ℕ → Run ℕ
answered_queue (Answer.validated s d, region_n) = fault
answered_queue (Answer.queue i, region_n) = done i
answered_queue (Answer.op o, region_n) = fault
answered_queue (Answer.status s, region_n) = fault
answered_queue (Answer.refused, region_n) = fault

-- A bio's command once it has been handled: `tag` is its tag.
abbrev pub completed_by : (region_n index tag : ℕ) → Queue → Handled → Completion → Run Submitted
completed_by region_n index tag nq h ended = end_cmd h.io.queue_mode region_n h.error >>= λ e.
    done (record {
      slept = false;
      status = e.0;
      index = index;
      nq = if e.1 then free_cmd (record { tag = tag; error = h.error; bio = 0 }) nq else nq;
      io = h.io;
      meter = h.meter;
    })
completed_by region_n index tag nq h at_block_layer =
    done
      (record { slept = false; status = none; index = index; nq = nq; io = h.io; meter = h.meter })
completed_by region_n index tag nq h at_timer =
    done
      (record { slept = false; status = none; index = index; nq = nq; io = h.io; meter = h.meter })
completed_by region_n index tag nq h never =
    done
      (record { slept = false; status = none; index = index; nq = nq; io = h.io; meter = h.meter })

abbrev pub completed : (region_n irqmode index tag : ℕ) → Queue → Handled → Run Submitted
completed region_n irqmode index tag nq h =
    completed_by region_n index tag nq h (nullb_complete_cmd false irqmode h.io.queue_mode)

module _ (k : Kernel) (rounds calls region_n : ℕ) where
  -- A command that the throttle refuses is left as it is: the result of `null_handle_cmd` is ignored.
  abbrev pub submitted : (irqmode index tag : ℕ) → Queue → Handled → Run Submitted
  submitted irqmode index tag nq h =
      if h.accepted
      then completed region_n irqmode index tag nq h
      else done (record {
        slept = false;
        status = none;
        index = index;
        nq = nq;
        io = h.io;
        meter = h.meter;
      })

  -- `null_submit_bio` on the processor `processor`. The domain finds the queue and the operation.
  -- `throttled` is NULLB_DEV_FL_THROTTLED, and `bytes` what `blk_rq_bytes` then says of the command.
  unfoldable pub null_submit_bio :
      (zoned_cmd : ℕ → Request → Io → Run (ℕ × Io))
      → (throttled : Bool) → (timer : ℕ → ℕ) → (bytes processor nr_queues irqmode : ℕ) → (ℕ → Queue)
      → Request
      → Io
      → Meter
      → Run Submitted
  null_submit_bio zoned_cmd throttled timer bytes processor nr_queues irqmode queues r io t =
      shared_call 1 (λ n. false) processor (Call.to_queue nr_queues) region_n
      >>= answered_queue
      >>= λ i. domain_op region_n r.opf >>= λ op. alloc_cmd (λ n bits. bits) 1 0 (queues i) >>= λ a.
          elim a.0 [
            | none ↦
                done
                  (record { slept = true; status = none; index = i; nq = a.1; io = io; meter = t })
            | some tag ↦
                null_handle_cmd k rounds calls region_n timer zoned_cmd throttled bytes op r
                  blk_sts_ok io t
                >>= submitted irqmode i tag a.1
          ]
