-- ===== src/NullBlk/Command/Submit.antt =====
-- null_blk.c, `null_submit_bio`: a bio that writes, from the domain's choice of a queue to its end.
use caplifive_buildroot.Base.{ℕ, ◌<◌, ◌≡◌, true, false, ◌==◌, some, Run, done, length, set, get_or}
use caplifive_buildroot.NullBlk.Tags.{Queue, blk_sts_ok, take_cmd, alloc_cmd}
use caplifive_buildroot.NullBlk.Throttle.{Meter}
use caplifive_buildroot.NullBlk.Request.{Request, Kernel, Io, null_process_cmd}
use caplifive_buildroot.NullBlk.Command.{null_handle_cmd}

abbrev held : ℕ → ℕ → Queue → Queue
held tag bio nq = take_cmd tag bio (record nq { tag_map = set nq.tag_map tag true })

-- With a clear bit, `alloc_cmd` takes one at once.
abbrev Takes : ℕ → Queue → Type 0
Takes bio nq =
    (tag : ℕ) × (alloc_cmd (λ r b. b) 1 bio nq ≡ done (some tag, held tag bio nq))
    × (tag < length nq.tag_map)
    × (get_or nq.tag_map tag true ≡ false)

module _ (k : Kernel) (rounds calls region_n : ℕ)
    (zoned_cmd : ℕ → Request → Io → Run (ℕ × Io)) where
  -- A command that is not throttled and is no flush has the status of `null_process_cmd`.
  pub handled_as :
      (timer : ℕ → ℕ) (bytes op status : ℕ) (r : Request) (io io' : Io) (t : Meter)
      → (op == k.req_op_flush) ≡ false
      → io.zoned ≡ false
      → null_process_cmd k rounds region_n op r io ≡ done (status, io')
      → null_handle_cmd k rounds calls region_n timer zoned_cmd false bytes op r blk_sts_ok io t
        ≡ done (record { accepted = true; error = status; io = io'; meter = t })
  unfolding null_handle_cmd
  handled_as timer bytes op status r io io' t no_flush unzoned run = simp (no_flush, unzoned, run)
