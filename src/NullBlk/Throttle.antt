-- ===== src/NullBlk/Throttle.antt =====
-- capstone_split/module/null_blk.c: the limit on a device's bandwidth.
pub mod Charge
pub mod Limit
pub mod Starve
use caplifive_buildroot.Base.{
  ℕ, ◌+◌, ◌-◌, ◌*◌, ◌/◌, ◌%◌, ◌^◌, Bool, true, false, not, ◌&&◌, ltb, leb, ◌==◌, if◌then◌else◌,
  List, [], ◌∷◌,
}
use caplifive_buildroot.Base.Words.{sub64}

-- `mb_per_tick`, with the 50 of TICKS_PER_SEC
unfoldable pub mb_per_tick : ℕ → ℕ
mb_per_tick mbps = 2 ^ 20 / 50 * mbps

-- `cur_bytes` of struct nullb, a signed number in two's complement, whether `bw_timer` runs, and
-- whether the hardware queues are stopped.
pub record Meter : Type 0 where
  pub cur_bytes : ℕ
  pub bw_timer : Bool
  pub stopped : Bool

abbrev pub negative : ℕ → Bool
negative c = leb (2 ^ 63) c

-- `null_stop_queue` and `null_restart_queue_async`, which do nothing to a bio-based queue
abbrev pub null_stop_queue : Bool → Meter → Meter
null_stop_queue mq t = if mq then record t { stopped = true } else t

abbrev pub null_restart_queue_async : Bool → Meter → Meter
null_restart_queue_async mq t = if mq then record t { stopped = false } else t

-- `null_handle_throttled` of a request of `bytes`. `false` is BLK_STS_DEV_RESOURCE. `timer` is what
-- the timer does to the counter between the subtraction and the second look.
unfoldable pub null_handle_throttled : (timer : ℕ → ℕ) → Bool → ℕ → Meter → Bool × Meter
null_handle_throttled timer mq bytes t =
    let cur = sub64 t.cur_bytes bytes in
    let t' = record t { cur_bytes = cur; bw_timer = true } in
    let now = null_stop_queue mq (record t' { cur_bytes = timer cur }) in
    if negative cur
    then (
      false,
      if ltb 0 now.cur_bytes && not (negative now.cur_bytes)
          then null_restart_queue_async mq now
          else now,
    )
    else (true, t')

-- `nullb_bwtimer_fn`. The timer stops when nothing has been used.
unfoldable pub nullb_bwtimer_fn : Bool → ℕ → Meter → Meter
nullb_bwtimer_fn mq mbps t =
    if t.cur_bytes == mb_per_tick mbps
    then record t { bw_timer = false }
    else null_restart_queue_async mq (record t { cur_bytes = mb_per_tick mbps; bw_timer = true })

-- `nullb_setup_bwtimer`
abbrev pub nullb_setup_bwtimer : ℕ → Meter
nullb_setup_bwtimer mbps = record { cur_bytes = mb_per_tick mbps; bw_timer = true; stopped = false }
