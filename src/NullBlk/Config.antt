-- ===== src/NullBlk/Config.antt =====
-- null_blk.c, `null_validate_conf` and `nullb_update_nr_hw_queues`: the configuration of a device.
pub mod Valid
use caplifive_buildroot.Base.{
  ℕ, ◌+◌, ◌-◌, ◌*◌, ◌/◌, ◌%◌, ◌^◌, min, Bool, true, false, not, ◌&&◌, ◌||◌, ltb, ◌==◌,
  if◌then◌else◌,
}

-- What the functions return: 0, -EINVAL or -ENOMEM
pub data Status : Type 0 where
  ok : Status
  einval : Status
  enomem : Status

-- What the kernel and the module's parameters give: `nr_online_nodes`, `nr_cpu_ids`,
-- `g_poll_queues`, and the kernel's `is_power_of_2`.
pub record Host : Type 0 where
  pub nr_online_nodes : ℕ
  pub nr_cpu_ids : ℕ
  pub g_poll_queues : ℕ
  pub is_power_of_2 : ℕ → Bool

-- The fields of struct nullb_device that these functions read or write.
pub record Device : Type 0 where
  pub blocksize : ℕ
  pub queue_mode : ℕ
  pub use_per_node_hctx : Bool
  pub submit_queues : ℕ
  pub prev_submit_queues : ℕ
  pub poll_queues : ℕ
  pub prev_poll_queues : ℕ
  pub irqmode : ℕ
  pub memory_backed : Bool
  pub blocking : Bool
  pub cache_size : ℕ
  pub mbps : ℕ
  pub zoned : Bool
  pub zone_size : ℕ

-- NULL_Q_BIO, NULL_Q_MQ and NULL_IRQ_TIMER
abbrev pub null_q_bio : ℕ
null_q_bio = 0

abbrev pub null_q_mq : ℕ
null_q_mq = 2

abbrev pub null_irq_timer : ℕ
null_irq_timer = 2

-- `clamp_t(unsigned int, v, low, high)`
abbrev pub clamp : ℕ → ℕ → ℕ → ℕ
clamp v low high = if ltb v low then low else if ltb high v then high else v

-- The block size: `round_down(blocksize, 512)`, then the clamp.
unfoldable pub valid_blocksize : ℕ → ℕ
valid_blocksize blocksize = clamp (blocksize / 512 * 512) 512 4096

unfoldable pub valid_submit_queues : Host → Device → ℕ
valid_submit_queues h d =
    if (d.queue_mode == null_q_mq) && d.use_per_node_hctx
    then h.nr_online_nodes
    else if ltb h.nr_cpu_ids d.submit_queues
    then h.nr_cpu_ids
    else if d.submit_queues == 0
    then 1
    else d.submit_queues

abbrev pub valid_poll_queues : Host → Device → ℕ
valid_poll_queues h d = if ltb h.g_poll_queues d.poll_queues then h.g_poll_queues else d.poll_queues

abbrev pub valid_cache_size : Device → ℕ
valid_cache_size d = min ((2 ^ 64 - 1) / 1024 / 1024) (if d.memory_backed then d.cache_size else 0)

abbrev pub valid_mbps : Device → ℕ
valid_mbps d = if min d.queue_mode null_q_mq == null_q_bio then 0 else min (1024 * 40) d.mbps

-- All the assignments of `null_validate_conf`. Each reads only fields that it has not yet changed,
-- except those that the code changes in two steps.
unfoldable pub valid_device : Host → Device → Device
valid_device h d = record d {
  blocksize = valid_blocksize d.blocksize;
  submit_queues = valid_submit_queues h d;
  prev_submit_queues = valid_submit_queues h d;
  poll_queues = valid_poll_queues h d;
  prev_poll_queues = valid_poll_queues h d;
  queue_mode = min d.queue_mode null_q_mq;
  irqmode = min d.irqmode null_irq_timer;
  blocking = if d.memory_backed then true else d.blocking;
  cache_size = valid_cache_size d;
  mbps = valid_mbps d;
}

unfoldable pub null_validate_conf : Host → Device → Status × Device
null_validate_conf h d = (
  if d.zoned && ((d.zone_size == 0) || not (h.is_power_of_2 d.zone_size)) then einval else ok,
  valid_device h d,
)

-- `has_nullb` says that `dev->nullb` is not NULL, and `updated n` is the number of hardware
-- queues once `blk_mq_update_nr_hw_queues` has been asked for `n`.
pub nullb_update_nr_hw_queues :
    Host
    → (has_nullb : Bool) → (updated : ℕ → ℕ) → (submit_queues poll_queues : ℕ) → Device
    → Status × Device
nullb_update_nr_hw_queues h has_nullb updated submit poll d =
    let nr_hw_queues = (submit + poll) % 2 ^ 32 in
    let asked = record d {
      prev_submit_queues = d.submit_queues;
      prev_poll_queues = d.poll_queues;
      submit_queues = submit;
      poll_queues = poll;
    } in
    if not has_nullb
    then (ok, d)
    else if submit == 0
    then (einval, d)
    else if ltb h.nr_cpu_ids submit || ltb h.g_poll_queues poll
    then (einval, d)
    else if updated nr_hw_queues == nr_hw_queues
    then (ok, asked)
    else (
      enomem,
      record asked {
        submit_queues = asked.prev_submit_queues;
        poll_queues = asked.prev_poll_queues;
      },
    )

abbrev pub nullb_apply_submit_queues : Host → Bool → (ℕ → ℕ) → ℕ → Device → Status × Device
nullb_apply_submit_queues h has_nullb updated submit d =
    nullb_update_nr_hw_queues h has_nullb updated submit d.poll_queues d

abbrev pub nullb_apply_poll_queues : Host → Bool → (ℕ → ℕ) → ℕ → Device → Status × Device
nullb_apply_poll_queues h has_nullb updated poll d =
    nullb_update_nr_hw_queues h has_nullb updated d.submit_queues poll d
