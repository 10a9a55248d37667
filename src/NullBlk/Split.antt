-- ===== src/NullBlk/Split.antt =====
-- capstone_split/sdom/nullb_split.smode.c: the domain that runs four functions of the driver, and
-- the same functions of capstone_split/module/null_blk.c.
pub mod Agreement
use caplifive_buildroot.Base.{
  ℕ, ◌+◌, ◌-◌, ◌*◌, ◌/◌, ◌%◌, ◌^◌, min, Bool, true, false, not, ◌&&◌, ◌||◌, ltb, ◌==◌,
  if◌then◌else◌, Run, done, fault, ◌>>=◌,
}
use caplifive_buildroot.NullBlk.Config.{
  Status, ok, einval, Host, Device, null_q_bio, null_q_mq, null_irq_timer, clamp,
}

-- `qemu_nr_cpu_ids` and the domain's own `g_poll_queues`
abbrev pub qemu_nr_cpu_ids : ℕ
qemu_nr_cpu_ids = 1

abbrev pub split_poll_queues : ℕ
split_poll_queues = 1

-- The assignments of `nullbs_null_validate_conf`, in their order.
pub assign_blocksize : Device → Device
assign_blocksize d =
    let down = record d { blocksize = d.blocksize / 512 * 512 } in
    record down { blocksize = clamp down.blocksize 512 4096 }

pub assign_submit_queues : ℕ → Device → Device
assign_submit_queues nr_online_nodes d =
    if (d.queue_mode == null_q_mq) && d.use_per_node_hctx
    then if not (d.submit_queues == nr_online_nodes)
      then record d { submit_queues = nr_online_nodes }
      else d
    else if ltb qemu_nr_cpu_ids d.submit_queues
    then record d { submit_queues = qemu_nr_cpu_ids }
    else if d.submit_queues == 0
    then record d { submit_queues = 1 }
    else d

pub assign_poll_queues : Device → Device
assign_poll_queues d =
    let kept = record d { prev_submit_queues = d.submit_queues } in
    let fewer =
      if ltb split_poll_queues kept.poll_queues
      then record kept { poll_queues = split_poll_queues }
      else kept in
    record fewer { prev_poll_queues = fewer.poll_queues }

pub assign_modes : Device → Device
assign_modes d =
    let mode = record d { queue_mode = min d.queue_mode null_q_mq } in
    record mode { irqmode = min mode.irqmode null_irq_timer }

pub assign_cache : Device → Device
assign_cache d =
    let backed =
      if d.memory_backed then record d { blocking = true } else record d { cache_size = 0 } in
    record backed { cache_size = min ((2 ^ 64 - 1) / 1024 / 1024) backed.cache_size }

pub assign_mbps : Device → Device
assign_mbps d =
    let rate = record d { mbps = min (1024 * 40) d.mbps } in
    if rate.queue_mode == null_q_bio then record rate { mbps = 0 } else rate

-- What the domain finds behind the region that it only reads.
pub data Call : Type 0 where
  validate_conf : Device → Call
  to_queue : (nr_queues : ℕ) → Call
  bio_op : (bi_opf : ℕ) → Call
  end_cmd_bio : (error : ℕ) → Call
  unknown : (function_code : ℕ) → Call

-- What it writes behind the other region. A queue is given by its index.
pub data Answer : Type 0 where
  validated : Status → Device → Answer
  queue : ℕ → Answer
  op : ℕ → Answer
  status : ℕ → Answer
  refused : Answer

-- Each function ends with SBI_EXT_CAPSTONE_REGION_POP of the two regions, but for the early return.
-- The number is that of the domain's regions.
pub nullbs_null_validate_conf :
    (nr_online_nodes : ℕ) → (is_power_of_2 : ℕ → Bool) → Device → ℕ → Answer × ℕ
nullbs_null_validate_conf nodes is_power_of_2 d region_n =
    let dev = assign_mbps (
      assign_cache
        (assign_modes (assign_poll_queues (assign_submit_queues nodes (assign_blocksize d))))) in
    if dev.zoned && ((dev.zone_size == 0) || not (is_power_of_2 dev.zone_size))
    then (validated einval dev, region_n)
    else (validated ok dev, region_n - 2)

-- A division of the C program
abbrev pub divide : ℕ → ℕ → Run ℕ
divide a b = if b == 0 then fault else done (a / b)

-- The index that `nullb_to_queue` computes for the processor it runs on.
unfoldable pub queue_index : (processor nr_cpu_ids nr_queues : ℕ) → Run ℕ
queue_index processor cpus nr_queues =
    let index = divide ((cpus + nr_queues + 2 ^ 32 - 1) % 2 ^ 32) nr_queues >>= λ span.
    divide processor span in
    if not (nr_queues == 1) then index else done 0

abbrev pub nullbs_nullb_to_queue : ℕ → ℕ → ℕ → Run (Answer × ℕ)
nullbs_nullb_to_queue processor nr_queues region_n =
    queue_index processor qemu_nr_cpu_ids nr_queues >>= λ i. done (queue i, region_n - 2)

-- `bi_opf & REQ_OP_MASK`, the low 8 bits
abbrev pub nullbs_bio_op : ℕ → ℕ → Answer × ℕ
nullbs_bio_op bi_opf region_n = (op (bi_opf % 2 ^ 8), region_n - 2)

abbrev pub nullbs_end_cmd_bio : ℕ → ℕ → Answer × ℕ
nullbs_end_cmd_bio error region_n = (status error, region_n - 2)

-- One round of the loop of `nullb_split_init`. On an unknown code the two regions stay.
unfoldable pub split_round :
    (nodes : ℕ) → (ℕ → Bool) → (processor : ℕ) → Call → ℕ → Run (Answer × ℕ)
split_round nodes is_power_of_2 processor (validate_conf d) region_n =
    done (nullbs_null_validate_conf nodes is_power_of_2 d region_n)
split_round nodes is_power_of_2 processor (to_queue nr_queues) region_n =
    nullbs_nullb_to_queue processor nr_queues region_n
split_round nodes is_power_of_2 processor (bio_op bi_opf) region_n =
    done (nullbs_bio_op bi_opf region_n)
split_round nodes is_power_of_2 processor (end_cmd_bio error) region_n =
    done (nullbs_end_cmd_bio error region_n)
split_round nodes is_power_of_2 processor (unknown code) region_n = done (refused, region_n)

-- A call as the module makes it: two regions are shared with the domain, then it runs.
abbrev pub shared_call : (nodes : ℕ) → (ℕ → Bool) → (processor : ℕ) → Call → ℕ → Run (Answer × ℕ)
shared_call nodes is_power_of_2 processor c region_n =
    split_round nodes is_power_of_2 processor c (region_n + 2)
