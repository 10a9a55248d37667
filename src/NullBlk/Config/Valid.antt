-- ===== src/NullBlk/Config/Valid.antt =====
-- null_blk.c, `null_validate_conf` and `nullb_update_nr_hw_queues`: what a configuration is
-- afterwards.
use caplifive_buildroot.Base.{
  ℕ, ◌+◌, ◌*◌, ◌%◌, ◌^◌, ◌≤◌, ◌<◌, ◌≡◌, refl, ◌⊎◌, inl, inr, arith, min, Bool, true, false, ◌||◌,
  ltb, ◌==◌, if◌then◌else◌, Bool-cases,
}
use caplifive_buildroot.NullBlk.Config.{
  Status, ok, Host, Device, null_q_bio, null_q_mq, null_irq_timer, valid_blocksize,
  valid_submit_queues, valid_poll_queues, valid_cache_size, valid_mbps, valid_device,
  null_validate_conf, nullb_update_nr_hw_queues,
}

-- The numbers of queues that the driver has room for.
pub record HasQueues (h : Host) (d : Device) : Type 0 where
  pub some_submit : 0 < d.submit_queues
  pub submit : d.submit_queues ≤ h.nr_cpu_ids
  pub poll : d.poll_queues ≤ h.g_poll_queues

-- A configuration with which a device can be made.
pub record IsConfigured (h : Host) (d : Device) : Type 0 where
  pub sectors : d.blocksize % 512 ≡ 0
  pub least : 512 ≤ d.blocksize
  pub most : d.blocksize ≤ 4096
  pub queues : HasQueues h d
  pub mode : d.queue_mode ≤ null_q_mq
  pub irq : d.irqmode ≤ null_irq_timer
  pub blocks : d.memory_backed ≡ true → d.blocking ≡ true
  pub cache : d.memory_backed ≡ false → d.cache_size ≡ 0
  pub cache_fits : d.cache_size * 1024 * 1024 < 2 ^ 64
  pub rate : d.mbps ≤ 40960
  pub unlimited : d.queue_mode ≡ null_q_bio → d.mbps ≡ 0

pub blocksize-valid :
    (b : ℕ) → (valid_blocksize b % 512 ≡ 0) × (512 ≤ valid_blocksize b) × (valid_blocksize b ≤ 4096)
unfolding valid_blocksize
blocksize-valid b = ground arith

submit-valid :
    (h : Host) (d : Device)
    → 0 < h.nr_online_nodes
    → h.nr_online_nodes ≤ h.nr_cpu_ids
    → (0 < valid_submit_queues h d) × (valid_submit_queues h d ≤ h.nr_cpu_ids)
unfolding valid_submit_queues
submit-valid h d some fits = ground arith

-- Whatever the configuration was, `null_validate_conf` leaves one with which a device can be made,
-- on a machine with at least one node and no more nodes than processors; and what it returns says
-- whether the size of a zone is a power of two, where the device has zones.
pub validate-IsConfigured :
    (h : Host) (d : Device)
    → 0 < h.nr_online_nodes
    → h.nr_online_nodes ≤ h.nr_cpu_ids
    → IsConfigured h (null_validate_conf h d).1
      × ((null_validate_conf h d).0 ≡ ok
          → d.zoned ≡ true
          → (0 < d.zone_size) × (h.is_power_of_2 d.zone_size ≡ true))
unfolding null_validate_conf valid_device
validate-IsConfigured h d some fits =
    let b = blocksize-valid d.blocksize in
    let s = submit-valid h d some fits in
    (
      record {
        sectors = b.0;
        least = b.1;
        most = b.2;
        queues = record { some_submit = s.0; submit = s.1; poll = ground arith };
        mode = omega arith;
        irq = omega arith;
        blocks = λ e. rw e;
        cache = λ e. rw e (omega arith);
        cache_fits = ground arith;
        rate = ground arith;
        unlimited = λ e. ground arith;
      },
      λ e z. ground arith,
    )

blocksize_again : (b : ℕ) → valid_blocksize (valid_blocksize b) ≡ valid_blocksize b
unfolding valid_blocksize
blocksize_again b = ground arith

submit_again :
    (h : Host) (d : Device)
    → 0 < h.nr_online_nodes
    → 0 < h.nr_cpu_ids
    → d.queue_mode ≤ null_q_mq
    → valid_submit_queues h (valid_device h d) ≡ valid_submit_queues h d
unfolding valid_submit_queues valid_device
submit_again h d some cpus mode = ground arith

-- A second validation changes nothing, if the queue mode was one of the three.
pub validate_again :
    (h : Host) (d : Device)
    → 0 < h.nr_online_nodes
    → 0 < h.nr_cpu_ids
    → d.queue_mode ≤ null_q_mq
    → null_validate_conf h (null_validate_conf h d).1 ≡ null_validate_conf h d
unfolding null_validate_conf valid_device
validate_again h d some cpus mode =
    let b = blocksize_again d.blocksize in
    let s = submit_again h d some cpus mode in
    let p : valid_poll_queues h (valid_device h d) ≡ valid_poll_queues h d =
      unfold valid_device in ground arith in
    let c : valid_cache_size (valid_device h d) ≡ valid_cache_size d =
      unfold valid_device in ground arith in
    let r : valid_mbps (valid_device h d) ≡ valid_mbps d = unfold valid_device in ground arith in
    let m : min (min d.queue_mode null_q_mq) null_q_mq ≡ min d.queue_mode null_q_mq = omega arith in
    let i : min (min d.irqmode null_irq_timer) null_irq_timer ≡ min d.irqmode null_irq_timer =
      omega arith in
    let l : (if d.memory_backed then true else if d.memory_backed then true else d.blocking)
        ≡ (if d.memory_backed then true else d.blocking) =
      ground arith in
    rw (b, s, p, c, r, m, i, l)

-- The new numbers hold, or the old ones.
abbrev pub Took : ℕ → ℕ → Device → Status × Device → Type 0
Took submit poll d r =
    ((r.0 ≡ ok) × (r.1.submit_queues ≡ submit) × (r.1.poll_queues ≡ poll))
    ⊎ ((r.1.submit_queues ≡ d.submit_queues) × (r.1.poll_queues ≡ d.poll_queues))

-- Changing the numbers of queues of a device keeps them within what the driver has room for, and
-- either the new numbers hold, or the old ones.
pub update-HasQueues :
    (h : Host) (has_nullb : Bool) (updated : ℕ → ℕ) (submit poll : ℕ) (d : Device)
    → HasQueues h d
    → HasQueues h (nullb_update_nr_hw_queues h has_nullb updated submit poll d).1
      × Took submit poll d (nullb_update_nr_hw_queues h has_nullb updated submit poll d)
unfolding nullb_update_nr_hw_queues
update-HasQueues h has_nullb updated submit poll d q = elim (Bool-cases has_nullb) [
  | inr down ↦ rw down (q, inr (refl, refl))
  | inl up ↦ elim (Bool-cases (submit == 0)) [
    | inl none ↦ rw (up, none) (q, inr (refl, refl))
    | inr some ↦ elim (Bool-cases (ltb h.nr_cpu_ids submit || ltb h.g_poll_queues poll)) [
      | inl many ↦ rw (up, some, many) (q, inr (refl, refl))
      | inr fits ↦
          elim (Bool-cases (updated ((submit + poll) % 2 ^ 32) == (submit + poll) % 2 ^ 32)) [
            | inl done ↦
                rw (up, some, fits, done)
                  (
                    record {
                      some_submit = ground arith;
                      submit = ground arith;
                      poll = ground arith;
                    },
                    inl (refl, refl, refl),
                  )
            | inr failed ↦
                rw (up, some, fits, failed)
                  (
                    record { some_submit = q.some_submit; submit = q.submit; poll = q.poll },
                    inr (refl, refl),
                  )
          ]
    ]
  ]
]
