-- ===== src/NullBlk/Split/Agreement.antt =====
-- nullb_split.smode.c, null_blk.c: the domain's functions compute what the module's own do.
use native.Mathlib.Nat.{lt-div-mul-add, le-div_iff_mul-le, div-lt_iff_lt-mul}
use caplifive_buildroot.Base.{
  ℕ, ◌+◌, ◌-◌, ◌*◌, ◌/◌, ◌%◌, ◌^◌, ◌<◌, ◌≡◌, refl, ap, inl, inr, arith, min, Bool, true, false,
  ◌&&◌, ltb, ◌==◌, if◌then◌else◌, Bool-cases, Run, done, fault, starved, ◌>>=◌, Returns,
}
use caplifive_buildroot.NullBlk.Config.{
  ok, einval, Host, Device, null_q_bio, null_q_mq, null_irq_timer, valid_device, null_validate_conf,
  valid_blocksize, valid_submit_queues, valid_poll_queues, valid_cache_size,
}
use caplifive_buildroot.NullBlk.Split.{
  qemu_nr_cpu_ids, split_poll_queues, assign_blocksize, assign_submit_queues, assign_poll_queues,
  assign_modes, assign_cache, assign_mbps, Call, validate_conf, to_queue, bio_op, end_cmd_bio,
  unknown, Answer, validated, queue, refused, nullbs_null_validate_conf, queue_index, split_round,
  shared_call,
}

verdict :
    (b : Bool) (d : Device) (n : ℕ)
    → (if◌then◌else◌ {A = Answer × ℕ} b (validated einval d, n) (validated ok d, n - 2)).0
      ≡ validated (if b then einval else ok) d
verdict true d n = refl
verdict false d n = refl

module _ (h : Host) (cpus : h.nr_cpu_ids ≡ qemu_nr_cpu_ids)
    (polls : h.g_poll_queues ≡ split_poll_queues) where
  assign-blocksize :
      (d : Device) → assign_blocksize d ≡ record d { blocksize = valid_blocksize d.blocksize }
  unfolding assign_blocksize valid_blocksize
  assign-blocksize d = refl

  assign-submit :
      (d : Device)
      → assign_submit_queues h.nr_online_nodes d
        ≡ record d { submit_queues = valid_submit_queues h d }
  unfolding assign_submit_queues valid_submit_queues
  assign-submit d = elim (Bool-cases ((d.queue_mode == null_q_mq) && d.use_per_node_hctx)) [
    | inl nodes ↦ elim (Bool-cases (d.submit_queues == h.nr_online_nodes)) [
      | inl same ↦
          let e : d.submit_queues ≡ h.nr_online_nodes = ground arith in
          rw (nodes, same) (ap (λ n. record d { submit_queues = n }) e)
      | inr other ↦ rw (nodes, other)
    ]
    | inr processors ↦
        rw (processors, cpus)
          (elim (Bool-cases (ltb qemu_nr_cpu_ids d.submit_queues)) [
            | inl many ↦ rw many
            | inr few ↦ elim (Bool-cases (d.submit_queues == 0)) [
              | inl none ↦ rw (few, none)
              | inr some ↦ rw (few, some)
            ]
          ])
  ]

  assign-poll :
      (d : Device)
      → assign_poll_queues d ≡ record d {
        prev_submit_queues = d.submit_queues;
        poll_queues = valid_poll_queues h d;
        prev_poll_queues = valid_poll_queues h d;
      }
  unfolding assign_poll_queues
  assign-poll d = elim (Bool-cases (ltb split_poll_queues d.poll_queues)) [
    | inl many ↦ rw (polls, many)
    | inr few ↦ rw (polls, few)
  ]

  assign-cache :
      (d : Device)
      → assign_cache d ≡ record d {
        blocking = if d.memory_backed then true else d.blocking;
        cache_size = valid_cache_size d;
      }
  unfolding assign_cache
  assign-cache d = elim (Bool-cases d.memory_backed) [ inl e ↦ rw e | inr e ↦ rw e ]

  assign-mbps :
      (d : Device)
      → assign_mbps d
        ≡ record d { mbps = if d.queue_mode == null_q_bio then 0 else min (1024 * 40) d.mbps }
  unfolding assign_mbps
  assign-mbps d = elim (Bool-cases (d.queue_mode == null_q_bio)) [ inl e ↦ rw e | inr e ↦ rw e ]

  -- All the assignments together.
  assigned :
      (d : Device)
      → assign_mbps (
          assign_cache (
            assign_modes
              (assign_poll_queues (assign_submit_queues h.nr_online_nodes (assign_blocksize d)))))
        ≡ valid_device h d
  unfolding assign_modes valid_device valid_submit_queues
  assigned d =
      let d1 = record d { blocksize = valid_blocksize d.blocksize } in
      let d2 = record d1 { submit_queues = valid_submit_queues h d1 } in
      let d3 = record d2 {
        prev_submit_queues = d2.submit_queues;
        poll_queues = valid_poll_queues h d2;
        prev_poll_queues = valid_poll_queues h d2;
      } in
      let d4 = record d3 {
        queue_mode = min d.queue_mode null_q_mq;
        irqmode = min d.irqmode null_irq_timer;
      } in
      let d5 = record d4 {
        blocking = if d.memory_backed then true else d.blocking;
        cache_size = valid_cache_size d;
      } in
      rw (assign-blocksize d, assign-submit d1, assign-poll d2, assign-cache d4, assign-mbps d5)
        refl

  -- On a machine with one processor and one queue for polling, which is what the domain assumes,
  -- its validation writes the status and the configuration that the module's own gives.
  pub split-validate :
      (d : Device) (region_n : ℕ)
      → (nullbs_null_validate_conf h.nr_online_nodes h.is_power_of_2 d region_n).0
        ≡ validated (null_validate_conf h d).0 (null_validate_conf h d).1
  unfolding nullbs_null_validate_conf null_validate_conf
  split-validate d region_n =
      rw (assigned d) (unfold valid_device in verdict _ (valid_device h d) region_n)

-- The index of a queue is below the number of queues, for a processor below `nr_cpu_ids`.
pub queue_index-lt :
    (processor cpus nr_queues : ℕ)
    → processor < cpus
    → 0 < nr_queues
    → cpus + nr_queues < 2 ^ 32
    → Returns (λ i. i < nr_queues) (queue_index processor cpus nr_queues)
unfolding queue_index
queue_index-lt processor cpus nr_queues h some fits = elim (Bool-cases (nr_queues == 1)) [
  | inl one ↦ rw one some
  | inr more ↦
      let span = (cpus + nr_queues - 1) / nr_queues in
      let e : (cpus + nr_queues + 2 ^ 32 - 1) % 2 ^ 32 ≡ cpus + nr_queues - 1 = omega arith in
      let there : (nr_queues == 0) ≡ false = ground arith in
      let above : cpus + nr_queues - 1 < span * nr_queues + nr_queues = lt-div-mul-add some in
      let positive : 0 < span = (le-div_iff_mul-le some).1 (omega arith) in
      let divides : (span == 0) ≡ false = ground arith in
      rw (more, e, there, divides) ((div-lt_iff_lt-mul positive).1 (omega arith))
]

-- The two regions of a call stay with the domain: the call was unknown, or its validation failed.
abbrev pub keeps_regions : Answer → Bool
keeps_regions refused = true
keeps_regions (validated einval d) = true
keeps_regions _ = false

-- A device with queues is asked for one.
abbrev pub HasAnswer : Call → Type 0
HasAnswer (to_queue nr_queues) = (0 < nr_queues) × (nr_queues + 1 < 2 ^ 32)
HasAnswer c = Unit {0}

abbrev Balanced : ℕ → Answer × ℕ → Type 0
Balanced region_n r = r.1 ≡ (if keeps_regions r.0 then region_n + 2 else region_n)

verdict-Balanced :
    (b : Bool) (d : Device) (n : ℕ)
    → Balanced n (if b then (validated einval d, n + 2) else (validated ok d, n + 2 - 2))
verdict-Balanced true d n = refl
verdict-Balanced false d n = omega arith

queue-Balanced :
    (r : Run ℕ) (nr n : ℕ)
    → Returns (λ i. i < nr) r
    → Returns (Balanced n) (r >>= λ i. done (queue i, n + 2 - 2))
queue-Balanced (done i) nr n h = omega arith
queue-Balanced fault nr n h = h
queue-Balanced starved nr n h = h

-- Every call of the domain on its one processor returns, where a call for a queue has a number of
-- queues above 0 and below 2 ^ 32 - 1, and the domain is left with the regions that it had before,
-- but for two more after an unknown call or a failed validation.
pub shared_call-Balanced :
    (nodes : ℕ) (is_power_of_2 : ℕ → Bool) (processor : ℕ) (c : Call) (region_n : ℕ)
    → processor < qemu_nr_cpu_ids
    → HasAnswer c
    → Returns
        (λ r. r.1 ≡ (if keeps_regions r.0 then region_n + 2 else region_n))
        (shared_call nodes is_power_of_2 processor c region_n)
unfolding split_round nullbs_null_validate_conf
shared_call-Balanced nodes pow processor (validate_conf d) n here a = verdict-Balanced _ _ n
shared_call-Balanced nodes pow processor (to_queue nr) n here a =
    queue-Balanced (queue_index processor qemu_nr_cpu_ids nr) nr n
      (queue_index-lt processor qemu_nr_cpu_ids nr here a.0 (omega arith))
shared_call-Balanced nodes pow processor (bio_op o) n here a = omega arith
shared_call-Balanced nodes pow processor (end_cmd_bio e) n here a = omega arith
shared_call-Balanced nodes pow processor (unknown code) n here a = refl
