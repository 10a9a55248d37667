-- ===== src/NullBlk/Tests.antt =====
-- null_blk.c, nullb_split.smode.c: each result on a small device.
use caplifive_buildroot.Base.{
  List, Bool, Bool-cases, inl, inr, ◌∙◌, set, [], ◌∷◌, get_or, zero, suc,
}
use caplifive_buildroot.Base.{
  ◌*◌, ℕ, ◌+◌, ◌≡◌, ◌<◌, refl, arith, true, false, none, some, done, fault, Returns, ◌==◌,
  if◌then◌else◌,
}
use caplifive_buildroot.NullBlk.Config.{
  ok, Host, Device, null_validate_conf, valid_device, valid_blocksize,
}
use caplifive_buildroot.NullBlk.Config.Valid.{IsConfigured, validate-IsConfigured}
use caplifive_buildroot.NullBlk.Split.{validated, to_queue, nullbs_null_validate_conf, shared_call}
use caplifive_buildroot.NullBlk.Split.Agreement.{
  split-validate, keeps_regions, shared_call-Balanced,
}
use caplifive_buildroot.NullBlk.Tags.{Cmd, Queue, get_tag, alloc_cmd}
use caplifive_buildroot.NullBlk.Tags.Flight.{in_flight}
use caplifive_buildroot.NullBlk.Tags.Flight.Race.{
  Honest, held, Reach, Accounts, set-Marks, set_again-Marks, Reach-Accounts,
}
use caplifive_buildroot.NullBlk.Store.{Disk, Nullb, copy_to_nullb, null_handle_discard}
use caplifive_buildroot.NullBlk.Store.Block.{Sectors}
use caplifive_buildroot.NullBlk.Store.Copy.{IsPlain}
use caplifive_buildroot.NullBlk.Store.Straddle.{validated_straddles}
use caplifive_buildroot.NullBlk.Store.Discard.{Discarded, discard-Discarded}

-- One node, one processor, one queue for polling.
abbrev example_host : Host
example_host = record {
  nr_online_nodes = 1;
  nr_cpu_ids = 1;
  g_poll_queues = 1;
  is_power_of_2 = λ n. n == 256;
}

abbrev example_device : Device
example_device = record {
  blocksize = 1536;
  queue_mode = 2;
  use_per_node_hctx = false;
  submit_queues = 5;
  prev_submit_queues = 0;
  poll_queues = 3;
  prev_poll_queues = 0;
  irqmode = 1;
  memory_backed = true;
  blocking = false;
  cache_size = 0;
  mbps = 100000;
  zoned = true;
  zone_size = 256;
}

validate-IsConfigured_example :
    IsConfigured example_host (null_validate_conf example_host example_device).1
    × ((null_validate_conf example_host example_device).0 ≡ ok
        → true ≡ true
        → (0 < 256) × (example_host.is_power_of_2 256 ≡ true))
validate-IsConfigured_example =
    validate-IsConfigured example_host example_device (omega arith) (omega arith)

abbrev queued_device : Device
queued_device = record example_device { submit_queues = 1; poll_queues = 1 }

split-validate_example :
    (nullbs_null_validate_conf 1 example_host.is_power_of_2 example_device 5).0
    ≡ validated
        (null_validate_conf example_host example_device).0
        (null_validate_conf example_host example_device).1
split-validate_example = split-validate example_host refl refl example_device 5

shared_call-Balanced_example :
    Returns
      (λ r. r.1 ≡ (if keeps_regions r.0 then 5 + 2 else 5))
      (shared_call 1 example_host.is_power_of_2 0 (to_queue 1) 5)
shared_call-Balanced_example =
    shared_call-Balanced 1 example_host.is_power_of_2 0 (to_queue 1) 5 (omega arith)
      (omega arith, omega arith)

-- An empty device with blocks of two sectors, and pages for four of them.
abbrev example_disk : Disk
example_disk = record {
  data_tree = λ i. none;
  cache_tree = λ i. none;
  curr_cache = 0;
  blocksize = 1024;
  cache_active = false;
  spare = 4;
}

abbrev plain : IsPlain 2 example_disk
plain = record { uncached = refl; block = refl }

abbrev uncached : ℕ → Nullb
uncached b = record {
  disk = record example_disk { blocksize = b };
  cache_size = 0;
  cache_flush_pos = 0;
}

-- Blocks of three sectors, which the configuration lets pass
validated_straddles_example :
    (j : ℕ) × (j < 3)
    × (copy_to_nullb (λ i. 9) (λ s. done s) 5 (j * 3) false 1536 (λ i. i) (uncached 1536) ≡ fault)
unfolding null_validate_conf valid_device valid_blocksize
validated_straddles_example =
    validated_straddles (λ i. 9) (λ s. done s) example_host example_device 4 false (λ i. i)
      (uncached 1536) refl refl (omega arith) (λ e. absurd (omega (arith, e)))

discard-Discarded_example :
    Returns (Discarded 2 6 2 example_disk) (null_handle_discard 3 6 2048 example_disk)
discard-Discarded_example = discard-Discarded 2 Sectors.two 2 3 6 example_disk plain (omega arith)

abbrev no_cmd : Cmd
no_cmd = record { tag = 0; error = 0; bio = 0 }

abbrev idle_queue : Queue
idle_queue = record { tag_map = false ∷ false ∷ []; cmds = no_cmd ∷ no_cmd ∷ [] }

-- The first bit is another processor's, and the second has gone to the bio.
abbrev full_queue : Queue
full_queue = record {
  tag_map = true ∷ true ∷ [];
  cmds = no_cmd ∷ record { tag = 1; error = 0; bio = 77 } ∷ [];
}

idle_clear : (i : ℕ) → i < 2 → get_or idle_queue.tag_map i true ≡ false
idle_clear zero h = refl
idle_clear (suc zero) h = refl
idle_clear (suc (suc i)) h = absurd (omega arith)

-- Another processor takes the first tag between the first search and its test.
abbrev taking : ℕ → List Bool → List Bool
taking r bits = if r == 1 then set bits 0 true else bits

abbrev taker : ℕ → List ℕ → List ℕ
taker r tags = if r == 1 then (if in_flight 0 tags then tags else 0 ∷ tags) else tags

taking-Honest : Honest 2 taking taker
taking-Honest = record {
  keeps = λ r bits tags a. elim (Bool-cases (r == 1)) [
    | inr other ↦ rw other a
    | inl here ↦ rw here (elim (Bool-cases (in_flight 0 tags)) [
      | inl held ↦
          rw held (set_again-Marks 2 0 bits tags a (omega arith) (a.map 0 (omega arith) ∙ held))
      | inr clear ↦
          rw clear (set-Marks 2 0 bits tags a (omega arith) (a.map 0 (omega arith) ∙ clear))
    ])
  ];
}

second_taken : alloc_cmd taking 2 77 idle_queue ≡ done (some 1, full_queue)
unfolding alloc_cmd get_tag
second_taken = refl

Reach-Accounts_example : Accounts 2 full_queue (1 ∷ 0 ∷ [])
unfolding held
Reach-Accounts_example = Reach-Accounts 2 full_queue (1 ∷ 0 ∷ []) (
    Reach.allocated taking taker 77 1 2 taking-Honest (Reach.idle idle_queue idle_clear refl refl)
      second_taken)
