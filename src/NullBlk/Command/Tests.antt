-- ===== src/NullBlk/Command/Tests.antt =====
-- null_blk.c: requests and commands on a small device.
use caplifive_buildroot.Base.{
  ℕ, ◌+◌, ◌≤◌, ◌<◌, ◌≡◌, refl, inr, arith, true, false, ◌==◌, none, some, List, [], ◌∷◌, Run, done,
}
use caplifive_buildroot.NullBlk.Store.{Disk}
use caplifive_buildroot.NullBlk.Store.Block.{Sectors}
use caplifive_buildroot.NullBlk.Cache.Tests.{first_from}
use caplifive_buildroot.NullBlk.Tags.{Queue}
use caplifive_buildroot.NullBlk.Throttle.{
  Meter, mb_per_tick, null_handle_throttled, nullb_bwtimer_fn, nullb_setup_bwtimer,
}
use caplifive_buildroot.NullBlk.Throttle.Limit.{passed, passed_per_tick}
use caplifive_buildroot.NullBlk.Throttle.Starve.{Event, run, large_never_passes}
use caplifive_buildroot.NullBlk.Request.{
  Errno, enospc, enomem, Request, Kernel, Io, with_disk, null_process_cmd,
}
use caplifive_buildroot.NullBlk.Request.Segments.{gathered}
use caplifive_buildroot.NullBlk.Request.Fetch.{Outside, Apart}
use caplifive_buildroot.NullBlk.Request.RoundTrip.{IsBacked, IsTransfer, read-write}

abbrev status_of : Errno → ℕ
status_of enospc = 3
status_of enomem = 9

abbrev example_kernel : Kernel
example_kernel = record {
  op_is_write = λ op. op == 1;
  req_op_flush = 2;
  req_op_discard = 3;
  blk_sts_ioerr = 10;
  errno_to_blk_status = status_of;
  alloc_pages = λ i. 9;
  gang_lookup = first_from 8;
  zone_valid_read_len = λ sector len. len;
}

-- Sector 64 is bad.
abbrev example_io : Io
example_io = record {
  queue_mode = 0;
  memory_backed = true;
  zoned = false;
  badblocks = some (λ sector nr_sectors. sector == 64);
  nullb = record {
    disk = record {
      data_tree = λ i. none;
      cache_tree = λ i. none;
      curr_cache = 0;
      blocksize = 1024;
      cache_active = false;
      spare = 4;
    };
    cache_size = 0;
    cache_flush_pos = 0;
  };
  memory = λ i. i + 7;
}

-- Three blocks, in two segments, the second page of the device and the third.
abbrev write_request : Request
write_request = record {
  opf = 1;
  sector = 12;
  nr_sectors = 6;
  fua = false;
  segments = record { at = 100; bv_len = 2048 } ∷ record { at = 5000; bv_len = 1024 } ∷ [];
}

abbrev read_request : Request
read_request = record {
  opf = 0;
  sector = 12;
  nr_sectors = 6;
  fua = false;
  segments = record { at = 9000; bv_len = 1024 } ∷ record { at = 0; bv_len = 2048 } ∷ [];
}

example-IsBacked : IsBacked 2 example_io
example-IsBacked = record {
  backed = refl;
  unzoned = refl;
  plain = record { uncached = refl; block = refl };
}

write-IsTransfer : IsTransfer example_kernel 2 4 example_io write_request
write-IsTransfer = record {
  good = refl;
  no_discard = refl;
  aligned = refl;
  whole = (refl, omega arith, (refl, omega arith, _));
}

read-IsTransfer : IsTransfer example_kernel 2 4 example_io read_request
read-IsTransfer = record {
  good = refl;
  no_discard = refl;
  aligned = refl;
  whole = (refl, omega arith, (refl, omega arith, _));
}

read-Apart : Apart read_request.segments
read-Apart = (λ i lt. (inr (omega arith), _), (λ i lt. _, _))

read-write_example :
    (d : Disk) × (null_process_cmd example_kernel 4 5 1 write_request example_io
      ≡ done (0, with_disk d example_io))
    × (m : ℕ → ℕ) × (null_process_cmd example_kernel 4 5 0 read_request
          (record (with_disk d example_io) { memory = λ i. 0 })
        ≡ done (0, record (with_disk d example_io) { memory = m }))
    × ((b : ℕ)
        → b < 3072
        → gathered read_request.segments m b ≡ gathered write_request.segments example_io.memory b)
    × ((b : ℕ) → Outside b read_request.segments → m b ≡ 0)
read-write_example =
    read-write example_kernel 2 4 5 Sectors.two write_request read_request example_io (λ i. 0)
      example-IsBacked write-IsTransfer read-IsTransfer refl refl read-Apart refl refl (omega arith)

abbrev two_tags : Queue
two_tags = record {
  tag_map = true ∷ false ∷ [];
  cmds = record { tag = 0; error = 0; bio = 5 } ∷ record { tag = 0; error = 0; bio = 0 } ∷ [];
}

abbrev idle_meter : Meter
idle_meter = record { cur_bytes = 0; bw_timer = false; stopped = false }

abbrev no_zones : ℕ → Request → Io → Run (ℕ × Io)
no_zones op r io = done (1, io)

passed_per_tick_example :
    passed true (16384 ∷ 8192 ∷ 4096 ∷ []) (nullb_bwtimer_fn true 1 idle_meter) ≤ mb_per_tick 1
passed_per_tick_example =
    passed_per_tick true 1 (16384 ∷ 8192 ∷ 4096 ∷ []) idle_meter (omega arith) (omega arith)

abbrev two_ticks : List Event
two_ticks = Event.tick ∷ Event.request 4096 ∷ Event.tick ∷ []

large_never_passes_example :
    (null_handle_throttled (λ c. c) true 32768 (run true 1 two_ticks (nullb_setup_bwtimer 1))).0
    ≡ false
unfolding mb_per_tick
large_never_passes_example =
    large_never_passes true 1 32768 two_ticks (omega arith) (omega arith) (omega arith)
