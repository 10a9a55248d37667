-- ===== src/Lib.antt =====
-- Capstone for RISC-V in a Buildroot tree: a Linux kernel module that gives user programs the
-- domains and memory regions of a capability firmware, and programs split into domains on it.
--
-- Base: shared names, Boolean tests, lists with native lengths, the outcome of C code (`Run`:
--   `done`, `fault` for an access outside an array, `starved` for a bound on rounds that is used
--   up), words and pages.
-- Kernel: package/modcapstone/module/capstone.c, the kernel module. Kernel.Sbi has the firmware's
--   calls (capstone-sbi.h) and the parameter `Platform`: what the firmware, the page allocator and
--   copies into kernel memory do, on an abstract world. Kernel.Table has the static variables
--   (`Driver`), `probe_regions`, `ioctl_create_region` and `ioctl_region_query`; Kernel.Mmap
--   `device_mmap`; Kernel.Domain the calls on domains; Kernel.Ioctl `device_ioctl`. The record
--   `Firmware` says what the module relies on: a count of regions that never falls and is at most
--   64, identifiers below it, and answers about a region that are the same from the creation of the
--   region on; they may depend on what was created. Rounds: 65 for the loops over the table, since
--   the 65th would leave it. A read or a write past the table is a fault, and so is a copy to the
--   address 0, which `load_s_mode` makes when the kernel has no memory for an S mode.
-- Cgi: package/capstone-nested-enclave/capstone_split/cgi/cgi_register_success.dom.c and
--   cgi_register_fail.dom.c, domains that answer one HTTP request: Cgi.Socket `putchar_to_socket`,
--   Cgi.Parse the search for the name, Cgi.Register the response, on the memory behind the shared
--   regions, Cgi.Dpi the entry of the domain. The search runs for a given number of words of the
--   request, and the digits of the size take 17 rounds, one more than the array
--   has elements.
--
-- NullBlk: package/capstone-null-blk/capstone_split. NullBlk.Config: module/null_blk.c,
--   `null_validate_conf` and `nullb_update_nr_hw_queues`. NullBlk.Split: sdom/nullb_split.smode.c,
--   the domain that runs four of the driver's functions. NullBlk.Store: the pages that hold the
--   data, `copy_to_nullb`, `copy_from_nullb` and `null_handle_discard`; the kernel's radix tree is a
--   map from an index to a page, and the number of pages that the kernel still gives is part of
--   the state. NullBlk.Request gives `copy_to_nullb` the `null_make_cache_space` of
--   NullBlk.Cache.Space, which stands on this file. The copies run for one round more than there are blocks.
--   NullBlk.Cache: a page of the cache
--   is written back by `null_flush_cache_page`, in nine rounds at most; its index times 8 does not
--   wrap, and the page is in the cache as long as it is not marked free. NullBlk.Cache.Space:
--   `null_make_cache_space` and `null_handle_flush`, with no other thread between their steps; the
--   kernel's search for the pages of a tree is a parameter. A page takes two rounds at most, one
--   to go back to the first page, so the rounds are twice the pages and two more.
--   NullBlk.Cache.Write: `copy_to_nullb` and `copy_from_nullb` with an active cache.
--   NullBlk.Tags: `get_tag`, `put_tag`, `alloc_cmd` and `free_cmd`. NullBlk.Tags.Flight has attempts
--   of a processor that is alone at the map, and NullBlk.Tags.Flight.Race the commands in flight as a
--   relation, with what other processors do to the map between the search for a clear bit and the
--   test of it.
--   NullBlk.Request: the transfer of a request's segments and `null_process_cmd`; the memory is one
--   array of bytes, and a transfer takes one round more than it has blocks. NullBlk.Throttle: the
--   limit on the bandwidth and its timer, with the counter as a signed 64-bit number.
--   NullBlk.Command: `null_handle_cmd`, the ends of a command, and `null_submit_bio`, which uses the
--   domain of NullBlk.Split, the tags of NullBlk.Tags and the device of NullBlk.Request. Bad blocks,
--   zones and the operations of the block layer are arguments, with the kernel's numbers in the
--   record Kernel; CONFIG_KMSAN is off. The flag of the throttle is an argument.
-- Dpdk: package/capstone-dpdk-multip/dom, the two client domains. The number of words of each region
--   is a parameter, and an access past it is a fault. A loop over n packets has n + 1 rounds.
-- Backend: package/capstone-nested-enclave/capstone_split/sdom/miniweb_backend.smode.c. Backend
--   itself has `request_reprocessing`: the first line of a request, and which domain or page answers
--   it; the loops end at the sizes of their buffers, 256, 16 and 128. Backend.Respond has the calls of
--   the domain: the memory that it shares with the server, the regions that it has as a stack, and
--   the handlers. `ulong_to_str` runs for 22 rounds, one more than its array has bytes. What a CGI
--   domain does to the memory in a call is a parameter, `run_cgi`.
-- Frontend: package/modcapstone/userspace/miniweb_frontend.c. Frontend.Queue has the queue of
--   connections with its semaphores, and each statement of `enqueue` and `dequeue` as a step of one
--   of the two threads. Frontend.Worker has a round of `workerThread` from the request that it reads
--   to the connection that it closes, with Backend.Respond as the domain that it calls. The files of
--   the server are a parameter, as something that can be read or for which `read` gives -1. The path
--   of a file has no terminator in its block: what stands behind a block, and how much of a block can
--   be used, are the parameter `Heap`, and a copy past a block is a fault.
-- User: package/modcapstone/userspace/lib/libcapstone.c, the library of the programs, on the model of
--   the kernel module. User.Regions has `map_region` and what the library keeps about the regions,
--   with 65 rounds for its loop over at most 64 regions; the address at which the kernel puts a
--   mapping is the parameter `place`. User.Elf has the two loaders; a record `File` says what the
--   system calls answer for a path and what the file has, and a failed assertion is a fault.
--   User.Calls has every function, and sequences of calls, with those of other programs between.
--
-- Not modelled: the block device with other threads at its cache, its faked timeouts,
-- polling, queues and registration; what the web server's two programs do before their loops; the
-- opening and closing of the device by the library; the DPDK server; messages and debug counters;
-- copies of the same drivers in the baseline and module_split directories; input and output of the
-- example programs.
pub mod Backend
pub mod Base
pub mod Cgi
pub mod Dpdk
pub mod Frontend
pub mod Kernel
pub mod NullBlk
pub mod User
