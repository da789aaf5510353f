-- ===== src/Lib.antt =====
-- A verification development for syscall_throttling, a Linux kernel module that limits how many
-- system calls of chosen users and programs run in an epoch of one second.
--
-- The parts and the files that model them (paths from the root of the repository):
--
--   Store     sysThrot_store.c. The users and programs that are throttled, each in a cuckoo hash map
--             of two tables of 128 buckets (`CuckooHash` in Store/Cuckoo). A change clones the map,
--             changes the clone and puts it in place of the old one: `add_user_to_store` and the
--             other three in Store.antt, from the parts `clone_map`, `insert`, `remove`, `contains`
--             and `destroy_map`. Store/Keys has the keys and comparisons, Store/Hash the two hash
--             functions on 32-bit words, Store/Listing the two functions that list the store.
--   Queue     sysThrot_queue.c. The FIFO of blocked threads, the junk list and the slab cache. An
--             element is named by the number of the request that it was allocated by.
--   Monitor   sysThrot_statmonitor.c. The statistics of each system call (`add_blocked` and so on),
--             the end of an epoch (`update_epoch_stats`), and in Monitor/Report what the file
--             /proc/SYSTHROT shows.
--   Throttle  sysThrot.c. The handler `stub`, which asks the store whether the thread is throttled,
--             takes a token or joins the queue; `timer_callback`, which opens an epoch: it wakes the
--             oldest threads of the queue, closes the statistics and sets the tokens that are left;
--             and `turn_on` and `turn_off`. Throttle/Events has the steps of threads, timer and
--             administrator, in any order; Throttle/Stopping is about turning off.
--   Probe     sysThrot.c. `install_probe` and `remove_probe`: the bitmap of probed calls, the kept
--             addresses and the five bytes that are written into the kernel's text. Probe/Symbols has
--             the look-up of the two symbols that `apply_smp_patch` needs.
--   Ioctl     sysThrot_ioctl.c. The commands of the character device, which change the store, the
--             probes and the switch: `ioctl`, over a `Module` of all three.
--   Device    sysThrot.c. `sysThrot_open` and `sysThrot_release` by any number of threads; in
--             Device/Setup `device_driver_init` and `device_driver_cleanup`.
--   Status    sysThrot.c, `sysThrot_read`: the text that reading the device gives (`fill`), its buffers
--             and the error paths. Status/Report has the whole report that the text is cut from.
--   Load      sysThrot.c, `sysThrot_init` and `sysThrot_cleanup`, over all the parts above: the store,
--             the device, the statistics, the switch (Throttle/Switch) and the probes. Load/Lifecycle
--             goes from a loaded module over any commands to its unloading.
--   Trampoline  sysThrot.c, `stub_trampoline`: the assembly between a probe and `stub`, instruction by
--             instruction (`execute`); in Trampoline/Drain the counter of the threads in it and the
--             wait of `sysThrot_cleanup`.
--   Patching  lib/sysThrot.h and sysThrot.c, `apply_mmap_patch` and the functions that lift the write
--             protection of kernel text, on a processor with its control registers (`Core`).
--   User      user/lib/sysThrot.h, a function for each command, which opens the device, sends the
--             command to `Ioctl.ioctl` and closes the device; user/systhrot.c in User/Systhrot; and
--             user/client.c in User/Client: `setup_throttle`, `teardown_throttle`, and below it the
--             command line (Options), the lists of names (Split), the loop that spawns threads
--             (Spawn), the sums (Tally) and all of `main` (Main, with Hammering for the threads'
--             effect on the module and Runs for whole runs). User/Effects says what a command of the
--             library does when it is accepted, for registrations and for their removal;
--             User/Client/Limit goes from `setup_throttle` to `stub`.
--   Log       sysThrot_log.c and the macro `LOG` of lib/sysThrot.h: which messages reach the kernel's
--             log.
--   Base      What the parts share: integers, status codes, lists, the allocator (Base/Heap) and
--             kernel strings (Base/Text).
--
-- How it is modelled. A section under a lock is one step. `stub` is its test of `working`, which
-- changes nothing, and three steps: up to the token (`enter_stub`), up to the wait (`queue_stub`) and
-- from the wait on (`stub_resume`). `timer_callback` is two, up to the end of `unqueue` (`tick_begin`)
-- and from there on (`tick_end`), and so is `sysThrot_turn_off`, around the loop that waits for
-- `threads_in_module`. Between them any other step may come. Memory is counted: `Heap` has the
-- number of requests, of objects handed out and of objects freed, and a parameter says which
-- requests succeed. Integers of 32 and 64 bits are natural numbers with the wrap-around written out.
-- Of the kernel, what the code asks for is a parameter: whether an allocation succeeds, the clock,
-- what `mod_timer` returns, whether a wait was interrupted, what a kprobe finds, what is copied from
-- the caller's memory, how a number is printed. The number of supported system calls, which the
-- build generates, is a parameter.
--
-- Bounds. The loop of `insert` runs at most MAX_KICKS = 64 rounds in the code, and so does `kick`;
-- the loops over buckets run over the 128 buckets. A reader of the report, in Monitor/Iteration, runs a
-- given number of rounds; more than there are entries are enough. There is no other fuel.
-- The loop of user/client.c that spawns threads runs over the times that the clock gives it, and the
-- wait for the threads in the trampoline over the readings of their counter. The instructions of the
-- trampoline jump only forward, so that it runs once over the list of them.
--
-- Not modelled: the formatting of the report and the messages of the programs, with `read_monitor`,
-- which are output only, and where the module makes its messages; the build. A run of user/client.c
-- stops in the model at a name whose copy got no memory. What the allocator does with an element of a
-- cache that has been destroyed, or replaced, is not modelled: the elements of all caches are counted
-- together. Of `stub` as the trampoline calls it only what any compiled function
-- keeps is taken: the compiler is not part of the model. Of the processor, the trampoline's
-- instructions, and for the patching that CET needs WP and that protected text cannot be written.
-- Locks, RCU and the wait queue itself are the kernel's.
pub mod Base
pub mod Store
pub mod Queue
pub mod Monitor
pub mod Throttle
pub mod Probe
pub mod Ioctl
pub mod Device
pub mod Load
pub mod Status
pub mod Log
pub mod Patching
pub mod Trampoline
pub mod User
