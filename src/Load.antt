-- ===== src/Load.antt =====
-- sysThrot.c: loading and unloading the module, `sysThrot_init` and `sysThrot_cleanup`, which call
-- every other part.
pub mod Removal
pub mod Endings
pub mod Start
pub mod Stop
pub mod Marks
pub mod Lifecycle
mod Tests
use syscall_throttling.Base.{
  ℕ, zero, suc, ◌+◌, ◌*◌, ◌/◌, ◌%◌, ◌^◌, Bool, false, ◌||◌, Option, none, some, List, if◌then◌else◌,
}
use syscall_throttling.Base.Int.{ℤ, pos, is_negative}
use syscall_throttling.Base.Code.{success}
use syscall_throttling.Base.Heap.{Heap}
use syscall_throttling.Store.{
  StorePointer, null, dangling, live, init_sys_throt_store, destroy_sys_throt_store,
}
use syscall_throttling.Monitor.{statmonitor_init, statmonitor_exit}
use syscall_throttling.Throttle.{Driver, turn_on}
use syscall_throttling.Throttle.Events.{Event}
use syscall_throttling.Throttle.Switch.{switch_off}
use syscall_throttling.Probe.{Kernel, Probes, remove_probe}
use syscall_throttling.Ioctl.{Module}
use syscall_throttling.Trampoline.Drain.{Passage, wait_stubs}
use syscall_throttling.Device.Setup.{Resources, device_driver_init, device_driver_cleanup}

-- What the kernel holds for the module, the state of `sysThrot_dev.store`, and the module. While the
-- pointer is `live`, the store behind it is the one of the module's driver.
pub record System : Type 0 where
  pub resources : Resources
  pub proc_entry : Bool
  pub store : StorePointer
  pub loaded : Module

-- What the kernel answers: `alloc_chrdev_region`, `cdev_add`, `class_create`, `device_create`,
-- `proc_create`, `kmem_cache_create` and `mod_timer`.
pub record Answers : Type 0 where
  pub allocated : ℤ
  pub added : ℤ
  pub class_error : Option ℤ
  pub created : Bool
  pub proc_created : Bool
  pub made : Bool
  pub armed : ℤ

-- `init_sysThrot_store(&sysThrot_dev.store)`, whose result is not used.
unfoldable pub point_at : ℤ × StorePointer × Heap → System → System
point_at (code, live t, h) s = record s {
  store = live t;
  loaded = record s.loaded { heap = h; driver = record s.loaded.driver { store = t } };
}
point_at (code, null, h) s = record s { store = null; loaded = record s.loaded { heap = h } }
point_at (code, dangling, h) s = record s {
  store = dangling;
  loaded = record s.loaded { heap = h };
}

unfoldable pub clean_device : System → System
clean_device s = record s { resources = (device_driver_cleanup s.resources).1 }

-- `sysThrot_statmonitor_init` and `sysThrot_statmonitor_exit`, with the entry in /proc.
unfoldable pub enter_proc : Bool → System → ℤ × System
enter_proc created s =
    let (code, m) = statmonitor_init created s.loaded.driver.monitor in
    (
      code,
      record s {
        proc_entry = created;
        loaded = record s.loaded { driver = record s.loaded.driver { monitor = m } };
      },
    )

unfoldable pub leave_proc : System → System
leave_proc s = record s {
  proc_entry = false;
  loaded = record s.loaded {
    driver = record s.loaded.driver { monitor = statmonitor_exit s.loaded.driver.monitor };
  };
}

unfoldable pub set_driver : System → Driver → System
set_driver s d = record s { loaded = record s.loaded { driver = d } }

-- `max_calls_monitor` is an `unsigned long`, and the field it goes to an `int`.
unfoldable pub reset : ℕ → Driver → Driver
reset max_calls_monitor d = record d {
  working = false;
  max_syscalls_for_epoch = max_calls_monitor % 2 ^ 32;
  epoch = 0;
  current_epoch_tokens = 0;
}

module _ (available : ℕ → Bool) (a : Answers) (max_calls_monitor : ℕ) where
  -- After `sysThrot_turn_on`.
  unfoldable pub turned_on : System → ℤ × Driver → ℤ × System
  turned_on s (ret, d) =
      let s1 = set_driver s d in
      if is_negative ret then (ret, clean_device (leave_proc s1)) else (success, s1)

  -- After `sysThrot_statmonitor_init`.
  unfoldable pub monitored : ℤ × System → ℤ × System
  monitored (ret, s) =
      let started =
        turned_on s (turn_on a.made a.armed (reset max_calls_monitor s.loaded.driver)) in
      if is_negative ret then (ret, clean_device s) else started

  -- After `device_driver_init`.
  unfoldable pub with_device : System → ℤ × Resources → ℤ × System
  with_device s (ret, r) =
      let s1 = record s { resources = r } in
      let entered = monitored (enter_proc a.proc_created s1) in
      if is_negative ret then (ret, s1) else entered

  unfoldable pub sys_throt_init : System → ℤ × System
  sys_throt_init s =
      with_device (point_at (init_sys_throt_store available s.loaded.heap) s)
        (device_driver_init a.allocated a.added a.class_error a.created s.resources)

-- The bits of a byte of the bitmap, from the j-th one, `n` of them.
unfoldable pub is_any : (ℕ → Bool) → ℕ → ℕ → Bool
is_any bits id zero = false
is_any bits id (suc n) = bits id || is_any bits (suc id) n

module _ (k : Kernel) where
  -- `removeProbe` of a call that is marked.
  unfoldable pub remove_marked : ℕ → Probes → Probes
  remove_marked id p = if p.syscall_presence_bitmap id then (remove_probe k (pos id) p).1 else p

  -- The inner loop, over the bits `j` of the byte `i`.
  unfoldable pub remove_bits : ℕ → ℕ → ℕ → Probes → Probes
  remove_bits i j zero p = p
  remove_bits i j (suc n) p = remove_bits i (suc j) n (remove_marked (i * 8 + j) p)

  -- The outer loop, over the bytes that are not 0.
  unfoldable pub remove_bytes : ℕ → ℕ → Probes → Probes
  remove_bytes i zero p = p
  remove_bytes i (suc n) p =
      remove_bytes (suc i) n
        (if is_any p.syscall_presence_bitmap (i * 8) 8 then remove_bits i 0 8 p else p)

  -- `nr_syscalls` is __NR_syscalls.
  unfoldable pub remove_all : ℕ → Probes → Probes
  remove_all nr_syscalls p = remove_bytes 0 (nr_syscalls / 8 + 1) p

-- Unloading has not come to its end yet, as threads are still in the module; or it has called
-- `destroy_sysThrot_store` with a pointer to freed memory; or it is done.
pub data Unloading : Type 0 where
  waiting undefined : Unloading
  unloaded : System → Unloading

unfoldable pub destroy_pointer : System → StorePointer → Unloading
destroy_pointer s dangling = undefined
destroy_pointer s null = unloaded (record s {
  loaded = record s.loaded { heap = (destroy_sys_throt_store none s.loaded.heap).1 };
})
destroy_pointer s (live t) = unloaded (record s {
  store = dangling;
  loaded = record s.loaded {
    heap = (destroy_sys_throt_store (some s.loaded.driver.store) s.loaded.heap).1;
  };
})

unfoldable pub close_all : Unloading → Unloading
close_all waiting = waiting
close_all undefined = undefined
close_all (unloaded s) = unloaded (leave_proc (clean_device s))

-- The end of `sysThrot_cleanup`, after its wait for the threads in the trampoline.
unfoldable pub after_stubs : System → Option (ℕ × ℕ) → Unloading
after_stubs s none = waiting
after_stubs s (some (sleeps, left)) = close_all (destroy_pointer s s.store)

-- `meanwhile` is what the threads do while `sysThrot_turn_off` waits. `counter` is
-- `sysThrot_stub_counter` when the probes have been removed, and `rounds` says which threads enter and
-- leave the trampoline before each reading of it.
module _ (k : Kernel) (slab_available entry_available : ℕ → Bool) (nr_syscalls : ℕ)
    (rounds : List (List Passage)) (counter : ℕ) where
  unfoldable pub after_switch : System → Option (ℤ × Driver) → Unloading
  after_switch s none = waiting
  after_switch s (some (code, d)) =
      let s1 = set_driver s d in
      let s2 = record s1 {
        loaded = record s1.loaded { probes = remove_all k nr_syscalls s1.loaded.probes };
      } in
      after_stubs s2 (wait_stubs 0 rounds counter)

  unfoldable pub sys_throt_cleanup : List Event → System → Unloading
  sys_throt_cleanup meanwhile s =
      after_switch s
        (switch_off slab_available entry_available k.supported meanwhile s.loaded.driver)
