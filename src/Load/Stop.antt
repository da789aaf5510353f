-- ===== src/Load/Stop.antt =====
-- What `sysThrot_cleanup` leaves behind.
use syscall_throttling.Base.{
  ℕ, ◌+◌, ◌*◌, ◌/◌, ◌≤◌, ◌<◌, ◌^◌, ◌≡◌, refl, ap, sym, ◌∙◌, subst, Bool, true, false, Option, none,
  some, List, [],
}
use syscall_throttling.Base.Int.{ℤ}
use syscall_throttling.Base.Code.{success}
use syscall_throttling.Base.Heap.{Heap}
use syscall_throttling.Store.{Store, StorePointer, live}
use syscall_throttling.Store.Registry.{held}
use syscall_throttling.Store.Start.{destroy_store-frees}
use syscall_throttling.Monitor.{statmonitor_exit}
use syscall_throttling.Throttle.{Driver, turn_off, turn_off_finish, is_drained}
use syscall_throttling.Throttle.Events.{Event, steps}
use syscall_throttling.Throttle.Accounting.{ComeBack, steps-drained}
use syscall_throttling.Throttle.Switch.{switch_off, after_stop, wait_drained, steps-store}
use syscall_throttling.Probe.{Kernel}
use syscall_throttling.Probe.Invariant.{IsApart}
use syscall_throttling.Ioctl.Safety.{turn_off-store}
use syscall_throttling.Device.Setup.{Resources, device_driver_cleanup, nothing_held, all_held}
use syscall_throttling.Load.{
  System, Unloading, unloaded, set_driver, remove_all, destroy_pointer, close_all, clean_device,
  leave_proc, after_stubs, after_switch, sys_throt_cleanup,
}
use syscall_throttling.Trampoline.Drain.{
  Passage, ArePassed, first_empty, wait_stubs, wait_stubs-empties,
}
use syscall_throttling.Load.Removal.{IsRemovable, remove_all-clears}

module _ (k : Kernel) (slab_available entry_available : ℕ → Bool) where
  -- Turning off comes to its end, and the store is as it was.
  abbrev SwitchesOff : Driver → Option (ℤ × Driver) → Type 0
  SwitchesOff d r = (code : ℤ) × (d' : Driver) × (r ≡ some (code, d')) × (d'.store ≡ d.store)

  after_stop-ends :
      (d : Driver) (es : List Event) (r : Option ℤ × Driver)
      → r.1.store ≡ d.store
      → is_drained (steps slab_available entry_available k.supported r.1 es) ≡ true
      → SwitchesOff d (after_stop slab_available entry_available k.supported es r)
  unfolding after_stop wait_drained turn_off_finish
  after_stop-ends d es (some code, d1) same drained = (code, d1, refl, same)
  after_stop-ends d es (none, d1) same drained =
      let d2 : Driver = steps slab_available entry_available k.supported d1 es in
      (
        success,
        (turn_off_finish d2).1,
        rw drained refl,
        steps-store slab_available entry_available k.supported es d1 ∙ same,
      )

  switch_off-ends :
      (d : Driver) (es : List Event)
      → d.threads_in_module < 2 ^ 32
      → ComeBack slab_available entry_available k.supported (turn_off d).1 es
      → SwitchesOff d (switch_off slab_available entry_available k.supported es d)
  unfolding switch_off
  switch_off-ends d es fits back =
      after_stop-ends d es (turn_off d) (turn_off-store d)
        (steps-drained slab_available entry_available k.supported d es fits back)

-- Nothing of the module is left, and every object of the store has been given back.
pub record IsUnloaded (k : Kernel) (before after : System) : Type 0 where
  pub resources : after.resources ≡ nothing_held
  pub proc_entry : after.proc_entry ≡ false
  pub entries : after.loaded.driver.monitor.syscall_list ≡ []
  pub probes : (id : ℕ) → after.loaded.probes.syscall_presence_bitmap id ≡ false
  pub requested : after.loaded.heap.allocated ≡ before.loaded.heap.allocated
  pub freed :
      after.loaded.heap.freed ≡ before.loaded.heap.freed + held before.loaded.driver.store + 3

-- Unloading comes to its end, as the state says.
abbrev pub Unloads : Kernel → System → Unloading → Type 0
Unloads k s u = (s' : System) × (u ≡ unloaded s') × IsUnloaded k s s'

after_switch-Unloads :
    (k : Kernel) (slab_available entry_available : ℕ → Bool) (nr_syscalls : ℕ)
    (rounds : List (List Passage)) (counter : ℕ) (s : System) (t : Store) (code : ℤ) (d : Driver)
    (sleeps left : ℕ)
    → d.store ≡ s.loaded.driver.store
    → s.resources ≡ all_held
    → s.store ≡ live t
    → ((id : ℕ) → (remove_all k nr_syscalls s.loaded.probes).syscall_presence_bitmap id ≡ false)
    → wait_stubs 0 rounds counter ≡ some (sleeps, left)
    → Unloads k s (
        after_switch k slab_available entry_available nr_syscalls rounds counter s (some (code, d)))
unfolding after_switch after_stubs destroy_pointer close_all set_driver clean_device leave_proc
    statmonitor_exit device_driver_cleanup
after_switch-Unloads k slab_available entry_available nr_syscalls rounds counter s t code d sleeps
      left same all_there pointer clear waited =
    let s1 : System = set_driver s d in
    let s2 : System = record s1 {
      loaded = record s1.loaded { probes = remove_all k nr_syscalls s1.loaded.probes };
    } in
    let frees = destroy_store-frees d.store s.loaded.heap in
    let result : StorePointer → Type 0 = λ p. Unloads k s (close_all (destroy_pointer s2 p)) in
    subst (λ w. Unloads k s (after_stubs s2 w)) (sym waited)
      (subst result (sym pointer) (
        (
          _,
          refl,
          record {
            resources = ap (λ (r : Resources). (device_driver_cleanup r).1) all_there;
            proc_entry = refl;
            entries = refl;
            probes = clear;
            requested = ap (λ (r : ℤ × Heap). r.1.allocated) frees;
            freed =
                ap (λ (r : ℤ × Heap). r.1.freed) frees
                ∙ ap (λ n. s.loaded.heap.freed + n + 3) (ap held same);
          },
        )))

-- `sysThrot_cleanup` comes to its end and gives everything back: no call is marked as probed, nothing
-- is registered with the kernel, the list of statistics is empty, and the store has been freed with
-- all its items, nothing else having been asked for. Before, everything was held, the pointer to
-- the store was live and the probes could be removed; the calls that are counted in the module when
-- the throttling is turned off, and those that still come in, come back; the bitmap has a bit for every call that can be
-- marked; and the counter of the trampoline is the number of threads in it, fewer than 2^31 at any
-- time, which is 0 at one of the readings.
pub sys_throt_cleanup-Unloads :
    (k : Kernel) (slab_available entry_available : ℕ → Bool) (nr_syscalls : ℕ) (ok : IsApart k)
    (es : List Event) (rounds : List (List Passage)) (inside : ℕ) (counts : List ℕ)
    (sleeps left : ℕ) (s : System) (t : Store)
    → s.resources ≡ all_held
    → s.store ≡ live t
    → IsRemovable k s.loaded.probes
    → k.supported ≤ (nr_syscalls / 8 + 1) * 8
    → s.loaded.driver.threads_in_module < 2 ^ 32
    → ComeBack slab_available entry_available k.supported (turn_off s.loaded.driver).1 es
    → inside < 2 ^ 31
    → ArePassed inside rounds counts
    → first_empty 0 counts ≡ some (sleeps, left)
    → Unloads k s
        (sys_throt_cleanup k slab_available entry_available nr_syscalls rounds inside es s)
unfolding sys_throt_cleanup
sys_throt_cleanup-Unloads k slab_available entry_available nr_syscalls ok es rounds inside counts
      sleeps left s t all_there pointer v wide fits all few passed empty =
    let (code, d, e, same) =
      switch_off-ends k slab_available entry_available s.loaded.driver es fits all in
    let (_, clear) = remove_all-clears k ok nr_syscalls s.loaded.probes v wide in
    subst
      (λ r.
        Unloads k s (after_switch k slab_available entry_available nr_syscalls rounds inside s r))
      (sym e)
      (after_switch-Unloads k slab_available entry_available nr_syscalls rounds inside s t code d
        sleeps left same all_there pointer clear
        (wait_stubs-empties rounds counts inside 0 few passed ∙ empty))
