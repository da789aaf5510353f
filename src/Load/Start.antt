-- ===== src/Load/Start.antt =====
-- What `sysThrot_init` leaves behind, whichever of its steps fails.
use syscall_throttling.Base.{
  ℕ, ◌≡◌, refl, ap, sym, ◌∙◌, subst, inl, inr, Bool, true, false, [], if_cases,
}
use syscall_throttling.Base.Int.{ℤ, is_zero, is_negative}
use syscall_throttling.Base.Heap.{Heap}
use syscall_throttling.Store.{StorePointer, null, dangling, live, init_sys_throt_store}
use syscall_throttling.Store.Start.{IsFreshStart, init_store-IsFreshStart}
use syscall_throttling.Monitor.{statmonitor_init, statmonitor_exit, free_entries}
use syscall_throttling.Queue.{init_queue}
use syscall_throttling.Throttle.{Driver, turn_on}
use syscall_throttling.Device.Setup.{
  Resources, device_driver_init, device_driver_cleanup, all_held, IsError, IsAllOrNothing,
  device_driver_init-IsAllOrNothing,
}
use syscall_throttling.Load.Endings.{IsGone, Outcome}
use syscall_throttling.Load.{
  System, Answers, point_at, clean_device, enter_proc, leave_proc, set_driver, reset, turned_on,
  monitored, with_device, sys_throt_init,
}

module _ (a : Answers) (max_calls_monitor : ℕ) where
  -- The store and the heap of the first step are left alone.
  abbrev Leaves : System → ℤ × System → Type 0
  Leaves s (code, s') = (s'.store ≡ s.store) × (s'.loaded.heap ≡ s.loaded.heap)

  module _ (available : ℕ → Bool) where
    turned_on-Outcome :
        (s : System)
        → s.resources ≡ all_held
        → s.proc_entry ≡ true
        → s.loaded.driver.monitor.syscall_list ≡ []
        → let r =
            turned_on available a max_calls_monitor s
              (turn_on a.made a.armed (reset max_calls_monitor s.loaded.driver)) in
          Outcome a max_calls_monitor s.loaded.driver.queue s.loaded.driver.timer_pending r
          × Leaves s r
    unfolding turned_on turn_on init_queue reset set_driver clean_device leave_proc statmonitor_exit
        device_driver_cleanup free_entries
    turned_on-Outcome s held entered none_yet =
        let result : ℤ × Driver → Type 0 = λ r.
          Outcome a max_calls_monitor s.loaded.driver.queue s.loaded.driver.timer_pending
            (turned_on available a max_calls_monitor s r)
          × Leaves s (turned_on available a max_calls_monitor s r) in
        let d : Driver = reset max_calls_monitor s.loaded.driver in
        if_cases result (is_zero a.armed)
          (λ on. (
            inl (
              refl,
              record {
                resources = held;
                proc_entry = entered;
                working = sym on;
                limit = refl;
                tokens = refl;
                epoch = refl;
                timer = refl;
                cache = refl;
              },
            ),
            (refl, refl),
          ))
          (λ failed.
            let ends : ℤ × System → Type 0 = λ r.
              Outcome a max_calls_monitor s.loaded.driver.queue s.loaded.driver.timer_pending r
              × Leaves s r in
            if_cases ends (is_negative a.armed)
              (λ error. (
                inr (
                  error,
                  record {
                    resources = ap (λ (r : Resources). (device_driver_cleanup r).1) held;
                    proc_entry = refl;
                    working = refl;
                    entries = refl;
                  },
                  inr (error, refl, refl),
                ),
                (refl, refl),
              ))
              (λ _. (
                inl (
                  refl,
                  record {
                    resources = held;
                    proc_entry = entered;
                    working = sym failed;
                    limit = refl;
                    tokens = refl;
                    epoch = refl;
                    timer = refl;
                    cache = refl;
                  },
                ),
                (refl, refl),
              )))

    -- From the entry in /proc on, with the device there.
    entered-Outcome :
        (created : Bool) (s : System)
        → s.resources ≡ all_held
        → s.loaded.driver.working ≡ false
        → s.loaded.driver.monitor.syscall_list ≡ []
        → let r = monitored available a max_calls_monitor (enter_proc created s) in
          Outcome a max_calls_monitor s.loaded.driver.queue s.loaded.driver.timer_pending r
          × Leaves s r
    unfolding monitored enter_proc statmonitor_init clean_device device_driver_cleanup
    entered-Outcome true s held off none_yet =
        turned_on-Outcome (enter_proc true s).1 held refl none_yet
    entered-Outcome false s held off none_yet = (
      inr (
        refl,
        record {
          resources = ap (λ (r : Resources). (device_driver_cleanup r).1) held;
          proc_entry = refl;
          working = off;
          entries = none_yet;
        },
        inl (refl, refl),
      ),
      (refl, refl),
    )

    with_device-Outcome :
        (s : System) (r : ℤ × Resources)
        → IsGone s
        → IsAllOrNothing r
        → Outcome a max_calls_monitor s.loaded.driver.queue s.loaded.driver.timer_pending
            (with_device available a max_calls_monitor s r)
          × Leaves s (with_device available a max_calls_monitor s r)
    unfolding with_device
    with_device-Outcome s (code, r) gone (inl (error, e)) = rw error (
      inr (
        error,
        record {
          resources = e;
          proc_entry = gone.proc_entry;
          working = gone.working;
          entries = gone.entries;
        },
        inl (refl, refl),
      ),
      (refl, refl),
    )
    with_device-Outcome s (code, r) gone (inr (ok, e, _)) =
        rw ok
          (entered-Outcome a.proc_created (record s { resources = r }) e gone.working gone.entries)

IsGone-at :
    (s : System) (pointer : StorePointer) (h : Heap)
    → IsGone s
    → IsGone (record s { store = pointer; loaded = record s.loaded { heap = h } })
IsGone-at s pointer h gone = record {
  resources = gone.resources;
  proc_entry = gone.proc_entry;
  working = gone.working;
  entries = gone.entries;
}

-- What the load has put into the pointer to the store.
point_at-kept :
    (r : ℤ × StorePointer × Heap) (s : System)
    → IsGone s
    → IsGone (point_at r s)
      × ((point_at r s).store ≡ r.1)
      × ((point_at r s).loaded.heap ≡ r.2)
      × ((point_at r s).resources ≡ s.resources)
      × ((point_at r s).loaded.driver.queue ≡ s.loaded.driver.queue)
      × ((point_at r s).loaded.driver.timer_pending ≡ s.loaded.driver.timer_pending)
unfolding point_at
point_at-kept (code, live t, h) s gone = (
  record {
    resources = gone.resources;
    proc_entry = gone.proc_entry;
    working = gone.working;
    entries = gone.entries;
  },
  refl,
  refl,
  refl,
  refl,
  refl,
)
point_at-kept (code, null, h) s gone = (IsGone-at s null h gone, refl, refl, refl, refl, refl)
point_at-kept (code, dangling, h) s gone =
    (IsGone-at s dangling h gone, refl, refl, refl, refl, refl)

module _ (a : Answers) (max_calls_monitor : ℕ) where
  -- `sysThrot_init`, from a kernel in which nothing of the module is registered, either returns 0 with
  -- the device, the entry in /proc and the timer there, the limit set, the counters at 0, the
  -- throttling on if the timer was armed as a new one, and a cache for the queue if one could be made
  -- (when not, it returns 0 all the same); or it returns an error with nothing registered. After an
  -- error the queue and the timer are as before, except when `mod_timer` gave the error: then the cache
  -- and the timer stay, as nothing takes them back. The result of `init_sysThrot_store` is not used, so
  -- in all cases the pointer and the heap are as that call left them. The error of a class is negative.
  pub sys_throt_init-Outcome :
      (available : ℕ → Bool) (s : System)
      → IsError a.class_error
      → IsGone s
      → let r = sys_throt_init available a max_calls_monitor s in
        let (code, pointer, h) = init_sys_throt_store available s.loaded.heap in
        Outcome a max_calls_monitor s.loaded.driver.queue s.loaded.driver.timer_pending r
        × (r.1.store ≡ pointer)
        × (r.1.loaded.heap ≡ h)
        × IsFreshStart s.loaded.heap (code, pointer, h)
  unfolding sys_throt_init
  sys_throt_init-Outcome available s error gone =
      let first = init_sys_throt_store available s.loaded.heap in
      let s1 : System = point_at first s in
      let (gone1, pointer, heap, resources, queue, pending) = point_at-kept first s gone in
      let device : IsAllOrNothing
          (device_driver_init a.allocated a.added a.class_error a.created s.resources) =
        subst
          (λ (r : Resources).
            IsAllOrNothing (device_driver_init a.allocated a.added a.class_error a.created r))
          (sym gone.resources)
          (device_driver_init-IsAllOrNothing a.allocated a.added a.class_error a.created error) in
      let (ends, (store_kept, heap_kept)) =
        with_device-Outcome a max_calls_monitor available s1 _ gone1 device in
      (
        subst
            (λ q.
              Outcome a max_calls_monitor q s.loaded.driver.timer_pending
                (sys_throt_init available a max_calls_monitor s))
            queue
            (subst
              (λ b.
                Outcome a max_calls_monitor s1.loaded.driver.queue b
                  (sys_throt_init available a max_calls_monitor s))
              pending ends),
        store_kept ∙ pointer,
        heap_kept ∙ heap,
        init_store-IsFreshStart available s.loaded.heap,
      )
