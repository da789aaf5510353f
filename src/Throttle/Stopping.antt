-- ===== src/Throttle/Stopping.antt =====
-- What `sysThrot_turn_off` does to the threads that are inside, and to those that still come.
use syscall_throttling.Base.{
  ℕ, ◌+◌, ◌≡◌, refl, ◌∙◌, Bool, true, false, not, if_cases, List, [], ◌∷◌, ltb, ◌^◌, arith,
}
use syscall_throttling.Base.Int.{pos}
use syscall_throttling.Base.Heap.{kmalloc}
use syscall_throttling.Queue.{
  Queue, Flag, faulted, no_memory, turned_off, queued, add_to_queue, wake_up_queue,
}
use syscall_throttling.Monitor.{Task}
use syscall_throttling.Throttle.{
  Driver, Outcome, is_registered, dec32, enter_stub, queue_stub, queue_call, stub_resume,
  wait_condition, turn_off,
}
use syscall_throttling.Throttle.Events.{
  Event, enter, join, check, resume, step, steps, is_waiting, one_if,
}

-- The monitor is off, and nothing is in the queue.
abbrev pub IsQuiet : Driver → Type 0
IsQuiet d = (d.working ≡ false) × (d.queue.global_queue ≡ []) × (d.queue.current_in_queue ≡ pos 0)

stopped-IsQuiet : (d : Driver) → d.working ≡ true → IsQuiet (turn_off d).1
unfolding turn_off wake_up_queue
stopped-IsQuiet d on = rw on (refl, refl, refl)

enter-IsQuiet : (d : Driver) (task : Task) → IsQuiet d → IsQuiet (enter_stub task d).1
unfolding enter_stub
enter-IsQuiet d task quiet =
    let result : Outcome × Driver → Type 0 = λ r. IsQuiet r.1 in
    if_cases result (not (is_registered task d.store)) (λ _. quiet)
      (λ _. if_cases result (ltb (dec32 d.current_epoch_tokens) (2 ^ 31)) (λ _. quiet) (λ _. quiet))

module _ (slab_available entry_available : ℕ → Bool) (supported : ℕ) where
  -- The waits that begin.
  unfoldable pub asleep : Driver → List Event → ℕ
  asleep d [] = 0
  asleep d (join id clock ∷ es) =
      one_if (is_waiting (queue_stub slab_available entry_available supported id clock d).0)
      + asleep (step slab_available entry_available supported d (join id clock)) es
  asleep d (e ∷ es) = asleep (step slab_available entry_available supported d e) es

  -- `add_to_queue` refuses the call, and leaves the lists alone.
  abbrev Refuses : Queue → Flag × Queue → Type 0
  Refuses q (queued a, q') = ⊥
  Refuses q (flag, q') =
      (q'.global_queue ≡ q.global_queue) × (q'.current_in_queue ≡ q.current_in_queue)

  add-Refuses : (q : Queue) → Refuses q (add_to_queue slab_available false q)
  unfolding add_to_queue
  add-Refuses q =
      if_cases (Refuses q) (not q.has_cache) (λ _. (refl, refl))
        (λ _.
          if_cases (Refuses q) (kmalloc slab_available q.queue_cache).0 (λ _. (refl, refl))
            (λ _. (refl, refl)))

  refused-IsQuiet :
      (id clock : ℕ) (d : Driver) (r : Flag × Queue)
      → IsQuiet d
      → Refuses d.queue r
      → let (o, d') =
          queue_call slab_available entry_available supported id clock
            (record d { queue = r.1 })
            r.0 in
        IsQuiet d' × (is_waiting o ≡ false)
  unfolding queue_call
  refused-IsQuiet id clock d (faulted, q) (off, none, zero) (l, n) =
      ((off, l ∙ none, n ∙ zero), refl)
  refused-IsQuiet id clock d (no_memory, q) (off, none, zero) (l, n) =
      ((off, l ∙ none, n ∙ zero), refl)
  refused-IsQuiet id clock d (turned_off, q) (off, none, zero) (l, n) =
      ((off, l ∙ none, n ∙ zero), refl)
  refused-IsQuiet id clock d (queued a, q) quiet impossible = absurd impossible

  join-IsQuiet :
      (d : Driver) (id clock : ℕ)
      → IsQuiet d
      → let (o, d') = queue_stub slab_available entry_available supported id clock d in
        IsQuiet d' × (is_waiting o ≡ false)
  unfolding queue_stub
  join-IsQuiet d id clock quiet =
      refused-IsQuiet id clock d (add_to_queue slab_available d.working d.queue) quiet
        (rw quiet.0 (add-Refuses d.queue))

  resume-IsQuiet :
      (d : Driver) (task : Task) (id a clock_in clock_out : ℕ) (interrupted : Bool)
      → IsQuiet d
      → IsQuiet (
          step slab_available entry_available supported d
            (resume task id a clock_in clock_out interrupted))
  unfolding step stub_resume
  resume-IsQuiet d task id a clock_in clock_out interrupted quiet =
      let result : Outcome × Driver → Type 0 = λ r. IsQuiet r.1 in
      if_cases result (not d.working) (λ _. quiet) (λ on. cc (on, quiet.0))

  stays-IsQuiet :
      (d : Driver) (es : List Event)
      → IsQuiet d
      → (asleep d es ≡ 0) × IsQuiet (steps slab_available entry_available supported d es)
  unfolding asleep steps step wait_condition
  stays-IsQuiet d [] quiet = (refl, quiet)
  stays-IsQuiet d (enter task ∷ es) quiet =
      stays-IsQuiet (enter_stub task d).1 es (enter-IsQuiet d task quiet)
  stays-IsQuiet d (join id clock ∷ es) quiet =
      let (still, refused) = join-IsQuiet d id clock quiet in
      let (none, later) =
        stays-IsQuiet (queue_stub slab_available entry_available supported id clock d).1 es still in
      (ground (arith, none, refused), later)
  stays-IsQuiet d (check id a ∷ es) quiet =
      stays-IsQuiet (step slab_available entry_available supported d (check id a)) es quiet
  stays-IsQuiet d (resume task id a clock_in clock_out interrupted ∷ es) quiet =
      stays-IsQuiet
        (step slab_available entry_available supported d
          (resume task id a clock_in clock_out interrupted))
        es (resume-IsQuiet d task id a clock_in clock_out interrupted quiet)

  -- Once `sysThrot_turn_off` has cleared `working` and woken the queue of a monitor that was on, then,
  -- whatever steps the threads make, also those that saw the module working before and took no token:
  -- no call goes to sleep any more, the queue is empty and stays so, and a thread that sleeps and tests
  -- its condition always finds it true, whichever its element is. Nothing is said of when the threads
  -- are scheduled.
  pub turn_off-IsQuiet :
      (d : Driver) (es : List Event) (id a : ℕ)
      → d.working ≡ true
      → let stopped = (turn_off d).1 in
        let d' = steps slab_available entry_available supported stopped es in
        (asleep stopped es ≡ 0)
        × IsQuiet d'
        × ((wait_condition slab_available entry_available supported id a d').0 ≡ true)
  unfolding wait_condition
  turn_off-IsQuiet d es id a on =
      let (none, quiet) = stays-IsQuiet (turn_off d).1 es (stopped-IsQuiet d on) in
      (none, quiet, rw quiet.0 refl)
