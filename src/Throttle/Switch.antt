-- ===== src/Throttle/Switch.antt =====
-- `sysThrot_turn_off` from its entry to its return, with what the threads do while it waits.
use syscall_throttling.Base.{
  ℕ, ◌≡◌, refl, ◌∙◌, Bool, not, Option, none, some, List, [], ◌∷◌, if◌then◌else◌, if_cases, ltb,
  ◌^◌,
}
use syscall_throttling.Base.Int.{ℤ}
use syscall_throttling.Queue.{Flag, add_to_queue, faulted, no_memory, turned_off, queued}
use syscall_throttling.Monitor.{Task}
use syscall_throttling.Throttle.{
  Driver, Outcome, dec32, is_registered, enter_stub, queue_call, queue_stub, stub_resume,
  is_drained, turn_off, wait_condition, turn_off_finish,
}
use syscall_throttling.Throttle.Events.{Event, enter, join, check, resume, step, steps}

module _ (slab_available entry_available : ℕ → Bool) (supported : ℕ) where
  -- `none` when the threads have not left the module yet, so that the loop still goes round.
  unfoldable pub wait_drained : Driver → Option (ℤ × Driver)
  wait_drained d = if is_drained d then some (turn_off_finish d) else none

  unfoldable pub after_stop : List Event → Option ℤ × Driver → Option (ℤ × Driver)
  after_stop meanwhile (some code, d) = some (code, d)
  after_stop meanwhile (none, d) =
      wait_drained (steps slab_available entry_available supported d meanwhile)

  unfoldable pub switch_off : List Event → Driver → Option (ℤ × Driver)
  switch_off meanwhile d = after_stop meanwhile (turn_off d)

  -- The threads leave the store and the switch alone.
  abbrev Stays : Driver → Driver → Type 0
  Stays d d' = (d'.store ≡ d.store) × (d'.working ≡ d.working)

  queue_call-Stays :
      (id clock : ℕ) (d : Driver) (flag : Flag)
      → Stays d (queue_call slab_available entry_available supported id clock d flag).1
  unfolding queue_call
  queue_call-Stays id clock d faulted = (refl, refl)
  queue_call-Stays id clock d no_memory = (refl, refl)
  queue_call-Stays id clock d turned_off = (refl, refl)
  queue_call-Stays id clock d (queued a) = (refl, refl)

  enter-Stays : (task : Task) (d : Driver) → Stays d (enter_stub task d).1
  unfolding enter_stub
  enter-Stays task d =
      let result : Outcome × Driver → Type 0 = λ r. Stays d r.1 in
      if_cases result (not (is_registered task d.store)) (λ _. (refl, refl))
        (λ _.
          if_cases result (ltb (dec32 d.current_epoch_tokens) (2 ^ 31)) (λ _. (refl, refl))
            (λ _. (refl, refl)))

  join-Stays :
      (id clock : ℕ) (d : Driver)
      → Stays d (queue_stub slab_available entry_available supported id clock d).1
  unfolding queue_stub
  join-Stays id clock d =
      let (flag, q) = add_to_queue slab_available d.working d.queue in
      queue_call-Stays id clock (record d { queue = q }) flag

  resume-Stays :
      (task : Task) (id a clock_in clock_out : ℕ) (interrupted : Bool) (d : Driver)
      → Stays d
          (stub_resume slab_available entry_available supported task id a clock_in clock_out
            interrupted d).1
  unfolding stub_resume
  resume-Stays task id a clock_in clock_out interrupted d =
      let result : Outcome × Driver → Type 0 = λ r. Stays d r.1 in
      if_cases result (not d.working) (λ _. (refl, refl))
        (λ _. if_cases result interrupted (λ _. (refl, refl)) (λ _. (refl, refl)))

  pub steps-Stays :
      (es : List Event) (d : Driver) → Stays d (steps slab_available entry_available supported d es)
  unfolding steps step wait_condition
  steps-Stays [] d = (refl, refl)
  steps-Stays (enter task ∷ es) d =
      let (store, working) = enter-Stays task d in
      let (later, on) = steps-Stays es (enter_stub task d).1 in (later ∙ store, on ∙ working)
  steps-Stays (join id clock ∷ es) d =
      let (store, working) = join-Stays id clock d in
      let (later, on) =
        steps-Stays es (queue_stub slab_available entry_available supported id clock d).1 in
      (later ∙ store, on ∙ working)
  steps-Stays (check id a ∷ es) d = steps-Stays es _
  steps-Stays (resume task id a clock_in clock_out interrupted ∷ es) d =
      let (store, working) = resume-Stays task id a clock_in clock_out interrupted d in
      let (later, on) =
        steps-Stays es
          (stub_resume slab_available entry_available supported task id a clock_in clock_out
            interrupted d).1 in
      (later ∙ store, on ∙ working)

  pub steps-store :
      (es : List Event) (d : Driver)
      → (steps slab_available entry_available supported d es).store ≡ d.store
  steps-store es d = (steps-Stays es d).0

  pub steps-working :
      (es : List Event) (d : Driver)
      → (steps slab_available entry_available supported d es).working ≡ d.working
  steps-working es d = (steps-Stays es d).1
