-- ===== src/Throttle/Accounting.antt =====
-- `threads_in_module`: which calls are inside.
use syscall_throttling.Base.{
  ℕ, ◌+◌, ◌%◌, subst, map, true, ◌^◌, ◌<◌, ◌≡◌, refl, Bool, not, if_cases, Option, List, [], ◌∷◌,
  ltb, arith,
}
use syscall_throttling.Base.Int.{ℤ, is_zero}
use syscall_throttling.Queue.{Flag, faulted, no_memory, turned_off, queued, add_to_queue}
use syscall_throttling.Monitor.{Task}
use syscall_throttling.Throttle.{
  Driver, Outcome, is_registered, dec32, enter_stub, queue_stub, queue_call, stub_resume,
  wait_condition, tick_begin, tick_end, turn_on, turn_off, turn_off_finish, is_drained,
}
use syscall_throttling.Throttle.Events.{
  Event, enter, join, check, resume, Action, thread, tick_begins, tick_ends, start, stop,
  stop_finish, step, steps, act, acts, is_queueing, is_back, one_if,
}

turn_on-threads :
    (made : Bool) (armed : ℤ) (d : Driver)
    → (turn_on made armed d).1.threads_in_module ≡ d.threads_in_module
unfolding turn_on
turn_on-threads made armed d =
    let result : ℤ × Driver → Type 0 = λ r. r.1.threads_in_module ≡ d.threads_in_module in
    if_cases result d.working (λ _. refl)
      (λ _. if_cases result (is_zero armed) (λ _. refl) (λ _. refl))

turn_off-threads : (d : Driver) → (turn_off d).1.threads_in_module ≡ d.threads_in_module
unfolding turn_off
turn_off-threads d =
    let result : Option ℤ × Driver → Type 0 = λ r. r.1.threads_in_module ≡ d.threads_in_module in
    if_cases result d.working (λ _. refl) (λ _. refl)

enter-threads :
    (d : Driver) (task : Task)
    → d.threads_in_module < 2 ^ 32
    → let (o, d') = enter_stub task d in
      d'.threads_in_module ≡ (d.threads_in_module + one_if (is_queueing o)) % 2 ^ 32
unfolding enter_stub
enter-threads d task fits =
    let result : Outcome × Driver → Type 0 =
      λ r. r.1.threads_in_module ≡ (d.threads_in_module + one_if (is_queueing r.0)) % 2 ^ 32 in
    if_cases result (not (is_registered task d.store)) (λ _. omega (arith, fits))
      (λ _.
        if_cases result (ltb (dec32 d.current_epoch_tokens) (2 ^ 31)) (λ _. omega (arith, fits))
          (λ _. omega (arith, fits)))

module _ (slab_available entry_available : ℕ → Bool) (supported : ℕ) where
  -- The calls that go on to queue.
  unfoldable pub came : Driver → List Action → ℕ
  came d [] = 0
  came d (thread (enter task) ∷ rest) =
      one_if (is_queueing (enter_stub task d).0)
      + came (act slab_available entry_available supported d (thread (enter task))) rest
  came d (a ∷ rest) = came (act slab_available entry_available supported d a) rest

  -- The calls that come back after that: from `add_to_queue`, or from their wait.
  unfoldable pub gone : Driver → List Action → ℕ
  gone d [] = 0
  gone d (thread (join id clock) ∷ rest) =
      one_if (is_back (queue_stub slab_available entry_available supported id clock d).0)
      + gone (act slab_available entry_available supported d (thread (join id clock))) rest
  gone d (thread (resume task id a clock_in clock_out interrupted) ∷ rest) =
      1
      + gone
          (act slab_available entry_available supported d
            (thread (resume task id a clock_in clock_out interrupted)))
          rest
  gone d (a ∷ rest) = gone (act slab_available entry_available supported d a) rest

  queue_call-threads :
      (id clock : ℕ) (d : Driver) (flag : Flag)
      → d.threads_in_module < 2 ^ 32
      → let (o, d') = queue_call slab_available entry_available supported id clock d flag in
        (d'.threads_in_module < 2 ^ 32)
        × ((d'.threads_in_module + one_if (is_back o)) % 2 ^ 32 ≡ d.threads_in_module)
  unfolding queue_call
  queue_call-threads id clock d faulted fits = (omega (arith, fits), omega (arith, fits))
  queue_call-threads id clock d no_memory fits = (omega arith, omega (arith, fits))
  queue_call-threads id clock d turned_off fits = (omega arith, omega (arith, fits))
  queue_call-threads id clock d (queued a) fits = (omega (arith, fits), omega (arith, fits))

  join-threads :
      (d : Driver) (id clock : ℕ)
      → d.threads_in_module < 2 ^ 32
      → let (o, d') = queue_stub slab_available entry_available supported id clock d in
        (d'.threads_in_module < 2 ^ 32)
        × ((d'.threads_in_module + one_if (is_back o)) % 2 ^ 32 ≡ d.threads_in_module)
  unfolding queue_stub
  join-threads d id clock fits =
      let (flag, q) = add_to_queue slab_available d.working d.queue in
      queue_call-threads id clock (record d { queue = q }) flag fits

  resume-threads :
      (d : Driver) (task : Task) (id a clock_in clock_out : ℕ) (interrupted : Bool)
      → (stub_resume slab_available entry_available supported task id a clock_in clock_out
          interrupted d).1.threads_in_module
        ≡ dec32 d.threads_in_module
  unfolding stub_resume
  resume-threads d task id a clock_in clock_out interrupted =
      let result : Outcome × Driver → Type 0 =
        λ r. r.1.threads_in_module ≡ dec32 d.threads_in_module in
      if_cases result (not d.working) (λ _. refl)
        (λ _. if_cases result interrupted (λ _. refl) (λ _. refl))

  -- Whatever happens, in any order, `threads_in_module` counts the calls that have gone on to queue and
  -- have not come back: over any run of actions its change is the number of calls that go on to queue
  -- less the number of those that come back, from `add_to_queue` or from their wait, as a 32-bit
  -- number that may wrap; and it stays one.
  pub acts-threads :
      (d : Driver) (rest : List Action)
      → d.threads_in_module < 2 ^ 32
      → let d' = acts slab_available entry_available supported d rest in
        (d'.threads_in_module < 2 ^ 32)
        × ((d'.threads_in_module + gone d rest) % 2 ^ 32
            ≡ (d.threads_in_module + came d rest) % 2 ^ 32)
  unfolding acts came gone act step wait_condition tick_begin tick_end turn_off_finish
  acts-threads d [] fits = (fits, ground arith)
  acts-threads d (thread (enter task) ∷ rest) fits =
      let d' = act slab_available entry_available supported d (thread (enter task)) in
      let t = enter-threads d task fits in
      let (b, e) = acts-threads d' rest (omega (arith, t)) in (b, omega (arith, e, t))
  acts-threads d (thread (join id clock) ∷ rest) fits =
      let d' = act slab_available entry_available supported d (thread (join id clock)) in
      let (small, t) = join-threads d id clock fits in
      let (b, e) = acts-threads d' rest small in (b, omega (arith, e, t))
  acts-threads d (thread (check id a) ∷ rest) fits =
      acts-threads (act slab_available entry_available supported d (thread (check id a))) rest fits
  acts-threads d (thread (resume task id a clock_in clock_out interrupted) ∷ rest) fits =
      let d' =
        act slab_available entry_available supported d
          (thread (resume task id a clock_in clock_out interrupted)) in
      let t = resume-threads d task id a clock_in clock_out interrupted in
      let (b, e) = acts-threads d' rest (omega (arith, t)) in (b, omega (arith, e, t))
  acts-threads d (tick_begins ∷ rest) fits = acts-threads (tick_begin d).1 rest fits
  acts-threads d (tick_ends tokens ∷ rest) fits = acts-threads (tick_end tokens d) rest fits
  acts-threads d (start made armed ∷ rest) fits =
      let d' = (turn_on made armed d).1 in
      let t = turn_on-threads made armed d in
      let (b, e) = acts-threads d' rest (omega (arith, t, fits)) in (b, omega (arith, e, t))
  acts-threads d (stop ∷ rest) fits =
      let d' = (turn_off d).1 in
      let t = turn_off-threads d in
      let (b, e) = acts-threads d' rest (omega (arith, t, fits)) in (b, omega (arith, e, t))
  acts-threads d (stop_finish ∷ rest) fits = acts-threads (turn_off_finish d).1 rest fits

  acts-steps :
      (es : List Event) (d : Driver)
      → acts slab_available entry_available supported d (map thread es)
        ≡ steps slab_available entry_available supported d es
  unfolding acts steps act
  acts-steps [] d = refl
  acts-steps (e ∷ es) d = acts-steps es (step slab_available entry_available supported d e)

  -- The calls that are inside when the steps begin, and those that still go on to queue, come back.
  abbrev pub ComeBack : Driver → List Event → Type 0
  ComeBack d es = gone d (map thread es) ≡ d.threads_in_module + came d (map thread es)

  -- When they have, the loop of `sysThrot_turn_off` ends.
  pub steps-drained :
      (d : Driver) (es : List Event)
      → d.threads_in_module < 2 ^ 32
      → ComeBack (turn_off d).1 es
      → is_drained (steps slab_available entry_available supported (turn_off d).1 es) ≡ true
  unfolding is_drained
  steps-drained d es fits back =
      let stopped = (turn_off d).1 in
      let t = turn_off-threads d in
      let (b, e) = acts-threads stopped (map thread es) (omega (arith, t, fits)) in
      let drained : is_drained
            (acts slab_available entry_available supported stopped (map thread es))
          ≡ true =
        ground (arith, b, e, back) in
      subst (λ d'. is_drained d' ≡ true) (acts-steps es stopped) drained
