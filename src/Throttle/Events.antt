-- ===== src/Throttle/Events.antt =====
-- The steps that threads, the timer and the administrator make, and runs of them.
use syscall_throttling.Base.{ℕ, ◌+◌, Bool, true, false, none, List, [], ◌∷◌, if◌then◌else◌}
use syscall_throttling.Base.Int.{ℤ, is_zero}
use syscall_throttling.Store.{Store}
use syscall_throttling.Monitor.{Task}
use syscall_throttling.Throttle.{
  Driver, Outcome, returned, queues, waits, is_registered, enter_stub, queue_stub, stub_resume,
  wait_condition, tick_begin, tick_end, turn_on, turn_off, turn_off_finish,
}

-- A step of a thread: a call that has seen the module working goes on into the handler; it queues, when
-- it got no token; it tests its condition, as it sleeps; its wait ends. A call that sees the module not
-- working changes nothing and is no step. The steps may come in any order, and a call that has seen the
-- module working may go on when it is not any more.
pub data Event : Type 0 where
  enter : Task → Event
  join : ℕ → ℕ → Event
  check : ℕ → ℕ → Event
  resume : Task → ℕ → ℕ → ℕ → ℕ → Bool → Event

-- Any step of the module; `tick_end` carries the tokens that its `tick_begin` computed.
pub data Action : Type 0 where
  thread : Event → Action
  tick_begins : Action
  tick_ends : ℤ → Action
  start : Bool → ℤ → Action
  stop : Action
  stop_finish : Action

module _ (slab_available entry_available : ℕ → Bool) (supported : ℕ) where
  unfoldable pub step : Driver → Event → Driver
  step d (enter task) = (enter_stub task d).1
  step d (join id clock) = (queue_stub slab_available entry_available supported id clock d).1
  step d (check id a) = (wait_condition slab_available entry_available supported id a d).1
  step d (resume task id a clock_in clock_out interrupted) =
      (stub_resume slab_available entry_available supported task id a clock_in clock_out interrupted
        d).1

  unfoldable pub steps : Driver → List Event → Driver
  steps d [] = d
  steps d (e ∷ es) = steps (step d e) es

  unfoldable pub act : Driver → Action → Driver
  act d (thread e) = step d e
  act d tick_begins = (tick_begin d).1
  act d (tick_ends tokens) = tick_end tokens d
  act d (start made armed) = (turn_on made armed d).1
  act d stop = (turn_off d).1
  act d stop_finish = (turn_off_finish d).1

  unfoldable pub acts : Driver → List Action → Driver
  acts d [] = d
  acts d (a ∷ rest) = acts (act d a) rest

abbrev pub is_let_through : Outcome → Bool
is_let_through (returned code none) = is_zero code
is_let_through _ = false

abbrev pub is_waiting : Outcome → Bool
is_waiting (waits a clock) = true
is_waiting _ = false

abbrev pub is_queueing : Outcome → Bool
is_queueing queues = true
is_queueing _ = false

-- The thread has come back from the handler.
abbrev pub is_back : Outcome → Bool
is_back (returned code ax) = true
is_back _ = false

abbrev pub one_if : Bool → ℕ
one_if b = if b then 1 else 0

-- The calls of registered threads that come into the handler among the events.
unfoldable pub asked : Store → List Event → ℕ
asked s [] = 0
asked s (enter task ∷ es) = one_if (is_registered task s) + asked s es
asked s (_ ∷ es) = asked s es
