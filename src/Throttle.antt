-- ===== src/Throttle.antt =====
-- sysThrot.c, the core: the handler that runs before a monitored system call (`stub`), the timer
-- that opens an epoch, and turning the monitor on and off. A call goes in steps: the test of
-- `working`, the part from `atomic_inc` to the token, the part that queues up to the wait, and the part
-- after the wait; the timer in two, up to the end of `unqueue` and from there on; turning off in two,
-- around its loop. Any other step may come between them.
pub mod Events
pub mod Ticks
pub mod Counting
pub mod Admission
pub mod Accounting
pub mod Switch
pub mod Stopping
mod Tests
use syscall_throttling.Base.{
  ℕ, ◌+◌, ◌-◌, ◌%◌, ◌^◌, ◌<◌, ◌≡◌, arith, Bool, true, false, ◌||◌, not, Option, none, some, List,
  [], ◌∷◌, ◌==◌, ltb, if◌then◌else◌,
}
use syscall_throttling.Base.Int.{ℤ, pos, negsuc, ◌-ℤ◌, is_zero}
use syscall_throttling.Base.Code.{success, eagain, ealready}
use syscall_throttling.Store.{Store, find_user_in_store, find_program_in_store}
use syscall_throttling.Queue.{
  QueueElem, Queue, Flag, faulted, no_memory, turned_off, queued, add_to_queue, unqueue, free_junk,
  set_exited_flag, wake_up_queue, destroy_queue, init_queue,
}
use syscall_throttling.Monitor.{
  Task, Monitor, add_blocked, add_ctx_switch, add_aborted, update_epoch_stats,
}

-- An `int` and its 32-bit pattern.
abbrev pub to_int : ℕ → ℤ
to_int w = if ltb w (2 ^ 31) then pos w else negsuc (2 ^ 32 - 1 - w)

abbrev pub of_int : ℤ → ℕ
of_int (pos n) = n % 2 ^ 32
of_int (negsuc n) = 2 ^ 32 - 1 - n % 2 ^ 32

pub to_int-of_int : (n : ℕ) → n < 2 ^ 31 → to_int (of_int (pos n)) ≡ pos n
to_int-of_int n small = ground arith

abbrev pub inc32 : ℕ → ℕ
inc32 w = (w + 1) % 2 ^ 32

abbrev pub dec32 : ℕ → ℕ
dec32 w = (w + 2 ^ 32 - 1) % 2 ^ 32

-- `struct sysThrot_driver`, as far as this part uses it, with what it points to. The integers are
-- 32-bit patterns; `timer_pending` says whether the timer is armed.
pub record Driver : Type 0 where
  pub working : Bool
  pub threads_in_module : ℕ
  pub current_epoch_tokens : ℕ
  pub epoch : ℕ
  pub max_syscalls_for_epoch : ℕ
  pub store : Store
  pub queue : Queue
  pub monitor : Monitor
  pub timer_pending : Bool

-- How a part of the handler ends: it returns, with the value that it wrote to `regs->ax` if it did;
-- it goes on to queue, having got no token; it waits on the flag at an address, having read the clock;
-- or the thread dies of a fault in it.
pub data Outcome : Type 0 where
  returned : ℤ → Option ℤ → Outcome
  queues : Outcome
  waits : ℕ → ℕ → Outcome
  dies : Outcome

unfoldable pub check_if_registered : Task → Store → ℤ
check_if_registered task s =
    if is_zero (find_program_in_store s task.comm)
    then pos 1
    else if is_zero (find_user_in_store s task.uid)
    then pos 1
    else negsuc 0

-- `check_if_registered() == 1`
abbrev pub is_one : ℤ → Bool
is_one (pos n) = n == 1
is_one (negsuc n) = false

abbrev pub is_registered : Task → Store → Bool
is_registered task s = is_one (check_if_registered task s)

-- `atomic_dec(&threads_in_module)`
abbrev pub leave_module : Driver → Driver
leave_module d = record d { threads_in_module = dec32 d.threads_in_module }

-- `stub` behind its test of `working`, up to the token.
unfoldable pub enter_stub : Task → Driver → Outcome × Driver
enter_stub task d =
    let inside = record d { threads_in_module = inc32 d.threads_in_module } in
    let tokens_left = dec32 d.current_epoch_tokens in
    let taken = record inside { current_epoch_tokens = tokens_left } in
    if not (is_registered task d.store)
    then (returned success none, leave_module inside)
    else if ltb tokens_left (2 ^ 31)
    then (returned success none, leave_module taken)
    else (queues, taken)

-- `slab_available` and `entry_available` say which allocations succeed, `supported` is
-- SUPPORTED_SYSCALLS.
module _ (slab_available entry_available : ℕ → Bool) (supported : ℕ) where
  abbrev pub abort_call : ℕ → Driver → Outcome × Driver
  abort_call id d = (
    returned eagain (some eagain),
    leave_module (record d { monitor = add_aborted entry_available supported id d.monitor }),
  )

  -- What follows `add_to_queue`, up to the wait.
  unfoldable pub queue_call : ℕ → ℕ → Driver → Flag → Outcome × Driver
  queue_call id clock_in d faulted = (dies, d)
  queue_call id clock_in d no_memory = abort_call id d
  queue_call id clock_in d turned_off = (returned success none, leave_module d)
  queue_call id clock_in d (queued a) = (waits a clock_in, d)

  -- `stub` from the reading of the clock to its return or to the wait, for the call `id`:
  -- `regs->orig_ax` as an `unsigned int`, which is what the statistics take.
  unfoldable pub queue_stub : ℕ → ℕ → Driver → Outcome × Driver
  queue_stub id clock_in d =
      let (flag, q) = add_to_queue slab_available d.working d.queue in
      queue_call id clock_in (record d { queue = q }) flag

  unfoldable pub go_on : ℕ → ℕ → Outcome × Driver → Outcome × Driver
  go_on id clock_in (queues, d) = queue_stub id clock_in d
  go_on id clock_in (o, d) = (o, d)

  -- `stub` from its entry to its return or to the wait, with no other step in between.
  unfoldable pub stub : Task → ℕ → ℕ → Driver → Outcome × Driver
  stub task id clock_in d =
      let entered = go_on id clock_in (enter_stub task d) in
      if not d.working then (returned success none, d) else entered

  -- `stub` from the end of the wait, with its result: 0 or, when `interrupted`, -ERESTARTSYS.
  unfoldable pub stub_resume : Task → ℕ → ℕ → ℕ → ℕ → Bool → Driver → Outcome × Driver
  stub_resume task id a clock_in clock_out interrupted d =
      let exited = record d { queue = set_exited_flag a d.queue } in
      let delay_ns = (clock_out + 2 ^ 64 - clock_in) % 2 ^ 64 in
      let monitor = add_blocked entry_available supported task id delay_ns d.monitor in
      if not d.working
      then (returned success none, leave_module d)
      else if interrupted
      then abort_call id exited
      else (returned success none, leave_module (record exited { monitor = monitor }))

  -- `*wakeup_flag == 1` for the element at `a`.
  unfoldable pub is_woken : ℕ → List QueueElem → Bool
  is_woken a [] = false
  is_woken a (e ∷ es) = if e.address == a then e.wake_up_flag else is_woken a es

  -- The condition of the wait, with its side effect.
  unfoldable pub wait_condition : ℕ → ℕ → Driver → Bool × Driver
  wait_condition id a d = (
    not d.working || is_woken a d.queue.global_queue || is_woken a d.queue.junk_list,
    record d { monitor = add_ctx_switch entry_available supported id d.monitor },
  )

-- `timer_callback` up to the end of `unqueue`, which holds the lock of the queue: `new_epoche_tokens`,
-- a local variable, and the state.
unfoldable pub tick_begin : Driver → ℤ × Driver
tick_begin d =
    let new_epoche_tokens = to_int d.max_syscalls_for_epoch in
    let (released, q) = unqueue new_epoche_tokens d.queue in
    (new_epoche_tokens -ℤ released, record d { queue = q })

-- And from there to its end.
unfoldable pub tick_end : ℤ → Driver → Driver
tick_end new_epoche_tokens d = record d {
  queue = free_junk d.queue;
  monitor = update_epoch_stats d.monitor;
  epoch = inc32 d.epoch;
  current_epoch_tokens = of_int new_epoche_tokens;
  timer_pending = d.working;
}

-- `timer_callback` with these steps of other threads, a function on the state, in between.
unfoldable pub timer_callback : (Driver → Driver) → Driver → Driver
timer_callback meanwhile d =
    let (new_epoche_tokens, d1) = tick_begin d in tick_end new_epoche_tokens (meanwhile d1)

-- `made` says whether `kmem_cache_create` gives a cache, `armed` is what `mod_timer` returns.
unfoldable pub turn_on : Bool → ℤ → Driver → ℤ × Driver
turn_on made armed d =
    let ready = record d { queue = (init_queue made d.queue).1; timer_pending = true } in
    if d.working
    then (ealready, d)
    else if is_zero armed
    then (success, record ready { working = true })
    else (armed, ready)

-- `sysThrot_turn_off` up to its loop; `none` when it goes on to the loop.
unfoldable pub turn_off : Driver → Option ℤ × Driver
turn_off d =
    if d.working
    then (
      none,
      record d { working = false; timer_pending = false; queue = (wake_up_queue d.queue).1 },
    )
    else (some ealready, d)

-- The loop goes round while `threads_in_module > 0`.
unfoldable pub is_drained : Driver → Bool
is_drained d = d.threads_in_module == 0 || not (ltb d.threads_in_module (2 ^ 31))

-- And after the loop.
unfoldable pub turn_off_finish : Driver → ℤ × Driver
turn_off_finish d = (success, record d { queue = (destroy_queue d.queue).1 })
