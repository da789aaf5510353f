-- ===== src/Throttle/Admission.antt =====
-- The rate limit: how many calls an epoch lets through.
use syscall_throttling.Base.{
  ℕ, ◌+◌, ◌^◌, ◌≤◌, ◌<◌, ◌≡◌, refl, ap, sym, ◌∙◌, not, if_cases, min, Bool, true, false, List, [],
  ◌∷◌, ltb, if◌then◌else◌, arith,
}
use syscall_throttling.Base.Int.{pos_part}
use syscall_throttling.Queue.{
  Queue, Flag, faulted, no_memory, turned_off, queued, add_to_queue, unqueue,
}
use syscall_throttling.Queue.Fifo.{live}
use syscall_throttling.Monitor.{Task}
use syscall_throttling.Throttle.{
  Driver, Outcome, is_registered, dec32, enter_stub, queue_stub, queue_call, go_on, stub,
  stub_resume, wait_condition, to_int, tick_begin, tick_end, timer_callback,
}
use syscall_throttling.Throttle.Counting.{tokens_left, room, spend, count-room, count-call}
use syscall_throttling.Throttle.Ticks.{tick-tokens}
use syscall_throttling.Throttle.Switch.{steps-Stays}
use syscall_throttling.Throttle.Events.{
  Event, enter, join, check, resume, step, steps, asked, is_let_through, one_if,
}

abbrev is_refused : Flag → Bool
is_refused turned_off = true
is_refused _ = false

-- A call that comes into the handler.
abbrev Called : Driver → Bool → Outcome → Driver → Type 0
Called d registered o d' =
    (d'.working ≡ d.working)
    × (d'.store ≡ d.store)
    × (d'.current_epoch_tokens ≡ (spend registered d.current_epoch_tokens))
    × (registered ≡ true → is_let_through o ≡ ltb (dec32 d.current_epoch_tokens) (2 ^ 31))

enter-Called :
    (d : Driver) (task : Task)
    → let (o, d') = enter_stub task d in Called d (is_registered task d.store) o d'
unfolding enter_stub
enter-Called d task =
    let result : Outcome × Driver → Type 0 = λ r. Called d (is_registered task d.store) r.0 r.1 in
    if_cases result (not (is_registered task d.store))
      (λ other. (refl, refl, ground (arith, other), λ r. cc))
      (λ registered.
        if_cases result (ltb (dec32 d.current_epoch_tokens) (2 ^ 31))
          (λ left. (refl, refl, ground (arith, registered), λ _. ground (arith, left)))
          (λ spent. (refl, refl, ground (arith, registered), λ _. ground (arith, spent))))

module _ (slab_available entry_available : ℕ → Bool) (supported : ℕ) where
  -- The calls of registered threads that return success without having waited: with a token, or when
  -- they come to queue.
  unfoldable pub let_through : Driver → List Event → ℕ
  let_through d [] = 0
  let_through d (enter task ∷ es) =
      (if is_registered task d.store then one_if (is_let_through (enter_stub task d).0) else 0)
      + let_through (step slab_available entry_available supported d (enter task)) es
  let_through d (join id clock ∷ es) =
      one_if (is_let_through (queue_stub slab_available entry_available supported id clock d).0)
      + let_through (step slab_available entry_available supported d (join id clock)) es
  let_through d (e ∷ es) = let_through (step slab_available entry_available supported d e) es

  abbrev Kept : Driver → Driver → Type 0
  Kept d d' =
      (d'.working ≡ d.working)
      × (d'.store ≡ d.store)
      × (d'.current_epoch_tokens ≡ d.current_epoch_tokens)

  resume-Kept :
      (d : Driver) (task : Task) (id a clock_in clock_out : ℕ) (interrupted : Bool)
      → Kept d (
          step slab_available entry_available supported d
            (resume task id a clock_in clock_out interrupted))
  unfolding step stub_resume
  resume-Kept d task id a clock_in clock_out interrupted =
      let result : Outcome × Driver → Type 0 = λ r. Kept d r.1 in
      if_cases result (not d.working) (λ _. (refl, refl, refl))
        (λ _. if_cases result interrupted (λ _. (refl, refl, refl)) (λ _. (refl, refl, refl)))

  add-on :
      (w : Bool) (q : Queue) → w ≡ true → is_refused (add_to_queue slab_available w q).0 ≡ false
  unfolding add_to_queue
  add-on true q e = ground arith
  add-on false q e = cc

  queue_call-Blocked :
      (id clock : ℕ) (d : Driver) (flag : Flag)
      → is_refused flag ≡ false
      → let (o, d') = queue_call slab_available entry_available supported id clock d flag in
        Kept d d' × (is_let_through o ≡ false)
  unfolding queue_call
  queue_call-Blocked id clock d faulted e = ((refl, refl, refl), refl)
  queue_call-Blocked id clock d no_memory e = ((refl, refl, refl), refl)
  queue_call-Blocked id clock d turned_off e = cc
  queue_call-Blocked id clock d (queued a) e = ((refl, refl, refl), refl)

  -- While the monitor is on, a call that comes to queue is not let through.
  join-Blocked :
      (d : Driver) (id clock : ℕ)
      → d.working ≡ true
      → let (o, d') = queue_stub slab_available entry_available supported id clock d in
        Kept d d' × (is_let_through o ≡ false)
  unfolding queue_stub
  join-Blocked d id clock on =
      let (flag, q) = add_to_queue slab_available d.working d.queue in
      queue_call-Blocked id clock (record d { queue = q }) flag (add-on d.working d.queue on)

  -- A whole call of a registered thread, while the monitor is on.
  pub stub-let_through :
      (d : Driver) (task : Task) (id clock : ℕ)
      → d.working ≡ true
      → is_registered task d.store ≡ true
      → is_let_through (stub slab_available entry_available supported task id clock d).0
        ≡ ltb (dec32 d.current_epoch_tokens) (2 ^ 31)
  unfolding stub go_on enter_stub
  stub-let_through d task id clock on registered =
      let left = ltb (dec32 d.current_epoch_tokens) (2 ^ 31) in
      let result : Outcome × Driver → Type 0 = λ r. is_let_through r.0 ≡ left in
      let onward : Outcome × Driver → Type 0 =
        λ r. is_let_through (go_on slab_available entry_available supported id clock r).0 ≡ left in
      if_cases result (not d.working) (λ off. cc (off, on))
        (λ _.
          if_cases onward (not (is_registered task d.store)) (λ other. cc (other, registered))
            (λ _.
              if_cases onward left (λ some_left. sym some_left)
                (λ spent. (join-Blocked _ id clock on).1 ∙ sym spent)))

  let_through-tokens :
      (d : Driver) (es : List Event)
      → d.working ≡ true
      → d.current_epoch_tokens < 2 ^ 32
      → asked d.store es ≤ room d
      → let_through d es ≡ min (asked d.store es) (tokens_left d)
  unfolding let_through asked step wait_condition
  let_through-tokens d [] on fits small = omega arith
  let_through-tokens d (enter task ∷ es) on fits small =
      let d' = step slab_available entry_available supported d (enter task) in
      let (w, s, t, o) = enter-Called d task in
      let same = ap (λ st. asked st es) s in
      let kept = count-room d.current_epoch_tokens _ _ (is_registered task d.store) fits t small in
      let rest = let_through-tokens d' es (w ∙ on) kept.0 (omega (arith, same, kept.1)) in
      count-call d.current_epoch_tokens _ _ _ (is_registered task d.store) _ fits t o small
        (rest ∙ ap (λ n. min n (tokens_left d')) same)
  let_through-tokens d (join id clock ∷ es) on fits small =
      let d' = step slab_available entry_available supported d (join id clock) in
      let ((w, s, t), blocked) = join-Blocked d id clock on in
      let same = ap (λ st. asked st es) s in
      let rest =
        let_through-tokens d' es (w ∙ on) (omega (arith, t, fits))
          (omega (arith, t, same, small)) in
      ground (arith, rest, same, t, blocked)
  let_through-tokens d (check id a ∷ es) on fits small =
      let_through-tokens (step slab_available entry_available supported d (check id a)) es on fits
        small
  let_through-tokens d (resume task id a clock_in clock_out interrupted ∷ es) on fits small =
      let d' =
        step slab_available entry_available supported d
          (resume task id a clock_in clock_out interrupted) in
      let (w, s, t) = resume-Kept d task id a clock_in clock_out interrupted in
      let same = ap (λ st. asked st es) s in
      let rest =
        let_through-tokens d' es (w ∙ on) (omega (arith, t, fits))
          (omega (arith, t, same, small)) in
      ground (arith, rest, same, t)

  -- In an epoch, the calls that were waiting and are woken by the timer, and those let through
  -- without waiting from when the timer has set the tokens until the next tick, are together as many
  -- as `max_syscalls_for_epoch`, or as many as wait at the tick and arrive when these are fewer: never
  -- more than the limit, and never fewer than it allows. What the threads do between the timer's
  -- `unqueue` and its setting of the tokens changes nothing of it: calls that queue then wait for the
  -- next tick. The limit is not negative, the monitor is on, and at most 2 ^ 31 calls of registered
  -- threads arrive in the epoch (the counter is an `int`).
  pub epoch-let_through :
      (d : Driver) (between es : List Event)
      → d.working ≡ true
      → d.max_syscalls_for_epoch < 2 ^ 31
      → asked d.store es ≤ 2 ^ 31
      → let released = pos_part (unqueue (to_int d.max_syscalls_for_epoch) d.queue).0 in
        let meanwhile : Driver → Driver =
          λ d1. steps slab_available entry_available supported d1 between in
        released + let_through (timer_callback meanwhile d) es
        ≡ min d.max_syscalls_for_epoch (live d.queue.global_queue + asked d.store es)
  unfolding timer_callback tick_begin tick_end
  epoch-let_through d between es on limit few =
      let (tokens, d1) = tick_begin d in
      let d2 : Driver = steps slab_available entry_available supported d1 between in
      let (store, working) = steps-Stays slab_available entry_available supported between d1 in
      let same = ap (λ st. asked st es) store in
      let (r, t) = tick-tokens d limit in
      let rest =
        let_through-tokens (tick_end tokens d2) es (working ∙ on) (omega (arith, t, limit))
          (omega (arith, t, limit, few, same)) in
      ground (arith, rest, t, same, ap pos_part r)
