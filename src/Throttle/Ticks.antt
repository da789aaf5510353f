-- ===== src/Throttle/Ticks.antt =====
-- What `timer_callback` releases and what it leaves to be handed out.
use syscall_throttling.Base.{ℕ, ◌-◌, ◌^◌, ◌≤◌, ◌<◌, ◌≡◌, ap, ◌∙◌, min, arith}
use syscall_throttling.Base.Int.{pos, pos_part, ◌-ℤ◌}
use syscall_throttling.Queue.{unqueue}
use syscall_throttling.Queue.Fifo.{live, unqueue-oldest}
use syscall_throttling.Throttle.{Driver, to_int, of_int, tick_begin}

to_int-small : (w : ℕ) → w < 2 ^ 31 → to_int w ≡ pos w
to_int-small w h = ground arith

of_int-sub : (m k : ℕ) → m < 2 ^ 31 → k ≤ m → of_int (pos m -ℤ pos k) ≡ m - k
unfolding ◌-ℤ◌
of_int-sub m k h l = ground arith

-- What a tick releases, and the tokens that it will leave.
pub tick-tokens :
    (d : Driver)
    → d.max_syscalls_for_epoch < 2 ^ 31
    → let released = min d.max_syscalls_for_epoch (live d.queue.global_queue) in
      ((unqueue (to_int d.max_syscalls_for_epoch) d.queue).0 ≡ pos released)
      × (of_int (tick_begin d).0 ≡ d.max_syscalls_for_epoch - released)
unfolding tick_begin
tick-tokens d limit =
    let m = d.max_syscalls_for_epoch in
    let (prefix, _, _, r, n, _) = unqueue-oldest (to_int m) d.queue in
    let same = to_int-small m limit in
    let released : (unqueue (to_int m) d.queue).0 ≡ pos (min m (live d.queue.global_queue)) =
      r ∙ ap pos (n ∙ ap (λ k. min (pos_part k) (live d.queue.global_queue)) same) in
    (
      released,
      ap (λ k. of_int (to_int m -ℤ k)) released
          ∙ ap (λ k. of_int (k -ℤ pos (min m (live d.queue.global_queue)))) same
          ∙ of_int-sub m (min m (live d.queue.global_queue)) limit (omega arith),
    )
