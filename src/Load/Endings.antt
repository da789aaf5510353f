-- ===== src/Load/Endings.antt =====
-- The ways in which `sysThrot_init` can end.
use syscall_throttling.Base.{ℕ, ◌%◌, ◌^◌, ◌≡◌, ◌⊎◌, Bool, true, false, []}
use syscall_throttling.Base.Int.{ℤ, is_zero, is_negative}
use syscall_throttling.Base.Code.{success}
use syscall_throttling.Queue.{Queue}
use syscall_throttling.Throttle.{Driver}
use syscall_throttling.Device.Setup.{nothing_held, all_held}
use syscall_throttling.Load.{System, Answers}

-- Nothing of the module is registered with the kernel: its device, its entry in /proc, its statistics.
-- The timer and the cache of the queue are not looked at here.
pub record IsGone (s : System) : Type 0 where
  pub resources : s.resources ≡ nothing_held
  pub proc_entry : s.proc_entry ≡ false
  pub working : s.loaded.driver.working ≡ false
  pub entries : s.loaded.driver.monitor.syscall_list ≡ []

-- Everything is registered, the counters start at 0, the timer is armed, the throttling is on if it was
-- armed as a new one, and the queue has a cache if one could be made.
pub record IsLoaded (a : Answers) (max_calls_monitor : ℕ) (s : System) : Type 0 where
  pub resources : s.resources ≡ all_held
  pub proc_entry : s.proc_entry ≡ true
  pub working : s.loaded.driver.working ≡ is_zero a.armed
  pub limit : s.loaded.driver.max_syscalls_for_epoch ≡ max_calls_monitor % 2 ^ 32
  pub tokens : s.loaded.driver.current_epoch_tokens ≡ 0
  pub epoch : s.loaded.driver.epoch ≡ 0
  pub timer : s.loaded.driver.timer_pending ≡ true
  pub cache : s.loaded.driver.queue.has_cache ≡ a.made

module _ (a : Answers) (max_calls_monitor : ℕ) where
  -- The queue and the timer after a load that failed: as they were; or, when it was the timer that
  -- could not be armed, as `sysThrot_turn_on` left them, with the cache that was made and the timer
  -- taken to be pending, since nothing takes either back.
  abbrev pub Leftover : Queue → Bool → Driver → Type 0
  Leftover q pending d =
      ((d.queue ≡ q) × (d.timer_pending ≡ pending))
      ⊎ ((is_negative a.armed ≡ true) × (d.queue.has_cache ≡ a.made) × (d.timer_pending ≡ true))

  -- How a load ends, from a state with this queue and timer.
  abbrev pub Outcome : Queue → Bool → ℤ × System → Type 0
  Outcome q pending (code, s) =
      ((code ≡ success) × IsLoaded a max_calls_monitor s)
      ⊎ ((is_negative code ≡ true) × IsGone s × Leftover q pending s.loaded.driver)
