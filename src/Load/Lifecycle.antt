-- ===== src/Load/Lifecycle.antt =====
-- A loaded module, over any commands, up to its unloading.
use syscall_throttling.Base.{ℕ, ◌+◌, ◌≡◌, Bool, List}
use syscall_throttling.Base.Int.{ℤ}
use syscall_throttling.Store.{Store}
use syscall_throttling.Store.Registry.{held}
use syscall_throttling.Probe.{Kernel}
use syscall_throttling.Ioctl.{Command, Argument, ioctls}
use syscall_throttling.Load.{System}

module _ (k : Kernel) (available : ℕ → Bool) (made : Bool) (armed : ℤ) where
  -- A life of the module after it has been loaded: any commands, from any callers and whatever fails.
  abbrev pub commanded : List (ℕ × Command × Argument) → System → System
  commanded calls s = record s { loaded = ioctls available k made armed calls s.loaded }

  -- Nothing is left: the state before the commands, and the one after unloading.
  abbrev pub IsBalanced : System → System → Type 0
  IsBalanced s s' =
      s'.loaded.heap.allocated + s.loaded.heap.freed + held s.loaded.driver.store + 3
      ≡ s.loaded.heap.allocated + s'.loaded.heap.freed
