-- ===== src/Device/Tests.antt =====
-- Two threads and the device.
use syscall_throttling.Base.{◌≡◌, refl, true, some, List, [], ◌∷◌, arith}
use syscall_throttling.Base.Int.{pos, negsuc, ◌+ℤ◌, ◌-ℤ◌, int_laws}
use syscall_throttling.Device.{
  outside, busy, inside, Device, Event, opens, gives_back, releases, move, step, run,
}
use syscall_throttling.Device.Setup.{
  device_driver_init, nothing_held, IsAllOrNothing, device_driver_init-IsAllOrNothing,
}
use syscall_throttling.Device.Exclusion.{IsExclusive, run-IsExclusive}

abbrev two_threads : Device
two_threads = record { dev_available = pos 1; threads = outside ∷ outside ∷ [] }

two_threads-IsExclusive : IsExclusive two_threads
two_threads-IsExclusive = record { counted = omega int_laws; exclusive = omega arith }

abbrev events : List Event
events = opens 0 ∷ opens 1 ∷ gives_back 1 ∷ releases 0 ∷ opens 1 ∷ []

run-IsExclusive_example : IsExclusive (run two_threads events)
run-IsExclusive_example = run-IsExclusive two_threads events two_threads-IsExclusive

second_wins : (run two_threads events).threads ≡ outside ∷ inside ∷ []
unfolding run step move ◌+ℤ◌ ◌-ℤ◌
second_wins = refl

first_wins : (run two_threads (opens 0 ∷ opens 1 ∷ [])).threads ≡ inside ∷ busy ∷ []
unfolding run step move ◌+ℤ◌ ◌-ℤ◌
first_wins = refl

device_driver_init-IsAllOrNothing_example :
    IsAllOrNothing (device_driver_init (pos 0) (pos 0) (some (negsuc 11)) true nothing_held)
device_driver_init-IsAllOrNothing_example =
    device_driver_init-IsAllOrNothing (pos 0) (pos 0) (some (negsuc 11)) true refl
