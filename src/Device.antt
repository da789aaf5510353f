-- ===== src/Device.antt =====
-- sysThrot.c: opening and releasing the character device, by any number of threads. The counter is
-- decremented and tested in one atomic step; a thread that fails the test increments it in another.
pub mod Exclusion
pub mod Setup
mod Tests
use syscall_throttling.Base.{
  ℕ, zero, suc, Bool, true, false, Option, none, some, Option, List, [], ◌∷◌, if◌then◌else◌,
}
use syscall_throttling.Base.Int.{ℤ, pos, ◌+ℤ◌, ◌-ℤ◌, is_zero}
use syscall_throttling.Base.Code.{success, ebusy}

-- Where a thread is: outside the device, in `sysThrot_open` after a failed test, or with the device
-- open.
pub data Phase : Type 0 where
  outside busy inside : Phase

abbrev pub same_phase : Phase → Phase → Bool
same_phase outside outside = true
same_phase busy busy = true
same_phase inside inside = true
same_phase _ _ = false

pub record Device : Type 0 where
  pub dev_available : ℤ
  pub threads : List Phase

-- The thread at a place goes from one phase to another, if it is in the first.
unfoldable pub move : ℕ → Phase → Phase → List Phase → Option (List Phase)
move i from to [] = none
move zero from to (p ∷ ps) = if same_phase p from then some (to ∷ ps) else none
move (suc i) from to (p ∷ ps) = elim (move i from to ps) [ none ↦ none | some qs ↦ some (p ∷ qs) ]

-- The atomic steps: `atomic_dec_and_test` of `sysThrot_open`, its `atomic_inc` on the way to -EBUSY,
-- and the `atomic_inc` of `sysThrot_release`.
pub data Event : Type 0 where
  opens gives_back releases : ℕ → Event

abbrev pub moved : Device → ℤ → Option (List Phase) → Device
moved d n none = d
moved d n (some ts) = record { dev_available = n; threads = ts }

unfoldable pub step : Device → Event → Device
step d (opens i) =
    let left = d.dev_available -ℤ pos 1 in
    moved d left (move i outside (if is_zero left then inside else busy) d.threads)
step d (gives_back i) = moved d (d.dev_available +ℤ pos 1) (move i busy outside d.threads)
step d (releases i) = moved d (d.dev_available +ℤ pos 1) (move i inside outside d.threads)

unfoldable pub run : Device → List Event → Device
run d [] = d
run d (e ∷ es) = run (step d e) es

-- `sysThrot_open` and `sysThrot_release` when no other thread is in them: the result and the
-- counter.
unfoldable pub sys_throt_open : ℤ → ℤ × ℤ
sys_throt_open dev_available =
    let left = dev_available -ℤ pos 1 in
    if is_zero left then (success, left) else (ebusy, left +ℤ pos 1)

unfoldable pub sys_throt_release : ℤ → ℤ × ℤ
sys_throt_release dev_available = (success, dev_available +ℤ pos 1)
