-- ===== src/User/Client.antt =====
-- user/client.c: the load generator, which sets the module up, hammers it with threads, and takes
-- everything down again.
pub mod Split
pub mod Options
pub mod Spawn
pub mod Tally
pub mod Registering
pub mod Sequence
pub mod Setup
pub mod Deregistering
pub mod Teardown
pub mod Limit
pub mod Main
pub mod Hammering
pub mod Runs
mod Tests
mod LimitTests
mod RunTests
use syscall_throttling.Base.{
  ℕ, Bool, not, ◌&&◌, ◌||◌, none, some, List, [], ◌∷◌, ◌==◌, if◌then◌else◌,
}
use syscall_throttling.Base.Int.{is_zero}
use syscall_throttling.Base.Code.{success, failure}
use syscall_throttling.User.{
  Machine, World, Result, register_user, deregister_user, register_program, deregister_program,
  register_syscall, deregister_syscall, turn_on_monitor, turn_off_monitor,
}

-- The error numbers that the client lets pass: EEXIST, EALREADY, and `is_already_done`.
abbrev pub is_eexist : ℕ → Bool
is_eexist errno = errno == 17

abbrev pub is_ealready : ℕ → Bool
is_ealready errno = errno == 114

abbrev pub is_already_done : ℕ → Bool
is_already_done errno = errno == 17 || (errno == 114 || errno == 22)

-- `if (f(...) != 0 && !passes(errno)) return -1;` and what follows it.
unfoldable pub check : (ℕ → Bool) → Result → (World → Result) → Result
check passes none next = none
check passes (some (code, w)) next =
    let rest = next w in
    if not (is_zero code) && not (passes w.errno) then some (failure, w) else rest

-- The same in a loop over names.
unfoldable pub check_each :
    (ℕ → Bool) → (List ℕ → World → Result) → List (List ℕ) → (World → Result) → World → Result
check_each passes f [] next w = next w
check_each passes f (name ∷ names) next w = check passes (f name w) (check_each passes f names next)

abbrev pub done : World → Result
done w = some (success, w)

module _ (c : Machine) where
  unfoldable pub setup_throttle : List (List ℕ) → List (List ℕ) → World → Result
  setup_throttle progs syscalls w = check is_eexist (register_user c c.uid w) (
      check_each is_eexist (register_program c) progs (
        check_each is_eexist (register_syscall c) syscalls
          (λ w1. check is_ealready (turn_on_monitor c w1) done)))

  unfoldable pub teardown_throttle : List (List ℕ) → List (List ℕ) → World → Result
  teardown_throttle progs syscalls w = check is_ealready (turn_off_monitor c w) (
      check_each is_eexist (deregister_syscall c) syscalls (
        check_each is_already_done (deregister_program c) progs
          (λ w1. check is_already_done (deregister_user c c.uid w1) done)))
