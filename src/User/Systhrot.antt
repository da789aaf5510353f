-- ===== src/User/Systhrot.antt =====
-- user/systhrot.c: the command line that sends one command.
use syscall_throttling.Base.{ℕ, List, [], ◌∷◌, none, some, if◌then◌else◌}
use syscall_throttling.Base.Int.{ℤ, pos, is_negative}
use syscall_throttling.Base.Text.{codes}
use syscall_throttling.Store.Keys.{compare_program}
use syscall_throttling.User.{
  Machine, World, Result, register_user, deregister_user, register_program, deregister_program,
  register_syscall, deregister_syscall, turn_on_monitor, turn_off_monitor,
}

abbrev pub exit_success : ℤ
exit_success = pos 0

abbrev pub exit_failure : ℤ
exit_failure = pos 1

-- `f(...) < 0 ? EXIT_FAILURE : EXIT_SUCCESS`
unfoldable pub exit_with : Result → Result
exit_with none = none
exit_with (some (code, w)) = some (if is_negative code then exit_failure else exit_success, w)

-- `atoi` gives the 32-bit pattern of the `int`.
module _ (c : Machine) (atoi : List ℕ → ℕ) where
  -- A command with its argument, which may be missing.
  unfoldable pub with_argument : (List ℕ → World → Result) → List (List ℕ) → World → Result
  with_argument f [] w = some (exit_failure, w)
  with_argument f (arg ∷ more) w = exit_with (f arg w)

  -- `argv` from `argv[1]` on.
  unfoldable pub main : List (List ℕ) → World → Result
  main [] w = some (exit_failure, w)
  main (cmd ∷ args) w =
      if compare_program cmd (codes "register-user")
      then with_argument (λ uid. register_user c (atoi uid)) args w
      else if compare_program cmd (codes "deregister-user")
      then with_argument (λ uid. deregister_user c (atoi uid)) args w
      else if compare_program cmd (codes "register-program")
      then with_argument (register_program c) args w
      else if compare_program cmd (codes "deregister-program")
      then with_argument (deregister_program c) args w
      else if compare_program cmd (codes "register-syscall")
      then with_argument (register_syscall c) args w
      else if compare_program cmd (codes "deregister-syscall")
      then with_argument (deregister_syscall c) args w
      else if compare_program cmd (codes "on")
      then exit_with (turn_on_monitor c w)
      else if compare_program cmd (codes "off")
      then exit_with (turn_off_monitor c w)
      else some (exit_failure, w)
