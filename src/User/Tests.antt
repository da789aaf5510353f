-- ===== src/User/Tests.antt =====
-- The user's programs on concrete inputs.
use syscall_throttling.Base.{ℕ, List, [], ◌∷◌}
use syscall_throttling.Base.Text.{codes}
use syscall_throttling.Ioctl.Samples.{kernel-IsApart, loaded-IsSound}
use syscall_throttling.User.Closing.{Leaves}
use syscall_throttling.User.Systhrot.{main}
use syscall_throttling.User.CommandLine.{main-Leaves}
use syscall_throttling.User.Samples.{machine, closed}

abbrev always_7 : List ℕ → ℕ
always_7 text = 7

abbrev register_7 : List (List ℕ)
register_7 = codes "register-user" ∷ codes "7" ∷ []

main-Leaves_example : Leaves machine closed (main machine always_7 register_7 closed)
main-Leaves_example = main-Leaves machine kernel-IsApart closed loaded-IsSound always_7 register_7
