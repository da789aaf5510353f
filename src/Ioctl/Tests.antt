-- ===== src/Ioctl/Tests.antt =====
-- The commands on concrete inputs.
use syscall_throttling.Base.{ℕ, ◌≡◌, true, some, none, List, [], ◌∷◌}
use syscall_throttling.Base.Int.{pos}
use syscall_throttling.Base.Code.{enoent}
use syscall_throttling.Ioctl.{
  Command, register_user, register_program, register_syscall, deregister_user, switch_off, Argument,
  ioctls,
}
use syscall_throttling.Ioctl.Samples.{always, kernel, kernel-IsApart, loaded, loaded-IsSound}
use syscall_throttling.Ioctl.Access.{of_root, ioctls-of_root}
use syscall_throttling.Ioctl.Safety.{Keeps, ioctls-Keeps}

abbrev user_1000 : Argument
user_1000 = record { word = some 1000; name = (pos 2, 115 ∷ 104 ∷ []) }

abbrev bad_pointer : Argument
bad_pointer = record { word = none; name = (enoent, []) }

abbrev calls : List (ℕ × Command × Argument)
calls =
    (0, register_user, user_1000)
    ∷ (0, register_program, user_1000)
    ∷ (7, deregister_user, user_1000)
    ∷ (0, register_syscall, bad_pointer)
    ∷ (0, register_syscall, record { word = some 0; name = (enoent, []) })
    ∷ (0, switch_off, bad_pointer)
    ∷ []

ioctls-Keeps_example :
    Keeps kernel loaded.heap 0 loaded (ioctls always kernel true (pos 0) calls loaded)
ioctls-Keeps_example =
    ioctls-Keeps always kernel true (pos 0) kernel-IsApart calls loaded loaded-IsSound

ioctls-of_root_example :
    ioctls always kernel true (pos 0) calls loaded
    ≡ ioctls always kernel true (pos 0) (of_root always kernel true (pos 0) calls) loaded
ioctls-of_root_example = ioctls-of_root always kernel true (pos 0) calls loaded
