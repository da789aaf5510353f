-- ===== src/User/Client/Setup.antt =====
-- What `setup_throttle` has done when it returns 0.
use syscall_throttling.Base.{ℕ, refl, inl, List}
use syscall_throttling.Base.Lists.{All}
use syscall_throttling.Ioctl.{Module}
use syscall_throttling.Ioctl.Safety.{IsSound}
use syscall_throttling.Ioctl.Effects.{Grows, Grows-refl, Grows-IsOrder}
use syscall_throttling.User.{
  Machine, World, Result, register_user, register_program, register_syscall, turn_on_monitor,
}
use syscall_throttling.User.Client.{is_eexist, is_ealready, done, setup_throttle}
use syscall_throttling.User.Client.Sequence.{
  Finishes, Finishes-map, check-Finishes, check_each-Finishes, all_unit,
}
use syscall_throttling.User.Client.Registering.{
  IsUsual, IsName, HasUser, HasProgram, HasSyscall, IsOn, register_user-Ensures,
  register_program-Ensures, register_syscall-Ensures, turn_on_monitor-Ensures,
}

-- The end of a sequence of registrations.
abbrev pub Ends : Machine → World → (Module → Type 0) → Result → Type 0
Ends = Finishes Grows

-- What `setup_throttle` is for.
pub record IsSetUp (c : Machine) (progs names : List (List ℕ)) (m : Module) : Type 0 where
  pub user : HasUser c.uid m
  pub programs : All (λ p. HasProgram p m) progs
  pub syscalls : All (λ s. HasSyscall c s m) names
  pub on : IsOn m

module _ (c : Machine) where
  -- `setup_throttle` comes to an end, with the module sound and nothing that was registered lost. When
  -- it returns 0, the user is registered and every one of the programs, every one of the system calls
  -- that the library's own list `syscall_symbols` has is marked as probed, under its number in that
  -- list, and the throttling is on; otherwise it returns -1. Nothing is said of whether the kernel
  -- numbers its calls so. That holds whatever was registered or on before. The programs have names of 1 to 15 bytes, and
  -- the kernel answers as it usually does.
  pub setup_throttle-Ends :
      (usual : IsUsual c) (progs syscalls : List (List ℕ)) (w : World)
      → All IsName progs
      → IsSound c.kernel w.loaded
      → Ends c w (IsSetUp c progs syscalls) (setup_throttle c progs syscalls w)
  unfolding setup_throttle
  setup_throttle-Ends usual progs syscalls w names v =
      Finishes-map Grows Grows-IsOrder c w _ (IsSetUp c progs syscalls)
        (setup_throttle c progs syscalls w)
        (λ m (user, (programs, (marked, (on, _)))). record {
          user = user;
          programs = programs;
          syscalls = marked;
          on = on;
        })
        (check-Finishes Grows Grows-IsOrder c is_eexist w (HasUser c.uid) _
          (register_user c c.uid w) _ (λ m m' grows. grows.store.0 c.uid)
          (register_user-Ensures c usual c.uid w v)
          (λ w1 v1.
            check_each-Finishes Grows Grows-IsOrder c is_eexist (register_program c) HasProgram _
              IsName progs _ w1 (λ p m m' grows. grows.store.1 p)
              (λ p w2 name v2. register_program-Ensures c usual p w2 name v2) names
              (λ w2 v2.
                check_each-Finishes Grows Grows-IsOrder c is_eexist (register_syscall c)
                  (HasSyscall c) _ (λ _. Unit) syscalls _ w2
                  (λ s m m' grows has id e. grows.marked id (has id e))
                  (λ s w3 _ v3. register_syscall-Ensures c usual s w3 v3) (all_unit syscalls)
                  (λ w3 v3.
                    check-Finishes Grows Grows-IsOrder c is_ealready w3 IsOn (λ _. Unit)
                      (turn_on_monitor c w3) done (λ m m' grows. grows.working)
                      (turn_on_monitor-Ensures c usual w3 v3)
                      (λ w4 v4. (v4, Grows-refl w4.loaded, inl (refl, tt))))
                  v2)
              v1))
