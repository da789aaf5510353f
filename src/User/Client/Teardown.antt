-- ===== src/User/Client/Teardown.antt =====
-- What `teardown_throttle` has done when it returns 0.
use syscall_throttling.Base.{ℕ, ◌≡◌, refl, inl, inr, Bool, Bool-cases, true, false, List}
use syscall_throttling.Store.Registry.{has_user, has_program}
use syscall_throttling.Base.Lists.{All}
use syscall_throttling.Ioctl.{Module}
use syscall_throttling.Ioctl.Safety.{IsSound}
use syscall_throttling.Ioctl.Effects.{Grows-refl}
use syscall_throttling.Ioctl.Removals.{Shrinks, Shrinks-IsOrder}
use syscall_throttling.User.{
  Machine, World, deregister_user, deregister_program, deregister_syscall, turn_off_monitor,
}
use syscall_throttling.User.Client.{
  is_eexist, is_ealready, is_already_done, done, teardown_throttle,
}
use syscall_throttling.User.Client.Sequence.{
  Finishes, Finishes-map, check-Finishes, check_each-Finishes, all_unit,
}
use syscall_throttling.User.Client.Registering.{IsUsual, IsName}
use syscall_throttling.User.Client.Deregistering.{
  OpensUsually, Drains, LacksUser, LacksProgram, LacksSyscall, IsOff, turn_off_monitor-Does,
  deregister_user-Does, deregister_program-Does, deregister_syscall-Does,
}

-- What `teardown_throttle` is for.
pub record IsTakenDown (c : Machine) (progs names : List (List ℕ)) (m : Module) : Type 0 where
  pub user : LacksUser c.uid m
  pub programs : All (λ p. LacksProgram p m) progs
  pub syscalls : All (λ s. LacksSyscall c s m) names
  pub off : IsOff m

is_false :
    (m m' : Module) (f : Module → Bool) → (f m' ≡ true → f m ≡ true) → f m ≡ false → f m' ≡ false
is_false m m' f back gone = elim (Bool-cases (f m')) [
  | inl on ↦ absurd (cc (back on, gone))
  | inr off ↦ off
]

module _ (c : Machine) where
  -- `teardown_throttle` comes to an end, with the module sound and nothing registered, marked or on
  -- that was not so before. When it returns 0, the user is not registered and none of the programs is,
  -- none of the system calls that the library's own list `syscall_symbols` has is marked as probed,
  -- under its number in that list, and the throttling is off; otherwise it returns -1. Nothing is said
  -- of whether the kernel numbers its calls so. That holds whatever was registered or on before. The programs have names
  -- of 1 to 15 bytes, the kernel answers as it usually does, and the calls that are inside when the
  -- throttling is turned off come back.
  pub teardown_throttle-Finishes :
      (usual : IsUsual c) (opens : OpensUsually c) (progs syscalls : List (List ℕ)) (w : World)
      → All IsName progs
      → IsSound c.kernel w.loaded
      → Drains c w.loaded
      → Finishes Shrinks c w (IsTakenDown c progs syscalls) (teardown_throttle c progs syscalls w)
  unfolding teardown_throttle
  teardown_throttle-Finishes usual opens progs syscalls w names v drains =
      Finishes-map Shrinks Shrinks-IsOrder c w _ (IsTakenDown c progs syscalls)
        (teardown_throttle c progs syscalls w)
        (λ m (off, (marked, (programs, (user, _)))). record {
          user = user;
          programs = programs;
          syscalls = marked;
          off = off;
        })
        (check-Finishes Shrinks Shrinks-IsOrder c is_ealready w IsOff _ (turn_off_monitor c w) _
          (λ m m' shrinks. is_false m m' (λ n. n.driver.working) shrinks.working)
          (turn_off_monitor-Does c usual opens w v drains)
          (λ w1 v1.
            check_each-Finishes Shrinks Shrinks-IsOrder c is_eexist (deregister_syscall c)
              (LacksSyscall c) _ (λ _. Unit) syscalls _ w1
              (λ s m m' shrinks lacks id e.
                is_false m m' (λ n. n.probes.syscall_presence_bitmap id) (shrinks.marked id)
                  (lacks id e))
              (λ s w2 _ v2. deregister_syscall-Does c usual opens s w2 v2) (all_unit syscalls)
              (λ w2 v2.
                check_each-Finishes Shrinks Shrinks-IsOrder c is_already_done (deregister_program c)
                  LacksProgram _ IsName progs _ w2
                  (λ p m m' shrinks.
                    is_false m m' (λ n. has_program n.driver.store p) (shrinks.store.1 p))
                  (λ p w3 name v3. deregister_program-Does c usual opens p w3 name v3) names
                  (λ w3 v3.
                    check-Finishes Shrinks Shrinks-IsOrder c is_already_done w3 (LacksUser c.uid)
                      (λ _. Unit) (deregister_user c c.uid w3) done
                      (λ m m' shrinks.
                        is_false m m' (λ n. has_user n.driver.store c.uid) (shrinks.store.0 c.uid))
                      (deregister_user-Does c usual opens c.uid w3 v3)
                      (λ w4 v4. (v4, Grows-refl w4.loaded, inl (refl, tt))))
                  v2)
              v1))
