-- ===== src/User/CommandLine.antt =====
-- What a run of user/systhrot.c leaves behind, and the test of user/lib/sysThrot.h that opens the
-- device twice.
use syscall_throttling.Base.{
  ℕ, ◌≡◌, refl, ap, ◌∙◌, inl, inr, Bool, true, false, none, some, Option-cases, List, [], ◌∷◌,
  if_cases, if◌then◌else◌, arith,
}
use syscall_throttling.Base.Int.{ℤ, pos, negsuc, ◌+ℤ◌, ◌-ℤ◌}
use syscall_throttling.Base.Code.{failure}
use syscall_throttling.Base.Text.{codes}
use syscall_throttling.Store.Keys.{compare_program}
use syscall_throttling.Probe.Invariant.{IsApart}
use syscall_throttling.Ioctl.{Command}
use syscall_throttling.Ioctl.Safety.{IsSound}
use syscall_throttling.Device.{sys_throt_open, sys_throt_release}
use syscall_throttling.User.{
  Machine, World, Result, opened, open_node, open_device, close_device, send_id, register_user,
  deregister_user, register_program, deregister_program, register_syscall, deregister_syscall,
  turn_on_monitor, turn_off_monitor, open_again, double_open_test,
}
use syscall_throttling.User.Closing.{Leaves, Opens, open_device-Opens, send-Leaves}
use syscall_throttling.User.Systhrot.{exit_failure, exit_with, with_argument, main}

module _ (c : Machine) (ok : IsApart c.kernel) (w : World) (v : IsSound c.kernel w.loaded) where
  exit_with-Leaves : (r : Result) → Leaves c w r → Leaves c w (exit_with r)
  unfolding exit_with
  exit_with-Leaves none inside = inside
  exit_with-Leaves (some (code, w1)) left = left

  if-Leaves :
      (b : Bool) (x y : Result) → Leaves c w x → Leaves c w y → Leaves c w (if b then x else y)
  if-Leaves b x y here there = if_cases (Leaves c w) b (λ _. here) (λ _. there)

  as_it_was : Leaves c w (some (exit_failure, w))
  as_it_was = (refl, (v, omega arith))

  pub send_id-Leaves : (command : Command) (id : ℤ) → Leaves c w (send_id c command id w)
  unfolding send_id
  send_id-Leaves command (pos id) = send-Leaves c ok command _ w v
  send_id-Leaves command (negsuc n) = as_it_was

  module _ (atoi : List ℕ → ℕ) where
    with_argument-Leaves :
        (f : List ℕ → World → Result) (args : List (List ℕ))
        → ((arg : List ℕ) → Leaves c w (f arg w))
        → Leaves c w (with_argument c atoi f args w)
    unfolding with_argument
    with_argument-Leaves f [] leaves = as_it_was
    with_argument-Leaves f (arg ∷ more) leaves = exit_with-Leaves (f arg w) (leaves arg)

    -- Whatever the command line: a run that ends has closed the device again, whose counter is what it
    -- was; the store is well formed, every call marked as probed is patched, and no object of the
    -- kernel is lost. A run that does not end is one that waits in `sysThrot_turn_off` for threads
    -- that have not left the module. The functions that kprobes find do not overlap in their first
    -- five bytes.
    pub main-Leaves : (argv : List (List ℕ)) → Leaves c w (main c atoi argv w)
    unfolding main register_user deregister_user register_program deregister_program
        register_syscall deregister_syscall turn_on_monitor turn_off_monitor
    main-Leaves [] = as_it_was
    main-Leaves (cmd ∷ args) =
        if-Leaves (compare_program cmd (codes "register-user")) _ _
          (with_argument-Leaves _ args (λ arg. send-Leaves c ok Command.register_user _ w v))
          (if-Leaves (compare_program cmd (codes "deregister-user")) _ _
            (with_argument-Leaves _ args (λ arg. send-Leaves c ok Command.deregister_user _ w v))
            (if-Leaves (compare_program cmd (codes "register-program")) _ _
              (with_argument-Leaves _ args (λ arg. send-Leaves c ok Command.register_program _ w v))
              (if-Leaves (compare_program cmd (codes "deregister-program")) _ _
                (with_argument-Leaves _ args
                  (λ arg. send-Leaves c ok Command.deregister_program _ w v))
                (if-Leaves (compare_program cmd (codes "register-syscall")) _ _
                  (with_argument-Leaves _ args (λ arg. send_id-Leaves Command.register_syscall _))
                  (if-Leaves (compare_program cmd (codes "deregister-syscall")) _ _
                    (with_argument-Leaves _ args
                      (λ arg. send_id-Leaves Command.deregister_syscall _))
                    (if-Leaves (compare_program cmd (codes "on")) _ _
                      (exit_with-Leaves _ (send-Leaves c ok Command.switch_on _ w v))
                      (if-Leaves (compare_program cmd (codes "off")) _ _
                        (exit_with-Leaves _ (send-Leaves c ok Command.switch_off _ w v))
                        as_it_was)))))))

-- The second opening fails, and the counter is then what it was.
abbrev Refuses : World → Bool × World → Type 0
Refuses w (got, w1) = (got ≡ false) × (w1.loaded ≡ w.loaded) × (w1.dev_available ≡ w.dev_available)

again-Refuses : (c : Machine) (w : World) → w.dev_available ≡ pos 0 → Refuses w (open_device c w)
unfolding open_device open_node opened sys_throt_open ◌-ℤ◌ ◌+ℤ◌
again-Refuses c w zero_left = elim (Option-cases c.node_error) [
  | inr (error, e) ↦ rw e (refl, refl, refl)
  | inl e ↦ rw (e, zero_left) (refl, refl, refl)
]

opened_once-fails :
    (c : Machine) (w : World) (r : Bool × World)
    → Opens w r
    → let (code, w1) = if r.0 then open_again c (open_device c r.1) else (failure, r.1) in
      (code ≡ failure) × (w1.loaded ≡ w.loaded) × (w1.dev_available ≡ w.dev_available)
unfolding open_again close_device
opened_once-fails c w (false, w1) (same, _, left) = (refl, same, left)
opened_once-fails c w (true, w1) (same, none_left, closed) =
    let (busy, same_again, counter) = again-Refuses c w1 (none_left refl) in
    rw busy (refl, same_again ∙ same, ap (λ n. (sys_throt_release n).1) counter ∙ closed)

-- `double_open_test` always fails, whatever the counter was and whether or not the node can be
-- opened, and it leaves the module and the counter as they were.
pub double_open_test-fails :
    (c : Machine) (w : World)
    → let (code, w1) = double_open_test c w in
      (code ≡ failure) × (w1.loaded ≡ w.loaded) × (w1.dev_available ≡ w.dev_available)
unfolding double_open_test
double_open_test-fails c w = opened_once-fails c w (open_device c w) (open_device-Opens c w)
