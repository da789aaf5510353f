-- ===== src/User/Closing.antt =====
-- The device after a command of the user's programs.
use syscall_throttling.Base.{
  zero, suc, ◌≡◌, ◌==◌, refl, ap, subst, sym, ◌∙◌, Bool, true, false, Option, none, some,
  if◌then◌else◌, if_cases, Option-cases, inl, inr, arith,
}
use syscall_throttling.Base.Int.{ℤ, pos, negsuc, ◌+ℤ◌, ◌-ℤ◌, is_zero, int_laws}
use syscall_throttling.Base.Code.{failure}
use syscall_throttling.Store.Registry.{IsValid, held}
use syscall_throttling.Throttle.{Driver, is_drained, turn_off, turn_off_finish}
use syscall_throttling.Throttle.Events.{steps}
use syscall_throttling.Throttle.Switch.{wait_drained, steps-store}
use syscall_throttling.Probe.Invariant.{IsApart}
use syscall_throttling.Ioctl.{Command, Argument, Module}
use syscall_throttling.Ioctl
use syscall_throttling.Ioctl.Safety.{IsSound, Keeps, ioctl-Keeps}
use syscall_throttling.Device.{sys_throt_open, sys_throt_release}
use syscall_throttling.User.{
  Machine, World, Result, opened, open_node, open_device, close_device, answered, stopped,
  come_back, ioctl, close_after, send,
}

back : (n : ℤ) → n -ℤ pos 1 +ℤ pos 1 ≡ n
back n = omega int_laws

release_open : (n : ℤ) → (sys_throt_release (n -ℤ pos 1)).1 ≡ n
unfolding sys_throt_release
release_open n = back n

-- `sysThrot_open` gives the device, whose counter goes down, or leaves the counter alone.
abbrev pub Opens : World → Bool × World → Type 0
Opens w (got, w1) =
    (w1.loaded ≡ w.loaded)
    × (got ≡ true → w1.dev_available ≡ pos 0)
    × ((if got then (close_device w1).dev_available else w1.dev_available) ≡ w.dev_available)

is_zero_eq : (n : ℤ) → is_zero n ≡ true → n ≡ pos 0
is_zero_eq (pos zero) e = refl
is_zero_eq (pos (suc n)) e = cc
is_zero_eq (negsuc n) e = cc

pub open_device-Opens : (c : Machine) (w : World) → Opens w (open_device c w)
unfolding open_device open_node opened close_device sys_throt_open
open_device-Opens c w = elim (Option-cases c.node_error) [
  | inr (error, e) ↦ rw e (refl, λ got. cc, refl)
  | inl e ↦ rw e (
      if_cases (λ (r : ℤ × ℤ). Opens w (opened w r)) (is_zero (w.dev_available -ℤ pos 1))
        (λ left. (refl, λ _. is_zero_eq _ left, release_open w.dev_available))
        (λ _. (refl, λ got. cc, back w.dev_available)))
]

-- What a program that has come back from the kernel, or that stays there, has left.
abbrev pub Leaves : Machine → World → Result → Type 0
Leaves c w (some (code, w1)) =
    (w1.dev_available ≡ w.dev_available) × Keeps c.kernel w.loaded.heap 0 w.loaded w1.loaded
Leaves c w none =
    is_drained (
      steps c.slab_available c.entry_available c.kernel.supported (turn_off w.loaded.driver).1
        c.meanwhile)
    ≡ false

-- Only `sysThrot_turn_off` waits.
abbrev Waits : Module → Option ℤ × Module → Type 0
Waits m (answer, m1) = answer ≡ none → m1.driver ≡ (turn_off m.driver).1

module _ (c : Machine) where
  ioctl-Waits :
      (command : Command) (arg : Argument) (m : Module)
      → Waits m (Ioctl.ioctl c.available c.kernel c.made c.armed c.uid command arg m)
  unfolding Ioctl.ioctl Ioctl.command_by_root
  ioctl-Waits Command.register_user arg m = if_cases (Waits m) (c.uid == 0) (λ _ h. cc) (λ _ h. cc)
  ioctl-Waits Command.deregister_user arg m =
      if_cases (Waits m) (c.uid == 0) (λ _ h. cc) (λ _ h. cc)
  ioctl-Waits Command.register_program arg m =
      if_cases (Waits m) (c.uid == 0) (λ _ h. cc) (λ _ h. cc)
  ioctl-Waits Command.deregister_program arg m =
      if_cases (Waits m) (c.uid == 0) (λ _ h. cc) (λ _ h. cc)
  ioctl-Waits Command.register_syscall arg m =
      if_cases (Waits m) (c.uid == 0) (λ _ h. cc) (λ _ h. cc)
  ioctl-Waits Command.deregister_syscall arg m =
      if_cases (Waits m) (c.uid == 0) (λ _ h. cc) (λ _ h. cc)
  ioctl-Waits Command.switch_on arg m = if_cases (Waits m) (c.uid == 0) (λ _ h. cc) (λ _ h. cc)
  ioctl-Waits Command.switch_off arg m = if_cases (Waits m) (c.uid == 0) (λ _ h. refl) (λ _ h. cc)
  ioctl-Waits (Command.unknown n) arg m = λ h. cc

  come_back-Leaves :
      (w : World) (r : Option ℤ × Module)
      → Waits w.loaded r
      → Keeps c.kernel w.loaded.heap 0 w.loaded r.1
      → Leaves c w (come_back c w r)
  unfolding come_back answered stopped wait_drained turn_off_finish
  come_back-Leaves w (some (pos n), m) waits keeps = (refl, keeps)
  come_back-Leaves w (some (negsuc n), m) waits keeps = (refl, keeps)
  come_back-Leaves w (none, m) waits (sound, b) =
      let d : Driver =
        steps c.slab_available c.entry_available c.kernel.supported m.driver c.meanwhile in
      let same =
        steps-store c.slab_available c.entry_available c.kernel.supported c.meanwhile m.driver in
      if_cases (λ (r : Option (ℤ × Driver)). Leaves c w (stopped c w m r)) (is_drained d)
        (λ _. (
          refl,
          (
            record { store = subst IsValid (sym same) sound.store; probes = sound.probes },
            omega (arith, b, ap held same),
          ),
        ))
        (λ inside.
          subst
            (λ e.
              is_drained (steps c.slab_available c.entry_available c.kernel.supported e c.meanwhile)
              ≡ false)
            (waits refl) inside)

  close_after-Leaves :
      (w w1 : World) (r : Result)
      → w1.loaded ≡ w.loaded
      → (close_device w1).dev_available ≡ w.dev_available
      → Leaves c w1 r
      → Leaves c w (close_after c r)
  unfolding close_after close_device sys_throt_release
  close_after-Leaves w w1 none same closed inside =
      subst
        (λ m.
          is_drained (
            steps c.slab_available c.entry_available c.kernel.supported (turn_off m.driver).1
              c.meanwhile)
          ≡ false)
        same inside
  close_after-Leaves w w1 (some (code, w2)) same closed (counter, keeps) = (
    ap (λ n. n +ℤ pos 1) counter ∙ closed,
    subst (λ m. Keeps c.kernel m.heap 0 m w2.loaded) same keeps,
  )

  module _ (ok : IsApart c.kernel) where
    ioctl-Leaves :
        (command : Command) (arg : Argument) (w : World)
        → IsSound c.kernel w.loaded
        → Leaves c w (ioctl c command arg w)
    unfolding ioctl
    ioctl-Leaves command arg w v =
        come_back-Leaves w _ (ioctl-Waits command arg w.loaded)
          (ioctl-Keeps c.available c.kernel c.made c.armed ok c.uid command arg w.loaded v)

    send_opened-Leaves :
        (command : Command) (arg : Argument) (w : World) (r : Bool × World)
        → IsSound c.kernel w.loaded
        → Opens w r
        → Leaves c w (if r.0 then close_after c (ioctl c command arg r.1) else some (failure, r.1))
    send_opened-Leaves command arg w (true, w1) v (same, _, closed) =
        close_after-Leaves w w1 (ioctl c command arg w1) same closed
          (ioctl-Leaves command arg w1 (subst (IsSound c.kernel) (sym same) v))
    send_opened-Leaves command arg w (false, w1) v (same, _, left) =
        (left, subst (λ m. Keeps c.kernel w.loaded.heap 0 w.loaded m) (sym same) (v, omega arith))

    pub send-Leaves :
        (command : Command) (arg : Argument) (w : World)
        → IsSound c.kernel w.loaded
        → Leaves c w (send c command arg w)
    unfolding send
    send-Leaves command arg w v =
        send_opened-Leaves command arg w (open_device c w) v (open_device-Opens c w)
