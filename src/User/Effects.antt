-- ===== src/User/Effects.antt =====
-- What the functions of user/lib/sysThrot.h have done when they return 0, or with an error that the
-- caller lets pass.
use syscall_throttling.Base.{
  ℕ, ◌≡◌, refl, subst, sym, Bool, true, false, ◌||◌, Option, none, some, inl, inr, ◌==◌,
  if◌then◌else◌, if_cases, Option-cases,
}
use syscall_throttling.Base.Int.{ℤ, pos, negsuc, is_zero, ◌-ℤ◌}
use syscall_throttling.Base.Code.{failure}
use syscall_throttling.Throttle.{Driver}
use syscall_throttling.Throttle.Events.{steps}
use syscall_throttling.Throttle.Switch.{wait_drained}
use syscall_throttling.Probe.Invariant.{IsApart}
use syscall_throttling.Ioctl.{Command, Argument, Module, command_by_root}
use syscall_throttling.Ioctl
use syscall_throttling.Ioctl.Access.{is_known, ioctl-checked}
use syscall_throttling.Ioctl.Safety.{IsSound}
use syscall_throttling.Ioctl.Effects.{Grows, IsOrder, Effect}
use syscall_throttling.Device.{sys_throt_open}
use syscall_throttling.User.{
  Machine, World, Result, opened, open_node, open_device, close_device, answered, stopped,
  come_back, ioctl, close_after, send,
}
use syscall_throttling.User.Closing.{open_device-Opens, Leaves, send-Leaves}

-- The program has gone on; the module has changed only as `R` says; and if the status passes then
-- `Goal` holds.
abbrev pub Effects :
    (R : Module → Module → Type 0) → (ℕ → Bool) → World → (Module → Type 0) → Result → Type 0
Effects R passes w Goal none = ⊥
Effects R passes w Goal (some (code, w1)) =
    R w.loaded w1.loaded × ((is_zero code || passes w1.errno) ≡ true → Goal w1.loaded)

-- The same, with the module sound.
abbrev pub Does :
    (R : Module → Module → Type 0)
    → Machine
    → (ℕ → Bool)
    → World
    → (Module → Type 0)
    → Result
    → Type 0
Does R c passes w Goal none = ⊥
Does R c passes w Goal (some (code, w1)) =
    IsSound c.kernel w1.loaded
    × R w.loaded w1.loaded
    × ((is_zero code || passes w1.errno) ≡ true → Goal w1.loaded)

-- With nothing lost.
abbrev pub Ensures : Machine → (ℕ → Bool) → World → (Module → Type 0) → Result → Type 0
Ensures = Does Grows

-- The end of the wait in `sysThrot_turn_off`.
abbrev pub Waited :
    (R : Module → Module → Type 0)
    → (ℕ → Bool)
    → (Module → Type 0)
    → Module
    → Module
    → Option (ℤ × Driver)
    → Type 0
Waited R passes Goal m m' none = ⊥
Waited R passes Goal m m' (some (code, d)) = Effect R passes m Goal (code, record m' { driver = d })

-- A command of root that comes back with a status, at once or after the wait, and does what `Goal`
-- says if that passes.
abbrev pub Commands :
    (R : Module → Module → Type 0)
    → Machine
    → (ℕ → Bool)
    → (Module → Type 0)
    → Module
    → Option ℤ × Module
    → Type 0
Commands R c passes Goal m (none, m') =
    let supported = c.kernel.supported in
    Waited R passes Goal m m' (
      wait_drained c.slab_available c.entry_available supported
        (steps c.slab_available c.entry_available supported m'.driver c.meanwhile))
Commands R c passes Goal m (some code, m') = Effect R passes m Goal (code, m')

-- The error numbers that mean that nothing has been done, of which none passes.
abbrev pub AreBasic : (ℕ → Bool) → Type 0
AreBasic passes = (passes 1 ≡ false) × (passes 12 ≡ false) × (passes 16 ≡ false)

module _ (R : Module → Module → Type 0) (order : IsOrder R) (c : Machine) (passes : ℕ → Bool)
    (errors : AreBasic passes) (node : (e : ℕ) → c.node_error ≡ some e → passes e ≡ false) where
  open-errors : (w : World) → (open_device c w).0 ≡ false → passes (open_device c w).1.errno ≡ false
  unfolding open_device open_node opened sys_throt_open
  open-errors w = elim (Option-cases c.node_error) [
    | inr (error, e) ↦ rw e (λ _. node error e)
    | inl e ↦
        let (_, _, busy) = errors in
        rw e (
          if_cases (λ (r : ℤ × ℤ). (opened w r).0 ≡ false → passes (opened w r).1.errno ≡ false)
            (is_zero (w.dev_available -ℤ pos 1)) (λ _ got. cc) (λ _ _. busy))
  ]

  close_after-Waited :
      (w : World) (m : Module) (Goal : Module → Type 0) (r : Option (ℤ × Driver))
      → Waited R passes Goal w.loaded m r
      → Effects R passes w Goal (close_after c (stopped c w m r))
  unfolding close_after close_device stopped answered
  close_after-Waited w m Goal none impossible = impossible
  close_after-Waited w m Goal (some (pos n, d)) (kept, goal) = (kept, λ _. goal refl)
  close_after-Waited w m Goal (some (negsuc n, d)) (kept, goal) = (kept, goal)

  close_after-Effects :
      (w : World) (Goal : Module → Type 0) (r : Option ℤ × Module)
      → Commands R c passes Goal w.loaded r
      → Effects R passes w Goal (close_after c (come_back c w r))
  unfolding close_after close_device come_back answered
  close_after-Effects w Goal (none, m) waited = close_after-Waited w m Goal _ waited
  close_after-Effects w Goal (some (pos n), m) (grows, goal) = (grows, λ _. goal refl)
  close_after-Effects w Goal (some (negsuc n), m) (grows, goal) = (grows, goal)

  module _ (command : Command) (arg : Argument) (Goal Fits : Module → Type 0)
      (known : is_known command ≡ true)
      (enrols : (m : Module)
        → Fits m
        → Commands R c passes Goal m
            (command_by_root c.available c.kernel c.made c.armed command arg m)) where
    ioctl-Commands :
        (m : Module)
        → Fits m
        → Commands R c passes Goal m
            (Ioctl.ioctl c.available c.kernel c.made c.armed c.uid command arg m)
    ioctl-Commands m v =
        let result : Option ℤ × Module → Type 0 = Commands R c passes Goal m in
        let (not_permitted, _, _) = errors in
        subst result (sym (ioctl-checked c.available c.kernel c.made c.armed c.uid command arg m)) (
          if_cases result (is_known command)
            (λ _.
              if_cases result (c.uid == 0) (λ _. enrols m v)
                (λ _. (order.same m, λ ok. absurd (cc (ok, not_permitted)))))
            (λ other. absurd (cc (known, other))))

    reloaded :
        (w w1 : World) (r : Result)
        → w1.loaded ≡ w.loaded
        → Effects R passes w1 Goal r
        → Effects R passes w Goal r
    reloaded w w1 none same impossible = impossible
    reloaded w w1 (some (code, w2)) same (grows, goal) =
        (subst (λ m. R m w2.loaded) same grows, goal)

    opened-Effects :
        (w : World) (r : Bool × World)
        → Fits w.loaded
        → r.1.loaded ≡ w.loaded
        → (r.0 ≡ false → passes r.1.errno ≡ false)
        → Effects R passes w Goal
            (if r.0 then close_after c (ioctl c command arg r.1) else some (failure, r.1))
    unfolding ioctl
    opened-Effects w (true, w1) v same fails =
        reloaded w w1 (close_after c (ioctl c command arg w1)) same
          (close_after-Effects w1 Goal _ (ioctl-Commands w1.loaded (subst Fits (sym same) v)))
    opened-Effects w (false, w1) v same fails =
        (subst (R w.loaded) (sym same) (order.same w.loaded), λ ok. absurd (cc (ok, fails refl)))

    send-Effects : (w : World) → Fits w.loaded → Effects R passes w Goal (send c command arg w)
    unfolding send
    send-Effects w v =
        let (same, _, _) = open_device-Opens c w in
        opened-Effects w (open_device c w) v same (open-errors w)

    sound :
        (w : World) (r : Result)
        → Leaves c w r
        → Effects R passes w Goal r
        → Does R c passes w Goal r
    sound w none left impossible = impossible
    sound w (some (code, w1)) (_, keeps) (grows, goal) = (keeps.0, grows, goal)

    pub send-Does :
        (ok : IsApart c.kernel) (w : World)
        → IsSound c.kernel w.loaded
        → Fits w.loaded
        → Does R c passes w Goal (send c command arg w)
    send-Does ok w v fits =
        sound w (send c command arg w) (send-Leaves c ok command arg w v) (send-Effects w fits)
