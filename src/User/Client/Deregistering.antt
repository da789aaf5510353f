-- ===== src/User/Client/Deregistering.antt =====
-- What each deregistration of user/lib/sysThrot.h, and turning the throttling off, has done when the
-- client goes on after it.
use syscall_throttling.Base.{
  ℕ, ◌+◌, ◌<◌, ◌^◌, ◌≡◌, refl, subst, sym, inl, inr, Bool, true, false, ◌||◌, ◌==◌, Option, none,
  some, List, if_cases, arith,
}
use syscall_throttling.Base.Int.{ℤ, pos}
use syscall_throttling.Store.Registry.{has_user, has_program}
use syscall_throttling.Queue.{wake_up_queue}
use syscall_throttling.Throttle.{Driver, to_int-of_int, turn_off, is_drained, turn_off_finish}
use syscall_throttling.Throttle.Events.{steps}
use syscall_throttling.Throttle.Switch.{wait_drained, steps-store, steps-working}
use syscall_throttling.Probe.{remove_probe}
use syscall_throttling.Ioctl.{Command, Module, set_stopping, change_syscall, command_by_root}
use syscall_throttling.Ioctl.Safety.{IsSound}
use syscall_throttling.Ioctl.Effects.{StoreGrows, Grows-refl, with_buffer-Effect}
use syscall_throttling.Ioctl.Removals.{
  Shrinks, Shrinks-IsOrder, change_user-Shrinks, change_program-Shrinks, set_probes-Shrinks,
  remove_probe-Unmarks,
}
use syscall_throttling.User.Symbols.{find_syscall_id, find_syscall_id-FindsFirst}
use syscall_throttling.User.{
  Machine, World, Result, deregister_user, deregister_program, deregister_syscall, send_id,
  turn_off_monitor,
}
use syscall_throttling.User.Effects.{Waited, Commands, Does, send-Does}
use syscall_throttling.User.Client.{is_eexist, is_ealready, is_already_done}
use syscall_throttling.User.Client.Registering.{IsUsual, IsName, eexist_errors, pos_eq}

-- When the client takes everything down, `open` does not fail with EINVAL either.
abbrev pub OpensUsually : Machine → Type 0
OpensUsually c = (e : ℕ) → c.node_error ≡ some e → is_already_done e ≡ false

-- The calls inside come back while `sysThrot_turn_off` waits.
abbrev pub Drains : Machine → Module → Type 0
Drains c m =
    is_drained (
      steps c.slab_available c.entry_available c.kernel.supported (turn_off m.driver).1 c.meanwhile)
    ≡ true

abbrev pub LacksUser : ℕ → Module → Type 0
LacksUser u m = has_user m.driver.store u ≡ false

abbrev pub LacksProgram : List ℕ → Module → Type 0
LacksProgram p m = has_program m.driver.store p ≡ false

-- The system call with the name, if there is one, is not marked as probed.
abbrev pub LacksSyscall : Machine → List ℕ → Module → Type 0
LacksSyscall c name m =
    (id : ℕ)
    → find_syscall_id name c.syscall_symbols ≡ pos id
    → m.probes.syscall_presence_bitmap id ≡ false

abbrev pub IsOff : Module → Type 0
IsOff m = m.driver.working ≡ false

parts : (a b c : Bool) → (a || (b || c)) ≡ false → (a ≡ false) × (b ≡ false)
parts a b c e = (ground (arith, e), ground (arith, e))

module _ (c : Machine) where
  -- A driver that is off and drained, with the store of `m`.
  wait-Waited :
      (m : Module) (d0 d : Driver)
      → d.store ≡ m.driver.store
      → d.working ≡ false
      → is_drained d ≡ true
      → Waited Shrinks is_ealready IsOff m
          (record m { driver = d0 })
          (wait_drained c.slab_available c.entry_available c.kernel.supported d)
  unfolding wait_drained turn_off_finish
  wait-Waited m d0 d same off drained = rw drained (
    record {
      store = subst (λ s. StoreGrows s m.driver.store) (sym same) (λ u h. h, λ p h. h);
      marked = λ id h. h;
      working = λ on. absurd (cc (off, on));
    },
    λ _. off,
  )

  turn_off-Commands :
      (m : Module)
      → Drains c m
      → Commands Shrinks c is_ealready IsOff m
          (set_stopping c.available c.kernel c.made c.armed m (turn_off m.driver))
  unfolding turn_off
  turn_off-Commands m drains =
      let d = m.driver in
      let supported = c.kernel.supported in
      let after : Driver → Driver =
        λ e. steps c.slab_available c.entry_available supported e c.meanwhile in
      let result : Option ℤ × Driver → Type 0 = λ r.
        (is_drained (after r.1) ≡ true)
        → Commands Shrinks c is_ealready IsOff m
            (set_stopping c.available c.kernel c.made c.armed m r) in
      if_cases result d.working
        (λ _ drained.
          wait-Waited m
            (record d { working = false; timer_pending = false; queue = (wake_up_queue d.queue).1 })
            _ (steps-store c.slab_available c.entry_available supported c.meanwhile _)
            (steps-working c.slab_available c.entry_available supported c.meanwhile _) drained)
        (λ off _. (Grows-refl m, λ _. off)) drains

  module _ (usual : IsUsual c) (opens : OpensUsually c) where
    pub turn_off_monitor-Does :
        (w : World)
        → IsSound c.kernel w.loaded
        → Drains c w.loaded
        → Does Shrinks c is_ealready w IsOff (turn_off_monitor c w)
    unfolding turn_off_monitor command_by_root
    turn_off_monitor-Does w v drains =
        send-Does Shrinks Shrinks-IsOrder c is_ealready (refl, refl, refl)
          (λ e h. (parts (is_eexist e) (is_ealready e) (e == 22) (opens e h)).1) Command.switch_off
          _ IsOff (Drains c) refl turn_off-Commands usual.apart w v drains

    pub deregister_user-Does :
        (u : ℕ) (w : World)
        → IsSound c.kernel w.loaded
        → Does Shrinks c is_already_done w (LacksUser u) (deregister_user c u w)
    unfolding deregister_user command_by_root
    deregister_user-Does u w v =
        send-Does Shrinks Shrinks-IsOrder c is_already_done (refl, refl, refl) opens
          Command.deregister_user _ (LacksUser u) (IsSound c.kernel) refl
          (λ m sound.
            with_buffer-Effect Shrinks Shrinks-IsOrder is_already_done c.available c.kernel c.made
              c.armed _ m (LacksUser u) refl
              (λ h.
                change_user-Shrinks is_already_done refl c.available c.kernel c.made c.armed u m h
                  sound.store))
          usual.apart w v v

    pub deregister_program-Does :
        (p : List ℕ) (w : World)
        → IsName p
        → IsSound c.kernel w.loaded
        → Does Shrinks c is_already_done w (LacksProgram p) (deregister_program c p w)
    unfolding deregister_program command_by_root
    deregister_program-Does p w (full, short) v =
        send-Does Shrinks Shrinks-IsOrder c is_already_done (refl, refl, refl) opens
          Command.deregister_program _ (LacksProgram p) (IsSound c.kernel) refl
          (λ m sound.
            with_buffer-Effect Shrinks Shrinks-IsOrder is_already_done c.available c.kernel c.made
              c.armed _ m (LacksProgram p) refl
              (λ h. rw (usual.names p full short) (
                change_program-Shrinks is_already_done refl c.available c.kernel c.made c.armed p m
                  h full short sound.store)))
          usual.apart w v v

    send_id-Does :
        (id : ℕ) (w : World)
        → id < 2 ^ 31
        → IsSound c.kernel w.loaded
        → Does Shrinks c is_eexist w
            (λ m. m.probes.syscall_presence_bitmap id ≡ false)
            (send_id c Command.deregister_syscall (pos id) w)
    unfolding send_id command_by_root change_syscall
    send_id-Does id w small v =
        send-Does Shrinks Shrinks-IsOrder c is_eexist (refl, refl, refl)
          (λ e h. (parts (is_eexist e) (is_ealready e) (e == 22) (opens e h)).0)
          Command.deregister_syscall _ (λ m. m.probes.syscall_presence_bitmap id ≡ false)
          (IsSound c.kernel) refl
          (λ m sound.
            with_buffer-Effect Shrinks Shrinks-IsOrder is_eexist c.available c.kernel c.made c.armed
              _ m (λ m'. m'.probes.syscall_presence_bitmap id ≡ false) refl
              (λ h.
                let (dropped, gone) =
                  remove_probe-Unmarks is_eexist eexist_errors c.kernel id m.probes in
                rw (to_int-of_int id small) (
                  set_probes-Shrinks is_eexist eexist_errors m h id
                    (remove_probe c.kernel (pos id) m.probes) dropped gone)))
          usual.apart w v v

    named :
        (n : ℕ) (w : World) (r : Result)
        → Does Shrinks c is_eexist w (λ m. m.probes.syscall_presence_bitmap n ≡ false) r
        → Does Shrinks c is_eexist w
            (λ m. (id : ℕ) → pos n ≡ pos id → m.probes.syscall_presence_bitmap id ≡ false)
            r
    named n w none impossible = impossible
    named n w (some (code, w1)) (sound, shrinks, goal) = (
      sound,
      shrinks,
      λ ok id e.
          subst (λ i. w1.loaded.probes.syscall_presence_bitmap i ≡ false) (pos_eq c usual n id e)
            (goal ok),
    )

    pub deregister_syscall-Does :
        (name : List ℕ) (w : World)
        → IsSound c.kernel w.loaded
        → Does Shrinks c is_eexist w (LacksSyscall c name) (deregister_syscall c name w)
    unfolding deregister_syscall send_id
    deregister_syscall-Does name w v =
        let result : ℤ → Type 0 = λ r.
          Does Shrinks c is_eexist w
            (λ m. (id : ℕ) → r ≡ pos id → m.probes.syscall_presence_bitmap id ≡ false)
            (send_id c Command.deregister_syscall r w) in
        elim (find_syscall_id-FindsFirst name c.syscall_symbols) [
          | inr (e, _) ↦ subst result (sym e) (v, Grows-refl w.loaded, λ _ id h. cc)
          | inl (n, e, _, small, _) ↦ subst result (sym e) (
              named (0 + n) w (send_id c Command.deregister_syscall (pos (0 + n)) w)
                (send_id-Does (0 + n) w (omega (arith, usual.symbols)) v))
        ]
