-- ===== src/User/Client/Registering.antt =====
-- What each registration of user/lib/sysThrot.h has done when the client goes on after it.
use syscall_throttling.Base.{
  ℕ, ◌+◌, ◌<◌, ◌^◌, ◌≡◌, refl, subst, sym, inl, inr, Bool, true, false, ◌||◌, none, some, List,
  arith,
}
use syscall_throttling.Base.Int.{ℤ, pos, is_zero}
use syscall_throttling.Base.Lists.{length}
use syscall_throttling.Base.Text.{task_comm_len}
use syscall_throttling.Store.Registry.{has_user, has_program}
use syscall_throttling.Throttle.{to_int-of_int}
use syscall_throttling.Probe.{install_probe}
use syscall_throttling.Probe.Invariant.{IsApart, is_found}
use syscall_throttling.Ioctl.{Command, Module, change_syscall, command_by_root}
use syscall_throttling.Ioctl.Safety.{IsSound}
use syscall_throttling.Ioctl.Effects.{
  accepts, AreErrors, Grows, Grows-refl, Grows-IsOrder, with_buffer-Effect, set_probes-Enrols,
  change_user-Enrols, change_program-Enrols, turn_on-Enrols,
}
use syscall_throttling.Ioctl.Marks.{install_probe-Marks}
use syscall_throttling.User.Symbols.{find_syscall_id, find_syscall_id-FindsFirst}
use syscall_throttling.User.{
  Machine, World, Result, register_user, register_program, register_syscall, send_id,
  turn_on_monitor,
}
use syscall_throttling.User.Effects.{Ensures, send-Does}
use syscall_throttling.User.Client.{is_eexist, is_ealready}

-- What the programs count on: `open` does not fail with EEXIST or EALREADY; a kprobe that fails does
-- so with another error than EEXIST; `strncpy_from_user` copies a short name and returns its length;
-- `mod_timer` finds the new timer inactive; the numbers of system calls are `int`s; the functions of
-- the system calls do not overlap.
pub record IsUsual (c : Machine) : Type 0 where
  pub node : (e : ℕ) → c.node_error ≡ some e → (is_eexist e || is_ealready e) ≡ false
  pub kprobes :
      (id : ℕ) → is_found c.kernel id ≡ false → accepts is_eexist (c.kernel.kprobe id).0 ≡ false
  pub names :
      (p : List ℕ)
      → 0 < length p
      → length p < task_comm_len
      → c.strncpy_from_user p ≡ (pos (length p), p)
  pub timer : is_zero c.armed ≡ true
  pub symbols : length c.syscall_symbols < 2 ^ 31
  pub apart : IsApart c.kernel

-- A name that the kernel takes.
abbrev pub IsName : List ℕ → Type 0
IsName p = (0 < length p) × (length p < task_comm_len)

abbrev pub HasUser : ℕ → Module → Type 0
HasUser u m = has_user m.driver.store u ≡ true

abbrev pub HasProgram : List ℕ → Module → Type 0
HasProgram p m = has_program m.driver.store p ≡ true

-- The system call with the name, if there is one, is marked as probed.
abbrev pub HasSyscall : Machine → List ℕ → Module → Type 0
HasSyscall c name m =
    (id : ℕ)
    → find_syscall_id name c.syscall_symbols ≡ pos id
    → m.probes.syscall_presence_bitmap id ≡ true

abbrev pub IsOn : Module → Type 0
IsOn m = m.driver.working ≡ true

pub eexist_errors : AreErrors is_eexist
eexist_errors = (refl, refl, refl, refl, refl, refl)

ealready_errors : AreErrors is_ealready
ealready_errors = (refl, refl, refl, refl, refl, refl)

or_false : (a b : Bool) → (a || b) ≡ false → (a ≡ false) × (b ≡ false)
or_false a b e = (ground (arith, e), ground (arith, e))

module _ (c : Machine) (usual : IsUsual c) where
  pub register_user-Ensures :
      (u : ℕ) (w : World)
      → IsSound c.kernel w.loaded
      → Ensures c is_eexist w (HasUser u) (register_user c u w)
  unfolding register_user command_by_root
  register_user-Ensures u w v =
      send-Does Grows Grows-IsOrder c is_eexist (refl, refl, refl)
        (λ e h. (or_false _ _ (usual.node e h)).0) Command.register_user _ (HasUser u)
        (IsSound c.kernel) refl
        (λ m sound.
          with_buffer-Effect Grows Grows-IsOrder is_eexist c.available c.kernel c.made c.armed _ m
            (HasUser u) refl
            (λ h.
              change_user-Enrols is_eexist eexist_errors c.available c.kernel c.made c.armed u m h
                sound.store))
        usual.apart w v v

  pub register_program-Ensures :
      (p : List ℕ) (w : World)
      → IsName p
      → IsSound c.kernel w.loaded
      → Ensures c is_eexist w (HasProgram p) (register_program c p w)
  unfolding register_program command_by_root
  register_program-Ensures p w (full, short) v =
      send-Does Grows Grows-IsOrder c is_eexist (refl, refl, refl)
        (λ e h. (or_false _ _ (usual.node e h)).0) Command.register_program _ (HasProgram p)
        (IsSound c.kernel) refl
        (λ m sound.
          with_buffer-Effect Grows Grows-IsOrder is_eexist c.available c.kernel c.made c.armed _ m
            (HasProgram p) refl
            (λ h. rw (usual.names p full short) (
              change_program-Enrols is_eexist eexist_errors c.available c.kernel c.made c.armed p m
                h full short sound.store)))
        usual.apart w v v

  pub turn_on_monitor-Ensures :
      (w : World) → IsSound c.kernel w.loaded → Ensures c is_ealready w IsOn (turn_on_monitor c w)
  unfolding turn_on_monitor command_by_root
  turn_on_monitor-Ensures w v =
      send-Does Grows Grows-IsOrder c is_ealready (refl, refl, refl)
        (λ e h. (or_false _ _ (usual.node e h)).1) Command.switch_on _ IsOn (IsSound c.kernel) refl
        (λ m sound.
          turn_on-Enrols is_ealready ealready_errors c.available c.kernel c.made c.armed m
            usual.timer)
        usual.apart w v v

  send_id-Ensures :
      (id : ℕ) (w : World)
      → id < 2 ^ 31
      → IsSound c.kernel w.loaded
      → Ensures c is_eexist w
          (λ m. m.probes.syscall_presence_bitmap id ≡ true)
          (send_id c Command.register_syscall (pos id) w)
  unfolding send_id command_by_root change_syscall
  send_id-Ensures id w small v =
      send-Does Grows Grows-IsOrder c is_eexist (refl, refl, refl)
        (λ e h. (or_false _ _ (usual.node e h)).0) Command.register_syscall _
        (λ m. m.probes.syscall_presence_bitmap id ≡ true) (IsSound c.kernel) refl
        (λ m sound.
          with_buffer-Effect Grows Grows-IsOrder is_eexist c.available c.kernel c.made c.armed _ m
            (λ m'. m'.probes.syscall_presence_bitmap id ≡ true) refl
            (λ h.
              let (kept, hit) =
                install_probe-Marks is_eexist eexist_errors c.kernel usual.kprobes id m.probes in
              rw (to_int-of_int id small) (
                set_probes-Enrols is_eexist eexist_errors m h id
                  (install_probe c.kernel (pos id) m.probes) kept hit)))
        usual.apart w v v

  pub pos_eq : (a b : ℕ) → pos a ≡ pos b → a ≡ b
  pos_eq a b e = cc

  named :
      (n : ℕ) (w : World) (r : Result)
      → Ensures c is_eexist w (λ m. m.probes.syscall_presence_bitmap n ≡ true) r
      → Ensures c is_eexist w
          (λ m. (id : ℕ) → pos n ≡ pos id → m.probes.syscall_presence_bitmap id ≡ true)
          r
  named n w none impossible = impossible
  named n w (some (code, w1)) (sound, grows, goal) = (
    sound,
    grows,
    λ ok id e.
        subst (λ i. w1.loaded.probes.syscall_presence_bitmap i ≡ true) (pos_eq n id e) (goal ok),
  )

  pub register_syscall-Ensures :
      (name : List ℕ) (w : World)
      → IsSound c.kernel w.loaded
      → Ensures c is_eexist w (HasSyscall c name) (register_syscall c name w)
  unfolding register_syscall send_id
  register_syscall-Ensures name w v =
      let result : ℤ → Type 0 = λ r.
        Ensures c is_eexist w
          (λ m. (id : ℕ) → r ≡ pos id → m.probes.syscall_presence_bitmap id ≡ true)
          (send_id c Command.register_syscall r w) in
      elim (find_syscall_id-FindsFirst name c.syscall_symbols) [
        | inr (e, _) ↦ subst result (sym e) (v, Grows-refl w.loaded, λ _ id h. cc)
        | inl (n, e, _, small, _) ↦ subst result (sym e) (
            named (0 + n) w (send_id c Command.register_syscall (pos (0 + n)) w)
              (send_id-Ensures (0 + n) w (omega (arith, usual.symbols)) v))
      ]
