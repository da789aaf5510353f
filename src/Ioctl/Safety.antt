-- ===== src/Ioctl/Safety.antt =====
-- Sequences of commands, and the store, the marked calls and the memory after them.
use syscall_throttling.Base.{
  ℕ, zero, suc, ◌+◌, ◌≡◌, refl, ap, subst, sym, Bool, Option, none, some, List, [], ◌∷◌, ◌==◌, leb,
  if◌then◌else◌, if_cases, arith,
}
use syscall_throttling.Base.Int.{ℤ, pos, negsuc, is_zero}
use syscall_throttling.Base.Code.{enomem, efault, einval}
use syscall_throttling.Base.Heap.{Heap, kmalloc, kfree, IsBalanced}
use syscall_throttling.Base.Text.{task_comm_len}
use syscall_throttling.Store.{Store}
use syscall_throttling.Store.Registry.{IsValid, has_user, has_program, held}
use syscall_throttling.Store.History.{
  Request, add_user, remove_user, add_program, remove_program, serve, serve-Serves,
}
use syscall_throttling.Throttle.{Driver, turn_on, turn_off, to_int}
use syscall_throttling.Probe.{Kernel, Probes, install_probe, remove_probe}
use syscall_throttling.Probe.Invariant.{IsApart, IsPatched}
use syscall_throttling.Probe.Runs.{install_probe-IsPatched, remove_probe-IsPatched}
use syscall_throttling.Ioctl.{
  Command, register_user, deregister_user, register_program, deregister_program, register_syscall,
  deregister_syscall, switch_on, switch_off, unknown, Argument, Module, set_store, give_up,
  change_user, change_program, change_syscall, with_buffer, command_by_root, ioctl, ioctls,
}
use syscall_throttling.Ioctl.Access.{is_known, ioctl-checked}

pub record IsSound (k : Kernel) (m : Module) : Type 0 where
  pub store : IsValid m.driver.store
  pub probes : IsPatched k m.probes

-- From `h` and `m`, with `buffers` objects in hand, to `m'` with its heap and none in hand.
abbrev pub Keeps : Kernel → Heap → ℕ → Module → Module → Type 0
Keeps k h buffers m m' =
    IsSound k m'
    × (m'.heap.allocated + h.freed + buffers + held m.driver.store
        ≡ h.allocated + m'.heap.freed + held m'.driver.store)

serve-Sound :
    (available : ℕ → Bool) (r : Request) (s : Store) (h : Heap)
    → IsValid s
    → let (code, s', h') = serve available r s h in IsValid s' × IsBalanced h (held s) h' (held s')
serve-Sound available r s h v =
    let (holds, b) =
      serve-Serves available r s h (record { users = has_user s; programs = has_program s })
        (record { valid = v; users = λ u. refl; programs = λ p. refl }) in
    (holds.valid, b)

turn_on-store : (made : Bool) (armed : ℤ) (d : Driver) → (turn_on made armed d).1.store ≡ d.store
unfolding turn_on
turn_on-store made armed d =
    let result : ℤ × Driver → Type 0 = λ r. r.1.store ≡ d.store in
    if_cases result d.working (λ _. refl)
      (λ _. if_cases result (is_zero armed) (λ _. refl) (λ _. refl))

pub turn_off-store : (d : Driver) → (turn_off d).1.store ≡ d.store
unfolding turn_off
turn_off-store d =
    let result : Option ℤ × Driver → Type 0 = λ r. r.1.store ≡ d.store in
    if_cases result d.working (λ _. refl) (λ _. refl)

module _ (available : ℕ → Bool) (k : Kernel) (made : Bool) (armed : ℤ) where
  give_up-Keeps :
      (m : Module) (h : Heap) (code : ℤ) → IsSound k m → Keeps k h 1 m (give_up m h code).1
  unfolding kfree
  give_up-Keeps m h code v = (record { store = v.store; probes = v.probes }, omega arith)

  set_store-Keeps :
      (r : Request) (m : Module) (h : Heap)
      → IsSound k m
      → Keeps k h 1 m (set_store m (serve available r m.driver.store h)).1
  unfolding kfree
  set_store-Keeps r m h v =
      let (valid, b) = serve-Sound available r m.driver.store h v.store in
      (record { store = valid; probes = v.probes }, omega (arith, b))

  change_user-Keeps :
      (request : ℕ → Request) (word : Option ℕ) (m : Module) (h : Heap)
      → IsSound k m
      → Keeps k h 1 m (change_user available k made armed request word m h).1
  unfolding change_user
  change_user-Keeps request none m h v = give_up-Keeps m h efault v
  change_user-Keeps request (some u) m h v = set_store-Keeps (request u) m h v

  change_program-Keeps :
      (request : List ℕ → Request) (name : ℤ × List ℕ) (m : Module) (h : Heap)
      → IsSound k m
      → Keeps k h 1 m (change_program available k made armed request name m h).1
  unfolding change_program
  change_program-Keeps request (negsuc n, name) m h v = give_up-Keeps m h (negsuc n) v
  change_program-Keeps request (pos zero, name) m h v = give_up-Keeps m h (pos 0) v
  change_program-Keeps request (pos (suc n), name) m h v =
      if_cases (λ (r : ℤ × Module). Keeps k h 1 m r.1) (leb task_comm_len (suc n))
        (λ _. give_up-Keeps m h einval v) (λ _. set_store-Keeps (request name) m h v)

  change_syscall-Keeps :
      (change : ℤ → Probes → ℤ × Probes) (word : Option ℕ) (m : Module) (h : Heap)
      → ((id : ℤ) → IsPatched k (change id m.probes).1)
      → IsSound k m
      → Keeps k h 1 m (change_syscall available k made armed change word m h).1
  unfolding change_syscall kfree
  change_syscall-Keeps change none m h kept v = give_up-Keeps m h efault v
  change_syscall-Keeps change (some id) m h kept v =
      (record { store = v.store; probes = kept (to_int id) }, omega arith)

  with_buffer-Keeps :
      (handler : Heap → ℤ × Module) (m : Module)
      → IsSound k m
      → ((h : Heap) → Keeps k h 1 m (handler h).1)
      → Keeps k m.heap 0 m (with_buffer available k made armed handler m).1
  unfolding with_buffer kmalloc
  with_buffer-Keeps handler m v kept =
      if_cases
        (λ (r : Bool × Heap).
          Keeps k m.heap 0 m (if r.0 then handler r.1 else (enomem, record m { heap = r.1 })).1)
        (available m.heap.requests)
        (λ _.
          let (sound, b) =
            kept (record m.heap {
              requests = m.heap.requests + 1;
              allocated = m.heap.allocated + 1;
            }) in
          (sound, omega (arith, b)))
        (λ _. (record { store = v.store; probes = v.probes }, omega arith))

  module _ (ok : IsApart k) where
    command_by_root-Keeps :
        (c : Command) (arg : Argument) (m : Module)
        → IsSound k m
        → Keeps k m.heap 0 m (command_by_root available k made armed c arg m).1
    unfolding command_by_root
    command_by_root-Keeps register_user arg m v =
        with_buffer-Keeps (change_user available k made armed add_user arg.word m) m v
          (λ h. change_user-Keeps add_user arg.word m h v)
    command_by_root-Keeps deregister_user arg m v =
        with_buffer-Keeps (change_user available k made armed remove_user arg.word m) m v
          (λ h. change_user-Keeps remove_user arg.word m h v)
    command_by_root-Keeps register_program arg m v =
        with_buffer-Keeps (change_program available k made armed add_program arg.name m) m v
          (λ h. change_program-Keeps add_program arg.name m h v)
    command_by_root-Keeps deregister_program arg m v =
        with_buffer-Keeps (change_program available k made armed remove_program arg.name m) m v
          (λ h. change_program-Keeps remove_program arg.name m h v)
    command_by_root-Keeps register_syscall arg m v =
        with_buffer-Keeps (change_syscall available k made armed (install_probe k) arg.word m) m v
          (λ h.
            change_syscall-Keeps (install_probe k) arg.word m h
              (install_probe-IsPatched k ok m.probes v.probes) v)
    command_by_root-Keeps deregister_syscall arg m v =
        with_buffer-Keeps (change_syscall available k made armed (remove_probe k) arg.word m) m v
          (λ h.
            change_syscall-Keeps (remove_probe k) arg.word m h
              (remove_probe-IsPatched k ok m.probes v.probes) v)
    command_by_root-Keeps switch_on arg m v =
        let same = turn_on-store made armed m.driver in
        (
          record { store = subst IsValid (sym same) v.store; probes = v.probes },
          omega (arith, ap held same),
        )
    command_by_root-Keeps switch_off arg m v =
        let same = turn_off-store m.driver in
        (
          record { store = subst IsValid (sym same) v.store; probes = v.probes },
          omega (arith, ap held same),
        )
    command_by_root-Keeps (unknown n) arg m v = (v, omega arith)

    pub ioctl-Keeps :
        (uid : ℕ) (c : Command) (arg : Argument) (m : Module)
        → IsSound k m
        → Keeps k m.heap 0 m (ioctl available k made armed uid c arg m).1
    ioctl-Keeps uid c arg m v =
        let result : Option ℤ × Module → Type 0 = λ r. Keeps k m.heap 0 m r.1 in
        subst result (sym (ioctl-checked available k made armed uid c arg m)) (
          if_cases result (is_known c)
            (λ _.
              if_cases result (uid == 0) (λ _. command_by_root-Keeps c arg m v)
                (λ _. (v, omega arith)))
            (λ _. (v, omega arith)))

    -- After any sequence of commands, from any callers, with any arguments and whatever fails, the
    -- store is well formed, every call marked as probed has the CALL of the trampoline at its
    -- address, and the objects handed out and not freed are the items that the store holds: the
    -- buffer of every command has been freed. The functions that kprobes find do not overlap in
    -- their first five bytes.
    pub ioctls-Keeps :
        (calls : List (ℕ × Command × Argument)) (m : Module)
        → IsSound k m
        → Keeps k m.heap 0 m (ioctls available k made armed calls m)
    unfolding ioctls
    ioctls-Keeps [] m v = (v, omega arith)
    ioctls-Keeps ((uid, c, arg) ∷ rest) m v =
        let (v1, b1) = ioctl-Keeps uid c arg m v in
        let (v2, b2) = ioctls-Keeps rest (ioctl available k made armed uid c arg m).1 v1 in
        (v2, omega (arith, b1, b2))
