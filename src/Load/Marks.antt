-- ===== src/Load/Marks.antt =====
-- Which system calls are marked as probed, over any commands.
use syscall_throttling.Base.{
  ℕ, zero, suc, ◌<◌, ◌≡◌, refl, ap, subst, sym, ◌∙◌, Bool, true, false, not, ◌&&◌, ◌||◌, Option,
  none, some, List, [], ◌∷◌, ◌==◌, ==_iff, leb, if_cases, update, arith,
}
use syscall_throttling.Base.Int.{ℤ, pos, negsuc, is_zero, is_negative}
use syscall_throttling.Base.Heap.{Heap, kmalloc}
use syscall_throttling.Base.Text.{task_comm_len}
use syscall_throttling.Store.History.{Request, add_user, remove_user, add_program, remove_program}
use syscall_throttling.Throttle.{to_int}
use syscall_throttling.Probe.{
  Kernel, Probes, install_probe, remove_probe, apply_smp_patch, find_address, install_found, finish,
  call_instruction,
}
use syscall_throttling.Probe.Invariant.{is_found}
use syscall_throttling.Ioctl.{
  Command, register_user, deregister_user, register_program, deregister_program, register_syscall,
  deregister_syscall, switch_on, switch_off, unknown, Argument, Module, change_syscall, change_user,
  change_program, with_buffer, command_by_root, ioctl, ioctls,
}
use syscall_throttling.Ioctl.Access.{is_known, ioctl-checked}
use syscall_throttling.Ioctl.Removals.{remove_probe-Unmarks}

module _ (k : Kernel) where
  -- Every mark is of a supported call.
  abbrev pub AreBelow : Probes → Type 0
  AreBelow p = (id : ℕ) → p.syscall_presence_bitmap id ≡ true → id < k.supported

  patch_marks :
      (a : ℕ) (bs : List ℕ) (p : Probes)
      → (apply_smp_patch k a bs p).1.syscall_presence_bitmap ≡ p.syscall_presence_bitmap
  unfolding apply_smp_patch
  patch_marks a bs p =
      if_cases (λ (r : ℤ × Probes). r.1.syscall_presence_bitmap ≡ p.syscall_presence_bitmap)
        (p.poke_found || (k.has_mutex && k.has_poke)) (λ _. refl) (λ _. refl)

  find_marks :
      (id : ℕ) (p : Probes)
      → (find_address k id p).2.syscall_presence_bitmap ≡ p.syscall_presence_bitmap
  unfolding find_address
  find_marks id p =
      let result : ℤ × ℕ × Probes → Type 0 =
        λ r. r.2.syscall_presence_bitmap ≡ p.syscall_presence_bitmap in
      if_cases result (not (p.syscall_addresses id == 0)) (λ _. refl)
        (λ _. if_cases result (is_found k id) (λ _. refl) (λ _. refl))

  same-AreBelow :
      (p p' : Probes)
      → p'.syscall_presence_bitmap ≡ p.syscall_presence_bitmap
      → AreBelow p
      → AreBelow p'
  same-AreBelow p p' same below id marked =
      below id (sym (ap (λ (f : ℕ → Bool). f id) same) ∙ marked)

  update-below :
      (p : Probes) (id i : ℕ)
      → id < k.supported
      → AreBelow p
      → update p.syscall_presence_bitmap id true i ≡ true
      → i < k.supported
  update-below p id i small below =
      if_cases (λ b. b ≡ true → i < k.supported) (id == i)
        (λ same _. subst (λ j. j < k.supported) ((==_iff id i).0 same) small)
        (λ _ marked. below i marked)

  finish-AreBelow :
      (id : ℕ) (r : ℤ × Probes) → id < k.supported → AreBelow r.1 → AreBelow (finish k id true r).1
  unfolding finish
  finish-AreBelow id (code, p) small below =
      if_cases (λ (r : ℤ × Probes). AreBelow r.1) (is_negative code) (λ _. below)
        (λ _ i. update-below p id i small below)

  install_found-AreBelow :
      (id : ℕ) (r : ℤ × ℕ × Probes)
      → id < k.supported
      → AreBelow r.2
      → AreBelow (install_found k id r).1
  unfolding install_found
  install_found-AreBelow id (result, a, p) small below =
      let bytes = call_instruction k.trampoline a in
      if_cases (λ (r : ℤ × Probes). AreBelow r.1) (is_zero result)
        (λ _.
          finish-AreBelow id (apply_smp_patch k a bytes p) small
            (same-AreBelow p (apply_smp_patch k a bytes p).1 (patch_marks a bytes p) below))
        (λ _. below)

  install_probe-AreBelow : (n : ℤ) (p : Probes) → AreBelow p → AreBelow (install_probe k n p).1
  unfolding install_probe
  install_probe-AreBelow (negsuc n) p below = below
  install_probe-AreBelow (pos id) p below =
      let result : ℤ × Probes → Type 0 = λ r. AreBelow r.1 in
      if_cases result (leb k.supported id) (λ _. below)
        (λ small.
          if_cases result (p.syscall_presence_bitmap id) (λ _. below)
            (λ _.
              install_found-AreBelow id (find_address k id p) (ground (arith, small))
                (same-AreBelow p (find_address k id p).2 (find_marks id p) below)))

  remove_probe-AreBelow : (n : ℤ) (p : Probes) → AreBelow p → AreBelow (remove_probe k n p).1
  unfolding remove_probe
  remove_probe-AreBelow (negsuc n) p below = below
  remove_probe-AreBelow (pos id) p below = λ i marked.
      below i
        ((remove_probe-Unmarks (λ _. false) (refl, refl, refl, refl, refl, refl) k id p).0 i marked)

  module _ (available : ℕ → Bool) (made : Bool) (armed : ℤ) where
    with_buffer-AreBelow :
        (handler : Heap → ℤ × Module) (m : Module)
        → ((h : Heap) → AreBelow (handler h).1.probes)
        → AreBelow m.probes
        → AreBelow (with_buffer available k made armed handler m).1.probes
    unfolding with_buffer
    with_buffer-AreBelow handler m done below =
        let (got, h) = kmalloc available m.heap in
        if_cases (λ (r : ℤ × Module). AreBelow r.1.probes) got (λ _. done h) (λ _. below)

    change_user-probes :
        (request : ℕ → Request) (word : Option ℕ) (m : Module) (h : Heap)
        → (change_user available k made armed request word m h).1.probes ≡ m.probes
    unfolding change_user
    change_user-probes request none m h = refl
    change_user-probes request (some user_id) m h = refl

    change_program-probes :
        (request : List ℕ → Request) (name : ℤ × List ℕ) (m : Module) (h : Heap)
        → (change_program available k made armed request name m h).1.probes ≡ m.probes
    unfolding change_program
    change_program-probes request (negsuc n, name) m h = refl
    change_program-probes request (pos zero, name) m h = refl
    change_program-probes request (pos (suc n), name) m h =
        if_cases (λ (r : ℤ × Module). r.1.probes ≡ m.probes) (leb task_comm_len (suc n)) (λ _. refl)
          (λ _. refl)

    user-AreBelow :
        (request : ℕ → Request) (word : Option ℕ) (m : Module)
        → AreBelow m.probes
        → AreBelow
            (with_buffer available k made armed
              (change_user available k made armed request word m)
              m).1.probes
    user-AreBelow request word m below =
        with_buffer-AreBelow _ m
          (λ h. subst AreBelow (sym (change_user-probes request word m h)) below) below

    program-AreBelow :
        (request : List ℕ → Request) (name : ℤ × List ℕ) (m : Module)
        → AreBelow m.probes
        → AreBelow
            (with_buffer available k made armed
              (change_program available k made armed request name m)
              m).1.probes
    program-AreBelow request name m below =
        with_buffer-AreBelow _ m
          (λ h. subst AreBelow (sym (change_program-probes request name m h)) below) below

    change_syscall-AreBelow :
        (change : ℤ → Probes → ℤ × Probes) (word : Option ℕ) (m : Module) (h : Heap)
        → ((n : ℤ) (p : Probes) → AreBelow p → AreBelow (change n p).1)
        → AreBelow m.probes
        → AreBelow (change_syscall available k made armed change word m h).1.probes
    unfolding change_syscall
    change_syscall-AreBelow change none m h keeps below = below
    change_syscall-AreBelow change (some syscall_id) m h keeps below =
        keeps (to_int syscall_id) m.probes below

    root-AreBelow :
        (c : Command) (arg : Argument) (m : Module)
        → AreBelow m.probes
        → AreBelow (command_by_root available k made armed c arg m).1.probes
    unfolding command_by_root
    root-AreBelow register_user arg m below = user-AreBelow add_user arg.word m below
    root-AreBelow deregister_user arg m below = user-AreBelow remove_user arg.word m below
    root-AreBelow register_program arg m below = program-AreBelow add_program arg.name m below
    root-AreBelow deregister_program arg m below = program-AreBelow remove_program arg.name m below
    root-AreBelow register_syscall arg m below =
        with_buffer-AreBelow _ m
          (λ h. change_syscall-AreBelow (install_probe k) arg.word m h install_probe-AreBelow below)
          below
    root-AreBelow deregister_syscall arg m below =
        with_buffer-AreBelow _ m
          (λ h. change_syscall-AreBelow (remove_probe k) arg.word m h remove_probe-AreBelow below)
          below
    root-AreBelow switch_on arg m below = below
    root-AreBelow switch_off arg m below = below
    root-AreBelow (unknown n) arg m below = below

    ioctl-AreBelow :
        (uid : ℕ) (c : Command) (arg : Argument) (m : Module)
        → AreBelow m.probes
        → AreBelow (ioctl available k made armed uid c arg m).1.probes
    ioctl-AreBelow uid c arg m below =
        let result : Option ℤ × Module → Type 0 = λ r. AreBelow r.1.probes in
        subst result (sym (ioctl-checked available k made armed uid c arg m)) (
          if_cases result (is_known c)
            (λ _. if_cases result (uid == 0) (λ _. root-AreBelow c arg m below) (λ _. below))
            (λ _. below))

    pub ioctls-AreBelow :
        (calls : List (ℕ × Command × Argument)) (m : Module)
        → AreBelow m.probes
        → AreBelow (ioctls available k made armed calls m).probes
    unfolding ioctls
    ioctls-AreBelow [] m below = below
    ioctls-AreBelow ((uid, c, arg) ∷ rest) m below =
        ioctls-AreBelow rest (ioctl available k made armed uid c arg m).1
          (ioctl-AreBelow uid c arg m below)
