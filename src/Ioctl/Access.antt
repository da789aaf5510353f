-- ===== src/Ioctl/Access.antt =====
-- Who may command the module.
use syscall_throttling.Base.{
  ℕ, ◌≡◌, refl, ap, ◌∙◌, List, [], ◌∷◌, inl, inr, Bool, true, false, Option, some, ◌==◌, Bool-cases,
  if_cases, if◌then◌else◌,
}
use syscall_throttling.Base.Int.{ℤ}
use syscall_throttling.Base.Code.{eperm, einval}
use syscall_throttling.Probe.{Kernel}
use syscall_throttling.Ioctl.{
  Command, register_user, deregister_user, register_program, deregister_program, register_syscall,
  deregister_syscall, switch_on, switch_off, unknown, Argument, Module, command_by_root, ioctl,
  ioctls,
}

abbrev pub is_known : Command → Bool
is_known (unknown n) = false
is_known _ = true

module _ (available : ℕ → Bool) (k : Kernel) (made : Bool) (armed : ℤ) where
  -- All commands by cases of the caller.
  pub ioctl-checked :
      (uid : ℕ) (c : Command) (arg : Argument) (m : Module)
      → ioctl available k made armed uid c arg m ≡ (
          if is_known c
          then if uid == 0 then command_by_root available k made armed c arg m else (some eperm, m)
          else (some einval, m))
  unfolding ioctl
  ioctl-checked uid register_user arg m = refl
  ioctl-checked uid deregister_user arg m = refl
  ioctl-checked uid register_program arg m = refl
  ioctl-checked uid deregister_program arg m = refl
  ioctl-checked uid register_syscall arg m = refl
  ioctl-checked uid deregister_syscall arg m = refl
  ioctl-checked uid switch_on arg m = refl
  ioctl-checked uid switch_off arg m = refl
  ioctl-checked uid (unknown n) arg m = refl

  -- A command by anyone but root changes nothing: a command that the module knows fails with EPERM,
  -- and any other with EINVAL.
  ioctl-unprivileged :
      (uid : ℕ) (c : Command) (arg : Argument) (m : Module)
      → (uid == 0) ≡ false
      → ioctl available k made armed uid c arg m ≡ (some (if is_known c then eperm else einval), m)
  ioctl-unprivileged uid c arg m other =
      let same = ioctl-checked uid c arg m in
      elim (Bool-cases (is_known c)) [
        | inl known ↦ rw (same, known, other) refl
        | inr not_known ↦ rw (same, not_known) refl
      ]

  -- The calls of root.
  unfoldable pub of_root : List (ℕ × Command × Argument) → List (ℕ × Command × Argument)
  of_root [] = []
  of_root ((uid, c, arg) ∷ calls) =
      let rest = of_root calls in if uid == 0 then (uid, c, arg) ∷ rest else rest

  -- Over any commands by any callers, the module ends in the state that the commands of root alone
  -- lead to, in their order: what others try between them, of any of the eight commands or of none,
  -- has no effect at all.
  pub ioctls-of_root :
      (calls : List (ℕ × Command × Argument)) (m : Module)
      → ioctls available k made armed calls m ≡ ioctls available k made armed (of_root calls) m
  unfolding ioctls of_root
  ioctls-of_root [] m = refl
  ioctls-of_root ((uid, c, arg) ∷ calls) m =
      let after : List (ℕ × Command × Argument) → Module =
        λ cs. ioctls available k made armed cs m in
      let all : Module =
        ioctls available k made armed calls (ioctl available k made armed uid c arg m).1 in
      if_cases (λ cs. all ≡ after cs) (uid == 0)
        (λ root. ioctls-of_root calls (ioctl available k made armed uid c arg m).1)
        (λ other.
          ap (λ (r : Option ℤ × Module). ioctls available k made armed calls r.1)
            (ioctl-unprivileged uid c arg m other)
          ∙ ioctls-of_root calls m)
