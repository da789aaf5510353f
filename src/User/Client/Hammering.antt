-- ===== src/User/Client/Hammering.antt =====
-- The module while the threads of the load generator run.
use syscall_throttling.Base.{ℕ, ◌≡◌, ◌∙◌, subst, sym, true, List, [], ◌∷◌}
use syscall_throttling.Base.Lists.{All}
use syscall_throttling.Store.Registry.{IsValid, has_user, has_program}
use syscall_throttling.Throttle.Switch.{steps-store, steps-working}
use syscall_throttling.Ioctl.{Module}
use syscall_throttling.Ioctl.Safety.{IsSound}
use syscall_throttling.Ioctl.Effects.{Grows}
use syscall_throttling.User.{Machine, World}
use syscall_throttling.User.Client.Registering.{HasProgram, HasSyscall}
use syscall_throttling.User.Client.Setup.{IsSetUp}
use syscall_throttling.User.Client.Main.{Host, Plan, hammered}

All-map :
    (P Q : List ℕ → Type 0) (names : List (List ℕ))
    → ((name : List ℕ) → P name → Q name)
    → All P names
    → All Q names
All-map P Q [] f all = tt
All-map P Q (name ∷ names) f (here, rest) = (f name here, All-map P Q names f rest)

pub IsSetUp-Grows :
    (c : Machine) (progs names : List (List ℕ)) (m m' : Module)
    → Grows m m'
    → IsSetUp c progs names m
    → IsSetUp c progs names m'
IsSetUp-Grows c progs names m m' grows set = record {
  user = grows.store.0 c.uid set.user;
  programs =
      All-map (λ p. HasProgram p m) (λ p. HasProgram p m') progs (λ p has. grows.store.1 p has)
        set.programs;
  syscalls =
      All-map (λ s. HasSyscall c s m) (λ s. HasSyscall c s m') names
        (λ s has id e. grows.marked id (has id e)) set.syscalls;
  on = grows.working set.on;
}

module _ (h : Host) (c : Machine) (p : Plan) where
  -- The threads leave what is registered alone.
  pub hammered-Grows : (w : World) → Grows w.loaded (hammered h c p w).loaded
  hammered-Grows w =
      let d = w.loaded.driver in
      let store = steps-store c.slab_available c.entry_available c.kernel.supported h.calls d in
      let working = steps-working c.slab_available c.entry_available c.kernel.supported h.calls d in
      record {
        store = (
          λ u has. subst (λ s. has_user s u ≡ true) (sym store) has,
          λ q has. subst (λ s. has_program s q ≡ true) (sym store) has,
        );
        marked = λ id has. has;
        working = λ on. working ∙ on;
      }

  pub hammered-IsSound :
      (w : World) → IsSound c.kernel w.loaded → IsSound c.kernel (hammered h c p w).loaded
  hammered-IsSound w v = record {
    store =
        subst IsValid
          (sym (
            steps-store c.slab_available c.entry_available c.kernel.supported h.calls
              w.loaded.driver))
          v.store;
    probes = v.probes;
  }
