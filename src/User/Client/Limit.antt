-- ===== src/User/Client/Limit.antt =====
-- From the command line to the handler: what `setup_throttle` means for a system call.
use syscall_throttling.Base.{
  ℕ, ◌^◌, ◌≡◌, refl, ap, subst, sym, ◌∙◌, ◌⊎◌, inl, inr, true, some, List, [], ◌∷◌, ltb, if_cases,
}
use syscall_throttling.Base.Int.{ℤ, is_zero}
use syscall_throttling.Base.Code.{success}
use syscall_throttling.Base.Lists.{All}
use syscall_throttling.Store.{Store, find_user_in_store, find_program_in_store}
use syscall_throttling.Store.Registry.{has_user, has_program, find_user-has, find_program-has}
use syscall_throttling.Monitor.{Task}
use syscall_throttling.Throttle.{Driver, is_registered, is_one, check_if_registered, dec32, stub}
use syscall_throttling.Throttle.Events.{is_let_through}
use syscall_throttling.Throttle.Admission.{stub-let_through}
use syscall_throttling.Ioctl.{Module}
use syscall_throttling.Ioctl.Safety.{IsSound}
use syscall_throttling.User.{Machine, World, Result}
use syscall_throttling.User.Client.{setup_throttle}
use syscall_throttling.User.Client.Registering.{IsUsual, IsName, HasProgram}
use syscall_throttling.User.Client.Setup.{Ends, IsSetUp, setup_throttle-Ends}

abbrev pub IsOneOf : List ℕ → List (List ℕ) → Type 0
IsOneOf p [] = ⊥
IsOneOf p (q ∷ qs) = (p ≡ q) ⊎ IsOneOf p qs

-- A thread of the user, or of a program with one of the names.
abbrev pub IsMeant : Machine → List (List ℕ) → Task → Type 0
IsMeant c progs task = (task.uid ≡ c.uid) ⊎ IsOneOf task.comm progs

one-HasProgram :
    (p : List ℕ) (progs : List (List ℕ)) (m : Module)
    → IsOneOf p progs
    → All (λ q. HasProgram q m) progs
    → HasProgram p m
one-HasProgram p [] m impossible all = absurd impossible
one-HasProgram p (q ∷ qs) m (inl same) (here, rest) = subst (λ r. HasProgram r m) (sym same) here
one-HasProgram p (q ∷ qs) m (inr later) (here, rest) = one-HasProgram p qs m later rest

program-is_registered :
    (task : Task) (s : Store) → has_program s task.comm ≡ true → is_registered task s ≡ true
unfolding check_if_registered
program-is_registered task s has =
    let found : find_program_in_store s task.comm ≡ success =
      find_program-has s task.comm ∙ rw has refl in
    rw found refl

user-is_registered :
    (task : Task) (s : Store) → has_user s task.uid ≡ true → is_registered task s ≡ true
unfolding check_if_registered
user-is_registered task s has =
    let found : find_user_in_store s task.uid ≡ success = find_user-has s task.uid ∙ rw has refl in
    if_cases (λ (r : ℤ). is_one r ≡ true) (is_zero (find_program_in_store s task.comm)) (λ _. refl)
      (λ _. rw found refl)

meant-is_registered :
    (c : Machine) (progs names : List (List ℕ)) (m : Module) (task : Task)
    → IsSetUp c progs names m
    → IsMeant c progs task
    → is_registered task m.driver.store ≡ true
meant-is_registered c progs names m task set (inl same) =
    user-is_registered task m.driver.store (ap (has_user m.driver.store) same ∙ set.user)
meant-is_registered c progs names m task set (inr one) =
    program-is_registered task m.driver.store (one-HasProgram task.comm progs m one set.programs)

Ends-IsSetUp :
    (c : Machine) (progs names : List (List ℕ)) (w w1 : World) (r : Result)
    → r ≡ some (success, w1)
    → Ends c w (IsSetUp c progs names) r
    → IsSetUp c progs names w1.loaded
Ends-IsSetUp c progs names w w1 r e ends =
    elim (subst (Ends c w (IsSetUp c progs names)) e ends).2 [
      | inl (_, set) ↦ set
      | inr failed ↦ cc
    ]

-- Once `setup_throttle` has returned 0, a system call of a thread of the user, or of a program with
-- one of the names, is let through without waiting exactly when it takes a token that is left: in any
-- later state of the driver that has the same store and is on. The programs have names of 1 to 15
-- bytes, the kernel answers as it usually does, and the module was sound before.
pub setup_throttle-limits :
    (c : Machine) (usual : IsUsual c) (progs names : List (List ℕ)) (w w1 : World)
    → All IsName progs
    → IsSound c.kernel w.loaded
    → setup_throttle c progs names w ≡ some (success, w1)
    → (task : Task) → IsMeant c progs task
    → (d : Driver) → d.store ≡ w1.loaded.driver.store
    → d.working ≡ true
    → (id clock : ℕ)
    → is_let_through (stub c.slab_available c.entry_available c.kernel.supported task id clock d).0
      ≡ ltb (dec32 d.current_epoch_tokens) (2 ^ 31)
setup_throttle-limits c usual progs names w w1 valid sound e task meant d same on id clock =
    let set =
      Ends-IsSetUp c progs names w w1 (setup_throttle c progs names w) e
        (setup_throttle-Ends c usual progs names w valid sound) in
    let registered : is_registered task d.store ≡ true =
      ap (is_registered task) same ∙ meant-is_registered c progs names w1.loaded task set meant in
    stub-let_through c.slab_available c.entry_available c.kernel.supported d task id clock on
      registered
