-- ===== src/Ioctl/Effects.antt =====
-- The commands that register something, and what is registered after them.
use syscall_throttling.Base.{
  ℕ, suc, ◌<◌, ◌≡◌, refl, ◌∙◌, inl, inr, Bool, true, false, ◌||◌, some, List, [], ◌∷◌, leb,
  if_cases, arith,
}
use syscall_throttling.Base.Int.{ℤ, pos, negsuc, is_zero}
use syscall_throttling.Base.Code.{enomem, enospc, eexist}
use syscall_throttling.Base.Heap.{Heap, kmalloc}
use syscall_throttling.Base.Lists.{length}
use syscall_throttling.Base.Text.{task_comm_len}
use syscall_throttling.Store.{Store, add_user_to_store, add_program_to_store}
use syscall_throttling.Store.Keys.{compare_user_iff, compare_program_iff}
use syscall_throttling.Store.Registry.{
  IsValid, has_user, has_program, Refused, add_user-outcome, add_program-outcome,
}
use syscall_throttling.Store.History.{add_user, add_program, serve}
use syscall_throttling.Throttle.{Driver, turn_on}
use syscall_throttling.Probe.{Kernel, Probes}
use syscall_throttling.Ioctl.{
  Module, set_store, set_probes, set_driver, change_user, change_program, with_buffer,
}

-- An operation's status that the caller lets pass: not an error, or one whose number passes.
abbrev pub accepts : (ℕ → Bool) → ℤ → Bool
accepts passes (pos n) = true
accepts passes (negsuc n) = passes (suc n)

-- Nothing that is registered, marked or on in the first state is not so in the second.
abbrev pub StoreGrows : Store → Store → Type 0
StoreGrows s s' =
    ((u : ℕ) → has_user s u ≡ true → has_user s' u ≡ true)
    × ((p : List ℕ) → has_program s p ≡ true → has_program s' p ≡ true)

pub record Grows (m m' : Module) : Type 0 where
  pub store : StoreGrows m.driver.store m'.driver.store
  pub marked :
      (id : ℕ)
      → m.probes.syscall_presence_bitmap id ≡ true
      → m'.probes.syscall_presence_bitmap id ≡ true
  pub working : m.driver.working ≡ true → m'.driver.working ≡ true

pub Grows-refl : (m : Module) → Grows m m
Grows-refl m = record { store = (λ u h. h, λ p h. h); marked = λ id h. h; working = λ h. h }

pub Grows-trans : (m m' m'' : Module) → Grows m m' → Grows m' m'' → Grows m m''
Grows-trans m m' m'' g g' = record {
  store = (λ u h. g'.store.0 u (g.store.0 u h), λ p h. g'.store.1 p (g.store.1 p h));
  marked = λ id h. g'.marked id (g.marked id h);
  working = λ h. g'.working (g.working h);
}

-- How a state may differ from the one before, as `Grows` says it or as the other way round does.
pub record IsOrder (R : Module → Module → Type 0) : Type 0 where
  pub same : (m : Module) → R m m
  pub then : (m m' m'' : Module) → R m m' → R m' m'' → R m m''
  pub heap : (m : Module) (h : Heap) → R m (record m { heap = h })

-- A command went from `m`; if its status passes then `Goal` holds of the state it left.
abbrev pub Effect :
    (R : Module → Module → Type 0) → (ℕ → Bool) → Module → (Module → Type 0) → ℤ × Module → Type 0
Effect R passes m Goal (code, m') = R m m' × (accepts passes code ≡ true → Goal m')

-- The commands that register.
abbrev pub Enrols : (ℕ → Bool) → Module → (Module → Type 0) → ℤ × Module → Type 0
Enrols = Effect Grows

-- Of what fails, only what the caller lets pass.
abbrev pub AreErrors : (ℕ → Bool) → Type 0
AreErrors passes =
    (passes 1 ≡ false)
    × (passes 2 ≡ false)
    × (passes 12 ≡ false)
    × (passes 16 ≡ false)
    × (passes 22 ≡ false)
    × (passes 28 ≡ false)

heap-Grows : (m : Module) (h : Heap) → Grows m (record m { heap = h })
heap-Grows m h = record { store = (λ u h. h, λ p h. h); marked = λ id h. h; working = λ h. h }

pub Grows-IsOrder : IsOrder Grows
Grows-IsOrder = record { same = Grows-refl; then = Grows-trans; heap = heap-Grows }

-- A handler that starts with a buffer.
pub with_buffer-Effect :
    (R : Module → Module → Type 0) (order : IsOrder R) (passes : ℕ → Bool) (available : ℕ → Bool)
    (k : Kernel) (made : Bool) (armed : ℤ) (handler : Heap → ℤ × Module) (m : Module)
    (Goal : Module → Type 0)
    → passes 12 ≡ false
    → ((h : Heap) → Effect R passes m Goal (handler h))
    → Effect R passes m Goal (with_buffer available k made armed handler m)
unfolding with_buffer
with_buffer-Effect R order passes available k made armed handler m Goal nomem effect =
    let (got, h) = kmalloc available m.heap in
    if_cases (Effect R passes m Goal) got (λ _. effect h)
      (λ _. (order.heap m h, λ ok. absurd (cc (ok, nomem))))

-- For the store.
abbrev StoreEnrols : (ℕ → Bool) → Store → (Store → Type 0) → ℤ × Store × Heap → Type 0
StoreEnrols passes s Goal (code, s', h') = StoreGrows s s' × (accepts passes code ≡ true → Goal s')

module _ (passes : ℕ → Bool) (errors : AreErrors passes) where
  refused :
      (s : Store) (h : Heap) (Goal : Store → Type 0) (code : ℤ) (r : ℤ × Store × Heap)
      → (accepts passes code ≡ true → Goal s)
      → Refused s h code r
      → StoreEnrols passes s Goal r
  refused s h Goal code (c, s', h') goal (e, same, b) = rw (e, same) ((λ u v. v, λ p v. v), goal)

  or_self : (a b : Bool) → b ≡ true → (a || b) ≡ true
  or_self true b e = refl
  or_self false b e = e

  or_left : (a b : Bool) → a ≡ true → (a || b) ≡ true
  or_left a b e = rw e refl

  add_user-Enrols :
      (available : ℕ → Bool) (s : Store) (h : Heap) (u : ℕ)
      → IsValid s
      → StoreEnrols passes s (λ s'. has_user s' u ≡ true) (serve available (add_user u) s h)
  unfolding serve
  add_user-Enrols available s h u v =
      let (_, _, nomem, _, _, nospc) = errors in
      let Goal : Store → Type 0 = λ s'. has_user s' u ≡ true in
      elim (add_user-outcome available s h v u) [
        | inl (here, f) ↦ refused s h Goal eexist (add_user_to_store available s u h) (λ _. here) f
        | inr (_, inl f) ↦
            refused s h Goal enomem (add_user_to_store available s u h)
              (λ ok. absurd (cc (ok, nomem))) f
        | inr (_, inr (inl f)) ↦
            refused s h Goal enospc (add_user_to_store available s u h)
              (λ ok. absurd (cc (ok, nospc))) f
        | inr (_, inr (inr (_, _, users, programs, _))) ↦ (
          (λ w old. users w ∙ or_left _ _ old, λ p old. programs p ∙ old),
          λ _. users u ∙ or_self _ _ ((compare_user_iff u u).1 refl),
        )
      ]

  add_program-Enrols :
      (available : ℕ → Bool) (s : Store) (h : Heap) (p : List ℕ)
      → IsValid s
      → StoreEnrols passes s (λ s'. has_program s' p ≡ true) (serve available (add_program p) s h)
  unfolding serve
  add_program-Enrols available s h p v =
      let (_, _, nomem, _, _, nospc) = errors in
      let Goal : Store → Type 0 = λ s'. has_program s' p ≡ true in
      elim (add_program-outcome available s h v p) [
        | inl (here, f) ↦
            refused s h Goal eexist (add_program_to_store available s p h) (λ _. here) f
        | inr (_, inl f) ↦
            refused s h Goal enomem (add_program_to_store available s p h)
              (λ ok. absurd (cc (ok, nomem))) f
        | inr (_, inr (inl f)) ↦
            refused s h Goal enospc (add_program_to_store available s p h)
              (λ ok. absurd (cc (ok, nospc))) f
        | inr (_, inr (inr (_, _, users, programs, _))) ↦ (
          (λ w old. users w ∙ old, λ q old. programs q ∙ or_left _ _ old),
          λ _. programs p ∙ or_self _ _ ((compare_program_iff p p).1 refl),
        )
      ]

  set_store-Enrols :
      (m : Module) (Goal : Store → Type 0) (r : ℤ × Store × Heap)
      → StoreEnrols passes m.driver.store Goal r
      → Enrols passes m (λ m'. Goal m'.driver.store) (set_store m r)
  set_store-Enrols m Goal (code, s', h') (grows, goal) =
      (record { store = grows; marked = λ id h. h; working = λ h. h }, goal)

  pub set_probes-Enrols :
      (m : Module) (h : Heap) (id : ℕ) (r : ℤ × Probes)
      → ((i : ℕ) → m.probes.syscall_presence_bitmap i ≡ true → r.1.syscall_presence_bitmap i ≡ true)
      → (accepts passes r.0 ≡ true → r.1.syscall_presence_bitmap id ≡ true)
      → Enrols passes m (λ m'. m'.probes.syscall_presence_bitmap id ≡ true) (set_probes m h r)
  set_probes-Enrols m h id (code, p) grows goal =
      (record { store = (λ u h. h, λ p h. h); marked = grows; working = λ h. h }, goal)

  module _ (available : ℕ → Bool) (k : Kernel) (made : Bool) (armed : ℤ) where
    pub change_user-Enrols :
        (u : ℕ) (m : Module) (h : Heap)
        → IsValid m.driver.store
        → Enrols passes m
            (λ m'. has_user m'.driver.store u ≡ true)
            (change_user available k made armed add_user (some u) m h)
    unfolding change_user
    change_user-Enrols u m h v =
        set_store-Enrols m (λ s. has_user s u ≡ true) _
          (add_user-Enrols available m.driver.store h u v)

    pub change_program-Enrols :
        (p : List ℕ) (m : Module) (h : Heap)
        → 0 < length p
        → length p < task_comm_len
        → IsValid m.driver.store
        → Enrols passes m
            (λ m'. has_program m'.driver.store p ≡ true)
            (change_program available k made armed add_program (pos (length p), p) m h)
    unfolding change_program
    change_program-Enrols [] m h full short v = absurd (omega arith)
    change_program-Enrols (b ∷ bs) m h full short v =
        let fits : leb task_comm_len (suc (length bs)) ≡ false = ground arith in
        rw fits (
          set_store-Enrols m (λ s. has_program s (b ∷ bs) ≡ true) _
            (add_program-Enrols available m.driver.store h (b ∷ bs) v))

    pub turn_on-Enrols :
        (m : Module)
        → is_zero armed ≡ true
        → Enrols passes m
            (λ m'. m'.driver.working ≡ true)
            (set_driver available k made armed m (turn_on made armed m.driver))
    unfolding turn_on
    turn_on-Enrols m fresh =
        let result : ℤ × Driver → Type 0 = λ r.
          Enrols passes m (λ m'. m'.driver.working ≡ true)
            (set_driver available k made armed m r) in
        if_cases result m.driver.working (λ on. (Grows-refl m, λ _. on))
          (λ off.
            if_cases result (is_zero armed)
              (λ _. (
                record { store = (λ u h. h, λ p h. h); marked = λ id h. h; working = λ _. refl },
                λ _. refl,
              ))
              (λ failed. absurd (cc (fresh, failed))))
