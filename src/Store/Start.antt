-- ===== src/Store/Start.antt =====
-- `init_sysThrot_store` and `destroy_sysThrot_store`: the objects that they get and give back.
use syscall_throttling.Base.{
  ℕ, zero, suc, ◌+◌, ◌≡◌, refl, ap, subst, ◌⊎◌, inl, inr, Bool, false, Option, none, some, List,
  Bool-cases, arith,
}
use syscall_throttling.Base.Int.{ℤ}
use syscall_throttling.Base.Code.{success, enomem}
use syscall_throttling.Base.Heap.{Heap, kmalloc, kfree}
use syscall_throttling.Store.Hash.{table_size}
use syscall_throttling.Store.Cuckoo.{CuckooHash, empty_map, create_map}
use syscall_throttling.Store.Keys.{
  user_eq, program_eq, get_key_from_user_id, get_key_from_program_name,
}
use syscall_throttling.Store.Contents.{empty-IsValid}
use syscall_throttling.Store.Objects.{count_from, objects, destroy_map_lem}
use syscall_throttling.Store.{
  Store, StorePointer, init_maps, null, dangling, live, init_sys_throt_store,
  destroy_sys_throt_store,
}
use syscall_throttling.Store.Cloning.{create_map_lem}
use syscall_throttling.Store.Registry.{held}
use syscall_throttling.Store.History.{Holds, Sets, Request, run, run-Holds}

abbrev pub no_sets : Sets
no_sets = record { users = λ _. false; programs = λ _. false }

-- The store holds three objects besides its items: itself and the two maps.
abbrev pub IsFreshStart : Heap → ℤ × StorePointer × Heap → Type 0
IsFreshStart h (code, pointer, h') =
    ((s : Store) × (code ≡ success)
      × (pointer ≡ live s)
      × Holds s no_sets
      × (held s ≡ 0)
      × (h'.allocated + h.freed ≡ h.allocated + h'.freed + 3))
    ⊎ ((code ≡ enomem)
        × ((pointer ≡ null) ⊎ (pointer ≡ dangling))
        × (h'.allocated + h.freed ≡ h.allocated + h'.freed))

abbrev pub empty_store : Store
empty_store = record { syscall_user_map = empty_map; syscall_program_map = empty_map }

pub empty_store-Holds : Holds empty_store no_sets
empty_store-Holds = record {
  valid = record {
    users = empty-IsValid get_key_from_user_id;
    programs = empty-IsValid get_key_from_program_name;
  };
  users = λ u. refl;
  programs = λ p. refl;
}

count_from-none {ℓ} : (A : Type ℓ) (n i : ℕ) → count_from {A = A} n i (λ _. none) ≡ 0
unfolding count_from
count_from-none A zero i = refl
count_from-none A (suc n) i = omega (arith, count_from-none A n (suc i))

objects-empty {ℓ} : (A : Type ℓ) → objects (empty_map {A = A}) ≡ 0
unfolding objects
objects-empty A = omega (arith, count_from-none A table_size 0)

-- What `create_map` returns.
abbrev Creates {ℓ} : {A : Type ℓ} → Heap → Option (CuckooHash A) × Heap → Type ℓ
Creates h (made, h') =
    ((made ≡ some empty_map) × (h'.allocated ≡ h.allocated + 1) × (h'.freed ≡ h.freed))
    ⊎ ((made ≡ none) × (h'.allocated ≡ h.allocated) × (h'.freed ≡ h.freed))

create_map-Creates {ℓ} :
    (A : Type ℓ) (available : ℕ → Bool) (h : Heap) → Creates h (create_map {A = A} available h)
create_map-Creates A available h =
    rw (create_map_lem {A = A} available h) (elim (Bool-cases (available h.requests)) [
      | inl got ↦ rw got (inl (refl, refl, refl))
      | inr failed ↦ rw failed (inr (refl, refl, refl))
    ])

init_maps-IsFreshStart :
    (h h1 : Heap) (users : Option (CuckooHash ℕ) × Heap)
    (programs : Option (CuckooHash (List ℕ)) × Heap)
    → h1.allocated ≡ h.allocated + 1
    → h1.freed ≡ h.freed
    → Creates h1 users
    → Creates users.1 programs
    → IsFreshStart h (init_maps users.0 programs.0 programs.1)
unfolding kfree
init_maps-IsFreshStart h h1 (u, h2) (p, h3) a f (inl (eu, au, fu)) (inl (ep, ap, fp)) =
    rw (eu, ep)
      (inl (
        empty_store,
        refl,
        refl,
        empty_store-Holds,
        omega (arith, objects-empty ℕ, objects-empty (List ℕ)),
        omega arith,
      ))
init_maps-IsFreshStart h h1 (u, h2) (p, h3) a f (inl (eu, au, fu)) (inr (ep, ap, fp)) =
    rw (eu, ep, destroy_map_lem) (inr (refl, inr refl, omega (arith, objects-empty ℕ)))
init_maps-IsFreshStart h h1 (u, h2) (p, h3) a f (inr (eu, au, fu)) (inl (ep, ap, fp)) =
    rw (eu, ep, destroy_map_lem) (inr (refl, inr refl, omega (arith, objects-empty (List ℕ))))
init_maps-IsFreshStart h h1 (u, h2) (p, h3) a f (inr (eu, au, fu)) (inr (ep, ap, fp)) =
    rw (eu, ep) (inr (refl, inr refl, omega arith))

-- `init_sysThrot_store` gives an empty store of three objects, or fails with ENOMEM and gives
-- back what it got; the caller's pointer is then not a store.
pub init_store-IsFreshStart :
    (available : ℕ → Bool) (h : Heap) → IsFreshStart h (init_sys_throt_store available h)
unfolding init_sys_throt_store kmalloc
init_store-IsFreshStart available h = elim (Bool-cases (available h.requests)) [
  | inr none1 ↦ rw none1 (inr (refl, inl refl, omega arith))
  | inl got1 ↦
      let h1 : Heap = record h { requests = h.requests + 1; allocated = h.allocated + 1 } in
      let users = create_map {A = ℕ} available h1 in
      let made =
        init_maps-IsFreshStart h h1 users (create_map available users.1) refl refl
          (create_map-Creates ℕ available h1) (create_map-Creates (List ℕ) available users.1) in
      rw got1 made
]

pub destroy_store-frees :
    (s : Store) (h : Heap)
    → destroy_sys_throt_store (some s) h ≡ (success, record h { freed = h.freed + held s + 3 })
unfolding destroy_sys_throt_store kfree
destroy_store-frees s h =
    rw (destroy_map_lem s.syscall_user_map h, destroy_map_lem s.syscall_program_map) (ground arith)

live_eq : (s t : Store) → live s ≡ live t → s ≡ t
live_eq s t h = cc

-- From `init_sysThrot_store` over any sequence of calls to `destroy_sysThrot_store`, every object
-- that was handed out is freed, whichever allocations failed on the way.
pub lifecycle-IsBalanced :
    (available : ℕ → Bool) (h h1 : Heap) (s : Store) (rs : List Request)
    → init_sys_throt_store available h ≡ (success, live s, h1)
    → let (codes, s2, h2) = run available rs s h1 in
      let (code, h3) = destroy_sys_throt_store (some s2) h2 in
      (code ≡ success) × (h3.allocated + h.freed ≡ h.allocated + h3.freed)
lifecycle-IsBalanced available h h1 s rs started =
    elim (subst (IsFreshStart h) started (init_store-IsFreshStart available h)) [
      | inl (s0, c, p, holds, none_held, b) ↦
          let same = live_eq s s0 p in
          let (_, b2) = run-Holds available rs s h1 no_sets (rw same holds) in
          rw destroy_store-frees (refl, omega (arith, b, b2, ap held same, none_held))
      | inr (c, p, b) ↦ cc
    ]
