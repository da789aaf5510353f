-- ===== src/Store/Registry.antt =====
-- The store as two sets, of users and of programs: what each operation returns, the sets
-- afterwards, and the objects that the two maps own.
use syscall_throttling.Base.{
  ℕ, ◌+◌, ◌≡◌, refl, ap, ◌⊎◌, inl, inr, Bool, true, false, not, ◌&&◌, ◌||◌, List, if◌then◌else◌,
  arith,
}
use syscall_throttling.Base.Int.{ℤ}
use syscall_throttling.Base.Code.{success, failure, enomem, enospc, eexist, einval}
use syscall_throttling.Base.Heap.{Heap, IsBalanced}
use syscall_throttling.Store.Cuckoo.{CuckooHash}
use syscall_throttling.Store.Contents.{has, contains-has, empty-IsValid}
use syscall_throttling.Store.Contents
use syscall_throttling.Store.Objects.{objects}
use syscall_throttling.Store.Keys.{
  user_eq, program_eq, compare_user, compare_program, get_key_from_user_id,
  get_key_from_program_name,
}
use syscall_throttling.Store.Updates.{Adds, Removes, add_item-Adds, remove_item-Removes}
use syscall_throttling.Store.{
  Store, add_user_to_store, remove_user_from_store, add_program_to_store, remove_program_from_store,
  find_user_in_store, find_program_in_store,
}

abbrev pub has_user : Store → ℕ → Bool
has_user s = has get_key_from_user_id s.syscall_user_map

abbrev pub has_program : Store → List ℕ → Bool
has_program s = has get_key_from_program_name s.syscall_program_map

pub record IsValid (s : Store) : Type 0 where
  pub users : Contents.IsValid get_key_from_user_id s.syscall_user_map
  pub programs : Contents.IsValid get_key_from_program_name s.syscall_program_map

-- The items that the two maps own.
abbrev pub held : Store → ℕ
held s = objects s.syscall_user_map + objects s.syscall_program_map

pub find_user-has :
    (s : Store) (u : ℕ) → find_user_in_store s u ≡ (if has_user s u then success else failure)
unfolding find_user_in_store
find_user-has s u = contains-has get_key_from_user_id s.syscall_user_map u

pub find_program-has :
    (s : Store) (p : List ℕ)
    → find_program_in_store s p ≡ (if has_program s p then success else failure)
unfolding find_program_in_store
find_program-has s p = contains-has get_key_from_program_name s.syscall_program_map p

-- A refused change: the status, the store as it was, and no object lost.
abbrev pub Refused : Store → Heap → ℤ → ℤ × Store × Heap → Type 0
Refused s h code (c, s', h') = (c ≡ code) × (s' ≡ s) × IsBalanced h (held s) h' (held s)

-- A change that was made: `users` and `programs` are the sets afterwards.
abbrev pub Done : Store → Heap → (ℕ → Bool) → (List ℕ → Bool) → ℤ × Store × Heap → Type 0
Done s h users programs (c, s', h') =
    (c ≡ success)
    × IsValid s'
    × ((u : ℕ) → has_user s' u ≡ users u)
    × ((p : List ℕ) → has_program s' p ≡ programs p)
    × IsBalanced h (held s) h' (held s')

module _ (available : ℕ → Bool) (s : Store) (h : Heap) (v : IsValid s) where
  put_users : CuckooHash ℕ → Store
  put_users m = record s { syscall_user_map = m }

  put_programs : CuckooHash (List ℕ) → Store
  put_programs m = record s { syscall_program_map = m }

  -- A user that is registered is refused with EEXIST. Any other is added, and nothing else is;
  -- or the call fails with ENOMEM or ENOSPC. A call that fails leaves the store as it was. Whatever
  -- happens, the objects handed out and not freed are those that the store owns.
  pub add_user-outcome :
      (u : ℕ)
      → let r = add_user_to_store available s u h in
        ((has_user s u ≡ true) × Refused s h eexist r)
        ⊎ ((has_user s u ≡ false)
            × (Refused s h enomem r
                ⊎ Refused s h enospc r
                ⊎ Done s h (λ w. has_user s w || compare_user u w) (has_program s) r))
  unfolding add_user_to_store put_users
  add_user-outcome u =
      elim (add_item-Adds available get_key_from_user_id s.syscall_user_map u h v.users) [
        | Adds.present here (c, m, b) ↦ inl (here, (c, ap put_users m, omega arith))
        | Adds.no_memory new (c, m, b) ↦ inr (new, inl (c, ap put_users m, omega arith))
        | Adds.no_space new (c, m, b) ↦ inr (new, inr (inl (c, ap put_users m, omega arith)))
        | Adds.added new (c, valid, now, b) ↦ inr (
          new,
          inr (
              inr
                (c, record { users = valid; programs = v.programs }, now, λ p. refl, omega arith)),
        )
      ]

  -- A user that is not registered is refused with EINVAL. Any other is taken out, and nothing else
  -- is; or the call fails with ENOMEM. A call that fails leaves the store as it was. Whatever
  -- happens, the objects handed out and not freed are those that the store owns.
  pub remove_user-outcome :
      (u : ℕ)
      → let r = remove_user_from_store available s u h in
        ((has_user s u ≡ false) × Refused s h einval r)
        ⊎ ((has_user s u ≡ true)
            × (Refused s h enomem r
                ⊎ Done s h (λ w. not (compare_user u w) && has_user s w) (has_program s) r))
  unfolding remove_user_from_store put_users
  remove_user-outcome u =
      elim (remove_item-Removes available get_key_from_user_id s.syscall_user_map u h v.users) [
        | Removes.absent new (c, m, b) ↦ inl (new, (c, ap put_users m, omega arith))
        | Removes.no_memory here (c, m, b) ↦ inr (here, inl (c, ap put_users m, omega arith))
        | Removes.removed here (c, valid, now, b) ↦ inr (
          here,
          inr (c, record { users = valid; programs = v.programs }, now, λ p. refl, omega arith),
        )
      ]

  -- A program name that is registered is refused with EEXIST. Any other is added, and nothing else is;
  -- or the call fails with ENOMEM or ENOSPC. A call that fails leaves the store as it was. Whatever
  -- happens, the objects handed out and not freed are those that the store owns.
  pub add_program-outcome :
      (p : List ℕ)
      → let r = add_program_to_store available s p h in
        ((has_program s p ≡ true) × Refused s h eexist r)
        ⊎ ((has_program s p ≡ false)
            × (Refused s h enomem r
                ⊎ Refused s h enospc r
                ⊎ Done s h (has_user s) (λ w. has_program s w || compare_program p w) r))
  unfolding add_program_to_store put_programs
  add_program-outcome p =
      elim (add_item-Adds available get_key_from_program_name s.syscall_program_map p h
        v.programs) [
          | Adds.present here (c, m, b) ↦ inl (here, (c, ap put_programs m, omega arith))
          | Adds.no_memory new (c, m, b) ↦ inr (new, inl (c, ap put_programs m, omega arith))
          | Adds.no_space new (c, m, b) ↦ inr (new, inr (inl (c, ap put_programs m, omega arith)))
          | Adds.added new (c, valid, now, b) ↦ inr (
            new,
            inr (
                inr (c, record { users = v.users; programs = valid }, λ u. refl, now, omega arith)),
          )
        ]

  -- A program name that is not registered is refused with EINVAL. Any other is taken out, and nothing else
  -- is; or the call fails with ENOMEM. A call that fails leaves the store as it was. Whatever
  -- happens, the objects handed out and not freed are those that the store owns.
  pub remove_program-outcome :
      (p : List ℕ)
      → let r = remove_program_from_store available s p h in
        ((has_program s p ≡ false) × Refused s h einval r)
        ⊎ ((has_program s p ≡ true)
            × (Refused s h enomem r
                ⊎ Done s h (has_user s) (λ w. not (compare_program p w) && has_program s w) r))
  unfolding remove_program_from_store put_programs
  remove_program-outcome p =
      elim (remove_item-Removes available get_key_from_program_name s.syscall_program_map p h
        v.programs) [
          | Removes.absent new (c, m, b) ↦ inl (new, (c, ap put_programs m, omega arith))
          | Removes.no_memory here (c, m, b) ↦ inr (here, inl (c, ap put_programs m, omega arith))
          | Removes.removed here (c, valid, now, b) ↦ inr (
            here,
            inr (c, record { users = v.users; programs = valid }, λ u. refl, now, omega arith),
          )
        ]
