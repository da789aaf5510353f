-- ===== src/Store.antt =====
-- sysThrot_store.c: the users and the programs whose system calls are throttled, each in a cuckoo
-- map that a writer copies, changes and exchanges for the old one. The writers hold `write_lock`
-- throughout, so an operation is one step; `synchronize_rcu` waits for readers and returns nothing.
pub mod Hash
pub mod Cuckoo
pub mod Tables
pub mod Contents
pub mod Objects
pub mod Insertion
pub mod Removal
pub mod Cloning
pub mod Keys
pub mod Copy
pub mod Updates
pub mod Listing
pub mod Registry
pub mod History
pub mod Members
pub mod Start
mod Tests
use syscall_throttling.Base.{ℕ, Bool, true, false, Option, none, some, List, if◌then◌else◌, Eq}
use syscall_throttling.Base.Int.{ℤ, is_zero}
use syscall_throttling.Base.Code.{success, enomem, enospc, eexist, einval}
use syscall_throttling.Base.Heap.{Heap, kmalloc, kfree}
use Hash.{table_size}
use Cuckoo.{CuckooHash, create_map, clone_map, destroy_map, contains, insert, remove}
use Listing.{collect_users, collect_programs}
use Keys.{user_eq, program_eq, get_key_from_user_id, get_key_from_program_name}

pub record Store : Type 0 where
  pub syscall_user_map : CuckooHash ℕ
  pub syscall_program_map : CuckooHash (List ℕ)

-- The body that `add_user_to_store` and `add_program_to_store` share, and so on below: `old` is the
-- map, and what is returned is the status, the map now in use and the heap.
module _ (available : ℕ → Bool) {A : Type 0} ⦃e : Eq A⦄ (key_of : A → ℕ) where
  -- After `insert`: put the new map in use, or give it up.
  abbrev pub exchange : ℤ → CuckooHash A → ℤ × CuckooHash A × Heap → ℤ × CuckooHash A × Heap
  exchange code old (result, new, h) =
      if is_zero result then (success, new, destroy_map old h) else (code, old, destroy_map new h)

  -- After `cloneUser` or `cloneProgram`.
  abbrev pub add_cloned : CuckooHash A → A → CuckooHash A → Bool × Heap → ℤ × CuckooHash A × Heap
  add_cloned old x new (true, h) = exchange enospc old (insert new (key_of x) x h)
  add_cloned old x new (false, h) = (enomem, old, destroy_map new h)

  -- After `clone_map`.
  abbrev pub add_to_clone :
      CuckooHash A → A → Option (CuckooHash A) × Heap → ℤ × CuckooHash A × Heap
  add_to_clone old x (none, h) = (enomem, old, h)
  add_to_clone old x (some new, h) = add_cloned old x new (kmalloc available h)

  unfoldable pub add_item : CuckooHash A → A → Heap → ℤ × CuckooHash A × Heap
  add_item old x h =
      if is_zero (contains old (key_of x) x)
      then (eexist, old, h)
      else add_to_clone old x (clone_map available old h)

  abbrev pub remove_from_clone :
      CuckooHash A → A → Option (CuckooHash A) × Heap → ℤ × CuckooHash A × Heap
  remove_from_clone old x (none, h) = (enomem, old, h)
  remove_from_clone old x (some new, h) = exchange einval old (remove new (key_of x) x h)

  unfoldable pub remove_item : CuckooHash A → A → Heap → ℤ × CuckooHash A × Heap
  remove_item old x h =
      if is_zero (contains old (key_of x) x)
      then remove_from_clone old x (clone_map available old h)
      else (einval, old, h)

-- Lifting an operation on one map to the store.
abbrev pub with_users : Store → ℤ × CuckooHash ℕ × Heap → ℤ × Store × Heap
with_users s (code, map, h) = (code, record s { syscall_user_map = map }, h)

abbrev pub with_programs : Store → ℤ × CuckooHash (List ℕ) × Heap → ℤ × Store × Heap
with_programs s (code, map, h) = (code, record s { syscall_program_map = map }, h)

module _ (available : ℕ → Bool) where
  unfoldable pub add_user_to_store : Store → ℕ → Heap → ℤ × Store × Heap
  add_user_to_store s user_id h =
      with_users s (add_item available get_key_from_user_id s.syscall_user_map user_id h)

  unfoldable pub remove_user_from_store : Store → ℕ → Heap → ℤ × Store × Heap
  remove_user_from_store s user_id h =
      with_users s (remove_item available get_key_from_user_id s.syscall_user_map user_id h)

  unfoldable pub add_program_to_store : Store → List ℕ → Heap → ℤ × Store × Heap
  add_program_to_store s name h =
      with_programs s (add_item available get_key_from_program_name s.syscall_program_map name h)

  unfoldable pub remove_program_from_store : Store → List ℕ → Heap → ℤ × Store × Heap
  remove_program_from_store s name h =
      with_programs s (remove_item available get_key_from_program_name s.syscall_program_map name h)

unfoldable pub find_user_in_store : Store → ℕ → ℤ
find_user_in_store s user_id = contains s.syscall_user_map (get_key_from_user_id user_id) user_id

unfoldable pub find_program_in_store : Store → List ℕ → ℤ
find_program_in_store s name = contains s.syscall_program_map (get_key_from_program_name name) name

-- What is written to `user_array`; its length is `*num_users`.
unfoldable pub get_all_users_from_store : Store → List ℕ
get_all_users_from_store s = collect_users table_size 0 s.syscall_user_map

-- What is written to `program_array`, cut by `strscpy`; its length is `*num_programs`.
unfoldable pub get_all_programs_from_store : Store → List (List ℕ)
get_all_programs_from_store s = collect_programs table_size 0 0 s.syscall_program_map

-- What `*store` points at after `init_sysThrot_store`: nothing, freed memory, or a store.
pub data StorePointer : Type 0 where
  null : StorePointer
  dangling : StorePointer
  live : Store → StorePointer

-- `destroy_map` of a pointer that may be `NULL`.
abbrev destroy_made {ℓ} : {A : Type ℓ} → Option (CuckooHash A) → Heap → Heap
destroy_made none h = h
destroy_made (some map) h = destroy_map map h

-- The test `!user_map || !program_map`, and what follows it.
abbrev init_maps :
    Option (CuckooHash ℕ) → Option (CuckooHash (List ℕ)) → Heap → ℤ × StorePointer × Heap
init_maps (some users) (some programs) h =
    (success, live (record { syscall_user_map = users; syscall_program_map = programs }), h)
init_maps users programs h =
    (enomem, dangling, kfree (destroy_made programs (destroy_made users h)))

module _ (available : ℕ → Bool) where
  unfoldable pub init_sys_throt_store : Heap → ℤ × StorePointer × Heap
  init_sys_throt_store h =
      let (got, h1) = kmalloc available h in
      let (user_map, h2) = create_map available h1 in
      let (program_map, h3) = create_map available h2 in
      if got then init_maps user_map program_map h3 else (enomem, null, h1)

-- `none` is the test `!store`.
unfoldable pub destroy_sys_throt_store : Option Store → Heap → ℤ × Heap
destroy_sys_throt_store none h = (einval, h)
destroy_sys_throt_store (some s) h =
    (success, kfree (destroy_map s.syscall_program_map (destroy_map s.syscall_user_map h)))
