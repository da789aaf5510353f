-- ===== src/Store/Tests.antt =====
-- The store on concrete inputs.
use syscall_throttling.Base.{
  ℕ, ◌≤◌, ◌≡◌, refl, ◌⊎◌, Bool, true, false, not, ◌&&◌, ◌||◌, List, [], ◌∷◌,
}
use syscall_throttling.Base.Code.{success, failure, enomem, enospc, eexist, einval}
use syscall_throttling.Base.Heap.{Heap, fresh_heap, kmalloc, IsBalanced}
use syscall_throttling.Base.Lists.{length}
use syscall_throttling.Store.Hash.{hash1, hash2}
use syscall_throttling.Store.Cuckoo.{
  CuckooHash, empty_map, insert, remove, contains, kick, create_map,
}
use syscall_throttling.Store.Objects.{objects}
use syscall_throttling.Store.Keys.{user_eq, compare_user, compare_program}
use syscall_throttling.Store.Listing.{max_store_users}
use syscall_throttling.Store.{
  Store, live, add_user_to_store, remove_user_from_store, add_program_to_store,
  remove_program_from_store, get_all_users_from_store, init_sys_throt_store,
}
use syscall_throttling.Store.Registry.{
  has_user, has_program, IsValid, held, Refused, Done, add_user-outcome, remove_user-outcome,
  add_program-outcome, remove_program-outcome,
}
use syscall_throttling.Store.History.{
  Request, add_user, remove_user, add_program, remove_program, Holds, spec_run, run, run-Holds,
}
use syscall_throttling.Store.Members.{listed, get_all_users-exact}
use syscall_throttling.Store.Start.{no_sets, empty_store, empty_store-Holds}

abbrev always : ℕ → Bool
always n = true

abbrev shell : List ℕ
shell = 115 ∷ 104 ∷ []

abbrev requests : List Request
requests =
    add_user 1000
    ∷ add_program shell
    ∷ add_user 1000
    ∷ add_user 33
    ∷ remove_user 1000
    ∷ remove_program shell
    ∷ []

run-Holds_example :
    let (codes, s', h') = run always requests empty_store fresh_heap in
    Holds s' (spec_run no_sets requests codes)
    × IsBalanced fresh_heap (held empty_store) h' (held s')
run-Holds_example = run-Holds always requests empty_store fresh_heap no_sets empty_store-Holds

-- A store with two users and a program.
abbrev setup : List Request
setup = add_user 1000 ∷ add_user 33 ∷ add_program shell ∷ []

abbrev busy : Store
busy = (run always setup empty_store fresh_heap).1

abbrev busy_heap : Heap
busy_heap = (run always setup empty_store fresh_heap).2

busy-IsValid : IsValid busy
busy-IsValid = (run-Holds always setup empty_store fresh_heap no_sets empty_store-Holds).0.valid

add_user-outcome_example :
    let r = add_user_to_store always busy 7 busy_heap in
    ((has_user busy 7 ≡ true) × Refused busy busy_heap eexist r)
    ⊎ ((has_user busy 7 ≡ false)
        × (Refused busy busy_heap enomem r
            ⊎ Refused busy busy_heap enospc r
            ⊎ Done busy busy_heap (λ w. has_user busy w || compare_user 7 w) (has_program busy) r))
add_user-outcome_example = add_user-outcome always busy busy_heap busy-IsValid 7

remove_user-outcome_example :
    let r = remove_user_from_store always busy 33 busy_heap in
    ((has_user busy 33 ≡ false) × Refused busy busy_heap einval r)
    ⊎ ((has_user busy 33 ≡ true)
        × (Refused busy busy_heap enomem r
            ⊎ Done busy busy_heap
                (λ w. not (compare_user 33 w) && has_user busy w)
                (has_program busy)
                r))
remove_user-outcome_example = remove_user-outcome always busy busy_heap busy-IsValid 33

add_program-outcome_example :
    let r = add_program_to_store always busy shell busy_heap in
    ((has_program busy shell ≡ true) × Refused busy busy_heap eexist r)
    ⊎ ((has_program busy shell ≡ false)
        × (Refused busy busy_heap enomem r
            ⊎ Refused busy busy_heap enospc r
            ⊎ Done busy busy_heap
                (has_user busy)
                (λ w. has_program busy w || compare_program shell w)
                r))
add_program-outcome_example = add_program-outcome always busy busy_heap busy-IsValid shell

remove_program-outcome_example :
    let r = remove_program_from_store always busy shell busy_heap in
    ((has_program busy shell ≡ false) × Refused busy busy_heap einval r)
    ⊎ ((has_program busy shell ≡ true)
        × (Refused busy busy_heap enomem r
            ⊎ Done busy busy_heap
                (has_user busy)
                (λ w. not (compare_program shell w) && has_program busy w)
                r))
remove_program-outcome_example = remove_program-outcome always busy busy_heap busy-IsValid shell

get_all_users-exact_example :
    let users = get_all_users_from_store busy in
    ((u : ℕ) → listed u users ≡ has_user busy u)
    × (length users ≡ objects busy.syscall_user_map)
    × (length users ≤ max_store_users)
get_all_users-exact_example = get_all_users-exact busy busy-IsValid

abbrev started_heap : Heap
started_heap = record { requests = 3; allocated = 3; freed = 0 }

started : init_sys_throt_store always fresh_heap ≡ (success, live empty_store, started_heap)
unfolding init_sys_throt_store kmalloc create_map
started = refl

-- What `insert` puts into a map, `contains` finds, until `remove` takes it out.
abbrev with_five : CuckooHash ℕ
with_five = (insert {A = ℕ} empty_map 5 5 fresh_heap).1

finds_five : contains with_five 5 5 ≡ success
unfolding insert contains kick hash1 hash2 compare_user
finds_five = refl

loses_five : contains (remove with_five 5 5 fresh_heap).1 5 5 ≡ failure
unfolding insert contains kick remove hash1 hash2 compare_user
loses_five = refl
