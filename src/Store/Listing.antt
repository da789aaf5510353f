-- ===== src/Store/Listing.antt =====
-- `get_all_users_from_store` and `get_all_programs_from_store`: the entries bucket by bucket, the
-- first table before the second.
use syscall_throttling.Base.{
  ℕ, zero, suc, ◌+◌, Option, none, some, List, [], ◌∷◌, ◌++◌, ltb, if◌then◌else◌,
}
use syscall_throttling.Base.Lists.{length}
use syscall_throttling.Base.Text.{strscpy}
use syscall_throttling.Store.Cuckoo.{Entry, CuckooHash}

abbrev pub max_store_users : ℕ
max_store_users = 256

abbrev pub max_store_programs : ℕ
max_store_programs = 64

abbrev pub slot_items {ℓ} : {A : Type ℓ} → Option (Entry A) → List A
slot_items none = []
slot_items (some s) = s.item ∷ []

-- The loop at bucket `i` with `n` to go: what it still writes.
unfoldable pub collect_users : ℕ → ℕ → CuckooHash ℕ → List ℕ
collect_users zero i map = []
collect_users (suc n) i map =
    slot_items (map.first i) ++ (slot_items (map.second i) ++ collect_users n (suc i) map)

abbrev pub slot_names : Option (Entry (List ℕ)) → List (List ℕ)
slot_names none = []
slot_names (some s) = strscpy s.item ∷ []

-- The same loop with `count` names written so far, which ends at `MAX_STORE_PROGRAMS`.
unfoldable pub collect_programs : ℕ → ℕ → ℕ → CuckooHash (List ℕ) → List (List ℕ)
collect_programs zero i count map = []
collect_programs (suc n) i count map =
    let names1 = slot_names (map.first i) in
    let count1 = count + length names1 in
    let names2 = if ltb count1 max_store_programs then slot_names (map.second i) else [] in
    let rest = collect_programs n (suc i) (count1 + length names2) map in
    if ltb count max_store_programs then names1 ++ (names2 ++ rest) else []
