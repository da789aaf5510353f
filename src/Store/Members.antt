-- ===== src/Store/Members.antt =====
-- What the two listings write: their length against the arrays of `sysThrot_read`, and the users
-- listed against the users registered.
use syscall_throttling.Base.{
  ℕ, zero, suc, ◌+◌, ◌≤◌, ◌≡◌, refl, ◌∙◌, ap, inl, inr, Bool, false, ◌||◌, Option, none, some, List,
  [], ◌∷◌, ◌++◌, ◌==◌, ==_iff, Bool-cases, ltb, lt→ltb, if◌then◌else◌, arith,
}
use syscall_throttling.Base.Lists.{length, length-append, take}
use syscall_throttling.Store.Hash.{table_size, hash1, hash2, hash1-lt, hash2-lt}
use syscall_throttling.Store.Cuckoo.{Entry, Table, CuckooHash, slot_is}
use syscall_throttling.Store.Keys.{user_eq, compare_user, get_key_from_user_id}
use syscall_throttling.Store.Tables.{slot_elsewhere}
use syscall_throttling.Store.Objects.{slot_count, count_from, objects}
use syscall_throttling.Store.Listing.{
  slot_items, slot_names, collect_users, collect_programs, max_store_users, max_store_programs,
}
use syscall_throttling.Store.Registry.{IsValid, has_user}
use syscall_throttling.Store.{Store, get_all_users_from_store, get_all_programs_from_store}

abbrev pub listed : ℕ → List ℕ → Bool
listed y [] = false
listed y (x ∷ xs) = compare_user x y || listed y xs

listed-append : (y : ℕ) (xs ys : List ℕ) → listed y (xs ++ ys) ≡ (listed y xs || listed y ys)
listed-append y [] ys = refl
listed-append y (x ∷ xs) ys = ground (arith, listed-append y xs ys)

listed-slot_items : (y : ℕ) (o : Option (Entry ℕ)) → listed y (slot_items o) ≡ slot_is o y
listed-slot_items y none = refl
listed-slot_items y (some s) = ground arith

-- Any of the buckets from `i` on, `n` of them.
seen_from : ℕ → ℕ → Table ℕ → ℕ → Bool
seen_from zero i t y = false
seen_from (suc n) i t y = slot_is (t i) y || seen_from n (suc i) t y

listed-collect_users :
    (n i : ℕ) (m : CuckooHash ℕ) (y : ℕ)
    → listed y (collect_users n i m) ≡ (seen_from n i m.first y || seen_from n i m.second y)
unfolding collect_users seen_from
listed-collect_users zero i m y = refl
listed-collect_users (suc n) i m y = ground (
  arith,
  listed-append y (slot_items (m.first i)) (slot_items (m.second i) ++ collect_users n (suc i) m),
  listed-append y (slot_items (m.second i)) (collect_users n (suc i) m),
  listed-slot_items y (m.first i),
  listed-slot_items y (m.second i),
  listed-collect_users n (suc i) m y,
)

-- Only the bucket `b` counts.
seen_from-at :
    (n i b : ℕ) (t : Table ℕ) (y : ℕ)
    → ((j : ℕ) → (j == b) ≡ false → slot_is (t j) y ≡ false)
    → seen_from n i t y
      ≡ (if ltb b i then false else if ltb b (i + n) then slot_is (t b) y else false)
unfolding seen_from
seen_from-at zero i b t y h = ground arith
seen_from-at (suc n) i b t y h = elim (Bool-cases (i == b)) [
  | inl same ↦
      let e = (==_iff i b).0 same in
      ground (arith, seen_from-at n (suc i) b t y h, ap (λ k. slot_is (t k) y) e)
  | inr other ↦ ground (arith, seen_from-at n (suc i) b t y h, h i other)
]

length-slot_items : (o : Option (Entry ℕ)) → length (slot_items o) ≡ slot_count o
length-slot_items none = refl
length-slot_items (some s) = refl

length-collect_users :
    (n i : ℕ) (m : CuckooHash ℕ)
    → length (collect_users n i m) ≡ count_from n i m.first + count_from n i m.second
unfolding collect_users count_from
length-collect_users zero i m = refl
length-collect_users (suc n) i m = omega (
  arith,
  length-append (slot_items (m.first i)) (slot_items (m.second i) ++ collect_users n (suc i) m),
  length-append (slot_items (m.second i)) (collect_users n (suc i) m),
  length-slot_items (m.first i),
  length-slot_items (m.second i),
  length-collect_users n (suc i) m,
)

slot_count-le : (o : Option (Entry ℕ)) → slot_count o ≤ 1
slot_count-le none = omega arith
slot_count-le (some s) = omega arith

count_from-le : (n i : ℕ) (t : Table ℕ) → count_from n i t ≤ n
unfolding count_from
count_from-le zero i t = omega arith
count_from-le (suc n) i t = omega (arith, slot_count-le (t i), count_from-le n (suc i) t)

-- On a well-formed store `get_all_users_from_store` lists exactly the registered users, writes as
-- many numbers as the map owns items, and never past the end of an array of MAX_STORE_USERS.
pub get_all_users-exact :
    (s : Store)
    → IsValid s
    → let users = get_all_users_from_store s in
      ((u : ℕ) → listed u users ≡ has_user s u)
      × (length users ≡ objects s.syscall_user_map)
      × (length users ≤ max_store_users)
unfolding get_all_users_from_store objects
get_all_users-exact s v = (
  λ u.
      listed-collect_users table_size 0 m u
      ∙ rw
          (
            seen_from-at table_size 0 (hash1 (get_key_from_user_id u)) m.first u
                (λ j. slot_elsewhere get_key_from_user_id hash1 m.first j u v.users.first_placed),
            seen_from-at table_size 0 (hash2 (get_key_from_user_id u)) m.second u
                (λ j. slot_elsewhere get_key_from_user_id hash2 m.second j u v.users.second_placed),
            lt→ltb _ _ (hash1-lt (get_key_from_user_id u)),
            lt→ltb _ _ (hash2-lt (get_key_from_user_id u)),
          )
          (ground arith),
  length-collect_users table_size 0 m,
  omega (
    arith,
    length-collect_users table_size 0 m,
    count_from-le table_size 0 m.first,
    count_from-le table_size 0 m.second,
  ),
)
  where
    m : CuckooHash ℕ
    m = s.syscall_user_map

length-take-le : (n : ℕ) (xs : List ℕ) → length (take n xs) ≤ n
length-take-le zero xs = omega arith
length-take-le (suc n) [] = omega arith
length-take-le (suc n) (x ∷ xs) = omega (arith, length-take-le n xs)

length-slot_names : (o : Option (Entry (List ℕ))) → length (slot_names o) ≤ 1
length-slot_names none = omega arith
length-slot_names (some s) = omega arith

collect_programs-fits :
    (n i count : ℕ) (m : CuckooHash (List ℕ))
    → count ≤ max_store_programs
    → count + length (collect_programs n i count m) ≤ max_store_programs
unfolding collect_programs
collect_programs-fits zero i count m h = omega arith
collect_programs-fits (suc n) i count m h =
    let names1 = slot_names (m.first i) in
    let names2 = slot_names (m.second i) in
    elim (Bool-cases (ltb count max_store_programs)) [
      | inr full ↦ rw full (omega arith)
      | inl room ↦ elim (Bool-cases (ltb (count + length names1) max_store_programs)) [
        | inr full ↦
            rw (room, full)
              (ground (
                arith,
                length-append names1 (collect_programs n (suc i) (count + length names1 + 0) m),
                length-slot_names (m.first i),
                collect_programs-fits n (suc i) (count + length names1 + 0) m,
              ))
        | inl room2 ↦
            let count2 = count + length names1 + length names2 in
            rw (room, room2)
              (ground (
                arith,
                length-append names1 (names2 ++ collect_programs n (suc i) count2 m),
                length-append names2 (collect_programs n (suc i) count2 m),
                length-slot_names (m.first i),
                length-slot_names (m.second i),
                collect_programs-fits n (suc i) count2 m,
              ))
      ]
    ]

-- `get_all_programs_from_store` never writes past the end of an array of MAX_STORE_PROGRAMS.
pub get_all_programs-fits :
    (s : Store) → length (get_all_programs_from_store s) ≤ max_store_programs
unfolding get_all_programs_from_store
get_all_programs-fits s =
    omega (arith, collect_programs-fits table_size 0 0 s.syscall_program_map (omega arith))
