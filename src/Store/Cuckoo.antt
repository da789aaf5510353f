-- ===== src/Store/Cuckoo.antt =====
-- The hash map of sysThrot_store.c: two tables of 128 buckets, and the operations on them. Items
-- are what the `void *` pointers point at; the heap counts the objects behind those pointers.
use syscall_throttling.Base.{
  ℕ, zero, suc, Bool, true, false, Option, none, some, if◌then◌else◌, update, Eq,
}
use syscall_throttling.Base.Int.{ℤ, is_zero}
use syscall_throttling.Base.Code.{success, failure, eexist, enospc}
use syscall_throttling.Base.Heap.{Heap, kmalloc, kfree}
use syscall_throttling.Store.Hash.{hash1, hash2, table_size}

abbrev pub max_kicks : ℕ
max_kicks = 64

-- An occupied bucket: its key and its item.
pub record Entry {ℓ} (A : Type ℓ) : Type ℓ where
  pub key : ℕ
  pub item : A

-- One table; `none` is `occupied == 0`, whose key and pointer are never read.
abbrev pub Table {ℓ} : Type ℓ → Type ℓ
Table A = ℕ → Option (Entry A)

pub record CuckooHash {ℓ} (A : Type ℓ) : Type ℓ where
  pub first : Table A
  pub second : Table A

module _ {ℓ} {A : Type ℓ} where
  abbrev pub empty_map : CuckooHash A
  empty_map = record { first = λ _. none; second = λ _. none }

  -- The three assignments that put an entry into a bucket.
  abbrev pub put_first : CuckooHash A → ℕ → Entry A → CuckooHash A
  put_first map i s = record map { first = update map.first i (some s) }

  abbrev pub put_second : CuckooHash A → ℕ → Entry A → CuckooHash A
  put_second map i s = record map { second = update map.second i (some s) }

  -- `kfree` of the item of an occupied bucket.
  abbrev pub free_slot : Option (Entry A) → Heap → Heap
  free_slot none h = h
  free_slot (some e) h = kfree h

  -- The loop of `destroy_map` at bucket `i`, with `n` buckets to go.
  unfoldable pub free_slots : ℕ → ℕ → CuckooHash A → Heap → Heap
  free_slots zero i map h = h
  free_slots (suc n) i map h =
      free_slots n (suc i) map (free_slot (map.second i) (free_slot (map.first i) h))

  unfoldable pub destroy_map : CuckooHash A → Heap → Heap
  destroy_map map h = kfree (free_slots table_size 0 map h)

  -- What follows the loop: `return dst`, or `fail:`.
  abbrev pub finish_clone : Bool × CuckooHash A × Heap → Option (CuckooHash A) × Heap
  finish_clone (true, dst, h) = (some dst, h)
  finish_clone (false, dst, h) = (none, destroy_map dst h)

  module _ (available : ℕ → Bool) where
    unfoldable pub create_map : Heap → Option (CuckooHash A) × Heap
    create_map h =
        let (got, h') = kmalloc available h in if got then (some empty_map, h') else (none, h')

    -- One `if (src->occupied[t][i])` of `clone_map`: `false` is `goto fail`.
    unfoldable pub clone_slot : Table A → Table A → ℕ → Heap → Bool × Table A × Heap
    clone_slot src dst i h = elim (src i) [
      | none ↦ (true, dst, h)
      | some e ↦
          let (got, h') = kmalloc available h in
          if got then (true, update dst i (some e), h') else (false, dst, h')
    ]

    -- The loop of `clone_map` at bucket `i`, with `n` buckets to go.
    unfoldable pub clone_slots :
        ℕ → ℕ → CuckooHash A → CuckooHash A → Heap → Bool × CuckooHash A × Heap
    clone_slots zero i src dst h = (true, dst, h)
    clone_slots (suc n) i src dst h =
        let (ok1, first', h1) = clone_slot src.first dst.first i h in
        let dst1 = record dst { first = first' } in
        let (ok2, second', h2) = clone_slot src.second dst1.second i h1 in
        let dst2 = record dst1 { second = second' } in
        let rest = clone_slots n (suc i) src dst2 h2 in
        if ok1 then (if ok2 then rest else (false, dst2, h2)) else (false, dst1, h1)

    -- What follows `create_map`.
    abbrev pub fill_clone :
        CuckooHash A → Option (CuckooHash A) × Heap → Option (CuckooHash A) × Heap
    fill_clone src (none, h) = (none, h)
    fill_clone src (some dst, h) = finish_clone (clone_slots table_size 0 src dst h)

    unfoldable pub clone_map : CuckooHash A → Heap → Option (CuckooHash A) × Heap
    clone_map src h = fill_clone src (create_map h)

module _ {ℓ} {A : Type ℓ} ⦃e : Eq A⦄ where
  -- `occupied && compare(table, item)`
  abbrev pub slot_is : Option (Entry A) → A → Bool
  slot_is none x = false
  slot_is (some s) x = e.beq s.item x

  unfoldable pub contains : CuckooHash A → ℕ → A → ℤ
  contains map key x =
      if slot_is (map.first (hash1 key)) x
      then success
      else if slot_is (map.second (hash2 key)) x
      then success
      else failure

  -- The loop of `insert` with `n` rounds to go: `cur` is the entry that looks for a bucket.
  unfoldable pub kick : ℕ → CuckooHash A → Entry A → Heap → ℤ × CuckooHash A × Heap
  kick zero map cur h = (enospc, map, kfree h)
  kick (suc n) map cur h =
      let h1 = hash1 cur.key in
      let map1 = put_first map h1 cur in
      elim (map.first h1) [
        | none ↦ (success, map1, h)
        | some out1 ↦
            let h2 = hash2 out1.key in
            let map2 = put_second map1 h2 out1 in
            elim (map1.second h2) [ none ↦ (success, map2, h) | some out2 ↦ kick n map2 out2 h ]
      ]

  unfoldable pub insert : CuckooHash A → ℕ → A → Heap → ℤ × CuckooHash A × Heap
  insert map key x h =
      if is_zero (contains map key x)
      then (eexist, map, h)
      else kick max_kicks map (record { key = key; item = x }) h

  unfoldable pub remove : CuckooHash A → ℕ → A → Heap → ℤ × CuckooHash A × Heap
  remove map key x h =
      let h1 = hash1 key in
      let h2 = hash2 key in
      if slot_is (map.first h1) x
      then (success, record map { first = update map.first h1 none }, kfree h)
      else if slot_is (map.second h2) x
      then (success, record map { second = update map.second h2 none }, kfree h)
      else (failure, map, h)
