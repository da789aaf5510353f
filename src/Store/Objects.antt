-- ===== src/Store/Objects.antt =====
-- How many items a cuckoo map owns, and what the operations do to that number and to the heap.
use syscall_throttling.Base.{
  ℕ, zero, suc, ◌+◌, ◌≤◌, ◌<◌, ◌≡◌, refl, Option, none, some, update, arith,
}
use syscall_throttling.Base.Heap.{Heap, kfree}
use syscall_throttling.Store.Hash.{table_size}
use syscall_throttling.Store.Cuckoo.{
  Entry, Table, CuckooHash, free_slot, free_slots, destroy_map, put_first, put_second,
}

module _ {ℓ} {A : Type ℓ} where
  abbrev pub slot_count : Option (Entry A) → ℕ
  slot_count none = 0
  slot_count (some s) = 1

  -- The occupied buckets of a table from `i` on, `n` of them.
  unfoldable pub count_from : ℕ → ℕ → Table A → ℕ
  count_from zero i t = 0
  count_from (suc n) i t = slot_count (t i) + count_from n (suc i) t

  -- The items that a map owns.
  unfoldable pub objects : CuckooHash A → ℕ
  objects m = count_from table_size 0 m.first + count_from table_size 0 m.second

  count_from-update_below :
      (n i j : ℕ) (t : Table A) (o : Option (Entry A))
      → j < i
      → count_from n i (update t j o) ≡ count_from n i t
  unfolding count_from
  count_from-update_below zero i j t o h = refl
  count_from-update_below (suc n) i j t o h =
      ground (arith, count_from-update_below n (suc i) j t o)

  pub count_from-update :
      (n i j : ℕ) (t : Table A) (o : Option (Entry A))
      → i ≤ j
      → j < i + n
      → count_from n i (update t j o) + slot_count (t j) ≡ count_from n i t + slot_count o
  unfolding count_from
  count_from-update zero i j t o lo hi = absurd (omega arith)
  count_from-update (suc n) i j t o lo hi =
      ground (arith, count_from-update n (suc i) j t o, count_from-update_below n (suc i) i t o)

  pub objects-put_first :
      (m : CuckooHash A) (j : ℕ) (s : Entry A)
      → j < table_size
      → objects (put_first m j s) + slot_count (m.first j) ≡ objects m + 1
  unfolding objects
  objects-put_first m j s h =
      omega (arith, count_from-update table_size 0 j m.first (some s) (omega arith) (omega arith))

  pub objects-put_second :
      (m : CuckooHash A) (j : ℕ) (s : Entry A)
      → j < table_size
      → objects (put_second m j s) + slot_count (m.second j) ≡ objects m + 1
  unfolding objects
  objects-put_second m j s h =
      omega (arith, count_from-update table_size 0 j m.second (some s) (omega arith) (omega arith))

  free_slots-freed :
      (n i : ℕ) (m : CuckooHash A) (h : Heap)
      → free_slots n i m h
        ≡ record h { freed = h.freed + count_from n i m.first + count_from n i m.second }
  unfolding free_slots count_from kfree
  free_slots-freed zero i m h = ground arith
  free_slots-freed (suc n) i m h =
      ground
        (arith, free_slots-freed n (suc i) m (free_slot (m.second i) (free_slot (m.first i) h)))

  -- `destroy_map` frees every item of the map, and the map.
  pub destroy_map_lem :
      (m : CuckooHash A) (h : Heap) → destroy_map m h ≡ record h { freed = h.freed + objects m + 1 }
  unfolding destroy_map kfree objects
  destroy_map_lem m h = ground (arith, free_slots-freed table_size 0 m h)
