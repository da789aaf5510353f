-- ===== src/Store/Updates.antt =====
-- Adding and removing one item of a map: the status on every branch, the set afterwards, and the
-- objects held.
use syscall_throttling.Base.{
  ℕ, ◌+◌, ◌≡◌, refl, inl, inr, Bool, true, false, not, ◌&&◌, ◌||◌, Option, none, some, Bool-cases,
  Eq, arith,
}
use syscall_throttling.Base.Int.{ℤ}
use syscall_throttling.Base.Code.{success, enomem, enospc, eexist, einval}
use syscall_throttling.Base.Heap.{Heap, kmalloc, kfree, IsBalanced}
use syscall_throttling.Store.{
  add_item, remove_item, exchange, add_cloned, add_to_clone, remove_from_clone,
}
use syscall_throttling.Store.Cuckoo.{CuckooHash, insert, remove}
use syscall_throttling.Store.Hash.{table_size}
use syscall_throttling.Store.Contents.{has, IsValid, contains-has}
use syscall_throttling.Store.Objects.{objects, destroy_map_lem}
use syscall_throttling.Store.Insertion.{insert-Inserts, Inserts}
use syscall_throttling.Store.Removal.{Removed, remove-Removes}
use syscall_throttling.Store.Cloning.{cuts, Clones, clone_map-Clones}
use syscall_throttling.Store.Copy.{objects-cuts, has-cuts, cuts-IsValid}

some_eq : {A : Type 0} {a b : A} → some a ≡ some b → a ≡ b
some_eq h = cc

module _ (available : ℕ → Bool) {A : Type 0} ⦃e : Eq A⦄ (key_of : A → ℕ) where
  -- A change that was refused with `code`: the map in use is the old one, and no object is lost.
  abbrev pub Refused : CuckooHash A → Heap → ℤ → ℤ × CuckooHash A × Heap → Type 0
  Refused m h code (c, m', h') = (c ≡ code) × (m' ≡ m) × IsBalanced h (objects m) h' (objects m)

  -- A change that was made.
  abbrev pub Done : CuckooHash A → Heap → (A → Bool) → ℤ × CuckooHash A × Heap → Type 0
  Done m h now (c, m', h') =
      (c ≡ success)
      × IsValid key_of m'
      × ((y : A) → has key_of m' y ≡ now y)
      × IsBalanced h (objects m) h' (objects m')

  -- The outcomes of `add_item`.
  pub data Adds (m : CuckooHash A) (x : A) (h : Heap) (r : ℤ × CuckooHash A × Heap) : Type 0 where
    present : has key_of m x ≡ true → Refused m h eexist r → Adds m x h r
    no_memory : has key_of m x ≡ false → Refused m h enomem r → Adds m x h r
    no_space : has key_of m x ≡ false → Refused m h enospc r → Adds m x h r
    added : has key_of m x ≡ false → Done m h (λ y. has key_of m y || e.beq x y) r → Adds m x h r

  -- The outcomes of `remove_item`.
  pub data Removes (m : CuckooHash A) (x : A) (h : Heap) (r : ℤ × CuckooHash A × Heap)
      : Type 0 where
    absent : has key_of m x ≡ false → Refused m h einval r → Removes m x h r
    no_memory : has key_of m x ≡ true → Refused m h enomem r → Removes m x h r
    removed :
        has key_of m x ≡ true
        → Done m h (λ y. not (e.beq x y) && has key_of m y) r
        → Removes m x h r

  -- The copy holds one object for each item, the map, and the new item.
  exchange-Adds :
      (old : CuckooHash A) (x : A) (h0 h : Heap) (r : ℤ × CuckooHash A × Heap)
      → has key_of old x ≡ false
      → h.allocated ≡ h0.allocated + objects old + 2
      → h.freed ≡ h0.freed
      → Inserts key_of (cuts table_size old) x h r
      → Adds old x h0 (exchange available key_of enospc old r)
  unfolding kfree
  exchange-Adds old x h0 h (c, m', h') new a f (inl (ok, heap, add)) =
      rw (ok, destroy_map_lem old h', heap)
        (added new (
          refl,
          add.valid,
          λ y. rw (add.members y, has-cuts key_of old y),
          omega (arith, add.one_more, objects-cuts old),
        ))
  exchange-Adds old x h0 h (c, m', h') new a f (inr (full, heap, kept)) =
      rw (full, destroy_map_lem m' h', heap)
        (no_space new (refl, refl, omega (arith, kept, objects-cuts old)))

  exchange-Removes :
      (old : CuckooHash A) (x : A) (h0 h : Heap) (r : ℤ × CuckooHash A × Heap)
      → has key_of old x ≡ true
      → h.allocated ≡ h0.allocated + objects old + 1
      → h.freed ≡ h0.freed
      → r.0 ≡ success
      → r.2 ≡ kfree h
      → Removed key_of (cuts table_size old) x r.1
      → Removes old x h0 (exchange available key_of einval old r)
  unfolding kfree
  exchange-Removes old x h0 h (c, m', h') held a f ok heap gone =
      rw (ok, destroy_map_lem old h', heap)
        (removed held (
          refl,
          gone.valid,
          λ y. rw (gone.members y, has-cuts key_of old y),
          omega (arith, gone.one_less, objects-cuts old),
        ))

  insert-Adds :
      (old : CuckooHash A) (x : A) (h0 h : Heap)
      → IsValid key_of old
      → has key_of old x ≡ false
      → h.allocated ≡ h0.allocated + objects old + 2
      → h.freed ≡ h0.freed
      → Adds old x h0
          (exchange available key_of enospc old (insert (cuts table_size old) (key_of x) x h))
  insert-Adds old x h0 h v new a f =
      elim (insert-Inserts key_of (cuts table_size old) x h (cuts-IsValid key_of old v)) [
        | inl (held, _) ↦ cc (has-cuts key_of old x)
        | inr (_, result) ↦ exchange-Adds old x h0 h _ new a f result
      ]

  add_cloned-Adds :
      (old : CuckooHash A) (x : A) (h0 h : Heap)
      → IsValid key_of old
      → has key_of old x ≡ false
      → h.allocated ≡ h0.allocated + objects old + 1
      → h.freed ≡ h0.freed
      → Adds old x h0
          (add_cloned available key_of old x (cuts table_size old) (kmalloc available h))
  unfolding kmalloc
  add_cloned-Adds old x h0 h v new a f = elim (Bool-cases (available h.requests)) [
    | inl got ↦ rw got (insert-Adds old x h0 _ v new (omega arith) f)
    | inr failed ↦
        rw (failed, destroy_map_lem (cuts table_size old))
          (no_memory new (refl, refl, omega (arith, objects-cuts old)))
  ]

  add_to_clone-Adds :
      (old : CuckooHash A) (x : A) (h0 : Heap) (r : Option (CuckooHash A) × Heap)
      → IsValid key_of old
      → has key_of old x ≡ false
      → Clones old h0 r
      → Adds old x h0 (add_to_clone available key_of old x r)
  add_to_clone-Adds old x h0 (none, h) v new (inl (made, a, f)) = cc
  add_to_clone-Adds old x h0 (none, h) v new (inr (made, b)) =
      no_memory new (refl, refl, omega arith)
  add_to_clone-Adds old x h0 (some copy, h) v new (inl (made, a, f)) =
      rw (some_eq made) (add_cloned-Adds old x h0 h v new (omega (arith, objects-cuts old)) f)
  add_to_clone-Adds old x h0 (some copy, h) v new (inr (made, b)) = cc

  -- Adding an item ends in one of the four outcomes above, whichever allocations fail.
  pub add_item-Adds :
      (old : CuckooHash A) (x : A) (h : Heap)
      → IsValid key_of old
      → Adds old x h (add_item available key_of old x h)
  unfolding add_item
  add_item-Adds old x h v = elim (Bool-cases (has key_of old x)) [
    | inl held ↦ rw (contains-has key_of old x, held) (present held (refl, refl, omega arith))
    | inr new ↦
        rw (contains-has key_of old x, new)
          (add_to_clone-Adds old x h _ v new (clone_map-Clones available old h))
  ]

  remove-Removes' :
      (old : CuckooHash A) (x : A) (h0 h : Heap)
      → IsValid key_of old
      → has key_of old x ≡ true
      → h.allocated ≡ h0.allocated + objects old + 1
      → h.freed ≡ h0.freed
      → Removes old x h0
          (exchange available key_of einval old (remove (cuts table_size old) (key_of x) x h))
  remove-Removes' old x h0 h v held a f =
      elim (remove-Removes key_of (cuts table_size old) x (cuts-IsValid key_of old v) h) [
        | inl (_, ok, heap, gone) ↦ exchange-Removes old x h0 h _ held a f ok heap gone
        | inr (new, _, _, _) ↦ cc (has-cuts key_of old x)
      ]

  remove_from_clone-Removes :
      (old : CuckooHash A) (x : A) (h0 : Heap) (r : Option (CuckooHash A) × Heap)
      → IsValid key_of old
      → has key_of old x ≡ true
      → Clones old h0 r
      → Removes old x h0 (remove_from_clone available key_of old x r)
  remove_from_clone-Removes old x h0 (none, h) v held (inl (made, a, f)) = cc
  remove_from_clone-Removes old x h0 (none, h) v held (inr (made, b)) =
      Removes.no_memory held (refl, refl, omega arith)
  remove_from_clone-Removes old x h0 (some copy, h) v held (inl (made, a, f)) =
      rw (some_eq made) (remove-Removes' old x h0 h v held (omega (arith, objects-cuts old)) f)
  remove_from_clone-Removes old x h0 (some copy, h) v held (inr (made, b)) = cc

  -- Removing an item ends in one of the three outcomes above.
  pub remove_item-Removes :
      (old : CuckooHash A) (x : A) (h : Heap)
      → IsValid key_of old
      → Removes old x h (remove_item available key_of old x h)
  unfolding remove_item
  remove_item-Removes old x h v = elim (Bool-cases (has key_of old x)) [
    | inl held ↦
        rw (contains-has key_of old x, held)
          (remove_from_clone-Removes old x h _ v held (clone_map-Clones available old h))
    | inr new ↦ rw (contains-has key_of old x, new) (absent new (refl, refl, omega arith))
  ]
