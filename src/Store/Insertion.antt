-- ===== src/Store/Insertion.antt =====
-- `insert`: the loop that kicks entries from bucket to bucket.
use syscall_throttling.Base.{
  ℕ, zero, suc, ◌+◌, ◌≡◌, refl, ◌⊎◌, inl, inr, true, false, ◌||◌, none, some, Bool-cases,
  Option-cases, Eq, arith,
}
use syscall_throttling.Base.Int.{ℤ}
use syscall_throttling.Base.Code.{success, eexist, enospc}
use syscall_throttling.Base.Heap.{Heap, kfree}
use syscall_throttling.Store.Hash.{hash1, hash2, hash1-lt, hash2-lt}
use syscall_throttling.Store.Cuckoo.{
  Entry, CuckooHash, kick, insert, max_kicks, put_first, put_second,
}
use syscall_throttling.Store.Tables.{IsKeyed}
use syscall_throttling.Store.Contents.{
  has, IsValid, contains-has, put_first-has, put_first-IsValid, put_first-lost, put_second-has,
  put_second-IsValid, put_second-lost,
}
use syscall_throttling.Store.Objects.{objects, objects-put_first, objects-put_second}

module _ {ℓ} {A : Type ℓ} ⦃e : Eq A⦄ (key_of : A → ℕ) where
  -- `x` has been added to `m`, giving `m'`.
  pub record Added (m : CuckooHash A) (x : A) (m' : CuckooHash A) : Type ℓ where
    pub valid : IsValid key_of m'
    pub members : (y : A) → has key_of m' y ≡ (has key_of m y || e.beq x y)
    pub one_more : objects m' ≡ objects m + 1

  -- Either the item has found a bucket, or one item was thrown out and freed.
  abbrev pub Inserts : CuckooHash A → A → Heap → ℤ × CuckooHash A × Heap → Type ℓ
  Inserts m x h (code, m', h') =
      ((code ≡ success) × (h' ≡ h) × Added m x m')
      ⊎ ((code ≡ enospc) × (h' ≡ kfree h) × (objects m' ≡ objects m))

  -- A round of the loop exchanges the entry in hand and keeps everything else.
  Inserts-trans :
      (m m2 : CuckooHash A) (x x2 : A) (h : Heap) (r : ℤ × CuckooHash A × Heap)
      → ((y : A) → (has key_of m2 y || e.beq x2 y) ≡ (has key_of m y || e.beq x y))
      → objects m2 ≡ objects m
      → Inserts m2 x2 h r
      → Inserts m x h r
  Inserts-trans m m2 x x2 h r same count (inl (ok, heap, added)) = inl (
    ok,
    heap,
    record {
      valid = added.valid;
      members = λ y. ground (arith, added.members y, same y);
      one_more = omega arith;
    },
  )
  Inserts-trans m m2 x x2 h r same count (inr (full, heap, kept)) = inr (full, heap, omega arith)

  module _ (m : CuckooHash A) (cur : Entry A) (v : IsValid key_of m) (k : IsKeyed key_of hash1 cur)
      (new : has key_of m cur.item ≡ false) where
    put_first-Added :
        m.first (hash1 cur.key) ≡ none → Added m cur.item (put_first m (hash1 cur.key) cur)
    put_first-Added free = record {
      valid = put_first-IsValid key_of m cur v k new;
      members = λ y. ground (arith, put_first-has key_of m cur v k new y);
      one_more = ground (arith, objects-put_first m (hash1 cur.key) cur, hash1-lt cur.key);
    }

    put_second-Added :
        m.second (hash2 cur.key) ≡ none → Added m cur.item (put_second m (hash2 cur.key) cur)
    put_second-Added free = record {
      valid = put_second-IsValid key_of m cur v k new;
      members = λ y. ground (arith, put_second-has key_of m cur v k new y);
      one_more = ground (arith, objects-put_second m (hash2 cur.key) cur, hash2-lt cur.key);
    }

    put_first-Inserts :
        (out : Entry A) (h : Heap) (r : ℤ × CuckooHash A × Heap)
        → m.first (hash1 cur.key) ≡ some out
        → Inserts (put_first m (hash1 cur.key) cur) out.item h r
        → Inserts m cur.item h r
    put_first-Inserts out h r at =
        Inserts-trans m (put_first m (hash1 cur.key) cur) cur.item out.item h r
          (λ y. ground (arith, put_first-has key_of m cur v k new y))
          (ground (arith, objects-put_first m (hash1 cur.key) cur, hash1-lt cur.key))

    put_second-Inserts :
        (out : Entry A) (h : Heap) (r : ℤ × CuckooHash A × Heap)
        → m.second (hash2 cur.key) ≡ some out
        → Inserts (put_second m (hash2 cur.key) cur) out.item h r
        → Inserts m cur.item h r
    put_second-Inserts out h r at =
        Inserts-trans m (put_second m (hash2 cur.key) cur) cur.item out.item h r
          (λ y. ground (arith, put_second-has key_of m cur v k new y))
          (ground (arith, objects-put_second m (hash2 cur.key) cur, hash2-lt cur.key))

  kick-Inserts :
      (n : ℕ) (m : CuckooHash A) (cur : Entry A) (h : Heap)
      → IsValid key_of m
      → IsKeyed key_of hash1 cur
      → has key_of m cur.item ≡ false
      → Inserts m cur.item h (kick n m cur h)
  unfolding kick
  kick-Inserts zero m cur h v k new = inr (refl, refl, refl)
  kick-Inserts (suc n) m cur h v k new = elim (Option-cases (m.first (hash1 cur.key))) [
    | inl free ↦ rw (free, kick) (inl (refl, refl, put_first-Added m cur v k new free))
    | inr (out1, at1) ↦
        let m1 = put_first m (hash1 cur.key) cur in
        let v1 = put_first-IsValid key_of m cur v k new in
        let k1 = (v.first_placed (hash1 cur.key) out1 at1).0 in
        let new1 = put_first-lost key_of m cur v k new out1 at1 in
        put_first-Inserts m cur v k new out1 h _ at1
          (elim (Option-cases (m.second (hash2 out1.key))) [
            | inl free ↦
                rw (at1, free, kick) (inl (refl, refl, put_second-Added m1 out1 v1 k1 new1 free))
            | inr (out2, at2) ↦ put_second-Inserts m1 out1 v1 k1 new1 out2 h _ at2 (
                rw (at1, at2, kick)
                  (kick-Inserts n (put_second m1 (hash2 out1.key) out1) out2 h
                    (put_second-IsValid key_of m1 out1 v1 k1 new1)
                    (v.second_placed (hash2 out1.key) out2 at2).0
                    (put_second-lost key_of m1 out1 v1 k1 new1 out2 at2)))
          ])
  ]

  -- On a valid map, `insert` refuses an item that the map has, and touches nothing then. It adds
  -- an item that the map lacks, or ends with one item thrown out and freed.
  pub insert-Inserts :
      (m : CuckooHash A) (x : A) (h : Heap)
      → IsValid key_of m
      → ((has key_of m x ≡ true) × (insert m (key_of x) x h ≡ (eexist, m, h)))
        ⊎ ((has key_of m x ≡ false) × Inserts m x h (insert m (key_of x) x h))
  unfolding insert
  insert-Inserts m x h v = elim (Bool-cases (has key_of m x)) [
    | inl held ↦ inl (held, rw (contains-has key_of m x, held))
    | inr new ↦ inr (
      new,
      rw (contains-has key_of m x, new)
          (kick-Inserts max_kicks m (record { key = key_of x; item = x }) h v refl new),
    )
  ]
