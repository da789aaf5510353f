-- ===== src/Store/Contents.antt =====
-- The set that a cuckoo map stands for, the map's invariant, and what one write into a bucket does
-- to both.
use syscall_throttling.Base.{
  ℕ, ◌≡◌, refl, subst, Bool, true, false, ◌&&◌, ◌||◌, some, if◌then◌else◌, Eq, arith,
}
use syscall_throttling.Base.Code.{success, failure}
use syscall_throttling.Store.Hash.{hash1, hash2}
use syscall_throttling.Store.Cuckoo.{
  Entry, CuckooHash, slot_is, contains, empty_map, put_first, put_second,
}
use syscall_throttling.Store.Tables.{
  sees, IsKeyed, IsPlaced, sees-update, sees-displaced, displaced-lost, update-IsPlaced,
}

module _ {ℓ} {A : Type ℓ} ⦃e : Eq A⦄ (key_of : A → ℕ) where
  abbrev pub in_first : CuckooHash A → A → Bool
  in_first m = sees key_of hash1 m.first

  abbrev pub in_second : CuckooHash A → A → Bool
  in_second m = sees key_of hash2 m.second

  -- The set that the map stands for.
  abbrev pub has : CuckooHash A → A → Bool
  has m x = in_first m x || in_second m x

  pub record IsValid (m : CuckooHash A) : Type ℓ where
    pub first_placed : IsPlaced key_of hash1 m.first
    pub second_placed : IsPlaced key_of hash2 m.second
    pub once : (x : A) → (in_first m x && in_second m x) ≡ false

  pub empty-IsValid : IsValid empty_map
  empty-IsValid = record {
    first_placed = λ i s at. cc;
    second_placed = λ i s at. cc;
    once = λ x. refl;
  }

  pub contains-has :
      (m : CuckooHash A) (x : A) → contains m (key_of x) x ≡ (if has m x then success else failure)
  unfolding contains
  contains-has m x = ground arith

  module _ (m : CuckooHash A) (cur : Entry A) (v : IsValid m) (k : IsKeyed key_of hash1 cur)
      (new : has m cur.item ≡ false) where
    new_at : (y : A) → e.beq cur.item y ≡ true → has m y ≡ false
    new_at y h = subst (λ z. has m z ≡ false) ((e.beq_iff cur.item y).0 h) new

    pub put_first-has :
        (y : A)
        → (has (put_first m (hash1 cur.key) cur) y || slot_is (m.first (hash1 cur.key)) y)
          ≡ (has m y || e.beq cur.item y)
    put_first-has y = ground (arith, sees-update key_of hash1 m.first cur y v.first_placed k)

    pub put_first-IsValid : IsValid (put_first m (hash1 cur.key) cur)
    put_first-IsValid = record {
      first_placed = update-IsPlaced key_of hash1 m.first cur v.first_placed k;
      second_placed = v.second_placed;
      once = λ y.
          ground
            (arith, v.once y, new_at y, sees-update key_of hash1 m.first cur y v.first_placed k);
    }

    pub put_first-lost :
        (out : Entry A)
        → m.first (hash1 cur.key) ≡ some out
        → has (put_first m (hash1 cur.key) cur) out.item ≡ false
    put_first-lost out at =
        let seen = (sees-displaced key_of hash1 m.first out (hash1 cur.key) v.first_placed at).0 in
        ground (
          arith,
          seen,
          v.once out.item,
          new_at out.item,
          displaced-lost key_of hash1 m.first cur out v.first_placed at,
        )

    pub put_second-has :
        (y : A)
        → (has (put_second m (hash2 cur.key) cur) y || slot_is (m.second (hash2 cur.key)) y)
          ≡ (has m y || e.beq cur.item y)
    put_second-has y = ground (arith, sees-update key_of hash2 m.second cur y v.second_placed k)

    pub put_second-IsValid : IsValid (put_second m (hash2 cur.key) cur)
    put_second-IsValid = record {
      second_placed = update-IsPlaced key_of hash2 m.second cur v.second_placed k;
      first_placed = v.first_placed;
      once = λ y.
          ground
            (arith, v.once y, new_at y, sees-update key_of hash2 m.second cur y v.second_placed k);
    }

    pub put_second-lost :
        (out : Entry A)
        → m.second (hash2 cur.key) ≡ some out
        → has (put_second m (hash2 cur.key) cur) out.item ≡ false
    put_second-lost out at =
        let seen =
          (sees-displaced key_of hash2 m.second out (hash2 cur.key) v.second_placed at).0 in
        ground (
          arith,
          seen,
          v.once out.item,
          new_at out.item,
          displaced-lost key_of hash2 m.second cur out v.second_placed at,
        )
