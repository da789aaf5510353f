-- ===== src/Store/Copy.antt =====
-- The set that a copy made by `clone_map` stands for.
use syscall_throttling.Base.{ℕ, zero, suc, ◌+◌, ◌≤◌, ◌<◌, ◌≡◌, refl, lt→ltb, Eq, arith}
use syscall_throttling.Store.Hash.{table_size, hash1, hash2, hash1-lt, hash2-lt}
use syscall_throttling.Store.Cuckoo.{Table, CuckooHash}
use syscall_throttling.Store.Tables.{sees, IsPlaced}
use syscall_throttling.Store.Contents.{has, IsValid}
use syscall_throttling.Store.Objects.{count_from, objects}
use syscall_throttling.Store.Cloning.{cut, cuts}

module _ {ℓ} {A : Type ℓ} where
  count_from-cut :
      (n i : ℕ) (t : Table A)
      → i + n ≤ table_size
      → count_from n i (cut table_size t) ≡ count_from n i t
  unfolding count_from
  count_from-cut zero i t h = refl
  count_from-cut (suc n) i t h = ground (arith, count_from-cut n (suc i) t)

  pub objects-cuts : (m : CuckooHash A) → objects (cuts table_size m) ≡ objects m
  unfolding objects
  objects-cuts m = omega (
    arith,
    count_from-cut table_size 0 m.first (omega arith),
    count_from-cut table_size 0 m.second (omega arith),
  )

module _ {ℓ} {A : Type ℓ} ⦃e : Eq A⦄ (key_of : A → ℕ) where
  sees-cut :
      (bucket : ℕ → ℕ) (t : Table A) (y : A)
      → bucket (key_of y) < table_size
      → sees key_of bucket (cut table_size t) y ≡ sees key_of bucket t y
  sees-cut bucket t y h = rw (lt→ltb _ _ h)

  cut-IsPlaced :
      (bucket : ℕ → ℕ) (t : Table A)
      → IsPlaced key_of bucket t
      → IsPlaced key_of bucket (cut table_size t)
  cut-IsPlaced bucket t p i s h = p i s (ground arith)

  pub has-cuts : (m : CuckooHash A) (y : A) → has key_of (cuts table_size m) y ≡ has key_of m y
  has-cuts m y = rw (
    sees-cut hash1 m.first y (hash1-lt (key_of y)),
    sees-cut hash2 m.second y (hash2-lt (key_of y)),
  )

  pub cuts-IsValid : (m : CuckooHash A) → IsValid key_of m → IsValid key_of (cuts table_size m)
  cuts-IsValid m v = record {
    first_placed = cut-IsPlaced hash1 m.first v.first_placed;
    second_placed = cut-IsPlaced hash2 m.second v.second_placed;
    once = λ y.
        rw
          (
            sees-cut hash1 m.first y (hash1-lt (key_of y)),
            sees-cut hash2 m.second y (hash2-lt (key_of y)),
          )
          (v.once y);
  }
