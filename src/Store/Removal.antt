-- ===== src/Store/Removal.antt =====
-- `remove`.
use syscall_throttling.Base.{
  ℕ, ◌+◌, ◌≡◌, refl, subst, ◌⊎◌, inl, inr, Option, true, false, not, ◌&&◌, none, some, Bool-cases,
  update, Eq, arith,
}
use syscall_throttling.Base.Code.{success, failure}
use syscall_throttling.Base.Heap.{Heap, kfree}
use syscall_throttling.Store.Hash.{table_size, hash1, hash2, hash1-lt, hash2-lt}
use syscall_throttling.Store.Cuckoo.{Entry, CuckooHash, slot_is, remove}
use syscall_throttling.Store.Tables.{sees-clear, clear-IsPlaced}
use syscall_throttling.Store.Contents.{has, in_first, in_second, IsValid}
use syscall_throttling.Store.Objects.{objects, slot_count, count_from-update}

module _ {ℓ} {A : Type ℓ} ⦃e : Eq A⦄ (key_of : A → ℕ) where
  -- `x` has been taken out of `m`, giving `m'`.
  pub record Removed (m : CuckooHash A) (x : A) (m' : CuckooHash A) : Type ℓ where
    pub valid : IsValid key_of m'
    pub members : (y : A) → has key_of m' y ≡ (not (e.beq x y) && has key_of m y)
    pub one_less : objects m' + 1 ≡ objects m

  slot_count_of_is : (o : Option (Entry A)) (x : A) → slot_is o x ≡ true → slot_count o ≡ 1
  slot_count_of_is none x h = cc
  slot_count_of_is (some s) x h = refl

  module _ (m : CuckooHash A) (x : A) (v : IsValid key_of m) where
    clear_first : CuckooHash A
    clear_first = record m { first = update m.first (hash1 (key_of x)) none }

    clear_second : CuckooHash A
    clear_second = record m { second = update m.second (hash2 (key_of x)) none }

    -- The other table has no copy.
    once_at : (y : A) → e.beq x y ≡ true → (in_first key_of m y && in_second key_of m x) ≡ false
    once_at y h =
        subst (λ z. (in_first key_of m z && in_second key_of m x) ≡ false) ((e.beq_iff x y).0 h)
          (v.once x)

    once_at' : (y : A) → e.beq x y ≡ true → (in_first key_of m x && in_second key_of m y) ≡ false
    once_at' y h =
        subst (λ z. (in_first key_of m x && in_second key_of m z) ≡ false) ((e.beq_iff x y).0 h)
          (v.once x)

    clear_first-Removed : in_first key_of m x ≡ true → Removed m x clear_first
    unfolding clear_first objects
    clear_first-Removed seen = record {
      valid = record {
        first_placed = clear-IsPlaced key_of hash1 m.first (hash1 (key_of x)) v.first_placed;
        second_placed = v.second_placed;
        once =
            λ y. ground (arith, v.once y, sees-clear key_of hash1 m.first x y v.first_placed seen);
      };
      members =
          λ y. ground (arith, once_at' y, sees-clear key_of hash1 m.first x y v.first_placed seen);
      one_less = omega (
        arith,
        slot_count_of_is (m.first (hash1 (key_of x))) x seen,
        hash1-lt (key_of x),
        count_from-update table_size 0 (hash1 (key_of x)) m.first none (omega arith)
            (hash1-lt (key_of x)),
      );
    }

    clear_second-Removed : in_second key_of m x ≡ true → Removed m x clear_second
    unfolding clear_second objects
    clear_second-Removed seen = record {
      valid = record {
        first_placed = v.first_placed;
        second_placed = clear-IsPlaced key_of hash2 m.second (hash2 (key_of x)) v.second_placed;
        once = λ y.
            ground (arith, v.once y, sees-clear key_of hash2 m.second x y v.second_placed seen);
      };
      members =
          λ y. ground (arith, once_at y, sees-clear key_of hash2 m.second x y v.second_placed seen);
      one_less = omega (
        arith,
        slot_count_of_is (m.second (hash2 (key_of x))) x seen,
        hash2-lt (key_of x),
        count_from-update table_size 0 (hash2 (key_of x)) m.second none (omega arith)
            (hash2-lt (key_of x)),
      );
    }

    -- `remove` takes out an item that the map has, and frees it. It refuses any other, and changes
    -- nothing then.
    pub remove-Removes :
        (h : Heap)
        → let (code, m', h') = remove m (key_of x) x h in
          ((has key_of m x ≡ true) × (code ≡ success) × (h' ≡ kfree h) × Removed m x m')
          ⊎ ((has key_of m x ≡ false) × (code ≡ failure) × (h' ≡ h) × (m' ≡ m))
    unfolding remove clear_first clear_second
    remove-Removes h = elim (Bool-cases (in_first key_of m x)) [
      | inl seen ↦ rw seen (inl (refl, refl, refl, clear_first-Removed seen))
      | inr missed ↦ elim (Bool-cases (in_second key_of m x)) [
        | inl seen ↦ rw (missed, seen) (inl (refl, refl, refl, clear_second-Removed seen))
        | inr missed2 ↦ rw (missed, missed2) (inr (refl, refl, refl, refl))
      ]
    ]
