-- ===== src/Store/Tables.antt =====
-- One table of the cuckoo map seen through one of the two bucket functions `bucket`.
use syscall_throttling.Base.{
  ℕ, ◌≡◌, refl, ap, ◌∙◌, subst, inl, inr, Bool, true, false, not, ◌&&◌, ◌||◌, Option, none, some,
  ◌==◌, ==_iff, Bool-cases, Option-cases, update, Eq, arith,
}
use syscall_throttling.Store.Cuckoo.{Entry, Table, slot_is}

or_comm : (a b : Bool) → (a || b) ≡ (b || a)
or_comm a b = ground arith

module _ {ℓ} {A : Type ℓ} ⦃e : Eq A⦄ (key_of : A → ℕ) (bucket : ℕ → ℕ) where
  -- Whether a look-up of `x` in its bucket finds it.
  abbrev pub sees : Table A → A → Bool
  sees t x = slot_is (t (bucket (key_of x))) x

  abbrev pub IsKeyed : Entry A → Type 0
  IsKeyed s = s.key ≡ key_of s.item

  -- Every entry stands in the bucket of its own key.
  abbrev pub IsPlaced : Table A → Type ℓ
  IsPlaced t = (i : ℕ) (s : Entry A) → t i ≡ some s → IsKeyed s × (i ≡ bucket s.key)

  pub beq_self : (x : A) → e.beq x x ≡ true
  beq_self x = (e.beq_iff x x).1 refl

  same_key : (x y : A) → e.beq x y ≡ true → key_of x ≡ key_of y
  same_key x y h = ap key_of ((e.beq_iff x y).0 h)

  -- An entry answers only to look-ups of its own bucket.
  pub slot_elsewhere :
      (t : Table A) (i : ℕ) (y : A)
      → IsPlaced t
      → (i == bucket (key_of y)) ≡ false
      → slot_is (t i) y ≡ false
  slot_elsewhere t i y p far = elim (Option-cases (t i)) [
    | inl absent ↦ rw absent
    | inr (s, at) ↦ rw at (ground (arith, p i s at, same_key s.item y, ap bucket))
  ]

  -- A bucket holds one item.
  one_seen :
      (o : Option (Entry A)) (x y : A)
      → slot_is o x ≡ true
      → false ≡ (not (e.beq x y) && slot_is o y)
  one_seen none x y h = cc
  one_seen (some s) x y h = let same = (e.beq_iff s.item x).0 h in rw same (ground arith)

  -- A write into the bucket of `cur` adds `cur` and loses what stood there.
  pub sees-update :
      (t : Table A) (cur : Entry A) (y : A)
      → IsPlaced t
      → IsKeyed cur
      → (sees (update t (bucket cur.key) (some cur)) y || slot_is (t (bucket cur.key)) y)
        ≡ (sees t y || e.beq cur.item y)
  sees-update t cur y p k = elim (Bool-cases (bucket cur.key == bucket (key_of y))) [
    | inl here ↦
        let same = (==_iff (bucket cur.key) (bucket (key_of y))).0 here in
        rw here (rw (ap t same) (or_comm (e.beq cur.item y) (slot_is (t (bucket (key_of y))) y)))
    | inr far ↦
        ground (arith, slot_elsewhere t (bucket cur.key) y p far, same_key cur.item y, ap bucket)
  ]

  -- What a write displaces is seen before it, and no longer after it.
  pub sees-displaced :
      (t : Table A) (out : Entry A) (i : ℕ)
      → IsPlaced t
      → t i ≡ some out
      → (sees t out.item ≡ true) × (i ≡ bucket (key_of out.item))
  sees-displaced t out i p at =
      (subst (λ j. slot_is (t j) out.item ≡ true) home (rw at (beq_self out.item)), home)
    where
      home : i ≡ bucket (key_of out.item)
      home = (p i out at).1 ∙ ap bucket (p i out at).0

  pub displaced-lost :
      (t : Table A) (cur out : Entry A)
      → IsPlaced t
      → t (bucket cur.key) ≡ some out
      → e.beq cur.item out.item ≡ false
      → sees (update t (bucket cur.key) (some cur)) out.item ≡ false
  displaced-lost t cur out p at ne =
      let home = (sees-displaced t out (bucket cur.key) p at).1 in
      rw ((==_iff (bucket cur.key) (bucket (key_of out.item))).1 home) ne

  pub update-IsPlaced :
      (t : Table A) (cur : Entry A)
      → IsPlaced t
      → IsKeyed cur
      → IsPlaced (update t (bucket cur.key) (some cur))
  update-IsPlaced t cur p k i s at = ground (arith, p i s)

  -- Clearing the bucket of `x` makes it unseen, and changes no other look-up.
  pub sees-clear :
      (t : Table A) (x y : A)
      → IsPlaced t
      → sees t x ≡ true
      → sees (update t (bucket (key_of x)) none) y ≡ (not (e.beq x y) && sees t y)
  sees-clear t x y p seen = elim (Bool-cases (bucket (key_of x) == bucket (key_of y))) [
    | inl here ↦
        let same = (==_iff (bucket (key_of x)) (bucket (key_of y))).0 here in
        rw here
          (one_seen (t (bucket (key_of y))) x y (subst (λ j. slot_is (t j) x ≡ true) same seen))
    | inr far ↦ ground (arith, same_key x y, ap bucket)
  ]

  pub clear-IsPlaced : (t : Table A) (i : ℕ) → IsPlaced t → IsPlaced (update t i none)
  clear-IsPlaced t i p j s at = ground (arith, p j s)
