-- ===== src/Store/Cloning.antt =====
-- `clone_map`: what the copy holds, and what a failed copy gives back.
use syscall_throttling.Base.{
  ℕ, zero, suc, ◌+◌, ◌≤◌, ◌<◌, ◌≡◌, refl, ap, ◌∙◌, sym, fun_ext, ◌⊎◌, inl, inr, Bool, true, false,
  Option, none, some, ltb, ◌==◌, ==_iff, if◌then◌else◌, Bool-cases, Option-cases, update, arith,
}
use native.Mathlib.Nat.{add-zero}
use syscall_throttling.Base.Heap.{Heap, kmalloc}
use syscall_throttling.Store.Hash.{table_size}
use syscall_throttling.Store.Cuckoo.{
  Table, CuckooHash, empty_map, create_map, clone_slot, clone_slots, clone_map, finish_clone,
}
use syscall_throttling.Store.Objects.{
  slot_count, count_from, count_from-update, objects, destroy_map_lem,
}

module _ {ℓ} {A : Type ℓ} where
  -- The buckets below `i`.
  abbrev pub cut : ℕ → Table A → Table A
  cut i t j = if ltb j i then t j else none

  -- What a copy of `m` holds when the loop has reached bucket `i`.
  abbrev pub cuts : ℕ → CuckooHash A → CuckooHash A
  cuts i m = record { first = cut i m.first; second = cut i m.second }

  cut-suc_at : (i j : ℕ) (t : Table A) → cut (suc i) t j ≡ update (cut i t) i (t i) j
  cut-suc_at i j t = elim (Bool-cases (i == j)) [
    | inl same ↦ let e = (==_iff i j).0 same in rw (same, ← e) (ground arith)
    | inr other ↦ rw other (ground arith)
  ]

  cut-suc : (i : ℕ) (t : Table A) → cut (suc i) t ≡ update (cut i t) i (t i)
  cut-suc i t = fun_ext (λ j. cut-suc_at i j t)

  cut-none_at : (i j : ℕ) (t : Table A) → t i ≡ none → cut (suc i) t j ≡ cut i t j
  cut-none_at i j t h = elim (Bool-cases (i == j)) [
    | inl same ↦ let e = (==_iff i j).0 same in rw (← e, h) (ground arith)
    | inr other ↦ ground arith
  ]

  cut-none : (i : ℕ) (t : Table A) → t i ≡ none → cut (suc i) t ≡ cut i t
  cut-none i t h = fun_ext (λ j. cut-none_at i j t h)

  total : Table A → ℕ
  total t = count_from table_size 0 t

  total-cut-suc :
      (i : ℕ) (t : Table A)
      → i < table_size
      → total (cut (suc i) t) ≡ total (cut i t) + slot_count (t i)
  unfolding total
  total-cut-suc i t h =
      rw (cut-suc i t)
        (ground (arith, count_from-update table_size 0 i (cut i t) (t i) (omega arith) h))

  count_from-cut-zero : (n i : ℕ) (t : Table A) → count_from n i (cut 0 t) ≡ 0
  unfolding count_from
  count_from-cut-zero zero i t = refl
  count_from-cut-zero (suc n) i t = ground (arith, count_from-cut-zero n (suc i) t)

  -- `clone_map` gives a full copy, one object for each item and one for the map, or nothing:
  -- then it has freed whatever it got.
  abbrev pub Clones : CuckooHash A → Heap → Option (CuckooHash A) × Heap → Type ℓ
  Clones src h (made, h') =
      ((made ≡ some (cuts table_size src))
        × (h'.allocated ≡ h.allocated + objects (cuts table_size src) + 1)
        × (h'.freed ≡ h.freed))
      ⊎ ((made ≡ none) × (h'.allocated + h.freed ≡ h.allocated + h'.freed))

  objects-cuts-zero : (src : CuckooHash A) → objects (cuts 0 src) ≡ 0
  unfolding objects
  objects-cuts-zero src = omega (
    arith,
    count_from-cut-zero table_size 0 src.first,
    count_from-cut-zero table_size 0 src.second,
  )

  cut_zero : (t : Table A) → cut 0 t ≡ (λ _. none)
  cut_zero t = fun_ext (λ j. ground arith)

  cuts-zero : (src : CuckooHash A) → cuts 0 src ≡ empty_map
  cuts-zero src = ground (arith, cut_zero src.first, cut_zero src.second)

  module _ (available : ℕ → Bool) where
    -- One bucket: copied with one object, or missing and nothing handed out.
    record SlotCloned (i : ℕ) (src : Table A) (h : Heap) (r : Bool × Table A × Heap) : Type ℓ where
      copied : r.0 ≡ true → r.1 ≡ cut (suc i) src
      stopped : r.0 ≡ false → r.1 ≡ cut i src
      balance : r.2.allocated + total (cut i src) ≡ h.allocated + total r.1
      kept : r.2.freed ≡ h.freed

    clone_slot-SlotCloned :
        (i : ℕ) (src : Table A) (h : Heap)
        → i < table_size
        → SlotCloned i src h (clone_slot available src (cut i src) i h)
    unfolding clone_slot kmalloc
    clone_slot-SlotCloned i src h lt = elim (Option-cases (src i)) [
      | inl absent ↦
          rw (absent, clone_slot)
            (record {
              copied = λ _. sym (cut-none i src absent);
              stopped = λ _. refl;
              balance = refl;
              kept = refl;
            })
      | inr (s, here) ↦
          let written = rw here at (sym (cut-suc i src)) in
          elim (Bool-cases (available h.requests)) [
            | inl got ↦
                rw (here, got, clone_slot)
                  (record {
                    copied = λ _. written;
                    stopped = λ f. cc;
                    balance =
                        rw written (omega (arith, total-cut-suc i src lt, ap slot_count here));
                    kept = refl;
                  })
            | inr failed ↦
                rw (here, failed, clone_slot)
                  (record { copied = λ f. cc; stopped = λ _. refl; balance = refl; kept = refl })
          ]
    ]

    -- The loop from bucket `i` with `n` to go.
    record SlotsCloned (n i : ℕ) (src : CuckooHash A) (h : Heap) (r : Bool × CuckooHash A × Heap)
        : Type ℓ where
      copied : r.0 ≡ true → r.1 ≡ cuts (i + n) src
      balance : r.2.allocated + objects (cuts i src) ≡ h.allocated + objects r.1
      kept : r.2.freed ≡ h.freed

    clone_slots-SlotsCloned :
        (n i : ℕ) (src : CuckooHash A) (h : Heap)
        → i + n ≤ table_size
        → SlotsCloned n i src h (clone_slots available n i src (cuts i src) h)
    unfolding clone_slots objects total
    clone_slots-SlotsCloned zero i src h le = record {
      copied = λ _. rw (add-zero i);
      balance = refl;
      kept = refl;
    }
    clone_slots-SlotsCloned (suc n) i src h le =
        let r1 = clone_slot available src.first (cut i src.first) i h in
        let c1 = clone_slot-SlotCloned i src.first h (omega arith) in
        let r2 = clone_slot available src.second (cut i src.second) i r1.2 in
        let c2 = clone_slot-SlotCloned i src.second r1.2 (omega arith) in
        elim (Bool-cases r1.0) [
          | inl ok1 ↦ elim (Bool-cases r2.0) [
            | inl ok2 ↦
                let ih = clone_slots-SlotsCloned n (suc i) src r2.2 (omega arith) in
                rw (ok1, ok2, c1.copied ok1, c2.copied ok2)
                  (record {
                    copied = λ t. ih.copied t ∙ ap (λ k. cuts k src) (omega arith);
                    balance = omega (
                      arith,
                      ih.balance,
                      c1.balance,
                      c2.balance,
                      ap total (c1.copied ok1),
                      ap total (c2.copied ok2),
                    );
                    kept = ih.kept ∙ c2.kept ∙ c1.kept;
                  })
            | inr fail2 ↦
                rw (ok1, fail2)
                  (record {
                    copied = λ f. cc;
                    balance = omega (arith, c1.balance, c2.balance, ap total (c2.stopped fail2));
                    kept = c2.kept ∙ c1.kept;
                  })
          ]
          | inr fail1 ↦
              rw fail1
                (record { copied = λ f. cc; balance = omega (arith, c1.balance); kept = c1.kept })
        ]

    pub create_map_lem :
        (h : Heap)
        → create_map {A = A} available h ≡ (
            if available h.requests
            then (
              some empty_map,
              record h { requests = h.requests + 1; allocated = h.allocated + 1 },
            )
            else (none, record h { requests = h.requests + 1 }))
    unfolding create_map kmalloc
    create_map_lem h = ground arith

    finish_clone-Clones :
        (src : CuckooHash A) (h : Heap) (r : Bool × CuckooHash A × Heap)
        → SlotsCloned table_size 0 src
            (record h { requests = h.requests + 1; allocated = h.allocated + 1 })
            r
        → Clones src h (finish_clone r)
    finish_clone-Clones src h (true, dst, h') c =
        let whole = c.copied refl in
        inl
          (ap some whole, omega (arith, c.balance, objects-cuts-zero src, ap objects whole), c.kept)
    finish_clone-Clones src h (false, dst, h') c = inr (
      refl,
      rw (destroy_map_lem dst h') (omega (arith, c.balance, objects-cuts-zero src, c.kept)),
    )

    pub clone_map-Clones :
        (src : CuckooHash A) (h : Heap) → Clones src h (clone_map available src h)
    unfolding clone_map
    clone_map-Clones src h = elim (Bool-cases (available h.requests)) [
      | inr failed ↦ rw (create_map_lem h, failed) (inr (refl, refl))
      | inl got ↦
          rw (create_map_lem h, got, ← cuts-zero src)
            (finish_clone-Clones src h _ (clone_slots-SlotsCloned table_size 0 src _ (omega arith)))
    ]
