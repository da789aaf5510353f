-- ===== src/Store/History.antt =====
-- Any sequence of registrations against two plain sets that change when a call succeeds.
use syscall_throttling.Base.{
  ℕ, ◌≡◌, refl, ◌∙◌, inl, inr, Bool, false, not, ◌&&◌, ◌||◌, List, [], ◌∷◌, if◌then◌else◌, arith,
}
use syscall_throttling.Base.Int.{ℤ, is_zero}
use syscall_throttling.Base.Code.{enomem, enospc, eexist, einval}
use syscall_throttling.Base.Heap.{Heap, IsBalanced}
use syscall_throttling.Store.Keys.{compare_user, compare_program}
use syscall_throttling.Store.{
  Store, add_user_to_store, remove_user_from_store, add_program_to_store, remove_program_from_store,
}
use syscall_throttling.Store.Registry.{
  has_user, has_program, IsValid, held, Done, Refused, add_user-outcome, remove_user-outcome,
  add_program-outcome, remove_program-outcome,
}

pub data Request : Type 0 where
  add_user remove_user : ℕ → Request
  add_program remove_program : List ℕ → Request

-- The abstract store.
pub record Sets : Type 0 where
  pub users : ℕ → Bool
  pub programs : List ℕ → Bool

-- What a call that succeeds does to the sets.
unfoldable pub changed : Sets → Request → Sets
changed t (add_user u) = record t { users = λ w. t.users w || compare_user u w }
changed t (remove_user u) = record t { users = λ w. not (compare_user u w) && t.users w }
changed t (add_program p) = record t { programs = λ w. t.programs w || compare_program p w }
changed t (remove_program p) = record t {
  programs = λ w. not (compare_program p w) && t.programs w;
}

abbrev pub spec_step : Sets → Request → ℤ → Sets
spec_step t r code = if is_zero code then changed t r else t

unfoldable pub spec_run : Sets → List Request → List ℤ → Sets
spec_run t [] codes = t
spec_run t (r ∷ rs) [] = t
spec_run t (r ∷ rs) (c ∷ cs) = spec_run (spec_step t r c) rs cs

-- The store holds exactly these sets.
pub record Holds (s : Store) (t : Sets) : Type 0 where
  pub valid : IsValid s
  pub users : (u : ℕ) → has_user s u ≡ t.users u
  pub programs : (p : List ℕ) → has_program s p ≡ t.programs p

module _ (available : ℕ → Bool) where
  unfoldable pub serve : Request → Store → Heap → ℤ × Store × Heap
  serve (add_user u) s h = add_user_to_store available s u h
  serve (remove_user u) s h = remove_user_from_store available s u h
  serve (add_program p) s h = add_program_to_store available s p h
  serve (remove_program p) s h = remove_program_from_store available s p h

  -- The calls in order; the statuses in order, with the last store and heap.
  unfoldable pub run : List Request → Store → Heap → List ℤ × Store × Heap
  run [] s h = ([], s, h)
  run (r ∷ rs) s h =
      let (code, s1, h1) = serve r s h in
      let (codes, s2, h2) = run rs s1 h1 in (code ∷ codes, s2, h2)

  -- One call.
  abbrev pub Serves : Sets → Request → Store → Heap → ℤ × Store × Heap → Type 0
  Serves t r s h (code, s', h') = Holds s' (spec_step t r code) × IsBalanced h (held s) h' (held s')

  Refused-Serves :
      (t : Sets) (r : Request) (s : Store) (h : Heap) (code : ℤ) (out : ℤ × Store × Heap)
      → Holds s t
      → is_zero code ≡ false
      → Refused s h code out
      → Serves t r s h out
  Refused-Serves t r s h code (c, s', h') holds bad (e, same, b) = rw (e, bad, same) (holds, b)

  Done-Serves :
      (t : Sets) (r : Request) (s : Store) (h : Heap) (users : ℕ → Bool) (programs : List ℕ → Bool)
      (out : ℤ × Store × Heap)
      → ((u : ℕ) → users u ≡ (changed t r).users u)
      → ((p : List ℕ) → programs p ≡ (changed t r).programs p)
      → Done s h users programs out
      → Serves t r s h out
  Done-Serves t r s h users programs (c, s', h') same_users same_programs (e, valid, us, ps, b) =
      rw e (
        record {
          valid = valid;
          users = λ u. us u ∙ same_users u;
          programs = λ p. ps p ∙ same_programs p;
        },
        b,
      )

  pub serve-Serves :
      (r : Request) (s : Store) (h : Heap) (t : Sets) → Holds s t → Serves t r s h (serve r s h)
  unfolding serve changed
  serve-Serves (add_user u) s h t holds =
      let out = add_user_to_store available s u h in
      let refused = λ (code : ℤ). Refused-Serves t (add_user u) s h code out holds in
      elim (add_user-outcome available s h holds.valid u) [
        | inl (_, f) ↦ refused eexist refl f
        | inr (_, inl f) ↦ refused enomem refl f
        | inr (_, inr (inl f)) ↦ refused enospc refl f
        | inr (_, inr (inr d)) ↦
            Done-Serves t (add_user u) s h _ _ out (λ w. rw (holds.users w)) (holds.programs) d
      ]
  serve-Serves (remove_user u) s h t holds =
      let out = remove_user_from_store available s u h in
      let refused = λ (code : ℤ). Refused-Serves t (remove_user u) s h code out holds in
      elim (remove_user-outcome available s h holds.valid u) [
        | inl (_, f) ↦ refused einval refl f
        | inr (_, inl f) ↦ refused enomem refl f
        | inr (_, inr d) ↦
            Done-Serves t (remove_user u) s h _ _ out (λ w. rw (holds.users w)) (holds.programs) d
      ]
  serve-Serves (add_program p) s h t holds =
      let out = add_program_to_store available s p h in
      let refused = λ (code : ℤ). Refused-Serves t (add_program p) s h code out holds in
      elim (add_program-outcome available s h holds.valid p) [
        | inl (_, f) ↦ refused eexist refl f
        | inr (_, inl f) ↦ refused enomem refl f
        | inr (_, inr (inl f)) ↦ refused enospc refl f
        | inr (_, inr (inr d)) ↦
            Done-Serves t (add_program p) s h _ _ out (holds.users) (λ w. rw (holds.programs w)) d
      ]
  serve-Serves (remove_program p) s h t holds =
      let out = remove_program_from_store available s p h in
      let refused = λ (code : ℤ). Refused-Serves t (remove_program p) s h code out holds in
      elim (remove_program-outcome available s h holds.valid p) [
        | inl (_, f) ↦ refused einval refl f
        | inr (_, inl f) ↦ refused enomem refl f
        | inr (_, inr d) ↦
            Done-Serves t (remove_program p) s h _ _ out (holds.users) (λ w. rw (holds.programs w))
              d
      ]

  -- After any sequence of registrations and deregistrations, whichever allocations fail, the store
  -- is well formed, it holds exactly the users and programs that the calls which returned 0 have
  -- put there and left there, and the objects handed out and not freed are those that it owns.
  pub run-Holds :
      (rs : List Request) (s : Store) (h : Heap) (t : Sets)
      → Holds s t
      → let (codes, s', h') = run rs s h in
        Holds s' (spec_run t rs codes) × IsBalanced h (held s) h' (held s')
  unfolding run spec_run
  run-Holds [] s h t holds = (holds, omega arith)
  run-Holds (r ∷ rs) s h t holds =
      let (code, s1, h1) = serve r s h in
      let (holds1, b1) = serve-Serves r s h t holds in
      let (holds2, b2) = run-Holds rs s1 h1 (spec_step t r code) holds1 in
      (holds2, omega (arith, b1, b2))
