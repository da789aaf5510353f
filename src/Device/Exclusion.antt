-- ===== src/Device/Exclusion.antt =====
-- Which threads have the device open, over any interleaving.
use syscall_throttling.Base.{
  ℕ, zero, suc, ◌+◌, ◌≤◌, ◌≡◌, refl, subst, inl, inr, Bool, true, Option, none, some, List, [], ◌∷◌,
  if◌then◌else◌, if_cases, Option-cases, arith,
}
use syscall_throttling.Base.Int.{ℤ, pos, negsuc, ◌+ℤ◌, ◌-ℤ◌, is_zero, Same, int_laws}
use syscall_throttling.Device.{
  Phase, outside, busy, inside, same_phase, Device, move, Event, opens, gives_back, releases, moved,
  step, run,
}

abbrev pub count : Phase → List Phase → ℕ
count q [] = 0
count q (p ∷ ps) = if same_phase q p then suc (count q ps) else count q ps

abbrev one_if : Bool → ℕ
one_if b = if b then 1 else 0

-- What a move does to the number of threads in a phase.
abbrev Recounts : Phase → Phase → Phase → List Phase → Option (List Phase) → Type 0
Recounts q from to xs none = Unit {0}
Recounts q from to xs (some ys) =
    count q ys + one_if (same_phase q from) ≡ count q xs + one_if (same_phase q to)

same_phase_eq : (p q : Phase) → same_phase p q ≡ true → p ≡ q
same_phase_eq outside outside h = refl
same_phase_eq busy busy h = refl
same_phase_eq inside inside h = refl
same_phase_eq outside busy h = cc
same_phase_eq outside inside h = cc
same_phase_eq busy outside h = cc
same_phase_eq busy inside h = cc
same_phase_eq inside outside h = cc
same_phase_eq inside busy h = cc

move-Recounts :
    (q from to : Phase) (i : ℕ) (xs : List Phase) → Recounts q from to xs (move i from to xs)
unfolding move
move-Recounts q from to i [] = tt
move-Recounts q from to zero (p ∷ ps) =
    if_cases (Recounts q from to (p ∷ ps)) (same_phase p from)
      (λ here. rw (same_phase_eq p from here) (ground arith)) (λ _. tt)
move-Recounts q from to (suc i) (p ∷ ps) = elim (Option-cases (move i from to ps)) [
  | inl e ↦ rw e tt
  | inr (qs, e) ↦
      rw e (ground (arith, subst (Recounts q from to ps) e (move-Recounts q from to i ps)))
]

-- The counter is 1 less the threads that have taken from it, and at most one has the device open.
pub record IsExclusive (d : Device) : Type 0 where
  pub counted :
      Same (d.dev_available +ℤ pos (count inside d.threads + count busy d.threads)) (pos 1)
  pub exclusive : count inside d.threads ≤ 1

is_zero-Same : (z : ℤ) → is_zero z ≡ true → Same z (pos 0)
is_zero-Same (pos zero) h = omega int_laws
is_zero-Same (pos (suc n)) h = cc
is_zero-Same (negsuc n) h = cc

open_inside :
    (d : Device) (i : ℕ)
    → IsExclusive d
    → is_zero (d.dev_available -ℤ pos 1) ≡ true
    → IsExclusive (moved d (d.dev_available -ℤ pos 1) (move i outside inside d.threads))
open_inside d i v zero_left = elim (Option-cases (move i outside inside d.threads)) [
  | inl e ↦ rw e v
  | inr (ts, e) ↦
      let ins =
        subst (Recounts inside outside inside d.threads) e
          (move-Recounts inside outside inside i d.threads) in
      let bus =
        subst (Recounts busy outside inside d.threads) e
          (move-Recounts busy outside inside i d.threads) in
      let none_left = is_zero-Same (d.dev_available -ℤ pos 1) zero_left in
      rw e (record {
        counted = omega (int_laws, ins, bus, v.counted);
        exclusive = omega (int_laws, ins, v.counted, none_left);
      })
]

open_busy :
    (d : Device) (i : ℕ)
    → IsExclusive d
    → IsExclusive (moved d (d.dev_available -ℤ pos 1) (move i outside busy d.threads))
open_busy d i v = elim (Option-cases (move i outside busy d.threads)) [
  | inl e ↦ rw e v
  | inr (ts, e) ↦
      let ins =
        subst (Recounts inside outside busy d.threads) e
          (move-Recounts inside outside busy i d.threads) in
      let bus =
        subst (Recounts busy outside busy d.threads) e
          (move-Recounts busy outside busy i d.threads) in
      rw e (record {
        counted = omega (int_laws, ins, bus, v.counted);
        exclusive = omega (arith, ins, v.exclusive);
      })
]

step-IsExclusive : (d : Device) (e : Event) → IsExclusive d → IsExclusive (step d e)
unfolding step
step-IsExclusive d (opens i) v =
    if_cases (λ p. IsExclusive (moved d (d.dev_available -ℤ pos 1) (move i outside p d.threads)))
      (is_zero (d.dev_available -ℤ pos 1)) (open_inside d i v) (λ _. open_busy d i v)
step-IsExclusive d (gives_back i) v = elim (Option-cases (move i busy outside d.threads)) [
  | inl e ↦ rw e v
  | inr (ts, e) ↦
      let ins =
        subst (Recounts inside busy outside d.threads) e
          (move-Recounts inside busy outside i d.threads) in
      let bus =
        subst (Recounts busy busy outside d.threads) e
          (move-Recounts busy busy outside i d.threads) in
      rw e (record {
        counted = omega (int_laws, ins, bus, v.counted);
        exclusive = omega (arith, ins, v.exclusive);
      })
]
step-IsExclusive d (releases i) v = elim (Option-cases (move i inside outside d.threads)) [
  | inl e ↦ rw e v
  | inr (ts, e) ↦
      let ins =
        subst (Recounts inside inside outside d.threads) e
          (move-Recounts inside inside outside i d.threads) in
      let bus =
        subst (Recounts busy inside outside d.threads) e
          (move-Recounts busy inside outside i d.threads) in
      rw e (record {
        counted = omega (int_laws, ins, bus, v.counted);
        exclusive = omega (arith, ins, v.exclusive);
      })
]

-- In any interleaving of the steps of any number of threads, at most one thread has the device open,
-- and `dev_available` is 1 less the threads that have it open or are on their way to -EBUSY.
pub run-IsExclusive : (d : Device) (es : List Event) → IsExclusive d → IsExclusive (run d es)
unfolding run
run-IsExclusive d [] v = v
run-IsExclusive d (e ∷ es) v = run-IsExclusive (step d e) es (step-IsExclusive d e v)
