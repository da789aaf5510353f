-- ===== src/User/Client/Tally/Sums.antt =====
-- The sums of the load generator against the number of threads.
use syscall_throttling.Base.{
  ℕ, zero, suc, ◌+◌, ◌%◌, ◌≤◌, ◌<◌, ◌≡◌, ◌≢◌, refl, ap, subst, sym, ◌∙◌, inl, inr, List, [], ◌∷◌,
  ◌==◌, if◌then◌else◌, if_cases, Bool-cases, ==_iff, arith,
}
use syscall_throttling.Base.Int.{ℤ}
use syscall_throttling.Base.Lists.{All, length}
use syscall_throttling.Throttle.{to_int, of_int}
use syscall_throttling.User.Client.Tally.{
  Slot, slot, slots, is_eagain, worker_job, work, totals, per_syscall,
}

-- f 0 + ... + f (n - 1)
unfoldable pub sum : ℕ → (ℕ → ℕ) → ℕ
sum zero f = 0
sum (suc n) f = sum n f + f n

abbrev pub both : ℕ × ℕ → ℕ
both (ok, eagain) = ok + eagain

worker_job-counts :
    (r : ℤ) (s : Slot)
    → ((worker_job r s).ok + (worker_job r s).eagain ≡ suc (s.ok + s.eagain))
      × ((worker_job r s).syscall_nr ≡ s.syscall_nr)
unfolding worker_job
worker_job-counts r s =
    if_cases
      (λ (t : Slot). (t.ok + t.eagain ≡ suc (s.ok + s.eagain)) × (t.syscall_nr ≡ s.syscall_nr))
      (is_eagain (to_int (of_int r))) (λ _. (omega arith, refl)) (λ _. (omega arith, refl))

-- Sums over the indices.
sum-add : (n : ℕ) (f g : ℕ → ℕ) → sum n (λ i. f i + g i) ≡ sum n f + sum n g
unfolding sum
sum-add zero f g = refl
sum-add (suc n) f g = omega (arith, sum-add n f g)

sum-ext : (n : ℕ) (f g : ℕ → ℕ) → ((i : ℕ) → i < n → f i ≡ g i) → sum n f ≡ sum n g
unfolding sum
sum-ext zero f g same = refl
sum-ext (suc n) f g same =
    omega (arith, sum-ext n f g (λ i small. same i (omega arith)), same n (omega arith))

sum_none : (n : ℕ) (f : ℕ → ℕ) → ((i : ℕ) → i < n → f i ≡ 0) → sum n f ≡ 0
unfolding sum
sum_none zero f none_counts = refl
sum_none (suc n) f none_counts =
    omega
      (arith, sum_none n f (λ i small. none_counts i (omega arith)), none_counts n (omega arith))

-- The numbers are different.
abbrev pub AreDistinct : ℕ → (ℕ → ℕ) → Type 0
AreDistinct n nr = (i j : ℕ) → i < n → j < n → nr i ≡ nr j → i ≡ j

hit : (a b x : ℕ) → a ≡ b → (if a == b then x else 0) ≡ x
hit a b x same = ground (arith, same)

miss : (a b x : ℕ) → a ≢ b → (if a == b then x else 0) ≡ 0
miss a b x other = ground (arith, other)

-- Of different numbers one is hit.
sum_hit :
    (n : ℕ) (nr : ℕ → ℕ) (j x : ℕ)
    → AreDistinct n nr
    → j < n
    → sum n (λ i. if nr j == nr i then x else 0) ≡ x
unfolding sum
sum_hit zero nr j x distinct small = absurd (omega arith)
sum_hit (suc n) nr j x distinct small =
    let f : ℕ → ℕ = λ i. if nr j == nr i then x else 0 in
    let counts : ℕ → Type 0 = λ total. total ≡ x in
    elim (Bool-cases (j == n)) [
      | inl last ↦
          let e : j ≡ n = (==_iff j n).0 last in
          let none_before : sum n f ≡ 0 = sum_none n f (λ i below.
            miss (nr j) (nr i) x
              (λ same. omega (arith, e, distinct j i small (omega arith) same))) in
          omega (arith, none_before, hit (nr j) (nr n) x (ap nr e))
      | inr before ↦
          let other : j ≢ n = λ e. absurd (ground (arith, before, e)) in
          let here : sum n f ≡ x =
            sum_hit n nr j x (λ i k a b. distinct i k (omega arith) (omega arith)) (omega arith) in
          omega (
            arith,
            here,
            miss (nr j) (nr n) x (λ same. other (distinct j n small (omega arith) same)),
          )
    ]

-- Every slot has one of the numbers.
abbrev pub AreOf : ℕ → (ℕ → ℕ) → List Slot → Type 0
AreOf n nr = All (λ s. (j : ℕ) × (j < n) × (s.syscall_nr ≡ nr j))

per_syscall-cons :
    (nr : ℕ) (s : Slot) (rest : List Slot)
    → both (per_syscall nr (s ∷ rest))
      ≡ (if s.syscall_nr == nr then s.ok + s.eagain else 0) + both (per_syscall nr rest)
unfolding per_syscall
per_syscall-cons nr s rest = elim (Bool-cases (s.syscall_nr == nr)) [
  | inl of ↦ rw of (omega arith)
  | inr other ↦ rw other (omega arith)
]

sum-per_syscall :
    (n : ℕ) (nr : ℕ → ℕ) (all : List Slot)
    → AreDistinct n nr
    → AreOf n nr all
    → sum n (λ i. both (per_syscall (nr i) all)) ≡ both (totals all)
unfolding totals per_syscall
sum-per_syscall n nr [] distinct of = sum_none n _ (λ i below. refl)
sum-per_syscall n nr (s ∷ rest) distinct ((j, small, e), of) =
    let x : ℕ = s.ok + s.eagain in
    let here : sum n (λ i. if s.syscall_nr == nr i then x else 0) ≡ x =
      subst (λ a. sum n (λ i. if a == nr i then x else 0) ≡ x) (sym e)
        (sum_hit n nr j x distinct small) in
    let there = sum-per_syscall n nr rest distinct of in
    sum-ext n _ _ (λ i below. per_syscall-cons (nr i) s rest)
    ∙ sum-add n (λ i. if s.syscall_nr == nr i then x else 0) (λ i. both (per_syscall (nr i) rest))
    ∙ omega (arith, here, there)

module _ (nr : ℕ → ℕ) (nsys : ℕ) (programs : ℕ → List ℕ) (nprog : ℕ) where
  work-AreOf :
      (results : List ℤ) (i n : ℕ)
      → 0 < nsys
      → AreOf nsys nr (work results (slots nr nsys programs nprog i n))
  unfolding work slots
  work-AreOf [] i n some_nr = tt
  work-AreOf (r ∷ results) i zero some_nr = tt
  work-AreOf (r ∷ results) i (suc n) some_nr =
      ((i % nsys, omega arith, (worker_job-counts r _).1), work-AreOf results (suc i) n some_nr)

  pub work-totals :
      (results : List ℤ) (i n : ℕ)
      → length results ≤ n
      → both (totals (work results (slots nr nsys programs nprog i n))) ≡ length results
  unfolding work slots totals
  work-totals [] i n fits = refl
  work-totals (r ∷ results) i zero fits = absurd (omega arith)
  work-totals (r ∷ results) i (suc n) fits = omega (
    arith,
    (worker_job-counts r (slot nr nsys programs nprog i)).0,
    work-totals results (suc i) n (omega arith),
  )

  -- The sums that are printed: when as many threads have run as `results` says, each with a slot,
  -- the calls counted as OK and as EAGAIN are together as many as the threads, and so are the counts
  -- by system call, added up over the system calls. The system calls are different, and there is one.
  pub tallies-add :
      (results : List ℤ) (nslots : ℕ)
      → 0 < nsys
      → AreDistinct nsys nr
      → length results ≤ nslots
      → let done = work results (slots nr nsys programs nprog 0 nslots) in
        (both (totals done) ≡ length results)
        × (sum nsys (λ i. both (per_syscall (nr i) done)) ≡ length results)
  tallies-add results nslots some_nr distinct fits =
      let all = work-totals results 0 nslots fits in
      let done : List Slot = work results (slots nr nsys programs nprog 0 nslots) in
      (all, sum-per_syscall nsys nr done distinct (work-AreOf results 0 nslots some_nr) ∙ all)
