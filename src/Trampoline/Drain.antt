-- ===== src/Trampoline/Drain.antt =====
-- `sysThrot_stub_counter`: the threads in the trampoline, and the wait of `sysThrot_cleanup` for them.
use syscall_throttling.Base.{
  ℕ, zero, suc, ◌^◌, ◌<◌, ◌≡◌, refl, Bool, true, false, Option, none, some, List, [], ◌∷◌,
  if◌then◌else◌, ltb, lt→ltb, arith,
}
use syscall_throttling.Base.Int.{ℤ, pos, negsuc}
use syscall_throttling.Throttle.{inc32, dec32, to_int}

-- What a thread does to the counter: `lock incl` when it enters, `lock decl` when it leaves.
pub data Passage : Type 0 where
  enters leaves : Passage

unfoldable pub count : ℕ → List Passage → ℕ
count counter [] = counter
count counter (enters ∷ rest) = count (inc32 counter) rest
count counter (leaves ∷ rest) = count (dec32 counter) rest

-- `left > 0`
abbrev pub is_positive : ℤ → Bool
is_positive (pos zero) = false
is_positive (pos (suc n)) = true
is_positive (negsuc n) = false

-- The loop of `sysThrot_cleanup`: the threads go on for a while, then the counter is read. It gives how
-- often it has slept, and the counter; `none` while the loop still goes round.
unfoldable pub wait_stubs : ℕ → List (List Passage) → ℕ → Option (ℕ × ℕ)
wait_stubs sleeps [] counter = none
wait_stubs sleeps (meanwhile ∷ later) counter =
    let left = count counter meanwhile in
    let rest = wait_stubs (suc sleeps) later left in
    if is_positive (to_int left) then rest else some (sleeps, left)

-- From `n` threads inside, these passages lead to `m`; there are never 2^31 of them.
abbrev pub Passes : ℕ → List Passage → ℕ → Type 0
Passes n [] m = n ≡ m
Passes n (enters ∷ rest) m = (suc n < 2 ^ 31) × Passes (suc n) rest m
Passes zero (leaves ∷ rest) m = ⊥
Passes (suc n) (leaves ∷ rest) m = Passes n rest m

-- And how many are inside after each round.
abbrev pub ArePassed : ℕ → List (List Passage) → List ℕ → Type 0
ArePassed n [] [] = Unit
ArePassed n [] (m ∷ ms) = ⊥
ArePassed n (round ∷ rounds) [] = ⊥
ArePassed n (round ∷ rounds) (m ∷ ms) = Passes n round m × ArePassed m rounds ms

-- How many rounds come before the first after which no thread is inside.
unfoldable pub first_empty : ℕ → List ℕ → Option (ℕ × ℕ)
first_empty i [] = none
first_empty i (zero ∷ ms) = some (i, 0)
first_empty i (suc m ∷ ms) = first_empty (suc i) ms

count-Passes :
    (n m : ℕ) (rest : List Passage)
    → n < 2 ^ 31
    → Passes n rest m
    → (count n rest ≡ m) × (m < 2 ^ 31)
unfolding count
count-Passes n m [] fits same = (same, omega (arith, same, fits))
count-Passes n m (enters ∷ rest) fits (more, passes) =
    let e : inc32 n ≡ suc n = omega arith in rw e (count-Passes (suc n) m rest more passes)
count-Passes zero m (leaves ∷ rest) fits impossible = absurd impossible
count-Passes (suc n) m (leaves ∷ rest) fits passes =
    let e : dec32 (suc n) ≡ n = omega arith in rw e (count-Passes n m rest (omega arith) passes)

positive-to_int : (m : ℕ) → suc m < 2 ^ 31 → is_positive (to_int (suc m)) ≡ true
positive-to_int m fits =
    let small : ltb (suc m) (2 ^ 31) ≡ true = lt→ltb (suc m) (2 ^ 31) fits in rw small refl

-- The wait of `sysThrot_cleanup` ends exactly at the first reading at which no thread is in the
-- trampoline, having slept once for each reading before it, and goes round as long as there is none:
-- whatever the threads do between the readings, as long as fewer than 2^31 are inside at a time, from
-- a counter that is the number of those inside.
pub wait_stubs-empties :
    (rounds : List (List Passage)) (inside : List ℕ) (n sleeps : ℕ)
    → n < 2 ^ 31
    → ArePassed n rounds inside
    → wait_stubs sleeps rounds n ≡ first_empty sleeps inside
unfolding wait_stubs first_empty
wait_stubs-empties [] [] n sleeps fits passed = refl
wait_stubs-empties [] (m ∷ ms) n sleeps fits impossible = absurd impossible
wait_stubs-empties (round ∷ rounds) [] n sleeps fits impossible = absurd impossible
wait_stubs-empties (round ∷ rounds) (zero ∷ ms) n sleeps fits (passes, later) =
    rw (count-Passes n 0 round fits passes).0 refl
wait_stubs-empties (round ∷ rounds) (suc m ∷ ms) n sleeps fits (passes, later) =
    let (left, small) = count-Passes n (suc m) round fits passes in
    rw (left, positive-to_int m small)
      (wait_stubs-empties rounds ms (suc m) (suc sleeps) small later)
