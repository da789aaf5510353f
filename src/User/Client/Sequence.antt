-- ===== src/User/Client/Sequence.antt =====
-- Sequences of steps of the client, each of which is checked before the next one.
use syscall_throttling.Base.{
  ℕ, ◌≡◌, refl, ◌⊎◌, inl, inr, Bool, true, false, not, ◌&&◌, ◌||◌, none, some, List, [], ◌∷◌,
  if_cases, arith,
}
use syscall_throttling.Base.Int.{is_zero}
use syscall_throttling.Base.Code.{success, failure}
use syscall_throttling.Base.Lists.{All}
use syscall_throttling.Ioctl.{Module}
use syscall_throttling.Ioctl.Safety.{IsSound}
use syscall_throttling.Ioctl.Effects.{IsOrder}
use syscall_throttling.User.{Machine, World, Result}
use syscall_throttling.User.Effects.{Does}
use syscall_throttling.User.Client.{check, check_each}

-- A sequence of steps has come to an end with the module sound and changed only as `R` says: it
-- returned 0 and `Goal` holds, or it returned -1.
abbrev pub Finishes :
    (R : Module → Module → Type 0) → Machine → World → (Module → Type 0) → Result → Type 0
Finishes R c w Goal none = ⊥
Finishes R c w Goal (some (code, w')) =
    IsSound c.kernel w'.loaded
    × R w.loaded w'.loaded
    × (((code ≡ success) × Goal w'.loaded) ⊎ (code ≡ failure))

-- What holds stays while the module changes as `R` says.
abbrev Stays : (R : Module → Module → Type 0) → (Module → Type 0) → Type 0
Stays R G = (m m' : Module) → R m m' → G m → G m'

pub all_unit : (names : List (List ℕ)) → All (λ _. Unit {0}) names
all_unit [] = tt
all_unit (name ∷ names) = (tt, all_unit names)

goes_on : (a b : Bool) → (not a && not b) ≡ false → (a || b) ≡ true
goes_on a b e = ground (arith, e)

module _ (R : Module → Module → Type 0) (order : IsOrder R) (c : Machine) where
  after-Finishes :
      (w w1 : World) (G P : Module → Type 0) (r : Result)
      → Stays R G
      → R w.loaded w1.loaded
      → G w1.loaded
      → Finishes R c w1 P r
      → Finishes R c w (λ m. G m × P m) r
  after-Finishes w w1 G P none stays grows here impossible = impossible
  after-Finishes w w1 G P (some (code, w2)) stays grows here (sound, more, goal) = (
    sound,
    order.then w.loaded w1.loaded w2.loaded grows more,
    elim goal [ inl (e, p) ↦ inl (e, (stays w1.loaded w2.loaded more here, p)) | inr e ↦ inr e ],
  )

  pub check-Finishes :
      (passes : ℕ → Bool) (w : World) (G P : Module → Type 0) (r : Result) (next : World → Result)
      → Stays R G
      → Does R c passes w G r
      → ((w1 : World) → IsSound c.kernel w1.loaded → Finishes R c w1 P (next w1))
      → Finishes R c w (λ m. G m × P m) (check passes r next)
  unfolding check
  check-Finishes passes w G P none next stays impossible rest = impossible
  check-Finishes passes w G P (some (code, w1)) next stays (sound, grows, goal) rest =
      if_cases (Finishes R c w (λ m. G m × P m)) (not (is_zero code) && not (passes w1.errno))
        (λ _. (sound, grows, inr refl))
        (λ passed.
          after-Finishes w w1 G P (next w1) stays grows (goal (goes_on _ _ passed)) (rest w1 sound))

  pub Finishes-map :
      (w : World) (P Q : Module → Type 0) (r : Result)
      → ((m : Module) → P m → Q m)
      → Finishes R c w P r
      → Finishes R c w Q r
  Finishes-map w P Q none f impossible = impossible
  Finishes-map w P Q (some (code, w1)) f (sound, grows, inl (e, p)) = (sound, grows, inl (e, f _ p))
  Finishes-map w P Q (some (code, w1)) f (sound, grows, inr e) = (sound, grows, inr e)

  pub check_each-Finishes :
      (passes : ℕ → Bool) (f : List ℕ → World → Result) (G : List ℕ → Module → Type 0)
      (P : Module → Type 0) (Valid : List ℕ → Type 0) (names : List (List ℕ))
      (next : World → Result) (w : World)
      → ((name : List ℕ) → Stays R (G name))
      → ((name : List ℕ) (w1 : World)
          → Valid name
          → IsSound c.kernel w1.loaded
          → Does R c passes w1 (G name) (f name w1))
      → All Valid names
      → ((w1 : World) → IsSound c.kernel w1.loaded → Finishes R c w1 P (next w1))
      → IsSound c.kernel w.loaded
      → Finishes R c w (λ m. All (λ name. G name m) names × P m) (check_each passes f names next w)
  unfolding check_each
  check_each-Finishes passes f G P Valid [] next w stays step valid rest sound =
      Finishes-map w P (λ m. Unit × P m) (next w) (λ m p. (tt, p)) (rest w sound)
  check_each-Finishes passes f G P Valid (name ∷ names) next w stays step (here, valid) rest sound =
      Finishes-map w (λ m. G name m × (All (λ n. G n m) names × P m))
        (λ m. (G name m × All (λ n. G n m) names) × P m)
        (check passes (f name w) (check_each passes f names next))
        (λ m (first, (others, p)). ((first, others), p))
        (check-Finishes passes w (G name) (λ m. All (λ n. G n m) names × P m) (f name w)
          (check_each passes f names next) (stays name) (step name w here sound)
          (λ w1 v. check_each-Finishes passes f G P Valid names next w1 stays step valid rest v))
