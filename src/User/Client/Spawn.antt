-- ===== src/User/Client/Spawn.antt =====
-- user/client.c, `main`: the loop that spawns the threads of a run.
pub mod Complete
pub mod Bounded
use syscall_throttling.Base.{
  ℕ, zero, suc, ◌+◌, ◌*◌, ◌≡◌, refl, Bool, true, false, not, ◌&&◌, ◌||◌, List, [], ◌∷◌, ◌==◌, ltb,
  leb, if◌then◌else◌, if_cases, arith,
}
use syscall_throttling.Base.Int.{ℤ, pos, negsuc}

-- What the loop reads and never changes. `created` says for which slots `pthread_create` succeeds;
-- times are in milliseconds.
pub record Profile : Type 0 where
  pub threads : ℕ
  pub duration : ℕ
  pub kill_after : ℕ
  pub nslots : ℕ
  pub start : ℕ
  pub created : ℕ → Bool

-- What it changes.
pub record Progress : Type 0 where
  pub spawned : ℕ
  pub next_spawn : ℕ
  pub killed : Bool

pub data Turn : Type 0 where
  finished : Progress → Turn
  failed : ℕ → Turn
  going : Progress → Turn

abbrev pub first : Profile → Progress
first c = record { spawned = 0; next_spawn = c.start; killed = false }

module _ (c : Profile) where
  abbrev pub finish : ℕ
  finish = c.start + c.duration * 1000

  abbrev pub kill_at : ℤ
  kill_at = if ltb 0 c.kill_after then pos (c.start + c.kill_after * 1000) else negsuc 0

  -- `kill_at > 0 && now >= kill_at`
  abbrev pub is_due : ℤ → ℕ → Bool
  is_due (pos at_ms) now = ltb 0 at_ms && leb at_ms now
  is_due (negsuc n) now = false

  -- The inner loop, with at most `j` rounds left: whether every thread was created, and `spawned`.
  unfoldable pub spawn : ℕ → ℕ → Bool × ℕ
  spawn zero spawned = (true, spawned)
  spawn (suc j) spawned =
      let rest = spawn j (suc spawned) in
      if ltb spawned c.nslots
      then if c.created spawned then rest else (false, spawned)
      else (true, spawned)

  -- The signal to all threads.
  unfoldable pub kill_threads : ℕ → Progress → Progress
  kill_threads now p = if not p.killed && is_due kill_at now then record p { killed = true } else p

  -- What follows the inner loop.
  unfoldable pub after_spawn : ℕ → Progress → Bool × ℕ → Turn
  after_spawn now p (false, spawned) = failed spawned
  after_spawn now p (true, spawned) =
      going (kill_threads now (record p { spawned = spawned; next_spawn = p.next_spawn + 1000 }))

  -- One round of `while (1)`, at the time `now`.
  unfoldable pub turn : ℕ → Progress → Turn
  turn now p =
      if leb finish now && (c.kill_after == 0 || p.killed)
      then finished p
      else if ltb now finish && leb p.next_spawn now
      then after_spawn now p (spawn c.threads p.spawned)
      else going (kill_threads now p)

  -- The loop, for the times that `now_ms` gives it.
  unfoldable pub run : List ℕ → Turn → Turn
  run [] t = t
  run (now ∷ times) (going p) = run times (turn now p)
  run (now ∷ times) (finished p) = finished p
  run (now ∷ times) (failed spawned) = failed spawned

  pub kill_threads_lem :
      (now : ℕ) (p : Progress)
      → ((kill_threads now p).spawned ≡ p.spawned)
        × ((kill_threads now p).next_spawn ≡ p.next_spawn)
  unfolding kill_threads
  kill_threads_lem now p =
      if_cases (λ (q : Progress). (q.spawned ≡ p.spawned) × (q.next_spawn ≡ p.next_spawn))
        (not p.killed && is_due kill_at now) (λ _. (refl, refl)) (λ _. (refl, refl))
