-- ===== src/User/Client/Spawn/Bounded.antt =====
-- The loop of user/client.c that spawns threads, and the slots.
use syscall_throttling.Base.{
  ℕ, zero, suc, ◌+◌, ◌≤◌, Bool, true, false, ◌&&◌, ◌||◌, List, [], ◌∷◌, ◌==◌, ltb, leb, if_cases,
  arith,
}
use syscall_throttling.User.Client.Spawn.{
  Profile, Progress, Turn, finished, failed, going, finish, spawn, after_spawn, turn, run,
  kill_threads_lem,
}

module _ (c : Profile) where
  -- Not more threads than slots.
  abbrev pub IsBounded : Turn → Type 0
  IsBounded (going p) = p.spawned ≤ c.nslots
  IsBounded (finished p) = p.spawned ≤ c.nslots
  IsBounded (failed spawned) = spawned ≤ c.nslots

  spawn_bounded : (j spawned : ℕ) → spawned ≤ c.nslots → (spawn c j spawned).1 ≤ c.nslots
  unfolding spawn
  spawn_bounded zero spawned fits = fits
  spawn_bounded (suc j) spawned fits =
      let result : Bool × ℕ → Type 0 = λ r. r.1 ≤ c.nslots in
      if_cases result (ltb spawned c.nslots)
        (λ room.
          if_cases result (c.created spawned)
            (λ _. spawn_bounded j (suc spawned) (ground (arith, room))) (λ _. fits))
        (λ _. fits)

  after_spawn-IsBounded :
      (now : ℕ) (p : Progress) (r : Bool × ℕ) → r.1 ≤ c.nslots → IsBounded (after_spawn c now p r)
  unfolding after_spawn
  after_spawn-IsBounded now p (false, spawned) fits = fits
  after_spawn-IsBounded now p (true, spawned) fits =
      let next : Progress = record p { spawned = spawned; next_spawn = p.next_spawn + 1000 } in
      omega (arith, (kill_threads_lem c now next).0, fits)

  turn-IsBounded : (now : ℕ) (p : Progress) → p.spawned ≤ c.nslots → IsBounded (turn c now p)
  unfolding turn
  turn-IsBounded now p fits =
      if_cases IsBounded (leb (finish c) now && (c.kill_after == 0 || p.killed)) (λ _. fits)
        (λ _.
          if_cases IsBounded (ltb now (finish c) && leb p.next_spawn now)
            (λ _. after_spawn-IsBounded now p _ (spawn_bounded c.threads p.spawned fits))
            (λ _. omega (arith, (kill_threads_lem c now p).0, fits)))

  -- Whatever the clock reads and whichever threads cannot be created.
  pub run-IsBounded : (times : List ℕ) (t : Turn) → IsBounded t → IsBounded (run c times t)
  unfolding run
  run-IsBounded [] t fits = fits
  run-IsBounded (now ∷ times) (going p) fits =
      run-IsBounded times (turn c now p) (turn-IsBounded now p fits)
  run-IsBounded (now ∷ times) (finished p) fits = fits
  run-IsBounded (now ∷ times) (failed spawned) fits = fits
