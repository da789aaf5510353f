-- ===== src/User/Client/Spawn/Complete.antt =====
-- The end of the loop of user/client.c that spawns threads.
use syscall_throttling.Base.{
  ℕ, zero, suc, ◌+◌, ◌*◌, ◌≤◌, ◌<◌, ◌≡◌, refl, ap, sym, ◌∙◌, subst, ◌⊎◌, inl, inr, Bool, true,
  false, ◌&&◌, ◌||◌, List, [], ◌∷◌, ◌++◌, ◌==◌, ltb, leb, if◌then◌else◌, if_cases, Bool-cases,
  lt→ltb, arith,
}
use native.Mathlib.Nat.{mul-le-mul_left}
use syscall_throttling.User.Client.Spawn.{
  Profile, Progress, Turn, finished, failed, going, first, finish, spawn, kill_threads, after_spawn,
  turn, run, kill_threads_lem,
}

module _ (c : Profile) where
  -- The clock is read at least once a second: each time is below the bound that the one before gives.
  abbrev pub IsSteady : ℕ → List ℕ → Type 0
  IsSteady bound [] = Unit
  IsSteady bound (now ∷ times) = (now < bound) × IsSteady (now + 1001) times

  -- `k` batches have been spawned, and the next time comes before the one after the next batch, or
  -- there is no next batch.
  pub record IsOnTime (bound : ℕ) (p : Progress) : Type 0 where
    pub k : ℕ
    pub next_spawn : p.next_spawn ≡ c.start + k * 1000
    pub spawned : p.spawned ≡ c.threads * k
    pub within : k ≤ c.duration
    pub on_time : (bound ≤ p.next_spawn + 1000) ⊎ (k ≡ c.duration)

  kill_threads-IsOnTime :
      (now bound : ℕ) (p : Progress) → IsOnTime bound p → IsOnTime bound (kill_threads c now p)
  kill_threads-IsOnTime now bound p v =
      let (spawned, next_spawn) = kill_threads_lem c now p in
      record {
        k = v.k;
        next_spawn = next_spawn ∙ v.next_spawn;
        spawned = spawned ∙ v.spawned;
        within = v.within;
        on_time = elim v.on_time [ inl early ↦ inl (omega arith) | inr all ↦ inr all ];
      }

  -- A batch that could be spawned is not the last one.
  due-next :
      (now bound : ℕ) (p : Progress) (v : IsOnTime bound p)
      → (ltb now (finish c) && leb p.next_spawn now) ≡ true
      → v.k < c.duration
  due-next now bound p v due = ground (arith, due, v.next_spawn, v.within)

  -- When none is to be spawned, the next one is to come, or there is none.
  idle-next :
      (now bound : ℕ) (p : Progress) (v : IsOnTime bound p)
      → now < bound
      → (ltb now (finish c) && leb p.next_spawn now) ≡ false
      → (now + 1001 ≤ p.next_spawn + 1000) ⊎ (v.k ≡ c.duration)
  idle-next now bound p v small idle = elim v.on_time [
    | inr all ↦ inr all
    | inl early ↦ elim (Bool-cases (leb p.next_spawn now)) [
      | inr later ↦ inl (ground (arith, later))
      | inl passed ↦ inr (ground (arith, idle, passed, v.next_spawn, v.within, early))
    ]
  ]

  over-all :
      (now bound : ℕ) (p : Progress) (v : IsOnTime bound p) (b : Bool)
      → now < bound
      → (leb (finish c) now && b) ≡ true
      → v.k ≡ c.duration
  over-all now bound p v b small over = elim v.on_time [
    | inr all ↦ all
    | inl early ↦ ground (arith, over, v.next_spawn, v.within, early)
  ]

  -- The run is over, and the signal is due if there is one.
  abbrev pub IsLate : ℕ → Type 0
  IsLate now = ((finish c) ≤ now) × (c.start + c.kill_after * 1000 ≤ now)

  turn-late :
      (now : ℕ) (p : Progress)
      → IsLate now
      → turn c now p
        ≡ (if c.kill_after == 0 || p.killed then finished p else going (kill_threads c now p))
  unfolding turn
  turn-late now p (over, due) =
      let passed : leb (finish c) now ≡ true = ground arith in
      let not_before : ltb now (finish c) ≡ false = ground arith in rw (passed, not_before) refl

  kill_threads-late :
      (now : ℕ) (p : Progress)
      → IsLate now
      → (c.kill_after == 0 || p.killed) ≡ false
      → (kill_threads c now p).killed ≡ true
  unfolding kill_threads
  kill_threads-late now p (over, due) wanted = ground (arith, wanted)

  or_true : (a b : Bool) → b ≡ true → (a || b) ≡ true
  or_true a b e = ground (arith, e)

  -- The loop ends at the second time at the latest.
  late-ends :
      (now1 now2 : ℕ) (p : Progress)
      → IsLate now1
      → IsLate now2
      → (q : Progress) × (run c (now1 ∷ now2 ∷ []) (going p) ≡ finished q)
  unfolding run
  late-ends now1 now2 p late1 late2 =
      let p1 : Progress = kill_threads c now1 p in
      let next : Turn → Turn = λ t. run c (now2 ∷ []) t in
      elim (Bool-cases (c.kill_after == 0 || p.killed)) [
        | inl ends ↦
            let e : turn c now1 p ≡ finished p = turn-late now1 p late1 ∙ rw ends refl in
            (p, ap next e)
        | inr wanted ↦
            let e : turn c now1 p ≡ going p1 = turn-late now1 p late1 ∙ rw wanted refl in
            let killed = kill_threads-late now1 p late1 wanted in
            let last : turn c now2 p1 ≡ finished p1 =
              turn-late now2 p1 late2 ∙ rw (or_true (c.kill_after == 0) p1.killed killed) refl in
            (p1, ap next e ∙ last)
      ]

  module _ (all_created : (i : ℕ) → c.created i ≡ true) where
    spawn-all : (j spawned : ℕ) → spawned + j ≤ c.nslots → spawn c j spawned ≡ (true, spawned + j)
    unfolding spawn
    spawn-all zero spawned fits = ap (λ n. (true, n)) (omega arith)
    spawn-all (suc j) spawned fits =
        let room : ltb spawned c.nslots ≡ true = lt→ltb spawned c.nslots (omega arith) in
        rw (room, all_created spawned)
          (spawn-all j (suc spawned) (omega arith) ∙ ap (λ n. (true, n)) (omega arith))

    batch_fits : (k : ℕ) → k < c.duration → c.threads * k + c.threads ≤ c.threads * c.duration
    batch_fits k small = omega (arith, mul-le-mul_left {m = suc k} c.threads small)

    -- What a round leaves: the loop goes on in time, or it has ended with every batch spawned.
    abbrev pub IsTurn : ℕ → Turn → Type 0
    IsTurn bound (going p) = IsOnTime bound p
    IsTurn bound (finished p) = p.spawned ≡ c.threads * c.duration
    IsTurn bound (failed n) = ⊥

    turn-IsTurn :
        (now bound : ℕ) (p : Progress)
        → c.nslots ≡ c.threads * c.duration
        → now < bound
        → IsOnTime bound p
        → IsTurn (now + 1001) (turn c now p)
    unfolding turn after_spawn
    turn-IsTurn now bound p slots small v =
        if_cases (IsTurn (now + 1001)) (leb (finish c) now && (c.kill_after == 0 || p.killed))
          (λ over. v.spawned ∙ ap (λ k. c.threads * k) (over-all now bound p v _ small over))
          (λ on.
            if_cases (IsTurn (now + 1001)) (ltb now (finish c) && leb p.next_spawn now)
              (λ due.
                let next = due-next now bound p v due in
                rw (spawn-all c.threads p.spawned (omega (arith, batch_fits v.k next, v.spawned))) (
                  kill_threads-IsOnTime now (now + 1001) _ (record {
                    k = suc v.k;
                    next_spawn = omega (arith, v.next_spawn);
                    spawned = omega (arith, v.spawned);
                    within = next;
                    on_time = elim v.on_time [
                      | inr all ↦ absurd (omega (arith, next, all))
                      | inl early ↦ inl (omega arith)
                    ];
                  })))
              (λ idle. kill_threads-IsOnTime now (now + 1001) p (record {
                k = v.k;
                next_spawn = v.next_spawn;
                spawned = v.spawned;
                within = v.within;
                on_time = idle-next now bound p v small idle;
              })))

    second :
        (now bound : ℕ) (t : Turn)
        → c.nslots ≡ c.threads * c.duration
        → now < bound
        → IsTurn bound t
        → IsTurn (now + 1001) (run c (now ∷ []) t)
    unfolding run
    second now bound (going p) slots small v = turn-IsTurn now bound p slots small v
    second now bound (finished p) slots small all = all
    second now bound (failed n) slots small impossible = impossible

    -- The loop from any turn, with two late times at the end.
    run-spawns :
        (times : List ℕ) (bound now1 now2 : ℕ) (t : Turn)
        → c.nslots ≡ c.threads * c.duration
        → IsSteady bound (times ++ (now1 ∷ now2 ∷ []))
        → IsLate now1
        → IsLate now2
        → IsTurn bound t
        → (q : Progress) × (run c (times ++ (now1 ∷ now2 ∷ [])) t ≡ finished q)
          × (q.spawned ≡ c.threads * c.duration)
    unfolding run
    run-spawns times bound now1 now2 (failed n) slots steady late1 late2 impossible =
        absurd impossible
    run-spawns [] bound now1 now2 (finished p) slots steady late1 late2 all = (p, refl, all)
    run-spawns (now ∷ times) bound now1 now2 (finished p) slots steady late1 late2 all =
        (p, refl, all)
    run-spawns [] bound now1 now2 (going p) slots (small1, (small2, _)) late1 late2 v =
        let (q, ends) = late-ends now1 now2 p late1 late2 in
        let last : IsTurn (now2 + 1001) (run c (now1 ∷ now2 ∷ []) (going p)) =
          second now2 (now1 + 1001) (turn c now1 p) slots small2
            (turn-IsTurn now1 bound p slots small1 v) in
        (q, ends, subst (IsTurn (now2 + 1001)) ends last)
    run-spawns (now ∷ times) bound now1 now2 (going p) slots (small, steady) late1 late2 v =
        run-spawns times (now + 1001) now1 now2 (turn c now p) slots steady late1 late2
          (turn-IsTurn now bound p slots small v)

    -- The loop ends, with all `threads * duration` threads spawned and no slot beyond: the clock is
    -- read at least once a second from the start on, every `pthread_create` succeeds, and at two of
    -- the times the run is over and the signal, if there is one, is due.
    pub run_complete :
        (times : List ℕ) (now1 now2 : ℕ)
        → c.nslots ≡ c.threads * c.duration
        → IsSteady (c.start + 1000) (times ++ (now1 ∷ now2 ∷ []))
        → IsLate now1
        → IsLate now2
        → (q : Progress) × (run c (times ++ (now1 ∷ now2 ∷ [])) (going (first c)) ≡ finished q)
          × (q.spawned ≡ c.nslots)
    run_complete times now1 now2 slots steady late1 late2 =
        let begun : IsOnTime (c.start + 1000) (first c) = record {
          k = 0;
          next_spawn = omega arith;
          spawned = omega arith;
          within = omega arith;
          on_time = inl (omega arith);
        } in
        let (q, ends, all) =
          run-spawns times (c.start + 1000) now1 now2 (going (first c)) slots steady late1 late2
            begun in
        (q, ends, all ∙ sym slots)
