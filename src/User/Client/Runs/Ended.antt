-- ===== src/User/Client/Runs/Ended.antt =====
-- How a run of the load generator comes to its end.
use syscall_throttling.Base.{ℕ, zero, suc, ◌≡◌, none, some}
use syscall_throttling.User.Client.Spawn
use syscall_throttling.User.Client.Main.{Ending, exits, stays, lost, runs}

-- The program has exited; with 0 it has spawned this many threads.
abbrev pub Exits : ℕ → Ending → Type 0
Exits n (exits zero w none) = ⊥
Exits n (exits zero w (some r)) = r.spawned ≡ n
Exits n (exits (suc code) w r) = Unit
Exits n stays = ⊥
Exits n lost = ⊥
Exits n (runs w) = ⊥
