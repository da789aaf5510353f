-- ===== src/User/Client/Runs.antt =====
-- What a run of the load generator has done when it exits.
pub mod Ended
use syscall_throttling.Base.{zero, suc, ◌+◌, ◌≡◌, true, false, none, some}
use syscall_throttling.Base.Code.{success}
use syscall_throttling.Base.Lists.{All}
use syscall_throttling.Ioctl.{Module}
use syscall_throttling.Ioctl.Safety.{IsSound}
use syscall_throttling.User.{Machine, World, Result}
use syscall_throttling.User.Client.Registering.{IsUsual, IsName}
use syscall_throttling.User.Client.Deregistering.{OpensUsually}
use syscall_throttling.User.Client.Setup.{IsSetUp}
use syscall_throttling.User.Client.Teardown.{IsTakenDown}
use syscall_throttling.User.Client.Spawn
use syscall_throttling.User.Client.Main.{
  Host, Plan, Report, Ending, exits, stays, lost, runs, set_up,
}

-- What the exit code 0 stands for, with the options of the plan.
pub record IsDone (c : Machine) (p : Plan) (m : Module) (r : Report) : Type 0 where
  pub taken_down : p.chosen.do_teardown ≡ true → IsTakenDown c p.programs p.syscalls m
  pub set_up :
      p.chosen.do_setup ≡ true → p.chosen.do_teardown ≡ false → IsSetUp c p.programs p.syscalls m
  pub counted : r.ok + r.eagain ≡ r.spawned

-- The program does not stay in the kernel. When it exits the module is sound, and with the code 0 it
-- has done what it was asked to.
abbrev pub EndsWell : Machine → Plan → Ending → Type 0
EndsWell c p (exits zero w none) = ⊥
EndsWell c p (exits zero w (some r)) = IsSound c.kernel w.loaded × IsDone c p w.loaded r
EndsWell c p (exits (suc n) w r) = IsSound c.kernel w.loaded
EndsWell c p stays = ⊥
EndsWell c p lost = ⊥
EndsWell c p (runs w) = IsSound c.kernel w.loaded

-- The state that the threads begin with.
abbrev pub reached : World → Result → World
reached w none = w
reached w (some (code, w1)) = w1

module _ (h : Host) (c : Machine) (p : Plan) where
  module _ (usual : IsUsual c) (opens : OpensUsually c) (names : All IsName p.programs) where
    -- What setting up leaves for the threads.
    abbrev IsBegun : World → Result → Type 0
    IsBegun w none = ⊥
    IsBegun w (some (code, w1)) =
        IsSound c.kernel w1.loaded
        × (code ≡ success → p.chosen.do_setup ≡ true → IsSetUp c p.programs p.syscalls w1.loaded)
