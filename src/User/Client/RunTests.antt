-- ===== src/User/Client/RunTests.antt =====
-- Runs of the load generator on a concrete input.
use syscall_throttling.Base.{ℕ, refl, true, false, some, List, [], ◌∷◌, arith}
use syscall_throttling.Base.Int.{ℤ, pos}
use syscall_throttling.Base.Lists.{length}
use syscall_throttling.Base.Text.{codes}
use syscall_throttling.Throttle.{turn_off, is_drained}
use syscall_throttling.Throttle.Events.{steps}
use syscall_throttling.Ioctl.Samples.{always, loaded-IsSound}
use syscall_throttling.User.Samples.{machine, machine-IsUsual, closed, getpid}
use syscall_throttling.User.Client.{teardown_throttle}
use syscall_throttling.User.Client.Sequence.{Finishes}
use syscall_throttling.User.Client.Deregistering.{OpensUsually, Drains}
use syscall_throttling.User.Client.Teardown.{IsTakenDown, teardown_throttle-Finishes}
use syscall_throttling.User.Client.Main.{Host, Plan}
use syscall_throttling.Ioctl.Removals.{Shrinks}

machine-OpensUsually : OpensUsually machine
machine-OpensUsually e h = cc

closed-Drains : Drains machine closed.loaded
unfolding turn_off is_drained steps
closed-Drains = refl

abbrev programs : List (List ℕ)
programs = codes "st_load_gen1" ∷ codes "st_load_gen2" ∷ []

teardown_throttle-Finishes_example :
    Finishes Shrinks machine closed
      (IsTakenDown machine programs (getpid ∷ []))
      (teardown_throttle machine programs (getpid ∷ []) closed)
teardown_throttle-Finishes_example =
    teardown_throttle-Finishes machine machine-IsUsual machine-OpensUsually programs (getpid ∷ [])
      closed ((omega arith, omega arith), ((omega arith, omega arith), tt)) loaded-IsSound
      closed-Drains

abbrev atoi : List ℕ → ℤ
atoi text = pos (length text)

-- Two threads a second for one second.
abbrev host : Host
host = record {
  atoi = atoi;
  syscall_copied = always;
  program_copied = always;
  allocated = true;
  start = 100;
  times = 100 ∷ 900 ∷ 1150 ∷ 1200 ∷ [];
  created = always;
  calls = [];
  results = λ i. pos i;
}

abbrev arguments : List (List ℕ)
arguments =
    codes "-t"
    ∷ codes "11"
    ∷ codes "-d"
    ∷ codes "1"
    ∷ codes "-p"
    ∷ codes "st_load_gen1,st_load_gen2"
    ∷ codes "-s"
    ∷ getpid
    ∷ codes "--teardown"
    ∷ []

abbrev plan : Plan
plan = record {
  chosen = record {
    threads = pos 2;
    duration = pos 1;
    kill_after = pos 0;
    syscall_list = some getpid;
    program_list = some (codes "st_load_gen1,st_load_gen2");
    do_setup = false;
    do_teardown = true;
  };
  syscalls = getpid ∷ [];
  programs = programs;
  nr = 0 ∷ [];
}
