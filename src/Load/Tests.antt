-- ===== src/Load/Tests.antt =====
-- Loading and unloading on concrete inputs.
use syscall_throttling.Base.{
  ℕ, ◌<◌, ◌≡◌, refl, true, false, none, some, List, [], ◌∷◌, ◌==◌, if_cases, arith,
}
use syscall_throttling.Base.Int.{pos}
use syscall_throttling.Base.Heap.{fresh_heap}
use syscall_throttling.Base.Code.{success}
use syscall_throttling.Store.{null, live, init_sys_throt_store}
use syscall_throttling.Store.Start.{IsFreshStart, empty_store}
use syscall_throttling.Throttle.{turn_off, stub_resume}
use syscall_throttling.Throttle.Accounting.{came, gone}
use syscall_throttling.Throttle.Events.{Event, resume, act, step}
use syscall_throttling.Probe.{
  Probes, install_probe, find_address, install_found, apply_smp_patch, finish,
}
use syscall_throttling.Probe.Invariant.{IsPatched}
use syscall_throttling.Probe.Runs.{install, run, serve, run-IsPatched}
use syscall_throttling.Ioctl.Samples.{always, kernel, kernel-IsApart, loaded, loaded-IsSound}
use syscall_throttling.Device.Setup.{nothing_held, all_held}
use syscall_throttling.Trampoline.Drain.{Passage, leaves, first_empty}
use syscall_throttling.Ioctl.{Command, register_syscall, switch_off, unknown, Argument}
use syscall_throttling.Load.{System, Answers, sys_throt_init, sys_throt_cleanup}
use syscall_throttling.Load.Removal.{IsRemovable}
use syscall_throttling.Load.Endings.{IsGone, Outcome}
use syscall_throttling.Load.Start.{sys_throt_init-Outcome}
use syscall_throttling.Load.Stop.{Unloads, sys_throt_cleanup-Unloads}

-- Before the load.
abbrev empty_system : System
empty_system = record {
  resources = nothing_held;
  proc_entry = false;
  store = null;
  loaded = record loaded {
    driver = record loaded.driver { working = false; timer_pending = false };
  };
}

empty_system-IsGone : IsGone empty_system
empty_system-IsGone = record { resources = refl; proc_entry = refl; working = refl; entries = refl }

-- There is no memory for the entry in /proc.
abbrev no_proc : Answers
no_proc = record {
  allocated = pos 0;
  added = pos 0;
  class_error = none;
  created = true;
  proc_created = false;
  made = true;
  armed = pos 0;
}

sys_throt_init-Outcome_example :
    Outcome no_proc 5 empty_system.loaded.driver.queue false
      (sys_throt_init always no_proc 5 empty_system)
    × ((sys_throt_init always no_proc 5 empty_system).1.store
        ≡ (init_sys_throt_store always fresh_heap).1)
    × ((sys_throt_init always no_proc 5 empty_system).1.loaded.heap
        ≡ (init_sys_throt_store always fresh_heap).2)
    × IsFreshStart fresh_heap (init_sys_throt_store always fresh_heap)
sys_throt_init-Outcome_example =
    sys_throt_init-Outcome no_proc 5 always empty_system tt empty_system-IsGone

-- The call 0 has a probe.
abbrev probed : Probes
probed = (install_probe kernel (pos 0) loaded.probes).1

probed-IsPatched : IsPatched kernel probed
unfolding run serve
probed-IsPatched =
    run-IsPatched kernel kernel-IsApart (install (pos 0) ∷ []) loaded.probes loaded-IsSound.probes

-- A thread waits, and comes back.
abbrev one_waits : System
one_waits = record {
  resources = all_held;
  proc_entry = true;
  store = live empty_store;
  loaded = record loaded {
    driver = record loaded.driver { threads_in_module = 1 };
    probes = probed;
  };
}

abbrev comes_back : List Event
comes_back = resume (record { pid = 1; uid = 7; comm = 97 ∷ [] }) 0 0 10 20 false ∷ []

probed-IsRemovable : IsRemovable kernel probed
unfolding install_probe find_address install_found apply_smp_patch finish
probed-IsRemovable = record {
  patched = probed-IsPatched;
  poke = refl;
  below = λ id.
      if_cases (λ b. b ≡ true → id < 5) (0 == id) (λ same marked. ground (arith, same))
        (λ other marked. cc);
}

-- One thread is in the trampoline, and leaves it before the second reading.
abbrev rounds : List (List Passage)
rounds = [] ∷ (leaves ∷ []) ∷ []

sys_throt_cleanup-Unloads_example :
    Unloads kernel one_waits
      (sys_throt_cleanup kernel always always 20 rounds 1 comes_back one_waits)
unfolding came gone turn_off act step stub_resume first_empty
sys_throt_cleanup-Unloads_example =
    sys_throt_cleanup-Unloads kernel always always 20 kernel-IsApart comes_back rounds 1
      (1 ∷ 0 ∷ []) 1 0 one_waits empty_store refl refl probed-IsRemovable (omega arith)
      (omega arith) refl (omega arith) (refl, (refl, tt)) refl

-- A probe on the call 0, a command by someone else than root, and one that nobody knows.
abbrev calls : List (ℕ × Command × Argument)
calls =
    (0, register_syscall, record { word = some 0; name = (success, []) })
    ∷ (1000, switch_off, record { word = none; name = (success, []) })
    ∷ (0, unknown 77, record { word = none; name = (success, []) })
    ∷ []

abbrev before_commands : System
before_commands = record one_waits { loaded = record one_waits.loaded { probes = loaded.probes } }
