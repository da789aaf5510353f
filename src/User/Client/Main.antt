-- ===== src/User/Client/Main.antt =====
-- user/client.c, `main`: the whole run of the load generator, from its command line to its exit code.
use syscall_throttling.Base.{
  ℕ, zero, suc, ◌*◌, ◌%◌, ◌^◌, Bool, not, Option, none, some, List, [], ◌∷◌, if◌then◌else◌,
}
use syscall_throttling.Base.Int.{ℤ, pos, negsuc, pos_part, is_zero}
use syscall_throttling.Base.Code.{success}
use syscall_throttling.Base.Lists.{length}
use syscall_throttling.Base.Text.{codes}
use syscall_throttling.Throttle.{to_int}
use syscall_throttling.Throttle.Events.{Event, steps}
use syscall_throttling.User.{Machine, World, Result}
use syscall_throttling.User.Symbols.{find_syscall_id}
use syscall_throttling.User.Client.{setup_throttle, teardown_throttle}
use syscall_throttling.User.Client.Split.{split_list}
use syscall_throttling.User.Client.Options.{Options, options}
use syscall_throttling.User.Client.Spawn
use syscall_throttling.User.Client.Spawn.{Profile, Turn, finished, failed, going}
use syscall_throttling.User.Client.Tally.{Slot, slots, work, totals, per_syscall}

-- What the program gets from the C library and the system in one run: which copies of names and
-- which `pthread_create` succeed, whether both `calloc` do, the times that `now_ms` reads from the
-- start on, what the threads do in the kernel, and what `syscall` returns in the thread of each slot.
pub record Host : Type 0 where
  pub atoi : List ℕ → ℤ
  pub syscall_copied : ℕ → Bool
  pub program_copied : ℕ → Bool
  pub allocated : Bool
  pub start : ℕ
  pub times : List ℕ
  pub created : ℕ → Bool
  pub calls : List Event
  pub results : ℕ → ℤ

abbrev pub default_syscalls : List (List ℕ)
default_syscalls =
    codes "__x64_sys_getpid"
    ∷ codes "__x64_sys_getuid"
    ∷ codes "__x64_sys_getppid"
    ∷ codes "__x64_sys_getgid"
    ∷ codes "__x64_sys_geteuid"
    ∷ codes "__x64_sys_gettid"
    ∷ []

abbrev pub default_programs : List (List ℕ)
default_programs = codes "st_load_gen1" ∷ codes "st_load_gen2" ∷ codes "st_load_gen3" ∷ []

abbrev pub max_syscalls : ℕ
max_syscalls = 16

abbrev pub max_programs : ℕ
max_programs = 8

-- The arguments as the program goes by them; `nr` has the numbers of the system calls.
pub record Plan : Type 0 where
  pub chosen : Options
  pub syscalls : List (List ℕ)
  pub programs : List (List ℕ)
  pub nr : List ℕ

-- How reading the arguments ends: with EXIT_FAILURE, with a name whose copy got no memory, where the
-- model stops, or with a plan.
pub data Reading : Type 0 where
  refused nameless : Reading
  planned : Plan → Reading

-- The names, if all are there.
unfoldable pub all_there : List (Option (List ℕ)) → Option (List (List ℕ))
all_there [] = some []
all_there (none ∷ names) = none
all_there (some name ∷ names) = elim (all_there names) [
  | none ↦ none
  | some rest ↦ some (name ∷ rest)
]

abbrev pub or_default : List (List ℕ) → List (List ℕ) → List (List ℕ)
or_default given [] = given
or_default given (name ∷ names) = name ∷ names

unfoldable pub add_number : ℤ → Option (List ℕ) → Option (List ℕ)
add_number (negsuc n) rest = none
add_number (pos id) none = none
add_number (pos id) (some ids) = some (id ∷ ids)

-- The number of each system call; `none` when one is not found.
unfoldable pub find_all : List (List ℕ) → List (Option (List ℕ)) → Option (List ℕ)
find_all [] symbols = some []
find_all (name ∷ names) symbols = add_number (find_syscall_id name symbols) (find_all names symbols)

abbrev pub with_numbers : Options → List (List ℕ) → List (List ℕ) → Option (List ℕ) → Reading
with_numbers o syscalls programs none = refused
with_numbers o syscalls programs (some nr) =
    planned (record { chosen = o; syscalls = syscalls; programs = programs; nr = nr })

module _ (h : Host) (c : Machine) where
  abbrev pub with_names : Options → Option (List (List ℕ)) → Option (List (List ℕ)) → Reading
  with_names o (some syscalls) (some programs) =
      let names = or_default default_syscalls syscalls in
      with_numbers o names (or_default default_programs programs) (find_all names c.syscall_symbols)
  with_names o _ _ = nameless

  abbrev pub with_lists :
      Options → Option (List (Option (List ℕ))) → Option (List (Option (List ℕ))) → Reading
  with_lists o (some syscalls) (some programs) =
      with_names o (all_there syscalls) (all_there programs)
  with_lists o _ _ = refused

  abbrev pub with_options : Option Options → Reading
  with_options none = refused
  with_options (some o) =
      with_lists o (split_list h.syscall_copied o.syscall_list max_syscalls)
        (split_list h.program_copied o.program_list max_programs)

  -- From `argv[1]` on.
  unfoldable pub read_arguments : List (List ℕ) → Reading
  read_arguments args = with_options (options h.atoi args)

-- What is printed: the threads spawned, the calls counted as OK and as EAGAIN, in total and for each
-- system call.
pub record Report : Type 0 where
  pub spawned : ℕ
  pub ok : ℕ
  pub eagain : ℕ
  pub by_syscall : List (ℕ × ℕ)

-- How the program ends: with an exit code; in the kernel, where turning off waits for ever; at a
-- missing name; or not yet, when the clock has not been read often enough.
pub data Ending : Type 0 where
  exits : ℕ → World → Option Report → Ending
  stays lost : Ending
  runs : World → Ending

-- An array as it is read: `a[i]`, of the list of its elements.
unfoldable pub element : {A : Type 0} → A → List A → ℕ → A
element out [] i = out
element out (a ∷ rest) zero = a
element out (a ∷ rest) (suc i) = element out rest i

-- The first `n` values of a function, from the i-th on.
unfoldable pub values : (ℕ → ℤ) → ℕ → ℕ → List ℤ
values f i zero = []
values f i (suc n) = f i ∷ values f (suc i) n

unfoldable pub by_syscall : List ℕ → List Slot → List (ℕ × ℕ)
by_syscall [] all = []
by_syscall (nr ∷ nrs) all = per_syscall nr all ∷ by_syscall nrs all

module _ (h : Host) (c : Machine) (p : Plan) where
  abbrev pub threads : ℕ
  threads = pos_part p.chosen.threads

  abbrev pub duration : ℕ
  duration = pos_part p.chosen.duration

  -- `threads * duration` is an `int`: the product is taken to wrap. A negative one, for which
  -- `calloc` has no memory either, counts as 0.
  abbrev pub profile : Profile
  profile = record {
    threads = threads;
    duration = duration;
    kill_after = pos_part p.chosen.kill_after;
    nslots = pos_part (to_int (threads * duration % 2 ^ 32));
    start = h.start;
    created = h.created;
  }

  -- The slots of the threads that were spawned, when they have been joined.
  unfoldable pub worked : ℕ → List Slot
  worked spawned = work (values h.results 0 spawned) (
      slots (element 0 p.nr) (length p.nr) (element [] p.programs) (length p.programs) 0
        profile.nslots)

  unfoldable pub report : ℕ → Report
  report spawned =
      let all = worked spawned in
      let (ok, eagain) = totals all in
      record { spawned = spawned; ok = ok; eagain = eagain; by_syscall = by_syscall p.nr all }

  -- The module after what the threads have done.
  abbrev pub hammered : World → World
  hammered w = record w {
    loaded = record w.loaded {
      driver = steps c.slab_available c.entry_available c.kernel.supported w.loaded.driver h.calls;
    };
  }

  unfoldable pub set_up : World → Result
  set_up w =
      if p.chosen.do_setup then setup_throttle c p.programs p.syscalls w else some (success, w)

  unfoldable pub take_down : World → Result
  take_down w =
      if p.chosen.do_teardown
      then teardown_throttle c p.programs p.syscalls w
      else some (success, w)

  abbrev pub after_teardown : Report → Result → Ending
  after_teardown r none = stays
  after_teardown r (some (code, w)) = exits (if is_zero code then 0 else 1) w (some r)

  unfoldable pub after_loop : World → Turn → Ending
  after_loop w (failed n) = exits 1 w none
  after_loop w (going q) = runs w
  after_loop w (finished q) = after_teardown (report q.spawned) (take_down w)

  unfoldable pub after_setup : Result → Ending
  after_setup none = stays
  after_setup (some (code, w)) =
      if not (is_zero code)
      then exits 1 w none
      else if h.allocated
      then after_loop (hammered w) (Spawn.run profile h.times (going (Spawn.first profile)))
      else exits 1 w none

  unfoldable pub carry_out : World → Ending
  carry_out w = after_setup (set_up w)

module _ (h : Host) (c : Machine) where
  abbrev pub after_reading : World → Reading → Ending
  after_reading w refused = exits 1 w none
  after_reading w nameless = lost
  after_reading w (planned p) = carry_out h c p w

  unfoldable pub main : List (List ℕ) → World → Ending
  main args w = after_reading w (read_arguments h c args)
