-- ===== src/Throttle/Tests.antt =====
-- The handler, the timer and the switch on concrete inputs.
use syscall_throttling.Base.{
  ℕ, ◌+◌, ◌%◌, ◌^◌, ◌<◌, ◌≡◌, refl, min, Bool, true, false, List, [], ◌∷◌, arith,
}
use syscall_throttling.Base.Int.{pos, pos_part}
use syscall_throttling.Base.Heap.{fresh_heap}
use syscall_throttling.Store.Cuckoo.{contains, empty_map, put_first}
use syscall_throttling.Store.Hash.{hash1}
use syscall_throttling.Store.Keys.{user_eq, program_eq, compare_user, get_key_from_user_id}
use syscall_throttling.Store.{Store, find_user_in_store, find_program_in_store}
use syscall_throttling.Queue.{QueueElem, add_to_queue, unqueue}
use syscall_throttling.Queue.Fifo.{live}
use syscall_throttling.Monitor.{Task}
use syscall_throttling.Throttle.{
  Driver, dies, queue_stub, queue_call, check_if_registered, timer_callback, to_int, turn_off,
  wait_condition,
}
use syscall_throttling.Throttle.Events.{
  Event, enter, join, check, resume, Action, thread, tick_begins, tick_ends, stop, stop_finish,
  steps, acts, asked,
}
use syscall_throttling.Throttle.Admission.{let_through, epoch-let_through}
use syscall_throttling.Throttle.Accounting.{came, gone, acts-threads}
use syscall_throttling.Throttle.Stopping.{asleep, IsQuiet, turn_off-IsQuiet}

abbrev always : ℕ → Bool
always n = true

abbrev user_7 : Task
user_7 = record { pid = 100; uid = 7; comm = 97 ∷ [] }

abbrev user_8 : Task
user_8 = record { pid = 101; uid = 8; comm = 98 ∷ [] }

-- User 7 is registered.
abbrev store_7 : Store
store_7 = record {
  syscall_user_map =
      put_first empty_map (hash1 (get_key_from_user_id 7))
        (record { key = get_key_from_user_id 7; item = 7 });
  syscall_program_map = empty_map;
}

abbrev asleep_at : ℕ → QueueElem
asleep_at a = record { address = a; wake_up_flag = false; exited = false }

-- Two threads wait, and `limit` calls are allowed for an epoch.
abbrev two_wait : ℕ → Driver
two_wait limit = record {
  working = true;
  threads_in_module = 2;
  current_epoch_tokens = 0;
  epoch = 5;
  max_syscalls_for_epoch = limit;
  store = store_7;
  queue = record {
    global_queue = asleep_at 0 ∷ asleep_at 1 ∷ [];
    junk_list = [];
    current_in_queue = pos 2;
    has_cache = true;
    queue_cache = record { requests = 2; allocated = 2; freed = 0 };
  };
  monitor = record { syscall_list = []; epoch_count = 5; heap = fresh_heap };
  timer_pending = true;
}

abbrev arrivals : List Event
arrivals =
    enter user_7
    ∷ enter user_8
    ∷ resume user_7 39 0 100 1200 false
    ∷ enter user_7
    ∷ join 39 1300
    ∷ []

-- A call queues after the timer has looked at the queue, and before it sets the tokens.
abbrev between : List Event
between = enter user_7 ∷ join 39 900 ∷ []

asked_two : asked store_7 arrivals ≡ 2
unfolding asked check_if_registered find_user_in_store find_program_in_store contains hash1
    compare_user get_key_from_user_id
asked_two = refl

abbrev meanwhile : Driver → Driver
meanwhile d = steps always always 300 d between

epoch-let_through_example :
    let released = pos_part (unqueue (to_int 3) (two_wait 3).queue).0 in
    released + let_through always always 300 (timer_callback meanwhile (two_wait 3)) arrivals
    ≡ min 3 (live (two_wait 3).queue.global_queue + asked store_7 arrivals)
epoch-let_through_example =
    epoch-let_through always always 300 (two_wait 3) between arrivals refl (omega arith)
      (omega (arith, asked_two))

abbrev actions : List Action
actions =
    thread (enter user_7)
    ∷ tick_begins
    ∷ thread (join 39 1000)
    ∷ tick_ends (pos 0)
    ∷ thread (check 39 0)
    ∷ thread (resume user_7 39 0 100 1200 false)
    ∷ stop
    ∷ stop_finish
    ∷ []

acts-threads_example :
    let d' = acts always always 300 (two_wait 1) actions in
    (d'.threads_in_module < 2 ^ 32)
    × ((d'.threads_in_module + gone always always 300 (two_wait 1) actions) % 2 ^ 32
        ≡ ((two_wait 1).threads_in_module + came always always 300 (two_wait 1) actions) % 2 ^ 32)
acts-threads_example = acts-threads always always 300 (two_wait 1) actions (omega arith)

-- A call that saw the monitor working comes in and finds no token, and queues.
abbrev leavers : List Event
leavers =
    check 39 0
    ∷ enter user_7
    ∷ resume user_7 39 0 100 1200 false
    ∷ join 39 1250
    ∷ resume user_7 39 1 200 1300 true
    ∷ []

turn_off-IsQuiet_example :
    let stopped = (turn_off (two_wait 1)).1 in
    let d' = steps always always 300 stopped leavers in
    (asleep always always 300 stopped leavers ≡ 0)
    × IsQuiet d'
    × ((wait_condition always always 300 39 1 d').0 ≡ true)
turn_off-IsQuiet_example = turn_off-IsQuiet always always 300 (two_wait 1) leavers 39 1 refl

-- A call that has to queue, in a monitor that was turned on without a cache.
abbrev cacheless : Driver
cacheless = record (two_wait 1) { queue = record (two_wait 1).queue { has_cache = false } }

dies_without_cache : (queue_stub always always 300 39 1000 cacheless).0 ≡ dies
unfolding queue_stub add_to_queue queue_call
dies_without_cache = refl
