-- ===== src/Queue/Tests.antt =====
-- The queue on concrete inputs.
use syscall_throttling.Base.{ℕ, ◌≡◌, refl, min, Bool, true, false, List, [], ◌∷◌, ◌++◌, map}
use syscall_throttling.Base.Int.{pos, pos_part, ◌-ℤ◌}
use syscall_throttling.Base.Heap.{fresh_heap}
use syscall_throttling.Queue.{QueueElem, Queue, unqueue_loop, unqueue}
use syscall_throttling.Queue.Invariant.{IsValid}
use syscall_throttling.Queue.Fifo.{live, settle, StartsLive, unqueue-oldest}
use syscall_throttling.Queue.Runs.{
  Call, add, release, free, exit, wake_all, destroy, init, run, run-IsValid, pinned, run-pinned,
}

abbrev always : ℕ → Bool
always n = true

abbrev no_queue : Queue
no_queue = record {
  global_queue = [];
  junk_list = [];
  current_in_queue = pos 0;
  has_cache = true;
  queue_cache = fresh_heap;
}

no_queue-IsValid : IsValid no_queue
no_queue-IsValid = record { counted = refl; owned = refl }

abbrev elem : ℕ → Bool → QueueElem
elem a gone = record { address = a; wake_up_flag = false; exited = gone }

-- Four elements; the thread of the second has left.
abbrev four : Queue
four = record {
  global_queue = elem 0 false ∷ elem 1 true ∷ elem 2 false ∷ elem 3 false ∷ [];
  junk_list = [];
  current_in_queue = pos 4;
  has_cache = true;
  queue_cache = record { requests = 4; allocated = 4; freed = 0 };
}

unqueue-oldest_example :
    let (released, q') = unqueue (pos 2) four in
    (prefix : List QueueElem) × (four.global_queue ≡ prefix ++ q'.global_queue)
    × (q'.junk_list ≡ four.junk_list ++ map settle prefix)
    × (released ≡ pos (live prefix))
    × (live prefix ≡ min (pos_part (pos 2)) (live four.global_queue))
    × StartsLive q'.global_queue
unqueue-oldest_example = unqueue-oldest (pos 2) four

abbrev calls : List Call
calls =
    add true
    ∷ add true
    ∷ exit 0
    ∷ release (pos 1)
    ∷ free
    ∷ wake_all
    ∷ destroy
    ∷ init true
    ∷ add true
    ∷ []

run-IsValid_example : IsValid (run always no_queue calls)
run-IsValid_example = run-IsValid always no_queue calls no_queue-IsValid

run-pinned_example : pinned 2 (run always four calls) ≡ true
run-pinned_example = run-pinned always four calls 2 refl refl

-- The second element goes with the two that are released.
two_of_four : (unqueue (pos 2) four).1.global_queue ≡ elem 3 false ∷ []
unfolding unqueue unqueue_loop ◌-ℤ◌
two_of_four = refl
