-- ===== src/Queue.antt =====
-- sysThrot_queue.c: the FIFO of blocked threads, the junk list of those that were let go, and the
-- slab cache that their elements come from. The spinlocks are held throughout, so an operation is
-- one step. Addresses stand for the identity of an element: an element allocated by the n-th request
-- has address n. `queue_cache` counts the elements of all caches since the module was loaded.
pub mod Invariant
pub mod Fifo
pub mod Runs
mod Tests
use syscall_throttling.Base.{
  ℕ, zero, suc, Bool, true, false, not, List, [], ◌∷◌, ◌++◌, map, ◌==◌, if◌then◌else◌,
}
use syscall_throttling.Base.Int.{ℤ, pos, negsuc, ◌+ℤ◌, ◌-ℤ◌}
use syscall_throttling.Base.Code.{success, enomem}
use syscall_throttling.Base.Lists.{length}
use syscall_throttling.Base.Heap.{Heap, kmalloc, kfree}

-- `struct _queue_elem`; the two `int` flags are only ever 0 or 1.
pub record QueueElem : Type 0 where
  pub address : ℕ
  pub wake_up_flag : Bool
  pub exited : Bool

pub record Queue : Type 0 where
  pub global_queue : List QueueElem
  pub junk_list : List QueueElem
  pub current_in_queue : ℤ
  -- Whether the pointer `queue_cache` is not NULL.
  pub has_cache : Bool
  pub queue_cache : Heap

-- What `add_to_queue` returns: `NULL`, `(int *)1`, or the address of an element's flag; or
-- `kmem_cache_alloc` faults, given NULL for a cache.
pub data Flag : Type 0 where
  faulted : Flag
  no_memory : Flag
  turned_off : Flag
  queued : ℕ → Flag

-- `data->wake_up_flag = 1`
abbrev pub wake : QueueElem → QueueElem
wake e = record e { wake_up_flag = true }

abbrev pub fresh_elem : ℕ → QueueElem
fresh_elem a = record { address = a; wake_up_flag = false; exited = false }

-- The rest of `add_to_queue` once the element is there, under `queue_lock`.
abbrev pub enqueue : Bool → Queue → Heap → Flag × Queue
enqueue false q h = (turned_off, record q { queue_cache = kfree h })
enqueue true q h = (
  queued q.queue_cache.requests,
  record q {
    global_queue = q.global_queue ++ fresh_elem q.queue_cache.requests ∷ [];
    current_in_queue = q.current_in_queue +ℤ pos 1;
    queue_cache = h;
  },
)

module _ (available : ℕ → Bool) where
  unfoldable pub add_to_queue : Bool → Queue → Flag × Queue
  add_to_queue working q =
      let (got, h) = kmalloc available q.queue_cache in
      let done = enqueue working q h in
      if not q.has_cache
      then (faulted, q)
      else if got
      then done
      else (no_memory, record q { queue_cache = h })

-- `missing <= 0`
abbrev pub is_spent : ℤ → Bool
is_spent (pos zero) = true
is_spent (pos (suc n)) = false
is_spent (negsuc n) = true

-- The loop of `unqueue`: the elements not yet visited, `missing`, the junk list and
-- `current_in_queue`.
unfoldable pub unqueue_loop :
    List QueueElem → ℤ → List QueueElem → ℤ → ℤ × List QueueElem × List QueueElem × ℤ
unqueue_loop [] missing junk count = (missing, [], junk, count)
unqueue_loop (d ∷ ds) missing junk count =
    let drop = unqueue_loop ds missing (junk ++ d ∷ []) (count -ℤ pos 1) in
    let release = unqueue_loop ds (missing -ℤ pos 1) (junk ++ wake d ∷ []) count in
    if d.exited then drop else if is_spent missing then (missing, d ∷ ds, junk, count) else release

unfoldable pub unqueue : ℤ → Queue → ℤ × Queue
unqueue n q =
    let (missing, waiting, junk, count) =
      unqueue_loop q.global_queue n q.junk_list q.current_in_queue in
    (
      n -ℤ missing,
      record q {
        global_queue = waiting;
        junk_list = junk;
        current_in_queue = count -ℤ (n -ℤ missing);
      },
    )

-- The loop of `free_junk`: what stays on the list, and the cache.
unfoldable pub free_junk_loop : List QueueElem → Heap → List QueueElem × Heap
free_junk_loop [] h = ([], h)
free_junk_loop (d ∷ ds) h =
    let (kept, h') = free_junk_loop ds (if d.exited then kfree h else h) in
    (if d.exited then kept else d ∷ kept, h')

unfoldable pub free_junk : Queue → Queue
free_junk q =
    let (kept, h) = free_junk_loop q.junk_list q.queue_cache in
    record q { junk_list = kept; queue_cache = h }

-- `data->exited = 1` for the element whose flag is at `a`, wherever it is.
abbrev pub mark_exited : ℕ → QueueElem → QueueElem
mark_exited a e = if e.address == a then record e { exited = true } else e

unfoldable pub set_exited_flag : ℕ → Queue → Queue
set_exited_flag a q = record q {
  global_queue = map (mark_exited a) q.global_queue;
  junk_list = map (mark_exited a) q.junk_list;
}

unfoldable pub wake_up_queue : Queue → ℤ × Queue
wake_up_queue q = (
  pos (length q.global_queue),
  record q {
    global_queue = [];
    junk_list = q.junk_list ++ map wake q.global_queue;
    current_in_queue = pos 0;
  },
)

-- `kmem_cache_destroy` drops the cache; the pointer and the list heads keep what they hold.
unfoldable pub destroy_queue : Queue → ℤ × Queue
unfolding free_junk
destroy_queue q = (success, free_junk q)

-- `made` says whether `kmem_cache_create` gives a cache, or NULL. The list heads and the counter of
-- the queue are not touched; addresses go on, and so do the counters of elements.
unfoldable pub init_queue : Bool → Queue → ℤ × Queue
init_queue made q = (if made then success else enomem, record q { has_cache = made })
