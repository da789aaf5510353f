-- ===== src/Queue/Runs.antt =====
-- Any sequence of queue operations: the invariant, and the elements that threads still look at.
use syscall_throttling.Base.{
  ℕ, ◌≡◌, refl, ap, ◌∙◌, Bool, true, false, not, ◌&&◌, ◌||◌, List, [], ◌∷◌, ◌++◌, map, ◌==◌, arith,
}
use syscall_throttling.Base.Int.{ℤ}
use syscall_throttling.Base.Heap.{Heap, kmalloc, kfree}
use syscall_throttling.Queue.{
  QueueElem, Queue, wake, fresh_elem, add_to_queue, unqueue, free_junk_loop, free_junk, mark_exited,
  set_exited_flag, wake_up_queue, destroy_queue, init_queue,
}
use syscall_throttling.Queue.Invariant.{
  IsValid, add_to_queue-IsValid, unqueue-IsValid, free_junk-IsValid, set_exited_flag-IsValid,
  wake_up_queue-IsValid, destroy_queue-IsValid, init_queue-IsValid,
}
use syscall_throttling.Queue.Fifo.{settle, unqueue-oldest}

-- A call of the component; `add` carries the value of `sysThrot_dev.working`, `init` whether a cache
-- can be made.
pub data Call : Type 0 where
  add : Bool → Call
  release : ℤ → Call
  free : Call
  exit : ℕ → Call
  wake_all : Call
  destroy : Call
  init : Bool → Call

module _ (available : ℕ → Bool) where
  unfoldable pub step : Queue → Call → Queue
  step q (add working) = (add_to_queue available working q).1
  step q (release n) = (unqueue n q).1
  step q free = free_junk q
  step q (exit a) = set_exited_flag a q
  step q wake_all = (wake_up_queue q).1
  step q destroy = (destroy_queue q).1
  step q (init made) = (init_queue made q).1

  unfoldable pub run : Queue → List Call → Queue
  run q [] = q
  run q (c ∷ cs) = run (step q c) cs

  step-IsValid : (q : Queue) (c : Call) → IsValid q → IsValid (step q c)
  unfolding step
  step-IsValid q (add working) v = add_to_queue-IsValid available working q v
  step-IsValid q (release n) v = unqueue-IsValid n q v
  step-IsValid q free v = free_junk-IsValid q v
  step-IsValid q (exit a) v = set_exited_flag-IsValid a q v
  step-IsValid q wake_all v = wake_up_queue-IsValid q v
  step-IsValid q destroy v = destroy_queue-IsValid q v
  step-IsValid q (init made) v = init_queue-IsValid made q v

  -- After any sequence of calls, `destroy_queue` and `init_queue` among them, `current_in_queue` is the
  -- length of the queue, and the elements that were handed out since the module was loaded, by any
  -- cache, and not freed are as many as the two lists hold.
  pub run-IsValid : (q : Queue) (cs : List Call) → IsValid q → IsValid (run q cs)
  unfolding run
  run-IsValid q [] v = v
  run-IsValid q (c ∷ cs) v = run-IsValid (step q c) cs (step-IsValid q c v)

-- An element at `a` whose thread has not left.
abbrev pub pinned_in : ℕ → List QueueElem → Bool
pinned_in a [] = false
pinned_in a (d ∷ ds) = (d.address == a && not d.exited) || pinned_in a ds

abbrev pub pinned : ℕ → Queue → Bool
pinned a q = pinned_in a q.global_queue || pinned_in a q.junk_list

pinned_in-append :
    (a : ℕ) (xs ys : List QueueElem) → pinned_in a (xs ++ ys) ≡ (pinned_in a xs || pinned_in a ys)
pinned_in-append a [] ys = refl
pinned_in-append a (x ∷ xs) ys = ground (arith, pinned_in-append a xs ys)

pinned_in-settle : (a : ℕ) (xs : List QueueElem) → pinned_in a (map settle xs) ≡ pinned_in a xs
pinned_in-settle a [] = refl
pinned_in-settle a (x ∷ xs) = ground (arith, pinned_in-settle a xs)

pinned_in-wake : (a : ℕ) (xs : List QueueElem) → pinned_in a (map wake xs) ≡ pinned_in a xs
pinned_in-wake a [] = refl
pinned_in-wake a (x ∷ xs) = ground (arith, pinned_in-wake a xs)

pinned_in-mark :
    (a b : ℕ) (xs : List QueueElem)
    → (b == a) ≡ false
    → pinned_in a (map (mark_exited b) xs) ≡ pinned_in a xs
pinned_in-mark a b [] h = refl
pinned_in-mark a b (x ∷ xs) h = ground (arith, pinned_in-mark a b xs h)

pinned_in-free :
    (a : ℕ) (xs : List QueueElem) (h : Heap) → pinned_in a (free_junk_loop xs h).0 ≡ pinned_in a xs
unfolding free_junk_loop
pinned_in-free a [] h = refl
pinned_in-free a (x ∷ xs) h = ground (arith, pinned_in-free a xs h, pinned_in-free a xs (kfree h))

-- The call marks the element at `a` as left.
abbrev pub leaves : Call → ℕ → Bool
leaves (exit b) a = b == a
leaves _ a = false

release-pinned : (n : ℤ) (q : Queue) (a : ℕ) → pinned a (unqueue n q).1 ≡ pinned a q
release-pinned n q a =
    let q' = (unqueue n q).1 in
    let (prefix, e, j, _, _, _) = unqueue-oldest n q in
    ground (
      arith,
      ap (pinned_in a) e,
      ap (pinned_in a) j,
      pinned_in-append a prefix q'.global_queue,
      pinned_in-append a q.junk_list (map settle prefix),
      pinned_in-settle a prefix,
    )

add-pinned :
    (available : ℕ → Bool) (working : Bool) (q : Queue) (a : ℕ)
    → pinned a q ≡ true
    → pinned a (add_to_queue available working q).1 ≡ true
unfolding add_to_queue kmalloc
add-pinned available true q a h =
    ground (arith, pinned_in-append a q.global_queue (fresh_elem q.queue_cache.requests ∷ []))
add-pinned available false q a h = ground arith

wake_all-pinned : (q : Queue) (a : ℕ) → pinned a (wake_up_queue q).1 ≡ pinned a q
unfolding wake_up_queue
wake_all-pinned q a = ground (
  arith,
  pinned_in-append a q.junk_list (map wake q.global_queue),
  pinned_in-wake a q.global_queue,
)

-- No call but the thread's own `set_exited_flag` takes its element off the two lists or frees it.
step-pinned :
    (available : ℕ → Bool) (q : Queue) (c : Call) (a : ℕ)
    → pinned a q ≡ true
    → leaves c a ≡ false
    → pinned a (step available q c) ≡ true
unfolding step free_junk set_exited_flag destroy_queue init_queue
step-pinned available q (add working) a h l = add-pinned available working q a h
step-pinned available q (release n) a h l = release-pinned n q a ∙ h
step-pinned available q free a h l = ground (arith, pinned_in-free a q.junk_list q.queue_cache)
step-pinned available q (exit b) a h l =
    ground (arith, pinned_in-mark a b q.global_queue l, pinned_in-mark a b q.junk_list l)
step-pinned available q wake_all a h l = wake_all-pinned q a ∙ h
step-pinned available q destroy a h l = ground (arith, pinned_in-free a q.junk_list q.queue_cache)
step-pinned available q (init made) a h l = h

abbrev pub ever_leaves : List Call → ℕ → Bool
ever_leaves [] a = false
ever_leaves (c ∷ cs) a = leaves c a || ever_leaves cs a

-- As long as a thread has not marked its element as left, the element stays on one of the two lists
-- and is not freed, whatever calls are made: the thread may read its flag.
pub run-pinned :
    (available : ℕ → Bool) (q : Queue) (cs : List Call) (a : ℕ)
    → pinned a q ≡ true
    → ever_leaves cs a ≡ false
    → pinned a (run available q cs) ≡ true
unfolding run
run-pinned available q [] a h l = h
run-pinned available q (c ∷ cs) a h l =
    run-pinned available (step available q c) cs a (step-pinned available q c a h (ground arith))
      (ground arith)
