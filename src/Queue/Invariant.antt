-- ===== src/Queue/Invariant.antt =====
-- The counter of the queue against its list, and the slab objects against the two lists: the
-- invariant of the queue.
use syscall_throttling.Base.{
  ℕ, suc, ◌+◌, ◌≡◌, refl, ap, Bool, true, false, List, [], ◌∷◌, ◌++◌, map, if_cases, arith,
}
use syscall_throttling.Base.Int.{ℤ, pos, ◌+ℤ◌, ◌-ℤ◌, Same, Same-of_eq, int_laws}
use syscall_throttling.Base.Lists.{length, length-append}
use syscall_throttling.Base.Heap.{Heap, kmalloc, kfree}
use syscall_throttling.Queue.{
  QueueElem, Queue, wake, fresh_elem, add_to_queue, unqueue_loop, unqueue, is_spent, free_junk_loop,
  free_junk, mark_exited, set_exited_flag, wake_up_queue, destroy_queue, init_queue,
}

pub record IsValid (q : Queue) : Type 0 where
  pub counted : q.current_in_queue ≡ pos (length q.global_queue)
  pub owned :
      q.queue_cache.allocated ≡ q.queue_cache.freed + length q.global_queue + length q.junk_list

length-map : (f : QueueElem → QueueElem) (xs : List QueueElem) → length (map f xs) ≡ length xs
length-map f [] = refl
length-map f (x ∷ xs) = ap suc (length-map f xs)

pub add_to_queue-IsValid :
    (available : ℕ → Bool) (working : Bool) (q : Queue)
    → IsValid q
    → IsValid (add_to_queue available working q).1
unfolding add_to_queue kmalloc kfree ◌+ℤ◌
add_to_queue-IsValid available true q v =
    ground (arith, length-append q.global_queue (fresh_elem q.queue_cache.requests ∷ []))
add_to_queue-IsValid available false q v = ground arith

-- What the loop does to the lengths: every element that leaves the queue joins the junk list, and
-- the counter falls for each that has exited and `missing` for each that is released.
abbrev Moves :
    List QueueElem → ℤ → List QueueElem → ℤ → ℤ × List QueueElem × List QueueElem × ℤ → Type 0
Moves ds missing junk count (left, waiting, junk', count') =
    Same (count' +ℤ pos (length ds) +ℤ left) (count +ℤ pos (length waiting) +ℤ missing)
    × (length ds + length junk ≡ length waiting + length junk')

unqueue_loop-Moves :
    (ds : List QueueElem) (missing : ℤ) (junk : List QueueElem) (count : ℤ)
    → Moves ds missing junk count (unqueue_loop ds missing junk count)
unfolding unqueue_loop
unqueue_loop-Moves [] missing junk count = (refl, refl)
unqueue_loop-Moves (d ∷ ds) missing junk count =
    let dropped = unqueue_loop-Moves ds missing (junk ++ d ∷ []) (count -ℤ pos 1) in
    let released = unqueue_loop-Moves ds (missing -ℤ pos 1) (junk ++ wake d ∷ []) count in
    if_cases (Moves (d ∷ ds) missing junk count) d.exited
      (λ _. (omega (int_laws, dropped.0), omega (arith, dropped.1, length-append junk (d ∷ []))))
      (λ _.
        if_cases (Moves (d ∷ ds) missing junk count) (is_spent missing) (λ _. (refl, refl))
          (λ _. (
            omega (int_laws, released.0),
            omega (arith, released.1, length-append junk (wake d ∷ [])),
          )))

pub unqueue-IsValid : (n : ℤ) (q : Queue) → IsValid q → IsValid (unqueue n q).1
unfolding unqueue
unqueue-IsValid n q v =
    let lengths = unqueue_loop-Moves q.global_queue n q.junk_list q.current_in_queue in
    record {
      counted = omega (int_laws, lengths.0, Same-of_eq v.counted);
      owned = omega (arith, lengths.1, v.owned);
    }

free_junk_loop-counts :
    (ds : List QueueElem) (h : Heap)
    → let (kept, h') = free_junk_loop ds h in
      (h'.allocated ≡ h.allocated) × (h'.freed + length kept ≡ h.freed + length ds)
unfolding free_junk_loop kfree
free_junk_loop-counts [] h = (refl, refl)
free_junk_loop-counts (d ∷ ds) h =
    ground (arith, free_junk_loop-counts ds h, free_junk_loop-counts ds (kfree h))

pub free_junk-IsValid : (q : Queue) → IsValid q → IsValid (free_junk q)
unfolding free_junk
free_junk-IsValid q v = ground (arith, free_junk_loop-counts q.junk_list q.queue_cache)

pub set_exited_flag-IsValid : (a : ℕ) (q : Queue) → IsValid q → IsValid (set_exited_flag a q)
unfolding set_exited_flag
set_exited_flag-IsValid a q v =
    ground
      (arith, length-map (mark_exited a) q.global_queue, length-map (mark_exited a) q.junk_list)

pub wake_up_queue-IsValid : (q : Queue) → IsValid q → IsValid (wake_up_queue q).1
unfolding wake_up_queue
wake_up_queue-IsValid q v =
    ground
      (arith, length-append q.junk_list (map wake q.global_queue), length-map wake q.global_queue)

pub destroy_queue-IsValid : (q : Queue) → IsValid q → IsValid (destroy_queue q).1
unfolding destroy_queue
destroy_queue-IsValid q v = free_junk-IsValid q v

pub init_queue-IsValid : (made : Bool) (q : Queue) → IsValid q → IsValid (init_queue made q).1
unfolding init_queue
init_queue-IsValid made q v = record { counted = v.counted; owned = v.owned }
