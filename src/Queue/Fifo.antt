-- ===== src/Queue/Fifo.antt =====
-- Which threads `unqueue` lets go of.
use syscall_throttling.Base.{
  ℕ, zero, suc, min, ◌≡◌, refl, sym, ap, ◌∙◌, true, false, List, [], ◌∷◌, ◌++◌, map, if◌then◌else◌,
  if_cases, arith,
}
use syscall_throttling.Base.Int.{ℤ, pos, negsuc, ◌+ℤ◌, ◌-ℤ◌, pos_part, Same, eq_of_parts, int_laws}
use mathlib.Core.List.{append-nil, append_assoc}
use syscall_throttling.Queue.{QueueElem, Queue, wake, is_spent, unqueue_loop, unqueue}

-- The elements whose threads have not left.
abbrev pub live : List QueueElem → ℕ
live [] = 0
live (d ∷ ds) = if d.exited then live ds else suc (live ds)

-- What becomes of an element that leaves the queue: woken, unless its thread has left already.
abbrev pub settle : QueueElem → QueueElem
settle d = if d.exited then d else wake d

-- The oldest element is one whose thread still waits.
abbrev pub StartsLive : List QueueElem → Type 0
StartsLive [] = Unit {0}
StartsLive (d ∷ ds) = d.exited ≡ false

settle_gone : (d : QueueElem) → d.exited ≡ true → settle d ≡ d
settle_gone d h = if_cases (λ s. s ≡ d) d.exited (λ _. refl) (λ f. cc)

settle_live : (d : QueueElem) → d.exited ≡ false → settle d ≡ wake d
settle_live d h = if_cases (λ s. s ≡ wake d) d.exited (λ t. cc) (λ _. refl)

live_gone : (d : QueueElem) (ds : List QueueElem) → d.exited ≡ true → live (d ∷ ds) ≡ live ds
live_gone d ds h = rw h

live_here : (d : QueueElem) (ds : List QueueElem) → d.exited ≡ false → live (d ∷ ds) ≡ suc (live ds)
live_here d ds h = rw h

abbrev Takes :
    List QueueElem → ℤ → List QueueElem → ℤ × List QueueElem × List QueueElem × ℤ → Type 0
Takes ds missing junk (left, waiting, junk', count') =
    (prefix : List QueueElem) × (ds ≡ prefix ++ waiting)
    × (junk' ≡ junk ++ map settle prefix)
    × (live prefix ≡ min (pos_part missing) (live ds))
    × Same (left +ℤ pos (live prefix)) missing
    × StartsLive waiting

spent_pos_part : (m : ℤ) → is_spent m ≡ true → pos_part m ≡ 0
spent_pos_part (pos zero) h = refl
spent_pos_part (pos (suc n)) h = cc
spent_pos_part (negsuc n) h = refl

more_pos_part : (m : ℤ) → is_spent m ≡ false → pos_part m ≡ suc (pos_part (m -ℤ pos 1))
unfolding ◌-ℤ◌
more_pos_part (pos zero) h = cc
more_pos_part (pos (suc n)) h = ground arith
more_pos_part (negsuc n) h = cc

unqueue_loop-Takes :
    (ds : List QueueElem) (missing : ℤ) (junk : List QueueElem) (count : ℤ)
    → Takes ds missing junk (unqueue_loop ds missing junk count)
unfolding unqueue_loop
unqueue_loop-Takes [] missing junk count =
    ([], refl, sym (append-nil junk), omega arith, omega int_laws, tt)
unqueue_loop-Takes (d ∷ ds) missing junk count =
    let (p1, e1, j1, n1, s1, h1) =
      unqueue_loop-Takes ds missing (junk ++ d ∷ []) (count -ℤ pos 1) in
    let (p2, e2, j2, n2, s2, h2) =
      unqueue_loop-Takes ds (missing -ℤ pos 1) (junk ++ wake d ∷ []) count in
    if_cases (Takes (d ∷ ds) missing junk) d.exited
      (λ gone. (
        d ∷ p1,
        ap (◌∷◌ d) e1,
        j1 ∙ rw (append_assoc, settle_gone d gone),
        omega (arith, n1, live_gone d p1 gone, live_gone d ds gone),
        omega (int_laws, s1, live_gone d p1 gone),
        h1,
      ))
      (λ here.
        if_cases (Takes (d ∷ ds) missing junk) (is_spent missing)
          (λ spent. (
            [],
            refl,
            sym (append-nil junk),
            omega (arith, spent_pos_part missing spent),
            omega int_laws,
            here,
          ))
          (λ more. (
            d ∷ p2,
            ap (◌∷◌ d) e2,
            j2 ∙ rw (append_assoc, settle_live d here),
            omega (arith, n2, live_here d p2 here, live_here d ds here, more_pos_part missing more),
            omega (int_laws, s2, live_here d p2 here),
            h2,
          )))

-- `unqueue n` cuts the queue after a prefix and returns the number of threads in it that had not
-- left, which is the smaller of `n` (0 if negative) and of the number of those that wait at all. Each
-- of these is woken, and the whole prefix goes to the end of the junk list in order. What remains
-- keeps its order and starts with a thread that still waits.
pub unqueue-oldest :
    (n : ℤ) (q : Queue)
    → let (released, q') = unqueue n q in
      (prefix : List QueueElem) × (q.global_queue ≡ prefix ++ q'.global_queue)
      × (q'.junk_list ≡ q.junk_list ++ map settle prefix)
      × (released ≡ pos (live prefix))
      × (live prefix ≡ min (pos_part n) (live q.global_queue))
      × StartsLive q'.global_queue
unfolding unqueue
unqueue-oldest n q =
    let (prefix, e, j, k, s, h) =
      unqueue_loop-Takes q.global_queue n q.junk_list q.current_in_queue in
    (prefix, e, j, eq_of_parts _ _ (omega (int_laws, s)), k, h)
