-- ===== src/Monitor/Window.antt =====
-- The ring of an entry against a plain list of the last epochs.
use syscall_throttling.Base.{
  ℕ, zero, suc, ◌+◌, ◌-◌, ◌%◌, ◌^◌, ◌≢◌, ◌≤◌, ◌<◌, inl, inr, ◌≡◌, refl, ap, ap₂, ◌∙◌, sym, List, [],
  ◌∷◌, ◌++◌, ltb, if◌then◌else◌, update, update_self, update_ne, Bool-cases, arith,
}
use syscall_throttling.Base.Lists.{length}
use syscall_throttling.Monitor.{
  SyscallEntry, Monitor, close_entry, close_stat, history_len, widen, add64, ratio,
}
use syscall_throttling.Monitor.Report.{
  history_blocked_at, history_time_at, sum_window, format_ms, Row, show_entry,
}

pub record IsRing (e : SyscallEntry) : Type 0 where
  pub head_in : e.history_head < history_len
  pub count_in : e.history_count ≤ history_len

-- `f i`, …, `f (i + n - 1)`.
abbrev pub tabulate : ℕ → ℕ → (ℕ → ℕ) → List ℕ
tabulate zero i f = []
tabulate (suc n) i f = f i ∷ tabulate n (suc i) f

-- What the row of an entry sums up, oldest epoch first.
abbrev pub blocked_window : SyscallEntry → List ℕ
blocked_window e = tabulate e.history_count 0 (history_blocked_at e)

abbrev pub time_window : SyscallEntry → List ℕ
time_window e = tabulate e.history_count 0 (history_time_at e)

-- A window of the last `history_len` epochs takes in one more.
abbrev pub drop_oldest : List ℕ → List ℕ
drop_oldest [] = []
drop_oldest (x ∷ xs) = xs

abbrev pub push_window : ℕ → List ℕ → List ℕ
push_window x w = (if ltb (length w) history_len then w else drop_oldest w) ++ x ∷ []

length-tabulate : (n i : ℕ) (f : ℕ → ℕ) → length (tabulate n i f) ≡ n
length-tabulate zero i f = refl
length-tabulate (suc n) i f = ap suc (length-tabulate n (suc i) f)

-- Equal at all indices, shifted by `d`.
tabulate-shift :
    (n i j d : ℕ) (f g : ℕ → ℕ)
    → i + d ≡ j
    → ((k : ℕ) → k < i + n → f k ≡ g (k + d))
    → tabulate n i f ≡ tabulate n j g
tabulate-shift zero i j d f g e h = refl
tabulate-shift (suc n) i j d f g e h =
    ap₂ ◌∷◌ (h i (omega arith) ∙ ap g e)
      (tabulate-shift n (suc i) (suc j) d f g (omega arith) (λ k high. h k (omega arith)))

tabulate-snoc : (n i : ℕ) (f : ℕ → ℕ) → tabulate (suc n) i f ≡ tabulate n i f ++ f (i + n) ∷ []
tabulate-snoc zero i f = ap (λ k. f k ∷ []) (omega arith)
tabulate-snoc (suc n) i f =
    ap (f i ∷◌)
      (tabulate-snoc n (suc i) f ∙ ap (λ k. tabulate n (suc i) f ++ f k ∷ []) (omega arith))

-- The slot of the `i`-th oldest of `c` epochs, with the head at `h`.
abbrev slot : ℕ → ℕ → ℕ → ℕ
slot h c i = (h + 2 ^ 32 - c + i + history_len) % 2 ^ 32 % history_len

abbrev next_head : ℕ → ℕ
next_head h = (h + 1) % 2 ^ 32 % history_len

-- The count after a push.
abbrev grown : ℕ → ℕ
grown c = if ltb c history_len then c + 1 else c

module _ (a : ℕ → ℕ) (h x : ℕ) (h_in : h < history_len) where
  slot-last : (c : ℕ) → c < history_len → slot (next_head h) (c + 1) c ≡ h
  slot-last c small = omega arith

  slot-kept : (c k : ℕ) → c < history_len → k < c → slot (next_head h) (c + 1) k ≡ slot h c k
  slot-kept c k small below = omega arith

  slot-other : (c k : ℕ) → c < history_len → k < c → slot h c k ≢ h
  slot-other c k small below same = omega arith

  slot-full : (k : ℕ) → k < 19 → slot (next_head h) 20 k ≡ slot h 20 (k + 1)
  slot-full k below = omega arith

  slot-full-other : (k : ℕ) → k < 19 → slot h 20 (k + 1) ≢ h
  slot-full-other k below same = omega arith

  abbrev seen : ℕ → ℕ → ℕ
  seen c i = a (slot h c i)

  abbrev seen_next : ℕ → ℕ → ℕ
  seen_next c i = update a h x (slot (next_head h) c i)

  seen_next-last : (c : ℕ) → c < history_len → seen_next (c + 1) c ≡ x
  seen_next-last c small = ap (update a h x) (slot-last c small) ∙ update_self a h x

  push-grows :
      (c : ℕ)
      → c < history_len
      → tabulate (c + 1) 0 (seen_next (c + 1)) ≡ tabulate c 0 (seen c) ++ x ∷ []
  push-grows c small =
      let kept : (k : ℕ) → k < 0 + c → seen c k ≡ seen_next (c + 1) (k + 0) = λ k within.
        let below : k < c = omega arith in
        sym (
          ap (λ j. update a h x (slot (next_head h) (c + 1) j)) (omega arith)
          ∙ ap (update a h x) (slot-kept c k small below)
          ∙ update_ne a h (slot h c k) x (λ e. slot-other c k small below (sym e))) in
      ap (λ n. tabulate n 0 (seen_next (c + 1))) {y = suc c} (omega arith)
      ∙ tabulate-snoc c 0 (seen_next (c + 1))
      ∙ ap₂ (λ w y. w ++ y ∷ [])
          (sym (tabulate-shift c 0 0 0 (seen c) (seen_next (c + 1)) refl kept))
          (ap (seen_next (c + 1)) (omega arith) ∙ seen_next-last c small)

  push-full : tabulate 20 0 (seen_next 20) ≡ tabulate 19 1 (seen 20) ++ x ∷ []
  push-full =
      let kept : (k : ℕ) → k < 0 + 19 → seen_next 20 k ≡ seen 20 (k + 1) = λ k below.
        ap (update a h x) (slot-full k below)
        ∙ update_ne a h (slot h 20 (k + 1)) x (λ e. slot-full-other k below (sym e)) in
      tabulate-snoc 19 0 (seen_next 20)
      ∙ ap₂ (λ w y. w ++ y ∷ []) (tabulate-shift 19 0 1 1 (seen_next 20) (seen 20) refl kept)
          (seen_next-last 19 (omega arith))

  -- What a push does to the ring, whatever the count.
  push_lem :
      (c : ℕ)
      → c ≤ history_len
      → tabulate (grown c) 0 (seen_next (grown c)) ≡ push_window x (tabulate c 0 (seen c))
  push_lem c small = elim (Bool-cases (ltb c history_len)) [
    | inl below ↦ rw (length-tabulate c 0 (seen c), below) (push-grows c (ground arith))
    | inr full ↦ let c_full : c ≡ 20 = ground arith in rw c_full push-full
  ]

module _ (e : SyscallEntry) (ring : IsRing e) where
  -- Closing an epoch pushes its blocked calls into the window that the report sums up: the ring,
  -- read back oldest first, is the window before with the new count behind it and, when it held
  -- `history_len` epochs, without the oldest.
  pub close_entry-blocked_window :
      blocked_window (close_entry e) ≡ push_window (widen e.stat.current_blocked) (blocked_window e)
  unfolding close_entry history_blocked_at
  close_entry-blocked_window =
      push_lem e.epoch_history e.history_head (widen e.stat.current_blocked) ring.head_in
        e.history_count ring.count_in

  pub close_entry-time_window :
      time_window (close_entry e) ≡ push_window e.stat.current_time_blocked (time_window e)
  unfolding close_entry history_time_at
  close_entry-time_window =
      push_lem e.epoch_time_history e.history_head e.stat.current_time_blocked ring.head_in
        e.history_count ring.count_in

  pub close_entry-IsRing : IsRing (close_entry e)
  unfolding close_entry
  close_entry-IsRing = record { head_in = omega arith; count_in = ground (arith, ring.count_in) }

-- The sum that a row takes, in `unsigned long`.
abbrev pub sum64 : ℕ → List ℕ → ℕ
sum64 s [] = s
sum64 s (x ∷ xs) = sum64 (add64 s x) xs

sum_window_lem :
    (n i : ℕ) (e : SyscallEntry) (s t : ℕ)
    → sum_window n i e s t
      ≡ (sum64 s (tabulate n i (history_blocked_at e)), sum64 t (tabulate n i (history_time_at e)))
unfolding sum_window
sum_window_lem zero i e s t = refl
sum_window_lem (suc n) i e s t = sum_window_lem n (suc i) e _ _

-- The row that the report shows for an entry whose epoch has just been closed: the blocked calls
-- of that epoch, their average over the window, and the mean delay over the window.
abbrev pub Shows : ℕ → List ℕ → List ℕ → Row → Type 0
Shows blocked counts times r =
    (r.last_epoch_blocked ≡ blocked)
    × (r.avg_epoch ≡ ratio (sum64 0 counts) (length counts))
    × (r.mean_ms ≡ format_ms (ratio (sum64 0 times) (sum64 0 counts)))

show_entry_lem :
    (m : Monitor) (e : SyscallEntry)
    → Shows e.stat.last_epoch_blocked (blocked_window e) (time_window e) (show_entry m e)
unfolding show_entry
show_entry_lem m e = (
  refl,
  rw
      (
        sum_window_lem e.history_count 0 e 0 0,
        length-tabulate e.history_count 0 (history_blocked_at e),
      )
      refl,
  rw (sum_window_lem e.history_count 0 e 0 0) refl,
)

module _ (m : Monitor) (e : SyscallEntry) (ring : IsRing e) where
  -- After an epoch has been closed on an entry with a valid ring, its row shows the number of
  -- calls blocked in that epoch, the average number over the last epochs, and the mean delay of
  -- a blocked call over these; the last epochs are the window before with the new epoch pushed.
  pub show-close_entry :
      Shows
        (widen e.stat.current_blocked)
        (push_window (widen e.stat.current_blocked) (blocked_window e))
        (push_window e.stat.current_time_blocked (time_window e))
        (show_entry m (close_entry e))
  unfolding close_stat close_entry
  show-close_entry =
      rw (sym (close_entry-blocked_window e ring), sym (close_entry-time_window e ring))
        (show_entry_lem m (close_entry e))
