-- ===== src/Monitor/Totals.antt =====
-- The blocked calls that the statistics count, over any sequence of events.
use syscall_throttling.Base.{
  ℕ, ◌+◌, ◌<◌, ◌^◌, ◌≡◌, refl, ap, subst, ◌∙◌, inl, inr, Bool, true, Option, none, some, List, [],
  ◌∷◌, ◌++◌, map, ◌==◌, ==_iff, leb, if◌then◌else◌, if_cases, Bool-cases, Option-cases, arith,
}
use syscall_throttling.Base.Heap.{kmalloc}
use syscall_throttling.Monitor.{
  Task, SyscallStat, SyscallEntry, Monitor, new_entry, find_entry, modify_entry, change_stat,
  count_blocked, count_ctx_switch, count_aborted, find_or_create_entry, record_stat, add_blocked,
  add_ctx_switch, add_aborted, close_stat, close_entry, update_epoch_stats,
}

pub data Event : Type 0 where
  blocked : Task → ℕ → ℕ → Event
  switched aborted : ℕ → Event
  epoch : Event

-- The blocked calls of an entry that have been counted: those of closed epochs and of this one.
abbrev pub counted_in : SyscallStat → ℕ
counted_in s = s.total_blocked + s.current_blocked

abbrev counted_by : Option SyscallEntry → ℕ
counted_by none = 0
counted_by (some e) = counted_in e.stat

abbrev pub counted : ℕ → Monitor → ℕ
counted id m = counted_by (find_entry id m.syscall_list)

-- The blocked calls of a number among the events.
abbrev pub is_blocked : ℕ → Event → ℕ
is_blocked id (blocked task n delay_ns) = if n == id then 1 else 0
is_blocked id _ = 0

abbrev pub blocked_calls : ℕ → List Event → ℕ
blocked_calls id [] = 0
blocked_calls id (e ∷ es) = is_blocked id e + blocked_calls id es

abbrev change_found : (SyscallStat → SyscallStat) → Option SyscallEntry → Option SyscallEntry
change_found f none = none
change_found f (some e) = some (change_stat f e)

abbrev found_or_new : ℕ → ℕ → Option SyscallEntry → Option SyscallEntry
found_or_new n id none = if n == id then some (new_entry n) else none
found_or_new n id (some e) = some e

find-modify :
    (n id : ℕ) (f : SyscallStat → SyscallStat) (es : List SyscallEntry)
    → find_entry id (modify_entry n (change_stat f) es)
      ≡ (if n == id then change_found f (find_entry id es) else find_entry id es)
unfolding find_entry modify_entry
find-modify n id f [] = ground arith
find-modify n id f (e ∷ es) = ground (arith, find-modify n id f es)

find-append :
    (n id : ℕ) (es : List SyscallEntry)
    → find_entry id (es ++ new_entry n ∷ []) ≡ found_or_new n id (find_entry id es)
unfolding find_entry
find-append n id [] = refl
find-append n id (e ∷ es) = ground (arith, find-append n id es)

find-close :
    (id : ℕ) (es : List SyscallEntry)
    → counted_by (find_entry id es) < 2 ^ 31
    → counted_by (find_entry id (map close_entry es)) ≡ counted_by (find_entry id es)
unfolding find_entry close_entry close_stat
find-close id [] small = refl
find-close id (e ∷ es) small = ground (arith, find-close id es)

-- A change that adds `d` to what has been counted.
abbrev Adds : (SyscallStat → SyscallStat) → ℕ → Type 0
Adds f d = (s : SyscallStat) → counted_in s + d < 2 ^ 31 → counted_in (f s) ≡ counted_in s + d

count_blocked-Adds : (task : Task) (delay_ns : ℕ) → Adds (count_blocked task delay_ns) 1
unfolding count_blocked
count_blocked-Adds task delay_ns s small = ground arith

-- A change of the entry `n`, which the list has.
modify-counted :
    (n id d : ℕ) (f : SyscallStat → SyscallStat) (es : List SyscallEntry) (e : SyscallEntry)
    → Adds f d
    → find_entry n es ≡ some e
    → counted_by (find_entry id es) + (if n == id then d else 0) < 2 ^ 31
    → counted_by (find_entry id (modify_entry n (change_stat f) es))
      ≡ counted_by (find_entry id es) + (if n == id then d else 0)
modify-counted n id d f es e adds here small =
    ap counted_by (find-modify n id f es)
    ∙ if_cases (λ o. counted_by o ≡ counted_by (find_entry id es) + (if n == id then d else 0))
        (n == id)
        (λ same.
          let found : find_entry id es ≡ some e =
            subst (λ k. find_entry k es ≡ some e) ((==_iff n id).0 same) here in
          let grown =
            adds e.stat
              (subst (λ o. counted_by o + d < 2 ^ 31) found (ground (arith, small, same))) in
          rw (found, same) grown)
        (λ other. rw other (omega arith))

-- A new entry has counted nothing.
append-counted :
    (n id : ℕ) (es : List SyscallEntry)
    → counted_by (find_entry id (es ++ new_entry n ∷ [])) ≡ counted_by (find_entry id es)
append-counted n id es =
    ap counted_by (find-append n id es) ∙ elim (Option-cases (find_entry id es)) [
      | inl e ↦ rw e (if_cases (λ o. counted_by o ≡ 0) (n == id) (λ _. refl) (λ _. refl))
      | inr (x, e) ↦ rw e refl
    ]

module _ (available : ℕ → Bool) (supported : ℕ) where
  unfoldable pub happen : Monitor → Event → Monitor
  happen m (blocked task n delay_ns) = add_blocked available supported task n delay_ns m
  happen m (switched n) = add_ctx_switch available supported n m
  happen m (aborted n) = add_aborted available supported n m
  happen m epoch = update_epoch_stats m

  unfoldable pub history : Monitor → List Event → Monitor
  history m [] = m
  history m (e ∷ es) = history (happen m e) es

module _ (available : ℕ → Bool) (enough : (n : ℕ) → available n ≡ true) (supported : ℕ) where
  record_stat-counted :
      (n id d : ℕ) (f : SyscallStat → SyscallStat) (m : Monitor)
      → id < supported
      → Adds f d
      → counted id m + (if n == id then d else 0) < 2 ^ 31
      → counted id (record_stat available supported n f m)
        ≡ counted id m + (if n == id then d else 0)
  unfolding record_stat find_or_create_entry kmalloc
  record_stat-counted n id d f m below adds small = elim (Bool-cases (leb supported n)) [
    | inl out ↦ rw out (ground (arith, out))
    | inr within ↦ elim (Option-cases (find_entry n m.syscall_list)) [
      | inl new ↦
          let grown = append-counted n id m.syscall_list in
          let here : find_entry n (m.syscall_list ++ new_entry n ∷ []) ≡ some (new_entry n) =
            find-append n n m.syscall_list ∙ rw new (ground arith) in
          rw (within, find_or_create_entry, new, enough m.heap.requests)
            (modify-counted n id d f (m.syscall_list ++ new_entry n ∷ []) (new_entry n) adds here
                (omega (arith, grown, small))
              ∙ ap (◌+ (if n == id then d else 0)) grown)
      | inr (e, here) ↦
          rw (within, find_or_create_entry, here)
            (modify-counted n id d f m.syscall_list e adds here small)
    ]
  ]

  happen-counted :
      (id : ℕ) (m : Monitor) (e : Event)
      → id < supported
      → counted id m + is_blocked id e < 2 ^ 31
      → counted id (happen available supported m e) ≡ counted id m + is_blocked id e
  unfolding happen add_blocked add_ctx_switch add_aborted update_epoch_stats count_ctx_switch
      count_aborted
  happen-counted id m (blocked task n delay_ns) below small =
      record_stat-counted n id 1 (count_blocked task delay_ns) m below
        (count_blocked-Adds task delay_ns) small
  happen-counted id m (switched n) below small =
      record_stat-counted n id 0 count_ctx_switch m below (λ s _. omega arith)
        (ground (arith, small))
      ∙ ground arith
  happen-counted id m (aborted n) below small =
      record_stat-counted n id 0 count_aborted m below (λ s _. omega arith) (ground (arith, small))
      ∙ ground arith
  happen-counted id m epoch below small =
      find-close id m.syscall_list (omega (arith, small)) ∙ omega arith

  -- No blocked call is lost: over any sequence of events on any system calls, ends of epochs
  -- included, the total of closed epochs and the count of the current one grow together by the
  -- number of calls that were blocked. The number of the call is supported, no allocation fails,
  -- and there are fewer than 2 ^ 31 blocked calls in all.
  pub history-counted :
      (id : ℕ) (m : Monitor) (es : List Event)
      → id < supported
      → counted id m + blocked_calls id es < 2 ^ 31
      → counted id (history available supported m es) ≡ counted id m + blocked_calls id es
  unfolding history
  history-counted id m [] below small = omega arith
  history-counted id m (e ∷ es) below small =
      let one = happen-counted id m e below (omega (arith, small)) in
      let rest =
        history-counted id (happen available supported m e) es below (omega (arith, one, small)) in
      omega (arith, one, rest)
