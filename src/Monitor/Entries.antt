-- ===== src/Monitor/Entries.antt =====
-- The list of entries over any sequence of events.
use syscall_throttling.Base.{
  ℕ, suc, ◌+◌, ◌≡◌, refl, ap, subst, sym, inl, inr, Bool, false, Option, none, List, [], ◌∷◌, ◌++◌,
  map, ◌==◌, leb, if_cases, Bool-cases, Option-cases, arith,
}
use syscall_throttling.Base.Heap.{Heap, kmalloc, kfree}
use syscall_throttling.Base.Lists.{All, length, length-append}
use syscall_throttling.Monitor.{
  SyscallStat, SyscallEntry, Monitor, new_entry, find_entry, modify_entry, change_stat,
  find_or_create_entry, record_stat, add_blocked, add_ctx_switch, add_aborted, close_entry,
  update_epoch_stats, free_entries, statmonitor_exit,
}
use syscall_throttling.Monitor.Window.{IsRing}
use syscall_throttling.Monitor.Totals.{Event, blocked, switched, aborted, epoch, happen, history}

-- The numbers of the entries.
abbrev pub numbers : List SyscallEntry → List ℕ
numbers = map (λ e. e.syscall_id)

abbrev pub AreApart : List ℕ → Type 0
AreApart [] = Unit
AreApart (n ∷ ns) = All (λ k. (k == n) ≡ false) ns × AreApart ns

-- The numbers are supported and no two entries have the same, the rings are in their bounds.
pub record IsWell (supported : ℕ) (es : List SyscallEntry) : Type 0 where
  pub below : All (λ n. (leb supported n) ≡ false) (numbers es)
  pub apart : AreApart (numbers es)
  pub rings : All IsRing es

All-snoc :
    {A : Type 0} → (P : A → Type 0) (xs : List A) (a : A) → All P xs → P a → All P (xs ++ (a ∷ []))
All-snoc P [] a all here = (here, tt)
All-snoc P (x ∷ xs) a (first, all) here = (first, All-snoc P xs a all here)

AreApart-snoc :
    (ns : List ℕ) (n : ℕ) → AreApart ns → All (λ k. (k == n) ≡ false) ns → AreApart (ns ++ (n ∷ []))
AreApart-snoc [] n apart new = (tt, tt)
AreApart-snoc (m ∷ ns) n (here, apart) (other, new) = (
  All-snoc (λ k. (k == m) ≡ false) ns n here (ground (arith, other)),
  AreApart-snoc ns n apart new,
)

-- An entry that is not found is not there.
find_entry-none :
    (id : ℕ) (es : List SyscallEntry)
    → find_entry id es ≡ none
    → All (λ k. (k == id) ≡ false) (numbers es)
unfolding find_entry
find_entry-none id [] = λ lost. tt
find_entry-none id (e ∷ es) =
    if_cases
      (λ (r : Option SyscallEntry). r ≡ none → All (λ k. (k == id) ≡ false) (numbers (e ∷ es)))
      (e.syscall_id == id) (λ _ lost. cc) (λ other lost. (other, find_entry-none id es lost))

numbers-snoc :
    (es : List SyscallEntry) (e : SyscallEntry)
    → numbers (es ++ e ∷ []) ≡ numbers es ++ (e.syscall_id ∷ [])
numbers-snoc [] e = refl
numbers-snoc (x ∷ es) e = ap (λ ns. x.syscall_id ∷ ns) (numbers-snoc es e)

modify-numbers :
    (id : ℕ) (f : SyscallStat → SyscallStat) (es : List SyscallEntry)
    → (numbers (modify_entry id (change_stat f) es) ≡ numbers es)
      × (length (modify_entry id (change_stat f) es) ≡ length es)
      × (All IsRing es → All IsRing (modify_entry id (change_stat f) es))
unfolding modify_entry
modify-numbers id f [] = (refl, refl, λ all. all)
modify-numbers id f (e ∷ es) =
    let (same, long, rings) = modify-numbers id f es in
    if_cases
      (λ (r : List SyscallEntry).
        (numbers r ≡ numbers (e ∷ es))
        × (length r ≡ length (e ∷ es))
        × (All IsRing (e ∷ es) → All IsRing r))
      (e.syscall_id == id)
      (λ _. (
        refl,
        refl,
        λ (ring, all). (record { head_in = ring.head_in; count_in = ring.count_in }, all),
      ))
      (λ _. (ap (λ ns. e.syscall_id ∷ ns) same, ap suc long, λ (ring, all). (ring, rings all)))

close_entry-IsRing : (e : SyscallEntry) → IsRing e → IsRing (close_entry e)
unfolding close_entry
close_entry-IsRing e v = record { head_in = omega arith; count_in = ground (arith, v.count_in) }

close-numbers :
    (es : List SyscallEntry)
    → (numbers (map close_entry es) ≡ numbers es)
      × (length (map close_entry es) ≡ length es)
      × (All IsRing es → All IsRing (map close_entry es))
unfolding close_entry
close-numbers [] = (refl, refl, λ all. all)
close-numbers (e ∷ es) =
    let (same, long, rings) = close-numbers es in
    (
      ap (λ ns. e.syscall_id ∷ ns) same,
      ap suc long,
      λ (ring, all). (close_entry-IsRing e ring, rings all),
    )

-- As many objects have been handed out and not freed as before, beside those of the entries.
abbrev pub Owns : Monitor → Monitor → Type 0
Owns m m' =
    m'.heap.allocated + m.heap.freed + length m.syscall_list
    ≡ m.heap.allocated + m'.heap.freed + length m'.syscall_list

module _ (available : ℕ → Bool) (supported : ℕ) where
  abbrev Keeps : Monitor → Monitor → Type 0
  Keeps m m' = IsWell supported m'.syscall_list × Owns m m'

  appended :
      (id : ℕ) (m : Monitor)
      → find_entry id m.syscall_list ≡ none
      → (leb supported id) ≡ false
      → IsWell supported m.syscall_list
      → IsWell supported (m.syscall_list ++ new_entry id ∷ [])
  appended id m lost small v =
      let same = numbers-snoc m.syscall_list (new_entry id) in
      record {
        below =
            subst (All (λ n. (leb supported n) ≡ false)) (sym same)
              (All-snoc (λ n. (leb supported n) ≡ false) (numbers m.syscall_list) id v.below small);
        apart = subst AreApart (sym same) (
            AreApart-snoc (numbers m.syscall_list) id v.apart
              (find_entry-none id m.syscall_list lost));
        rings =
            All-snoc IsRing m.syscall_list (new_entry id) v.rings
              (record { head_in = omega arith; count_in = omega arith });
      }

  find_or_create-Keeps :
      (id : ℕ) (m : Monitor)
      → (leb supported id) ≡ false
      → IsWell supported m.syscall_list
      → Keeps m (find_or_create_entry available supported id m).1
  unfolding find_or_create_entry kmalloc
  find_or_create-Keeps id m small v =
      let added = length-append m.syscall_list (new_entry id ∷ []) in
      elim (Option-cases (find_entry id m.syscall_list)) [
        | inr (e, here) ↦ rw (find_or_create_entry, here) (v, omega arith)
        | inl lost ↦ elim (Bool-cases (available m.heap.requests)) [
          | inl got ↦
              rw (find_or_create_entry, lost, kmalloc, got)
                (appended id m lost small v, omega (arith, added))
          | inr refused ↦ rw (find_or_create_entry, lost, kmalloc, refused) (v, omega arith)
        ]
      ]

  modify-Keeps :
      (id : ℕ) (f : SyscallStat → SyscallStat) (m m1 : Monitor)
      → Keeps m m1
      → Keeps m (record m1 { syscall_list = modify_entry id (change_stat f) m1.syscall_list })
  modify-Keeps id f m m1 (v, owns) =
      let (same, long, rings) = modify-numbers id f m1.syscall_list in
      (
        record {
          below = subst (All (λ n. (leb supported n) ≡ false)) (sym same) v.below;
          apart = subst AreApart (sym same) v.apart;
          rings = rings v.rings;
        },
        omega (arith, owns, long),
      )

  record_stat-Keeps :
      (id : ℕ) (f : SyscallStat → SyscallStat) (m : Monitor)
      → IsWell supported m.syscall_list
      → Keeps m (record_stat available supported id f m)
  unfolding record_stat
  record_stat-Keeps id f m v =
      if_cases (Keeps m) (leb supported id) (λ _. (v, omega arith))
        (λ small.
          let created = find_or_create_entry available supported id m in
          let kept = find_or_create-Keeps id m small v in
          if_cases (Keeps m) created.0 (λ _. modify-Keeps id f m created.1 kept) (λ _. kept))

  happen-Keeps :
      (m : Monitor) (e : Event)
      → IsWell supported m.syscall_list
      → Keeps m (happen available supported m e)
  unfolding happen add_blocked add_ctx_switch add_aborted update_epoch_stats
  happen-Keeps m (blocked task n delay_ns) v = record_stat-Keeps n _ m v
  happen-Keeps m (switched n) v = record_stat-Keeps n _ m v
  happen-Keeps m (aborted n) v = record_stat-Keeps n _ m v
  happen-Keeps m epoch v =
      let (same, long, rings) = close-numbers m.syscall_list in
      (
        record {
          below = subst (All (λ n. (leb supported n) ≡ false)) (sym same) v.below;
          apart = subst AreApart (sym same) v.apart;
          rings = rings v.rings;
        },
        omega (arith, long),
      )

  free_entries-frees :
      (es : List SyscallEntry) (h : Heap)
      → ((free_entries es h).allocated ≡ h.allocated)
        × ((free_entries es h).freed ≡ h.freed + length es)
  unfolding free_entries kfree
  free_entries-frees [] h = (refl, omega arith)
  free_entries-frees (e ∷ es) h =
      let (same, more) = free_entries-frees es (kfree h) in (same, omega (arith, more))

  history-Keeps :
      (m : Monitor) (es : List Event)
      → IsWell supported m.syscall_list
      → Keeps m (history available supported m es)
  unfolding history
  history-Keeps m [] v = (v, omega arith)
  history-Keeps m (e ∷ es) v =
      let (v1, owns) = happen-Keeps m e v in
      let (v2, owns2) = history-Keeps (happen available supported m e) es v1 in
      (v2, omega (arith, owns, owns2))

  -- Over any sequence of events, whichever allocations fail, no two entries have the same number, the
  -- numbers are supported, and the rings stay in their bounds. When the statistics are ended after
  -- that, no entry is left, and the objects handed out and not freed are fewer than at the start by
  -- the entries of the start.
  pub history-IsWell :
      (m : Monitor) (es : List Event)
      → IsWell supported m.syscall_list
      → let m1 = history available supported m es in
        let m2 = statmonitor_exit m1 in
        IsWell supported m1.syscall_list
        × (m2.syscall_list ≡ [])
        × (m2.heap.allocated + m.heap.freed + length m.syscall_list
            ≡ m.heap.allocated + m2.heap.freed)
  unfolding statmonitor_exit
  history-IsWell m es v =
      let m1 = history available supported m es in
      let (v1, owns) = history-Keeps m es v in
      (v1, refl, omega (arith, owns, free_entries-frees m1.syscall_list m1.heap))
