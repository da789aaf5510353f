-- ===== src/Monitor/Tests.antt =====
-- The statistics on concrete inputs.
use syscall_throttling.Base.{ℕ, ◌+◌, ◌<◌, ◌^◌, Bool, true, List, map, ◌≡◌, refl, [], ◌∷◌, arith}
use syscall_throttling.Base.Heap.{fresh_heap}
use syscall_throttling.Monitor.{
  Task, find_entry, SyscallEntry, Monitor, no_stat, new_entry, widen, close_entry, statmonitor_exit,
}
use syscall_throttling.Monitor.Report.{show_entry, seq_start, history_blocked_at}
use syscall_throttling.Base.Lists.{length}
use syscall_throttling.Monitor.Iteration.{read_from, read_from-all}
use syscall_throttling.Monitor.Entries.{IsWell, history-IsWell}
use syscall_throttling.Monitor.Totals.{
  Event, blocked, switched, aborted, epoch, counted, blocked_calls, history, history-counted,
}
use syscall_throttling.Monitor.Window.{
  IsRing, blocked_window, time_window, push_window, Shows, close_entry-blocked_window,
  show-close_entry,
}

-- Seven calls blocked in this epoch, and a full ring whose head is at 3.
abbrev busy_entry : SyscallEntry
busy_entry = record (new_entry 39) {
  stat = record no_stat { current_blocked = 7; current_time_blocked = 91000000 };
  epoch_history = λ i. i;
  history_head = 3;
  history_count = 20;
}

busy_entry-IsRing : IsRing busy_entry
busy_entry-IsRing = record { head_in = omega arith; count_in = omega arith }

abbrev one_call : Monitor
one_call = record { syscall_list = busy_entry ∷ []; epoch_count = 30; heap = fresh_heap }

close_entry-blocked_window_example :
    blocked_window (close_entry busy_entry)
    ≡ push_window (widen busy_entry.stat.current_blocked) (blocked_window busy_entry)
close_entry-blocked_window_example = close_entry-blocked_window busy_entry busy_entry-IsRing

show-close_entry_example :
    Shows
      (widen busy_entry.stat.current_blocked)
      (push_window (widen busy_entry.stat.current_blocked) (blocked_window busy_entry))
      (push_window busy_entry.stat.current_time_blocked (time_window busy_entry))
      (show_entry one_call (close_entry busy_entry))
show-close_entry_example = show-close_entry one_call busy_entry busy_entry-IsRing

-- The oldest epoch, in slot 3, gives way to the new one.
window_after :
    blocked_window (close_entry busy_entry)
    ≡ 4 ∷ 5 ∷ 6 ∷ 7 ∷ 8 ∷ 9 ∷ 10 ∷ 11 ∷ 12 ∷ 13 ∷ 14 ∷ 15 ∷ 16 ∷ 17 ∷ 18 ∷ 19 ∷ 0 ∷ 1 ∷ 2 ∷ 7 ∷ []
unfolding close_entry history_blocked_at
window_after = refl

abbrev always : ℕ → Bool
always n = true

abbrev shell : Task
shell = record { pid = 100; uid = 1000; comm = 115 ∷ 104 ∷ [] }

abbrev day : List Event
day =
    blocked shell 39 500
    ∷ switched 39
    ∷ epoch
    ∷ blocked shell 1 70
    ∷ blocked shell 39 900
    ∷ aborted 39
    ∷ []

seven_and_two : counted 39 one_call + blocked_calls 39 day < 2 ^ 31
unfolding find_entry
seven_and_two = omega arith

history-counted_example :
    counted 39 (history always 300 one_call day) ≡ counted 39 one_call + blocked_calls 39 day
history-counted_example =
    history-counted always (λ n. refl) 300 39 one_call day (omega arith) seven_and_two

fits_two : length one_call.syscall_list < 2
fits_two = omega arith

read_from-all_example :
    read_from 2 one_call 0 (seq_start one_call 0) ≡ map (show_entry one_call) one_call.syscall_list
read_from-all_example = read_from-all one_call 2 fits_two

one_call-IsWell : IsWell 300 one_call.syscall_list
one_call-IsWell = record { below = (refl, tt); apart = (tt, tt); rings = (busy_entry-IsRing, tt) }

history-IsWell_example :
    IsWell 300 (history always 300 one_call day).syscall_list
    × ((statmonitor_exit (history always 300 one_call day)).syscall_list ≡ [])
    × ((statmonitor_exit (history always 300 one_call day)).heap.allocated
          + one_call.heap.freed
          + length one_call.syscall_list
        ≡ one_call.heap.allocated + (statmonitor_exit (history always 300 one_call day)).heap.freed)
history-IsWell_example = history-IsWell always 300 one_call day one_call-IsWell
