-- ===== src/Monitor/Report.antt =====
-- What `/proc/SYSTHROT` shows: the ring read back, the numbers of a row, and the iteration that
-- `seq_read` drives. The formatting itself (`seq_printf`) is the kernel's.
use syscall_throttling.Base.{
  ℕ, zero, suc, ◌+◌, ◌-◌, ◌/◌, ◌%◌, ◌^◌, Option, none, some, List, [], ◌∷◌, ◌==◌, if◌then◌else◌,
}
use syscall_throttling.Monitor.{SyscallEntry, Monitor, add64, ratio, history_len}

-- The index into the ring: `unsigned int` arithmetic, which wraps below 0.
abbrev pub slot_at : SyscallEntry → ℕ → ℕ
slot_at e i = (e.history_head + 2 ^ 32 - e.history_count + i + history_len) % 2 ^ 32 % history_len

unfoldable pub history_blocked_at : SyscallEntry → ℕ → ℕ
history_blocked_at e i = e.epoch_history (slot_at e i)

unfoldable pub history_time_at : SyscallEntry → ℕ → ℕ
history_time_at e i = e.epoch_time_history (slot_at e i)

-- The loop of `my_seq_show` from `i` with `n` to go.
unfoldable pub sum_window : ℕ → ℕ → SyscallEntry → ℕ → ℕ → ℕ × ℕ
sum_window zero i e sum time = (sum, time)
sum_window (suc n) i e sum time =
    sum_window n (suc i) e (add64 sum (history_blocked_at e i)) (add64 time (history_time_at e i))

-- `format_ms`: milliseconds, and hundredths of one.
unfoldable pub format_ms : ℕ → ℕ × ℕ
format_ms ns = let m = ns / 10000 in (m / 100, m % 100)

-- The row of an entry but the name of the call, which the build's table of names gives.
pub record Row : Type 0 where
  pub syscall_id : ℕ
  pub total_blocked : ℕ
  pub last_epoch_blocked : ℕ
  pub avg_epoch : ℕ
  pub mean_ms : ℕ × ℕ
  pub peak_ms : ℕ × ℕ
  pub total_aborted : ℕ
  pub avg_ctx : ℕ
  pub peak_ctx_switches : ℕ
  pub peak_delay_comm : List ℕ
  pub peak_delay_pid : ℕ
  pub peak_delay_uid : ℕ

unfoldable pub show_entry : Monitor → SyscallEntry → Row
show_entry m e =
    let (window_sum, window_time) = sum_window e.history_count 0 e 0 0 in
    record {
      syscall_id = e.syscall_id;
      total_blocked = e.stat.total_blocked;
      last_epoch_blocked = e.stat.last_epoch_blocked;
      avg_epoch = ratio window_sum e.history_count;
      mean_ms = format_ms (ratio window_time window_sum);
      peak_ms = format_ms e.stat.peak_delay_ns;
      total_aborted = e.stat.total_aborted;
      avg_ctx = ratio e.stat.sum_ctx_switches m.epoch_count;
      peak_ctx_switches = e.stat.peak_ctx_switches;
      peak_delay_comm = e.stat.peak_delay_comm;
      peak_delay_pid = e.stat.peak_delay_pid;
      peak_delay_uid = e.stat.peak_delay_uid;
    }

-- What the iterator stands on: an entry, or the `(void *)1` behind the last one.
pub data Cursor : Type 0 where
  at_entry : SyscallEntry → Cursor
  at_end : Cursor

-- The `list_for_each` of both functions with `i` entries passed; `none` is `NULL`.
unfoldable pub seek : List SyscallEntry → ℕ → ℕ → Option Cursor
seek [] i position = if i == position then some at_end else none
seek (e ∷ es) i position =
    let later = seek es (i + 1) position in if i == position then some (at_entry e) else later

unfoldable pub seq_start : Monitor → ℕ → Option Cursor
unfolding seek
seq_start m position = seek m.syscall_list 0 position

-- The new position, and what stands there.
unfoldable pub seq_next : Monitor → Cursor → ℕ → ℕ × Option Cursor
unfolding seek
seq_next m at_end position = (position + 1, none)
seq_next m (at_entry e) position = (position + 1, seek m.syscall_list 0 (position + 1))

unfoldable pub seq_show : Monitor → Cursor → List Row
seq_show m at_end = []
seq_show m (at_entry e) = show_entry m e ∷ []
