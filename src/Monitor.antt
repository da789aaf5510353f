-- ===== src/Monitor.antt =====
-- sysThrot_statmonitor.c: the statistics of each throttled system call, kept in a list of entries
-- under `stats_lock`, so an operation is one step. An entry stands for the pointer to it: the code
-- looks an entry up by its number.
pub mod Window
pub mod Totals
pub mod Iteration
pub mod Entries
mod Tests
pub mod Report
use syscall_throttling.Base.{
  ℕ, ◌+◌, ◌-◌, ◌/◌, ◌%◌, ◌^◌, max, Bool, true, false, Option, none, some, List, [], ◌∷◌, ◌++◌, map,
  ◌==◌, ltb, leb, if◌then◌else◌, update,
}
use syscall_throttling.Base.Int.{ℤ}
use syscall_throttling.Base.Code.{success, enomem}
use syscall_throttling.Base.Heap.{Heap, kmalloc, kfree}
use syscall_throttling.Base.Text.{strscpy}

abbrev pub history_len : ℕ
history_len = 20

-- `unsigned long` and `unsigned int` addition.
abbrev pub add64 : ℕ → ℕ → ℕ
add64 a b = (a + b) % 2 ^ 64

abbrev pub add32 : ℕ → ℕ → ℕ
add32 a b = (a + b) % 2 ^ 32

-- An `int`, as its 32-bit pattern, converted to `unsigned long`.
abbrev pub widen : ℕ → ℕ
widen w = if ltb w (2 ^ 31) then w else w + 2 ^ 64 - 2 ^ 32

-- The thread that calls: `current`.
pub record Task : Type 0 where
  pub pid : ℕ
  pub uid : ℕ
  pub comm : List ℕ

-- `struct syscall_stat`; the two atomic counters are 32-bit patterns.
pub record SyscallStat : Type 0 where
  pub current_blocked : ℕ
  pub current_time_blocked : ℕ
  pub total_blocked : ℕ
  pub total_aborted : ℕ
  pub last_epoch_blocked : ℕ
  pub last_epoch_mean_delay_ns : ℕ
  pub current_ctx_switches : ℕ
  pub sum_ctx_switches : ℕ
  pub peak_ctx_switches : ℕ
  pub peak_delay_ns : ℕ
  pub peak_delay_pid : ℕ
  pub peak_delay_uid : ℕ
  pub peak_delay_comm : List ℕ

pub record SyscallEntry : Type 0 where
  pub syscall_id : ℕ
  pub stat : SyscallStat
  pub epoch_history : ℕ → ℕ
  pub epoch_time_history : ℕ → ℕ
  pub history_head : ℕ
  pub history_count : ℕ

pub record Monitor : Type 0 where
  pub syscall_list : List SyscallEntry
  pub epoch_count : ℕ
  pub heap : Heap

abbrev pub no_stat : SyscallStat
no_stat = record {
  current_blocked = 0;
  current_time_blocked = 0;
  total_blocked = 0;
  total_aborted = 0;
  last_epoch_blocked = 0;
  last_epoch_mean_delay_ns = 0;
  current_ctx_switches = 0;
  sum_ctx_switches = 0;
  peak_ctx_switches = 0;
  peak_delay_ns = 0;
  peak_delay_pid = 0;
  peak_delay_uid = 0;
  peak_delay_comm = [];
}

abbrev pub new_entry : ℕ → SyscallEntry
new_entry id = record {
  syscall_id = id;
  stat = no_stat;
  epoch_history = λ _. 0;
  epoch_time_history = λ _. 0;
  history_head = 0;
  history_count = 0;
}

unfoldable pub find_entry : ℕ → List SyscallEntry → Option SyscallEntry
find_entry id [] = none
find_entry id (e ∷ es) = if e.syscall_id == id then some e else find_entry id es

-- A write through the pointer that `find_entry_locked` returns.
unfoldable pub modify_entry :
    ℕ → (SyscallEntry → SyscallEntry) → List SyscallEntry → List SyscallEntry
modify_entry id f [] = []
modify_entry id f (e ∷ es) = if e.syscall_id == id then f e ∷ es else e ∷ modify_entry id f es

abbrev pub change_stat : (SyscallStat → SyscallStat) → SyscallEntry → SyscallEntry
change_stat f e = record e { stat = f e.stat }

-- What `sysThrot_add_blocked` does to the entry of the call.
unfoldable pub count_blocked : Task → ℕ → SyscallStat → SyscallStat
count_blocked task delay_ns s =
    let counted = record s {
      current_blocked = add32 s.current_blocked 1;
      current_time_blocked = add64 s.current_time_blocked delay_ns;
    } in
    if ltb s.peak_delay_ns delay_ns
    then record counted {
      peak_delay_ns = delay_ns;
      peak_delay_pid = task.pid;
      peak_delay_uid = task.uid;
      peak_delay_comm = strscpy task.comm;
    }
    else counted

unfoldable pub count_ctx_switch : SyscallStat → SyscallStat
count_ctx_switch s = record s { current_ctx_switches = add32 s.current_ctx_switches 1 }

unfoldable pub count_aborted : SyscallStat → SyscallStat
count_aborted s = record s { total_aborted = add64 s.total_aborted 1 }

-- `available` says which allocations succeed; `supported` is SUPPORTED_SYSCALLS, which the build
-- generates.
module _ (available : ℕ → Bool) (supported : ℕ) where
  -- The test `entry` afterwards, and the list.
  unfoldable pub find_or_create_entry : ℕ → Monitor → Bool × Monitor
  find_or_create_entry id m = elim (find_entry id m.syscall_list) [
    | some e ↦ (true, m)
    | none ↦
        let (got, h) = kmalloc available m.heap in
        if got
        then (true, record m { syscall_list = m.syscall_list ++ new_entry id ∷ []; heap = h })
        else (false, record m { heap = h })
  ]

  -- The guard, the look-up and the write that the three `sysThrot_add_…` functions share.
  unfoldable pub record_stat : ℕ → (SyscallStat → SyscallStat) → Monitor → Monitor
  record_stat id f m =
      let (found, m') = find_or_create_entry id m in
      if leb supported id
      then m
      else if found
      then record m' { syscall_list = modify_entry id (change_stat f) m'.syscall_list }
      else m'

  unfoldable pub add_blocked : Task → ℕ → ℕ → Monitor → Monitor
  add_blocked task id delay_ns = record_stat id (count_blocked task delay_ns)

  unfoldable pub add_ctx_switch : ℕ → Monitor → Monitor
  add_ctx_switch id = record_stat id count_ctx_switch

  unfoldable pub add_aborted : ℕ → Monitor → Monitor
  add_aborted id = record_stat id count_aborted

-- `n ? a / n : 0`
abbrev pub ratio : ℕ → ℕ → ℕ
ratio a n = if n == 0 then 0 else a / n

-- The body of the loop of `update_epoch_stats`, on the statistics: the blocked calls of the epoch
-- are `widen s.current_blocked`.
unfoldable pub close_stat : SyscallStat → SyscallStat
close_stat s =
    let blocked = widen s.current_blocked in
    let ctx = widen s.current_ctx_switches in
    record s {
      current_blocked = 0;
      current_time_blocked = 0;
      last_epoch_blocked = blocked;
      last_epoch_mean_delay_ns = ratio s.current_time_blocked blocked;
      total_blocked = add64 s.total_blocked blocked;
      current_ctx_switches = 0;
      sum_ctx_switches = add64 s.sum_ctx_switches ctx;
      peak_ctx_switches = max s.peak_ctx_switches ctx;
    }

-- And on the whole entry, with the push into the ring.
unfoldable pub close_entry : SyscallEntry → SyscallEntry
close_entry e = record e {
  stat = close_stat e.stat;
  epoch_history = update e.epoch_history e.history_head (widen e.stat.current_blocked);
  epoch_time_history = update e.epoch_time_history e.history_head e.stat.current_time_blocked;
  history_head = add32 e.history_head 1 % history_len;
  history_count = if ltb e.history_count history_len then e.history_count + 1 else e.history_count;
}

unfoldable pub update_epoch_stats : Monitor → Monitor
update_epoch_stats m = record m {
  epoch_count = add64 m.epoch_count 1;
  syscall_list = map close_entry m.syscall_list;
}

-- `created` says whether `proc_create` gave an entry.
unfoldable pub statmonitor_init : Bool → Monitor → ℤ × Monitor
statmonitor_init created m = (if created then success else enomem, record m { epoch_count = 0 })

-- The loop of `sysThrot_statmonitor_exit`.
unfoldable pub free_entries : List SyscallEntry → Heap → Heap
free_entries [] h = h
free_entries (e ∷ es) h = free_entries es (kfree h)

unfoldable pub statmonitor_exit : Monitor → Monitor
unfolding free_entries
statmonitor_exit m = record m { syscall_list = []; heap = free_entries m.syscall_list m.heap }
