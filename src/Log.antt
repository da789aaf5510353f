-- ===== src/Log.antt =====
-- sysThrot_log.c and the macro `LOG` of lib/sysThrot.h: the module's messages to the kernel's log.
pub mod Lines
mod Tests
use Prim.Native.Nat.{bit_and, bit_or}
use syscall_throttling.Base.{ℕ, not, List, [], ◌∷◌, ◌++◌, ◌==◌, if◌then◌else◌}

-- The levels.
abbrev pub log_core : ℕ
log_core = 1

abbrev pub log_ioctl : ℕ
log_ioctl = 2

abbrev pub log_admin_commands : ℕ
log_admin_commands = 4

abbrev pub log_stats : ℕ
log_stats = 16

abbrev pub log_stub : ℕ
log_stub = 32

abbrev pub log_check_if_limited : ℕ
log_check_if_limited = 64

abbrev pub log_store : ℕ
log_store = 128

abbrev pub log_queue : ℕ
log_queue = 256

abbrev pub log_level : ℕ
log_level =
    bit_or (bit_or (bit_or (bit_or log_core log_store) log_ioctl) log_admin_commands) log_stats

-- The size of `kfmt`.
abbrev pub kfmt_size : ℕ
kfmt_size = 256

-- `vsnprintf` gives what is in the buffer of the size, for a message that is all of the text.
module _ (vsnprintf : ℕ → List ℕ → List ℕ) where
  -- `printk` puts a line behind the others.
  unfoldable pub sys_throt_log : List ℕ → List (List ℕ) → List (List ℕ)
  sys_throt_log text lines = lines ++ (vsnprintf kfmt_size text ∷ [])

  unfoldable pub log : ℕ → List ℕ → List (List ℕ) → List (List ℕ)
  log level text lines =
      if not (bit_and log_level level == 0) then sys_throt_log text lines else lines

  -- Messages in order, each with its level.
  unfoldable pub logs : List (ℕ × List ℕ) → List (List ℕ) → List (List ℕ)
  logs [] lines = lines
  logs ((level, text) ∷ rest) lines = logs rest (log level text lines)
