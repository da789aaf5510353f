-- ===== src/Base/Text.antt =====
-- Kernel strings as the bytes before the terminating zero.
use Prim.Native.Char.{code}
use Prim.Native.Nat.{ℕ, ◌-◌}
use Prim.Native.String.{String}
use mathlib.Core.List.{List, [], ◌∷◌}
use syscall_throttling.Base.Lists.{take}

-- TASK_COMM_LEN of the kernel, the terminating zero included.
abbrev pub task_comm_len : ℕ
task_comm_len = 16

-- `strscpy` into TASK_COMM_LEN bytes keeps one for the terminating zero.
abbrev pub strscpy : List ℕ → List ℕ
strscpy name = take (task_comm_len - 1) name

-- The bytes of a literal in ASCII.
abbrev pub codes : String → List ℕ
codes String.[] = []
codes (String.◌∷◌ c s) = code c ∷ codes s
