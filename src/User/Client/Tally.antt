-- ===== src/User/Client/Tally.antt =====
-- user/client.c: the slots of the threads, what a thread does with its one system call, and the sums
-- that are printed at the end.
pub mod Sums
pub mod Answers
use syscall_throttling.Base.{
  ℕ, zero, suc, ◌+◌, ◌%◌, Bool, false, List, [], ◌∷◌, ◌==◌, if◌then◌else◌, arith,
}
use syscall_throttling.Base.Int.{ℤ, pos, negsuc}
use syscall_throttling.Throttle.{to_int, of_int}

pub record Slot : Type 0 where
  pub syscall_nr : ℕ
  pub comm : List ℕ
  pub ok : ℕ
  pub eagain : ℕ

-- The arrays `nr` and `programs`, with their lengths.
module _ (nr : ℕ → ℕ) (nsys : ℕ) (programs : ℕ → List ℕ) (nprog : ℕ) where
  abbrev pub slot : ℕ → Slot
  slot i = record { syscall_nr = nr (i % nsys); comm = programs (i % nprog); ok = 0; eagain = 0 }

  -- `n` slots from the i-th on.
  unfoldable pub slots : ℕ → ℕ → List Slot
  slots i zero = []
  slots i (suc n) = slot i ∷ slots (suc i) n

-- `r == -EAGAIN`
abbrev pub is_eagain : ℤ → Bool
is_eagain (pos n) = false
is_eagain (negsuc n) = n == 10

-- `worker_job`, for a call that returned `r`: the `long` that `syscall` returns is kept as an `int`.
unfoldable pub worker_job : ℤ → Slot → Slot
worker_job r s =
    if is_eagain (to_int (of_int r))
    then record s { eagain = s.eagain + 1 }
    else record s { ok = s.ok + 1 }

-- The slots of the threads that were spawned, after these; each thread has a slot of its own.
unfoldable pub work : List ℤ → List Slot → List Slot
work [] slots = []
work (r ∷ rs) [] = []
work (r ∷ rs) (s ∷ slots) = worker_job r s ∷ work rs slots

-- `tot_ok` and `tot_eg`.
unfoldable pub totals : List Slot → ℕ × ℕ
totals [] = (0, 0)
totals (s ∷ slots) = let (ok, eagain) = totals slots in (s.ok + ok, s.eagain + eagain)

-- `ok` and `eg` for one system call.
unfoldable pub per_syscall : ℕ → List Slot → ℕ × ℕ
per_syscall nr [] = (0, 0)
per_syscall nr (s ∷ slots) =
    let (ok, eagain) = per_syscall nr slots in
    if s.syscall_nr == nr then (s.ok + ok, s.eagain + eagain) else (ok, eagain)
