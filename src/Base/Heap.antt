-- ===== src/Base/Heap.antt =====
-- The kernel's allocator, seen from its callers: how many requests were made, how many objects
-- were handed out, and how many were given back. Which requests succeed is a parameter.
use Prim.Native.Nat.{ℕ, ◌+◌}
use mathlib.Core.Path.{◌≡◌}
use mathlib.Core.Bool.{Bool, true, false}
use syscall_throttling.Base.Tests.{if◌then◌else◌}

pub record Heap : Type 0 where
  pub requests : ℕ
  pub allocated : ℕ
  pub freed : ℕ

abbrev pub fresh_heap : Heap
fresh_heap = record { requests = 0; allocated = 0; freed = 0 }

unfoldable pub kfree : Heap → Heap
kfree h = record h { freed = h.freed + 1 }

-- `available n` says whether the n-th request succeeds.
module _ (available : ℕ → Bool) where
  unfoldable pub kmalloc : Heap → Bool × Heap
  kmalloc h =
      if available h.requests
      then (true, record h { requests = h.requests + 1; allocated = h.allocated + 1 })
      else (false, record h { requests = h.requests + 1 })

-- Going from `h` with `held` objects to `h'` with `held'` loses and invents none.
abbrev pub IsBalanced : Heap → ℕ → Heap → ℕ → Type 0
IsBalanced h held h' held' = h'.allocated + h.freed + held ≡ h.allocated + h'.freed + held'
