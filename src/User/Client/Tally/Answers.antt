-- ===== src/User/Client/Tally/Answers.antt =====
-- Which answers to a system call `worker_job` counts as OK and which as EAGAIN.
use syscall_throttling.Base.{
  ℕ, ◌+◌, ◌^◌, ◌<◌, ◌≡◌, refl, subst, sym, ◌⊎◌, inl, inr, false, List, [], ◌∷◌, arith,
}
use syscall_throttling.Base.Int.{ℤ, pos, negsuc}
use syscall_throttling.Base.Lists.{All}
use syscall_throttling.Throttle.{to_int, of_int, to_int-of_int}
use syscall_throttling.User.Client.Tally.{Slot, is_eagain, worker_job, work, totals}

-- What the C library's `syscall` returns for a call that the kernel answers with an `int`: the answer,
-- when it is not negative, or -1 with `errno` set.
abbrev pub IsLibc : ℤ → Type 0
IsLibc r = ((n : ℕ) × (r ≡ pos n) × (n < 2 ^ 31)) ⊎ (r ≡ negsuc 0)

small-ok : (n : ℕ) → n < 2 ^ 31 → is_eagain (to_int (of_int (pos n))) ≡ false
small-ok n small = rw (to_int-of_int n small) refl

libc-ok : (r : ℤ) → IsLibc r → is_eagain (to_int (of_int r)) ≡ false
libc-ok r (inl (n, e, small)) =
    subst (λ q. is_eagain (to_int (of_int q)) ≡ false) (sym e) (small-ok n small)
libc-ok r (inr e) = subst (λ q. is_eagain (to_int (of_int q)) ≡ false) (sym e) refl

-- A thread whose call the kernel refused with -EAGAIN, which is -1 from the C library, is counted as
-- OK, as every other: `worker_job` looks for -EAGAIN.
pub work-never_eagain :
    (results : List ℤ) (all : List Slot)
    → All IsLibc results
    → All (λ s. s.eagain ≡ 0) all
    → (totals (work results all)).1 ≡ 0
unfolding work totals worker_job
work-never_eagain [] all libc none_yet = refl
work-never_eagain (r ∷ results) [] libc none_yet = refl
work-never_eagain (r ∷ results) (s ∷ all) (libc, rest) (none_yet, later) =
    rw (libc-ok r libc) (omega (arith, none_yet, work-never_eagain results all rest later))

-- But the number 2^32 - 11, which a refused call gives when the trampoline passes on -EAGAIN in the
-- lower half of `rax` alone, is counted as EAGAIN.
pub worker_job-unsigned : (s : Slot) → (worker_job (pos 4294967285) s).eagain ≡ s.eagain + 1
unfolding worker_job
worker_job-unsigned s = refl
