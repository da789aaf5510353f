-- ===== src/Throttle/Counting.antt =====
-- The counter of tokens, an `int` that every call of a registered thread decrements.
use syscall_throttling.Base.{
  ℕ, ◌+◌, ◌%◌, ◌^◌, ◌≤◌, ◌<◌, ◌≡◌, refl, min, Bool, true, false, ltb, if◌then◌else◌, arith,
}
use syscall_throttling.Throttle.{Driver, dec32}
use syscall_throttling.Throttle.Events.{one_if}

-- The tokens that can still be handed out.
abbrev pub tokens_left : Driver → ℕ
tokens_left d = if ltb d.current_epoch_tokens (2 ^ 31) then d.current_epoch_tokens else 0

-- How many more decrements the counter takes before it wraps round.
abbrev pub room : Driver → ℕ
room d = (d.current_epoch_tokens + 2 ^ 31) % 2 ^ 32

-- The counter after a call.
abbrev pub spend : Bool → ℕ → ℕ
spend registered t = if registered then dec32 t else t

pub count-room :
    (t t' a : ℕ) (registered : Bool)
    → t < 2 ^ 32
    → t' ≡ spend registered t
    → one_if registered + a ≤ (t + 2 ^ 31) % 2 ^ 32
    → (t' < 2 ^ 32) × (a ≤ (t' + 2 ^ 31) % 2 ^ 32)
count-room t t' a true fits e small = (omega arith, omega arith)
count-room t t' a false fits e small = (omega arith, omega arith)

pub count-call :
    (t t' a n : ℕ) (registered admitted : Bool)
    → t < 2 ^ 32
    → t' ≡ spend registered t
    → (registered ≡ true → admitted ≡ ltb (dec32 t) (2 ^ 31))
    → one_if registered + a ≤ (t + 2 ^ 31) % 2 ^ 32
    → n ≡ min a (if ltb t' (2 ^ 31) then t' else 0)
    → (if registered then one_if admitted else 0) + n
      ≡ min (one_if registered + a) (if ltb t (2 ^ 31) then t else 0)
count-call t t' a n true admitted fits e h small m = ground (arith, h refl)
count-call t t' a n false admitted fits e h small m = ground arith
