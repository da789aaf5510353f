-- ===== src/Log/Lines.antt =====
-- Which messages reach the kernel's log.
use mathlib.Core.List.{append-nil, append_assoc}
use syscall_throttling.Base.{
  ℕ, ◌≡◌, refl, ap, sym, ◌∙◌, Bool, true, false, List, [], ◌∷◌, ◌++◌, map, if◌then◌else◌,
}
use syscall_throttling.Log.{
  log_core, log_ioctl, log_admin_commands, log_stats, log_stub, log_check_if_limited, log_store,
  log_queue, kfmt_size, sys_throt_log, log, logs,
}

-- The levels of the module's messages.
pub data Level : Type 0 where
  core ioctl admin_commands stats stub check_if_limited store queue : Level

abbrev pub number : Level → ℕ
number core = log_core
number ioctl = log_ioctl
number admin_commands = log_admin_commands
number stats = log_stats
number stub = log_stub
number check_if_limited = log_check_if_limited
number store = log_store
number queue = log_queue

-- Those of the hot path are left out.
abbrev pub is_kept : Level → Bool
is_kept stub = false
is_kept check_if_limited = false
is_kept queue = false
is_kept _ = true

abbrev pub numbered : Level × List ℕ → ℕ × List ℕ
numbered (level, text) = (number level, text)

module _ (vsnprintf : ℕ → List ℕ → List ℕ) where
  -- The lines that messages should give.
  unfoldable pub kept : List (Level × List ℕ) → List (List ℕ)
  kept [] = []
  kept ((level, text) ∷ rest) =
      let later = kept rest in if is_kept level then vsnprintf kfmt_size text ∷ later else later

  log-number :
      (level : Level) (text : List ℕ) (lines : List (List ℕ))
      → log vsnprintf (number level) text lines
        ≡ (if is_kept level then lines ++ (vsnprintf kfmt_size text ∷ []) else lines)
  unfolding log sys_throt_log
  log-number core text lines = refl
  log-number ioctl text lines = refl
  log-number admin_commands text lines = refl
  log-number stats text lines = refl
  log-number stub text lines = refl
  log-number check_if_limited text lines = refl
  log-number store text lines = refl
  log-number queue text lines = refl

  kept_from :
      (is_on : Bool) (line : List ℕ) (lines later : List (List ℕ))
      → (if is_on then lines ++ (line ∷ []) else lines) ++ later
        ≡ lines ++ (if is_on then line ∷ later else later)
  kept_from true line lines later = append_assoc lines (line ∷ []) later
  kept_from false line lines later = refl

  -- Whatever messages the module makes, just those of the levels that are kept reach the log, in order
  -- and behind the lines that are there.
  pub logs-number :
      (messages : List (Level × List ℕ)) (lines : List (List ℕ))
      → logs vsnprintf (map numbered messages) lines ≡ lines ++ kept messages
  unfolding logs kept
  logs-number [] lines = sym (append-nil lines)
  logs-number ((level, text) ∷ rest) lines =
      ap (logs vsnprintf (map numbered rest)) (log-number level text lines)
      ∙ logs-number rest (if is_kept level then lines ++ (vsnprintf kfmt_size text ∷ []) else lines)
      ∙ kept_from (is_kept level) (vsnprintf kfmt_size text) lines (kept rest)
