-- ===== src/Log/Tests.antt =====
-- The log on concrete messages.
use syscall_throttling.Base.{ℕ, ◌-◌, ◌≡◌, refl, List, [], ◌∷◌, map}
use syscall_throttling.Base.Lists.{take}
use syscall_throttling.Base.Text.{codes}
use syscall_throttling.Log.{logs, log, sys_throt_log}
use syscall_throttling.Log.Lines.{Level, core, queue, numbered}

-- A `vsnprintf` that cuts the text.
abbrev cut : ℕ → List ℕ → List ℕ
cut size text = take (size - 1) text

abbrev messages : List (Level × List ℕ)
messages = (core, codes "loaded") ∷ (queue, codes "woken") ∷ (core, codes "unloaded") ∷ []

-- A message of the queue is not kept.
two_kept :
    logs cut (map numbered messages) (codes "boot" ∷ [])
    ≡ codes "boot" ∷ codes "loaded" ∷ codes "unloaded" ∷ []
unfolding logs log sys_throt_log
two_kept = refl
