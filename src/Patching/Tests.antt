-- ===== src/Patching/Tests.antt =====
-- Patching on a concrete processor.
use syscall_throttling.Base.{◌≡◌, ◌⊎◌, true, false, none, some, [], ◌∷◌, ◌==◌, update}
use syscall_throttling.Base.Int.{pos}
use syscall_throttling.Probe.Text.{poke}
use syscall_throttling.Patching.{wp, cet, Core, apply_mmap_patch}
use syscall_throttling.Patching.Window.{apply_mmap_patch-outcome}

abbrev core : Core
core = record {
  cr0 = λ i. i == wp;
  cr4 = λ i. i == 5;
  preempt_count = 0;
  text_patch_lock = false;
  text = λ a. 0x90;
}

apply_mmap_patch-outcome_example :
    ((core.cr4 cet ≡ false)
      × (apply_mmap_patch 64 (0xe8 ∷ 1 ∷ []) core
          ≡ some (
            pos 1,
            record core {
              text = poke 64 (0xe8 ∷ 1 ∷ []) core.text;
              cr0 = update core.cr0 wp false;
              text_patch_lock = false;
            },
          )))
    ⊎ ((core.cr4 cet ≡ true) × (apply_mmap_patch 64 (0xe8 ∷ 1 ∷ []) core ≡ none))
apply_mmap_patch-outcome_example = apply_mmap_patch-outcome 64 (0xe8 ∷ 1 ∷ []) core
