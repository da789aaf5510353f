-- ===== src/Patching/Window.antt =====
-- What `apply_mmap_patch` leaves behind.
use syscall_throttling.Base.{
  ℕ, ◌+◌, ◌-◌, ◌≡◌, refl, ◌∙◌, ◌⊎◌, if◌then◌else◌, true, false, not, none, some, List, inl, inr,
  ◌==◌, arith, update, Bool-cases,
}
use syscall_throttling.Base.Int.{pos}
use syscall_throttling.Base.Code.{efault}
use syscall_throttling.Probe.Text.{poke}
use syscall_throttling.Patching.{
  wp, cet, Core, write_cr0_forced, write_cr4_forced, protect_memory, unprotect_memory,
  conditional_cet_disable, conditional_cet_enable, being_sys_call_hacking, end_sys_call_hacking,
  memcpy, apply_mmap_patch,
}

enabled : (n : ℕ) → n + 1 + 1 - 1 - 1 ≡ n
enabled n = omega arith

-- `apply_mmap_patch` on a processor that does not use CET returns 1: the bytes are written at the
-- address, preemption is as often disabled as before, `text_patch_lock` is free and CR4 is as it was;
-- but WP is off afterwards, whatever it was before, and the rest of CR0 is as it was. On a processor
-- that uses CET it does not come back: the processor faults.
pub apply_mmap_patch-outcome :
    (target_addr : ℕ) (insn : List ℕ) (c : Core)
    → ((c.cr4 cet ≡ false)
        × (apply_mmap_patch target_addr insn c
            ≡ some (
              pos 1,
              record c {
                text = poke target_addr insn c.text;
                cr0 = update c.cr0 wp false;
                text_patch_lock = false;
              },
            )))
      ⊎ ((c.cr4 cet ≡ true) × (apply_mmap_patch target_addr insn c ≡ none))
unfolding apply_mmap_patch being_sys_call_hacking end_sys_call_hacking memcpy conditional_cet_enable
    conditional_cet_disable protect_memory unprotect_memory write_cr0_forced write_cr4_forced
apply_mmap_patch-outcome target_addr insn c = elim (Bool-cases (c.cr4 cet)) [
  | inl on ↦ inr (on, simp on)
  | inr off ↦
      let same : (target_addr == target_addr) ≡ true = ground arith in
      let left : Core = record c {
        text = poke target_addr insn c.text;
        cr0 = update c.cr0 wp false;
        text_patch_lock = false;
      } in
      let done : apply_mmap_patch target_addr insn c
          ≡ some (if not (target_addr == target_addr) then efault else pos 1, left) =
        simp (off, enabled c.preempt_count) in
      inl (off, done ∙ rw same refl)
]
