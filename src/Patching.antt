-- ===== src/Patching.antt =====
-- lib/sysThrot.h, the functions that take the write protection of the kernel's memory away and put it
-- back, and `apply_mmap_patch` of sysThrot.c, which writes kernel text between them and is compiled
-- in place of `apply_smp_patch` when USE_TEXT_POKE_SINGLE is 0.
pub mod Window
mod Tests
use syscall_throttling.Base.{
  ℕ, ◌+◌, ◌-◌, Bool, true, false, not, ◌&&◌, Option, none, some, List, ◌==◌, if◌then◌else◌, update,
}
use syscall_throttling.Base.Int.{ℤ, pos}
use syscall_throttling.Base.Code.{efault}
use syscall_throttling.Probe.Text.{poke}

-- A fault ends what follows it.
infixl 5 ◌>>=◌
abbrev pub ◌>>=◌ {ℓ κ} : {A : Type ℓ} {B : Type κ} → Option A → (A → Option B) → Option B
none >>= f = none
some a >>= f = f a

-- The bits that X86_CR0_WP and X86_CR4_CET stand for.
abbrev pub wp : ℕ
wp = 16

abbrev pub cet : ℕ
cet = 23

-- A processor, with the bits of two of its control registers and how often preemption has been
-- disabled; the mutex `text_patch_lock`; and the bytes of the kernel's text, which is mapped for reading.
pub record Core : Type 0 where
  pub cr0 : ℕ → Bool
  pub cr4 : ℕ → Bool
  pub preempt_count : ℕ
  pub text_patch_lock : Bool
  pub text : ℕ → ℕ

-- The processor refuses to have CET without WP; `none` is its fault.
unfoldable pub write_cr0_forced : (ℕ → Bool) → Core → Option Core
write_cr0_forced val c = if c.cr4 cet && not (val wp) then none else some (record c { cr0 = val })

unfoldable pub write_cr4_forced : (ℕ → Bool) → Core → Option Core
write_cr4_forced val c = if val cet && not (c.cr0 wp) then none else some (record c { cr4 = val })

unfoldable pub protect_memory : Core → Option Core
protect_memory c = write_cr0_forced c.cr0 c

unfoldable pub unprotect_memory : Core → Option Core
unprotect_memory c = write_cr0_forced (update c.cr0 wp false) c

unfoldable pub conditional_cet_disable : (ℕ → Bool) → Core → Option Core
conditional_cet_disable cr4 c =
    let written = write_cr4_forced (update cr4 cet false) c in if cr4 cet then written else some c

unfoldable pub conditional_cet_enable : (ℕ → Bool) → Core → Option Core
conditional_cet_enable cr4 c =
    let written = write_cr4_forced cr4 c in if cr4 cet then written else some c

abbrev pub preempt_disable : Core → Core
preempt_disable c = record c { preempt_count = c.preempt_count + 1 }

abbrev pub preempt_enable : Core → Core
preempt_enable c = record c { preempt_count = c.preempt_count - 1 }

-- The registers that it saves are those of the processor it is called on.
unfoldable pub being_sys_call_hacking : Core → Option Core
being_sys_call_hacking c = do
  c1 ← conditional_cet_disable c.cr4 (preempt_disable c)
  unprotect_memory c1

unfoldable pub end_sys_call_hacking : (cr0 cr4 : ℕ → Bool) → Core → Option Core
end_sys_call_hacking cr0 cr4 c = do
  c1 ← protect_memory c
  c2 ← conditional_cet_enable cr4 c1
  some (preempt_enable c2)

-- `memcpy` to the kernel's text, which faults while the text is protected; it returns the address.
unfoldable pub memcpy : ℕ → List ℕ → Core → Option (ℕ × Core)
memcpy target_addr insn c =
    if c.cr0 wp then none else some (target_addr, record c { text = poke target_addr insn c.text })

unfoldable pub apply_mmap_patch : ℕ → List ℕ → Core → Option (ℤ × Core)
apply_mmap_patch target_addr insn c = do
  c1 ← being_sys_call_hacking (preempt_disable (record c { text_patch_lock = true }))
  (result, c2) ← memcpy target_addr insn c1
  c3 ← end_sys_call_hacking c.cr0 c.cr4 c2
  some (
    if not (result == target_addr) then efault else pos 1,
    record (preempt_enable c3) { text_patch_lock = false },
  )
