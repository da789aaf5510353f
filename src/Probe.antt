-- ===== src/Probe.antt =====
-- sysThrot.c: the probes on system calls. A probe is a CALL of the trampoline, written over the five
-- bytes of padding at the head of the kernel's function for the call.
pub mod Text
pub mod Invariant
pub mod Runs
pub mod Outcomes
pub mod Symbols
mod Tests
use syscall_throttling.Base.{
  ℕ, ◌+◌, ◌-◌, ◌/◌, ◌%◌, ◌^◌, Bool, true, false, not, ◌&&◌, ◌||◌, List, [], ◌∷◌, ◌==◌, leb,
  if◌then◌else◌, update,
}
use syscall_throttling.Base.Int.{ℤ, pos, negsuc, is_zero, is_negative}
use syscall_throttling.Base.Code.{success, failure, enoent, eexist, einval}
use syscall_throttling.Probe.Text.{poke}

-- The fields of `struct sysThrot_driver` that this part uses, the bytes of the kernel's text, and
-- whether `smp_text_poke_single_fn` has been found. The bitmap is given by its bits: bit `id % 8` of
-- byte `id / 8` is the bit of the call `id`.
pub record Probes : Type 0 where
  pub syscall_presence_bitmap : ℕ → Bool
  pub syscall_addresses : ℕ → ℕ
  pub text : ℕ → ℕ
  pub poke_found : Bool

-- `offset` as the four bytes of an `int`, lowest first, behind the opcode.
abbrev pub call_instruction : ℕ → ℕ → List ℕ
call_instruction trampoline addr_sys =
    let offset = (trampoline + 2 ^ 64 - addr_sys - 5) % 2 ^ 32 in
    0xe8 ∷ offset % 256 ∷ offset / 256 % 256 ∷ offset / 65536 % 256 ∷ offset / 16777216 % 256 ∷ []

-- What `removeProbe` writes.
abbrev pub nop_instruction : List ℕ
nop_instruction = 0x0f ∷ 0 ∷ 0x44 ∷ 0 ∷ 0 ∷ []

-- What the kernel and the build give: SUPPORTED_SYSCALLS, the address of `stub_trampoline`, what
-- `register_kprobe` returns for the symbol of a call with the address that it finds, and whether the
-- kernel has the two symbols that are looked up.
pub record Kernel : Type 0 where
  pub supported : ℕ
  pub trampoline : ℕ
  pub kprobe : ℕ → ℤ × ℕ
  pub has_mutex : Bool
  pub has_poke : Bool

module _ (k : Kernel) where
  unfoldable pub apply_smp_patch : ℕ → List ℕ → Probes → ℤ × Probes
  apply_smp_patch target_addr insn p =
      if p.poke_found || (k.has_mutex && k.has_poke)
      then (pos 1, record p { text = poke target_addr insn p.text; poke_found = true })
      else (enoent, p)

  -- The address of the call: the one kept from before, or the one that a kprobe finds.
  unfoldable pub find_address : ℕ → Probes → ℤ × ℕ × Probes
  find_address id p =
      let (result, addr) = k.kprobe id in
      let kept = record p { syscall_addresses = update p.syscall_addresses id addr } in
      if not (p.syscall_addresses id == 0)
      then (success, p.syscall_addresses id, p)
      else if is_zero result
      then (success, addr, kept)
      else (result, 0, p)

  -- After the patch.
  unfoldable pub finish : ℕ → Bool → ℤ × Probes → ℤ × Probes
  finish id present (result, p) = if is_negative result then (result, p) else (
    pos 1,
    record p { syscall_presence_bitmap = update p.syscall_presence_bitmap id present },
  )

  unfoldable pub install_found : ℕ → ℤ × ℕ × Probes → ℤ × Probes
  install_found id (result, addr_sys, p) =
      if is_zero result
      then finish id true (apply_smp_patch addr_sys (call_instruction k.trampoline addr_sys) p)
      else (result, p)

  unfoldable pub remove_found : ℕ → ℤ × ℕ × Probes → ℤ × Probes
  remove_found id (result, addr_sys, p) =
      if is_zero result
      then finish id false (apply_smp_patch addr_sys nop_instruction p)
      else (failure, p)

  unfoldable pub install_probe : ℤ → Probes → ℤ × Probes
  install_probe (negsuc n) p = (einval, p)
  install_probe (pos id) p =
      let found = find_address id p in
      if leb k.supported id
      then (einval, p)
      else if p.syscall_presence_bitmap id
      then (eexist, p)
      else install_found id found

  unfoldable pub remove_probe : ℤ → Probes → ℤ × Probes
  remove_probe (negsuc n) p = (einval, p)
  remove_probe (pos id) p =
      let found = find_address id p in
      if leb k.supported id
      then (einval, p)
      else if not (p.syscall_presence_bitmap id)
      then (eexist, p)
      else remove_found id found
