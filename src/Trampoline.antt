-- ===== src/Trampoline.antt =====
-- sysThrot.c: `stub_trampoline`, the assembly that a probe calls, as a program of a small machine with
-- the registers of the processor; and the wait of `sysThrot_cleanup` for the threads in it.
pub mod Calls
pub mod Drain
mod Tests
use syscall_throttling.Base.{ℕ, Bool, true, false, Option, none, some, List, [], ◌∷◌, ◌==◌}
use syscall_throttling.Throttle.{inc32, dec32}

pub data Register : Type 0 where
  rax rbx rcx rdx rsi rdi rbp r8 r9 r10 r11 r12 r13 r14 r15 : Register

-- The contents of the registers, numbers of 64 bits.
pub record Registers : Type 0 where
  pub rax : ℕ
  pub rbx : ℕ
  pub rcx : ℕ
  pub rdx : ℕ
  pub rsi : ℕ
  pub rdi : ℕ
  pub rbp : ℕ
  pub r8 : ℕ
  pub r9 : ℕ
  pub r10 : ℕ
  pub r11 : ℕ
  pub r12 : ℕ
  pub r13 : ℕ
  pub r14 : ℕ
  pub r15 : ℕ

unfoldable pub get : Register → Registers → ℕ
get Register.rax r = r.rax
get Register.rbx r = r.rbx
get Register.rcx r = r.rcx
get Register.rdx r = r.rdx
get Register.rsi r = r.rsi
get Register.rdi r = r.rdi
get Register.rbp r = r.rbp
get Register.r8 r = r.r8
get Register.r9 r = r.r9
get Register.r10 r = r.r10
get Register.r11 r = r.r11
get Register.r12 r = r.r12
get Register.r13 r = r.r13
get Register.r14 r = r.r14
get Register.r15 r = r.r15

unfoldable pub set : Register → ℕ → Registers → Registers
set Register.rax v r = record r { rax = v }
set Register.rbx v r = record r { rbx = v }
set Register.rcx v r = record r { rcx = v }
set Register.rdx v r = record r { rdx = v }
set Register.rsi v r = record r { rsi = v }
set Register.rdi v r = record r { rdi = v }
set Register.rbp v r = record r { rbp = v }
set Register.r8 v r = record r { r8 = v }
set Register.r9 v r = record r { r9 = v }
set Register.r10 v r = record r { r10 = v }
set Register.r11 v r = record r { r11 = v }
set Register.r12 v r = record r { r12 = v }
set Register.r13 v r = record r { r13 = v }
set Register.r14 v r = record r { r14 = v }
set Register.r15 v r = record r { r15 = v }

-- The instructions that the trampoline is written with. `label` is `1:`, and `jz` goes to it.
pub data Instruction : Type 0 where
  lock_incl lock_decl call_stub jz label addq_8_rsp ret : Instruction
  pushq popq testq : Register → Instruction
  movq : Register → Register → Instruction

-- The thread at the trampoline: its registers, the words above its stack pointer, the zero flag, the
-- address that the last `ret` went to; `sysThrot_stub_counter`; and the rest of the system.
pub record Cpu {ℓ} (S : Type ℓ) : Type ℓ where
  pub registers : Registers
  pub stack : List ℕ
  pub zero_flag : Bool
  pub rip : Option ℕ
  pub counter : ℕ
  pub system : S

abbrev pub stub_trampoline : List Instruction
stub_trampoline =
    lock_incl
    ∷ pushq Register.rbx
    ∷ pushq Register.rax
    ∷ pushq Register.rdi
    ∷ pushq Register.rsi
    ∷ pushq Register.rdx
    ∷ pushq Register.rcx
    ∷ pushq Register.r11
    ∷ pushq Register.r10
    ∷ pushq Register.r9
    ∷ pushq Register.r8
    ∷ call_stub
    ∷ movq Register.rax Register.rbx
    ∷ popq Register.r8
    ∷ popq Register.r9
    ∷ popq Register.r10
    ∷ popq Register.r11
    ∷ popq Register.rcx
    ∷ popq Register.rdx
    ∷ popq Register.rsi
    ∷ popq Register.rdi
    ∷ popq Register.rax
    ∷ testq Register.rbx
    ∷ jz
    ∷ movq Register.rbx Register.rax
    ∷ popq Register.rbx
    ∷ addq_8_rsp
    ∷ lock_decl
    ∷ ret
    ∷ label
    ∷ popq Register.rbx
    ∷ lock_decl
    ∷ ret
    ∷ []

-- `stub` stands for the compiled handler: from the registers, the counter and the system at the call
-- to what it leaves; other threads may change the counter and the system while it runs.
module _ {ℓ} {S : Type ℓ} (stub : Registers → ℕ × S → Registers × ℕ × S) where
  abbrev set_register : Register → ℕ → Cpu S → Cpu S
  set_register r v c = record c { registers = set r v c.registers }

  unfoldable pub pop : Register → List ℕ → Cpu S → Option (Cpu S)
  pop r [] c = none
  pop r (v ∷ stack) c = some (record (set_register r v c) { stack = stack })

  unfoldable pub drop : List ℕ → Cpu S → Option (Cpu S)
  drop [] c = none
  drop (v ∷ stack) c = some (record c { stack = stack })

  -- The instructions that go on to the next one.
  unfoldable pub step : Instruction → Cpu S → Option (Cpu S)
  step lock_incl c = some (record c { counter = inc32 c.counter })
  step lock_decl c = some (record c { counter = dec32 c.counter })
  step call_stub c =
      let (registers, counter, system) = stub c.registers (c.counter, c.system) in
      some (record c { registers = registers; counter = counter; system = system })
  step addq_8_rsp c = drop c.stack c
  step (pushq r) c = some (record c { stack = get r c.registers ∷ c.stack })
  step (popq r) c = pop r c.stack c
  step (testq r) c = some (record c { zero_flag = get r c.registers == 0 })
  step (movq from to) c = some (set_register to (get from c.registers) c)
  step _ c = some c

  unfoldable pub go_to : List ℕ → Cpu S → Option (Cpu S)
  go_to [] c = none
  go_to (address ∷ stack) c = some (record c { rip = some address; stack = stack })

  -- The program from an instruction on, up to its `ret`; the flag says that a jump passes over the
  -- instructions up to the label. `none` when the stack or the program has run out.
  unfoldable pub execute : List Instruction → Bool → Cpu S → Option (Cpu S)
  execute [] passing c = none
  execute (label ∷ code) passing c = execute code false c
  execute (_ ∷ code) true c = execute code true c
  execute (jz ∷ code) false c = execute code c.zero_flag c
  execute (ret ∷ code) false c = go_to c.stack c
  execute (i ∷ code) false c = elim (step i c) [ none ↦ none | some c1 ↦ execute code false c1 ]
