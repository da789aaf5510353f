-- ===== src/Trampoline/Calls.antt =====
-- What the trampoline does to the call that it stands before.
use syscall_throttling.Base.{
  ℕ, ◌≡◌, refl, Bool, true, false, Option, none, some, List, [], ◌∷◌, ◌==◌, if◌then◌else◌,
}
use syscall_throttling.Throttle.{inc32, dec32}
use syscall_throttling.Trampoline.{
  Register, Registers, Instruction, movq, popq, addq_8_rsp, lock_decl, ret, label, Cpu, get, set,
  stub_trampoline, pop, drop, step, go_to, execute,
}

-- The registers that a function of C gives back as it found them, beside the stack pointer.
pub record IsKept (before after : Registers) : Type 0 where
  pub rbx : after.rbx ≡ before.rbx
  pub rbp : after.rbp ≡ before.rbp
  pub r12 : after.r12 ≡ before.r12
  pub r13 : after.r13 ≡ before.r13
  pub r14 : after.r14 ≡ before.r14
  pub r15 : after.r15 ≡ before.r15

-- Where the thread goes on, with the word `answer` in hand: at the address in the system call, with
-- the registers as they were; or, with the answer in `rax`, at the address in the caller of the call.
abbrev pub goes_on : ℕ → ℕ → List ℕ → ℕ → Registers → Option ℕ × List ℕ × Registers
goes_on inside caller below answer r =
    if answer == 0
    then (some inside, caller ∷ below, r)
    else (some caller, below, record r { rax = answer })

restored :
    (before after : Registers) (answer : ℕ)
    → IsKept before after
    → record before {
      rax = answer;
      rbp = after.rbp;
      r12 = after.r12;
      r13 = after.r13;
      r14 = after.r14;
      r15 = after.r15;
    }
      ≡ record before { rax = answer }
restored before after answer kept = rw (kept.rbp, kept.r12, kept.r13, kept.r14, kept.r15) refl

-- A thread at the trampoline, with the address behind the CALL and that of the caller on its stack.
abbrev pub arrives : {S : Type 0} → ℕ → ℕ → List ℕ → Cpu S → Cpu S
arrives inside caller below c = record c { stack = inside ∷ caller ∷ below }

-- The trampoline behind its jump.
abbrev after_jump : List Instruction
after_jump =
    movq Register.rbx Register.rax
    ∷ popq Register.rbx
    ∷ addq_8_rsp
    ∷ lock_decl
    ∷ ret
    ∷ label
    ∷ popq Register.rbx
    ∷ lock_decl
    ∷ ret
    ∷ []

module _ {S : Type 0} (stub : Registers → ℕ × S → Registers × ℕ × S) where
  -- The trampoline has run: where the thread goes on, and what it has done to the counter and the
  -- system.
  abbrev pub Returns : Option ℕ × List ℕ × Registers → ℕ → S → Option (Cpu S) → Type 0
  Returns (rip, stack, registers) counter system none = ⊥
  Returns (rip, stack, registers) counter system (some c) =
      (c.rip ≡ rip)
      × (c.stack ≡ stack)
      × (c.registers ≡ registers)
      × (c.counter ≡ counter)
      × (c.system ≡ system)

  -- The last part, from the jump on, for an answer that is zero or not.
  leave :
      (is_zero : Bool) (before after : Registers) (inside caller answer : ℕ) (below : List ℕ)
      (c : Cpu S)
      → IsKept before after
      → Returns
          (if is_zero
            then (some inside, caller ∷ below, before)
            else (some caller, below, record before { rax = answer }))
          (dec32 c.counter)
          c.system
          (execute stub after_jump is_zero (record c {
            registers = record before {
              rbx = answer;
              rbp = after.rbp;
              r12 = after.r12;
              r13 = after.r13;
              r14 = after.r14;
              r15 = after.r15;
            };
            stack = before.rbx ∷ inside ∷ caller ∷ below;
          }))
  unfolding execute step get set pop drop go_to
  leave true before after inside caller answer below c kept =
      (refl, refl, restored before after before.rax kept, refl, refl)
  leave false before after inside caller answer below c kept =
      (refl, refl, restored before after answer kept, refl, refl)

  -- A thread that comes to the trampoline from the CALL at the head of a system call, with the address
  -- behind that CALL and the address of the caller of the system call on its stack, always comes out
  -- of it. When the handler left 0 in `rax`, the thread goes on in the system call, with every register
  -- as it was and the CALL's address taken off the stack. Otherwise it goes on behind the caller's
  -- call, past the system call, with the handler's answer in `rax` and every other register as it was.
  -- The handler has run with the caller's registers, and one thread more counted; afterwards one less
  -- is counted. The handler keeps the registers that a function of C keeps.
  pub execute-Returns :
      (c : Cpu S) (inside caller : ℕ) (below : List ℕ)
      → let (after, counter, system) = stub c.registers (inc32 c.counter, c.system) in
        IsKept c.registers after
        → Returns
            (goes_on inside caller below after.rax c.registers)
            (dec32 counter)
            system
            (execute stub stub_trampoline false (arrives inside caller below c))
  unfolding execute step get set pop drop go_to
  execute-Returns c inside caller below kept =
      let (after, counter, system) = stub c.registers (inc32 c.counter, c.system) in
      leave (after.rax == 0) c.registers after inside caller after.rax below
        (record c { counter = counter; system = system; zero_flag = after.rax == 0 }) kept
