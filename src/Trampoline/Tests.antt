-- ===== src/Trampoline/Tests.antt =====
-- The trampoline on concrete registers.
use syscall_throttling.Base.{ℕ, refl, true, false, none, [], ◌∷◌}
use syscall_throttling.Throttle.{inc32, dec32}
use syscall_throttling.Trampoline.{Registers, Cpu, stub_trampoline, execute}
use syscall_throttling.Trampoline.Calls.{goes_on, arrives, Returns, execute-Returns}

abbrev registers : Registers
registers = record {
  rax = 39;
  rbx = 1;
  rcx = 2;
  rdx = 3;
  rsi = 4;
  rdi = 5;
  rbp = 6;
  r8 = 7;
  r9 = 8;
  r10 = 9;
  r11 = 10;
  r12 = 11;
  r13 = 12;
  r14 = 13;
  r15 = 14;
}

-- A handler that refuses the call, as a compiled `return -EAGAIN;` does, and uses two more registers;
-- another thread leaves the trampoline meanwhile, and the system keeps the argument.
abbrev refuse : Registers → ℕ × ℕ → Registers × ℕ × ℕ
refuse r (counter, log) = (record r { rax = 4294967285; rcx = 99; r8 = 98 }, dec32 counter, r.rdi)

abbrev cpu : Cpu ℕ
cpu = record {
  registers = registers;
  stack = [];
  zero_flag = true;
  rip = none;
  counter = 1;
  system = 0;
}

execute-Returns_example :
    Returns refuse
      (goes_on 4101 8192 (77 ∷ []) 4294967285 registers)
      (dec32 (dec32 (inc32 1)))
      5
      (execute refuse stub_trampoline false (arrives 4101 8192 (77 ∷ []) cpu))
execute-Returns_example =
    execute-Returns refuse cpu 4101 8192 (77 ∷ [])
      (record { rbx = refl; rbp = refl; r12 = refl; r13 = refl; r14 = refl; r15 = refl })
