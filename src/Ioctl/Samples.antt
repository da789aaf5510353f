-- ===== src/Ioctl/Samples.antt =====
-- A small kernel and a module that has just been loaded, for the tests.
use syscall_throttling.Base.{
  ℕ, ◌≡◌, refl, inl, Bool, true, false, [], ltb, if◌then◌else◌, if_cases, arith,
}
use syscall_throttling.Base.Int.{ℤ, pos, is_zero}
use syscall_throttling.Base.Code.{success, enoent}
use syscall_throttling.Base.Heap.{fresh_heap}
use syscall_throttling.Store.Start.{empty_store, empty_store-Holds}
use syscall_throttling.Probe.{Kernel}
use syscall_throttling.Probe.Invariant.{IsApart, is_found, address}
use syscall_throttling.Ioctl.{Module}
use syscall_throttling.Ioctl.Safety.{IsSound}

abbrev pub always : ℕ → Bool
always n = true

-- A kernel in which no call is found but the call 0, at 4096.
abbrev pub only_zero : ℕ → ℤ × ℕ
only_zero id = if ltb id 1 then (success, 4096) else (enoent, 0)

abbrev pub kernel : Kernel
kernel = record {
  supported = 5;
  trampoline = 65536;
  kprobe = only_zero;
  has_mutex = true;
  has_poke = true;
}

pub found_zero : (id : ℕ) → is_found kernel id ≡ true → (id ≡ 0) × (address kernel id ≡ 4096)
found_zero id h =
    if_cases (λ (r : ℤ × ℕ). is_zero r.0 ≡ true → (id ≡ 0) × (r.1 ≡ 4096)) (ltb id 1)
      (λ below e. (ground (arith, below), refl)) (λ out e. cc) h

pub kernel-IsApart : IsApart kernel
kernel-IsApart = record {
  apart = λ i j fi fj differ. absurd (omega (arith, found_zero i fi, found_zero j fj, differ));
  below = λ i fi. omega (arith, found_zero i fi);
}

abbrev pub loaded : Module
loaded = record {
  driver = record {
    working = true;
    threads_in_module = 0;
    current_epoch_tokens = 0;
    epoch = 0;
    max_syscalls_for_epoch = 10;
    store = empty_store;
    queue = record {
      global_queue = [];
      junk_list = [];
      current_in_queue = pos 0;
      has_cache = false;
      queue_cache = fresh_heap;
    };
    monitor = record { syscall_list = []; epoch_count = 0; heap = fresh_heap };
    timer_pending = true;
  };
  probes = record {
    syscall_presence_bitmap = λ _. false;
    syscall_addresses = λ _. 0;
    text = λ _. 0x90;
    poke_found = false;
  };
  heap = fresh_heap;
}

pub loaded-IsSound : IsSound kernel loaded
loaded-IsSound = record {
  store = empty_store-Holds.valid;
  probes = record { present = λ id marked. cc; kept = λ id. inl refl };
}
