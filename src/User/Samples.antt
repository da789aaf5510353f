-- ===== src/User/Samples.antt =====
-- A machine for the tests of the user's programs, with root at the keyboard.
use syscall_throttling.Base.{
  ℕ, ◌≡◌, refl, true, false, Option, none, some, List, [], ◌∷◌, ltb, if_cases, arith,
}
use syscall_throttling.Base.Int.{ℤ, pos, is_zero}
use syscall_throttling.Base.Lists.{length}
use syscall_throttling.Base.Text.{codes}
use syscall_throttling.Probe.Invariant.{is_found}
use syscall_throttling.Ioctl.Effects.{accepts}
use syscall_throttling.Ioctl.Samples.{always, kernel, kernel-IsApart, loaded}
use syscall_throttling.User.{Machine, World}
use syscall_throttling.User.Client.{is_eexist}
use syscall_throttling.User.Client.Registering.{IsUsual}

abbrev pub getpid : List ℕ
getpid = codes "__x64_sys_getpid"

abbrev pub symbols : List (Option (List ℕ))
symbols = some getpid ∷ none ∷ some (codes "__x64_sys_getuid") ∷ some getpid ∷ []

abbrev pub machine : Machine
machine = record {
  available = always;
  kernel = kernel;
  made = true;
  armed = pos 0;
  slab_available = always;
  entry_available = always;
  meanwhile = [];
  uid = 0;
  node_error = none;
  strncpy_from_user = λ p. (pos (length p), p);
  syscall_symbols = symbols;
}

abbrev pub closed : World
closed = record { loaded = loaded; dev_available = pos 1; errno = 0 }

lost-kprobe : (id : ℕ) → is_found kernel id ≡ false → accepts is_eexist (kernel.kprobe id).0 ≡ false
lost-kprobe id =
    if_cases (λ (r : ℤ × ℕ). is_zero r.0 ≡ false → accepts is_eexist r.0 ≡ false) (ltb id 1)
      (λ _ h. cc) (λ _ h. refl)

pub machine-IsUsual : IsUsual machine
machine-IsUsual = record {
  node = λ e h. cc;
  kprobes = lost-kprobe;
  names = λ p full short. refl;
  timer = refl;
  symbols = omega arith;
  apart = kernel-IsApart;
}
