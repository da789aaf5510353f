-- ===== src/Probe/Tests.antt =====
-- The probes on concrete inputs.
use syscall_throttling.Base.{
  ℕ, ◌+◌, ◌*◌, ◌<◌, ◌≡◌, if_cases, Bool-cases, refl, inl, inr, true, false, List, [], ◌∷◌, ltb,
  if◌then◌else◌, arith,
}
use syscall_throttling.Base.Int.{ℤ, pos, is_zero}
use syscall_throttling.Base.Code.{success, enoent}
use syscall_throttling.Probe.{
  Kernel, Probes, install_probe, install_found, remove_probe, remove_found, find_address, finish,
  apply_smp_patch,
}
use syscall_throttling.Probe.Invariant.{IsApart, IsPatched, address, is_found}
use syscall_throttling.Probe.Symbols.{
  Pointers, Answer, lookup_symbol, smp_patches, apply_all, Refines, smp_patches-Refines,
}
use syscall_throttling.Probe.Runs.{Request, install, remove, run, run-IsPatched}

-- A kernel with four calls, a page apart.
abbrev page_of : ℕ → ℤ × ℕ
page_of id = if ltb id 4 then (success, 4096 * (id + 1)) else (enoent, 0)

abbrev kernel : Kernel
kernel = record {
  supported = 5;
  trampoline = 65536;
  kprobe = page_of;
  has_mutex = true;
  has_poke = true;
}

page_of-found :
    (id : ℕ) → is_found kernel id ≡ true → (id < 4) × (address kernel id ≡ 4096 * (id + 1))
page_of-found id h =
    if_cases (λ (r : ℤ × ℕ). is_zero r.0 ≡ true → (id < 4) × (r.1 ≡ 4096 * (id + 1))) (ltb id 4)
      (λ below e. (ground (arith, below), refl)) (λ out e. cc) h

kernel-IsApart : IsApart kernel
kernel-IsApart = record {
  apart = λ i j fi fj differ.
      let (bi, ei) = page_of-found i fi in
      let (bj, ej) = page_of-found j fj in
      elim (Bool-cases (ltb i j)) [
        | inl before ↦ inl (ground (arith, before, ei, ej))
        | inr after ↦ inr (ground (arith, after, ei, ej, differ))
      ];
  below = λ i fi. omega (arith, page_of-found i fi);
}

abbrev no_probes : Probes
no_probes = record {
  syscall_presence_bitmap = λ _. false;
  syscall_addresses = λ _. 0;
  text = λ _. 0x90;
  poke_found = false;
}

no_probes-IsPatched : IsPatched kernel no_probes
no_probes-IsPatched = record { present = λ id marked. cc; kept = λ id. inl refl }

abbrev requests : List Request
requests =
    install (pos 1) ∷ install (pos 2) ∷ install (pos 1) ∷ remove (pos 2) ∷ install (pos 9) ∷ []

run-IsPatched_example : IsPatched kernel (run kernel requests no_probes)
run-IsPatched_example = run-IsPatched kernel kernel-IsApart requests no_probes no_probes-IsPatched

abbrev one_probe : Probes
one_probe = (install_probe kernel (pos 1) no_probes).1

-- The call of the first page is patched, and unpatched again.
marked_one : one_probe.syscall_presence_bitmap 1 ≡ true
unfolding install_probe install_found find_address finish apply_smp_patch
marked_one = refl

unmarked_one : (remove_probe kernel (pos 1) one_probe).1.syscall_presence_bitmap 1 ≡ false
unfolding install_probe install_found remove_probe remove_found find_address finish apply_smp_patch
unmarked_one = refl

abbrev found_at : ℕ → Answer
found_at a = record { registered = true; address = a }

abbrev nothing_found : Pointers
nothing_found = record { kernel_text_mutex = 0; smp_text_poke_single_fn = 0 }

abbrev untouched : Probes
untouched = record {
  syscall_presence_bitmap = λ _. false;
  syscall_addresses = λ _. 0;
  text = λ _. 0x90;
  poke_found = false;
}

abbrev two_patches : List (ℕ × List ℕ)
two_patches = (4096, 1 ∷ 2 ∷ []) ∷ (8192, 3 ∷ []) ∷ []

smp_patches-Refines_example :
    Refines
      (apply_all kernel two_patches untouched)
      (smp_patches (found_at 11) (found_at 12) two_patches nothing_found untouched.text)
unfolding lookup_symbol
smp_patches-Refines_example =
    smp_patches-Refines kernel (found_at 11) (found_at 12) refl refl two_patches nothing_found
      untouched (record { found = refl; lockable = λ e. cc })
