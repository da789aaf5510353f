-- ===== src/Ioctl/Marks.antt =====
-- `installProbe` and the marks of the probed calls.
use syscall_throttling.Base.{
  ℕ, ◌≡◌, refl, ap, ◌∙◌, Bool, true, false, not, ◌&&◌, ◌||◌, List, ◌==◌, leb, if_cases, update,
  update_self,
}
use syscall_throttling.Base.Int.{ℤ, pos, is_zero, is_negative}
use syscall_throttling.Probe.{
  Kernel, Probes, call_instruction, install_probe, apply_smp_patch, find_address, install_found,
  finish,
}
use syscall_throttling.Probe.Invariant.{is_found}
use syscall_throttling.Ioctl.Effects.{accepts, AreErrors}

module _ (passes : ℕ → Bool) (errors : AreErrors passes) where
  module _ (k : Kernel) where
    pub apply_smp_patch-code :
        (a : ℕ) (bs : List ℕ) (p : Probes)
        → (is_zero (apply_smp_patch k a bs p).0 ≡ false)
          × ((apply_smp_patch k a bs p).1.syscall_presence_bitmap ≡ p.syscall_presence_bitmap)
          × (is_negative (apply_smp_patch k a bs p).0 ≡ true
              → accepts passes (apply_smp_patch k a bs p).0 ≡ false)
    unfolding apply_smp_patch
    apply_smp_patch-code a bs p =
        let (_, missing, _, _, _, _) = errors in
        if_cases
          (λ (r : ℤ × Probes).
            (is_zero r.0 ≡ false)
            × (r.1.syscall_presence_bitmap ≡ p.syscall_presence_bitmap)
            × (is_negative r.0 ≡ true → accepts passes r.0 ≡ false))
          (p.poke_found || (k.has_mutex && k.has_poke)) (λ _. (refl, refl, λ e. cc))
          (λ _. (refl, refl, λ _. missing))

    -- The marks of `p` are kept, and a status that passes goes with the mark of `id`.
    abbrev pub Marks : ℕ → Probes → ℤ × Probes → Type 0
    Marks id p (code, p') =
        ((i : ℕ) → p.syscall_presence_bitmap i ≡ true → p'.syscall_presence_bitmap i ≡ true)
        × (accepts passes code ≡ true → p'.syscall_presence_bitmap id ≡ true)

    update_marks : (bits : ℕ → Bool) (id i : ℕ) → bits i ≡ true → update bits id true i ≡ true
    update_marks bits id i marked = if_cases (λ b. b ≡ true) (id == i) (λ _. refl) (λ _. marked)

    finish-Marks :
        (id : ℕ) (p p1 : Probes) (r : ℤ × Probes)
        → p1.syscall_presence_bitmap ≡ p.syscall_presence_bitmap
        → r.1.syscall_presence_bitmap ≡ p1.syscall_presence_bitmap
        → (is_negative r.0 ≡ true → accepts passes r.0 ≡ false)
        → Marks id p (finish k id true r)
    unfolding finish
    finish-Marks id p p1 (code, p2) e1 e2 fails =
        let same : (i : ℕ)
            → p.syscall_presence_bitmap i ≡ true
            → p2.syscall_presence_bitmap i ≡ true =
          λ i marked. ap (λ (f : ℕ → Bool). f i) (e2 ∙ e1) ∙ marked in
        if_cases (Marks id p) (is_negative code)
          (λ error. (same, λ ok. absurd (cc (fails error, ok))))
          (λ _. (
            λ i marked. update_marks p2.syscall_presence_bitmap id i (same i marked),
            λ _. update_self p2.syscall_presence_bitmap id true,
          ))

    -- What a look-up gives: the marks as they were, and an error that does not pass.
    abbrev Looks : Probes → ℤ × ℕ × Probes → Type 0
    Looks p (result, a, p1) =
        (p1.syscall_presence_bitmap ≡ p.syscall_presence_bitmap)
        × (is_zero result ≡ false → accepts passes result ≡ false)

    install_found-Marks :
        (id : ℕ) (p : Probes) (r : ℤ × ℕ × Probes) → Looks p r → Marks id p (install_found k id r)
    unfolding install_found
    install_found-Marks id p (result, a, p1) (same, fails) =
        let bytes = call_instruction k.trampoline a in
        let (_, kept, code) = apply_smp_patch-code a bytes p1 in
        if_cases (Marks id p) (is_zero result)
          (λ _. finish-Marks id p p1 (apply_smp_patch k a bytes p1) same kept code)
          (λ lost. (
            λ i marked. ap (λ (f : ℕ → Bool). f i) same ∙ marked,
            λ ok. absurd (cc (fails lost, ok)),
          ))

    module _
        (kprobes : (id : ℕ) → is_found k id ≡ false → accepts passes (k.kprobe id).0 ≡ false) where
      find_address-Looks : (id : ℕ) (p : Probes) → Looks p (find_address k id p)
      unfolding find_address
      find_address-Looks id p =
          if_cases (Looks p) (not (p.syscall_addresses id == 0)) (λ _. (refl, λ lost. cc))
            (λ _.
              if_cases (Looks p) (is_found k id) (λ _. (refl, λ lost. cc))
                (λ _. (refl, kprobes id)))

      pub install_probe-Marks : (id : ℕ) (p : Probes) → Marks id p (install_probe k (pos id) p)
      unfolding install_probe
      install_probe-Marks id p =
          let (_, _, _, _, invalid, _) = errors in
          if_cases (Marks id p) (leb k.supported id)
            (λ _. (λ i h. h, λ ok. absurd (cc (invalid, ok))))
            (λ _.
              if_cases (Marks id p) (p.syscall_presence_bitmap id) (λ here. (λ i h. h, λ _. here))
                (λ _. install_found-Marks id p (find_address k id p) (find_address-Looks id p)))
