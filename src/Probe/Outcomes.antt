-- ===== src/Probe/Outcomes.antt =====
-- What `installProbe` and `removeProbe` return, and what they have done then.
use syscall_throttling.Base.{
  ℕ, ◌≡◌, refl, ap, subst, ◌∙◌, ◌⊎◌, inl, inr, Bool, true, false, not, ◌&&◌, ◌||◌, List, [], ◌∷◌,
  ◌==◌, leb, if_cases, update,
}
use syscall_throttling.Base.Int.{ℤ, pos, is_zero, is_negative}
use syscall_throttling.Probe.Text.{poke}
use syscall_throttling.Probe.{
  Kernel, Probes, call_instruction, nop_instruction, apply_smp_patch, find_address, finish,
  install_found, remove_found, install_probe, remove_probe,
}
use syscall_throttling.Probe.Invariant.{IsPatched, Finds, find_address-Finds, address, is_found}

-- An operation on the call `id` returned 1, left its bit at `present` and wrote `bs` at `a`; or it
-- returned an error, and bitmap and text are as they were.
abbrev pub Outcome : ℕ → Bool → ℕ → List ℕ → Probes → ℤ × Probes → Type 0
Outcome id present a bs p (code, p') =
    ((code ≡ pos 1)
      × (p'.syscall_presence_bitmap ≡ update p.syscall_presence_bitmap id present)
      × (p'.text ≡ poke a bs p.text))
    ⊎ ((is_negative code ≡ true)
        × (p'.syscall_presence_bitmap ≡ p.syscall_presence_bitmap)
        × (p'.text ≡ p.text))

module _ (k : Kernel) where
  patch-Outcome :
      (id a : ℕ) (present : Bool) (bs : List ℕ) (p : Probes)
      → Outcome id present a bs p (finish k id present (apply_smp_patch k a bs p))
  unfolding finish apply_smp_patch
  patch-Outcome id a present bs p =
      if_cases (λ (r : ℤ × Probes). Outcome id present a bs p (finish k id present r))
        (p.poke_found || (k.has_mutex && k.has_poke)) (λ _. inl (refl, refl, refl))
        (λ _. inr (refl, refl, refl))

  -- From the state that the look-up leaves to the state before it.
  Outcome-before :
      (id a : ℕ) (present : Bool) (bs : List ℕ) (p p' : Probes) (r : ℤ × Probes)
      → p'.text ≡ p.text
      → p'.syscall_presence_bitmap ≡ p.syscall_presence_bitmap
      → Outcome id present a bs p' r
      → Outcome id present a bs p r
  Outcome-before id a present bs p p' r t b (inl (c, bits, text)) =
      inl (c, bits ∙ ap (λ m. update m id present) b, text ∙ ap (poke a bs) t)
  Outcome-before id a present bs p p' r t b (inr (c, bits, text)) = inr (c, bits ∙ b, text ∙ t)

  remove_found-Outcome :
      (id : ℕ) (p : Probes) (r : ℤ × ℕ × Probes)
      → Finds k id p r
      → Outcome id false (address k id) nop_instruction p (remove_found k id r)
  unfolding remove_found Finds
  remove_found-Outcome id p (result, a, p') (v, t, b, at_call) =
      if_cases (Outcome id false (address k id) nop_instruction p) (is_zero result)
        (λ found.
          subst
            (λ c.
              Outcome id false c nop_instruction p
                (finish k id false (apply_smp_patch k a nop_instruction p')))
            (at_call found).0
            (Outcome-before id a false nop_instruction p p'
              (finish k id false (apply_smp_patch k a nop_instruction p')) t b
              (patch-Outcome id a false nop_instruction p')))
        (λ lost. inr (refl, b, t))

  -- `removeProbe` returns 1, having cleared the bit of the call and written the bytes 0f 00 44 00 00
  -- at its address; or it returns an error, and the bitmap and the text are as they were.
  pub remove_probe-Outcome :
      (id : ℕ) (p : Probes)
      → IsPatched k p
      → Outcome id false
          (address k id)
          (0x0f ∷ 0x00 ∷ 0x44 ∷ 0x00 ∷ 0x00 ∷ [])
          p
          (remove_probe k (pos id) p)
  unfolding remove_probe
  remove_probe-Outcome id p v =
      let result : ℤ × Probes → Type 0 = Outcome id false (address k id) nop_instruction p in
      if_cases result (leb k.supported id) (λ _. inr (refl, refl, refl))
        (λ _.
          if_cases result (not (p.syscall_presence_bitmap id)) (λ _. inr (refl, refl, refl))
            (λ _. remove_found-Outcome id p _ (find_address-Finds k id p v)))

  install_found-Outcome :
      (id : ℕ) (p : Probes) (r : ℤ × ℕ × Probes)
      → (is_zero r.0 ≡ false → is_negative r.0 ≡ true)
      → Finds k id p r
      → Outcome id true
          (address k id)
          (call_instruction k.trampoline (address k id))
          p
          (install_found k id r)
  unfolding install_found Finds
  install_found-Outcome id p (result, a, p') negative (v, t, b, at_call) =
      if_cases (Outcome id true (address k id) (call_instruction k.trampoline (address k id)) p)
        (is_zero result)
        (λ found.
          subst
            (λ c.
              Outcome id true c (call_instruction k.trampoline c) p
                (finish k id true (apply_smp_patch k a (call_instruction k.trampoline a) p')))
            (at_call found).0
            (Outcome-before id a true (call_instruction k.trampoline a) p p'
              (finish k id true (apply_smp_patch k a (call_instruction k.trampoline a) p')) t b
              (patch-Outcome id a true (call_instruction k.trampoline a) p')))
        (λ lost. inr (negative lost, b, t))

  find_address-code :
      (id : ℕ) (p : Probes)
      → (is_found k id ≡ false → is_negative (k.kprobe id).0 ≡ true)
      → is_zero (find_address k id p).0 ≡ false
      → is_negative (find_address k id p).0 ≡ true
  unfolding find_address
  find_address-code id p negative =
      let result : ℤ × ℕ × Probes → Type 0 = λ r. is_zero r.0 ≡ false → is_negative r.0 ≡ true in
      if_cases result (not (p.syscall_addresses id == 0)) (λ _ e. cc)
        (λ _. if_cases result (is_found k id) (λ _ e. cc) (λ _. negative))

  -- `installProbe` returns 1, having set the bit of the call and written a CALL of the trampoline at
  -- its address; or it returns an error, and the bitmap and the text are as they were. A
  -- `register_kprobe` that fails returns a negative number.
  pub install_probe-Outcome :
      (id : ℕ) (p : Probes)
      → (is_found k id ≡ false → is_negative (k.kprobe id).0 ≡ true)
      → IsPatched k p
      → Outcome id true
          (address k id)
          (call_instruction k.trampoline (address k id))
          p
          (install_probe k (pos id) p)
  unfolding install_probe
  install_probe-Outcome id p negative v =
      let result : ℤ × Probes → Type 0 =
        Outcome id true (address k id) (call_instruction k.trampoline (address k id)) p in
      if_cases result (leb k.supported id) (λ _. inr (refl, refl, refl))
        (λ _.
          if_cases result (p.syscall_presence_bitmap id) (λ _. inr (refl, refl, refl))
            (λ _.
              install_found-Outcome id p _ (find_address-code id p negative)
                (find_address-Finds k id p v)))
