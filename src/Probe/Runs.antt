-- ===== src/Probe/Runs.antt =====
-- Any sequence of `installProbe` and `removeProbe`.
use syscall_throttling.Base.{ℕ, refl, subst, sym, true, false, not, List, [], ◌∷◌, leb, if_cases}
use syscall_throttling.Base.Int.{ℤ, pos, negsuc, is_zero}
use syscall_throttling.Probe.{
  Kernel, Probes, call_instruction, nop_instruction, apply_smp_patch, finish, install_found,
  remove_found, install_probe, remove_probe,
}
use syscall_throttling.Probe.Invariant.{
  IsApart, IsPatched, Finds, find_address-Finds, Keeps, patch-Keeps, poke-IsCall, address,
}

pub data Request : Type 0 where
  install remove : ℤ → Request

module _ (k : Kernel) where
  unfoldable pub serve : Request → Probes → ℤ × Probes
  serve (install id) p = install_probe k id p
  serve (remove id) p = remove_probe k id p

  unfoldable pub run : List Request → Probes → Probes
  run [] p = p
  run (r ∷ rs) p = run rs (serve r p).1

  module _ (ok : IsApart k) where
    install_found-Keeps :
        (id : ℕ) (p : Probes) (r : ℤ × ℕ × Probes) → Finds k id p r → Keeps k (install_found k id r)
    unfolding install_found Finds Keeps
    install_found-Keeps id p (result, a, p') (v, same_text, same_bits, at_call) =
        if_cases (Keeps k) (is_zero result)
          (λ found.
            let (same_address, here) = at_call found in
            subst
              (λ b.
                Keeps k
                  (finish k id true (apply_smp_patch k b (call_instruction k.trampoline b) p')))
              (sym same_address)
              (patch-Keeps k ok id _ true p' refl here
                (λ _. poke-IsCall k (address k id) p'.text (ok.below id here)) v))
          (λ lost. v)

    remove_found-Keeps :
        (id : ℕ) (p : Probes) (r : ℤ × ℕ × Probes) → Finds k id p r → Keeps k (remove_found k id r)
    unfolding remove_found Finds Keeps
    remove_found-Keeps id p (result, a, p') (v, same_text, same_bits, at_call) =
        if_cases (Keeps k) (is_zero result)
          (λ found.
            let (same_address, here) = at_call found in
            subst (λ b. Keeps k (finish k id false (apply_smp_patch k b nop_instruction p')))
              (sym same_address)
              (patch-Keeps k ok id nop_instruction false p' refl here (λ e. cc) v))
          (λ lost. v)

    serve-Keeps : (r : Request) (p : Probes) → IsPatched k p → Keeps k (serve r p)
    unfolding serve install_probe remove_probe Keeps
    serve-Keeps (install (negsuc n)) p v = v
    serve-Keeps (install (pos id)) p v =
        if_cases (Keeps k) (leb k.supported id) (λ _. v)
          (λ _.
            if_cases (Keeps k) (p.syscall_presence_bitmap id) (λ _. v)
              (λ _. install_found-Keeps id p _ (find_address-Finds k id p v)))
    serve-Keeps (remove (negsuc n)) p v = v
    serve-Keeps (remove (pos id)) p v =
        if_cases (Keeps k) (leb k.supported id) (λ _. v)
          (λ _.
            if_cases (Keeps k) (not (p.syscall_presence_bitmap id)) (λ _. v)
              (λ _. remove_found-Keeps id p _ (find_address-Finds k id p v)))

    pub install_probe-IsPatched :
        (p : Probes) → IsPatched k p → (id : ℤ) → IsPatched k (install_probe k id p).1
    unfolding serve Keeps
    install_probe-IsPatched p v id = serve-Keeps (install id) p v

    pub remove_probe-IsPatched :
        (p : Probes) → IsPatched k p → (id : ℤ) → IsPatched k (remove_probe k id p).1
    unfolding serve Keeps
    remove_probe-IsPatched p v id = serve-Keeps (remove id) p v

    -- After any sequence of installations and removals, whatever fails, a system call that is marked
    -- in the bitmap has a CALL of the trampoline at the address that a kprobe finds for it, and an
    -- address that is kept is that one. The functions that kprobes find do not overlap in their
    -- first five bytes.
    pub run-IsPatched : (rs : List Request) (p : Probes) → IsPatched k p → IsPatched k (run rs p)
    unfolding run Keeps
    run-IsPatched [] p v = v
    run-IsPatched (r ∷ rs) p v = run-IsPatched rs (serve r p).1 (serve-Keeps r p v)
