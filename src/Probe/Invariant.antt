-- ===== src/Probe/Invariant.antt =====
-- The invariant of the probes: where a system call is marked as probed, the CALL of the trampoline
-- stands at its address. Nothing is said of the calls that are not marked.
use syscall_throttling.Base.{
  ℕ, ◌+◌, ◌≤◌, ◌<◌, ◌^◌, ◌≡◌, ◌≢◌, refl, ap, subst, ◌∙◌, ◌⊎◌, inl, inr, Bool, true, not, ◌&&◌, ◌||◌,
  List, ◌==◌, ==_iff, if_cases, Bool-cases, update, arith,
}
use syscall_throttling.Base.Int.{ℤ, is_zero}
use syscall_throttling.Base.Lists.{length}
use syscall_throttling.Probe.Text.{poke, poke-outside, poke-five, IsCall}
use syscall_throttling.Probe.{
  Kernel, Probes, call_instruction, apply_smp_patch, find_address, finish,
}

module _ (k : Kernel) where
  abbrev pub is_found : ℕ → Bool
  is_found id = is_zero (k.kprobe id).0

  abbrev pub address : ℕ → ℕ
  address id = (k.kprobe id).1

  -- The functions that the kernel finds do not overlap in their first five bytes, and end below
  -- 2 ^ 64.
  pub record IsApart : Type 0 where
    pub apart :
        (i j : ℕ)
        → is_found i ≡ true
        → is_found j ≡ true
        → i ≢ j
        → (address i + 5 ≤ address j) ⊎ (address j + 5 ≤ address i)
    pub below : (i : ℕ) → is_found i ≡ true → address i + 5 ≤ 2 ^ 64

  -- What holds of a call that is marked, and of an address that is kept.
  pub record IsPatched (p : Probes) : Type 0 where
    pub present :
        (id : ℕ)
        → p.syscall_presence_bitmap id ≡ true
        → (is_found id ≡ true) × IsCall k.trampoline (address id) p.text
    pub kept :
        (id : ℕ)
        → (p.syscall_addresses id ≡ 0)
          ⊎ ((p.syscall_addresses id ≡ address id) × (is_found id ≡ true))

  pub poke-IsCall :
      (a : ℕ) (text : ℕ → ℕ)
      → a + 5 ≤ 2 ^ 64
      → IsCall k.trampoline a (poke a (call_instruction k.trampoline a) text)
  poke-IsCall a text small =
      let (e0, e1, e2, e3, e4) = poke-five a _ _ _ _ _ text in (e0, omega (arith, e1, e2, e3, e4))

  other-IsCall :
      (ok : IsApart) (i j : ℕ) (bs : List ℕ) (text : ℕ → ℕ)
      → length bs ≡ 5
      → is_found i ≡ true
      → is_found j ≡ true
      → i ≢ j
      → IsCall k.trampoline (address j) text
      → IsCall k.trampoline (address j) (poke (address i) bs text)
  other-IsCall ok i j bs text five fi fj differ (op, target) =
      let away : (n : ℕ) → n < 5 → poke (address i) bs text (address j + n) ≡ text (address j + n) =
        λ n small.
          poke-outside (address i) bs text (address j + n) (elim (ok.apart i j fi fj differ) [
            | inl before ↦ inr (omega arith)
            | inr after ↦ inl (omega arith)
          ]) in
      let first : poke (address i) bs text (address j) ≡ text (address j) =
        ap (poke (address i) bs text) (omega arith)
        ∙ away 0 (omega arith)
        ∙ ap text (omega arith) in
      (
        first ∙ op,
        omega (
          arith,
          target,
          away 1 (omega arith),
          away 2 (omega arith),
          away 3 (omega arith),
          away 4 (omega arith),
        ),
      )

  -- Writing the five bytes of one call, and its bit.
  poke-IsPatched :
      (ok : IsApart) (id : ℕ) (bs : List ℕ) (present : Bool) (p : Probes)
      → length bs ≡ 5
      → is_found id ≡ true
      → (present ≡ true → IsCall k.trampoline (address id) (poke (address id) bs p.text))
      → IsPatched p
      → IsPatched (record p {
        text = poke (address id) bs p.text;
        poke_found = true;
        syscall_presence_bitmap = update p.syscall_presence_bitmap id present;
      })
  poke-IsPatched ok id bs present p five found written v = record {
    present = λ j marked. elim (Bool-cases (id == j)) [
      | inl same ↦
          let e = (==_iff id j).0 same in
          subst
            (λ c.
              (is_found c ≡ true) × IsCall k.trampoline (address c) (poke (address id) bs p.text))
            e (found, written (ground (arith, marked, same)))
      | inr other ↦
          let (fj, call) = v.present j (ground (arith, marked, other)) in
          (fj, other-IsCall ok id j bs p.text five found fj (λ e. ground (arith, other, e)) call)
    ];
    kept = v.kept;
  }

  -- What looking the address up gives.
  unfoldable pub Finds : ℕ → Probes → ℤ × ℕ × Probes → Type 0
  Finds id p (result, a, p') =
      IsPatched p'
      × (p'.text ≡ p.text)
      × (p'.syscall_presence_bitmap ≡ p.syscall_presence_bitmap)
      × (is_zero result ≡ true → (a ≡ address id) × (is_found id ≡ true))

  pub find_address-Finds : (id : ℕ) (p : Probes) → IsPatched p → Finds id p (find_address k id p)
  unfolding find_address Finds
  find_address-Finds id p v =
      if_cases (Finds id p) (not (p.syscall_addresses id == 0))
        (λ known. (
          v,
          refl,
          refl,
          λ _. elim (v.kept id) [
            | inl none_kept ↦ absurd (ground (arith, known, none_kept))
            | inr e ↦ e
          ],
        ))
        (λ unknown.
          if_cases (Finds id p) (is_found id)
            (λ found. (
              record {
                present = v.present;
                kept = λ j. elim (Bool-cases (id == j)) [
                  | inl same ↦
                      let e = (==_iff id j).0 same in
                      inr
                        (ground (arith, same, ap address e), subst (λ c. is_found c ≡ true) e found)
                  | inr other ↦
                      subst (λ a. (a ≡ 0) ⊎ ((a ≡ address j) × (is_found j ≡ true)))
                        (ground (arith, other)) (v.kept j)
                ];
              },
              refl,
              refl,
              λ _. (refl, found),
            ))
            (λ lost. (v, refl, refl, λ zero_result. cc)))

  -- What an operation leaves behind.
  unfoldable pub Keeps : ℤ × Probes → Type 0
  Keeps (result, p) = IsPatched p

  pub patch-Keeps :
      (ok : IsApart) (id : ℕ) (bs : List ℕ) (present : Bool) (p : Probes)
      → length bs ≡ 5
      → is_found id ≡ true
      → (present ≡ true → IsCall k.trampoline (address id) (poke (address id) bs p.text))
      → IsPatched p
      → Keeps (finish k id present (apply_smp_patch k (address id) bs p))
  unfolding finish apply_smp_patch Keeps
  patch-Keeps ok id bs present p five found written v =
      if_cases (λ (r : ℤ × Probes). Keeps (finish k id present r))
        (p.poke_found || (k.has_mutex && k.has_poke))
        (λ _. poke-IsPatched ok id bs present p five found written v) (λ _. v)
