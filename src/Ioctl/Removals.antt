-- ===== src/Ioctl/Removals.antt =====
-- The commands that deregister something, and the one that turns the throttling off, and what is
-- registered after them.
use syscall_throttling.Base.{
  ℕ, suc, ◌<◌, ◌≡◌, refl, ap, sym, ◌∙◌, inl, inr, Bool, true, false, not, ◌&&◌, some, List, [], ◌∷◌,
  leb, ◌==◌, if_cases, update, update_self, arith,
}
use syscall_throttling.Base.Int.{ℤ, pos, is_zero, is_negative}
use syscall_throttling.Base.Code.{enomem, einval}
use syscall_throttling.Base.Heap.{Heap}
use syscall_throttling.Base.Lists.{length}
use syscall_throttling.Base.Text.{task_comm_len}
use syscall_throttling.Store.{Store, remove_user_from_store, remove_program_from_store}
use syscall_throttling.Store.Keys.{compare_user_iff, compare_program_iff}
use syscall_throttling.Store.Registry.{
  IsValid, has_user, has_program, Refused, remove_user-outcome, remove_program-outcome,
}
use syscall_throttling.Store.History.{remove_user, remove_program, serve}
use syscall_throttling.Probe.{
  Kernel, Probes, nop_instruction, remove_probe, apply_smp_patch, find_address, remove_found,
  finish,
}
use syscall_throttling.Probe.Invariant.{is_found}
use syscall_throttling.Ioctl.{Module, set_store, set_probes, change_user, change_program}
use syscall_throttling.Ioctl.Effects.{
  accepts, AreErrors, StoreGrows, Grows, Grows-refl, Grows-trans, IsOrder, Effect,
}
use syscall_throttling.Ioctl.Marks.{apply_smp_patch-code}

-- Nothing is registered, marked or on in the second state that is not so in the first.
abbrev pub Shrinks : Module → Module → Type 0
Shrinks m m' = Grows m' m

pub Shrinks-IsOrder : IsOrder Shrinks
Shrinks-IsOrder = record {
  same = Grows-refl;
  then = λ m m' m'' s s'. Grows-trans m'' m' m s' s;
  heap = λ m h. record { store = (λ u k. k, λ p k. k); marked = λ id k. k; working = λ k. k };
}

-- For the store.
abbrev Drops : (ℕ → Bool) → Store → (Store → Type 0) → ℤ × Store × Heap → Type 0
Drops passes s Goal (code, s', h') = StoreGrows s' s × (accepts passes code ≡ true → Goal s')

module _ (passes : ℕ → Bool) (nomem : passes 12 ≡ false) where
  refused :
      (s : Store) (h : Heap) (Goal : Store → Type 0) (code : ℤ) (r : ℤ × Store × Heap)
      → (accepts passes code ≡ true → Goal s)
      → Refused s h code r
      → Drops passes s Goal r
  refused s h Goal code (c, s', h') goal (e, same, b) = rw (e, same) ((λ u v. v, λ p v. v), goal)

  and_right : (a b : Bool) → (a && b) ≡ true → b ≡ true
  and_right a b e = ground (arith, e)

  not_and : (a b : Bool) → a ≡ true → (not a && b) ≡ false
  not_and a b e = rw e refl

  remove_user-Drops :
      (available : ℕ → Bool) (s : Store) (h : Heap) (u : ℕ)
      → IsValid s
      → Drops passes s (λ s'. has_user s' u ≡ false) (serve available (remove_user u) s h)
  unfolding serve
  remove_user-Drops available s h u v =
      let Goal : Store → Type 0 = λ s'. has_user s' u ≡ false in
      let r = remove_user_from_store available s u h in
      elim (remove_user-outcome available s h v u) [
        | inl (gone, f) ↦ refused s h Goal einval r (λ _. gone) f
        | inr (_, inl f) ↦ refused s h Goal enomem r (λ ok. absurd (cc (ok, nomem))) f
        | inr (_, inr (_, _, users, programs, _)) ↦ (
          (λ w new. and_right _ _ (sym (users w) ∙ new), λ p new. sym (programs p) ∙ new),
          λ _. users u ∙ not_and _ _ ((compare_user_iff u u).1 refl),
        )
      ]

  remove_program-Drops :
      (available : ℕ → Bool) (s : Store) (h : Heap) (p : List ℕ)
      → IsValid s
      → Drops passes s (λ s'. has_program s' p ≡ false) (serve available (remove_program p) s h)
  unfolding serve
  remove_program-Drops available s h p v =
      let Goal : Store → Type 0 = λ s'. has_program s' p ≡ false in
      let r = remove_program_from_store available s p h in
      elim (remove_program-outcome available s h v p) [
        | inl (gone, f) ↦ refused s h Goal einval r (λ _. gone) f
        | inr (_, inl f) ↦ refused s h Goal enomem r (λ ok. absurd (cc (ok, nomem))) f
        | inr (_, inr (_, _, users, programs, _)) ↦ (
          (λ w new. sym (users w) ∙ new, λ q new. and_right _ _ (sym (programs q) ∙ new)),
          λ _. programs p ∙ not_and _ _ ((compare_program_iff p p).1 refl),
        )
      ]

  set_store-Effect :
      (m : Module) (Goal : Store → Type 0) (r : ℤ × Store × Heap)
      → Drops passes m.driver.store Goal r
      → Effect Shrinks passes m (λ m'. Goal m'.driver.store) (set_store m r)
  set_store-Effect m Goal (code, s', h') (drops, goal) =
      (record { store = drops; marked = λ id h. h; working = λ h. h }, goal)

  module _ (available : ℕ → Bool) (k : Kernel) (made : Bool) (armed : ℤ) where
    pub change_user-Shrinks :
        (u : ℕ) (m : Module) (h : Heap)
        → IsValid m.driver.store
        → Effect Shrinks passes m
            (λ m'. has_user m'.driver.store u ≡ false)
            (change_user available k made armed remove_user (some u) m h)
    unfolding change_user
    change_user-Shrinks u m h v =
        set_store-Effect m (λ s. has_user s u ≡ false) _
          (remove_user-Drops available m.driver.store h u v)

    pub change_program-Shrinks :
        (p : List ℕ) (m : Module) (h : Heap)
        → 0 < length p
        → length p < task_comm_len
        → IsValid m.driver.store
        → Effect Shrinks passes m
            (λ m'. has_program m'.driver.store p ≡ false)
            (change_program available k made armed remove_program (pos (length p), p) m h)
    unfolding change_program
    change_program-Shrinks [] m h full short v = absurd (omega arith)
    change_program-Shrinks (b ∷ bs) m h full short v =
        let fits : leb task_comm_len (suc (length bs)) ≡ false = ground arith in
        rw fits (
          set_store-Effect m (λ s. has_program s (b ∷ bs) ≡ false) _
            (remove_program-Drops available m.driver.store h (b ∷ bs) v))

module _ (passes : ℕ → Bool) (errors : AreErrors passes) where
  pub set_probes-Shrinks :
      (m : Module) (h : Heap) (id : ℕ) (r : ℤ × Probes)
      → ((i : ℕ) → r.1.syscall_presence_bitmap i ≡ true → m.probes.syscall_presence_bitmap i ≡ true)
      → (accepts passes r.0 ≡ true → r.1.syscall_presence_bitmap id ≡ false)
      → Effect Shrinks passes m
          (λ m'. m'.probes.syscall_presence_bitmap id ≡ false)
          (set_probes m h r)
  set_probes-Shrinks m h id (code, p) drops goal =
      (record { store = (λ u h. h, λ p h. h); marked = drops; working = λ h. h }, goal)

  module _ (k : Kernel) where
    -- No mark is new, and with a status that passes `id` has none.
    abbrev pub Unmarks : ℕ → Probes → ℤ × Probes → Type 0
    Unmarks id p (code, p') =
        ((i : ℕ) → p'.syscall_presence_bitmap i ≡ true → p.syscall_presence_bitmap i ≡ true)
        × (accepts passes code ≡ true → p'.syscall_presence_bitmap id ≡ false)

    update_marks : (bits : ℕ → Bool) (id i : ℕ) → update bits id false i ≡ true → bits i ≡ true
    update_marks bits id i marked = ground (arith, marked)

    finish-Unmarks :
        (id : ℕ) (p p1 : Probes) (r : ℤ × Probes)
        → p1.syscall_presence_bitmap ≡ p.syscall_presence_bitmap
        → r.1.syscall_presence_bitmap ≡ p1.syscall_presence_bitmap
        → (is_negative r.0 ≡ true → accepts passes r.0 ≡ false)
        → Unmarks id p (finish k id false r)
    unfolding finish
    finish-Unmarks id p p1 (code, p2) e1 e2 fails =
        let same : (i : ℕ)
            → p2.syscall_presence_bitmap i ≡ true
            → p.syscall_presence_bitmap i ≡ true =
          λ i marked. sym (ap (λ (f : ℕ → Bool). f i) (e2 ∙ e1)) ∙ marked in
        if_cases (Unmarks id p) (is_negative code)
          (λ error. (same, λ ok. absurd (cc (fails error, ok))))
          (λ _. (
            λ i marked. same i (update_marks p2.syscall_presence_bitmap id i marked),
            λ _. update_self p2.syscall_presence_bitmap id false,
          ))

    remove_found-Unmarks :
        (id : ℕ) (p : Probes) (r : ℤ × ℕ × Probes)
        → r.2.syscall_presence_bitmap ≡ p.syscall_presence_bitmap
        → Unmarks id p (remove_found k id r)
    unfolding remove_found
    remove_found-Unmarks id p (result, a, p1) same =
        let (_, kept, code) = apply_smp_patch-code passes errors k a nop_instruction p1 in
        let (not_permitted, _, _, _, _, _) = errors in
        if_cases (Unmarks id p) (is_zero result)
          (λ _. finish-Unmarks id p p1 (apply_smp_patch k a nop_instruction p1) same kept code)
          (λ _. (
            λ i marked. sym (ap (λ (f : ℕ → Bool). f i) same) ∙ marked,
            λ ok. absurd (cc (not_permitted, ok)),
          ))

    find_address-marks :
        (id : ℕ) (p : Probes)
        → (find_address k id p).2.syscall_presence_bitmap ≡ p.syscall_presence_bitmap
    unfolding find_address
    find_address-marks id p =
        let result : ℤ × ℕ × Probes → Type 0 =
          λ r. r.2.syscall_presence_bitmap ≡ p.syscall_presence_bitmap in
        if_cases result (not (p.syscall_addresses id == 0)) (λ _. refl)
          (λ _. if_cases result (is_found k id) (λ _. refl) (λ _. refl))

    unmarked : (b : Bool) → not b ≡ true → b ≡ false
    unmarked b e = ground (arith, e)

    pub remove_probe-Unmarks : (id : ℕ) (p : Probes) → Unmarks id p (remove_probe k (pos id) p)
    unfolding remove_probe
    remove_probe-Unmarks id p =
        let (_, _, _, _, invalid, _) = errors in
        if_cases (Unmarks id p) (leb k.supported id)
          (λ _. (λ i h. h, λ ok. absurd (cc (invalid, ok))))
          (λ _.
            if_cases (Unmarks id p) (not (p.syscall_presence_bitmap id))
              (λ gone. (λ i h. h, λ _. unmarked _ gone))
              (λ _. remove_found-Unmarks id p (find_address k id p) (find_address-marks id p)))
