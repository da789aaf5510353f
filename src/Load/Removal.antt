-- ===== src/Load/Removal.antt =====
-- The loops of `sysThrot_cleanup` that take every probe off.
use syscall_throttling.Base.{
  ℕ, zero, suc, ◌+◌, ◌*◌, ◌/◌, ◌≤◌, ◌<◌, ◌≡◌, refl, ap, subst, sym, ◌∙◌, Bool, true, false, not,
  ◌&&◌, ◌||◌, ◌==◌, ==_iff, inl, inr, leb, if◌then◌else◌, if_cases, Bool-cases, update, arith,
}
use syscall_throttling.Base.Int.{ℤ, pos, is_zero}
use syscall_throttling.Probe.{
  Kernel, Probes, remove_probe, remove_found, find_address, apply_smp_patch, finish,
}
use syscall_throttling.Probe.Invariant.{IsApart, IsPatched, is_found}
use syscall_throttling.Probe.Runs.{remove_probe-IsPatched}
use syscall_throttling.Load.{is_any, remove_marked, remove_bits, remove_bytes, remove_all}

unmarked_before : (bits : ℕ → Bool) (id i : ℕ) → update bits id false i ≡ true → bits i ≡ true
unmarked_before bits id i =
    if_cases (λ b. b ≡ true → bits i ≡ true) (id == i) (λ _ e. cc) (λ _ e. e)

update_clear : (bits : ℕ → Bool) (id i : ℕ) → bits i ≡ false → update bits id false i ≡ false
update_clear bits id i clear = if_cases (λ b. b ≡ false) (id == i) (λ _. refl) (λ _. clear)

update_same : (bits : ℕ → Bool) (id i : ℕ) → bits id ≡ false → update bits id false i ≡ bits i
update_same bits id i clear =
    if_cases (λ b. b ≡ bits i) (id == i)
      (λ same. sym (ap bits (sym ((==_iff id i).0 same)) ∙ clear)) (λ _. refl)

module _ (k : Kernel) where
  -- `removeProbe` for each marked call in turn: the calls from `id` on, `n` of them.
  unfoldable pub remove_from : ℕ → ℕ → Probes → Probes
  remove_from id zero p = p
  remove_from id (suc n) p = remove_from (suc id) n (remove_marked k id p)

  remove_from-append :
      (a b id : ℕ) (p : Probes)
      → remove_from id (a + b) p ≡ remove_from (id + a) b (remove_from id a p)
  unfolding remove_from
  remove_from-append zero b id p =
      let all : 0 + b ≡ b = omega arith in
      let here : id ≡ id + 0 = omega arith in
      ap (λ n. remove_from id n p) all ∙ ap (λ i. remove_from i b p) here
  remove_from-append (suc a) b id p =
      let q : Probes = remove_marked k id p in
      let next : suc id + a ≡ id + suc a = omega arith in
      let more : suc a + b ≡ suc (a + b) = omega arith in
      ap (λ n. remove_from id n p) more
      ∙ remove_from-append a b (suc id) q
      ∙ ap (λ i. remove_from i b (remove_from (suc id) a q)) next

  remove_bits-flat : (n i j : ℕ) (p : Probes) → remove_bits k i j n p ≡ remove_from (i * 8 + j) n p
  unfolding remove_bits remove_from
  remove_bits-flat zero i j p = refl
  remove_bits-flat (suc n) i j p =
      remove_bits-flat n i (suc j) (remove_marked k (i * 8 + j) p)
      ∙ ap (λ id. remove_from id n (remove_marked k (i * 8 + j) p)) (omega arith)

  -- A byte that is 0.
  remove_from-none :
      (n id : ℕ) (p : Probes)
      → is_any p.syscall_presence_bitmap id n ≡ false
      → remove_from id n p ≡ p
  unfolding remove_from remove_marked is_any
  remove_from-none zero id p clear = refl
  remove_from-none (suc n) id p clear =
      let here : p.syscall_presence_bitmap id ≡ false = ground (arith, clear) in
      let later : is_any p.syscall_presence_bitmap (suc id) n ≡ false = ground (arith, clear) in
      ap (remove_from (suc id) n) (rw here refl) ∙ remove_from-none n (suc id) p later

  byte-flat :
      (i : ℕ) (p : Probes)
      → (if is_any p.syscall_presence_bitmap (i * 8) 8 then remove_bits k i 0 8 p else p)
        ≡ remove_from (i * 8) 8 p
  byte-flat i p =
      if_cases (λ q. q ≡ remove_from (i * 8) 8 p) (is_any p.syscall_presence_bitmap (i * 8) 8)
        (λ _. remove_bits-flat 8 i 0 p ∙ ap (λ id. remove_from id 8 p) (omega arith))
        (λ clear. sym (remove_from-none 8 (i * 8) p clear))

  remove_bytes-flat : (n i : ℕ) (p : Probes) → remove_bytes k i n p ≡ remove_from (i * 8) (n * 8) p
  unfolding remove_bytes remove_from
  remove_bytes-flat zero i p = refl
  remove_bytes-flat (suc n) i p =
      let q : Probes = remove_from (i * 8) 8 p in
      let next : suc i * 8 ≡ i * 8 + 8 = omega arith in
      let more : 8 + n * 8 ≡ suc n * 8 = omega arith in
      remove_bytes-flat n (suc i) _
      ∙ ap (remove_from (suc i * 8) (n * 8)) (byte-flat i p)
      ∙ ap (λ id. remove_from id (n * 8) q) next
      ∙ sym (remove_from-append 8 (n * 8) (i * 8) p)
      ∙ ap (λ m. remove_from (i * 8) m p) more

  -- The nested loop over the bytes and bits of the bitmap, which leaves out the bytes that are 0, is
  -- one loop over the numbers of the calls, as many as the bitmap has bits.
  pub remove_all-flat :
      (nr_syscalls : ℕ) (p : Probes)
      → remove_all k nr_syscalls p ≡ remove_from 0 ((nr_syscalls / 8 + 1) * 8) p
  unfolding remove_all
  remove_all-flat nr_syscalls p = remove_bytes-flat (nr_syscalls / 8 + 1) 0 p

  -- The kernel's function for patching has been found or can be, and every mark is in range.
  pub record IsRemovable (p : Probes) : Type 0 where
    pub patched : IsPatched k p
    pub poke : (p.poke_found || (k.has_mutex && k.has_poke)) ≡ true
    pub below : (id : ℕ) → p.syscall_presence_bitmap id ≡ true → id < k.supported

  -- What taking the probe of `id` off leaves.
  record Clears (id : ℕ) (p p' : Probes) : Type 0 where
    removable : IsRemovable p'
    bits : (i : ℕ) → p'.syscall_presence_bitmap i ≡ update p.syscall_presence_bitmap id false i

  find_address-marked :
      (id : ℕ) (p : Probes)
      → is_found k id ≡ true
      → let (result, a, p1) = find_address k id p in
        (is_zero result ≡ true)
        × (p1.syscall_presence_bitmap ≡ p.syscall_presence_bitmap)
        × (p1.poke_found ≡ p.poke_found)
  unfolding find_address
  find_address-marked id p found =
      if_cases
        (λ (r : ℤ × ℕ × Probes).
          (is_zero r.0 ≡ true)
          × (r.2.syscall_presence_bitmap ≡ p.syscall_presence_bitmap)
          × (r.2.poke_found ≡ p.poke_found))
        (not (p.syscall_addresses id == 0)) (λ _. (refl, refl, refl))
        (λ _. rw found (refl, refl, refl))

  remove_found-clears :
      (id : ℕ) (p : Probes) (r : ℤ × ℕ × Probes)
      → (p.poke_found || (k.has_mutex && k.has_poke)) ≡ true
      → (is_zero r.0 ≡ true)
        × (r.2.syscall_presence_bitmap ≡ p.syscall_presence_bitmap)
        × (r.2.poke_found ≡ p.poke_found)
      → let (_, p') = remove_found k id r in
        (p'.poke_found ≡ true)
        × (p'.syscall_presence_bitmap ≡ update p.syscall_presence_bitmap id false)
  unfolding remove_found apply_smp_patch finish
  remove_found-clears id p (result, a, p1) poke (zero_result, bits, same_poke) =
      let poke1 : (p1.poke_found || (k.has_mutex && k.has_poke)) ≡ true =
        ap (λ b. b || (k.has_mutex && k.has_poke)) same_poke ∙ poke in
      rw (zero_result, poke1) (refl, ap (λ f. update f id false) bits)

  module _ (ok : IsApart k) where
    remove_probe-Clears :
        (id : ℕ) (p : Probes)
        → IsRemovable p
        → p.syscall_presence_bitmap id ≡ true
        → Clears id p (remove_probe k (pos id) p).1
    unfolding remove_probe
    remove_probe-Clears id p v marked =
        let kept = remove_probe-IsPatched k ok p v.patched (pos id) in
        let in_range : leb k.supported id ≡ false = ground (arith, v.below id marked) in
        let (poke, bits) =
          remove_found-clears id p (find_address k id p) v.poke
            (find_address-marked id p (v.patched.present id marked).0) in
        let e : remove_probe k (pos id) p ≡ remove_found k id (find_address k id p) =
          rw (in_range, marked) refl in
        subst (λ (r : ℤ × Probes). Clears id p r.1) (sym e)
          (record {
            removable = record {
              patched = subst (λ (r : ℤ × Probes). IsPatched k r.1) e kept;
              poke = rw poke refl;
              below = λ i at_i. v.below i (
                  unmarked_before p.syscall_presence_bitmap id i
                    (ap (λ (f : ℕ → Bool). f i) (sym bits) ∙ at_i));
            };
            bits = λ i. ap (λ (f : ℕ → Bool). f i) bits;
          })

    remove_marked-Clears :
        (id : ℕ) (p : Probes) → IsRemovable p → Clears id p (remove_marked k id p)
    unfolding remove_marked
    remove_marked-Clears id p v =
        if_cases (Clears id p) (p.syscall_presence_bitmap id)
          (λ marked. remove_probe-Clears id p v marked)
          (λ clear. record {
            removable = v;
            bits = λ i. sym (update_same p.syscall_presence_bitmap id i clear);
          })

    -- What the loop leaves.
    abbrev Cleared : ℕ → ℕ → Probes → Probes → Type 0
    Cleared id n p p' =
        IsRemovable p'
        × ((i : ℕ) → id ≤ i → i < id + n → p'.syscall_presence_bitmap i ≡ false)
        × ((i : ℕ) → p.syscall_presence_bitmap i ≡ false → p'.syscall_presence_bitmap i ≡ false)

    remove_from-Cleared :
        (n id : ℕ) (p : Probes) → IsRemovable p → Cleared id n p (remove_from id n p)
    unfolding remove_from
    remove_from-Cleared zero id p v = (v, λ i low high. absurd (omega arith), λ i clear. clear)
    remove_from-Cleared (suc n) id p v =
        let here = remove_marked-Clears id p v in
        let (removable, range, kept) =
          remove_from-Cleared n (suc id) (remove_marked k id p) here.removable in
        (
          removable,
          λ i low high. elim (Bool-cases (id == i)) [
            | inl same ↦ kept i (here.bits i ∙ rw same refl)
            | inr other ↦ range i (ground (arith, other, low)) (omega arith)
          ],
          λ i clear. kept i (here.bits i ∙ update_clear p.syscall_presence_bitmap id i clear),
        )

    -- After the loops no call is marked: the kernel's function for patching can be called, every
    -- marked call is patched, and the bitmap has a bit for every call that can be marked.
    pub remove_all-clears :
        (nr_syscalls : ℕ) (p : Probes)
        → IsRemovable p
        → k.supported ≤ (nr_syscalls / 8 + 1) * 8
        → IsPatched k (remove_all k nr_syscalls p)
          × ((id : ℕ) → (remove_all k nr_syscalls p).syscall_presence_bitmap id ≡ false)
    remove_all-clears nr_syscalls p v wide =
        let n : ℕ = (nr_syscalls / 8 + 1) * 8 in
        let (removable, range, kept) = remove_from-Cleared n 0 p v in
        subst (λ (q : Probes). IsPatched k q × ((id : ℕ) → q.syscall_presence_bitmap id ≡ false))
          (sym (remove_all-flat nr_syscalls p))
          (
            removable.patched,
            λ id. elim (Bool-cases (p.syscall_presence_bitmap id)) [
              | inr clear ↦ kept id clear
              | inl marked ↦ range id (omega arith) (omega (arith, v.below id marked))
            ],
          )
