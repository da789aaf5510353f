-- ===== src/Probe/Symbols.antt =====
-- sysThrot.c: how `apply_smp_patch` finds the two symbols of the kernel that it needs, with the two
-- pointers that it keeps them in.
use syscall_throttling.Base.{
  ℕ, ◌≡◌, refl, ap, subst, sym, ◌∙◌, Bool, true, false, not, Option, none, some, List, [], ◌∷◌,
  ◌==◌, if◌then◌else◌, Bool-cases, inl, inr,
}
use syscall_throttling.Base.Int.{ℤ, pos}
use syscall_throttling.Base.Code.{success, enoent}
use syscall_throttling.Probe.Text.{poke}
use syscall_throttling.Probe.{Kernel, Probes, apply_smp_patch}

-- The two pointers, 0 for NULL.
pub record Pointers : Type 0 where
  pub kernel_text_mutex : ℕ
  pub smp_text_poke_single_fn : ℕ

-- What the kernel answers to a look-up: whether `register_kprobe` succeeds, and what
-- `kallsyms_lookup_name` returns then.
pub record Answer : Type 0 where
  pub registered : Bool
  pub address : ℕ

unfoldable pub lookup_symbol : Answer → ℕ
lookup_symbol a = if a.registered then a.address else 0

-- `text_mutex` and `smp_text_poke_single` are the answers for these names.
module _ (text_mutex smp_text_poke_single : Answer) where
  unfoldable pub init_patch_locks : Pointers → ℤ × Pointers
  init_patch_locks s =
      let s1 = record s { kernel_text_mutex = lookup_symbol text_mutex } in
      (if s1.kernel_text_mutex == 0 then enoent else success, s1)

  unfoldable pub my_patch_init : Pointers → ℤ × Pointers
  my_patch_init s =
      let s1 = (init_patch_locks s).1 in
      let s2 = record s1 { smp_text_poke_single_fn = lookup_symbol smp_text_poke_single } in
      if s1.kernel_text_mutex == 0
      then (enoent, s1)
      else if s2.smp_text_poke_single_fn == 0
      then (enoent, s2)
      else (success, s2)

  -- The locked part; `none` when the mutex that it locks is NULL.
  unfoldable pub poke_locked : ℕ → List ℕ → Pointers → (ℕ → ℕ) → Option (ℤ × Pointers × (ℕ → ℕ))
  poke_locked target_addr insn s text =
      if s.smp_text_poke_single_fn == 0
      then some (enoent, s, text)
      else if s.kernel_text_mutex == 0
      then none
      else some (pos 1, s, poke target_addr insn text)

  unfoldable pub smp_patch : ℕ → List ℕ → Pointers → (ℕ → ℕ) → Option (ℤ × Pointers × (ℕ → ℕ))
  smp_patch target_addr insn s text =
      poke_locked target_addr insn
        (if s.smp_text_poke_single_fn == 0 then (my_patch_init s).1 else s) text

  unfoldable pub add_code :
      ℤ → Option (List ℤ × Pointers × (ℕ → ℕ)) → Option (List ℤ × Pointers × (ℕ → ℕ))
  add_code code none = none
  add_code code (some (codes, s, text)) = some (code ∷ codes, s, text)

  -- A patch, and what follows it.
  unfoldable pub go_on :
      (Pointers → (ℕ → ℕ) → Option (List ℤ × Pointers × (ℕ → ℕ)))
      → Option (ℤ × Pointers × (ℕ → ℕ))
      → Option (List ℤ × Pointers × (ℕ → ℕ))
  go_on rest none = none
  go_on rest (some (code, s, text)) = add_code code (rest s text)

  -- Patches one after the other, with their status codes.
  unfoldable pub smp_patches :
      List (ℕ × List ℕ) → Pointers → (ℕ → ℕ) → Option (List ℤ × Pointers × (ℕ → ℕ))
  smp_patches [] s text = some ([], s, text)
  smp_patches ((a, insn) ∷ rest) s text = go_on (smp_patches rest) (smp_patch a insn s text)

-- The same patches as the probes are modelled with.
unfoldable pub apply_all : Kernel → List (ℕ × List ℕ) → Probes → List ℤ × Probes
apply_all k [] p = ([], p)
apply_all k ((a, insn) ∷ rest) p =
    let (code, p1) = apply_smp_patch k a insn p in
    let (codes, p2) = apply_all k rest p1 in (code ∷ codes, p2)

abbrev pub is_found : ℕ → Bool
is_found a = not (a == 0)

-- The pointers stand for the state of the probes: the function has been found with the mutex.
pub record Stands (s : Pointers) (p : Probes) : Type 0 where
  pub found : p.poke_found ≡ is_found s.smp_text_poke_single_fn
  pub lockable : p.poke_found ≡ true → (s.kernel_text_mutex == 0) ≡ false

-- A patch as it should be.
abbrev Patches : ℤ × Probes → Option (ℤ × Pointers × (ℕ → ℕ)) → Type 0
Patches (code, p') none = ⊥
Patches (code, p') (some (code', s', text')) = (code' ≡ code) × (text' ≡ p'.text) × Stands s' p'

-- What a sequence of patches should give.
abbrev pub Refines : List ℤ × Probes → Option (List ℤ × Pointers × (ℕ → ℕ)) → Type 0
Refines (codes, p') none = ⊥
Refines (codes, p') (some (codes', s', text')) = (codes' ≡ codes) × (text' ≡ p'.text) × Stands s' p'

module _ (k : Kernel) (text_mutex smp_text_poke_single : Answer)
    (has_mutex : k.has_mutex ≡ is_found (lookup_symbol text_mutex))
    (has_poke : k.has_poke ≡ is_found (lookup_symbol smp_text_poke_single)) where
  smp_patch-Patches :
      (a : ℕ) (insn : List ℕ) (s : Pointers) (p : Probes)
      → Stands s p
      → Patches
          (apply_smp_patch k a insn p)
          (smp_patch text_mutex smp_text_poke_single a insn s p.text)
  unfolding smp_patch my_patch_init init_patch_locks poke_locked apply_smp_patch
  smp_patch-Patches a insn s p v = elim (Bool-cases (s.smp_text_poke_single_fn == 0)) [
    | inr set ↦
        simp (set, v.found, v.lockable (v.found ∙ ap not set))
          (
            refl,
            refl,
            record { found = sym (ap not set); lockable = λ _. v.lockable (v.found ∙ ap not set) },
          )
    | inl unset ↦ elim (Bool-cases (lookup_symbol text_mutex == 0)) [
      | inl lost ↦
          simp (unset, lost, v.found, has_mutex, has_poke)
            (
              refl,
              refl,
              record {
                found = v.found;
                lockable = λ found. absurd (cc (found, v.found ∙ ap not unset));
              },
            )
      | inr mutex ↦ elim (Bool-cases (lookup_symbol smp_text_poke_single == 0)) [
        | inl lost ↦
            simp (unset, mutex, lost, v.found, has_mutex, has_poke)
              (
                refl,
                refl,
                record {
                  found = v.found ∙ ap not unset ∙ sym (ap not lost);
                  lockable = λ found. absurd (cc (found, v.found ∙ ap not unset));
                },
              )
        | inr function ↦
            simp (unset, mutex, function, v.found, has_mutex, has_poke)
              (refl, refl, record { found = sym (ap not function); lockable = λ _. mutex })
      ]
    ]
  ]

  add_code-Refines :
      (code code' : ℤ) (later : List ℤ × Probes) (rest : Option (List ℤ × Pointers × (ℕ → ℕ)))
      → code' ≡ code
      → Refines later rest
      → Refines (code ∷ later.0, later.1) (add_code text_mutex smp_text_poke_single code' rest)
  unfolding add_code
  add_code-Refines code code' later none same impossible = impossible
  add_code-Refines code code' later (some (codes, s, text)) same (codes_eq, text_eq, v) =
      (ap (λ c. c ∷ codes) same ∙ ap (λ cs. code ∷ cs) codes_eq, text_eq, v)

  go_on-Refines :
      (first : ℤ × Probes) (later : List ℤ × Probes)
      (rest : Pointers → (ℕ → ℕ) → Option (List ℤ × Pointers × (ℕ → ℕ)))
      (r : Option (ℤ × Pointers × (ℕ → ℕ)))
      → Patches first r
      → ((s : Pointers) → Stands s first.1 → Refines later (rest s first.1.text))
      → Refines (first.0 ∷ later.0, later.1) (go_on text_mutex smp_text_poke_single rest r)
  unfolding go_on
  go_on-Refines first later rest none impossible refines = absurd impossible
  go_on-Refines first later rest (some (code, s, text)) (same, text_eq, v) refines =
      add_code-Refines first.0 code later (rest s text) same
        (subst (λ t. Refines later (rest s t)) (sym text_eq) (refines s v))

  -- Whatever patches are made, one after the other, they give the status codes and the text that the
  -- model of the probes gives, and the pointers stand for its state; and `apply_smp_patch` never
  -- locks a mutex that has not been found. The two pointers stand for the state at the start, and the
  -- kernel answers the look-ups as that model says.
  pub smp_patches-Refines :
      (patches : List (ℕ × List ℕ)) (s : Pointers) (p : Probes)
      → Stands s p
      → Refines
          (apply_all k patches p)
          (smp_patches text_mutex smp_text_poke_single patches s p.text)
  unfolding smp_patches apply_all
  smp_patches-Refines [] s p v = (refl, refl, v)
  smp_patches-Refines ((a, insn) ∷ rest) s p v =
      let (code, p1) = apply_smp_patch k a insn p in
      go_on-Refines (code, p1) (apply_all k rest p1)
        (smp_patches text_mutex smp_text_poke_single rest)
        (smp_patch text_mutex smp_text_poke_single a insn s p.text) (smp_patch-Patches a insn s p v)
        (λ s1 v1. smp_patches-Refines rest s1 p1 v1)
