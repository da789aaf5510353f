-- ===== src/Probe/Text.antt =====
-- The kernel's text as a function of the address, and writes into it.
use syscall_throttling.Base.{
  ℕ, ◌+◌, ◌*◌, ◌%◌, ◌^◌, ◌≤◌, ◌<◌, ◌≡◌, ◌⊎◌, inl, inr, refl, ◌∙◌, List, [], ◌∷◌, update, update_ne,
  arith,
}
use syscall_throttling.Base.Lists.{length}

-- `smp_text_poke_single`: the bytes are there afterwards.
unfoldable pub poke : ℕ → List ℕ → (ℕ → ℕ) → ℕ → ℕ
poke a [] text = text
poke a (b ∷ bs) text = poke (a + 1) bs (update text a b)

pub poke-outside :
    (a : ℕ) (bs : List ℕ) (text : ℕ → ℕ) (j : ℕ)
    → (j < a) ⊎ (a + length bs ≤ j)
    → poke a bs text j ≡ text j
unfolding poke
poke-outside a [] text j h = refl
poke-outside a (b ∷ bs) text j (inl h) =
    poke-outside (a + 1) bs (update text a b) j (inl (omega arith))
    ∙ update_ne text a j b (λ e. omega arith)
poke-outside a (b ∷ bs) text j (inr h) =
    poke-outside (a + 1) bs (update text a b) j (inr (omega arith))
    ∙ update_ne text a j b (λ e. omega arith)

-- Five bytes, read back.
pub poke-five :
    (a b0 b1 b2 b3 b4 : ℕ) (text : ℕ → ℕ)
    → let text' = poke a (b0 ∷ b1 ∷ b2 ∷ b3 ∷ b4 ∷ []) text in
      (text' a ≡ b0)
      × (text' (a + 1) ≡ b1)
      × (text' (a + 2) ≡ b2)
      × (text' (a + 3) ≡ b3)
      × (text' (a + 4) ≡ b4)
unfolding poke
poke-five a b0 b1 b2 b3 b4 text =
    (ground arith, ground arith, ground arith, ground arith, ground arith)

-- The four bytes behind the opcode, as a number.
abbrev pub operand : ℕ → (ℕ → ℕ) → ℕ
operand a text = text (a + 1) + 256 * text (a + 2) + 65536 * text (a + 3) + 16777216 * text (a + 4)

-- At `a` stands a CALL whose target is `target`, as far as its 32 bits say.
abbrev pub IsCall : ℕ → ℕ → (ℕ → ℕ) → Type 0
IsCall target a text = (text a ≡ 0xe8) × ((a + 5 + operand a text) % 2 ^ 32 ≡ target % 2 ^ 32)
