-- ===== src/User/Symbols.antt =====
-- user/lib/sysThrot.h: the search for a system call by its name.
use syscall_throttling.Base.{
  ℕ, zero, suc, ◌+◌, ◌<◌, ◌≡◌, ◌≢◌, refl, ap, ◌∙◌, ◌↔◌, ◌⊎◌, inl, inr, Bool, true, false, Option,
  none, some, List, [], ◌∷◌, if◌then◌else◌, if_cases, arith,
}
use syscall_throttling.Base.Int.{ℤ, pos}
use syscall_throttling.Base.Code.{failure}
use syscall_throttling.Base.Lists.{length}
use syscall_throttling.Store.Keys.{compare_program, compare_program_iff}

-- `syscall_symbols[i] && strcmp(syscall_symbols[i], name) == 0`
abbrev pub is_named : List ℕ → Option (List ℕ) → Bool
is_named name none = false
is_named name (some symbol) = compare_program symbol name

-- The loop from the index `i`, with the symbols from there on.
unfoldable pub find_from : ℕ → List ℕ → List (Option (List ℕ)) → ℤ
find_from i name [] = failure
find_from i name (symbol ∷ symbols) =
    let rest = find_from (suc i) name symbols in if is_named name symbol then pos i else rest

unfoldable pub find_syscall_id : List ℕ → List (Option (List ℕ)) → ℤ
find_syscall_id name symbols = find_from 0 name symbols

-- The symbol of a number.
abbrev pub symbol_at : ℕ → List (Option (List ℕ)) → Option (List ℕ)
symbol_at i [] = none
symbol_at zero (symbol ∷ symbols) = symbol
symbol_at (suc i) (symbol ∷ symbols) = symbol_at i symbols

-- The search from `i` gave the place of the first symbol with the name, or there is none.
abbrev pub FindsFirst : ℕ → List ℕ → List (Option (List ℕ)) → ℤ → Type 0
FindsFirst i name symbols result =
    ((n : ℕ) × (result ≡ pos (i + n))
      × (symbol_at n symbols ≡ some name)
      × (n < length symbols)
      × ((j : ℕ) → j < n → symbol_at j symbols ≢ some name))
    ⊎ ((result ≡ failure) × ((j : ℕ) → symbol_at j symbols ≢ some name))

some_eq : (a b : List ℕ) → some a ≡ some b → a ≡ b
some_eq a b h = cc

is_named_iff :
    (name : List ℕ) (symbol : Option (List ℕ))
    → (is_named name symbol ≡ true) ↔ (symbol ≡ some name)
is_named_iff name none = (λ h. cc, λ h. cc)
is_named_iff name (some symbol) = (
  λ h. ap (λ (s : List ℕ). some s) ((compare_program_iff symbol name).0 h),
  λ h. (compare_program_iff symbol name).1 (some_eq symbol name h),
)

not_named :
    (name : List ℕ) (symbol : Option (List ℕ)) → is_named name symbol ≡ false → symbol ≢ some name
not_named name symbol other e =
    let same : is_named name symbol ≡ true = (is_named_iff name symbol).1 e in cc

not_before :
    (name : List ℕ) (symbol : Option (List ℕ)) (symbols : List (Option (List ℕ))) (n : ℕ)
    → is_named name symbol ≡ false
    → ((j : ℕ) → j < n → symbol_at j symbols ≢ some name)
    → (j : ℕ) → j < suc n
    → symbol_at j (symbol ∷ symbols) ≢ some name
not_before name symbol symbols n other before zero below = not_named name symbol other
not_before name symbol symbols n other before (suc j) below = before j (omega arith)

nowhere_after :
    (name : List ℕ) (symbol : Option (List ℕ)) (symbols : List (Option (List ℕ)))
    → is_named name symbol ≡ false
    → ((j : ℕ) → symbol_at j symbols ≢ some name)
    → (j : ℕ) → symbol_at j (symbol ∷ symbols) ≢ some name
nowhere_after name symbol symbols other nowhere zero = not_named name symbol other
nowhere_after name symbol symbols other nowhere (suc j) = nowhere j

find_from-FindsFirst :
    (i : ℕ) (name : List ℕ) (symbols : List (Option (List ℕ)))
    → FindsFirst i name symbols (find_from i name symbols)
unfolding find_from
find_from-FindsFirst i name [] = inr (refl, λ j h. cc)
find_from-FindsFirst i name (symbol ∷ symbols) =
    if_cases (FindsFirst i name (symbol ∷ symbols)) (is_named name symbol)
      (λ here. inl (
        0,
        ap pos (omega arith),
        (is_named_iff name symbol).0 here,
        omega arith,
        λ j small. absurd (omega arith),
      ))
      (λ other. elim (find_from-FindsFirst (suc i) name symbols) [
        | inl (n, e, at_n, small, before) ↦ inl (
          suc n,
          e ∙ ap pos (omega arith),
          at_n,
          omega arith,
          λ j below. not_before name symbol symbols n other before j below,
        )
        | inr (e, nowhere) ↦ inr (e, λ j. nowhere_after name symbol symbols other nowhere j)
      ])

-- The number that `find_syscall_id` returns is the first one whose symbol is the name, and a place of
-- the array; it returns -1 exactly when no symbol is the name.
pub find_syscall_id-FindsFirst :
    (name : List ℕ) (symbols : List (Option (List ℕ)))
    → FindsFirst 0 name symbols (find_syscall_id name symbols)
unfolding find_syscall_id
find_syscall_id-FindsFirst name symbols = find_from-FindsFirst 0 name symbols
