-- ===== src/User/Client/Split.antt =====
-- user/client.c, `split_list`: the names of a comma-separated list.
use syscall_throttling.Base.{
  ℕ, zero, suc, ◌≡◌, ◌≢◌, refl, ◌∙◌, Bool, true, false, Option, none, some, List, [], ◌∷◌, ◌++◌,
  map, ◌==◌, if◌then◌else◌,
}
use syscall_throttling.Base.Lists.{All, take}

abbrev pub comma : ℕ
comma = 44

-- `strchr(p, ',')`: the bytes before the comma, and those after it if there is one.
unfoldable pub strchr : List ℕ → List ℕ × Option (List ℕ)
strchr [] = ([], none)
strchr (c ∷ cs) =
    let (before, after) = strchr cs in if c == comma then ([], some cs) else (c ∷ before, after)

-- A pointer to a copy of a string, or `NULL`.
abbrev pub copy : Bool → List ℕ → Option (List ℕ)
copy got text = if got then some text else none

-- `out[n++] = buf`, with what the rest of the loop writes.
unfoldable pub write_first :
    Option (List ℕ) → Option (List (Option (List ℕ))) → Option (List (Option (List ℕ)))
write_first name none = none
write_first name (some names) = some (name ∷ names)

-- The body of the loop: `got` says whether the copy gets memory, `rest_of` is the rest of the loop;
-- `none` is -1.
unfoldable pub split_piece :
    Bool
    → (List ℕ → Option (List (Option (List ℕ))))
    → List ℕ
    → List ℕ × Option (List ℕ)
    → Option (List (Option (List ℕ)))
split_piece got rest_of p (before, some after) =
    let written = write_first (some before) (rest_of after) in if got then written else none
split_piece got rest_of p (before, none) = some (copy got p ∷ [])

-- `copied` says which copies get memory. The loop from the n-th name, with room for `room` more.
module _ (copied : ℕ → Bool) where
  unfoldable pub split_from : ℕ → ℕ → List ℕ → Option (List (Option (List ℕ)))
  split_from n zero p = some []
  split_from n (suc room) [] = some []
  split_from n (suc room) (c ∷ cs) =
      split_piece (copied n) (split_from (suc n) room) (c ∷ cs) (strchr (c ∷ cs))

  -- The string may be missing; `*list` is the loop's own test.
  unfoldable pub split_list : Option (List ℕ) → ℕ → Option (List (Option (List ℕ)))
  split_list none max = some []
  split_list (some list) max = split_from 0 max list

-- The names with commas between them.
unfoldable pub join : List (List ℕ) → List ℕ
join [] = []
join (name ∷ []) = name
join (name ∷ next ∷ names) = name ++ (comma ∷ join (next ∷ names))

-- The last name is not empty.
abbrev pub EndsFull : List (List ℕ) → Type 0
EndsFull [] = Unit
EndsFull (name ∷ []) = name ≢ []
EndsFull (name ∷ next ∷ names) = EndsFull (next ∷ names)

abbrev pub IsCommaFree : List ℕ → Type 0
IsCommaFree = All (λ c. (c == comma) ≡ false)

strchr-found :
    (name rest : List ℕ) → IsCommaFree name → strchr (name ++ (comma ∷ rest)) ≡ (name, some rest)
unfolding strchr
strchr-found [] rest free = refl
strchr-found (c ∷ cs) rest (other, free) = rw (other, strchr-found cs rest free) refl

strchr-lost : (name : List ℕ) → IsCommaFree name → strchr name ≡ (name, none)
unfolding strchr
strchr-lost [] free = refl
strchr-lost (c ∷ cs) (other, free) = rw (other, strchr-lost cs free) refl

module _ (copied : ℕ → Bool) (all_copied : (n : ℕ) → copied n ≡ true) where
  -- A text that is a name and, behind a comma, a rest.
  split_from-comma :
      (n room : ℕ) (name rest : List ℕ)
      → IsCommaFree name
      → split_from copied n (suc room) (name ++ (comma ∷ rest))
        ≡ write_first (some name) (split_from copied (suc n) room rest)
  unfolding split_from split_piece
  split_from-comma n room [] rest free = rw (strchr-found [] rest free, all_copied n) refl
  split_from-comma n room (c ∷ cs) rest free =
      rw (strchr-found (c ∷ cs) rest free, all_copied n) refl

  split_from-last :
      (n room : ℕ) (name : List ℕ)
      → IsCommaFree name
      → name ≢ []
      → split_from copied n (suc room) name ≡ some (some name ∷ [])
  unfolding split_from split_piece
  split_from-last n room [] free full = absurd (full refl)
  split_from-last n room (c ∷ cs) free full = rw (strchr-lost (c ∷ cs) free, all_copied n) refl

  split_from-join :
      (names : List (List ℕ)) (n max : ℕ)
      → All IsCommaFree names
      → EndsFull names
      → split_from copied n max (join names) ≡ some (map (λ name. some name) (take max names))
  unfolding join split_from write_first
  split_from-join names n zero free full = refl
  split_from-join [] n (suc max) free full = refl
  split_from-join (name ∷ []) n (suc zero) (free, _) full = split_from-last n 0 name free full
  split_from-join (name ∷ []) n (suc (suc max)) (free, _) full =
      split_from-last n (suc max) name free full
  split_from-join (name ∷ next ∷ names) n (suc max) (free, rest) full =
      split_from-comma n max name (join (next ∷ names)) free
      ∙ rw (split_from-join (next ∷ names) (suc n) max rest full) refl

  -- `split_list` takes apart what was put together with commas: from names without a comma, of which
  -- the last is not empty, it gets back the names, in order, and the first `max` of them when there
  -- are more. Every copy gets memory.
  pub split_list-join :
      (names : List (List ℕ)) (max : ℕ)
      → All IsCommaFree names
      → EndsFull names
      → split_list copied (some (join names)) max ≡ some (map (λ name. some name) (take max names))
  unfolding split_list
  split_list-join names max free full = split_from-join names 0 max free full
