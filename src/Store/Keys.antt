-- ===== src/Store/Keys.antt =====
-- What the two maps hold. A user is the 32-bit pattern of the `int` behind the pointer; a program is
-- the bytes of its name before the terminating zero.
use syscall_throttling.Base.{
  ℕ, ◌+◌, ◌*◌, ◌%◌, ◌^◌, ◌≡◌, refl, ◌↔◌, Bool, true, false, ◌&&◌, List, [], ◌∷◌, ◌==◌, ==_iff, Eq,
  arith,
}

unfoldable pub compare_user : ℕ → ℕ → Bool
compare_user a b = a == b

unfoldable pub get_key_from_user_id : ℕ → ℕ
get_key_from_user_id user_id = user_id

-- `strcmp(a, b) == 0`
unfoldable pub compare_program : List ℕ → List ℕ → Bool
compare_program [] [] = true
compare_program [] (y ∷ ys) = false
compare_program (x ∷ xs) [] = false
compare_program (x ∷ xs) (y ∷ ys) = x == y && compare_program xs ys

-- One round of the loop. `hash * 31 + *program_name` wraps as an `int`, and is an `unsigned int` at
-- the `%`, as 0xFFFFFFFF is; a `char` of the kernel is unsigned.
abbrev hash_step : ℕ → ℕ → ℕ
hash_step hash c = (hash * 31 + c) % 2 ^ 32 % 0xffff_ffff

hash_from : ℕ → List ℕ → ℕ
hash_from hash [] = hash
hash_from hash (c ∷ cs) = hash_from (hash_step hash c) cs

unfoldable pub get_key_from_program_name : List ℕ → ℕ
unfolding hash_from
get_key_from_program_name = hash_from 0

pub compare_user_iff : (a b : ℕ) → (compare_user a b ≡ true) ↔ (a ≡ b)
unfolding compare_user
compare_user_iff a b = ==_iff a b

pub compare_program_iff : (a b : List ℕ) → (compare_program a b ≡ true) ↔ (a ≡ b)
unfolding compare_program
compare_program_iff [] [] = (λ _. refl, λ _. refl)
compare_program_iff [] (y ∷ ys) = (λ h. cc, λ h. cc)
compare_program_iff (x ∷ xs) [] = (λ h. cc, λ h. cc)
compare_program_iff (x ∷ xs) (y ∷ ys) = (
  λ h. ground (arith, (compare_program_iff xs ys).0),
  λ h. ground (arith, (compare_program_iff xs ys).1),
)

instance abbrev pub user_eq : Eq ℕ
user_eq = record { beq = compare_user; beq_iff = compare_user_iff }

instance abbrev pub program_eq : Eq (List ℕ)
program_eq = record { beq = compare_program; beq_iff = compare_program_iff }
