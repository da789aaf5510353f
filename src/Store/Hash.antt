-- ===== src/Store/Hash.antt =====
-- The two bucket functions of sysThrot_store.c on 32-bit words.
use Prim.Native.Nat.{bit_and, bit_xor, digits, bit_and-bitwise}
use syscall_throttling.Base.{ℕ, zero, suc, ◌*◌, ◌/◌, ◌%◌, ◌^◌, ◌≤◌, ◌<◌, min, arith}

abbrev pub table_size : ℕ
table_size = 128

abbrev pub mask : ℕ
mask = 0x7f

abbrev u32_mod : ℕ
u32_mod = 2 ^ 32

-- `((x >> 16) ^ x)` and a product that wraps at 32 bits.
mix : ℕ → ℕ → ℕ
mix factor x = bit_xor (x / 2 ^ 16) x * factor % u32_mod

unfoldable pub hash1 : ℕ → ℕ
unfolding mix
hash1 key =
    let x = mix 0x45d9f3b (mix 0x45d9f3b (key % u32_mod)) in bit_and (bit_xor (x / 2 ^ 16) x) mask

unfoldable pub hash2 : ℕ → ℕ
unfolding mix
hash2 key =
    let x = mix 0x3335b369 (mix 0x3335b369 (key % u32_mod)) in bit_and (bit_xor (x / 2 ^ 16) x) mask

digits_and-le : (n a b : ℕ) → digits (λ _. zero) min n a b ≤ b
digits_and-le zero a b = omega arith
digits_and-le (suc n) zero b = omega arith
digits_and-le (suc n) (suc a) b = omega (arith, digits_and-le n (suc a / 2) (b / 2))

bit_and-le : (a b : ℕ) → bit_and a b ≤ b
bit_and-le a b = omega (arith, bit_and-bitwise a b, digits_and-le a a b)

-- Every bucket number is inside its table.
pub hash1-lt : (key : ℕ) → hash1 key < table_size
unfolding hash1
hash1-lt key = omega (
  arith,
  bit_and-le
      (bit_xor (mix 0x45d9f3b (mix 0x45d9f3b (key % u32_mod)) / 2 ^ 16)
        (mix 0x45d9f3b (mix 0x45d9f3b (key % u32_mod))))
      mask,
)

pub hash2-lt : (key : ℕ) → hash2 key < table_size
unfolding hash2
hash2-lt key = omega (
  arith,
  bit_and-le
      (bit_xor (mix 0x3335b369 (mix 0x3335b369 (key % u32_mod)) / 2 ^ 16)
        (mix 0x3335b369 (mix 0x3335b369 (key % u32_mod))))
      mask,
)
