-- ===== src/Base/Bits.antt =====
-- Laws of `&` and `|` with a single bit, at variables.
use Prim.Native.Nat.{min, max, digits, bit_and-bitwise, bit_or-bitwise}
use native.Mathlib.Nat.{pow-suc, one-le-pow}
use valuestore.Base.{
  ℕ, zero, suc, ◌+◌, ◌-◌, ◌*◌, ◌/◌, ◌%◌, ◌^◌, ◌≤◌, ◌<◌, ◌≡◌, refl, bit_and, bit_or, arith,
}

module _ (z : ℕ → ℕ) (f : ℕ → ℕ → ℕ) where
  -- Enough fuel is as good as any other.
  digits_enough : (n m a b : ℕ) → a ≤ n → a ≤ m → digits z f n a b ≡ digits z f m a b
  digits_enough zero zero a b p q = refl
  digits_enough zero (suc m) zero b p q = refl
  digits_enough zero (suc m) (suc a) b p q = absurd (omega arith)
  digits_enough (suc n) zero zero b p q = refl
  digits_enough (suc n) zero (suc a) b p q = absurd (omega arith)
  digits_enough (suc n) (suc m) zero b p q = refl
  digits_enough (suc n) (suc m) (suc a) b p q =
      rw (digits_enough n m (suc a / 2) (b / 2) (omega arith) (omega arith))

zero-bit_and : (b : ℕ) → bit_and 0 b ≡ 0
zero-bit_and b = bit_and-bitwise 0 b

zero-bit_or : (b : ℕ) → bit_or 0 b ≡ b
zero-bit_or b = bit_or-bitwise 0 b

pub bit_and_halves : (a b : ℕ) → bit_and a b ≡ bit_and (a / 2) (b / 2) * 2 + min (a % 2) (b % 2)
bit_and_halves zero b = omega (arith, zero-bit_and b, zero-bit_and (b / 2))
bit_and_halves (suc a) b = omega (
  arith,
  bit_and-bitwise (suc a) b,
  bit_and-bitwise (suc a / 2) (b / 2),
  digits_enough (λ x. zero) min a (suc a / 2) (suc a / 2) (b / 2) (omega arith) (omega arith),
)

pub bit_or_halves : (a b : ℕ) → bit_or a b ≡ bit_or (a / 2) (b / 2) * 2 + max (a % 2) (b % 2)
bit_or_halves zero b = omega (arith, zero-bit_or b, zero-bit_or (b / 2))
bit_or_halves (suc a) b = omega (
  arith,
  bit_or-bitwise (suc a) b,
  bit_or-bitwise (suc a / 2) (b / 2),
  digits_enough (λ x. x) max a (suc a / 2) (suc a / 2) (b / 2) (omega arith) (omega arith),
)

bit_and-zero_below : (n a : ℕ) → a ≤ n → bit_and a 0 ≡ 0
bit_and-zero_below n zero h = zero-bit_and 0
bit_and-zero_below zero (suc a) h = absurd (omega arith)
bit_and-zero_below (suc n) (suc a) h =
    omega (arith, bit_and_halves (suc a) 0, bit_and-zero_below n (suc a / 2) (omega arith))

pub bit_and-zero : (a : ℕ) → bit_and a 0 ≡ 0
bit_and-zero a = bit_and-zero_below a a (omega arith)

bit_or-zero_below : (n a : ℕ) → a ≤ n → bit_or a 0 ≡ a
bit_or-zero_below n zero h = zero-bit_or 0
bit_or-zero_below zero (suc a) h = absurd (omega arith)
bit_or-zero_below (suc n) (suc a) h =
    omega (arith, bit_or_halves (suc a) 0, bit_or-zero_below n (suc a / 2) (omega arith))

bit_or-zero : (a : ℕ) → bit_or a 0 ≡ a
bit_or-zero a = bit_or-zero_below a a (omega arith)

-- `a & 1`, `a & 2`, `a & 128`
pub bit_and-one : (a : ℕ) → bit_and a 1 ≡ a % 2
bit_and-one a = omega (arith, bit_and_halves a 1, bit_and-zero (a / 2))

pub bit_and_two : (a : ℕ) → bit_and a 2 ≡ a / 2 % 2 * 2
bit_and_two a = omega (arith, bit_and_halves a 2, bit_and-one (a / 2))

bit_and_eight : (a : ℕ) → bit_and a 8 ≡ a / 8 % 2 * 8
bit_and_eight a =
    omega (arith, bit_and_halves a 8, bit_and_halves (a / 2) 4, bit_and_two (a / 2 / 2))

bit_and_32 : (a : ℕ) → bit_and a 32 ≡ a / 32 % 2 * 32
bit_and_32 a =
    omega (arith, bit_and_halves a 32, bit_and_halves (a / 2) 16, bit_and_eight (a / 2 / 2))

pub bit_and_128 : (a : ℕ) → bit_and a 128 ≡ a / 128 % 2 * 128
bit_and_128 a =
    omega (arith, bit_and_halves a 128, bit_and_halves (a / 2) 64, bit_and_32 (a / 2 / 2))

-- `a | 1`, `a | 2`, `a | 128`
pub bit_or-one : (a : ℕ) → bit_or a 1 ≡ a + (1 - a % 2)
bit_or-one a = omega (arith, bit_or_halves a 1, bit_or-zero (a / 2))

pub bit_or_two : (a : ℕ) → bit_or a 2 ≡ a + (2 - a / 2 % 2 * 2)
bit_or_two a = omega (arith, bit_or_halves a 2, bit_or-one (a / 2))

bit_or_eight : (a : ℕ) → bit_or a 8 ≡ a + (8 - a / 8 % 2 * 8)
bit_or_eight a = omega (arith, bit_or_halves a 8, bit_or_halves (a / 2) 4, bit_or_two (a / 2 / 2))

bit_or_32 : (a : ℕ) → bit_or a 32 ≡ a + (32 - a / 32 % 2 * 32)
bit_or_32 a = omega (arith, bit_or_halves a 32, bit_or_halves (a / 2) 16, bit_or_eight (a / 2 / 2))

pub bit_or_128 : (a : ℕ) → bit_or a 128 ≡ a + (128 - a / 128 % 2 * 128)
bit_or_128 a = omega (arith, bit_or_halves a 128, bit_or_halves (a / 2) 64, bit_or_32 (a / 2 / 2))

low_ones : (k a : ℕ) → a < 2 ^ k → bit_and a (2 ^ k - 1) ≡ a
low_ones zero a h = omega (arith, bit_and-zero a)
low_ones (suc k) a h =
    let half : (2 ^ suc k - 1) / 2 ≡ 2 ^ k - 1 = omega (arith, pow-suc 2 k) in
    let rest : bit_and (a / 2) ((2 ^ suc k - 1) / 2) ≡ a / 2 =
      rw half (low_ones k (a / 2) (omega (arith, pow-suc 2 k))) in
    omega (arith, pow-suc 2 k, one-le-pow k 2, bit_and_halves a (2 ^ suc k - 1), rest)

-- `a & ^uint64(1)` clears the lowest bit of a 64-bit word.
pub bit_and_not_one : (a : ℕ) → a < 2 ^ 64 → bit_and a (2 ^ 64 - 2) ≡ a - a % 2
bit_and_not_one a h =
    omega (arith, bit_and_halves a (2 ^ 64 - 2), low_ones 63 (a / 2) (omega arith))
