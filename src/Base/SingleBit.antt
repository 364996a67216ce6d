-- ===== src/Base/SingleBit.antt =====
-- One bit of a word, `b & (1 << i)`, and what `b |= 1 << j` does to it.
use Prim.Native.Nat.{max}
use native.Mathlib.Nat.{mul_assoc, pow-suc}
use valuestore.Base.{ℕ, zero, suc, ◌*◌, ◌/◌, ◌%◌, ◌^◌, ◌≤◌, ◌≡◌, refl, sym, bit_and, bit_or, arith}
use valuestore.Base.Bits.{bit_and_halves, bit_or_halves, bit_and-zero}

-- Bit `i` as 0 or 1.
abbrev pub bit : ℕ → ℕ → ℕ
bit zero a = a % 2
bit (suc i) a = bit i (a / 2)

pub bit-bit_or : (i a b : ℕ) → bit i (bit_or a b) ≡ max (bit i a) (bit i b)
bit-bit_or zero a b = omega (arith, bit_or_halves a b)
bit-bit_or (suc i) a b =
    let half : bit_or a b / 2 ≡ bit_or (a / 2) (b / 2) = omega (arith, bit_or_halves a b) in
    rw half (bit-bit_or i (a / 2) (b / 2))

pub bit_bound : (i a : ℕ) → bit i a ≤ 1
bit_bound zero a = omega arith
bit_bound (suc i) a = bit_bound i (a / 2)

pub bit-zero : (i : ℕ) → bit i 0 ≡ 0
bit-zero zero = refl
bit-zero (suc i) = bit-zero i

pub bit_self : (i : ℕ) → bit i (2 ^ i) ≡ 1
bit_self zero = refl
bit_self (suc i) =
    let half : 2 ^ suc i / 2 ≡ 2 ^ i = omega (arith, pow-suc 2 i) in rw half (bit_self i)

-- `a & (1 << i)` is that bit in its place.
pub bit_and_pow : (i a : ℕ) → bit_and a (2 ^ i) ≡ bit i a * 2 ^ i
bit_and_pow zero a = omega (arith, bit_and_halves a 1, bit_and-zero (a / 2))
bit_and_pow (suc i) a =
    let half : 2 ^ suc i / 2 ≡ 2 ^ i = omega (arith, pow-suc 2 i) in
    let low : 2 ^ suc i % 2 ≡ 0 = omega (arith, pow-suc 2 i) in
    let ih : bit_and (a / 2) (2 ^ suc i / 2) ≡ bit i (a / 2) * 2 ^ i =
      rw half (bit_and_pow i (a / 2)) in
    let wide : bit i (a / 2) * 2 ^ suc i ≡ bit i (a / 2) * 2 ^ i * 2 =
      rw (pow-suc 2 i) (sym (mul_assoc (bit i (a / 2)) (2 ^ i) 2)) in
    omega (arith, bit_and_halves a (2 ^ suc i), ih, low, wide)
