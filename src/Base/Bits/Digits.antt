-- ===== src/Base/Bits/Digits.antt =====
-- The binary digits of `bit_and` and `bit_or` at every position.
use Prim.Native.Nat.{min, max, bit_and, bit_or}
use native.Mathlib.Nat.{pow-suc, div-div-eq-div-mul}
use prevail_rust.Base.Tests.{ℕ, zero, suc, ◌*◌, ◌/◌, ◌%◌, ◌^◌, ◌≤◌, ◌<◌, ◌≡◌, sym, arith, not, ◌==◌}
use prevail_rust.Base.Bits.{bit_and_halves, bit_or_halves, bit_and-bit, pow2_pos, zero-bit_and}

abbrev pub digit : ℕ → ℕ → ℕ
digit k a = a / 2 ^ k % 2

pub digit-suc : (k a : ℕ) → digit (suc k) a ≡ digit k (a / 2)
digit-suc k a = rw (double, sym (div-div-eq-div-mul a 2 (2 ^ k)))
  where
    double : 2 ^ suc k ≡ 2 * 2 ^ k
    double = omega (arith, pow-suc 2 k)

bit_and_half : (a b : ℕ) → bit_and a b / 2 ≡ bit_and (a / 2) (b / 2)
bit_and_half a b = omega (arith, bit_and_halves a b)

bit_or_half : (a b : ℕ) → bit_or a b / 2 ≡ bit_or (a / 2) (b / 2)
bit_or_half a b = omega (arith, bit_or_halves a b)

pub digit-bit_and : (k a b : ℕ) → digit k (bit_and a b) ≡ min (digit k a) (digit k b)
digit-bit_and zero a b = omega (arith, bit_and_halves a b)
digit-bit_and (suc k) a b =
    rw (digit-suc k (bit_and a b), bit_and_half a b, digit-suc k a, digit-suc k b)
      (digit-bit_and k (a / 2) (b / 2))

pub digit-bit_or : (k a b : ℕ) → digit k (bit_or a b) ≡ max (digit k a) (digit k b)
digit-bit_or zero a b = omega (arith, bit_or_halves a b)
digit-bit_or (suc k) a b =
    rw (digit-suc k (bit_or a b), bit_or_half a b, digit-suc k a, digit-suc k b)
      (digit-bit_or k (a / 2) (b / 2))

-- `a & (1 << k) != 0` tests the digit k.
pub bit_test : (k a : ℕ) → not (bit_and a (2 ^ k) == 0) ≡ (digit k a == 1)
bit_test k a = rw (bit_and-bit k a) (of_digit (digit k a) (2 ^ k) (omega arith) (pow2_pos k))
  where
    of_digit : (d p : ℕ) → d < 2 → 0 < p → not (d * p == 0) ≡ (d == 1)
    of_digit zero p h q = ground arith
    of_digit (suc zero) p h q = ground arith
    of_digit (suc (suc d)) p h q = absurd (omega arith)

pub bit_and-le : (a b : ℕ) → bit_and a b ≤ a
bit_and-le a b = below a a b (omega arith)
  where
    below : (f a b : ℕ) → a ≤ f → bit_and a b ≤ a
    below f zero b h = omega (arith, zero-bit_and b)
    below zero (suc a) b h = absurd (omega arith)
    below (suc f) (suc a) b h =
        omega (arith, bit_and_halves (suc a) b, below f (suc a / 2) (b / 2) (omega arith))
