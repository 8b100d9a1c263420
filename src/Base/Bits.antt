-- ===== src/Base/Bits.antt =====
-- Laws of `bit_and` on the native numbers, at every width: a mask of ones is a remainder, and a
-- single bit is a digit.
use Prim.Native.Nat.{min, max, bit_and, bit_or, digits, bit_and-bitwise, bit_or-bitwise}
use native.Mathlib.Nat.{
  pow-suc, one-le-pow, mod-eq-sub-div-mul, div-mul-le_self, div-div-eq-div-mul,
}
use prevail_rust.Base.Tests.{
  ℕ, zero, suc, ◌+◌, ◌-◌, ◌*◌, ◌/◌, ◌%◌, ◌^◌, ◌≤◌, ◌<◌, ◌≡◌, refl, sym, ap, arith,
}
pub mod Digits

abbrev and_digits : ℕ → ℕ → ℕ → ℕ
and_digits fuel a b = digits (λ _. zero) min fuel a b

-- Fuel beyond the first argument changes nothing.
and_digits_enough : (f g a b : ℕ) → a ≤ f → a ≤ g → and_digits f a b ≡ and_digits g a b
and_digits_enough zero zero zero b p q = refl
and_digits_enough zero (suc g) zero b p q = refl
and_digits_enough (suc f) zero zero b p q = refl
and_digits_enough (suc f) (suc g) zero b p q = refl
and_digits_enough zero g (suc a) b p q = absurd (omega arith)
and_digits_enough (suc f) zero (suc a) b p q = absurd (omega arith)
and_digits_enough (suc f) (suc g) (suc a) b p q =
    omega (arith, and_digits_enough f g (suc a / 2) (b / 2) (omega arith) (omega arith))

pub zero-bit_and : (b : ℕ) → bit_and 0 b ≡ 0
zero-bit_and b = bit_and-bitwise 0 b

pub bit_and_halves : (a b : ℕ) → bit_and a b ≡ bit_and (a / 2) (b / 2) * 2 + min (a % 2) (b % 2)
bit_and_halves zero b = omega (arith, zero-bit_and b, zero-bit_and (b / 2))
bit_and_halves (suc a) b = omega (
  arith,
  bit_and-bitwise (suc a) b,
  bit_and-bitwise (suc a / 2) (b / 2),
  and_digits_enough a (suc a / 2) (suc a / 2) (b / 2) (omega arith) (omega arith),
)

mod-double : (a m : ℕ) → a % (2 * m) ≡ a / 2 % m * 2 + a % 2
mod-double a m =
    let q = div-div-eq-div-mul a 2 m in
    omega (
      arith,
      q,
      mod-eq-sub-div-mul a (2 * m),
      mod-eq-sub-div-mul (a / 2) m,
      div-mul-le_self (a / 2) m,
      ap (λ (t : ℕ). t * m) q,
    )

div-double : (a m : ℕ) → a / (2 * m) ≡ a / 2 / m
div-double a m = sym (div-div-eq-div-mul a 2 m)

pub pow2_pos : (w : ℕ) → 0 < 2 ^ w
pow2_pos w = one-le-pow w 2 (omega arith)

pub bit_and-zero : (a : ℕ) → bit_and a 0 ≡ 0
bit_and-zero a = below a a (omega arith)
  where
    below : (f a : ℕ) → a ≤ f → bit_and a 0 ≡ 0
    below f zero h = refl
    below zero (suc a) h = absurd (omega arith)
    below (suc f) (suc a) h =
        omega (arith, bit_and_halves (suc a) 0, below f (suc a / 2) (omega arith))

-- `a & ((1 << w) - 1)` keeps the low w bits.
pub bit_and-mask : (w a : ℕ) → bit_and a (2 ^ w - 1) ≡ a % 2 ^ w
bit_and-mask zero a = omega (arith, bit_and-zero a)
bit_and-mask (suc w) a =
    let ones : (2 ^ suc w - 1) / 2 ≡ 2 ^ w - 1 = omega (arith, pow-suc 2 w, pow2_pos w) in
    let split = bit_and_halves a (2 ^ suc w - 1) in
    rw (split, ones, bit_and-mask w (a / 2))
      (rw (double w) (omega (arith, mod-double a (2 ^ w), pow2_pos w)))
  where
    double : (w : ℕ) → 2 ^ suc w ≡ 2 * 2 ^ w
    double w = omega (arith, pow-suc 2 w)

-- `a & (1 << k)` is the bit k, in its place.
pub bit_and-bit : (k a : ℕ) → bit_and a (2 ^ k) ≡ a / 2 ^ k % 2 * 2 ^ k
bit_and-bit zero a = omega (arith, bit_and_halves a 1, bit_and-zero (a / 2))
bit_and-bit (suc k) a =
    let half : 2 ^ suc k / 2 ≡ 2 ^ k = omega (arith, pow-suc 2 k) in
    rw (bit_and_halves a (2 ^ suc k), half, bit_and-bit k (a / 2))
      (rw double (rw (div-double a (2 ^ k)) (omega arith)))
  where
    double : 2 ^ suc k ≡ 2 * 2 ^ k
    double = omega (arith, pow-suc 2 k)

abbrev or_digits : ℕ → ℕ → ℕ → ℕ
or_digits fuel a b = digits (λ n. n) max fuel a b

or_digits_enough : (f g a b : ℕ) → a ≤ f → a ≤ g → or_digits f a b ≡ or_digits g a b
or_digits_enough zero zero zero b p q = refl
or_digits_enough zero (suc g) zero b p q = refl
or_digits_enough (suc f) zero zero b p q = refl
or_digits_enough (suc f) (suc g) zero b p q = refl
or_digits_enough zero g (suc a) b p q = absurd (omega arith)
or_digits_enough (suc f) zero (suc a) b p q = absurd (omega arith)
or_digits_enough (suc f) (suc g) (suc a) b p q =
    omega (arith, or_digits_enough f g (suc a / 2) (b / 2) (omega arith) (omega arith))

zero-bit_or : (b : ℕ) → bit_or 0 b ≡ b
zero-bit_or b = bit_or-bitwise 0 b

pub bit_or_halves : (a b : ℕ) → bit_or a b ≡ bit_or (a / 2) (b / 2) * 2 + max (a % 2) (b % 2)
bit_or_halves zero b = omega (arith, zero-bit_or b, zero-bit_or (b / 2))
bit_or_halves (suc a) b = omega (
  arith,
  bit_or-bitwise (suc a) b,
  bit_or-bitwise (suc a / 2) (b / 2),
  or_digits_enough a (suc a / 2) (suc a / 2) (b / 2) (omega arith) (omega arith),
)

bit_or-zero : (a : ℕ) → bit_or a 0 ≡ a
bit_or-zero a = below a a (omega arith)
  where
    below : (f a : ℕ) → a ≤ f → bit_or a 0 ≡ a
    below f zero h = refl
    below zero (suc a) h = absurd (omega arith)
    below (suc f) (suc a) h =
        omega (arith, bit_or_halves (suc a) 0, below f (suc a / 2) (omega arith))

even : (c k : ℕ) → c * 2 ^ suc k ≡ 2 * (c * 2 ^ k)
even c k = grind (arith, pow-suc 2 k)

-- `|` of numbers that share no bit is their sum: the low k bits are one number's alone.
pub bit_or-low : (k a c : ℕ) → a < 2 ^ k → bit_or a (c * 2 ^ k) ≡ a + c * 2 ^ k
bit_or-low zero a c h = omega (arith, zero-bit_or (c * 1), ap (λ n. bit_or n (c * 1)) zeroed)
  where
    zeroed : a ≡ 0
    zeroed = omega arith
bit_or-low (suc k) a c h = rw (even c k) (
    omega (
      arith,
      bit_or_halves a (2 * (c * 2 ^ k)),
      ap (λ n. bit_or (a / 2) n) (half (c * 2 ^ k)),
      bit_or-low k (a / 2) c (omega (arith, pow-suc 2 k)),
    ))
  where
    half : (n : ℕ) → 2 * n / 2 ≡ n
    half n = omega arith

pub bit_or-high : (k a c : ℕ) → a < 2 ^ k → bit_or (c * 2 ^ k) a ≡ c * 2 ^ k + a
bit_or-high zero a c h = omega (arith, bit_or-zero (c * 1), ap (λ n. bit_or (c * 1) n) zeroed)
  where
    zeroed : a ≡ 0
    zeroed = omega arith
bit_or-high (suc k) a c h = rw (even c k) (
    omega (
      arith,
      bit_or_halves (2 * (c * 2 ^ k)) a,
      ap (λ n. bit_or n (a / 2)) (half (c * 2 ^ k)),
      bit_or-high k (a / 2) c (omega (arith, pow-suc 2 k)),
    ))
  where
    half : (n : ℕ) → 2 * n / 2 ≡ n
    half n = omega arith
