-- ===== src/Arith/Number/Residue.antt =====
-- The low bits of an `i128` in src/arith/number.rs as arithmetic.
use native.Mathlib.Nat.{
  pow-le-pow_right, pow-suc, add-zero, mul_assoc, mul_comm, mod-lt, mod-eq_of_lt,
  mul-add-mod_self_left, div-add-mod, div-lt_iff_lt-mul,
}
use mathlib.Core.Path.{subst}
use prevail_rust.Base.Tests.{
  lt→ltb, ℕ, zero, suc, ◌+◌, ◌-◌, ◌*◌, ◌/◌, ◌%◌, ◌^◌, ◌≤◌, ◌<◌, ◌≡◌, refl, sym, ap, ◌∙◌, arith,
}
use prevail_rust.Base.Int.{ℤ, pos, negsuc, ◌-ℤ◌, int_laws}
use prevail_rust.Base.Bits.{bit_and-mask, pow2_pos}
use prevail_rust.Arith.Number.{Number, IsI128, to_bits, bitand, low_bits, pow2}

-- The remainder of an integer modulo 2 ^ w, between 0 and 2 ^ w - 1.
abbrev pub residue : ℕ → ℤ → ℕ
residue w (pos n) = n % 2 ^ w
residue w (negsuc n) = 2 ^ w - 1 - n % 2 ^ w

pow-add : (m n : ℕ) → 2 ^ (m + n) ≡ 2 ^ m * 2 ^ n
pow-add m zero = rw add-zero (omega arith)
pow-add m (suc n) =
    let e : m + suc n ≡ suc (m + n) = omega arith in
    rw (e, pow-suc 2 (m + n), pow-suc 2 n, pow-add m n) (mul_assoc (2 ^ m) (2 ^ n) 2)

-- Counting down from a multiple of m counts down its remainders.
pub mirror-mod : (m q n : ℕ) → 0 < m → n < m * q → (m * q - 1 - n) % m ≡ m - 1 - n % m
mirror-mod m q n h k =
    rw split (mul-add-mod_self_left m (q - 1 - n / m) (m - 1 - n % m) ∙ mod-eq_of_lt (omega arith))
  where
    split : m * q - 1 - n ≡ m * (q - 1 - n / m) + (m - 1 - n % m)
    split =
        let below : n / m < q = (div-lt_iff_lt-mul h).1 (rw mul_comm at k) in
        let r = mod-lt n h in
        let d = div-add-mod n m in
        let parts : q ≡ q - 1 - n / m + n / m + 1 = omega arith in
        omega (arith, r, d, ap (λ (t : ℕ). m * t) parts)

pub residue-lt : (w : ℕ) (z : ℤ) → residue w z < 2 ^ w
residue-lt w (pos n) = mod-lt n (pow2_pos w)
residue-lt w (negsuc n) = omega (arith, pow2_pos w)

-- 2 ^ 128 is a multiple of every smaller power.
pub whole : (w : ℕ) → w ≤ 128 → 2 ^ 128 ≡ 2 ^ w * 2 ^ (128 - w)
whole w h = let e : 128 ≡ w + (128 - w) = omega arith in ap (λ t. 2 ^ t) e ∙ pow-add w (128 - w)

pub to_bits-residue : (w : ℕ) (a : Number) → w ≤ 128 → IsI128 a → to_bits a % 2 ^ w ≡ residue w a
to_bits-residue w (pos n) h v = refl
to_bits-residue w (negsuc n) h v =
    subst (λ (t : ℕ). (t - 1 - n) % 2 ^ w ≡ 2 ^ w - 1 - n % 2 ^ w) (sym (whole w h))
      (mirror-mod (2 ^ w) (2 ^ (128 - w)) n (pow2_pos w) (omega (arith, whole w h, v)))

pub mask-eq : (w : ℕ) → pow2 w -ℤ pos 1 ≡ pos (2 ^ w - 1)
mask-eq w = omega (int_laws, pow2_pos w)

pub pow2-le : (w : ℕ) → w ≤ 64 → 2 ^ w ≤ 2 ^ 64
pow2-le w h = pow-le-pow_right (omega arith) h

-- Masking with (1 << w) - 1 is the remainder modulo 2 ^ w.
pub low_bits-residue : (w : ℕ) (a : Number) → w ≤ 64 → IsI128 a → low_bits w a ≡ pos (residue w a)
unfolding bitand
low_bits-residue w a h v =
    rw (mask-eq w, bit_and-mask w (to_bits a), to_bits-residue w a (omega arith) v)
      (rw (lt→ltb (residue w a) (2 ^ 127) (omega (arith, residue-lt w a, pow2-le w h))))
