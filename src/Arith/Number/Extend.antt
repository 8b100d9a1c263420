-- ===== src/Arith/Number/Extend.antt =====
-- Sign and zero extension of src/arith/number.rs, and the truncations.
use native.Mathlib.Nat.{pow-suc, mod-eq_of_lt, mod-lt, div-add-mod, div-eq_of_lt}
use prevail_rust.Base.Tests.{
  ℕ, zero, suc, ◌+◌, ◌-◌, ◌*◌, ◌/◌, ◌%◌, ◌^◌, ◌≤◌, ◌<◌, ◌≡◌, refl, arith, some, if◌then◌else◌, ltb,
  ltb→lt, lt→ltb, le→leb, Bool-cases, inl, inr, ltb-false→le,
}
use prevail_rust.Base.Int.{ℤ, pos, negsuc, ◌-ℤ◌, ◌≤ℤ◌, int_laws}
use prevail_rust.Base.Bits.{bit_and-bit, pow2_pos}
use prevail_rust.Arith.Number.{
  Number, IsI128, checked, bitand, pow2, sign_extend, zero_extend, signed_min, signed_max,
  truncate_to_signed, truncate_to_unsigned,
}
use prevail_rust.Arith.Number.Residue.{residue, residue-lt, low_bits-residue, pow2-le}

-- The signed number that w bits stand for.
abbrev pub as_signed : ℕ → ℕ → ℤ
as_signed w n = if ltb n (2 ^ (w - 1)) then pos n else negsuc (2 ^ w - 1 - n)

pub pow2-double : (k : ℕ) → 2 ^ suc k ≡ 2 ^ k + 2 ^ k
pow2-double k = omega (arith, pow-suc 2 k)

-- The bit tested by `truncated & sign_bit`, where it is clear and where it is set.
sign_bit-clear : (k t : ℕ) → t < 2 ^ k → bitand (pos t) (pow2 k) ≡ pos 0
unfolding bitand
sign_bit-clear k t h =
    let q : t / 2 ^ k % 2 * 2 ^ k ≡ 0 = rw (div-eq_of_lt h) (omega arith) in
    rw (bit_and-bit k t, q) refl

sign_bit-set :
    (k t : ℕ) → k < 64 → 2 ^ k ≤ t → t < 2 ^ suc k → bitand (pos t) (pow2 k) ≡ pos (2 ^ k)
unfolding bitand
sign_bit-set k t h lo hi =
    let q : t / 2 ^ k % 2 * 2 ^ k ≡ 2 ^ k = rw quotient (omega arith) in
    rw (bit_and-bit k t, q) (rw (lt→ltb (2 ^ k) (2 ^ 127) (omega (arith, pow2-le k (omega arith)))))
  where
    quotient : t / 2 ^ k ≡ 1
    quotient = grind (arith, div-add-mod t (2 ^ k), mod-lt t (pow2_pos k), pow2-double k)

minus-modulus : (w t : ℕ) → t < 2 ^ w → pos t -ℤ pow2 w ≡ negsuc (2 ^ w - 1 - t)
minus-modulus w t h = omega int_laws

checked-small :
    (w t : ℕ) → w ≤ 64 → checked (negsuc (2 ^ w - 1 - t)) ≡ some (negsuc (2 ^ w - 1 - t))
checked-small w t h = ground (arith, pow2-le w h)

pub sign_extend_lem :
    (a : Number) (k : ℕ)
    → k < 64
    → IsI128 a
    → sign_extend a (suc k) ≡ some (as_signed (suc k) (residue (suc k) a))
unfolding sign_extend
sign_extend_lem a k h v =
    rw (low_bits-residue (suc k) a h v, le→leb (suc k) 64 h, pred)
      (elim (Bool-cases (ltb t (2 ^ k))) [
        | inl low ↦ rw (low, sign_bit-clear k t (ltb→lt _ _ low)) refl
        | inr high ↦
            rw
              (
                high,
                sign_bit-set k t h (ltb-false→le _ _ high) inside,
                minus-modulus (suc k) t inside,
              )
              (ground (arith, pow2_pos k, pow2-le (suc k) h, inside))
      ])
  where
    t : ℕ
    t = residue (suc k) a

    inside : t < 2 ^ suc k
    inside = residue-lt (suc k) a

    pred : suc k - 1 ≡ k
    pred = omega arith

-- A signed reading of w bits lies in the signed range of the width and keeps those bits.
pub as_signed_lem :
    (k n : ℕ)
    → n < 2 ^ suc k
    → (signed_min (suc k) ≤ℤ as_signed (suc k) n)
      × (as_signed (suc k) n ≤ℤ signed_max (suc k))
      × (residue (suc k) (as_signed (suc k) n) ≡ n)
as_signed_lem k n h =
    let pred : suc k - 1 ≡ k = omega arith in
    rw pred (elim (Bool-cases (ltb n (2 ^ k))) [
      | inl low ↦
          rw low
            (omega (int_laws, ltb→lt _ _ low), omega (int_laws, ltb→lt _ _ low), mod-eq_of_lt h)
      | inr high ↦ rw high (
          let over = ltb-false→le _ _ high in
          let double = pow2-double k in
          let back : 2 ^ suc k - 1 - n < 2 ^ suc k = omega arith in
          (omega (int_laws, over, double), omega int_laws, rw (mod-eq_of_lt back) (omega arith)))
    ])

-- What sign extension promises of its result `r`: it is in the signed range of the width, and its
-- low bits are those of `a`.
abbrev pub IsSignExtension : ℕ → ℤ → ℤ → Type 0
IsSignExtension w a r = (signed_min w ≤ℤ r) × (r ≤ℤ signed_max w) × (residue w r ≡ residue w a)

-- At each width from 1 to 64, sign extension of an i128 does not panic, its result lies in the
-- signed range of the width, and it agrees with the argument modulo 2^width.
pub sign_extend-IsSignExtension :
    (a : Number) (w : ℕ)
    → 0 < w
    → w ≤ 64
    → IsI128 a
    → (r : Number) × (sign_extend a w ≡ some r) × IsSignExtension w a r
sign_extend-IsSignExtension a zero p h v = absurd (omega arith)
sign_extend-IsSignExtension a (suc k) p h v =
    (_, sign_extend_lem a k h v, as_signed_lem k (residue (suc k) a) (residue-lt (suc k) a))

-- At each width from 1 to 64, truncation of an i128 to the signed width, which compares with the
-- sign bit, gives the same outcome as sign extension, which tests the sign bit by a mask.
pub truncate_to_signed-eq-sign_extend :
    (a : Number) (w : ℕ) → 0 < w → w ≤ 64 → IsI128 a → truncate_to_signed a w ≡ sign_extend a w
unfolding truncate_to_signed
truncate_to_signed-eq-sign_extend a zero p h v = absurd (omega arith)
truncate_to_signed-eq-sign_extend a (suc k) p h v =
    rw (low_bits-residue (suc k) a h v, sign_extend_lem a k h v, le→leb (suc k) 64 h, pred)
      (elim (Bool-cases (ltb t (2 ^ k))) [
        | inl low ↦ ground (arith, ltb→lt _ _ low)
        | inr high ↦
            rw (minus-modulus (suc k) t inside)
              (ground (arith, ltb-false→le _ _ high, pow2-le (suc k) h, inside))
      ])
  where
    t : ℕ
    t = residue (suc k) a

    inside : t < 2 ^ suc k
    inside = residue-lt (suc k) a

    pred : suc k - 1 ≡ k
    pred = omega arith

-- At each width from 1 to 64, zero extension of an i128 and its truncation to the unsigned width
-- do not panic, and both give the remainder modulo 2^width.
pub zero_extend-residue :
    (a : Number) (w : ℕ)
    → 0 < w
    → w ≤ 64
    → IsI128 a
    → (zero_extend a w ≡ some (pos (residue w a)))
      × (truncate_to_unsigned a w ≡ some (pos (residue w a)))
unfolding zero_extend truncate_to_unsigned
zero_extend-residue a zero p h v = absurd (omega arith)
zero_extend-residue a (suc k) p h v = (
  rw (le→leb (suc k) 64 h, low_bits-residue (suc k) a h v),
  rw (le→leb (suc k) 64 h, low_bits-residue (suc k) a h v),
)
