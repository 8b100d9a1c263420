-- ===== src/Arith/Number/Cast.antt =====
-- The casts of src/arith/number.rs between the signed and the unsigned reading of a width.
use native.Mathlib.Nat.{mod-eq_of_lt}
use prevail_rust.Base.Tests.{
  Bool, ◌%◌, leb, not, ◌&&◌, ◌||◌, ℕ, zero, suc, ◌-◌, ◌^◌, ◌≤◌, ◌<◌, ◌≡◌, arith, some, true, false,
  ◌>>=◌,
}
use prevail_rust.Base.Int.{leb_ℤ, ltb_ℤ, pos, negsuc, ◌+ℤ◌, ◌-ℤ◌, ◌≤ℤ◌, int_laws}
use prevail_rust.Base.Bits.{pow2_pos}
use prevail_rust.Arith.Number.{
  Number, cast_to_signed_width, cast_to_unsigned_width, signed_min, signed_max, pow2, fits_signed,
  fits_unsigned, fits_cast_to,
}
use prevail_rust.Arith.Number.Residue.{residue, pow2-le, mask-eq}
use prevail_rust.Arith.Number.Extend.{pow2-double}

pub signed_min-eq : (k : ℕ) → signed_min (suc k) ≡ negsuc (2 ^ k - 1)
signed_min-eq k = let pred : suc k - 1 ≡ k = omega arith in rw pred (omega (int_laws, pow2_pos k))

pub signed_max-eq : (k : ℕ) → signed_max (suc k) ≡ pos (2 ^ k - 1)
signed_max-eq k = let pred : suc k - 1 ≡ k = omega arith in rw pred (mask-eq k)

-- What the tests of a cast decide: the union of the signed and the unsigned range.
abbrev pub FitsCast : ℕ → Number → Type 0
FitsCast w (pos n) = n < 2 ^ w
FitsCast w (negsuc n) = n < 2 ^ (w - 1)

-- The two tests at a width between 1 and 64.
abbrev in_ranges : ℕ → Number → Bool
in_ranges k a =
    (leb_ℤ (negsuc (2 ^ k - 1)) a && leb_ℤ a (pos (2 ^ k - 1)))
    || (not (ltb_ℤ a (pos 0)) && ltb_ℤ a (pow2 (suc k)))

fits_cast_to-eq : (k : ℕ) (a : Number) → k < 64 → fits_cast_to a (suc k) ≡ some (in_ranges k a)
unfolding fits_cast_to fits_signed fits_unsigned
fits_cast_to-eq k a h =
    let wide : leb 128 (suc k) ≡ false = ground arith in
    let wide' : leb 127 (suc k) ≡ false = ground arith in
    rw (wide, wide', signed_min-eq k, signed_max-eq k) (ground arith)

-- At each width from 1 to 64, a number that fits_cast_to accepts lies between -2^(width-1) and
-- 2^width - 1.
pub fits_cast_to-FitsCast :
    (k : ℕ) (a : Number) → k < 64 → fits_cast_to a (suc k) ≡ some true → FitsCast (suc k) a
fits_cast_to-FitsCast k (pos n) h f =
    let g : in_ranges k (pos n) ≡ true = cc (fits_cast_to-eq k (pos n) h) in
    ground (arith, pow2-double k, pow2_pos k, g)
fits_cast_to-FitsCast k (negsuc n) h f =
    let g : in_ranges k (negsuc n) ≡ true = cc (fits_cast_to-eq k (negsuc n) h) in
    let pred : suc k - 1 ≡ k = omega arith in rw pred (ground (arith, pow2_pos k, g))

-- At each width from 1 to 64, a number from -2^(width-1) to 2^width - 1 casts to the unsigned
-- range without a panic, and the result is its remainder modulo 2^width.
pub cast_to_unsigned_width-residue :
    (k : ℕ) (a : Number)
    → k < 64
    → FitsCast (suc k) a
    → cast_to_unsigned_width a (suc k) ≡ some (pos (residue (suc k) a))
unfolding cast_to_unsigned_width
cast_to_unsigned_width-residue k (pos n) h f = rw (mask-eq (suc k), mod-eq_of_lt f) (ground arith)
cast_to_unsigned_width-residue k (negsuc n) h f =
    let pred : suc k - 1 ≡ k = omega arith in
    let small : n < 2 ^ k = rw pred at f in
    let double = pow2-double k in
    let rem : n % 2 ^ suc k ≡ n = mod-eq_of_lt (omega arith) in
    let sum : negsuc n +ℤ pow2 (suc k) ≡ pos (2 ^ suc k - 1 - n) = omega int_laws in
    rw (signed_min-eq k, signed_max-eq k, rem, sum) (ground (arith, pow2-le (suc k) h))

-- At each width from 1 to 64, casting a number of the signed range to the unsigned range and
-- back does not panic and gives the number again.
pub cast_to_signed-cast_to_unsigned :
    (w : ℕ) (a : Number)
    → 0 < w
    → w ≤ 64
    → signed_min w ≤ℤ a
    → a ≤ℤ signed_max w
    → (cast_to_unsigned_width a w >>= λ u. cast_to_signed_width u w) ≡ some a
unfolding cast_to_signed_width
cast_to_signed-cast_to_unsigned zero a p h lo hi = absurd (omega arith)
cast_to_signed-cast_to_unsigned (suc k) (pos n) p h lo hi =
    let lo' = rw (signed_min-eq k) at lo in
    let hi' = rw (signed_max-eq k) at hi in
    let double = pow2-double k in
    let fits : n < 2 ^ suc k = omega (arith, hi', pow2_pos k) in
    rw
      (
        cast_to_unsigned_width-residue k (pos n) h fits,
        mod-eq_of_lt fits,
        signed_min-eq k,
        signed_max-eq k,
      )
      (ground (arith, hi'))
cast_to_signed-cast_to_unsigned (suc k) (negsuc n) p h lo hi =
    let lo' = rw (signed_min-eq k) at lo in
    let double = pow2-double k in
    let some_bits = pow2_pos k in
    let small : n < 2 ^ k = omega (arith, lo') in
    let pred : suc k - 1 ≡ k = omega arith in
    let rem : n % 2 ^ suc k ≡ n = mod-eq_of_lt (omega arith) in
    let back : pos (2 ^ suc k - 1 - n) -ℤ pow2 (suc k) ≡ negsuc n = omega int_laws in
    rw
      (
        cast_to_unsigned_width-residue k (negsuc n) h (rw pred small),
        rem,
        signed_min-eq k,
        signed_max-eq k,
        mask-eq (suc k),
        pred,
        back,
      )
      (ground (arith, small, double, pow2-le k (omega arith)))
