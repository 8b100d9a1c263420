-- ===== src/Crab/Interval/Extend/Shift.antt =====
-- Two readings of the low bits of a number as remainders of natural numbers, for the extensions of
-- src/crab/interval.rs.
use native.Mathlib.Nat.{mul-add-mod_self_left, mod-add-mod, mod-eq_of_lt, mod-eq-sub-mod}
use mathlib.Core.Path.{subst}
use prevail_rust.Base.Tests.{
  ℕ, suc, ◌+◌, ◌-◌, ◌%◌, ◌^◌, ◌≤◌, ◌<◌, ◌≡◌, ltb, Bool-cases, inl, inr, arith, sym, ap, ◌∙◌, ltb→lt,
  ltb-false→le,
}
use prevail_rust.Base.Int.{ℤ, pos, negsuc, pos_part, neg_part, ◌≤ℤ◌}
use prevail_rust.Base.Bits.{pow2_pos}
use prevail_rust.Arith.Number.{IsI128}
use prevail_rust.Arith.Number.Residue.{residue, residue-lt, whole, to_bits-residue}
use prevail_rust.Arith.Number.Extend.{as_signed, pow2-double}

-- An `i128` moved up by 2 ^ 128, which keeps its remainders.
abbrev pub shifted : ℤ → ℕ
shifted (pos n) = 2 ^ 128 + n
shifted (negsuc n) = 2 ^ 128 - 1 - n

pub shifted_mono : (a b : ℤ) → IsI128 a → IsI128 b → a ≤ℤ b → shifted a ≤ shifted b
shifted_mono a b h k l = ground arith

-- The distance of two numbers survives the move.
pub shifted_close :
    (a b : ℤ) (m : ℕ)
    → IsI128 a
    → IsI128 b
    → pos_part b + neg_part a < pos_part a + neg_part b + m
    → shifted b < shifted a + m
shifted_close a b m h k d = ground arith

pub shifted-residue : (w : ℕ) (a : ℤ) → w ≤ 128 → IsI128 a → shifted a % 2 ^ w ≡ residue w a
shifted-residue w (pos n) h v =
    subst (λ (t : ℕ). (t + n) % 2 ^ w ≡ n % 2 ^ w) (sym (whole w h))
      (mul-add-mod_self_left (2 ^ w) (2 ^ (128 - w)) n)
shifted-residue w (negsuc n) h v = to_bits-residue w (negsuc n) h v

-- The signed reading, moved up by half the modulus, is a remainder too.
pub as_signed-shifted :
    (k : ℕ) (a : ℤ)
    → k < 64
    → IsI128 a
    → (pos_part (as_signed (suc k) (residue (suc k) a)) + 2 ^ k
        ≡ neg_part (as_signed (suc k) (residue (suc k) a)) + (shifted a + 2 ^ k) % 2 ^ suc k)
as_signed-shifted k a h v =
    rw (sym low, pred)
      (elim (Bool-cases (ltb t (2 ^ k))) [
        | inl small ↦
            let s = ltb→lt t (2 ^ k) small in
            let r : (t + 2 ^ k) % 2 ^ suc k ≡ t + 2 ^ k =
              mod-eq_of_lt (omega (arith, s, pow2-double k)) in
            rw (small, r) (omega arith)
        | inr large ↦
            let s = ltb-false→le t (2 ^ k) large in
            let double = pow2-double k in
            let wrap : 2 ^ suc k ≤ t + 2 ^ k = omega arith in
            let less : t + 2 ^ k - 2 ^ suc k < 2 ^ suc k = omega (arith, inside, pow2_pos k) in
            let r = mod-eq-sub-mod wrap ∙ mod-eq_of_lt less in rw (large, r) (omega (arith, inside))
      ])
  where
    t : ℕ
    t = residue (suc k) a

    inside : t < 2 ^ suc k
    inside = residue-lt (suc k) a

    pred : suc k - 1 ≡ k
    pred = omega arith

    low : (t + 2 ^ k) % 2 ^ suc k ≡ (shifted a + 2 ^ k) % 2 ^ suc k
    low =
        ap (λ (r : ℕ). (r + 2 ^ k) % 2 ^ suc k) (sym (shifted-residue (suc k) a (omega arith) v))
        ∙ mod-add-mod (shifted a) (2 ^ suc k) (2 ^ k)
