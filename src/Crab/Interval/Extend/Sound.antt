-- ===== src/Crab/Interval/Extend/Sound.antt =====
-- Sign extension of intervals in src/crab/interval.rs over their members.
use prevail_rust.Base.Tests.{
  ℕ, zero, suc, ◌+◌, ◌-◌, ◌^◌, ◌≤◌, ◌<◌, ◌≡◌, refl, ap, ◌∙◌, Option, some, false, ltb,
  if◌then◌else◌, ◌>>=◌, Bool-cases, inl, inr, arith, lt→ltb, ltb→lt, ltb-false→le, le→leb,
}
use prevail_rust.Base.Int.{ℤ, pos, negsuc, pos_part, neg_part, ◌+ℤ◌, neg_ℤ, ◌≤ℤ◌, ltb_ℤ, int_laws}
use prevail_rust.Base.Bits.{pow2_pos}
use prevail_rust.Arith.Number
use prevail_rust.Arith.Number.{IsI128, checked_add, checked_neg}
use prevail_rust.Arith.Number.Residue.{residue, residue-lt, pow2-le}
use prevail_rust.Arith.Number.Extend.{as_signed, sign_extend_lem, as_signed_lem, pow2-double}
use prevail_rust.Arith.Number.Cast.{signed_min-eq, signed_max-eq}
use prevail_rust.Arith.Extended
use prevail_rust.Arith.Extended.{ExtendedNumber, minus_infinity, finite, plus_infinity, lt}
use prevail_rust.Arith.Extended.Order.{Le}
use prevail_rust.Arith.Extended.Sums.{IsSmall, checked-some}
use prevail_rust.Crab.Interval.{Interval, new, size}
use prevail_rust.Crab.Interval.Member.{Contains, Contains-not_bottom}
use prevail_rust.Crab.Interval.Sums.{HasSmallBounds, Holds}
use prevail_rust.Crab.Interval.Extend.{signed_int, sign_extend, extended_or_full}
use prevail_rust.Crab.Interval.Extend.Window.{window}
use prevail_rust.Crab.Interval.Extend.Shift.{
  shifted, shifted_mono, shifted_close, as_signed-shifted,
}

small-IsI128 : (n : ℤ) → IsSmall (finite n) → IsI128 n
small-IsI128 n s = omega arith

-- The signed reading of the low bits.
abbrev wrap : ℕ → ℤ → ℤ
wrap w a = as_signed w (residue w a)

-- Within a window of fewer than 2 ^ w numbers whose ends do not come out inverted, the signed
-- reading keeps the order.
wrap_window :
    (k : ℕ) (l a u : ℤ)
    → k < 64
    → IsI128 l
    → IsI128 a
    → IsI128 u
    → l ≤ℤ a
    → a ≤ℤ u
    → pos_part u + neg_part l < pos_part l + neg_part u + 2 ^ suc k
    → wrap (suc k) l ≤ℤ wrap (suc k) u
    → (wrap (suc k) l ≤ℤ wrap (suc k) a) × (wrap (suc k) a ≤ℤ wrap (suc k) u)
wrap_window k l a u h il ia iu la au d r =
    let sl = as_signed-shifted k l h il in
    let sa = as_signed-shifted k a h ia in
    let su = as_signed-shifted k u h iu in
    let both =
      window (2 ^ suc k) (shifted l + 2 ^ k) (shifted a + 2 ^ k) (shifted u + 2 ^ k)
        (pow2_pos (suc k)) (omega (arith, shifted_mono l a il ia la))
        (omega (arith, shifted_mono a u ia iu au))
        (omega (arith, shifted_close l u (2 ^ suc k) il iu d)) (omega arith) in
    (omega (arith, both), omega (arith, both))

signed_full : ℕ → Interval
signed_full k = record { lb = finite (negsuc (2 ^ k - 1)); ub = finite (pos (2 ^ k - 1)) }

signed_int-eq : (k : ℕ) → k < 64 → signed_int (suc k) ≡ some (signed_full k)
unfolding signed_int signed_full Number.min_int Number.max_int new
signed_int-eq k h = rw (le→leb (suc k) 64 h, signed_min-eq k, signed_max-eq k) (ground arith)

-- The size of an interval is its number of members, or infinite.
span : ExtendedNumber → ExtendedNumber → Option ExtendedNumber
span l u = Extended.sub u l >>= λ d. Extended.add d (finite (pos 1))

span-finite :
    (l u : ℤ)
    → IsSmall (finite l)
    → IsSmall (finite u)
    → span (finite l) (finite u) ≡ some (finite (u +ℤ neg_ℤ l +ℤ pos 1))
unfolding span Extended.sub Extended.neg Extended.add checked_neg checked_add
span-finite l u s t = rw (
  checked-some (neg_ℤ l) (omega int_laws),
  checked-some (u +ℤ neg_ℤ l) (omega int_laws),
  checked-some (u +ℤ neg_ℤ l +ℤ pos 1) (omega int_laws),
)

span-no_ub : (l : ℤ) → IsSmall (finite l) → span (finite l) plus_infinity ≡ some plus_infinity
unfolding span Extended.sub Extended.neg Extended.add checked_neg
span-no_ub l s = rw (checked-some (neg_ℤ l) (omega int_laws))

span-no_lb :
    (u : ExtendedNumber) (a : ℤ) → Le (finite a) u → span minus_infinity u ≡ some plus_infinity
unfolding span Extended.sub Extended.neg Extended.add
span-no_lb minus_infinity a h = absurd h
span-no_lb (finite u) a h = refl
span-no_lb plus_infinity a h = refl

-- The interval of all signed readings has 2 ^ w members.
full-size : (k : ℕ) → k < 64 → size (signed_full k) ≡ some (finite (pos (2 ^ suc k)))
unfolding size signed_full span
full-size k h =
    let test : ltb (2 ^ k - 1 + suc (2 ^ k - 1)) 0 ≡ false = ground arith in
    let small = pow2-le k (omega arith) in
    let total : pos (2 ^ k - 1) +ℤ neg_ℤ (negsuc (2 ^ k - 1)) +ℤ pos 1 ≡ pos (2 ^ suc k) =
      omega (int_laws, pow2-double k, pow2_pos k) in
    rw test (
      span-finite (negsuc (2 ^ k - 1)) (pos (2 ^ k - 1)) (omega (arith, small))
        (omega (arith, small))
      ∙ ap (λ z. some (finite z)) total)

module _ (k : ℕ) (h : k < 64) (a : ℤ) where
  in_full : IsI128 a → Contains (signed_full k) (wrap (suc k) a)
  unfolding signed_full
  in_full v =
      let range = as_signed_lem k (residue (suc k) a) (residue-lt (suc k) a) in
      let lo = rw (signed_min-eq k) at range.0 in
      let hi = rw (signed_max-eq k) at range.1 in record { above = lo; below = hi }

  -- The branch on the size: extended bounds, or the full range.
  abbrev chosen : ExtendedNumber → ExtendedNumber → ExtendedNumber → Option Interval
  chosen s l u =
      if lt s (finite (pos (2 ^ suc k)))
      then extended_or_full (Extended.sign_extend l (suc k)) (Extended.sign_extend u (suc k))
          (signed_full k)
      else some (signed_full k)

  chosen-finite :
      (l u : ℤ)
      → IsSmall (finite l)
      → IsSmall (finite u)
      → l ≤ℤ a
      → a ≤ℤ u
      → Holds (chosen (finite (u +ℤ neg_ℤ l +ℤ pos 1)) (finite l) (finite u)) (wrap (suc k) a)
  unfolding extended_or_full Extended.sign_extend new
  chosen-finite l u sl su la au =
      let il = small-IsI128 l sl in
      let iu = small-IsI128 u su in
      let ia : IsI128 a = omega arith in
      elim (Bool-cases (ltb_ℤ (u +ℤ neg_ℤ l +ℤ pos 1) (pos (2 ^ suc k)))) [
        | inr wide ↦ (signed_full k, rw wide, in_full ia)
        | inl narrow ↦
            let close = ltb→lt _ _ narrow in
            let el = sign_extend_lem l k h il in
            let eu = sign_extend_lem u k h iu in
            elim (Bool-cases (ltb_ℤ (wrap (suc k) u) (wrap (suc k) l))) [
              | inl inverted ↦ (signed_full k, rw (narrow, el, eu, inverted), in_full ia)
              | inr ordered ↦
                  let r = ltb-false→le _ _ ordered in
                  let (lo, hi) =
                    wrap_window k l a u h il ia iu la au (omega int_laws) (omega (arith, r)) in
                  (
                    record { lb = finite (wrap (suc k) l); ub = finite (wrap (suc k) u) },
                    rw (narrow, el, eu, ordered, ordered),
                    record { above = lo; below = hi },
                  )
            ]
      ]

  chosen_sound :
      (l u : ExtendedNumber)
      → IsSmall l
      → IsSmall u
      → Le l (finite a)
      → Le (finite a) u
      → IsI128 a
      → (s : ExtendedNumber) × (span l u ≡ some s) × Holds (chosen s l u) (wrap (suc k) a)
  chosen_sound (finite l) (finite u) sl su la au v =
      (finite (u +ℤ neg_ℤ l +ℤ pos 1), span-finite l u sl su, chosen-finite l u sl su la au)
  chosen_sound minus_infinity u sl su la au v =
      (plus_infinity, span-no_lb u a au, (signed_full k, refl, in_full v))
  chosen_sound (finite l) plus_infinity sl su la au v =
      (plus_infinity, span-no_ub l sl, (signed_full k, refl, in_full v))
  chosen_sound (finite l) minus_infinity sl su la au v = absurd au
  chosen_sound plus_infinity u sl su la au v = absurd la

size-span :
    (x : Interval) (a : ℤ) (n : ExtendedNumber)
    → Contains x a
    → span x.lb x.ub ≡ some n
    → size x ≡ some n
unfolding size span
size-span x a n c e = rw (Contains-not_bottom x a c) e

-- At each width from 1 to 64, for an interval whose finite bounds lie between -2^125 and 2^125
-- and an i128 in it, neither the sign extension of the number nor that of the interval panics,
-- and the latter contains the former.
pub sign_extend-Contains :
    (w : ℕ) (x : Interval) (a : ℤ)
    → 0 < w
    → w ≤ 64
    → HasSmallBounds x
    → IsI128 a
    → Contains x a
    → (r : ℤ) × (Number.sign_extend a w ≡ some r) × Holds (sign_extend x w) r
unfolding sign_extend
sign_extend-Contains zero x a p h s v c = absurd (omega arith)
sign_extend-Contains (suc k) x a p h s v c =
    let (n, e, holds) = chosen_sound k h a x.lb x.ub s.lb_small s.ub_small c.above c.below v in
    (
      wrap (suc k) a,
      sign_extend_lem a k h v,
      rw (lt→ltb 0 (suc k) p, signed_int-eq k h, size-span x a n c e, full-size k h) holds,
    )
