-- ===== src/Crab/Interval/Divide/Depth.antt =====
-- The depth of the recursion of the divisions and remainders in src/crab/interval.rs.
use prevail_rust.Base.Tests.{
  some-eq, Option, none, some, ◌≡◌, sym, ap, ◌∙◌, true, false, ◌>>=◌, arith, inl, inr, Bool-cases,
}
use prevail_rust.Base.Int.{pos, negsuc}
use prevail_rust.Arith.Extended.{finite}
use prevail_rust.Crab.Interval.{Interval, contains, join}
use prevail_rust.Crab.Interval.Member.{new-Contains, contains-Contains}
use prevail_rust.Crab.Interval.Divide.{
  Op, lower_half, upper_half, try_split_divisor_at_zero, try_split_dividend_at_zero, split_step,
  div_step, sdiv_step, udiv_step, div, sdiv, udiv, div_early, sdiv_early, udiv_early,
  signed_div_corners, udiv_corners, zero_join, unreached, or_else,
}
use prevail_rust.Crab.Interval.Divide.Remainder.{
  srem_step, urem_step, srem, urem, urem_early, urem_base, dividend_join,
}

lower_half_nonzero : (i : Interval) → contains (lower_half i) (pos 0) ≡ false
unfolding lower_half
lower_half_nonzero i = elim (Bool-cases (contains (lower_half i) (pos 0))) [
  | inl h ↦
      let inside = (contains-Contains (lower_half i) (pos 0)).0 h in
      absurd (omega (arith, ((new-Contains i.lb (finite (negsuc 0)) (pos 0)).0 inside).1))
  | inr h ↦ h
]

upper_half_nonzero : (i : Interval) → contains (upper_half i) (pos 0) ≡ false
unfolding upper_half
upper_half_nonzero i = elim (Bool-cases (contains (upper_half i) (pos 0))) [
  | inl h ↦
      let inside = (contains-Contains (upper_half i) (pos 0)).0 h in
      absurd (omega (arith, ((new-Contains (finite (pos 1)) i.ub (pos 0)).0 inside).0))
  | inr h ↦ h
]

-- An operand that does not hold zero is not split.
divisor_whole :
    (x y z : Interval) (f : Op)
    → contains y (pos 0) ≡ false
    → try_split_divisor_at_zero x y f z ≡ none
unfolding try_split_divisor_at_zero
divisor_whole x y z f h = rw h

dividend_whole :
    (x y z : Interval) (f : Op)
    → contains x (pos 0) ≡ false
    → try_split_dividend_at_zero x y f z ≡ none
unfolding try_split_dividend_at_zero
dividend_whole x y z f h = rw h

divisor_split :
    (x y z : Interval) (f : Op)
    → contains y (pos 0) ≡ true
    → (r : Option Interval) × (try_split_divisor_at_zero x y f z ≡ some r)
unfolding try_split_divisor_at_zero
divisor_split x y z f h = (halves, rw h)
  where
    halves : Option Interval
    halves = do lo ← f x (lower_half y); hi ← f x (upper_half y); some (join (join lo hi) z)

-- A split asks its operation about the two halves only.
divisor_congr :
    (x y z : Interval) (f g : Op)
    → f x (lower_half y) ≡ g x (lower_half y)
    → f x (upper_half y) ≡ g x (upper_half y)
    → try_split_divisor_at_zero x y f z ≡ try_split_divisor_at_zero x y g z
unfolding try_split_divisor_at_zero
divisor_congr x y z f g p q = rw (p, q)

dividend_congr :
    (x y z : Interval) (f g : Op)
    → f (lower_half x) y ≡ g (lower_half x) y
    → f (upper_half x) y ≡ g (upper_half x) y
    → try_split_dividend_at_zero x y f z ≡ try_split_dividend_at_zero x y g z
unfolding try_split_dividend_at_zero
dividend_congr x y z f g p q = rw (p, q)

module _ (early : Interval → Interval → Option (Option Interval)) (base : Op)
    (join_with : Interval → Interval) where
  abbrev step : Op → Op
  step = split_step early base join_with

  -- Past both splits a step calls nothing.
  flat :
      (f g : Op) (x y : Interval)
      → contains y (pos 0) ≡ false
      → contains x (pos 0) ≡ false
      → step f x y ≡ step g x y
  unfolding split_step
  flat f g x y h k =
      let z = join_with x in
      rw (
        divisor_whole x y z f h,
        divisor_whole x y z g h,
        dividend_whole x y z f k,
        dividend_whole x y z g k,
      )

  -- Past the split of the divisor a step calls only steps past both splits.
  one_deep :
      (f g : Op) (x y : Interval)
      → contains y (pos 0) ≡ false
      → step (step f) x y ≡ step (step g) x y
  one_deep f g x y h =
      let z = join_with x in
      let low = flat f g (lower_half x) y h (lower_half_nonzero x) in
      let high = flat f g (upper_half x) y h (upper_half_nonzero x) in
      unfold split_step in
      rw (
        divisor_whole x y z (step f) h,
        divisor_whole x y z (step g) h,
        dividend_congr x y z (step f) (step g) low high,
      )

  -- The result of three steps does not depend on what the third would call.
  pub three_steps :
      (f g : Op) (x y : Interval) → step (step (step f)) x y ≡ step (step (step g)) x y
  three_steps f g x y = elim (Bool-cases (contains y (pos 0))) [
    | inl h ↦
        let z = join_with x in
        let low = one_deep f g x (lower_half y) (lower_half_nonzero y) in
        let high = one_deep f g x (upper_half y) (upper_half_nonzero y) in
        let (r, e) = divisor_split x y z (step (step f)) h in
        let (s, d) = divisor_split x y z (step (step g)) h in
        let same = sym e ∙ divisor_congr x y z (step (step f)) (step (step g)) low high ∙ d in
        unfold split_step in rw (e, d) (ap (or_else (early x y)) (some-eq same))
    | inr h ↦ one_deep (step f) (step g) x y h
  ]

-- A step of the signed remainder splits the divisor only.
srem_flat :
    (f g : Op) (x y : Interval) → contains y (pos 0) ≡ false → srem_step f x y ≡ srem_step g x y
unfolding srem_step
srem_flat f g x y h = rw (divisor_whole x y x f h, divisor_whole x y x g h)

srem_two_steps :
    (f g : Op) (x y : Interval) → srem_step (srem_step f) x y ≡ srem_step (srem_step g) x y
srem_two_steps f g x y =
    let low = srem_flat f g x (lower_half y) (lower_half_nonzero y) in
    let high = srem_flat f g x (upper_half y) (upper_half_nonzero y) in
    unfold srem_step in rw (divisor_congr x y x (srem_step f) (srem_step g) low high)

-- Interval division, signed and unsigned division, and unsigned remainder call themselves at
-- most twice in a row, signed remainder at most once: three unfoldings, and two of signed
-- remainder, give the same result whatever a further call would answer, for all operands.
pub division_depth :
    (f : Op) (x y : Interval)
    → (div_step (div_step (div_step f)) x y ≡ div x y)
      × (sdiv_step (sdiv_step (sdiv_step f)) x y ≡ sdiv x y)
      × (udiv_step (udiv_step (udiv_step f)) x y ≡ udiv x y)
      × (srem_step (srem_step f) x y ≡ srem x y)
      × (urem_step (urem_step (urem_step f)) x y ≡ urem x y)
unfolding div sdiv udiv srem urem
division_depth f x y = (
  three_steps div_early signed_div_corners zero_join f unreached x y,
  three_steps sdiv_early signed_div_corners zero_join f unreached x y,
  three_steps udiv_early udiv_corners zero_join f unreached x y,
  srem_two_steps f unreached x y,
  three_steps urem_early urem_base dividend_join f unreached x y,
)
