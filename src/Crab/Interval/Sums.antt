-- ===== src/Crab/Interval/Sums.antt =====
-- Sums, negations and differences of intervals (src/crab/interval.rs) over their members.
use prevail_rust.Base.Tests.{◌≡◌, Option, some}
use prevail_rust.Base.Int.{ℤ, ◌+ℤ◌, ◌-ℤ◌, neg_ℤ, int_laws}
use prevail_rust.Arith.Extended
use prevail_rust.Arith.Extended.Sums.{IsSmall, add-Below, add-Above, neg-Below, neg-Above}
use prevail_rust.Crab.Interval.{Interval, new, add, negate, sub}
use prevail_rust.Crab.Interval.Member.{Contains, Contains-not_bottom, new-Contains}

-- Both bounds are infinite or have at most 125 bits.
pub record HasSmallBounds (i : Interval) : Type 0 where
  pub lb_small : IsSmall i.lb
  pub ub_small : IsSmall i.ub

-- A result that did not panic and contains a number.
abbrev pub Holds : Option Interval → ℤ → Type 0
Holds r n = (z : Interval) × (r ≡ some z) × Contains z n

module _ (x y : Interval) (m n : ℤ) (s : HasSmallBounds x) (c : Contains x m) where
  -- For two intervals whose finite bounds lie between -2^125 and 2^125, the sum does not panic
  -- and contains the sum of each member of the one and each member of the other.
  pub add-Contains : HasSmallBounds y → Contains y n → Holds (add x y) (m +ℤ n)
  unfolding add
  add-Contains t d =
      let (l, el, hl) = add-Below x.lb y.lb m n s.lb_small t.lb_small c.above d.above in
      let (u, eu, hu) = add-Above x.ub y.ub m n s.ub_small t.ub_small c.below d.below in
      (
        new l u,
        rw (Contains-not_bottom x m c, Contains-not_bottom y n d, el, eu),
        (new-Contains l u (m +ℤ n)).1 (hl, hu),
      )

  -- For two intervals whose finite bounds lie between -2^125 and 2^125, the difference does not
  -- panic and contains the difference of each member of the one and each member of the other.
  pub sub-Contains : HasSmallBounds y → Contains y n → Holds (sub x y) (m -ℤ n)
  unfolding sub Extended.sub
  sub-Contains t d =
      let (nu, enu, snu, hnu) = neg-Above y.ub n t.ub_small d.below in
      let (nl, enl, snl, hnl) = neg-Below y.lb n t.lb_small d.above in
      let (l, el, hl) = add-Below x.lb nu m (neg_ℤ n) s.lb_small snu c.above hnu in
      let (u, eu, hu) = add-Above x.ub nl m (neg_ℤ n) s.ub_small snl c.below hnl in
      let minus : m -ℤ n ≡ m +ℤ neg_ℤ n = omega int_laws in
      (
        new l u,
        rw (Contains-not_bottom x m c, Contains-not_bottom y n d, enu, enl, el, eu),
        rw minus ((new-Contains l u (m +ℤ neg_ℤ n)).1 (hl, hu)),
      )

-- For an interval whose finite bounds lie between -2^125 and 2^125, the negation does not panic
-- and contains the negation of each member.
pub negate-Contains :
    (x : Interval) (m : ℤ) → HasSmallBounds x → Contains x m → Holds (negate x) (neg_ℤ m)
unfolding negate
negate-Contains x m s c =
    let (l, el, sl, hl) = neg-Above x.ub m s.ub_small c.below in
    let (u, eu, su, hu) = neg-Below x.lb m s.lb_small c.above in
    (new l u, rw (Contains-not_bottom x m c, el, eu), (new-Contains l u (neg_ℤ m)).1 (hl, hu))
