-- ===== src/Arith/Linear/Tests.antt =====
-- src/arith/linear_expression.rs and linear_constraint.rs: the theorems at two expressions.
use prevail_rust.Base.Tests.{◌≡◌, refl, not, some, [], ◌∷◌, if◌then◌else◌, ◌==◌, arith}
use prevail_rust.Base.Int.{ℤ, pos, negsuc, ◌+ℤ◌, ◌-ℤ◌, ◌*ℤ◌, leb_ℤ, ltb_ℤ, eqb_ℤ}
use prevail_rust.Base.Maps.{get, insert, remove}
use prevail_rust.Arith.Number.{checked_add, checked_sub, checked_mul, is_zero}
use prevail_rust.Arith.Linear.{
  Variable, LinearExpression, LinearConstraint, less_than_zero, less_than_or_equals_zero, plus,
  subtract, negate, negate_constraint, coefficient_of, update, leq, lt, geq, gt, expr_eq, expr_neq,
}
use prevail_rust.Arith.Linear.Values.{value, WellOrdered, plus-value}
use prevail_rust.Arith.Linear.Total.{operations_total}
use prevail_rust.Arith.Linear.Constraints.{holds, negate_constraint-holds, comparison-holds}

-- 3 + 2 x0 - x4, and 1 + x4.
abbrev left : LinearExpression
left = record { constant_term = pos 3; variable_terms = (0, pos 2) ∷ (4, negsuc 0) ∷ [] }

abbrev right : LinearExpression
right = record { constant_term = pos 1; variable_terms = (4, pos 1) ∷ [] }

-- x0 = 5 and all others are 7.
abbrev at : Variable → ℤ
at v = if v == 0 then pos 5 else pos 7

abbrev sum : LinearExpression
sum = record { constant_term = pos 4; variable_terms = (0, pos 2) ∷ [] }

left-WellOrdered : WellOrdered left
left-WellOrdered = ((omega arith, tt), (tt, tt))

right-WellOrdered : WellOrdered right
right-WellOrdered = (tt, tt)

-- The term of x4 cancels.
plus_cancels : plus left right ≡ some sum
unfolding plus checked_add ◌+ℤ◌ coefficient_of get update is_zero remove
plus_cancels = refl

plus-value_example : WellOrdered sum × (value at sum ≡ value at left +ℤ value at right)
plus-value_example = plus-value at left right sum left-WellOrdered right-WellOrdered plus_cancels

operations_total_example :
    ((r : LinearExpression) × (plus left right ≡ some r))
    × ((r : LinearExpression) × (subtract left right ≡ some r))
    × ((r : LinearExpression) × (negate left ≡ some r))
operations_total_example =
    operations_total left right
      ((omega arith, omega arith), ((omega arith, omega arith), ((omega arith, omega arith), tt)))
      ((omega arith, omega arith), ((omega arith, omega arith), tt))

abbrev below_zero : LinearConstraint
below_zero = record { expression = left; kind = less_than_zero }

abbrev not_below_zero : LinearConstraint
not_below_zero = record {
  expression = record {
    constant_term = negsuc 2;
    variable_terms = (0, negsuc 1) ∷ (4, pos 1) ∷ [];
  };
  kind = less_than_or_equals_zero;
}

negate_constraint-holds_example : holds at not_below_zero ≡ not (holds at below_zero)
unfolding negate_constraint checked_mul ◌*ℤ◌
negate_constraint-holds_example =
    negate_constraint-holds at below_zero not_below_zero left-WellOrdered refl

-- left <= right.
abbrev at_most : LinearConstraint
at_most = record {
  expression = record { constant_term = pos 2; variable_terms = (0, pos 2) ∷ (4, negsuc 1) ∷ [] };
  kind = less_than_or_equals_zero;
}

leq_of_expressions : leq left right ≡ some at_most
unfolding leq subtract checked_sub ◌-ℤ◌ coefficient_of get update is_zero insert
leq_of_expressions = refl

comparison-holds_example :
    (leq left right ≡ some at_most → holds at at_most ≡ leb_ℤ (value at left) (value at right))
    × (lt left right ≡ some at_most → holds at at_most ≡ ltb_ℤ (value at left) (value at right))
    × (geq left right ≡ some at_most → holds at at_most ≡ leb_ℤ (value at right) (value at left))
    × (gt left right ≡ some at_most → holds at at_most ≡ ltb_ℤ (value at right) (value at left))
    × (expr_eq left right ≡ some at_most
        → holds at at_most ≡ eqb_ℤ (value at left) (value at right))
    × (expr_neq left right ≡ some at_most
        → holds at at_most ≡ not (eqb_ℤ (value at left) (value at right)))
comparison-holds_example = comparison-holds at left right at_most left-WellOrdered right-WellOrdered
