-- ===== src/Arith/Linear.antt =====
-- src/arith/variable.rs, linear_expression.rs and linear_constraint.rs: sums of terms with a constant,
-- compared with zero. A variable is its id, and an overflow of a number, which panics, is `none`.
use prevail_rust.Base.Tests.{
  ℕ, Bool, true, false, not, Option, none, some, if◌then◌else◌, ◌>>=◌, List, [], ◌∷◌,
}
use prevail_rust.Base.Int.{ℤ, pos, negsuc}
use prevail_rust.Base.Maps.{Map, get, insert, remove, nat_ord}
use prevail_rust.Arith.Number.{
  Number, checked_add, checked_sub, checked_mul, is_zero, is_negative, is_positive,
}
pub mod Terms
pub mod Total
pub mod Values
pub mod Constraints
mod Tests

abbrev pub Variable : Type 0
Variable = ℕ

abbrev pub Terms : Type 0
Terms = Map Variable Number

pub record LinearExpression : Type 0 where
  pub constant_term : Number
  pub variable_terms : Terms

abbrev or_zero : Option Number → Number
or_zero none = pos 0
or_zero (some c) = c

abbrev pub coefficient : Variable → Terms → Number
coefficient v terms = or_zero (get v terms)

unfoldable pub coefficient_of : LinearExpression → Variable → Number
coefficient_of e v = coefficient v e.variable_terms

abbrev pub is_empty : Terms → Bool
is_empty [] = true
is_empty (t ∷ terms) = false

unfoldable pub is_constant : LinearExpression → Bool
is_constant e = is_empty e.variable_terms

unfoldable pub scaled : Number → Terms → Option Terms
scaled k [] = some []
scaled k ((v, c) ∷ terms) = checked_mul c k >>= λ d. scaled k terms >>= λ rest. some ((v, d) ∷ rest)

unfoldable pub multiply : LinearExpression → Number → Option LinearExpression
unfolding scaled
multiply e k = scaled k e.variable_terms >>= λ terms. checked_mul e.constant_term k >>= λ c.
    some (record { constant_term = c; variable_terms = terms })

unfoldable pub plus_constant : LinearExpression → Number → Option LinearExpression
plus_constant e k = checked_add e.constant_term k >>= λ c. some (record e { constant_term = c })

unfoldable pub subtract_constant : LinearExpression → Number → Option LinearExpression
subtract_constant e k = checked_sub e.constant_term k >>= λ c. some (record e { constant_term = c })

-- A term is dropped when its coefficient becomes zero.
unfoldable pub update : Variable → Number → Terms → Terms
update v c terms = if is_zero c then remove v terms else insert v c terms

-- The loops of `plus` and `subtract` over the terms of the other expression.
unfoldable pub combine :
    (Number → Number → Option Number) → LinearExpression → Terms → Terms → Option Terms
combine op self terms [] = some terms
combine op self terms ((v, c) ∷ other) =
    op (coefficient_of self v) c >>= λ new_coeff. combine op self (update v new_coeff terms) other

unfoldable pub plus : LinearExpression → LinearExpression → Option LinearExpression
unfolding combine
plus e other = combine checked_add e e.variable_terms other.variable_terms >>= λ terms.
    checked_add e.constant_term other.constant_term >>= λ c.
    some (record { constant_term = c; variable_terms = terms })

unfoldable pub subtract : LinearExpression → LinearExpression → Option LinearExpression
unfolding combine
subtract e other = combine checked_sub e e.variable_terms other.variable_terms >>= λ terms.
    checked_sub e.constant_term other.constant_term >>= λ c.
    some (record { constant_term = c; variable_terms = terms })

unfoldable pub negate : LinearExpression → Option LinearExpression
unfolding multiply
negate e = multiply e (negsuc 0)

unfoldable pub subtract_variable : LinearExpression → Variable → Option LinearExpression
subtract_variable e v = checked_sub (coefficient_of e v) (pos 1) >>= λ new_coeff.
    some (record e { variable_terms = update v new_coeff e.variable_terms })

unfoldable pub of_number : Number → LinearExpression
of_number n = record { constant_term = n; variable_terms = [] }

unfoldable pub of_variable : Variable → LinearExpression
of_variable v = record { constant_term = pos 0; variable_terms = insert v (pos 1) [] }

unfoldable pub term : Number → Variable → LinearExpression
term c v = record {
  constant_term = pos 0;
  variable_terms = if is_zero c then [] else insert v c [];
}

pub data ConstraintKind : Type 0 where
  equals_zero : ConstraintKind
  less_than_or_equals_zero : ConstraintKind
  less_than_zero : ConstraintKind
  not_zero : ConstraintKind

pub record LinearConstraint : Type 0 where
  pub expression : LinearExpression
  pub kind : ConstraintKind

unfoldable pub true_const : LinearConstraint
true_const = record { expression = of_number (pos 0); kind = equals_zero }

unfoldable pub false_const : LinearConstraint
false_const = record { expression = of_number (pos 0); kind = not_zero }

-- The `match` of the kind, at the value of a constant expression.
unfoldable pub holds_at : ConstraintKind → Number → Bool
holds_at equals_zero c = is_zero c
holds_at less_than_or_equals_zero c = not (is_positive c)
holds_at less_than_zero c = is_negative c
holds_at not_zero c = not (is_zero c)

unfoldable pub is_tautology : LinearConstraint → Bool
unfolding holds_at is_constant
is_tautology c =
    if not (is_constant c.expression) then false else holds_at c.kind c.expression.constant_term

unfoldable pub is_contradiction : LinearConstraint → Bool
unfolding is_tautology is_constant
is_contradiction c = if not (is_constant c.expression) then false else not (is_tautology c)

unfoldable pub negate_kind : ConstraintKind → LinearExpression → Option LinearConstraint
unfolding negate
negate_kind not_zero e = some (record { expression = e; kind = equals_zero })
negate_kind equals_zero e = some (record { expression = e; kind = not_zero })
negate_kind less_than_zero e =
    negate e >>= λ n. some (record { expression = n; kind = less_than_or_equals_zero })
negate_kind less_than_or_equals_zero e =
    negate e >>= λ n. some (record { expression = n; kind = less_than_zero })

unfoldable pub negate_constraint : LinearConstraint → Option LinearConstraint
unfolding negate_kind
negate_constraint c = negate_kind c.kind c.expression

abbrev pub of_difference :
    ConstraintKind → LinearExpression → LinearExpression → Option LinearConstraint
of_difference kind e1 e2 = subtract e1 e2 >>= λ d. some (record { expression = d; kind = kind })

unfoldable pub leq : LinearExpression → LinearExpression → Option LinearConstraint
leq e1 e2 = of_difference less_than_or_equals_zero e1 e2

unfoldable pub lt : LinearExpression → LinearExpression → Option LinearConstraint
lt e1 e2 = of_difference less_than_zero e1 e2

unfoldable pub geq : LinearExpression → LinearExpression → Option LinearConstraint
unfolding leq
geq e1 e2 = leq e2 e1

unfoldable pub gt : LinearExpression → LinearExpression → Option LinearConstraint
unfolding lt
gt e1 e2 = lt e2 e1

unfoldable pub expr_eq : LinearExpression → LinearExpression → Option LinearConstraint
expr_eq e1 e2 = of_difference equals_zero e1 e2

unfoldable pub expr_neq : LinearExpression → LinearExpression → Option LinearConstraint
expr_neq e1 e2 = of_difference not_zero e1 e2

unfoldable pub eq : Variable → Variable → Option LinearConstraint
eq a b = of_difference equals_zero (of_variable a) (of_variable b)

unfoldable pub neq : Variable → Variable → Option LinearConstraint
neq a b = of_difference not_zero (of_variable a) (of_variable b)
