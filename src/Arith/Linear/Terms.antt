-- ===== src/Arith/Linear/Terms.antt =====
-- src/arith/linear_expression.rs: the terms of an expression, in the order of their variables, and
-- their sum under an assignment.
use prevail_rust.Base.Tests.{◌≡◌, refl, ap, false, [], ◌∷◌, arith, Bool-cases, inl, inr}
use Prim.Native.Nat.{Ordering, compare}
use prevail_rust.Base.Int.{ℤ, pos, pos_part, neg_part, ◌+ℤ◌, ◌*ℤ◌, eq_of_parts, int_laws}
use prevail_rust.Base.Int.Products.{zero-*ℤ}
use prevail_rust.Base.Maps.{
  get, insert, remove, nat_ord, same, same_iff, compare_iff, get-insert, get-remove,
}
use prevail_rust.Base.Maps.Ordered.{
  IsOrdered, AllAbove-lower, get-below, IsOrdered-insert, IsOrdered-remove, remove-below,
}
use prevail_rust.Arith.Number.{Number, is_zero}
use prevail_rust.Arith.Linear.{Variable, Terms, coefficient, update}

-- The sum of the terms at an assignment of the variables.
abbrev pub weigh : (Variable → ℤ) → Terms → ℤ
weigh at [] = pos 0
weigh at ((v, c) ∷ terms) = (c *ℤ at v) +ℤ weigh at terms

pub weigh-insert :
    (at : Variable → ℤ) (v : Variable) (c : Number) (terms : Terms)
    → IsOrdered terms
    → weigh at (insert v c terms) +ℤ (coefficient v terms *ℤ at v) ≡ weigh at terms +ℤ (c *ℤ at v)
unfolding insert get
weigh-insert at v c [] o = rw (zero-*ℤ (at v)) (eq_of_parts _ _ (omega int_laws))
weigh-insert at v c ((j, d) ∷ terms) o = by_cmp (compare v j) refl (weigh-insert at v c terms o.1)
  where
    by_cmp :
        (r : Ordering)
        → compare v j ≡ r
        → weigh at (insert v c terms) +ℤ (coefficient v terms *ℤ at v)
          ≡ weigh at terms +ℤ (c *ℤ at v)
        → weigh at (insert v c ((j, d) ∷ terms)) +ℤ (coefficient v ((j, d) ∷ terms) *ℤ at v)
          ≡ weigh at ((j, d) ∷ terms) +ℤ (c *ℤ at v)
    by_cmp Ordering.lt e ih =
        rw (e, get-below v terms (AllAbove-lower v j terms (ground arith) o.0), zero-*ℤ (at v))
          (eq_of_parts _ _ (omega int_laws))
    by_cmp Ordering.eq e ih = rw (e, (compare_iff v j).0 e) (eq_of_parts _ _ (omega int_laws))
    by_cmp Ordering.gt e ih =
        rw e (eq_of_parts _ _ (omega (int_laws, ap pos_part ih, ap neg_part ih)))

pub weigh-remove :
    (at : Variable → ℤ) (v : Variable) (terms : Terms)
    → IsOrdered terms
    → weigh at (remove v terms) +ℤ (coefficient v terms *ℤ at v) ≡ weigh at terms
unfolding remove get
weigh-remove at v [] o = rw (zero-*ℤ (at v)) (eq_of_parts _ _ (omega int_laws))
weigh-remove at v ((j, d) ∷ terms) o = elim (Bool-cases (same v j)) [
  | inl e ↦
      let v_is : v ≡ j = (same_iff v j).0 e in
      let alone : remove v terms ≡ terms = remove-below v terms (rw v_is (o.0)) in
      rw (e, alone, v_is) (eq_of_parts _ _ (omega int_laws))
  | inr e ↦
      let ih = weigh-remove at v terms o.1 in
      rw e (eq_of_parts _ _ (omega (int_laws, ap pos_part ih, ap neg_part ih)))
]

-- A change of one coefficient.
pub weigh-update :
    (at : Variable → ℤ) (v : Variable) (c : Number) (terms : Terms)
    → IsOrdered terms
    → weigh at (update v c terms) +ℤ (coefficient v terms *ℤ at v) ≡ weigh at terms +ℤ (c *ℤ at v)
unfolding update is_zero
weigh-update at v c terms o = elim (Bool-cases (is_zero c)) [
  | inl z ↦
      let zero_c : c ≡ pos 0 = eq_of_parts c (pos 0) (ground arith) in
      let removed = weigh-remove at v terms o in
      rw (z, zero_c, zero-*ℤ (at v))
        (eq_of_parts _ _ (omega (int_laws, ap pos_part removed, ap neg_part removed)))
  | inr z ↦ rw z (weigh-insert at v c terms o)
]

pub IsOrdered-update :
    (v : Variable) (c : Number) (terms : Terms) → IsOrdered terms → IsOrdered (update v c terms)
unfolding update
IsOrdered-update v c terms o = ground (arith, IsOrdered-insert v c terms, IsOrdered-remove v terms)

-- The other coefficients stay.
pub get-update :
    (u v : Variable) (c : Number) (terms : Terms)
    → same u v ≡ false
    → get u (update v c terms) ≡ get u terms
unfolding update
get-update u v c terms h = ground (arith, get-insert u v c terms, get-remove u v terms)
