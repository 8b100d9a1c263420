-- ===== src/Arith/Linear/Values.antt =====
-- src/arith/linear_expression.rs: what the operations do to the value of an expression.
use prevail_rust.Base.Tests.{
  ◌<◌, ◌≡◌, ◌≢◌, refl, ap, sym, ◌∙◌, false, Option, none, some, [], ◌∷◌, arith, >>=-eq-some,
}
use prevail_rust.Base.Int.{
  ℤ, pos, negsuc, pos_part, neg_part, ◌+ℤ◌, ◌-ℤ◌, ◌*ℤ◌, neg_ℤ, eq_of_parts, int_laws,
}
use prevail_rust.Base.Int.Products.{+ℤ-*ℤ, -ℤ-*ℤ, *ℤ_right_comm, *ℤ_minus_one, zero-*ℤ}
use prevail_rust.Base.Maps.{get, nat_ord, same}
use prevail_rust.Arith.Number.{Number, checked, checked_add, checked_sub, checked_mul}
use prevail_rust.Arith.Linear.{
  Variable, Terms, LinearExpression, coefficient, coefficient_of, update, combine, scaled, multiply,
  plus, subtract, negate,
}
use prevail_rust.Base.Maps.Ordered.{AllAbove, IsOrdered, AllAbove-absent}
use prevail_rust.Arith.Linear.Terms.{weigh, weigh-update, IsOrdered-update, get-update}

-- The value of an expression at an assignment of the variables.
abbrev pub value : (Variable → ℤ) → LinearExpression → ℤ
value at e = e.constant_term +ℤ weigh at e.variable_terms

abbrev pub WellOrdered : LinearExpression → Type 0
WellOrdered e = IsOrdered e.variable_terms

checked-exact : (z r : ℤ) → checked z ≡ some r → r ≡ z
checked-exact z r h = ground arith

-- A checked operation that computes a linear function of two integers.
record IsLinear (op : Number → Number → Option Number) (exact : ℤ → ℤ → ℤ) : Type 0 where
  op-exact : (a b r : ℤ) → op a b ≡ some r → r ≡ exact a b
  exact-*ℤ : (a b s : ℤ) → exact a b *ℤ s ≡ exact (a *ℤ s) (b *ℤ s)
  exact-zero : (x : ℤ) → exact x (pos 0) ≡ x
  exact-sum : (x y z : ℤ) → exact (exact x y) z ≡ exact x (y +ℤ z)
  exact-solve : (w a x b : ℤ) → w +ℤ a ≡ x +ℤ exact a b → w ≡ exact x b

add-IsLinear : IsLinear checked_add ◌+ℤ◌
unfolding checked_add
add-IsLinear = record {
  op-exact = λ a b r h. checked-exact (a +ℤ b) r h;
  exact-*ℤ = +ℤ-*ℤ;
  exact-zero = λ x. eq_of_parts (x +ℤ pos 0) x (omega int_laws);
  exact-sum = λ x y z. eq_of_parts (x +ℤ y +ℤ z) (x +ℤ (y +ℤ z)) (omega int_laws);
  exact-solve =
      λ w a x b h. eq_of_parts w (x +ℤ b) (omega (int_laws, ap pos_part h, ap neg_part h));
}

sub-IsLinear : IsLinear checked_sub ◌-ℤ◌
unfolding checked_sub
sub-IsLinear = record {
  op-exact = λ a b r h. checked-exact (a -ℤ b) r h;
  exact-*ℤ = -ℤ-*ℤ;
  exact-zero = λ x. eq_of_parts (x -ℤ pos 0) x (omega int_laws);
  exact-sum = λ x y z. eq_of_parts (x -ℤ y -ℤ z) (x -ℤ (y +ℤ z)) (omega int_laws);
  exact-solve =
      λ w a x b h. eq_of_parts w (x -ℤ b) (omega (int_laws, ap pos_part h, ap neg_part h));
}

-- The variables that are still to come have the coefficients of `self`.
abbrev Agrees : LinearExpression → Terms → Terms → Type 0
Agrees self other terms =
    (u : Variable) → get u other ≢ none → get u terms ≡ get u self.variable_terms

head_present : (v : Variable) (c : Number) (other : Terms) → get v ((v, c) ∷ other) ≢ none
unfolding get
head_present v c other h = ground arith

Agrees-later :
    (self : LinearExpression) (v : Variable) (c k : Number) (other terms : Terms)
    → Agrees self ((v, c) ∷ other) terms
    → AllAbove v other
    → Agrees self other (update v k terms)
unfolding get
Agrees-later self v c k other terms agrees above u present =
    let later : v < u = AllAbove-absent v u other above present in
    let apart : same u v ≡ false = ground arith in
    get-update u v k terms apart ∙ agrees u (λ h. present (ground arith))

module _ (op : Number → Number → Option Number) (exact : ℤ → ℤ → ℤ) (l : IsLinear op exact)
    (at : Variable → ℤ) where
  -- One round of the loop.
  one_term :
      (self : LinearExpression) (terms : Terms) (v : Variable) (c k : Number)
      → IsOrdered terms
      → get v terms ≡ get v self.variable_terms
      → op (coefficient_of self v) c ≡ some k
      → weigh at (update v k terms) ≡ exact (weigh at terms) (c *ℤ at v)
  unfolding coefficient_of
  one_term self terms v c k ot agrees made =
      l.exact-solve (weigh at (update v k terms)) (coefficient v terms *ℤ at v) (weigh at terms)
        (c *ℤ at v)
        (weigh-update at v k terms ot
          ∙ ap (λ t. weigh at terms +ℤ t)
              (ap (λ t. t *ℤ at v) (l.op-exact (coefficient_of self v) c k made)
                ∙ l.exact-*ℤ (coefficient_of self v) c (at v)
                ∙ rw agrees refl))

  combine-weigh :
      (self : LinearExpression) (terms other r : Terms)
      → IsOrdered terms
      → IsOrdered other
      → Agrees self other terms
      → combine op self terms other ≡ some r
      → IsOrdered r × (weigh at r ≡ exact (weigh at terms) (weigh at other))
  unfolding combine
  combine-weigh self terms [] r ot oo agrees h =
      let same_terms : terms ≡ r = cc in rw (← same_terms) (ot, sym (l.exact-zero (weigh at terms)))
  combine-weigh self terms ((v, c) ∷ other) r ot oo agrees h =
      let (k, made, rest) = >>=-eq-some (op (coefficient_of self v) c) _ h in
      let (or, eq) =
        combine-weigh self (update v k terms) other r (IsOrdered-update v k terms ot) oo.1
          (Agrees-later self v c k other terms agrees oo.0) rest in
      (
        or,
        eq
            ∙ ap (λ x. exact x (weigh at other))
                (one_term self terms v c k ot (agrees v (head_present v c other)) made)
            ∙ l.exact-sum (weigh at terms) (c *ℤ at v) (weigh at other),
      )

scaled-AllAbove :
    (k : Number) (v : Variable) (terms r : Terms)
    → AllAbove v terms
    → scaled k terms ≡ some r
    → AllAbove v r
unfolding scaled
scaled-AllAbove k v [] r a h = let r_is : [] ≡ r = cc in rw (← r_is) tt
scaled-AllAbove k v ((u, c) ∷ terms) r a h =
    let (d, made, rest) = >>=-eq-some (checked_mul c k) _ h in
    let (tail, loop, done) = >>=-eq-some (scaled k terms) _ rest in
    let r_is : (u, d) ∷ tail ≡ r = cc in rw (← r_is) (a.0, scaled-AllAbove k v terms tail a.1 loop)

scaled-IsOrdered :
    (k : Number) (terms r : Terms) → IsOrdered terms → scaled k terms ≡ some r → IsOrdered r
unfolding scaled
scaled-IsOrdered k [] r a h = let r_is : [] ≡ r = cc in rw (← r_is) tt
scaled-IsOrdered k ((u, c) ∷ terms) r a h =
    let (d, made, rest) = >>=-eq-some (checked_mul c k) _ h in
    let (tail, loop, done) = >>=-eq-some (scaled k terms) _ rest in
    let r_is : (u, d) ∷ tail ≡ r = cc in
    rw (← r_is) (scaled-AllAbove k u terms tail a.0 loop, scaled-IsOrdered k terms tail a.1 loop)

mul-exact : (a k c : ℤ) → checked_mul a k ≡ some c → c ≡ a *ℤ k
unfolding checked_mul
mul-exact a k c h = checked-exact (a *ℤ k) c h

module _ (at : Variable → ℤ) where
  -- If the sum of two expressions whose terms are in ascending order of their variables does not
  -- overflow, then its terms are in ascending order, and at every assignment of the variables
  -- its value is the sum of the two values.
  pub plus-value :
      (a b r : LinearExpression)
      → WellOrdered a
      → WellOrdered b
      → plus a b ≡ some r
      → WellOrdered r × (value at r ≡ value at a +ℤ value at b)
  unfolding plus
  plus-value a b r oa ob h =
      let (terms, loop, rest) =
        >>=-eq-some (combine checked_add a a.variable_terms b.variable_terms) _ h in
      let (c, const, done) = >>=-eq-some (checked_add a.constant_term b.constant_term) _ rest in
      let (o, w) =
        combine-weigh checked_add ◌+ℤ◌ add-IsLinear at a a.variable_terms b.variable_terms terms oa
          ob (λ u _. refl) loop in
      let k = add-IsLinear.op-exact a.constant_term b.constant_term c const in
      let r_is : record { constant_term = c; variable_terms = terms } ≡ r = cc in
      rw (← r_is) (
        o,
        eq_of_parts _ _
            (omega (int_laws, ap pos_part k, ap neg_part k, ap pos_part w, ap neg_part w)),
      )

  pub subtract-value :
      (a b r : LinearExpression)
      → WellOrdered a
      → WellOrdered b
      → subtract a b ≡ some r
      → WellOrdered r × (value at r ≡ value at a -ℤ value at b)
  unfolding subtract
  subtract-value a b r oa ob h =
      let (terms, loop, rest) =
        >>=-eq-some (combine checked_sub a a.variable_terms b.variable_terms) _ h in
      let (c, const, done) = >>=-eq-some (checked_sub a.constant_term b.constant_term) _ rest in
      let (o, w) =
        combine-weigh checked_sub ◌-ℤ◌ sub-IsLinear at a a.variable_terms b.variable_terms terms oa
          ob (λ u _. refl) loop in
      let k = sub-IsLinear.op-exact a.constant_term b.constant_term c const in
      let r_is : record { constant_term = c; variable_terms = terms } ≡ r = cc in
      rw (← r_is) (
        o,
        eq_of_parts _ _
            (omega (int_laws, ap pos_part k, ap neg_part k, ap pos_part w, ap neg_part w)),
      )

  scaled-weigh :
      (k : Number) (terms r : Terms) → scaled k terms ≡ some r → weigh at r ≡ weigh at terms *ℤ k
  unfolding scaled checked_mul
  scaled-weigh k [] r h = let r_is : [] ≡ r = cc in rw (← r_is) (sym (zero-*ℤ k))
  scaled-weigh k ((v, c) ∷ terms) r h =
      let (d, made, rest) = >>=-eq-some (checked (c *ℤ k)) _ h in
      let (tail, loop, done) = >>=-eq-some (scaled k terms) _ rest in
      let r_is : (v, d) ∷ tail ≡ r = cc in
      let ih = scaled-weigh k terms tail loop in
      rw
        (
          ← r_is,
          ih,
          checked-exact (c *ℤ k) d made,
          *ℤ_right_comm c k (at v),
          +ℤ-*ℤ (c *ℤ at v) (weigh at terms) k,
        )
        refl

  pub multiply-value :
      (a r : LinearExpression) (k : Number)
      → WellOrdered a
      → multiply a k ≡ some r
      → WellOrdered r × (value at r ≡ value at a *ℤ k)
  unfolding multiply
  multiply-value a r k oa h =
      let (terms, loop, rest) = >>=-eq-some (scaled k a.variable_terms) _ h in
      let (c, const, done) = >>=-eq-some (checked_mul a.constant_term k) _ rest in
      let r_is : record { constant_term = c; variable_terms = terms } ≡ r = cc in
      rw (← r_is) (
        scaled-IsOrdered k a.variable_terms terms oa loop,
        rw
            (
              scaled-weigh k a.variable_terms terms loop,
              mul-exact a.constant_term k c const,
              +ℤ-*ℤ a.constant_term (weigh at a.variable_terms) k,
            )
            refl,
      )

  pub negate-value :
      (a r : LinearExpression)
      → WellOrdered a
      → negate a ≡ some r
      → WellOrdered r × (value at r ≡ neg_ℤ (value at a))
  unfolding negate
  negate-value a r oa h =
      let (o, v) = multiply-value a r (negsuc 0) oa h in (o, v ∙ *ℤ_minus_one (value at a))
