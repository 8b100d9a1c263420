-- ===== src/Crab/Dsu/Roots.antt =====
-- The representatives of a disjoint-set forest (src/crab/dsu.rs) as a relation, and its invariant.
use mathlib.Core.Path.{subst}
use prevail_rust.Base.Tests.{
  ℕ, zero, suc, ◌≤◌, ◌<◌, ◌≡◌, ◌≢◌, refl, sym, ap, ◌∙◌, some, List, [], ◌∷◌, arith, ◌==◌, ==_iff,
  if◌then◌else◌, Bool-cases, inl, inr,
}
use prevail_rust.Base.Lists.{
  length, get_elem?, get_or, set, get_elem?-set, get_elem?-lt, length-set,
}
use prevail_rust.Crab.Dsu.{DisjointSetUnion, max_rank}

-- `Root p x r`: climbing the parents `p` from x ends at r, which is its own parent.
pub data Root (p : List ℕ) : ℕ → ℕ → Type 0 where
  top : (x : ℕ) → get_elem? p x ≡ some x → Root p x x
  up : (x q r : ℕ) → get_elem? p x ≡ some q → q ≢ x → Root p q r → Root p x r

-- The forest invariant: the lists are of one length, parents are elements, and every step towards
-- the root raises the rank.
pub record IsForest (s : DisjointSetUnion) : Type 0 where
  pub ranked : length s.rank ≡ length s.parent
  pub closed : (x q : ℕ) → get_elem? s.parent x ≡ some q → q < length s.parent
  pub climbs :
      (x q : ℕ) → get_elem? s.parent x ≡ some q → q ≢ x → get_or s.rank x 0 < get_or s.rank q 0

pub some-eq {ℓ} : {A : Type ℓ} {a b : A} → some a ≡ some b → a ≡ b
some-eq e = cc

pub root_self : (p : List ℕ) {x r : ℕ} → Root p x r → get_elem? p r ≡ some r
root_self p (top x e) = e
root_self p (up x q r e n t) = root_self p t

pub roots_agree : (p : List ℕ) {x x' r r' : ℕ} → x ≡ x' → Root p x r → Root p x' r' → r ≡ r'
roots_agree p h (top x e) (top x' e') = h
roots_agree p h (top x e) (up x' q r' e' n t) = absurd (n (cc (ap (get_elem? p) h)))
roots_agree p h (up x q r e n t) (top x' e') = absurd (n (cc (ap (get_elem? p) h)))
roots_agree p h (up x q r e n t) (up x' q' r' e' n' t') =
    roots_agree p (some-eq (sym e ∙ ap (get_elem? p) h ∙ e')) t t'

pub root_unique : (p : List ℕ) {x r r' : ℕ} → Root p x r → Root p x r' → r ≡ r'
root_unique p t t' = roots_agree p refl t t'

pub root-rank :
    (s : DisjointSetUnion) {x r : ℕ}
    → IsForest s
    → Root s.parent x r
    → get_or s.rank x 0 ≤ get_or s.rank r 0
root-rank s v (top x e) = omega arith
root-rank s v (up x q r e n t) = omega (arith, v.climbs x q e n, root-rank s v t)

pub root-rank_lt :
    (s : DisjointSetUnion) {x r : ℕ}
    → IsForest s
    → Root s.parent x r
    → r ≢ x
    → get_or s.rank x 0 < get_or s.rank r 0
root-rank_lt s v (top x e) n = absurd (n refl)
root-rank_lt s v (up x q r e n t) h = omega (arith, v.climbs x q e n, root-rank s v t)

pub rank_bound : (rs : List ℕ) (i : ℕ) → get_or rs i 0 ≤ max_rank rs
unfolding max_rank
rank_bound [] i = omega arith
rank_bound (r ∷ rs) zero = omega arith
rank_bound (r ∷ rs) (suc i) = omega (arith, rank_bound rs i)

-- Two forests that give every element the same representative.
abbrev pub SameRoots : List ℕ → List ℕ → Type 0
SameRoots p p' = (y q : ℕ) → Root p y q → Root p' y q

module _ (s : DisjointSetUnion) (v : IsForest s) (x r : ℕ) (t : Root s.parent x r) where
  abbrev compressed : List ℕ
  compressed = set s.parent x r

  inside : x < length s.parent
  inside = root-lt t
    where
      root-lt : {y q : ℕ} → Root s.parent y q → y < length s.parent
      root-lt (top y e) = get_elem?-lt s.parent y e
      root-lt (up y q r e n t) = get_elem?-lt s.parent y e

  read : (y : ℕ) → get_elem? compressed y ≡ (if x == y then some r else get_elem? s.parent y)
  read y = get_elem?-set s.parent x y r inside

  at_root : get_elem? compressed r ≡ some r
  at_root = ground (arith, read r, root_self s.parent t)

  -- A representative is not below another element.
  root_final : (y z : ℕ) → get_elem? s.parent y ≡ some z → z ≢ y → r ≢ y
  root_final y z e n h =
      n (some-eq (sym e ∙ ap (get_elem? s.parent) (sym h) ∙ root_self s.parent t ∙ ap some h))

  compress : {y q : ℕ} → Root s.parent y q → Root compressed y q
  compress (top y e) = top y (elim (Bool-cases (x == y)) [
    | inl same ↦
        let eq = roots_agree s.parent ((==_iff x y).0 same) t (top y e) in
        read y ∙ rw same (ap some eq)
    | inr other ↦ read y ∙ rw other e
  ])
  compress (up y z q e n u) = elim (Bool-cases (x == y)) [
    | inl same ↦
        let eq = roots_agree s.parent ((==_iff x y).0 same) t (up y z q e n u) in
        subst (Root compressed y) eq
          (up y r r (read y ∙ rw same refl) (root_final y z e n) (top r at_root))
    | inr other ↦ up y z q (read y ∙ rw other e) n (compress u)
  ]

  -- Path compression changes no representative.
  pub compress-SameRoots : SameRoots s.parent compressed
  compress-SameRoots y q u = compress u

  -- Path compression keeps the forest invariant.
  pub compress-IsForest : IsForest (record s { parent = compressed })
  compress-IsForest = record {
    ranked = v.ranked ∙ sym (length-set s.parent x r);
    closed = λ y q h. subst (λ (n : ℕ). q < n) (sym (length-set s.parent x r)) (closed y q h);
    climbs = climbs;
  }
    where
      closed : (y q : ℕ) → get_elem? compressed y ≡ some q → q < length s.parent
      closed y q h = elim (Bool-cases (x == y)) [
        | inl same ↦
            let eq : r ≡ q = some-eq (sym (read y ∙ rw same refl) ∙ h) in
            rw (← eq) (get_elem?-lt s.parent r (root_self s.parent t))
        | inr other ↦ v.closed y q (sym (read y ∙ rw other refl) ∙ h)
      ]

      climbs :
          (y q : ℕ)
          → get_elem? compressed y ≡ some q
          → q ≢ y
          → get_or s.rank y 0 < get_or s.rank q 0
      climbs y q h n = elim (Bool-cases (x == y)) [
        | inl same ↦
            let eq : r ≡ q = some-eq (sym (read y ∙ rw same refl) ∙ h) in
            let place : x ≡ y = (==_iff x y).0 same in
            rw (← place, ← eq) (root-rank_lt s v t (λ e. n (sym eq ∙ e ∙ place)))
        | inr other ↦ v.climbs y q (sym (read y ∙ rw other refl) ∙ h) n
      ]
