-- ===== src/Crab/Dsu/Grow.antt =====
-- `new` and `push` of src/crab/dsu.rs over the representatives of the forest.
use mathlib.Core.Path.{subst}
use prevail_rust.Base.Tests.{
  ℕ, zero, suc, ◌+◌, ◌<◌, ◌≡◌, refl, sym, ap, ◌∙◌, some, List, [], ◌∷◌, ◌++◌, arith, inl, inr, ◌⊎◌,
}
use prevail_rust.Base.Lists.{
  length, get_elem?, length-append, length-replicate, get_elem?-append, get_elem?-append_last,
  get_elem?-lt, get_or-append,
}
use prevail_rust.Crab.Dsu.{DisjointSetUnion, len, new, range, push}
use prevail_rust.Crab.Dsu.Roots.{Root, top, up, IsForest, some-eq}

length-range : (i n : ℕ) → length (range i n) ≡ n
unfolding range
length-range i zero = refl
length-range i (suc n) = ap suc (length-range (suc i) n)

get_elem?-range : (i n x : ℕ) → x < n → get_elem? (range i n) x ≡ some (i + x)
unfolding range
get_elem?-range i zero x h = absurd (omega arith)
get_elem?-range i (suc n) zero h = ap some (omega arith)
get_elem?-range i (suc n) (suc x) h =
    get_elem?-range (suc i) n x (omega arith) ∙ ap some (omega arith)

-- The elements of a new forest are their own parents.
new-parent : (n x q : ℕ) → get_elem? (new n).parent x ≡ some q → q ≡ x
unfolding new
new-parent n x q h =
    let inside : x < n =
      subst (λ (k : ℕ). x < k) (length-range 0 n) (get_elem?-lt (range 0 n) x h) in
    some-eq (sym h ∙ get_elem?-range 0 n x inside) ∙ omega arith

-- A new forest of n elements is well formed, has n elements, and every element is its own
-- representative.
pub new-IsForest :
    (n : ℕ) → IsForest (new n) × (len (new n) ≡ n) × ((x : ℕ) → x < n → Root (new n).parent x x)
unfolding new
new-IsForest n = (
  record {
    ranked = length-replicate n 0 ∙ sym (length-range 0 n);
    closed = λ x q h.
        subst (λ (k : ℕ). k < length (range 0 n)) (sym (new-parent n x q h))
          (get_elem?-lt (range 0 n) x h);
    climbs = λ x q h m. absurd (m (new-parent n x q h));
  },
  length-range 0 n,
  λ x h. top x (get_elem?-range 0 n x h ∙ ap some (omega arith)),
)

module _ (s : DisjointSetUnion) (v : IsForest s) where
  abbrev grown : List ℕ
  grown = s.parent ++ len s ∷ []

  old_or_new : (x : ℕ) → x < length grown → (x < len s) ⊎ (x ≡ len s)
  old_or_new x h = omega (arith, length-append s.parent (len s ∷ []))

  length-grown : length grown ≡ suc (len s)
  length-grown = length-append s.parent (len s ∷ []) ∙ omega arith

  -- A parent in the grown list is an old parent, or the new element itself.
  parent-grown :
      (x q : ℕ)
      → get_elem? grown x ≡ some q
      → (get_elem? s.parent x ≡ some q) ⊎ ((x ≡ len s) × (q ≡ len s))
  parent-grown x q h = elim (old_or_new x (get_elem?-lt grown x h)) [
    | inl old ↦ inl (sym (get_elem?-append s.parent (len s ∷ []) x old) ∙ h)
    | inr last ↦
        let there = ap (get_elem? grown) last ∙ get_elem?-append_last s.parent (len s) in
        inr (last, some-eq (sym h ∙ there))
  ]

  keep : {y q : ℕ} → Root s.parent y q → Root grown y q
  keep (top y e) = top y (get_elem?-append s.parent (len s ∷ []) y (get_elem?-lt s.parent y e) ∙ e)
  keep (up y z q e n u) =
      up y z q (get_elem?-append s.parent (len s ∷ []) y (get_elem?-lt s.parent y e) ∙ e) n (keep u)

  -- push on a well-formed forest gives a well-formed forest with one more element. The element,
  -- which is the answer, is its own representative, and every other element keeps its
  -- representative.
  pub push-IsForest :
      IsForest (push s).0
      × ((push s).1 ≡ len s)
      × (len (push s).0 ≡ suc (len s))
      × Root (push s).0.parent (len s) (len s)
      × ((y q : ℕ) → Root s.parent y q → Root (push s).0.parent y q)
  unfolding push
  push-IsForest = (
    record {
      ranked = length-append s.rank (0 ∷ []) ∙ omega (arith, v.ranked, length-grown);
      closed = λ x q h. elim (parent-grown x q h) [
        | inl old ↦ omega (arith, v.closed x q old, length-grown)
        | inr (_, last) ↦ omega (arith, last, length-grown)
      ];
      climbs = λ x q h m. elim (parent-grown x q h) [
        | inl old ↦
            let low =
              get_or-append s.rank (0 ∷ []) x 0
                (omega (arith, v.ranked, get_elem?-lt s.parent x old)) in
            let high =
              get_or-append s.rank (0 ∷ []) q 0 (omega (arith, v.ranked, v.closed x q old)) in
            omega (arith, low, high, v.climbs x q old m)
        | inr (here, last) ↦ absurd (m (last ∙ sym here))
      ];
    },
    refl,
    length-grown,
    top (len s) (get_elem?-append_last s.parent (len s)),
    λ y q u. keep u,
  )
