-- ===== src/Crab/Splitdbm/Graph/Counted.antt =====
-- src/crab/splitdbm/graph.rs: `edge_count` is the number of the entries of all rows.
use prevail_rust.Base.Tests.{
  ℕ, zero, suc, ◌+◌, ◌<◌, ◌≡◌, refl, sym, ap, ◌&&◌, ◌∙◌, true, none, some, List, [], ◌∷◌, ◌++◌, leb,
  ltb, arith, Bool-cases, Option-cases, inl, inr, some-eq, >>=-eq-some,
}
use prevail_rust.Base.Lists.{length, set, get_elem?}
use prevail_rust.Base.Int.{ltb_ℤ}
use prevail_rust.Base.Maps.{get, insert, remove, same, same_iff, nat_ord}
use prevail_rust.Base.Maps.Ordered.{IsOrdered, remove-below}
use prevail_rust.Crab.Splitdbm.Graph.{
  VertId, Weight, TreeSMap, AdaptGraph, row, slot_of, unlink, keys_below, new, take_slot, add_edge,
  set_edge, update_edge,
}
use prevail_rust.Crab.Splitdbm.Graph.Unlink.{
  row-beyond, removed, removed-IsOrdered, get-first, get-later,
}

-- The number of the entries of all rows.
abbrev pub total : List TreeSMap → ℕ
total [] = 0
total (r ∷ rows) = length r + total rows

abbrev pub IsCounted : AdaptGraph → Type 0
IsCounted g = g.edge_count ≡ total g.succs

pub total-set :
    (rows : List TreeSMap) (v : ℕ) (r : TreeSMap)
    → v < length rows
    → total (set rows v r) + length (row rows v) ≡ total rows + length r
total-set [] v r h = absurd (omega arith)
total-set (x ∷ rows) zero r h = omega arith
total-set (x ∷ rows) (suc v) r h = omega (arith, total-set rows v r (omega arith))

length-remove :
    (v i : ℕ) (m : TreeSMap) → IsOrdered m → get v m ≡ some i → suc (length (remove v m)) ≡ length m
unfolding get remove
length-remove v i [] o e = cc
length-remove v i ((k, c) ∷ m) o e = elim (Bool-cases (same v k)) [
  | inl found ↦
      let v_is : v ≡ k = (same_iff v k).0 found in rw (found, remove-below v m (rw v_is o.0)) refl
  | inr other ↦ rw other (ap suc (length-remove v i m o.1 (ground arith)))
]

length-insert : (v i : ℕ) (m : TreeSMap) → get v m ≡ none → length (insert v i m) ≡ suc (length m)
unfolding get insert
length-insert v i [] e = refl
length-insert v i ((k, c) ∷ m) e = ground (arith, length-insert v i m)

pub row-within : (rows : List TreeSMap) (x v i : ℕ) → get v (row rows x) ≡ some i → x < length rows
unfolding get
row-within rows x v i e = elim (Bool-cases (leb (length rows) x)) [
  | inl beyond ↦ absurd (cc (e, row-beyond rows x (ground arith)))
  | inr within ↦ ground arith
]

pub keys-within :
    (n : ℕ) (entries : TreeSMap)
    → IsOrdered entries
    → ((x i : ℕ) → get x entries ≡ some i → x < n)
    → keys_below n entries ≡ true
keys-within n [] o h = refl
keys-within n ((key, widx) ∷ entries) o h = ground (
  arith,
  h key widx (get-first key widx entries),
  keys-within n entries o.1 (λ x i e. h x i (get-later key widx entries x i o.0 e).0),
)

-- The loop removes one entry for each of its own, when v stands in the row of each.
pub unlink-total :
    (v : ℕ) (entries : TreeSMap) (rows : List TreeSMap) (free : List ℕ)
    → IsOrdered entries
    → ((x : ℕ) → IsOrdered (row rows x))
    → ((x i : ℕ) → get x entries ≡ some i → get v (row rows x) ≡ some i)
    → total (unlink v entries rows free).0 + length entries ≡ total rows
unfolding unlink
unlink-total v [] rows free o ordered there = omega arith
unlink-total v ((key, widx) ∷ entries) rows free o ordered there =
    let rows' : List TreeSMap = set rows key (remove v (row rows key)) in
    let found : get v (row rows key) ≡ some widx = there key widx (get-first key widx entries) in
    omega (
      arith,
      total-set rows key (remove v (row rows key)) (row-within rows key v widx found),
      length-remove v widx (row rows key) (ordered key) found,
      unlink-total v entries rows' (widx ∷ free) o.1 (removed-IsOrdered v key rows ordered)
          (λ x i e.
            let (at, later) = get-later key widx entries x i o.0 e in
            removed v key rows x v ∙ ground (arith, there x i at)),
    )

-- The operations keep the count: those on vertices ...
pub new-IsCounted : IsCounted new
unfolding new
new-IsCounted = refl

pub total-snoc : (rows : List TreeSMap) → total (rows ++ [] ∷ []) ≡ total rows
total-snoc [] = refl
total-snoc (r ∷ rows) = omega (arith, total-snoc rows)

module _ (g g' : AdaptGraph) (s d : VertId) (w : Weight) (c : IsCounted g) where
  same_count : (h : AdaptGraph) → IsCounted h → some h ≡ some g' → IsCounted g'
  same_count h counted e = rw (sym (some-eq e)) counted

  pub add_edge-IsCounted : slot_of g s d ≡ none → add_edge s w d g ≡ some g' → IsCounted g'
  unfolding add_edge slot_of
  add_edge-IsCounted missing e =
      elim (Bool-cases (ltb s (length g.succs) && ltb d (length g.preds))) [
        | inl within ↦
            let counted : g.edge_count + 1
                ≡ total
                    (set g.succs s (insert d (take_slot w g.ws g.free_widx).2 (row g.succs s))) =
              omega (
                arith,
                total-set g.succs s (insert d (take_slot w g.ws g.free_widx).2 (row g.succs s))
                    (ground arith),
                length-insert d (take_slot w g.ws g.free_widx).2 (row g.succs s) missing,
              ) in
            same_count _ counted (rw within at e)
        | inr out ↦ absurd (cc (rw out at e))
      ]

  -- ... and those on the weight of an edge, a new one included.
  pub set_edge-IsCounted : set_edge s w d g ≡ some g' → IsCounted g'
  unfolding set_edge
  set_edge-IsCounted e = elim (Option-cases (slot_of g s d)) [
    | inl missing ↦ add_edge-IsCounted missing (rw missing at e)
    | inr (i, found) ↦
        let (old, _, done) = >>=-eq-some (get_elem? g.ws i) _ (rw found at e) in same_count _ c done
  ]

  pub update_edge-IsCounted : update_edge s w d g ≡ some g' → IsCounted g'
  unfolding update_edge
  update_edge-IsCounted e = elim (Option-cases (slot_of g s d)) [
    | inl missing ↦ add_edge-IsCounted missing (rw missing at e)
    | inr (i, found) ↦
        let (old, _, done) = >>=-eq-some (get_elem? g.ws i) _ (rw found at e) in
        elim (Bool-cases (ltb_ℤ w old)) [
          | inl less ↦ same_count _ c (rw less at done)
          | inr kept ↦ same_count _ c (rw kept at done)
        ]
  ]
