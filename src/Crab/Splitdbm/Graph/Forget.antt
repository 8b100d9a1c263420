-- ===== src/Crab/Splitdbm/Graph/Forget.antt =====
-- src/crab/splitdbm/graph.rs: `forget` removes the edges of a vertex, in both directions, and gives
-- their slots back.
use prevail_rust.Base.Tests.{
  ℕ, ◌+◌, ◌-◌, ◌<◌, ◌≡◌, ltb, leb, refl, sym, ◌∙◌, Bool, true, false, ◌||◌, none, some,
  if◌then◌else◌, List, [], ◌∷◌, ◌==◌, arith, Bool-cases, Option-cases, inl, inr, ◌⊎◌,
}
use prevail_rust.Base.Lists.{length, get_elem?, set, length-set}
use prevail_rust.Base.Maps.{get, nat_ord}
use prevail_rust.Base.Maps.Ordered.{IsOrdered}
use prevail_rust.Crab.Splitdbm.Graph.{
  VertId, TreeSMap, AdaptGraph, row, size, slot_of, lookup, unlink, forget, sub_usize, keys_below,
}
use prevail_rust.Crab.Splitdbm.Graph.Counted.{
  total, IsCounted, total-set, unlink-total, keys-within, row-within,
}
use prevail_rust.Crab.Splitdbm.Graph.Slots.{IsSound, mem, IsNodup}
use prevail_rust.Crab.Splitdbm.Graph.Unlink.{
  slots, slots-get, unlink-rows, unlink-length, unlink-IsOrdered, unlink-free, unlink-IsNodup,
  get-clear, IsOrdered-clear,
}

module _ (g : AdaptGraph) (v : VertId) (h : IsSound g) (hv : v < size g) where
  -- The state after the first loop, and after the second.
  abbrev outgoing : TreeSMap
  outgoing = row g.succs v

  abbrev first : List TreeSMap × List ℕ
  first = unlink v outgoing g.preds g.free_widx

  abbrev incoming : TreeSMap
  incoming = row first.0 v

  abbrev second : List TreeSMap × List ℕ
  second = unlink v incoming (set g.succs v []) first.1

  -- The edge from x to y is one of v's.
  abbrev touches : ℕ → ℕ → Bool
  touches x y = x == v || y == v

  get-outgoing : (x : ℕ) → get x outgoing ≡ slot_of g v x
  unfolding slot_of
  get-outgoing x = refl

  get-first : (x y : ℕ) → get y (row first.0 x) ≡ (if y == v then none else slot_of g y x)
  get-first x y =
      unlink-rows v outgoing g.preds g.free_widx x y
      ∙ rw (h.mirrored y x, get-outgoing x)
          (elim (Bool-cases (y == v)) [
            | inl e ↦
                let y_is : y ≡ v = ground arith in
                rw (e, y_is)
                  (elim (Option-cases (slot_of g v x)) [
                    | inl missing ↦ rw missing refl
                    | inr (i, found) ↦ rw found refl
                  ])
            | inr e ↦ rw e refl
          ])

  get-second : (x y : ℕ) → get y (row second.0 x) ≡ (if touches x y then none else slot_of g x y)
  unfolding slot_of
  get-second x y =
      unlink-rows v incoming (set g.succs v []) first.1 x y
      ∙ rw (get-first v x, get-clear g.succs v x y hv)
          (elim (Bool-cases (y == v)) [
            | inl e ↦
                let y_is : y ≡ v = ground arith in
                rw (e, y_is)
                  (elim (Bool-cases (x == v)) [
                    | inl at ↦ rw at refl
                    | inr off ↦ rw off (elim (Option-cases (slot_of g x v)) [
                      | inl missing ↦ rw missing refl
                      | inr (i, found) ↦ rw found refl
                    ])
                  ])
            | inr e ↦ rw e (ground arith)
          ])

  get-cleared :
      (x y : ℕ) → get x (row (set first.0 v []) y) ≡ (if touches x y then none else slot_of g x y)
  get-cleared x y =
      get-clear first.0 v y x (omega (arith, unlink-length v outgoing g.preds g.free_widx, h.rows))
      ∙ rw (get-first y x) (ground arith)

  -- The slots that the loops give back are those of v's edges.
  freed-touches :
      (i : ℕ)
      → mem i second.1 ≡ true
      → (mem i g.free_widx ≡ true)
        ⊎ ((x : ℕ) × (y : ℕ) × (slot_of g x y ≡ some i) × (touches x y ≡ true))
  freed-touches i m = elim (Bool-cases (mem i (slots incoming))) [
    | inl into ↦
        let (x, e) =
          slots-get incoming i (unlink-IsOrdered v outgoing g.preds g.free_widx h.preds_ordered v)
            into in
        inr (x, v, ground (arith, get-first v x, e), ground arith)
    | inr other ↦ elim (Bool-cases (mem i (slots outgoing))) [
      | inl out ↦
          let (x, e) = slots-get outgoing i (h.succs_ordered v) out in
          inr (v, x, sym (get-outgoing x) ∙ e, ground arith)
      | inr none_of ↦ inl ground (
        arith,
        unlink-free v incoming (set g.succs v []) first.1 i,
        unlink-free v outgoing g.preds g.free_widx i,
      )
    ]
  ]

  second-IsNodup : IsNodup second.1
  second-IsNodup =
      unlink-IsNodup v incoming (set g.succs v []) first.1
        (unlink-IsOrdered v outgoing g.preds g.free_widx h.preds_ordered v)
        (λ x y i e e'. (h.slot_once x v y v i (into x i e) (into y i e')).0)
        (λ x i e. not_outgoing x i e)
        (unlink-IsNodup v outgoing g.preds g.free_widx (h.succs_ordered v)
          (λ x y i e e'.
            (h.slot_once v x v y i (sym (get-outgoing x) ∙ e) (sym (get-outgoing y) ∙ e')).1)
          (λ x i e. h.slot_used v x i (sym (get-outgoing x) ∙ e)) h.free_once)
    where
      into : (x i : ℕ) → get x incoming ≡ some i → slot_of g x v ≡ some i
      into x i e = ground (arith, get-first v x, e)

      not_outgoing : (x i : ℕ) → get x incoming ≡ some i → mem i first.1 ≡ false
      not_outgoing x i e = elim (Bool-cases (mem i (slots outgoing))) [
        | inl out ↦
            let (y, found) = slots-get outgoing i (h.succs_ordered v) out in
            let (x_is, _) = h.slot_once x v v y i (into x i e) (sym (get-outgoing y) ∙ found) in
            absurd (ground (arith, get-first v x, e, x_is))
        | inr off ↦
            unlink-free v outgoing g.preds g.free_widx i ∙ rw off (h.slot_used x v i (into x i e))
      ]

  kept :
      (x y i : ℕ)
      → get y (row second.0 x) ≡ some i
      → (slot_of g x y ≡ some i) × (touches x y ≡ false)
  kept x y i e = ground (arith, get-second x y, e)

  bound :
      (i : ℕ)
      → (mem i g.free_widx ≡ true)
        ⊎ ((x : ℕ) × (y : ℕ) × (slot_of g x y ≡ some i) × (touches x y ≡ true))
      → i < length g.ws
  bound i (inl m) = h.free_bound i m
  bound i (inr (x, y, e, _)) = h.slot_bound x y i e

  unfreed : (x y i : ℕ) → slot_of g x y ≡ some i → touches x y ≡ false → mem i second.1 ≡ false
  unfreed x y i e off = elim (Bool-cases (mem i second.1)) [
    | inl m ↦ absurd (clash (freed-touches i m))
    | inr n ↦ n
  ]
    where
      clash :
          (mem i g.free_widx ≡ true)
            ⊎ ((x : ℕ) × (y : ℕ) × (slot_of g x y ≡ some i) × (touches x y ≡ true))
          → ⊥
      clash (inl m) = cc (m, h.slot_used x y i e)
      clash (inr (x', y', e', on)) =
          let (x_is, y_is) = h.slot_once x y x' y' i e e' in cc (off, on, x_is, y_is)

  -- The rows at the other ends of v's edges name v, so the loops index within bounds and each
  -- entry of theirs takes one away.
  named : (x i : ℕ) → get x outgoing ≡ some i → get v (row g.preds x) ≡ some i
  named x i e = h.mirrored v x ∙ sym (get-outgoing x) ∙ e

  named' : (x i : ℕ) → get x incoming ≡ some i → get v (row (set g.succs v []) x) ≡ some i
  unfolding slot_of
  named' x i e = ground (arith, get-first v x, get-clear g.succs v x v hv)

  first_keys : keys_below (length g.preds) outgoing ≡ true
  first_keys =
      keys-within (length g.preds) outgoing (h.succs_ordered v)
        (λ x i e. row-within g.preds x v i (named x i e))

  incoming-IsOrdered : IsOrdered incoming
  incoming-IsOrdered = unlink-IsOrdered v outgoing g.preds g.free_widx h.preds_ordered v

  second_keys : keys_below (length g.succs) incoming ≡ true
  second_keys = keys-within (length g.succs) incoming incoming-IsOrdered (λ x i e.
      omega (arith, row-within (set g.succs v []) x v i (named' x i e), length-set g.succs v []))

  removed_edges : total second.0 + length incoming + length outgoing ≡ total g.succs
  removed_edges = omega (
    arith,
    total-set g.succs v [] hv,
    unlink-total v incoming (set g.succs v []) first.1 incoming-IsOrdered
        (IsOrdered-clear g.succs v hv h.succs_ordered) named',
  )

  -- The graph without the edges of v.
  abbrev after : AdaptGraph
  after = record g {
    preds = set first.0 v [];
    succs = second.0;
    free_widx = second.1;
    edge_count = total second.0;
    is_free = set g.is_free v true;
    free_id = v ∷ g.free_id;
  }

  forget-after : IsCounted g → get_elem? g.is_free v ≡ some false → forget v g ≡ some after
  unfolding forget sub_usize
  forget-after counted live =
      let in_succs : ltb v (length g.succs) ≡ true = ground arith in
      let in_preds : ltb v (length g.preds) ≡ true = ground (arith, h.rows) in
      let enough : leb (length outgoing) g.edge_count ≡ true = ground (arith, removed_edges) in
      let more : leb (length incoming) (g.edge_count - length outgoing) ≡ true =
        ground (arith, removed_edges) in
      let count : g.edge_count - length outgoing - length incoming ≡ total second.0 =
        omega (arith, removed_edges) in
      rw live
        (rw (in_succs, in_preds, first_keys, second_keys) (rw enough (rw more (rw count refl))))

  after-IsSound : IsSound after
  unfolding slot_of
  after-IsSound = record {
    rows = omega (
      arith,
      length-set first.0 v [],
      unlink-length v outgoing g.preds g.free_widx,
      unlink-length v incoming (set g.succs v []) first.1,
      length-set g.succs v [],
      h.rows,
    );
    succs_ordered =
        unlink-IsOrdered v incoming (set g.succs v []) first.1
          (IsOrdered-clear g.succs v hv h.succs_ordered);
    preds_ordered =
        IsOrdered-clear first.0 v
          (omega (arith, unlink-length v outgoing g.preds g.free_widx, h.rows))
          (unlink-IsOrdered v outgoing g.preds g.free_widx h.preds_ordered);
    mirrored = λ x y. get-cleared x y ∙ sym (get-second x y);
    slot_bound = λ x y i e. h.slot_bound x y i (kept x y i e).0;
    slot_once = λ x y x' y' i e e'. h.slot_once x y x' y' i (kept x y i e).0 (kept x' y' i e').0;
    slot_used = λ x y i e. unfreed x y i (kept x y i e).0 (kept x y i e).1;
    free_bound = λ i m. bound i (freed-touches i m);
    free_once = second-IsNodup;
  }

  -- For a sound graph whose count of edges is the number of the entries of its rows, and a
  -- vertex of it that is not free, forget does not panic: no index is out of bounds, and no
  -- subtraction from the count goes below 0. It gives a sound graph, in which no slot is free
  -- twice, over as many vertices, whose count of edges is again that of its rows. Every edge
  -- from the vertex or to it is gone, its weight included, and every other edge keeps its
  -- weight.
  pub forget-lookup :
      IsCounted g
      → get_elem? g.is_free v ≡ some false
      → (g' : AdaptGraph) × (forget v g ≡ some g')
        × IsSound g'
        × IsCounted g'
        × ((x y : VertId) → lookup g' x y ≡ (if x == v || y == v then none else lookup g x y))
        × (size g' ≡ size g)
  unfolding lookup slot_of
  forget-lookup counted live = (
    after,
    forget-after counted live,
    after-IsSound,
    refl,
    λ x y. rw (get-second x y) (ground arith),
    unlink-length v incoming (set g.succs v []) first.1 ∙ length-set g.succs v [],
  )
