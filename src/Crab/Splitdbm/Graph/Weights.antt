-- ===== src/Crab/Splitdbm/Graph/Weights.antt =====
-- src/crab/splitdbm/graph.rs: the weights of the edges, as a map from pairs of vertices.
use prevail_rust.Base.Tests.{
  ℕ, ◌+◌, ◌<◌, ◌≡◌, refl, sym, ap, ◌∙◌, ◌&&◌, Option, none, some, if◌then◌else◌, ◌>>=◌, List, [],
  ◌==◌, arith, Bool-cases, Option-cases, inl, inr, lt→ltb,
}
use prevail_rust.Base.Lists.{length, get_elem?, set, length-set, get_or-set}
use prevail_rust.Base.Int.{ltb_ℤ}
use prevail_rust.Base.Maps.{get, insert, nat_ord, get-insert}
use prevail_rust.Base.Maps.Ordered.{IsOrdered, IsOrdered-insert}
use prevail_rust.Crab.Splitdbm.Graph.{
  VertId, Weight, TreeSMap, AdaptGraph, row, size, slot_of, lookup, take_slot, add_edge,
  update_edge, set_edge,
}
use prevail_rust.Crab.Splitdbm.Graph.Slots.{
  IsSound, mem, Taken, take_slot-Taken, get_elem?-set, get_elem?-below,
}

-- One row after an insertion.
row-insert :
    (rows : List TreeSMap) (s d x y i : ℕ)
    → s < length rows
    → get y (row (set rows s (insert d i (row rows s))) x)
      ≡ (if x == s && y == d then some i else get y (row rows x))
row-insert rows s d x y i h =
    ap (get y) (get_or-set rows s x (insert d i (row rows s)) [] h) ∙ elim (Bool-cases (s == x)) [
      | inl e ↦
          let s_is : s ≡ x = ground arith in
          rw (e, s_is, get-insert y d i (row rows x)) (ground arith)
      | inr e ↦ rw e (ground arith)
    ]

row-insert-IsOrdered :
    (rows : List TreeSMap) (s d i : ℕ)
    → s < length rows
    → ((v : VertId) → IsOrdered (row rows v))
    → (v : VertId) → IsOrdered (row (set rows s (insert d i (row rows s))) v)
row-insert-IsOrdered rows s d i h o v =
    rw (get_or-set rows s v (insert d i (row rows s)) [] h) (elim (Bool-cases (s == v)) [
      | inl e ↦ rw e (IsOrdered-insert d i (row rows s) (o s))
      | inr e ↦ rw e (o v)
    ])

-- The graph with one more edge, which is given the slot i.
linked : VertId → Weight → VertId → List Weight → List ℕ → ℕ → AdaptGraph → AdaptGraph
linked s w d ws free i g = record g {
  ws = ws;
  free_widx = free;
  succs = set g.succs s (insert d i (row g.succs s));
  preds = set g.preds d (insert s i (row g.preds d));
  edge_count = g.edge_count + 1;
}

module _ (g : AdaptGraph) (s d : VertId) (w : Weight) (h : IsSound g) (hs : s < size g)
    (hd : d < size g) where
  linked-slot :
      (ws : List Weight) (free : List ℕ) (i x y : ℕ)
      → slot_of (linked s w d ws free i g) x y
        ≡ (if x == s && y == d then some i else slot_of g x y)
  unfolding linked slot_of
  linked-slot ws free i x y = row-insert g.succs s d x y i hs

  linked-IsSound :
      (ws : List Weight) (free : List ℕ) (i : ℕ)
      → Taken g w g.free_widx ws free i
      → IsSound (linked s w d ws free i g)
  unfolding linked
  linked-IsSound ws free i t =
      let at = linked-slot ws free i in
      record {
        rows = omega (
          arith,
          length-set g.preds d (insert s i (row g.preds d)),
          length-set g.succs s (insert d i (row g.succs s)),
          h.rows,
        );
        succs_ordered = row-insert-IsOrdered g.succs s d i hs h.succs_ordered;
        preds_ordered = row-insert-IsOrdered g.preds d s i (omega (arith, h.rows)) h.preds_ordered;
        mirrored = λ x y.
            row-insert g.preds d s y x i (omega (arith, h.rows))
            ∙ rw (h.mirrored x y) (ground arith)
            ∙ sym (at x y);
        slot_bound = λ x y j e. ground (arith, at x y, h.slot_bound x y j, t.bound, t.grows);
        slot_once = λ x y x' y' j e e'.
            ground (arith, at x y, at x' y', h.slot_once x y x' y' j, t.unused x y, t.unused x' y');
        slot_used = λ x y j e. elim (Bool-cases (mem j free)) [
          | inl m ↦ absurd (ground (arith, at x y, t.not_free, t.still_free j m, h.slot_used x y j))
          | inr n ↦ n
        ];
        free_bound = λ j m. ground (arith, h.free_bound j (t.still_free j m), t.grows);
        free_once = t.once;
      }

  linked-lookup :
      (ws : List Weight) (free : List ℕ) (i x y : ℕ)
      → Taken g w g.free_widx ws free i
      → lookup (linked s w d ws free i g) x y ≡ (if x == s && y == d then some w else lookup g x y)
  unfolding lookup linked
  linked-lookup ws free i x y t =
      ap (λ o. o >>= λ j. get_elem? ws j) (linked-slot ws free i x y)
      ∙ elim (Option-cases (slot_of g x y)) [
        | inl missing ↦ rw missing (ground (arith, t.values i))
        | inr (j, found) ↦ rw found (ground (arith, t.values i, t.values j, t.unused x y))
      ]

  -- A new edge ...
  pub add_edge-lookup :
      (g' : AdaptGraph) × (add_edge s w d g ≡ some g')
      × IsSound g'
      × ((x y : VertId) → lookup g' x y ≡ (if x == s && y == d then some w else lookup g x y))
      × (size g' ≡ size g)
      × (g'.edge_count ≡ g.edge_count + 1)
  unfolding add_edge linked
  add_edge-lookup =
      let ws = (take_slot w g.ws g.free_widx).0 in
      let free = (take_slot w g.ws g.free_widx).1 in
      let i = (take_slot w g.ws g.free_widx).2 in
      let t = take_slot-Taken g w h in
      (
        linked s w d ws free i g,
        rw (lt→ltb s (length g.succs) hs, lt→ltb d (length g.preds) (omega (arith, h.rows))) refl,
        linked-IsSound ws free i t,
        λ x y. linked-lookup ws free i x y t,
        length-set g.succs s (insert d i (row g.succs s)),
        refl,
      )

-- A new weight in the slot of an edge.
reweighed : ℕ → Weight → AdaptGraph → AdaptGraph
reweighed i w g = record g { ws = set g.ws i w }

module _ (g : AdaptGraph) (s d i : ℕ) (w : Weight) (h : IsSound g)
    (found : slot_of g s d ≡ some i) where
  reweighed-IsSound : IsSound (reweighed i w g)
  unfolding reweighed slot_of
  reweighed-IsSound = record {
    rows = h.rows;
    succs_ordered = h.succs_ordered;
    preds_ordered = h.preds_ordered;
    mirrored = h.mirrored;
    slot_bound = λ x y j e. omega (arith, length-set g.ws i w, h.slot_bound x y j e);
    slot_once = h.slot_once;
    slot_used = h.slot_used;
    free_bound = λ j m. omega (arith, length-set g.ws i w, h.free_bound j m);
    free_once = h.free_once;
  }

  reweighed-lookup :
      (x y : VertId)
      → lookup (reweighed i w g) x y ≡ (if x == s && y == d then some w else lookup g x y)
  unfolding reweighed lookup slot_of
  reweighed-lookup x y =
      let values : (j : ℕ)
          → get_elem? (set g.ws i w) j ≡ (if i == j then some w else get_elem? g.ws j) =
        λ j. get_elem?-set g.ws i j w (h.slot_bound s d i found) in
      elim (Option-cases (slot_of g x y)) [
        | inl missing ↦ ground (arith, found)
        | inr (j, e) ↦ rw e (ground (arith, values j, h.slot_once x y s d j e, found))
      ]

-- The outcome of an operation that sets the weight of one edge.
abbrev pub Sets : Option AdaptGraph → AdaptGraph → VertId → VertId → Weight → Type 0
Sets result g s d w =
    (g' : AdaptGraph) × (result ≡ some g')
    × IsSound g'
    × ((x y : VertId) → lookup g' x y ≡ (if x == s && y == d then some w else lookup g x y))

-- The smaller of a weight and that of an edge, if it has one.
abbrev pub least : Weight → Option Weight → Weight
least w none = w
least w (some old) = if ltb_ℤ w old then w else old

unchanged :
    (g : AdaptGraph) (s d : VertId) (old : Weight)
    → lookup g s d ≡ some old
    → (x y : VertId) → lookup g x y ≡ (if x == s && y == d then some old else lookup g x y)
unchanged g s d old value x y = elim (Bool-cases (x == s && y == d)) [
  | inl e ↦
      let x_is : x ≡ s = ground arith in let y_is : y ≡ d = ground arith in rw (e, x_is, y_is) value
  | inr e ↦ rw e refl
]

lookup-slot :
    (g : AdaptGraph) (s d i : ℕ)
    → IsSound g
    → slot_of g s d ≡ some i
    → (old : Weight) × (get_elem? g.ws i ≡ some old) × (lookup g s d ≡ some old)
unfolding lookup slot_of
lookup-slot g s d i h found =
    let (old, e) = get_elem?-below g.ws i (h.slot_bound s d i found) in (old, e, rw found e)

module _ (g : AdaptGraph) (s d : VertId) (w : Weight) (h : IsSound g) (hs : s < size g)
    (hd : d < size g) where
  added : slot_of g s d ≡ none → (lookup g s d ≡ none) × Sets (add_edge s w d g) g s d w
  unfolding lookup slot_of
  added missing =
      let (g', e, sound, weights, _, _) = add_edge-lookup g s d w h hs hd in
      (rw missing refl, (g', e, sound, weights))

  -- `set_edge` ...
  pub set_edge-Sets : Sets (set_edge s w d g) g s d w
  unfolding set_edge reweighed
  set_edge-Sets = elim (Option-cases (slot_of g s d)) [
    | inl missing ↦ rw missing ((added missing).1)
    | inr (i, found) ↦
        let (old, e, _) = lookup-slot g s d i h found in
        rw found (
          reweighed i w g,
          rw e refl,
          reweighed-IsSound g s d i w h found,
          reweighed-lookup g s d i w h found,
        )
  ]

  -- For a sound graph, in which no two edges share a slot and no slot in use is free, and two
  -- vertices of it, update_edge does not panic and gives a sound graph. The weight of the edge
  -- between the two is the given one, or the smaller of it and the weight that there was, and
  -- the weight of every other edge stays.
  pub update_edge-Sets : Sets (update_edge s w d g) g s d (least w (lookup g s d))
  unfolding update_edge reweighed
  update_edge-Sets = elim (Option-cases (slot_of g s d)) [
    | inl missing ↦ let (none_there, new_edge) = added missing in rw (missing, none_there) new_edge
    | inr (i, found) ↦
        let (old, e, value) = lookup-slot g s d i h found in
        rw (found, value)
          (elim (Bool-cases (ltb_ℤ w old)) [
            | inl less ↦ rw less (
              reweighed i w g,
              rw (e, less) refl,
              reweighed-IsSound g s d i w h found,
              reweighed-lookup g s d i w h found,
            )
            | inr kept ↦ rw kept (g, rw (e, kept) refl, h, unchanged g s d old value)
          ])
  ]
