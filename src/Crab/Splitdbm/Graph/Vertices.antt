-- ===== src/Crab/Splitdbm/Graph/Vertices.antt =====
-- src/crab/splitdbm/graph.rs: vertices are added without a change of the edges.
use prevail_rust.Base.Tests.{
  ℕ, zero, suc, ◌+◌, ◌-◌, ◌^◌, ◌<◌, ◌≤◌, true, Option, some, lt→ltb, ltb, ◌>>=◌, Bool-cases, inl,
  inr, ◌≡◌, refl, sym, ap, ◌∙◌, false, List, [], ◌∷◌, ◌++◌, arith,
}
use prevail_rust.Base.Lists.{length, set, length-set, length-append}
use prevail_rust.Base.Maps.{get, nat_ord}
use prevail_rust.Crab.Splitdbm.Graph.{
  VertId, TreeSMap, AdaptGraph, new, row, size, slot_of, lookup, vertex_from, new_vertex, grow_to,
  grow_rounds,
}
use prevail_rust.Crab.Splitdbm.Graph.Counted.{total, IsCounted, total-snoc}
use prevail_rust.Crab.Splitdbm.Graph.Slots.{IsSound, mem}

row-snoc : (rows : List TreeSMap) (v : ℕ) → row (rows ++ [] ∷ []) v ≡ row rows v
row-snoc [] zero = refl
row-snoc [] (suc v) = refl
row-snoc (r ∷ rows) zero = refl
row-snoc (r ∷ rows) (suc v) = row-snoc rows v

pub new-IsSound : IsSound new
unfolding new slot_of get
new-IsSound = record {
  rows = refl;
  succs_ordered = λ v. tt;
  preds_ordered = λ v. tt;
  mirrored = λ s d. refl;
  slot_bound = λ s d i e. cc;
  slot_once = λ s d s' d' i e e'. cc;
  slot_used = λ s d i e. cc;
  free_bound = λ i m. cc;
  free_once = tt;
}

-- The vertices grow, the edges stay.
abbrev pub Grows : AdaptGraph → AdaptGraph → Type 0
Grows g g' = IsSound g' × ((x y : VertId) → lookup g' x y ≡ lookup g x y) × (size g ≤ size g')

same_edges :
    (g g' : AdaptGraph)
    → IsSound g
    → ((v : VertId) → row g'.succs v ≡ row g.succs v)
    → ((v : VertId) → row g'.preds v ≡ row g.preds v)
    → length g'.preds ≡ length g'.succs
    → g'.ws ≡ g.ws
    → g'.free_widx ≡ g.free_widx
    → IsSound g' × ((x y : VertId) → lookup g' x y ≡ lookup g x y)
unfolding slot_of lookup
same_edges g g' h succs preds rows ws free =
    let at : (s d : VertId) → slot_of g' s d ≡ slot_of g s d = λ s d. ap (get d) (succs s) in
    (
      record {
        rows = rows;
        succs_ordered = λ v. rw (succs v) (h.succs_ordered v);
        preds_ordered = λ v. rw (preds v) (h.preds_ordered v);
        mirrored = λ s d. ap (get s) (preds d) ∙ h.mirrored s d ∙ sym (at s d);
        slot_bound = λ s d i e. rw ws (h.slot_bound s d i (sym (at s d) ∙ e));
        slot_once =
            λ s d s' d' i e e'. h.slot_once s d s' d' i (sym (at s d) ∙ e) (sym (at s' d') ∙ e');
        slot_used = λ s d i e. rw free (h.slot_used s d i (sym (at s d) ∙ e));
        free_bound = λ i m. rw ws (h.free_bound i (ap (mem i) (sym free) ∙ m));
        free_once = rw free h.free_once;
      },
      λ x y. rw (succs x, ws) refl,
    )

-- The flags and the stack of the freed vertices name vertices of the graph.
pub record IsVertexed (g : AdaptGraph) : Type 0 where
  pub flags : length g.is_free ≡ length g.succs
  pub freed : (v : VertId) → mem v g.free_id ≡ true → v < size g

pub new-IsVertexed : IsVertexed new
unfolding new
new-IsVertexed = record { flags = refl; freed = λ v m. cc }

-- One round either adds a vertex or uses up a freed one.
abbrev Round : ℕ → AdaptGraph → Option (AdaptGraph × VertId) → Type 0
Round budget g result =
    (g' : AdaptGraph) × (v : VertId) × (result ≡ some (g', v))
    × Grows g g'
    × IsVertexed g'
    × (total g'.succs ≡ total g.succs)
    × (g'.edge_count ≡ g.edge_count)
    × (suc (length g'.free_id + size g) ≡ budget + size g')
    × (size g' ≤ suc (size g))

vertex_from-Round :
    (free : List VertId) (g : AdaptGraph)
    → IsSound g
    → length g.is_free ≡ length g.succs
    → ((v : VertId) → mem v free ≡ true → v < size g)
    → size g < 2 ^ 16 - 1
    → g.free_id ≡ free
    → Round (length free) g (vertex_from free g)
unfolding vertex_from
vertex_from-Round [] g h flags freed bound is =
    let g' : AdaptGraph = record g {
      is_free = g.is_free ++ false ∷ [];
      succs = g.succs ++ [] ∷ [];
      preds = g.preds ++ [] ∷ [];
    } in
    let longer : length (g.succs ++ [] ∷ []) ≡ suc (size g) =
      omega (arith, length-append {0} g.succs ([] ∷ [])) in
    let (sound, edges) =
      same_edges g g' h (row-snoc g.succs) (row-snoc g.preds)
        (omega (arith, length-append {0} g.preds ([] ∷ []), longer, h.rows)) refl refl in
    (
      g',
      length g.succs,
      rw (lt→ltb (length g.succs) (2 ^ 16 - 1) bound) refl,
      (sound, edges, omega (arith, longer)),
      record {
        flags = omega (arith, longer, length-append {0} g.is_free (false ∷ []));
        freed = λ v m. absurd (cc (ap (mem v) is, m));
      },
      total-snoc g.succs,
      refl,
      rw (is, longer) (omega arith),
      omega (arith, longer),
    )
vertex_from-Round (v ∷ rest) g h flags freed bound is =
    let g' : AdaptGraph = record g { free_id = rest; is_free = set g.is_free v false } in
    let (sound, edges) = same_edges g g' h (λ u. refl) (λ u. refl) h.rows refl refl in
    let within : v < size g = freed v (ground arith) in
    (
      g',
      v,
      rw (lt→ltb v (length g.succs) within, lt→ltb v (length g.is_free) (omega (arith, flags)))
          refl,
      (sound, edges, omega arith),
      record {
        flags = length-set g.is_free v false ∙ flags;
        freed = λ u m. freed u (ground (arith, m));
      },
      refl,
      refl,
      omega arith,
      omega arith,
    )

-- The outcome of `grow_to`: the size is reached.
abbrev pub Grown : ℕ → AdaptGraph → Option AdaptGraph → Type 0
Grown sz g result =
    (g' : AdaptGraph) × (result ≡ some g')
    × Grows g g'
    × IsVertexed g'
    × IsCounted g'
    × (sz ≤ size g')

Grown-after :
    (sz : ℕ) (g g' : AdaptGraph) (result : Option AdaptGraph)
    → Grows g g'
    → Grown sz g' result
    → Grown sz g result
Grown-after sz g g' result (h, edges, le) (g'', e, (h', edges', le'), vs, c, big) =
    (g'', e, (h', λ x y. edges' x y ∙ edges x y, omega arith), vs, c, big)

grow_round-Grown :
    (fuel sz : ℕ) (g : AdaptGraph) (result : Option (AdaptGraph × VertId))
    → IsCounted g
    → size g < sz
    → sz - size g + length g.free_id ≤ suc fuel
    → ((g' : AdaptGraph)
        → IsSound g'
        → IsVertexed g'
        → IsCounted g'
        → sz - size g' + length g'.free_id ≤ fuel
        → Grown sz g' (grow_rounds fuel sz g'))
    → Round (length g.free_id) g result
    → Grown sz g (result >>= λ r. grow_rounds fuel sz r.0)
grow_round-Grown fuel sz g result c more enough again
      (g', v, e, grows, vs, same, kept, fewer, one) =
    rw e (
      Grown-after sz g g' (grow_rounds fuel sz g') grows
        (again g' grows.0 vs (kept ∙ c ∙ sym same) (omega arith)))

grow_rounds-Grown :
    (fuel sz : ℕ) (g : AdaptGraph)
    → IsSound g
    → IsVertexed g
    → IsCounted g
    → sz < 2 ^ 16
    → sz - size g + length g.free_id ≤ fuel
    → Grown sz g (grow_rounds fuel sz g)
unfolding grow_rounds new_vertex
grow_rounds-Grown zero sz g h vs c bound enough =
    let done : sz ≤ size g = omega arith in
    let stops : ltb (size g) sz ≡ false = ground arith in
    (g, rw stops refl, (h, λ x y. refl, omega arith), vs, c, done)
grow_rounds-Grown (suc fuel) sz g h vs c bound enough = elim (Bool-cases (ltb (size g) sz)) [
  | inl more ↦
      let small : size g < sz = ground arith in
      rw more (
        grow_round-Grown fuel sz g (vertex_from g.free_id g) c small enough
          (λ g' h' vs' c' less. grow_rounds-Grown fuel sz g' h' vs' c' bound less)
          (vertex_from-Round g.free_id g h vs.flags vs.freed (omega arith) refl))
  | inr done ↦ rw done (g, refl, (h, λ x y. refl, omega arith), vs, c, ground arith)
]

-- For a size below 2 ^ 16, the loop of grow_to ends within its fuel and does not panic.
pub grow_to-Grown :
    (sz : ℕ) (g : AdaptGraph)
    → IsSound g
    → IsVertexed g
    → IsCounted g
    → sz < 2 ^ 16
    → Grown sz g (grow_to sz g)
unfolding grow_to
grow_to-Grown sz g h vs c bound =
    grow_rounds-Grown (sz - size g + length g.free_id) sz g h vs c bound (omega arith)
