-- ===== src/Crab/Splitdbm/Graph.antt =====
-- src/crab/splitdbm/graph.rs: a sparse weighted graph whose weights stand in a vector of slots, which
-- both ends of an edge name by its index. A `Vec` used as a stack has its top in front. A vertex is a
-- number, which `new_vertex` keeps below 2 ^ 16 - 1.
use prevail_rust.Base.Tests.{
  ℕ, zero, suc, ◌+◌, ◌-◌, ◌^◌, Bool, true, false, not, ◌&&◌, Option, none, some, if◌then◌else◌,
  ◌>>=◌, List, [], ◌∷◌, ◌++◌, ◌==◌, ltb, leb,
}
use prevail_rust.Base.Lists.{length, get_elem?, get_or, set}
use prevail_rust.Base.Int.{ltb_ℤ}
use prevail_rust.Base.Maps.{Map, get, insert, remove, nat_ord}
use prevail_rust.Arith.Number.{Number}
pub mod Slots
pub mod Weights
pub mod Vertices
pub mod Unlink
pub mod Counted
pub mod Forget
mod Tests

abbrev pub VertId : Type 0
VertId = ℕ

abbrev pub Weight : Type 0
Weight = Number

-- A neighbour and the slot of the weight.
abbrev pub TreeSMap : Type 0
TreeSMap = Map VertId ℕ

pub record AdaptGraph : Type 0 where
  pub preds : List TreeSMap
  pub succs : List TreeSMap
  pub ws : List Weight
  pub edge_count : ℕ
  pub is_free : List Bool
  pub free_id : List VertId
  pub free_widx : List ℕ

unfoldable pub new : AdaptGraph
new = record {
  preds = [];
  succs = [];
  ws = [];
  edge_count = 0;
  is_free = [];
  free_id = [];
  free_widx = [];
}

abbrev pub size : AdaptGraph → ℕ
size g = length g.succs

-- A row past the vertices is empty here. The source panics on it, which the operations that change
-- the edges guard; `slot_of`, `elem` and `lookup` then find no edge.
abbrev pub row : List TreeSMap → VertId → TreeSMap
row rows v = get_or rows v []

-- A vertex that was freed comes back before a new one. The `debug_assert!`s are panics: a freed
-- vertex is one of the graph, and the number of a new one is below `VertId::MAX`.
unfoldable pub vertex_from : List VertId → AdaptGraph → Option (AdaptGraph × VertId)
vertex_from [] g =
    if not (ltb (length g.succs) (2 ^ 16 - 1))
    then none
    else some (
      record g {
        is_free = g.is_free ++ false ∷ [];
        succs = g.succs ++ [] ∷ [];
        preds = g.preds ++ [] ∷ [];
      },
      length g.succs,
    )
vertex_from (v ∷ rest) g =
    if not (ltb v (length g.succs) && ltb v (length g.is_free))
    then none
    else some (record g { free_id = rest; is_free = set g.is_free v false }, v)

unfoldable pub new_vertex : AdaptGraph → Option (AdaptGraph × VertId)
unfolding vertex_from
new_vertex g = vertex_from g.free_id g

-- The loop of `grow_to`, on fuel. A vertex that comes back does not add to the size.
unfoldable pub grow_rounds : ℕ → ℕ → AdaptGraph → Option AdaptGraph
unfolding new_vertex
grow_rounds zero sz g = if ltb (size g) sz then none else some g
grow_rounds (suc fuel) sz g =
    let next = new_vertex g in
    if ltb (size g) sz then (next >>= λ r. grow_rounds fuel sz r.0) else some g

unfoldable pub grow_to : ℕ → AdaptGraph → Option AdaptGraph
unfolding grow_rounds
grow_to sz g = grow_rounds (sz - size g + length g.free_id) sz g

unfoldable pub slot_of : AdaptGraph → VertId → VertId → Option ℕ
slot_of g s d = get d (row g.succs s)

unfoldable pub elem : AdaptGraph → VertId → VertId → Bool
unfolding slot_of
elem g s d = is_slot (slot_of g s d)
  where
    is_slot : Option ℕ → Bool
    is_slot none = false
    is_slot (some i) = true

unfoldable pub lookup : AdaptGraph → VertId → VertId → Option Weight
unfolding slot_of
lookup g s d = slot_of g s d >>= λ i. get_elem? g.ws i

-- A free slot, or a new one: the vector, the free slots that are left, and the slot.
unfoldable pub take_slot : Weight → List Weight → List ℕ → List Weight × List ℕ × ℕ
take_slot w ws [] = (ws ++ w ∷ [], [], length ws)
take_slot w ws (widx ∷ free) = (set ws widx w, free, widx)

-- A vertex out of range is a panic.
unfoldable pub add_edge : VertId → Weight → VertId → AdaptGraph → Option AdaptGraph
unfolding take_slot
add_edge s w d g =
    let (ws, free, idx) = take_slot w g.ws g.free_widx in
    if not (ltb s (length g.succs) && ltb d (length g.preds))
    then none
    else some (record g {
      ws = ws;
      free_widx = free;
      succs = set g.succs s (insert d idx (row g.succs s));
      preds = set g.preds d (insert s idx (row g.preds d));
      edge_count = g.edge_count + 1;
    })

-- `update_edge` keeps the smaller weight, `set_edge` the new one.
unfoldable pub update_edge : VertId → Weight → VertId → AdaptGraph → Option AdaptGraph
unfolding slot_of
update_edge s w d g = by_slot (slot_of g s d)
  where
    by_slot : Option ℕ → Option AdaptGraph
    by_slot none = add_edge s w d g
    by_slot (some idx) = get_elem? g.ws idx >>= λ old.
        some (if ltb_ℤ w old then record g { ws = set g.ws idx w } else g)

unfoldable pub set_edge : VertId → Weight → VertId → AdaptGraph → Option AdaptGraph
unfolding slot_of
set_edge s w d g = by_slot (slot_of g s d)
  where
    by_slot : Option ℕ → Option AdaptGraph
    by_slot none = add_edge s w d g
    by_slot (some idx) = get_elem? g.ws idx >>= λ old. some (record g { ws = set g.ws idx w })

-- The loops of `forget`: each edge gives its slot back and leaves the row at its other end.
unfoldable pub unlink : VertId → TreeSMap → List TreeSMap → List ℕ → List TreeSMap × List ℕ
unlink v [] rows free = (rows, free)
unlink v ((key, widx) ∷ entries) rows free =
    unlink v entries (set rows key (remove v (row rows key))) (widx ∷ free)

-- A subtraction of `usize`, which panics below 0.
unfoldable pub sub_usize : ℕ → ℕ → Option ℕ
sub_usize a b = if leb b a then some (a - b) else none

-- The loops index the rows by the keys of the entries.
abbrev pub keys_below : ℕ → TreeSMap → Bool
keys_below n [] = true
keys_below n ((key, widx) ∷ entries) = ltb key n && keys_below n entries

-- A vertex out of range is a panic, and so is a count of edges below those that are removed.
unfoldable pub forget : VertId → AdaptGraph → Option AdaptGraph
unfolding unlink sub_usize
forget v g =
    let succ_entries = row g.succs v in
    let (preds, free) = unlink v succ_entries g.preds g.free_widx in
    let pred_entries = row preds v in
    let (succs, free') = unlink v pred_entries (set g.succs v []) free in
    get_elem? g.is_free v >>= λ gone.
    if gone
    then some g
    else if not (
        ltb v (length g.succs)
        && ltb v (length g.preds)
        && keys_below (length g.preds) succ_entries
        && keys_below (length g.succs) pred_entries)
    then none
    else (sub_usize g.edge_count (length succ_entries) >>= λ left.
        sub_usize left (length pred_entries) >>= λ count. some (record g {
          preds = set preds v [];
          succs = succs;
          free_widx = free';
          edge_count = count;
          is_free = set g.is_free v true;
          free_id = v ∷ g.free_id;
        }))

unfoldable pub clear_edges : AdaptGraph → AdaptGraph
clear_edges g = record g {
  ws = [];
  free_widx = [];
  succs = cleared g.is_free g.succs;
  preds = cleared g.is_free g.preds;
  edge_count = 0;
}
  where
    cleared : List Bool → List TreeSMap → List TreeSMap
    cleared [] rows = rows
    cleared (f ∷ fs) [] = []
    cleared (f ∷ fs) (r ∷ rows) = (if f then r else []) ∷ cleared fs rows

unfoldable pub clear : AdaptGraph → AdaptGraph
unfolding new
clear g = new
