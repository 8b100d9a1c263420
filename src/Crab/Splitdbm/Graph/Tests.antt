-- ===== src/Crab/Splitdbm/Graph/Tests.antt =====
-- src/crab/splitdbm/graph.rs: the theorems on a graph of two vertices.
use prevail_rust.Base.Tests.{Option, none, some, arith, ◌||◌, ◌==◌, if◌then◌else◌, ◌≡◌, refl, ℕ}
use prevail_rust.Base.Int.{pos}
use prevail_rust.Crab.Splitdbm.Graph.{
  AdaptGraph, size, new, grow_to, lookup, add_edge, set_edge, update_edge, forget,
}
use prevail_rust.Base.Maps.{get}
use prevail_rust.Crab.Splitdbm.Graph.Slots.{IsSound}
use prevail_rust.Crab.Splitdbm.Graph.Counted.{IsCounted, new-IsCounted, set_edge-IsCounted}
use prevail_rust.Crab.Splitdbm.Graph.Forget.{forget-lookup}
use prevail_rust.Crab.Splitdbm.Graph.Vertices.{Grown, new-IsSound, new-IsVertexed, grow_to-Grown}
use prevail_rust.Crab.Splitdbm.Graph.Weights.{Sets, least, set_edge-Sets, update_edge-Sets}

abbrev result : Option AdaptGraph → AdaptGraph
result none = new
result (some g) = g

abbrev two : AdaptGraph
two = result (grow_to 2 new)

two-Grown : Grown 2 new (grow_to 2 new)
two-Grown = grow_to-Grown 2 new new-IsSound new-IsVertexed new-IsCounted (omega arith)

two-IsSound : IsSound two
two-IsSound = let (g, e, grows, _, _, _) = two-Grown in rw e (grows.0)

two-IsCounted : IsCounted two
two-IsCounted = let (g, e, _, _, counted, _) = two-Grown in rw e counted

set_edge-Sets_example : Sets (set_edge 0 (pos 9) 1 two) two 0 1 (pos 9)
unfolding grow_to new
set_edge-Sets_example = set_edge-Sets two 0 1 (pos 9) two-IsSound (omega arith) (omega arith)

-- The edge from 0 to 1 weighs 9.
abbrev one_edge : AdaptGraph
one_edge = result (set_edge 0 (pos 9) 1 two)

one_edge-IsSound : IsSound one_edge
one_edge-IsSound = let (g, e, sound, _) = set_edge-Sets_example in rw e sound

update_edge-Sets_example :
    Sets (update_edge 0 (pos 4) 1 one_edge) one_edge 0 1 (least (pos 4) (lookup one_edge 0 1))
unfolding set_edge add_edge grow_to new get
update_edge-Sets_example =
    update_edge-Sets one_edge 0 1 (pos 4) one_edge-IsSound (omega arith) (omega arith)

one_edge-IsCounted : IsCounted one_edge
unfolding set_edge add_edge grow_to new get
one_edge-IsCounted = set_edge-IsCounted two one_edge 0 1 (pos 9) two-IsCounted refl

-- The first vertex goes, and the edge with it.
forget-lookup_example :
    (g' : AdaptGraph) × (forget 0 one_edge ≡ some g')
    × IsSound g'
    × IsCounted g'
    × ((x y : ℕ) → lookup g' x y ≡ (if x == 0 || y == 0 then none else lookup one_edge x y))
    × (size g' ≡ size one_edge)
unfolding set_edge add_edge grow_to new get
forget-lookup_example =
    forget-lookup one_edge 0 one_edge-IsSound (omega arith) one_edge-IsCounted refl
