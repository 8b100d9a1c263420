-- ===== src/Cfg/Tests.antt =====
-- src/cfg: the theorems on a chain of one instruction, and on the order of a nested loop.
use prevail_rust.Base.Tests.{
  ◌≡◌, ◌≤◌, ◌⊎◌, inl, inr, refl, Bool, true, false, ◌&&◌, ◌||◌, Option, none, some, List, [], ◌∷◌,
  if◌then◌else◌, arith, Bool-cases,
}
use prevail_rust.Base.Int.{pos, ◌+ℤ◌, ◌-ℤ◌}
use prevail_rust.Base.Maps.{get, insert, same, same_iff}
use prevail_rust.Cfg.Label
use prevail_rust.Cfg.Label.{
  Label, label_ord, entry, exit, cmp_label, distance, is16, label_to_offset16, label_to_offset32,
}
use prevail_rust.Cfg.Label.Offset.{label_to_offset16-label_to_offset32}
use prevail_rust.Cfg.Graph
use prevail_rust.Cfg.Graph.{Cfg, contains, add_child, remove_child, insert_after}
use prevail_rust.Cfg.Graph.Edges.{child}
use prevail_rust.Cfg.Graph.Invariant.{WellFormed, IsAllowed, add_child-WellFormed}
use prevail_rust.Cfg.Graph.Adjacency.{
  IsLegal, named, listed, cfg_from_adjacency_list, cfg_from_adjacency_list-WellFormed,
}
use prevail_rust.Cfg.Graph.Splice.{is_inner, insert_after-WellFormed}
use prevail_rust.Cfg.Blocks.{BasicBlock, last_label, extended, collect_basic_blocks}
use prevail_rust.Cfg.Blocks.Partition.{AllChains, tally, covers, collect_basic_blocks-AllChains}
use prevail_rust.Cfg.Wto
use prevail_rust.Cfg.Wto.{
  CycleOrLabel, WtoPartition, label, cycle, nil, cons, is_component_member, visit_loop_heads,
  WtoNesting, is_superset_of,
}
use prevail_rust.Cfg.Wto.Traversals.{HasHeads, AllHaveHeads, occurs, is_component_member-occurs}

abbrev first : Label
first = record { stack_frame_prefix = []; from = pos 0; to = Label.entry.to; special_label = [] }

abbrev second : Label
second = record first { from = pos 1 }

-- The entry, one instruction and the exit.
abbrev chain_list : List (Label × List Label)
chain_list = (entry, first ∷ []) ∷ (first, exit ∷ []) ∷ []

-- One edge of a list is legal if its ends are.
legal_edge :
    (a b x y : Label)
    → same b entry ≡ false
    → same a exit ≡ false
    → same x a ≡ true
    → same y b ≡ true
    → (same y entry ≡ false) × (same x exit ≡ false)
legal_edge a b x y hb ha p q = rw ((same_iff x a).0 p, (same_iff y b).0 q) (hb, ha)

chain_list-IsLegal : IsLegal chain_list
unfolding cmp_label
chain_list-IsLegal x y h = elim (Bool-cases (same x entry && same y first)) [
  | inl e ↦ legal_edge entry first x y refl refl (ground arith) (ground arith)
  | inr e ↦ legal_edge first exit x y refl refl (ground arith) (ground arith)
]

cfg_from_adjacency_list-WellFormed_example :
    (g : Cfg) × (cfg_from_adjacency_list chain_list ≡ some g)
    × WellFormed g
    × ((x y : Label) → child g x y ≡ listed x y chain_list)
    × ((x : Label) → contains x g ≡ (named x chain_list || (same x entry || same x exit)))
cfg_from_adjacency_list-WellFormed_example =
    cfg_from_adjacency_list-WellFormed chain_list chain_list-IsLegal

abbrev result : Option Cfg → Cfg
result none = Graph.new
result (some g) = g

abbrev chain : Cfg
chain = result (cfg_from_adjacency_list chain_list)

chain-WellFormed : WellFormed chain
chain-WellFormed =
    let (g, e, well_formed, _, _) = cfg_from_adjacency_list-WellFormed_example in rw e well_formed

chain-contains : contains first chain ≡ true
unfolding cmp_label cfg_from_adjacency_list contains Graph.new get insert Graph.insert_label
    add_child Graph.child_insert Graph.parent_insert
chain-contains = refl

chain_lacks : contains second chain ≡ false
unfolding cmp_label cfg_from_adjacency_list contains Graph.new get insert Graph.insert_label
    add_child Graph.child_insert Graph.parent_insert
chain_lacks = refl

insert_after-WellFormed_example :
    (g : Cfg) × (insert_after first second chain ≡ some g)
    × WellFormed g
    × ((x y : Label)
        → child g x y ≡ (
            if same x first
            then is_inner first chain && same y second
            else if same x second
            then child chain first y
            else child chain x y))
    × ((l : Label) → contains l g ≡ (same l second || contains l chain))
insert_after-WellFormed_example =
    insert_after-WellFormed first second chain chain-WellFormed chain-contains chain_lacks

chain-IsAllowed : IsAllowed chain first first
unfolding cmp_label
chain-IsAllowed = (chain-contains, chain-contains, refl, refl)

-- A loop of one instruction.
add_child-WellFormed_example :
    (g : Cfg) × (add_child first first chain ≡ some g)
    × WellFormed g
    × ((x y : Label) → child g x y ≡ ((same x first && same y first) || child chain x y))
    × ((l : Label) → contains l g ≡ contains l chain)
add_child-WellFormed_example =
    add_child-WellFormed first first chain chain-WellFormed chain-IsAllowed

collect_basic_blocks-AllChains_example :
    (blocks : List BasicBlock) × (collect_basic_blocks chain true ≡ some blocks)
    × AllChains chain blocks
    × ((x : Label) → tally x blocks ≤ 1)
collect_basic_blocks-AllChains_example = collect_basic_blocks-AllChains chain chain-WellFormed

abbrev third : Label
third = record first { from = pos 2 }

-- A branch at 0 to 2 or to the exit, and a jump back from 2 to 1, which goes to the exit: the label 1
-- is in no block.
abbrev back_list : List (Label × List Label)
back_list =
    (entry, first ∷ [])
    ∷ (first, third ∷ exit ∷ [])
    ∷ (third, second ∷ [])
    ∷ (second, exit ∷ [])
    ∷ []

abbrev covered_by : Label → Option (List BasicBlock) → Bool
covered_by l none = true
covered_by l (some blocks) = covers l blocks

jump_back_loses_a_label :
    covered_by second (collect_basic_blocks (result (cfg_from_adjacency_list back_list)) true)
    ≡ false
unfolding cmp_label cfg_from_adjacency_list contains Graph.new get insert Graph.insert_label
    add_child Graph.child_insert Graph.parent_insert collect_basic_blocks Graph.in_degree
    Graph.out_degree Graph.get_child Graph.children_of last_label extended Graph.num_siblings
    Graph.get_parent Graph.parents_of
jump_back_loses_a_label = refl

-- The order `0 (1 2)`, in reverse.
abbrev inner_loop : CycleOrLabel
inner_loop = cycle (cons (label third) (cons (label second) nil))

abbrev nested : WtoPartition
nested = cons inner_loop (cons (label first) nil)

inner_loop-HasHeads : HasHeads inner_loop
unfolding HasHeads Wto.head
inner_loop-HasHeads = ((second, refl), (tt, (tt, tt)))

is_component_member-occurs_example :
    is_component_member third inner_loop ≡ some (occurs third inner_loop)
is_component_member-occurs_example = is_component_member-occurs third inner_loop inner_loop-HasHeads

nested-AllHaveHeads : AllHaveHeads nested
unfolding AllHaveHeads HasHeads
nested-AllHaveHeads = (inner_loop-HasHeads, (tt, tt))

abbrev outer_only : WtoNesting
outer_only = record { heads = first ∷ [] }

abbrev both_heads : WtoNesting
both_heads = record { heads = second ∷ first ∷ [] }

-- A jump from slot 9 back to the first.
label_to_offset16-label_to_offset32_example :
    (label_to_offset16 9 first +ℤ label_to_offset32 9 first ≡ distance 9 first)
    × (is16 (label_to_offset16 9 first) ≡ true)
    × ((label_to_offset32 9 first ≡ pos 0) ⊎ (is16 (distance 9 first) ≡ false))
unfolding ◌-ℤ◌
label_to_offset16-label_to_offset32_example =
    label_to_offset16-label_to_offset32 9 first (omega arith, omega arith)
