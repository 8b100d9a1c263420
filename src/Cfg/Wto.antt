-- ===== src/Cfg/Wto.antt =====
-- src/cfg/wto.rs: a weak topological order as a tree of components, its traversals, and the nesting of
-- a label. The lists of components are in the reverse of their order, as the source's vectors are.
-- The weak pointers to the cycle around a cycle are not part of the tree.
use prevail_rust.Base.Tests.{
  ℕ, zero, suc, ◌+◌, ◌-◌, Bool, true, false, not, ◌&&◌, ◌||◌, Option, none, some, if◌then◌else◌,
  ◌>>=◌, List, [], ◌∷◌, leb,
}
use prevail_rust.Base.Lists.{length, get_elem?}
use prevail_rust.Base.Maps.{same}
use prevail_rust.Cfg.Label.{Label, label_ord}
pub mod Traversals
pub mod Nesting

mutual
  pub data CycleOrLabel : Type 0 where
    label : Label → CycleOrLabel
    cycle : WtoPartition → CycleOrLabel

  -- The cycle of the source is its components.
  pub data WtoPartition : Type 0 where
    nil : WtoPartition
    cons : CycleOrLabel → WtoPartition → WtoPartition

-- The last component; a list without one, or a cycle in its place, is a panic.
unfoldable pub head : WtoPartition → Option Label
head nil = none
head (cons (label l) nil) = some l
head (cons (cycle c) nil) = none
head (cons c (cons d cs)) = head (cons d cs)

-- A stack has its top in front. The components are pushed in forward order, which ends with the
-- first of the list.
abbrev pub push_all : WtoPartition → List CycleOrLabel → List CycleOrLabel
push_all nil stack = stack
push_all (cons c cs) stack = c ∷ push_all cs stack

-- The loop of `is_component_member`; `none` is a panic, or that the fuel ran out.
unfoldable pub member_loop : ℕ → Label → List CycleOrLabel → Option Bool
member_loop zero l stack = none
member_loop (suc fuel) l [] = some false
member_loop (suc fuel) l (label k ∷ stack) =
    let rest = member_loop fuel l stack in if same k l then some true else rest
member_loop (suc fuel) l (cycle cs ∷ stack) = head cs >>= λ h.
    let rest = member_loop fuel l (push_all cs stack) in if same h l then some true else rest

mutual
  pub size : CycleOrLabel → ℕ
  size (label l) = 1
  size (cycle cs) = suc (sizes cs)

  pub sizes : WtoPartition → ℕ
  sizes nil = 0
  sizes (cons c cs) = size c + sizes cs

unfoldable pub is_component_member : Label → CycleOrLabel → Option Bool
unfolding member_loop
is_component_member l component = member_loop (suc (size component)) l (component ∷ [])

-- The cycles of the components, which are pushed in forward order.
abbrev pub push_cycles : WtoPartition → List WtoPartition → List WtoPartition
push_cycles nil stack = stack
push_cycles (cons (label l) cs) stack = push_cycles cs stack
push_cycles (cons (cycle c) cs) stack = c ∷ push_cycles cs stack

-- The labels that `visit_loop_heads` calls its function with.
unfoldable pub heads_loop : ℕ → List WtoPartition → Option (List Label)
heads_loop zero stack = none
heads_loop (suc fuel) [] = some []
heads_loop (suc fuel) (cs ∷ stack) =
    head cs >>= λ h. heads_loop fuel (push_cycles cs stack) >>= λ rest. some (h ∷ rest)

unfoldable pub visit_loop_heads : WtoPartition → Option (List Label)
unfolding heads_loop
visit_loop_heads components = heads_loop (suc (sizes components)) (push_cycles components [])

-- The heads around a label, from the inner to the outer.
pub record WtoNesting : Type 0 where
  pub heads : List Label

abbrev pub last_element : List Label → Option Label
last_element [] = none
last_element (h ∷ []) = some h
last_element (h ∷ k ∷ hs) = last_element (k ∷ hs)

unfoldable pub outermost_head : WtoNesting → Option Label
outermost_head n = last_element n.heads

abbrev same_at : Option Label → Option Label → Bool
same_at (some a) (some b) = same a b
same_at _ _ = false

-- The loop from `index` on, over the elements that are left.
unfoldable pub same_from : ℕ → ℕ → List Label → List Label → Bool
same_from zero index this other = true
same_from (suc left) index this other =
    let rest = same_from left (suc index) this other in
    if not (
      same_at (get_elem? this (length this - 1 - index))
        (get_elem? other (length other - 1 - index)))
    then false
    else rest

unfoldable pub is_superset_of : WtoNesting → WtoNesting → Bool
unfolding same_from
is_superset_of this other =
    if leb (length this.heads) (length other.heads)
    then false
    else same_from (length other.heads) 0 this.heads other.heads
