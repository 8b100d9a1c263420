-- ===== src/Cfg/Graph.antt =====
-- src/cfg/graph.rs: the control-flow graph with its edges in both directions. A panic (a label that
-- is not in the graph, a failing assertion) is `none`.
use prevail_rust.Base.Tests.{
  ℕ, suc, ◌≡◌, ◌≤◌, ◌<◌, Bool, true, false, not, ◌&&◌, ◌||◌, Option, none, some, List, [], ◌∷◌,
  ◌==◌, ltb, if◌then◌else◌, ◌>>=◌,
}
use prevail_rust.Base.Lists.{length}
use prevail_rust.Base.Maps.{Map, get, insert, remove, same}
use prevail_rust.Cfg.Label.{Label, label_ord, entry, exit}
pub mod Adjacency
pub mod Edges
pub mod Invariant
pub mod Splice

-- A `BTreeSet<Label>` is a map without values.
abbrev pub LabelSet : Type 0
LabelSet = Map Label (Unit {0})

abbrev pub is_some {ℓ} : {A : Type ℓ} → Option A → Bool
is_some (some a) = true
is_some none = false

abbrev pub has : Label → LabelSet → Bool
has l s = is_some (get l s)

abbrev pub keys : LabelSet → List Label
keys [] = []
keys ((l, u) ∷ s) = l ∷ keys s

pub record Adjacent : Type 0 where
  pub parents : LabelSet
  pub children : LabelSet

abbrev pub isolated : Adjacent
isolated = record { parents = []; children = [] }

-- The `neighbours` of the source's `Cfg`.
abbrev pub Cfg : Type 0
Cfg = Map Label Adjacent

unfoldable pub new : Cfg
new = insert exit isolated (insert entry isolated [])

unfoldable pub contains : Label → Cfg → Bool
contains l g = is_some (get l g)

unfoldable pub children_of : Label → Cfg → Option LabelSet
children_of l g = get l g >>= λ n. some n.children

unfoldable pub parents_of : Label → Cfg → Option LabelSet
parents_of l g = get l g >>= λ n. some n.parents

unfoldable pub out_degree : Label → Cfg → Option ℕ
out_degree l g = get l g >>= λ n. some (length n.children)

unfoldable pub in_degree : Label → Cfg → Option ℕ
in_degree l g = get l g >>= λ n. some (length n.parents)

-- The only element; `assert_eq!(len, 1)`.
abbrev pub only : LabelSet → Option Label
only ((l, u) ∷ []) = some l
only _ = none

unfoldable pub get_child : Label → Cfg → Option Label
get_child l g = children_of l g >>= λ s. only s

unfoldable pub get_parent : Label → Cfg → Option Label
get_parent l g = parents_of l g >>= λ s. only s

unfoldable pub num_siblings : Label → Cfg → Option ℕ
num_siblings l g = get_parent l g >>= λ p. out_degree p g

unfoldable pub insert_label : Label → Cfg → Option Cfg
insert_label l g = if contains l g then none else some (insert l isolated g)

-- The edits of one node.
abbrev pub set_children : Label → LabelSet → Adjacent → Cfg → Cfg
set_children l s n g = insert l (record n { children = s }) g

abbrev pub set_parents : Label → LabelSet → Adjacent → Cfg → Cfg
set_parents l s n g = insert l (record n { parents = s }) g

unfoldable pub child_insert : Label → Label → Cfg → Option Cfg
child_insert a b g = get a g >>= λ n. some (set_children a (insert b tt n.children) n g)

unfoldable pub parent_insert : Label → Label → Cfg → Option Cfg
parent_insert b a g = get b g >>= λ n. some (set_parents b (insert a tt n.parents) n g)

unfoldable pub child_remove : Label → Label → Cfg → Option Cfg
child_remove a b g = get a g >>= λ n. some (set_children a (remove b n.children) n g)

unfoldable pub parent_remove : Label → Label → Cfg → Option Cfg
parent_remove b a g = get b g >>= λ n. some (set_parents b (remove a n.parents) n g)

unfoldable pub add_child : Label → Label → Cfg → Option Cfg
add_child a b g =
    if same b entry || same a exit then none else child_insert a b g >>= λ g'. parent_insert b a g'

unfoldable pub remove_child : Label → Label → Cfg → Option Cfg
remove_child a b g = child_remove a b g >>= λ g'. parent_remove b a g'

-- The first loop of `insert_after`: `prev` is removed from each child's parents.
unfoldable pub disown : Label → List Label → Cfg → Option Cfg
disown prev [] g = some g
disown prev (child ∷ children) g = parent_remove child prev g >>= λ g'. disown prev children g'

-- The second loop: prev, the new label and each former child in a row.
unfoldable pub rewire : Label → Label → List Label → Cfg → Option Cfg
rewire prev label [] g = some g
rewire prev label (child ∷ children) g = add_child prev label g >>= λ g'.
    add_child label child g' >>= λ g''. rewire prev label children g''

unfoldable pub insert_after : Label → Label → Cfg → Option Cfg
unfolding disown rewire
insert_after prev label g =
    if same prev label
    then none
    else get prev g >>= λ n. disown prev (keys n.children) (set_children prev [] n g) >>= λ g'.
        insert_label label g' >>= λ g''. rewire prev label (keys n.children) g''
