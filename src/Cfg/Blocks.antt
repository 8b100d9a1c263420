-- ===== src/Cfg/Blocks.antt =====
-- src/cfg/graph.rs: the basic blocks of a graph. A `Vec` of labels is never empty once the step that
-- empties it has pushed the next label, so a block is its first label and the others.
use prevail_rust.Base.Tests.{
  ℕ, zero, suc, Bool, true, false, not, ◌&&◌, ◌||◌, Option, none, some, if◌then◌else◌, ◌>>=◌, List,
  [], ◌∷◌, ◌++◌, ◌==◌,
}
use prevail_rust.Base.Lists.{length}
use prevail_rust.Base.Maps.{Map, insert, same, by_order}
use prevail_rust.Cfg.Label.{Label, label_ord, cmp_label, entry, exit}
use prevail_rust.Cfg.Graph.{
  Cfg, LabelSet, Adjacent, has, contains, in_degree, out_degree, get_child, num_siblings,
}
pub mod Chains
pub mod Partition

pub record BasicBlock : Type 0 where
  pub first : Label
  pub others : List Label

unfoldable pub new : Label → BasicBlock
new first_label = record { first = first_label; others = [] }

abbrev pub last_of : Label → List Label → Label
last_of l [] = l
last_of l (k ∷ ks) = last_of k ks

unfoldable pub last_label : BasicBlock → Label
last_label bb = last_of bb.first bb.others

abbrev pub labels : BasicBlock → List Label
labels bb = bb.first ∷ bb.others

unfoldable pub push : Label → BasicBlock → BasicBlock
push l bb = record bb { others = bb.others ++ l ∷ [] }

-- A `BTreeSet` of blocks, which are ordered by their first labels; an equal block stays.
unfoldable pub insert_block : BasicBlock → List BasicBlock → List BasicBlock
insert_block bb [] = bb ∷ []
insert_block bb (b ∷ bs) =
    let after = insert_block bb bs in
    by_order (cmp_label bb.first b.first) (bb ∷ b ∷ bs) (b ∷ bs) (b ∷ after)

abbrev pub nodes : Cfg → List Label
nodes [] = []
nodes ((l, n) ∷ g) = l ∷ nodes g

unfoldable pub unsimplified : List Label → List BasicBlock → List BasicBlock
unfolding new insert_block
unsimplified [] res = res
unsimplified (l ∷ ls) res =
    unsimplified ls
      (if not (same l entry) && not (same l exit) then insert_block (new l) res else res)

-- The block loses its first label when that is the entry.
unfoldable pub extended : Label → BasicBlock → BasicBlock
unfolding new push
extended next bb = if same bb.first entry then new next else push next bb

-- The `while` loop of a block; `none` is a panic, or that the fuel ran out.
unfoldable pub extend : ℕ → Cfg → Label → BasicBlock → LabelSet → Option (BasicBlock × LabelSet)
extend zero g current bb seen = none
extend (suc fuel) g current bb seen = out_degree current g >>= λ d.
    if not (d == 1)
    then some (bb, seen)
    else get_child (last_label bb) g >>= λ next.
        if has next seen || same next exit
        then some (bb, seen)
        else in_degree next g >>= λ e.
            let rest = extend fuel g next (extended next bb) (insert next tt seen) in
            if not (e == 1) then some (bb, seen) else rest

-- A label with one parent, whose parent has one child, waits for the block of its parent.
unfoldable pub is_merged : Label → Cfg → Option Bool
is_merged l g =
    in_degree l g >>= λ d. if d == 1 then (num_siblings l g >>= λ s. some (s == 1)) else some false

unfoldable pub simplified : Cfg → List Label → LabelSet → List BasicBlock → Option (List BasicBlock)
unfolding extend is_merged
simplified g [] seen res = some res
simplified g (l ∷ ls) seen res =
    let skip = simplified g ls seen res in
    if has l seen
    then skip
    else is_merged l g >>= λ merged.
        let wait = simplified g ls (insert l tt seen) res in
        let block = extend (suc (length g)) g l (new l) (insert l tt seen) >>= λ r.
        simplified g ls (r.1) (insert_block (r.0) res) in
        if merged then wait else block

unfoldable pub collect_basic_blocks : Cfg → Bool → Option (List BasicBlock)
unfolding unsimplified simplified
collect_basic_blocks g false = some (unsimplified (nodes g) [])
collect_basic_blocks g true = simplified g (nodes g) [] []
