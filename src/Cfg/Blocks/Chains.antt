-- ===== src/Cfg/Blocks/Chains.antt =====
-- src/cfg/graph.rs: each basic block is a chain of the graph, and the loops end.
use prevail_rust.Base.Tests.{
  ℕ, zero, suc, ◌+◌, ◌≤◌, ◌<◌, ◌≡◌, refl, ap, ◌∙◌, Bool, true, false, not, ◌||◌, some,
  if◌then◌else◌, List, [], ◌∷◌, ◌++◌, ◌==◌, Bool-cases, inl, inr, arith,
}
use prevail_rust.Base.Lists.{length}
use prevail_rust.Base.Maps.{get, insert, same, same_iff, same_self}
use prevail_rust.Cfg.Label.{Label, label_ord, entry, exit}
use prevail_rust.Cfg.Graph.{
  Cfg, LabelSet, has, contains, in_degree, out_degree, get_child, num_siblings, children_of, only,
  get_parent, parents_of,
}
use prevail_rust.Cfg.Graph.Edges.{child, parent, contains-some, has-insert}
use prevail_rust.Cfg.Graph.Invariant.{WellFormed}
use prevail_rust.Cfg.Graph.Splice.{mem}
use prevail_rust.Cfg.Blocks.{
  BasicBlock, new, last_of, last_label, labels, push, nodes, extended, extend, is_merged,
}

-- A step from a label to its only child, whose only parent it is.
abbrev pub IsLink : Cfg → Label → Label → Type 0
IsLink g a b = (out_degree a g ≡ some 1) × (child g a b ≡ true) × (in_degree b g ≡ some 1)

abbrev pub IsChain : Cfg → Label → List Label → Type 0
IsChain g a [] = contains a g ≡ true
IsChain g a (b ∷ r) = IsLink g a b × IsChain g b r

-- How often a label stands in a list.
abbrev pub bit : Bool → ℕ
bit b = if b then 1 else 0

abbrev pub count : Label → List Label → ℕ
count x [] = 0
count x (y ∷ ys) = bit (same x y) + count x ys

count-append : (x : Label) (xs ys : List Label) → count x (xs ++ ys) ≡ count x xs + count x ys
count-append x [] ys = ground arith
count-append x (y ∷ xs) ys = ground (arith, count-append x xs ys)

last-append : (a b : Label) (r : List Label) → last_of a (r ++ b ∷ []) ≡ b
last-append a b [] = refl
last-append a b (c ∷ r) = last-append c b r

IsChain-append :
    (g : Cfg) (a b : Label) (r : List Label)
    → IsChain g a r
    → IsLink g (last_of a r) b
    → contains b g ≡ true
    → IsChain g a (r ++ b ∷ [])
IsChain-append g a b [] h l hb = (l, hb)
IsChain-append g a b (c ∷ r) (k, h) l hb = (k, IsChain-append g c b r h l hb)

-- The labels that the loops have not seen.
abbrev pub unseen : LabelSet → List Label → ℕ
unseen seen [] = 0
unseen seen (l ∷ ls) = bit (not (has l seen)) + unseen seen ls

unseen-insert_le :
    (x : Label) (seen : LabelSet) (ls : List Label) → unseen (insert x tt seen) ls ≤ unseen seen ls
unseen-insert_le x seen [] = omega arith
unseen-insert_le x seen (l ∷ ls) =
    rw (has-insert l x seen) (ground (arith, unseen-insert_le x seen ls))

unseen-insert_lt :
    (x : Label) (seen : LabelSet) (ls : List Label)
    → mem x ls ≡ true
    → has x seen ≡ false
    → unseen (insert x tt seen) ls < unseen seen ls
unseen-insert_lt x seen [] m h = cc
unseen-insert_lt x seen (l ∷ ls) m h = rw (has-insert l x seen) (elim (Bool-cases (same x l)) [
  | inl e ↦
      let at : has l seen ≡ false = rw (← (same_iff x l).0 e) h in
      rw (← (same_iff x l).0 e, same_self x, h) (ground (arith, unseen-insert_le x seen ls))
  | inr e ↦ ground (arith, unseen-insert_lt x seen ls)
])

pub unseen-le : (seen : LabelSet) (ls : List Label) → unseen seen ls ≤ length ls
unseen-le seen [] = omega arith
unseen-le seen (l ∷ ls) = ground (arith, unseen-le seen ls)

pub length-nodes : (g : Cfg) → length (nodes g) ≡ length g
length-nodes [] = refl
length-nodes ((l, n) ∷ g) = ap suc (length-nodes g)

pub mem-nodes : (x : Label) (g : Cfg) → mem x (nodes g) ≡ contains x g
unfolding contains get
mem-nodes x [] = refl
mem-nodes x ((l, n) ∷ g) = ground (arith, mem-nodes x g)

out_degree_total : (l : Label) (g : Cfg) → contains l g ≡ true → (d : ℕ) × (out_degree l g ≡ some d)
unfolding out_degree
out_degree_total l g h = let (n, e) = contains-some l g h in (length n.children, rw e refl)

in_degree_total : (l : Label) (g : Cfg) → contains l g ≡ true → (d : ℕ) × (in_degree l g ≡ some d)
unfolding in_degree
in_degree_total l g h = let (n, e) = contains-some l g h in (length n.parents, rw e refl)

only_one : (s : LabelSet) → length s ≡ 1 → (l : Label) × (only s ≡ some l) × (has l s ≡ true)
unfolding get
only_one [] h = absurd (omega arith)
only_one ((l, u) ∷ []) h = (l, refl, rw (same_self l) refl)
only_one (a ∷ b ∷ s) h = absurd (omega arith)

-- `get_child` of a label with one child.
get_child_total :
    (l : Label) (g : Cfg)
    → contains l g ≡ true
    → out_degree l g ≡ some 1
    → (k : Label) × (get_child l g ≡ some k) × (child g l k ≡ true)
unfolding out_degree get_child children_of
get_child_total l g h d =
    let (n, e) = contains-some l g h in
    let (k, o, m) = only_one n.children (ground (arith, e)) in (k, rw (e, o) refl, rw e m)

get_parent_total :
    (l : Label) (g : Cfg)
    → contains l g ≡ true
    → in_degree l g ≡ some 1
    → (k : Label) × (get_parent l g ≡ some k) × (parent g k l ≡ true)
unfolding in_degree get_parent parents_of
get_parent_total l g h d =
    let (n, e) = contains-some l g h in
    let (k, o, m) = only_one n.parents (ground (arith, e)) in (k, rw (e, o) refl, rw e m)

pub is_merged_total :
    (l : Label) (g : Cfg)
    → WellFormed g
    → contains l g ≡ true
    → (b : Bool) × (is_merged l g ≡ some b)
unfolding is_merged num_siblings
is_merged_total l g w h = by_degree (in_degree_total l g h)
  where
    by_degree : (d : ℕ) × (in_degree l g ≡ some d) → (b : Bool) × (is_merged l g ≡ some b)
    by_degree (d, e) = elim (Bool-cases (d == 1)) [
      | inl one ↦
          let (k, p, m) = get_parent_total l g h (ground arith) in
          let (s, o) = out_degree_total k g (w.allowed k l (w.consistent k l ∙ m)).0 in
          (s == 1, rw (e, one, p, o) refl)
      | inr other ↦ (false, rw (e, other) refl)
    ]

-- One more label, at the end of the block or in place of the entry.
extended_chain :
    (g : Cfg) (next : Label) (bb : BasicBlock)
    → IsChain g bb.first bb.others
    → IsLink g (last_label bb) next
    → contains next g ≡ true
    → IsChain g (extended next bb).first (extended next bb).others
      × (last_label (extended next bb) ≡ next)
      × ((x : Label)
          → count x (labels (extended next bb)) ≤ count x (labels bb) + bit (same x next))
unfolding extended new push last_label
extended_chain g next bb h l c = elim (Bool-cases (same bb.first entry)) [
  | inl e ↦ rw e (c, refl, λ x. omega arith)
  | inr e ↦ rw e (
    IsChain-append g bb.first next bb.others h l c,
    last-append bb.first next bb.others,
    λ x. omega (arith, count-append x bb.others (next ∷ [])),
  )
]

-- What a block and the labels that were seen satisfy; `old` counts those of the other blocks.
pub record IsBlock (g : Cfg) (bb : BasicBlock) (seen : LabelSet) (old : Label → ℕ) : Type 0 where
  pub chain : IsChain g bb.first bb.others
  pub fresh : (x : Label) → count x (labels bb) + old x ≤ bit (has x seen)

extended-IsBlock :
    (g : Cfg) (next : Label) (bb : BasicBlock) (seen : LabelSet) (old : Label → ℕ)
    → IsBlock g bb seen old
    → IsLink g (last_label bb) next
    → contains next g ≡ true
    → has next seen ≡ false
    → IsBlock g (extended next bb) (insert next tt seen) old
      × (last_label (extended next bb) ≡ next)
extended-IsBlock g next bb seen old b l c new =
    let (chain, last, grows) = extended_chain g next bb b.chain l c in
    (
      record {
        chain = chain;
        fresh = λ x. rw (has-insert x next seen) (elim (Bool-cases (same x next)) [
          | inl e ↦
              let unseen : has x seen ≡ false = rw ((same_iff x next).0 e) new in
              ground (arith, grows x, b.fresh x)
          | inr e ↦ ground (arith, grows x, b.fresh x)
        ]);
      },
      last,
    )

-- The loop ends with a block, within as many rounds as there are labels to see.
pub extend_total :
    (fuel : ℕ) (g : Cfg) (current : Label) (bb : BasicBlock) (seen : LabelSet) (old : Label → ℕ)
    → WellFormed g
    → unseen seen (nodes g) < fuel
    → contains current g ≡ true
    → last_label bb ≡ current
    → IsBlock g bb seen old
    → (b : BasicBlock) × (s : LabelSet) × (extend fuel g current bb seen ≡ some (b, s))
      × IsBlock g b s old
unfolding extend
extend_total zero g current bb seen old w f c l b = absurd (omega arith)
extend_total (suc fuel) g current bb seen old w f c l b =
    let (d, e) = out_degree_total current g c in
    elim (Bool-cases (d == 1)) [
      | inr other ↦ (bb, seen, rw (e, other) refl, b)
      | inl one ↦
          let out : out_degree current g ≡ some 1 = ground arith in
          let (next, child_is, edge) = get_child_total current g c out in
          let (_, here, _, _) = w.allowed current next edge in
          elim (Bool-cases (has next seen || same next exit)) [
            | inl stop ↦ (bb, seen, rw (e, one, l, child_is, stop) refl, b)
            | inr go ↦
                let (i, ei) = in_degree_total next g here in
                elim (Bool-cases (i == 1)) [
                  | inr many ↦ (bb, seen, rw (e, one, l, child_is, go, ei, many) refl, b)
                  | inl single ↦
                      let (b', last) =
                        extended-IsBlock g next bb seen old b (rw l out, rw l edge, ground arith)
                          here (ground arith) in
                      let (r, s, run, done) =
                        extend_total fuel g next (extended next bb) (insert next tt seen) old w
                          (omega (
                            arith,
                            unseen-insert_lt next seen (nodes g) (mem-nodes next g ∙ here)
                                (ground arith),
                          ))
                          here last b' in
                      (r, s, rw (e, one, l, child_is, go, ei, single) run, done)
                ]
          ]
    ]
