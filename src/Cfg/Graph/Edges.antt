-- ===== src/Cfg/Graph/Edges.antt =====
-- src/cfg/graph.rs: the edges of a graph, seen from their source and from their target, and what the
-- edit of one node does to them.
use prevail_rust.Base.Tests.{
  ◌≡◌, refl, ◌∙◌, Bool, true, false, not, ◌&&◌, ◌||◌, Option, none, some, if◌then◌else◌, ◌>>=◌,
  Bool-cases, Option-cases, inl, inr, arith,
}
use prevail_rust.Base.Maps.{get, insert, remove, same, same_iff, get-insert, get-remove}
use prevail_rust.Cfg.Label.{Label, label_ord}
use prevail_rust.Cfg.Graph.{
  Cfg, LabelSet, Adjacent, has, contains, child_insert, parent_insert, child_remove, parent_remove,
}

abbrev pub child_in : Option Adjacent → Label → Bool
child_in none b = false
child_in (some n) b = has b n.children

abbrev pub parent_in : Option Adjacent → Label → Bool
parent_in none a = false
parent_in (some n) a = has a n.parents

-- The edge from a to b, as the node a has it and as the node b has it.
abbrev pub child : Cfg → Label → Label → Bool
child g a b = child_in (get a g) b

abbrev pub parent : Cfg → Label → Label → Bool
parent g a b = parent_in (get b g) a

-- The edges of a graph over the nodes of another.
pub record Edited (g g' : Cfg) (c p : Label → Label → Bool) : Type 0 where
  pub as_child : (x y : Label) → child g' x y ≡ c x y
  pub as_parent : (x y : Label) → parent g' x y ≡ p x y
  pub nodes : (l : Label) → contains l g' ≡ contains l g

pub has-insert : (y b : Label) (s : LabelSet) → has y (insert b tt s) ≡ (same y b || has y s)
has-insert y b s = rw (get-insert y b tt s) (ground arith)

pub has-remove : (y b : Label) (s : LabelSet) → has y (remove b s) ≡ (not (same y b) && has y s)
has-remove y b s = rw (get-remove y b s) (ground arith)

pub contains-some :
    (l : Label) (g : Cfg) → contains l g ≡ true → (n : Adjacent) × (get l g ≡ some n)
unfolding contains
contains-some l g h = elim (Option-cases (get l g)) [ inl missing ↦ cc | inr found ↦ found ]

contains-insert :
    (l a : Label) (n n' : Adjacent) (g : Cfg)
    → get a g ≡ some n
    → contains l (insert a n' g) ≡ contains l g
unfolding contains
contains-insert l a n n' g e = rw (get-insert l a n' g) (elim (Bool-cases (same l a)) [
  | inl h ↦ rw (h, (same_iff l a).0 h, e) refl
  | inr h ↦ rw h refl
])

child-set :
    (a x y : Label) (n : Adjacent) (g : Cfg)
    → child (insert a n g) x y ≡ (if same x a then has y n.children else child g x y)
child-set a x y n g = rw (get-insert x a n g) (ground arith)

parent-set :
    (a x y : Label) (n : Adjacent) (g : Cfg)
    → parent (insert a n g) x y ≡ (if same y a then has x n.parents else parent g x y)
parent-set a x y n g = rw (get-insert y a n g) (ground arith)

-- The four edits of one node, each through the case of its label.
pub set_children-Edited :
    (a : Label) (n : Adjacent) (s : LabelSet) (g : Cfg)
    → get a g ≡ some n
    → Edited g
        (insert a (record n { children = s }) g)
        (λ x y. if same x a then has y s else child g x y)
        (parent g)
set_children-Edited a n s g e = record {
  as_child = λ x y. child-set a x y (record n { children = s }) g;
  as_parent = λ x y. parent-set a x y (record n { children = s }) g ∙ elim (Bool-cases (same y a)) [
    | inl h ↦ rw (h, (same_iff y a).0 h, e) refl
    | inr h ↦ rw h refl
  ];
  nodes = λ l. contains-insert l a n (record n { children = s }) g e;
}

set_parents-Edited :
    (b : Label) (n : Adjacent) (s : LabelSet) (g : Cfg)
    → get b g ≡ some n
    → Edited g
        (insert b (record n { parents = s }) g)
        (child g)
        (λ x y. if same y b then has x s else parent g x y)
set_parents-Edited b n s g e = record {
  as_child = λ x y. child-set b x y (record n { parents = s }) g ∙ elim (Bool-cases (same x b)) [
    | inl h ↦ rw (h, (same_iff x b).0 h, e) refl
    | inr h ↦ rw h refl
  ];
  as_parent = λ x y. parent-set b x y (record n { parents = s }) g;
  nodes = λ l. contains-insert l b n (record n { parents = s }) g e;
}

same_row :
    (a x : Label) (g : Cfg) (n : Adjacent)
    → get a g ≡ some n
    → same x a ≡ true
    → (y : Label) → child g x y ≡ has y n.children
same_row a x g n e h y = rw ((same_iff x a).0 h, e) refl

same_column :
    (b y : Label) (g : Cfg) (n : Adjacent)
    → get b g ≡ some n
    → same y b ≡ true
    → (x : Label) → parent g x y ≡ has x n.parents
same_column b y g n e h x = rw ((same_iff y b).0 h, e) refl

pub child_insert-Edited :
    (a b : Label) (g : Cfg)
    → contains a g ≡ true
    → (g' : Cfg) × (child_insert a b g ≡ some g')
      × Edited g g' (λ x y. (same x a && same y b) || child g x y) (parent g)
unfolding child_insert
child_insert-Edited a b g h =
    let (n, e) = contains-some a g h in
    let edit = set_children-Edited a n (insert b tt n.children) g e in
    (
      insert a (record n { children = insert b tt n.children }) g,
      rw e refl,
      record {
        as_child = λ x y.
            edit.as_child x y
            ∙ rw (has-insert y b n.children) (ground (arith, same_row a x g n e _ y));
        as_parent = edit.as_parent;
        nodes = edit.nodes;
      },
    )

pub child_remove-Edited :
    (a b : Label) (g : Cfg)
    → contains a g ≡ true
    → (g' : Cfg) × (child_remove a b g ≡ some g')
      × Edited g g' (λ x y. not (same x a && same y b) && child g x y) (parent g)
unfolding child_remove
child_remove-Edited a b g h =
    let (n, e) = contains-some a g h in
    let edit = set_children-Edited a n (remove b n.children) g e in
    (
      insert a (record n { children = remove b n.children }) g,
      rw e refl,
      record {
        as_child = λ x y.
            edit.as_child x y
            ∙ rw (has-remove y b n.children) (ground (arith, same_row a x g n e _ y));
        as_parent = edit.as_parent;
        nodes = edit.nodes;
      },
    )

pub parent_insert-Edited :
    (b a : Label) (g : Cfg)
    → contains b g ≡ true
    → (g' : Cfg) × (parent_insert b a g ≡ some g')
      × Edited g g' (child g) (λ x y. (same x a && same y b) || parent g x y)
unfolding parent_insert
parent_insert-Edited b a g h =
    let (n, e) = contains-some b g h in
    let edit = set_parents-Edited b n (insert a tt n.parents) g e in
    (
      insert b (record n { parents = insert a tt n.parents }) g,
      rw e refl,
      record {
        as_child = edit.as_child;
        as_parent = λ x y.
            edit.as_parent x y
            ∙ rw (has-insert x a n.parents) (ground (arith, same_column b y g n e _ x));
        nodes = edit.nodes;
      },
    )

pub parent_remove-Edited :
    (b a : Label) (g : Cfg)
    → contains b g ≡ true
    → (g' : Cfg) × (parent_remove b a g ≡ some g')
      × Edited g g' (child g) (λ x y. not (same x a && same y b) && parent g x y)
unfolding parent_remove
parent_remove-Edited b a g h =
    let (n, e) = contains-some b g h in
    let edit = set_parents-Edited b n (remove a n.parents) g e in
    (
      insert b (record n { parents = remove a n.parents }) g,
      rw e refl,
      record {
        as_child = edit.as_child;
        as_parent = λ x y.
            edit.as_parent x y
            ∙ rw (has-remove x a n.parents) (ground (arith, same_column b y g n e _ x));
        nodes = edit.nodes;
      },
    )

-- One edit after another, the second over the edges that the first left.
pub both :
    (first second : Cfg → Option Cfg) (g : Cfg) (c p : Label → Label → Bool)
    → (g' : Cfg) × (first g ≡ some g') × Edited g g' c (parent g)
    → ((g' : Cfg)
        → Edited g g' c (parent g)
        → (g'' : Cfg) × (second g' ≡ some g'') × Edited g' g'' (child g') p)
    → (g'' : Cfg) × ((first g >>= λ h. second h) ≡ some g'') × Edited g g'' c p
both first second g c p (g', e, one) next =
    let (g'', e', two) = next g' one in
    (
      g'',
      rw e e',
      record {
        as_child = λ x y. two.as_child x y ∙ one.as_child x y;
        as_parent = two.as_parent;
        nodes = λ l. two.nodes l ∙ one.nodes l;
      },
    )
