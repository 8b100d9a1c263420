-- ===== src/Cfg/Graph/Invariant.antt =====
-- src/cfg/graph.rs: what holds of every graph that is built by the public operations.
use prevail_rust.Base.Tests.{
  ◌≡◌, refl, sym, ap, ◌∙◌, Bool, true, false, not, ◌&&◌, ◌||◌, some, Bool-cases, inl, inr, arith,
  [],
}
use prevail_rust.Base.Maps.{get, insert, same, same_iff, same_self, get-insert}
use prevail_rust.Cfg.Label.{Label, label_ord, entry, exit}
use prevail_rust.Cfg.Graph.{
  Cfg, contains, child_insert, parent_insert, child_remove, parent_remove, add_child, remove_child,
  new, insert_label, isolated,
}
use prevail_rust.Cfg.Graph.Edges.{
  child, parent, child_insert-Edited, parent_insert-Edited, child_remove-Edited,
  parent_remove-Edited, both,
}

-- What an edge may join: nodes of the graph, and neither does it lead to the entry nor come from
-- the exit.
abbrev pub IsAllowed : Cfg → Label → Label → Type 0
IsAllowed g a b =
    (contains a g ≡ true) × (contains b g ≡ true) × (same b entry ≡ false) × (same a exit ≡ false)

pub record WellFormed (g : Cfg) : Type 0 where
  pub has_entry : contains entry g ≡ true
  pub has_exit : contains exit g ≡ true
  -- Both directions show the same edges.
  pub consistent : (a b : Label) → child g a b ≡ parent g a b
  pub allowed : (a b : Label) → child g a b ≡ true → IsAllowed g a b

-- An edit that does the same to both directions.
pub record Edges (g g' : Cfg) (c : Label → Label → Bool) : Type 0 where
  pub as_child : (x y : Label) → child g' x y ≡ c x y
  pub as_parent : (x y : Label) → parent g' x y ≡ c x y
  pub nodes : (l : Label) → contains l g' ≡ contains l g

pub add_child-Edges :
    (a b : Label) (g : Cfg)
    → WellFormed g
    → contains a g ≡ true
    → contains b g ≡ true
    → same b entry ≡ false
    → same a exit ≡ false
    → (g' : Cfg) × (add_child a b g ≡ some g')
      × Edges g g' (λ x y. (same x a && same y b) || child g x y)
unfolding add_child
add_child-Edges a b g w ha hb h h' =
    let (g', e, edit) =
      both (child_insert a b) (parent_insert b a) g (λ x y. (same x a && same y b) || child g x y)
        (λ x y. (same x a && same y b) || parent g x y) (child_insert-Edited a b g ha)
        (λ g₁ one.
          let (g₂, e₂, two) = parent_insert-Edited b a g₁ (one.nodes b ∙ hb) in
          (
            g₂,
            e₂,
            record {
              as_child = two.as_child;
              as_parent = λ x y.
                  two.as_parent x y ∙ ap (λ t. (same x a && same y b) || t) (one.as_parent x y);
              nodes = two.nodes;
            },
          )) in
    (
      g',
      rw (h, h') e,
      record {
        as_child = edit.as_child;
        as_parent = λ x y.
            edit.as_parent x y ∙ ap (λ t. (same x a && same y b) || t) (sym (w.consistent x y));
        nodes = edit.nodes;
      },
    )

pub remove_child-Edges :
    (a b : Label) (g : Cfg)
    → WellFormed g
    → contains a g ≡ true
    → contains b g ≡ true
    → (g' : Cfg) × (remove_child a b g ≡ some g')
      × Edges g g' (λ x y. not (same x a && same y b) && child g x y)
unfolding remove_child
remove_child-Edges a b g w ha hb =
    let (g', e, edit) =
      both (child_remove a b) (parent_remove b a) g
        (λ x y. not (same x a && same y b) && child g x y)
        (λ x y. not (same x a && same y b) && parent g x y) (child_remove-Edited a b g ha)
        (λ g₁ one.
          let (g₂, e₂, two) = parent_remove-Edited b a g₁ (one.nodes b ∙ hb) in
          (
            g₂,
            e₂,
            record {
              as_child = two.as_child;
              as_parent = λ x y.
                  two.as_parent x y ∙ ap (λ t. not (same x a && same y b) && t) (one.as_parent x y);
              nodes = two.nodes;
            },
          )) in
    (
      g',
      e,
      record {
        as_child = edit.as_child;
        as_parent = λ x y.
            edit.as_parent x y ∙ ap (λ t. not (same x a && same y b) && t) (sym (w.consistent x y));
        nodes = edit.nodes;
      },
    )

-- An edit is sound if it leaves allowed edges only.
Edges-WellFormed :
    (g g' : Cfg) (c : Label → Label → Bool)
    → WellFormed g
    → Edges g g' c
    → ((x y : Label) → c x y ≡ true → IsAllowed g x y)
    → WellFormed g'
Edges-WellFormed g g' c w e ok = record {
  has_entry = e.nodes entry ∙ w.has_entry;
  has_exit = e.nodes exit ∙ w.has_exit;
  consistent = λ a b. e.as_child a b ∙ sym (e.as_parent a b);
  allowed = λ a b h.
      let (ha, hb, he, hx) = ok a b (sym (e.as_child a b) ∙ h) in
      (e.nodes a ∙ ha, e.nodes b ∙ hb, he, hx);
}

at_edge :
    (a b x y : Label) (g : Cfg)
    → IsAllowed g a b
    → same x a ≡ true
    → same y b ≡ true
    → IsAllowed g x y
at_edge a b x y g ok p q = rw ((same_iff x a).0 p, (same_iff y b).0 q) ok

-- For a well-formed graph and two of its labels, of which the first is not the exit and the
-- second not the entry, add_child does not panic and gives a well-formed graph over the same
-- nodes, with the edges that there were and the one between the two labels.
pub add_child-WellFormed :
    (a b : Label) (g : Cfg)
    → WellFormed g
    → IsAllowed g a b
    → (g' : Cfg) × (add_child a b g ≡ some g')
      × WellFormed g'
      × ((x y : Label) → child g' x y ≡ ((same x a && same y b) || child g x y))
      × ((l : Label) → contains l g' ≡ contains l g)
add_child-WellFormed a b g w (ha, hb, he, hx) =
    let (g', e, edit) = add_child-Edges a b g w ha hb he hx in
    (
      g',
      e,
      Edges-WellFormed g g' (λ x y. (same x a && same y b) || child g x y) w edit
          (λ x y h. elim (Bool-cases (same x a && same y b)) [
            | inl here ↦ at_edge a b x y g (ha, hb, he, hx) (ground arith) (ground arith)
            | inr other ↦ w.allowed x y (ground arith)
          ]),
      edit.as_child,
      edit.nodes,
    )

-- For a well-formed graph and two of its labels, remove_child does not panic and gives a well-
-- formed graph over the same nodes, with the edges that there were except the one between the
-- two labels.
pub remove_child-WellFormed :
    (a b : Label) (g : Cfg)
    → WellFormed g
    → contains a g ≡ true
    → contains b g ≡ true
    → (g' : Cfg) × (remove_child a b g ≡ some g')
      × WellFormed g'
      × ((x y : Label) → child g' x y ≡ (not (same x a && same y b) && child g x y))
      × ((l : Label) → contains l g' ≡ contains l g)
remove_child-WellFormed a b g w ha hb =
    let (g', e, edit) = remove_child-Edges a b g w ha hb in
    (
      g',
      e,
      Edges-WellFormed g g' (λ x y. not (same x a && same y b) && child g x y) w edit
          (λ x y h. w.allowed x y (ground arith)),
      edit.as_child,
      edit.nodes,
    )

contains-isolated :
    (x l : Label) (g : Cfg) → contains x (insert l isolated g) ≡ (same x l || contains x g)
unfolding contains
contains-isolated x l g = rw (get-insert x l isolated g) (ground arith)

child-isolated :
    (l x y : Label) (g : Cfg) → contains l g ≡ false → child (insert l isolated g) x y ≡ child g x y
unfolding contains get
child-isolated l x y g h = rw (get-insert x l isolated g) (elim (Bool-cases (same x l)) [
  | inl p ↦ rw (p, (same_iff x l).0 p) (ground arith)
  | inr p ↦ rw p refl
])

parent-isolated :
    (l x y : Label) (g : Cfg)
    → contains l g ≡ false
    → parent (insert l isolated g) x y ≡ parent g x y
unfolding contains get
parent-isolated l x y g h = rw (get-insert y l isolated g) (elim (Bool-cases (same y l)) [
  | inl p ↦ rw (p, (same_iff y l).0 p) (ground arith)
  | inr p ↦ rw p refl
])

-- A label that is not in the graph becomes a node without edges.
pub insert_label-WellFormed :
    (l : Label) (g : Cfg)
    → WellFormed g
    → contains l g ≡ false
    → (g' : Cfg) × (insert_label l g ≡ some g')
      × WellFormed g'
      × ((x y : Label) → child g' x y ≡ child g x y)
      × ((x : Label) → contains x g' ≡ (same x l || contains x g))
unfolding insert_label
insert_label-WellFormed l g w h = (
  insert l isolated g,
  rw h refl,
  record {
    has_entry = contains-isolated entry l g ∙ ground (arith, w.has_entry);
    has_exit = contains-isolated exit l g ∙ ground (arith, w.has_exit);
    consistent =
        λ a b. child-isolated l a b g h ∙ w.consistent a b ∙ sym (parent-isolated l a b g h);
    allowed = λ a b k.
        let (ha, hb, he, hx) = w.allowed a b (sym (child-isolated l a b g h) ∙ k) in
        (contains-isolated a l g ∙ ground arith, contains-isolated b l g ∙ ground arith, he, hx);
  },
  λ x y. child-isolated l x y g h,
  λ x. contains-isolated x l g,
)

pub new-child : (x y : Label) → child new x y ≡ false
unfolding new get
new-child x y =
    rw (get-insert x exit isolated (insert entry isolated []), get-insert x entry isolated [])
      (ground arith)

new-parent : (x y : Label) → parent new x y ≡ false
unfolding new get
new-parent x y =
    rw (get-insert y exit isolated (insert entry isolated []), get-insert y entry isolated [])
      (ground arith)

-- The graph that the others are built from.
pub new-WellFormed : WellFormed new
unfolding new contains
new-WellFormed = record {
  has_entry =
      rw
        (
          get-insert entry exit isolated (insert entry isolated []),
          get-insert entry entry isolated [],
          same_self entry,
        )
        (ground arith);
  has_exit = rw (get-insert exit exit isolated (insert entry isolated []), same_self exit) refl;
  consistent = λ a b. new-child a b ∙ sym (new-parent a b);
  allowed = λ a b h. absurd (cc (h, new-child a b));
}
