-- ===== src/Cfg/Graph/Splice.antt =====
-- src/cfg/graph.rs: `insert_after`, which puts a new node between a node and its children.
use prevail_rust.Base.Tests.{
  ◌≡◌, refl, sym, ap, ◌∙◌, Bool, true, false, not, ◌&&◌, ◌||◌, Option, none, some, if◌then◌else◌,
  Bool-cases, Option-cases, inl, inr, arith, List, [], ◌∷◌,
}
use prevail_rust.Base.Maps.{get, same, same_iff, same_self, same_sym}
use prevail_rust.Cfg.Label.{Label, label_ord, entry, exit}
use prevail_rust.Cfg.Graph.{
  Cfg, LabelSet, Adjacent, has, is_some, keys, contains, insert_label, disown, rewire, insert_after,
  set_children,
}
use prevail_rust.Cfg.Graph.Edges.{
  child, parent, Edited, contains-some, parent_remove-Edited, set_children-Edited,
}
use prevail_rust.Cfg.Graph.Invariant.{
  WellFormed, IsAllowed, add_child-WellFormed, insert_label-WellFormed,
}

abbrev pub mem : Label → List Label → Bool
mem y [] = false
mem y (k ∷ ks) = same y k || mem y ks

abbrev pub nonempty : List Label → Bool
nonempty [] = false
nonempty (k ∷ ks) = true

mem-keys : (y : Label) (s : LabelSet) → mem y (keys s) ≡ has y s
unfolding get
mem-keys y [] = refl
mem-keys y ((k, u) ∷ s) = rw (mem-keys y s) (ground arith)

-- The first loop takes `prev` from the parents of its children.
disown-Edited :
    (prev : Label) (ks : List Label) (g : Cfg)
    → ((k : Label) → mem k ks ≡ true → contains k g ≡ true)
    → (g' : Cfg) × (disown prev ks g ≡ some g')
      × Edited g g' (child g) (λ x y. not (same x prev && mem y ks) && parent g x y)
unfolding disown
disown-Edited prev [] g h =
    (g, refl, record { as_child = λ x y. refl; as_parent = λ x y. ground arith; nodes = λ l. refl })
disown-Edited prev (k ∷ ks) g h =
    let (g', e, one) = parent_remove-Edited k prev g (h k (rw (same_self k) refl)) in
    let (g'', e', rest) = disown-Edited prev ks g' (λ j m. one.nodes j ∙ h j (ground arith)) in
    (
      g'',
      rw e e',
      record {
        as_child = λ x y. rest.as_child x y ∙ one.as_child x y;
        as_parent = λ x y. rest.as_parent x y ∙ rw (one.as_parent x y) (ground arith);
        nodes = λ l. rest.nodes l ∙ one.nodes l;
      },
    )

-- The second loop links prev, the new label and each of the former children.
rewire-WellFormed :
    (prev label : Label) (ks : List Label) (g : Cfg)
    → WellFormed g
    → (nonempty ks ≡ true → IsAllowed g prev label)
    → ((k : Label) → mem k ks ≡ true → IsAllowed g label k)
    → (g' : Cfg) × (rewire prev label ks g ≡ some g')
      × WellFormed g'
      × ((x y : Label)
          → child g' x y ≡ (
              (nonempty ks && (same x prev && same y label))
              || ((same x label && mem y ks) || child g x y)))
      × ((l : Label) → contains l g' ≡ contains l g)
unfolding rewire
rewire-WellFormed prev label [] g w to from = (g, refl, w, λ x y. ground arith, λ l. refl)
rewire-WellFormed prev label (k ∷ ks) g w to from =
    let (g₁, e₁, w₁, c₁, n₁) = add_child-WellFormed prev label g w (to refl) in
    let keep₁ : (a b : Label) → IsAllowed g a b → IsAllowed g₁ a b =
      λ a b ok. (n₁ a ∙ ok.0, n₁ b ∙ ok.1, ok.2, ok.3) in
    let (g₂, e₂, w₂, c₂, n₂) =
      add_child-WellFormed label k g₁ w₁ (keep₁ label k (from k (rw (same_self k) refl))) in
    let keep₂ : (a b : Label) → IsAllowed g₁ a b → IsAllowed g₂ a b =
      λ a b ok. (n₂ a ∙ ok.0, n₂ b ∙ ok.1, ok.2, ok.3) in
    let (g', e', w', c', n') =
      rewire-WellFormed prev label ks g₂ w₂ (λ m. keep₂ prev label (keep₁ prev label (to refl)))
        (λ j m. keep₂ label j (keep₁ label j (from j (ground arith)))) in
    (
      g',
      rw (e₁, e₂) e',
      w',
      λ x y. c' x y ∙ rw (c₂ x y, c₁ x y) (ground arith),
      λ l. n' l ∙ n₂ l ∙ n₁ l,
    )

-- The state between the loops: prev has lost its children, in both directions.
cut-WellFormed :
    (prev : Label) (n : Adjacent) (g : Cfg)
    → WellFormed g
    → get prev g ≡ some n
    → (g' : Cfg) × (disown prev (keys n.children) (set_children prev [] n g) ≡ some g')
      × WellFormed g'
      × ((x y : Label) → child g' x y ≡ (not (same x prev) && child g x y))
      × ((l : Label) → contains l g' ≡ contains l g)
unfolding get
cut-WellFormed prev n g w e =
    let first = set_children-Edited prev n [] g e in
    let is_child : (y : Label) → child g prev y ≡ mem y (keys n.children) =
      λ y. rw e (sym (mem-keys y n.children)) in
    let (g', e', second) =
      disown-Edited prev (keys n.children) (set_children prev [] n g)
        (λ k m. first.nodes k ∙ (w.allowed prev k (is_child k ∙ m)).1) in
    let edges : (x y : Label) → child g' x y ≡ (not (same x prev) && child g x y) =
      λ x y. second.as_child x y ∙ first.as_child x y ∙ ground arith in
    let back : (x y : Label) → parent g' x y ≡ (not (same x prev) && child g x y) = λ x y.
      second.as_parent x y
      ∙ rw (first.as_parent x y, ← w.consistent x y)
          (elim (Bool-cases (same x prev)) [
            | inl h ↦ rw (h, (same_iff x prev).0 h, is_child y) (ground arith)
            | inr h ↦ rw h refl
          ]) in
    let nodes : (l : Label) → contains l g' ≡ contains l g = λ l. second.nodes l ∙ first.nodes l in
    (
      g',
      e',
      record {
        has_entry = nodes entry ∙ w.has_entry;
        has_exit = nodes exit ∙ w.has_exit;
        consistent = λ a b. edges a b ∙ sym (back a b);
        allowed = λ a b h.
            let (ha, hb, he, hx) = w.allowed a b (ground (arith, edges a b)) in
            (nodes a ∙ ha, nodes b ∙ hb, he, hx);
      },
      edges,
      nodes,
    )

-- `prev` has a child.
abbrev pub is_inner : Label → Cfg → Bool
is_inner prev g = row (get prev g)
  where
    row : Option Adjacent → Bool
    row none = false
    row (some n) = nonempty (keys n.children)

distinct : (a b : Label) (g : Cfg) → contains a g ≡ true → contains b g ≡ false → same a b ≡ false
distinct a b g ha hb = elim (Bool-cases (same a b)) [
  | inl h ↦ absurd (cc (ha, hb, (same_iff a b).0 h))
  | inr h ↦ h
]

some_child : (ks : List Label) → nonempty ks ≡ true → (k : Label) × (mem k ks ≡ true)
some_child [] h = cc
some_child (k ∷ ks) h = (k, rw (same_self k) refl)

no_edges : (l y : Label) (g : Cfg) → contains l g ≡ false → child g l y ≡ false
unfolding contains
no_edges l y g h = elim (Option-cases (get l g)) [
  | inl missing ↦ rw missing refl
  | inr (n, found) ↦ absurd (cc (h, ap is_some found))
]

-- The edges after the second loop, read case by case.
splice_edges :
    (x y prev label : Label) (n : Adjacent) (g : Cfg)
    → get prev g ≡ some n
    → same prev label ≡ false
    → contains label g ≡ false
    → ((nonempty (keys n.children) && (same x prev && same y label))
        || ((same x label && mem y (keys n.children)) || (not (same x prev) && child g x y)))
      ≡ (if same x prev
          then is_inner prev g && same y label
          else if same x label
          then child g prev y
          else child g x y)
splice_edges x y prev label n g e apart fresh = rw e (elim (Bool-cases (same x prev)) [
  | inl p ↦
      let q : same x label ≡ false = rw ((same_iff x prev).0 p) apart in rw (p, q) (ground arith)
  | inr p ↦ elim (Bool-cases (same x label)) [
    | inl q ↦
        let none_from : child g x y ≡ false =
          rw ((same_iff x label).0 q) (no_edges label y g fresh) in
        rw (p, q, none_from, mem-keys y n.children) (ground arith)
    | inr q ↦ rw (p, q) (ground arith)
  ]
])

insert_after_steps :
    (prev label : Label) (n : Adjacent) (g g₁ g₂ g' : Cfg)
    → same prev label ≡ false
    → get prev g ≡ some n
    → disown prev (keys n.children) (set_children prev [] n g) ≡ some g₁
    → insert_label label g₁ ≡ some g₂
    → rewire prev label (keys n.children) g₂ ≡ some g'
    → insert_after prev label g ≡ some g'
unfolding insert_after
insert_after_steps prev label n g g₁ g₂ g' apart e e₁ e₂ e' = rw (apart, e, e₁, e₂) e'

-- For a well-formed graph, a label of it and a label that is not in it, insert_after does not
-- panic and gives a well-formed graph with the new label as its one further node. The new label
-- gets the children that the old one had, the old one has the new label as its only child if it
-- had a child and none otherwise, and every other edge stays.
pub insert_after-WellFormed :
    (prev label : Label) (g : Cfg)
    → WellFormed g
    → contains prev g ≡ true
    → contains label g ≡ false
    → (g' : Cfg) × (insert_after prev label g ≡ some g')
      × WellFormed g'
      × ((x y : Label)
          → child g' x y ≡ (
              if same x prev
              then is_inner prev g && same y label
              else if same x label
              then child g prev y
              else child g x y))
      × ((l : Label) → contains l g' ≡ (same l label || contains l g))
insert_after-WellFormed prev label g w hp hl =
    let (n, e) = contains-some prev g hp in
    let ks = keys n.children in
    let is_child : (y : Label) → child g prev y ≡ mem y ks =
      λ y. rw e (sym (mem-keys y n.children)) in
    let (g₁, e₁, w₁, c₁, n₁) = cut-WellFormed prev n g w e in
    let (g₂, e₂, w₂, c₂, n₂) = insert_label-WellFormed label g₁ w₁ (n₁ label ∙ hl) in
    let apart : same prev label ≡ false = distinct prev label g hp hl in
    let in₂ : (l : Label) → contains l g ≡ true → contains l g₂ ≡ true =
      λ l h. n₂ l ∙ rw (n₁ l, h) (ground arith) in
    let new₂ : contains label g₂ ≡ true = n₂ label ∙ rw (same_self label) refl in
    let from_label : same label exit ≡ false =
      same_sym label exit ∙ distinct exit label g w.has_exit hl in
    let to_label : same label entry ≡ false =
      same_sym label entry ∙ distinct entry label g w.has_entry hl in
    let (g', e', w', c', n') =
      rewire-WellFormed prev label ks g₂ w₂
        (λ m.
          let (k, hk) = some_child ks m in
          let (ha, hb, he, hx) = w.allowed prev k (is_child k ∙ hk) in
          (in₂ prev hp, new₂, to_label, hx))
        (λ k hk.
          let (ha, hb, he, hx) = w.allowed prev k (is_child k ∙ hk) in
          (new₂, in₂ k hb, he, from_label)) in
    (
      g',
      insert_after_steps prev label n g g₁ g₂ g' apart e e₁ e₂ e',
      w',
      λ x y.
          c' x y
          ∙ ap
              (λ t.
                (nonempty ks && (same x prev && same y label)) || ((same x label && mem y ks) || t))
              (c₂ x y ∙ c₁ x y)
          ∙ splice_edges x y prev label n g e apart hl,
      λ l. n' l ∙ n₂ l ∙ ap (λ t. same l label || t) (n₁ l),
    )
