-- ===== src/Cfg/Graph/Adjacency.antt =====
-- src/cfg/graph.rs: the graph of an adjacency list.
use prevail_rust.Base.Tests.{
  ◌≡◌, refl, ap, ◌∙◌, Bool, true, false, not, ◌&&◌, ◌||◌, Option, some, if◌then◌else◌, ◌>>=◌,
  Bool-cases, inl, inr, arith, List, [], ◌∷◌,
}
use prevail_rust.Base.Maps.{get, insert, same, same_iff, same_self, get-insert}
use prevail_rust.Cfg.Label.{Label, label_ord, entry, exit}
use prevail_rust.Cfg.Graph.{Cfg, new, isolated, contains, add_child, insert_label}
use prevail_rust.Cfg.Graph.Edges.{child}
use prevail_rust.Cfg.Graph.Splice.{mem}
use prevail_rust.Cfg.Graph.Invariant.{
  WellFormed, IsAllowed, add_child-WellFormed, insert_label-WellFormed, new-WellFormed, new-child,
}

-- A node is inserted unless it is there; the entry and the exit are.
unfoldable pub ensure : Label → Cfg → Option Cfg
ensure l g =
    if not (same l entry) && (not (same l exit) && not (contains l g))
    then insert_label l g
    else some g

unfoldable pub ensure_children : List Label → Cfg → Option Cfg
ensure_children [] g = some g
ensure_children (child ∷ children) g = ensure child g >>= λ g'. ensure_children children g'

unfoldable pub insert_labels : List (Label × List Label) → Cfg → Option Cfg
insert_labels [] g = some g
insert_labels ((label, children) ∷ adj) g =
    ensure label g >>= λ g'. ensure_children children g' >>= λ g''. insert_labels adj g''

unfoldable pub add_children : Label → List Label → Cfg → Option Cfg
add_children label [] g = some g
add_children label (child ∷ children) g =
    add_child label child g >>= λ g'. add_children label children g'

unfoldable pub add_edges : List (Label × List Label) → Cfg → Option Cfg
add_edges [] g = some g
add_edges ((label, children) ∷ adj) g = add_children label children g >>= λ g'. add_edges adj g'

unfoldable pub cfg_from_adjacency_list : List (Label × List Label) → Option Cfg
unfolding ensure ensure_children insert_labels add_children add_edges
cfg_from_adjacency_list adj = insert_labels adj new >>= λ g. add_edges adj g

-- A label that the list names, and an edge that it lists.
abbrev pub named : Label → List (Label × List Label) → Bool
named x [] = false
named x ((label, children) ∷ adj) = same x label || (mem x children || named x adj)

abbrev pub listed : Label → Label → List (Label × List Label) → Bool
listed x y [] = false
listed x y ((label, children) ∷ adj) = (same x label && mem y children) || listed x y adj

-- No edge of the list leads to the entry or comes from the exit.
abbrev pub IsLegal : List (Label × List Label) → Type 0
IsLegal adj = (x y : Label) → listed x y adj ≡ true → (same y entry ≡ false) × (same x exit ≡ false)

-- A larger graph.
record Grown (g g' : Cfg) (nodes : Label → Bool) (edges : Label → Label → Bool) : Type 0 where
  well_formed : WellFormed g'
  children : (x y : Label) → child g' x y ≡ (edges x y || child g x y)
  contained : (x : Label) → contains x g' ≡ (nodes x || contains x g)

abbrev Grows : (Cfg → Option Cfg) → Cfg → (Label → Bool) → (Label → Label → Bool) → Type 0
Grows step g nodes edges = (g' : Cfg) × (step g ≡ some g') × Grown g g' nodes edges

then_Grows :
    (first second : Cfg → Option Cfg) (g : Cfg) (n m : Label → Bool) (c d : Label → Label → Bool)
    → Grows first g n c
    → ((g' : Cfg) → Grown g g' n c → Grows second g' m d)
    → Grows (λ h. first h >>= λ h'. second h') g (λ x. n x || m x) (λ x y. c x y || d x y)
then_Grows first second g n m c d (g', e, one) next =
    let (g'', e', two) = next g' one in
    (
      g'',
      rw e e',
      record {
        well_formed = two.well_formed;
        children = λ x y. two.children x y ∙ rw (one.children x y) (ground arith);
        contained = λ x. two.contained x ∙ rw (one.contained x) (ground arith);
      },
    )

stay : (g : Cfg) → WellFormed g → Grown g g (λ x. false) (λ x y. false)
stay g w = record { well_formed = w; children = λ x y. refl; contained = λ x. refl }

at_node : (x l : Label) (g : Cfg) → contains l g ≡ true → contains x g ≡ (same x l || contains x g)
at_node x l g h = elim (Bool-cases (same x l)) [
  | inl e ↦ rw ((same_iff x l).0 e, h) (ground arith)
  | inr e ↦ rw e refl
]

known :
    (l : Label) (g : Cfg)
    → WellFormed g
    → (not (same l entry) && (not (same l exit) && not (contains l g))) ≡ false
    → contains l g ≡ true
known l g w h = elim (Bool-cases (same l entry)) [
  | inl e ↦ rw ((same_iff l entry).0 e) w.has_entry
  | inr e ↦ elim (Bool-cases (same l exit)) [
    | inl x ↦ rw ((same_iff l exit).0 x) w.has_exit
    | inr x ↦ ground arith
  ]
]

ensure-Grows :
    (l : Label) (g : Cfg) → WellFormed g → Grows (ensure l) g (λ x. same x l) (λ x y. false)
unfolding ensure
ensure-Grows l g w =
    elim (Bool-cases (not (same l entry) && (not (same l exit) && not (contains l g)))) [
      | inl h ↦
          let (g', e, w', c, n) = insert_label-WellFormed l g w (ground arith) in
          (g', rw h e, record { well_formed = w'; children = c; contained = n })
      | inr h ↦ (
        g,
        rw h refl,
        record {
          well_formed = w;
          children = λ x y. refl;
          contained = λ x. at_node x l g (known l g w h);
        },
      )
    ]

ensure_children-Grows :
    (ks : List Label) (g : Cfg)
    → WellFormed g
    → Grows (ensure_children ks) g (λ x. mem x ks) (λ x y. false)
unfolding ensure_children
ensure_children-Grows [] g w = (g, refl, stay g w)
ensure_children-Grows (k ∷ ks) g w =
    then_Grows (ensure k) (ensure_children ks) g (λ x. same x k) (λ x. mem x ks) (λ x y. false)
      (λ x y. false) (ensure-Grows k g w) (λ g' one. ensure_children-Grows ks g' one.well_formed)

insert_labels-Grows :
    (adj : List (Label × List Label)) (g : Cfg)
    → WellFormed g
    → Grows (insert_labels adj) g (λ x. named x adj) (λ x y. false)
unfolding insert_labels
insert_labels-Grows [] g w = (g, refl, stay g w)
insert_labels-Grows ((label, ks) ∷ adj) g w =
    then_Grows (ensure label) (λ g'. ensure_children ks g' >>= λ g''. insert_labels adj g'') g
      (λ x. same x label) (λ x. mem x ks || named x adj) (λ x y. false) (λ x y. false)
      (ensure-Grows label g w)
      (λ g' one.
        then_Grows (ensure_children ks) (insert_labels adj) g' (λ x. mem x ks) (λ x. named x adj)
          (λ x y. false) (λ x y. false) (ensure_children-Grows ks g' one.well_formed)
          (λ g'' two. insert_labels-Grows adj g'' two.well_formed))

-- The edges of a step, described in another way.
same_edges :
    (step : Cfg → Option Cfg) (g : Cfg) (n : Label → Bool) (c d : Label → Label → Bool)
    → Grows step g n c
    → ((x y : Label) → c x y ≡ d x y)
    → Grows step g n d
same_edges step g n c d (g', e, one) h = (
  g',
  e,
  record {
    well_formed = one.well_formed;
    children = λ x y. one.children x y ∙ ap (λ t. t || child g x y) (h x y);
    contained = one.contained;
  },
)

IsAllowed-Grown :
    (g g' : Cfg) (c : Label → Label → Bool)
    → Grown g g' (λ x. false) c
    → (a b : Label) → IsAllowed g a b
    → IsAllowed g' a b
IsAllowed-Grown g g' c one a b ok = (one.contained a ∙ ok.0, one.contained b ∙ ok.1, ok.2, ok.3)

add_children-Grows :
    (label : Label) (ks : List Label) (g : Cfg)
    → WellFormed g
    → ((y : Label) → mem y ks ≡ true → IsAllowed g label y)
    → Grows (add_children label ks) g (λ x. false) (λ x y. same x label && mem y ks)
unfolding add_children
add_children-Grows label [] g w ok =
    (g, refl, record { well_formed = w; children = λ x y. ground arith; contained = λ x. refl })
add_children-Grows label (k ∷ ks) g w ok =
    same_edges (λ h. add_child label k h >>= λ h'. add_children label ks h') g (λ x. false)
      (λ x y. (same x label && same y k) || (same x label && mem y ks))
      (λ x y. same x label && mem y (k ∷ ks))
      (then_Grows (add_child label k) (add_children label ks) g (λ x. false) (λ x. false)
        (λ x y. same x label && same y k) (λ x y. same x label && mem y ks)
        (one_child (add_child-WellFormed label k g w (ok k (rw (same_self k) refl))))
        (λ g' one. add_children-Grows label ks g' one.well_formed (λ y m.
          IsAllowed-Grown g g' (λ x y. same x label && same y k) one label y
            (ok y (ground arith)))))
      (λ x y. ground arith)
  where
    one_child :
        (g' : Cfg) × (add_child label k g ≡ some g')
          × WellFormed g'
          × ((x y : Label) → child g' x y ≡ ((same x label && same y k) || child g x y))
          × ((l : Label) → contains l g' ≡ contains l g)
        → Grows (add_child label k) g (λ x. false) (λ x y. same x label && same y k)
    one_child (g', e, w', c, n) = (g', e, record { well_formed = w'; children = c; contained = n })

add_edges-Grows :
    (adj : List (Label × List Label)) (g : Cfg)
    → WellFormed g
    → ((x y : Label) → listed x y adj ≡ true → IsAllowed g x y)
    → Grows (add_edges adj) g (λ x. false) (λ x y. listed x y adj)
unfolding add_edges
add_edges-Grows [] g w ok = (g, refl, stay g w)
add_edges-Grows ((label, ks) ∷ adj) g w ok =
    then_Grows (add_children label ks) (add_edges adj) g (λ x. false) (λ x. false)
      (λ x y. same x label && mem y ks) (λ x y. listed x y adj)
      (add_children-Grows label ks g w (λ y m. ok label y (rw (same_self label, m) refl)))
      (λ g' one. add_edges-Grows adj g' one.well_formed (λ x y m.
        IsAllowed-Grown g g' (λ x y. same x label && mem y ks) one x y (ok x y (ground arith))))

-- What the list lists, it names.
named-source :
    (x y : Label) (adj : List (Label × List Label)) → listed x y adj ≡ true → named x adj ≡ true
named-source x y [] h = cc
named-source x y ((label, ks) ∷ adj) h = ground (arith, named-source x y adj)

named-target :
    (x y : Label) (adj : List (Label × List Label)) → listed x y adj ≡ true → named y adj ≡ true
named-target x y [] h = cc
named-target x y ((label, ks) ∷ adj) h = ground (arith, named-target x y adj)

contains-new : (l : Label) → contains l new ≡ (same l entry || same l exit)
unfolding contains new get
contains-new l =
    rw (get-insert l exit isolated (insert entry isolated []), get-insert l entry isolated [])
      (ground arith)

-- For an adjacency list in which no edge leads to the entry or comes from the exit, the
-- construction of the graph does not panic. The graph is well formed, its edges are exactly
-- those that the list lists, and its nodes are the labels that the list names, the entry and the
-- exit.
pub cfg_from_adjacency_list-WellFormed :
    (adj : List (Label × List Label))
    → IsLegal adj
    → (g : Cfg) × (cfg_from_adjacency_list adj ≡ some g)
      × WellFormed g
      × ((x y : Label) → child g x y ≡ listed x y adj)
      × ((x : Label) → contains x g ≡ (named x adj || (same x entry || same x exit)))
unfolding cfg_from_adjacency_list
cfg_from_adjacency_list-WellFormed adj legal =
    let (g₁, e₁, one) = insert_labels-Grows adj new new-WellFormed in
    let (g₂, e₂, two) = add_edges-Grows adj g₁ one.well_formed (λ x y m. (
      one.contained x ∙ rw (named-source x y adj m) refl,
      one.contained y ∙ rw (named-target x y adj m) refl,
      (legal x y m).0,
      (legal x y m).1,
    )) in
    (
      g₂,
      rw e₁ e₂,
      two.well_formed,
      λ x y. two.children x y ∙ rw (one.children x y, new-child x y) (ground arith),
      λ x. two.contained x ∙ one.contained x ∙ ap (λ t. named x adj || t) (contains-new x),
    )
