-- ===== src/Cfg/Wto/Traversals.antt =====
-- src/cfg/wto.rs: the iterative traversals visit what a recursive description says.
use prevail_rust.Base.Tests.{
  ℕ, zero, suc, ◌+◌, ◌≤◌, ◌<◌, ◌≡◌, refl, ap, ◌∙◌, Bool, true, false, ◌||◌, Option, none, some,
  List, [], ◌∷◌, ◌++◌, arith, Bool-cases, inl, inr,
}
use mathlib.Core.List.{append_assoc, append-nil}
use prevail_rust.Base.Maps.{same}
use prevail_rust.Cfg.Label.{Label, label_ord}
use prevail_rust.Cfg.Wto.{
  CycleOrLabel, WtoPartition, label, cycle, nil, cons, head, push_all, member_loop, size, sizes,
  is_component_member, push_cycles, heads_loop, visit_loop_heads,
}

-- Every cycle begins with a label: the only case in which `head` does not panic.
unfoldable mutual
  pub HasHeads : CycleOrLabel → Type 0
  HasHeads (label l) = Unit {0}
  HasHeads (cycle cs) = ((h : Label) × (head cs ≡ some h)) × AllHaveHeads cs

  pub AllHaveHeads : WtoPartition → Type 0
  AllHaveHeads nil = Unit {0}
  AllHaveHeads (cons c cs) = HasHeads c × AllHaveHeads cs

-- The label stands somewhere in the component.
mutual
  pub occurs : Label → CycleOrLabel → Bool
  occurs l (label k) = same k l
  occurs l (cycle cs) = occurs_in l cs

  pub occurs_in : Label → WtoPartition → Bool
  occurs_in l nil = false
  occurs_in l (cons c cs) = occurs l c || occurs_in l cs

abbrev occurs_stack : Label → List CycleOrLabel → Bool
occurs_stack l [] = false
occurs_stack l (c ∷ stack) = occurs l c || occurs_stack l stack

abbrev stack_size : List CycleOrLabel → ℕ
stack_size [] = 0
stack_size (c ∷ stack) = size c + stack_size stack

abbrev AllOnStack : List CycleOrLabel → Type 0
AllOnStack [] = Unit {0}
AllOnStack (c ∷ stack) = HasHeads c × AllOnStack stack

push_all-occurs :
    (l : Label) (cs : WtoPartition) (stack : List CycleOrLabel)
    → occurs_stack l (push_all cs stack) ≡ (occurs_in l cs || occurs_stack l stack)
unfolding occurs_in
push_all-occurs l nil stack = refl
push_all-occurs l (cons c cs) stack = ground (arith, push_all-occurs l cs stack)

push_all-size :
    (cs : WtoPartition) (stack : List CycleOrLabel)
    → stack_size (push_all cs stack) ≡ sizes cs + stack_size stack
unfolding sizes
push_all-size nil stack = omega arith
push_all-size (cons c cs) stack = omega (arith, push_all-size cs stack)

push_all-AllOnStack :
    (cs : WtoPartition) (stack : List CycleOrLabel)
    → AllHaveHeads cs
    → AllOnStack stack
    → AllOnStack (push_all cs stack)
unfolding AllHaveHeads
push_all-AllOnStack nil stack h a = a
push_all-AllOnStack (cons c cs) stack h a = (h.0, push_all-AllOnStack cs stack h.1 a)

-- The head is one of the components.
head-occurs_in :
    (l h : Label) (cs : WtoPartition) → head cs ≡ some h → same h l ≡ true → occurs_in l cs ≡ true
unfolding head occurs_in occurs
head-occurs_in l h nil e s = cc
head-occurs_in l h (cons (label k) nil) e s = ground (arith, e)
head-occurs_in l h (cons (cycle c) nil) e s = cc
head-occurs_in l h (cons c (cons d cs)) e s = rw (head-occurs_in l h (cons d cs) e s) (ground arith)

member_loop-occurs :
    (fuel : ℕ) (l : Label) (stack : List CycleOrLabel)
    → AllOnStack stack
    → stack_size stack < fuel
    → member_loop fuel l stack ≡ some (occurs_stack l stack)
unfolding member_loop occurs size HasHeads
member_loop-occurs zero l stack a f = absurd (omega arith)
member_loop-occurs (suc fuel) l [] a f = refl
member_loop-occurs (suc fuel) l (label k ∷ stack) a f =
    ground (arith, member_loop-occurs fuel l stack a.1)
member_loop-occurs (suc fuel) l (cycle cs ∷ stack) a f =
    let (h, e) = a.0.0 in
    let ih =
      member_loop-occurs fuel l (push_all cs stack) (push_all-AllOnStack cs stack (a.0.1) (a.1))
        (omega (arith, push_all-size cs stack)) in
    elim (Bool-cases (same h l)) [
      | inl found ↦ rw (e, found, head-occurs_in l h cs e found) refl
      | inr other ↦ rw (e, other, ih, push_all-occurs l cs stack) refl
    ]

-- For a component in which every cycle starts with a label, the search with an explicit stack
-- ends without a panic, within as many rounds as the component has parts and one more, and it
-- answers true exactly if the label stands somewhere in the component.
pub is_component_member-occurs :
    (l : Label) (component : CycleOrLabel)
    → HasHeads component
    → is_component_member l component ≡ some (occurs l component)
unfolding is_component_member
is_component_member-occurs l c h =
    member_loop-occurs (suc (size c)) l (c ∷ []) (h, tt) (omega arith)
    ∙ ap some (or_false (occurs l c))
  where
    or_false : (b : Bool) → (b || false) ≡ b
    or_false b = ground arith

abbrev pub own_head : Option Label → List Label
own_head none = []
own_head (some h) = h ∷ []

-- The heads of the cycles, each before those of the cycles inside.
mutual
  pub loop_heads : CycleOrLabel → List Label
  loop_heads (label l) = []
  loop_heads (cycle cs) = own_head (head cs) ++ loop_heads_in cs

  pub loop_heads_in : WtoPartition → List Label
  loop_heads_in nil = []
  loop_heads_in (cons c cs) = loop_heads c ++ loop_heads_in cs

abbrev heads_of_stack : List WtoPartition → List Label
heads_of_stack [] = []
heads_of_stack (cs ∷ stack) = own_head (head cs) ++ (loop_heads_in cs ++ heads_of_stack stack)

abbrev partitions_size : List WtoPartition → ℕ
partitions_size [] = 0
partitions_size (cs ∷ stack) = suc (sizes cs) + partitions_size stack

abbrev AllCycles : List WtoPartition → Type 0
AllCycles [] = Unit {0}
AllCycles (cs ∷ stack) = HasHeads (cycle cs) × AllCycles stack

push_cycles-heads :
    (cs : WtoPartition) (stack : List WtoPartition)
    → heads_of_stack (push_cycles cs stack) ≡ loop_heads_in cs ++ heads_of_stack stack
unfolding loop_heads_in loop_heads
push_cycles-heads nil stack = refl
push_cycles-heads (cons (label l) cs) stack = push_cycles-heads cs stack
push_cycles-heads (cons (cycle c) cs) stack = simp (push_cycles-heads cs stack, append_assoc)

push_cycles-size :
    (cs : WtoPartition) (stack : List WtoPartition)
    → partitions_size (push_cycles cs stack) ≤ sizes cs + partitions_size stack
unfolding sizes size
push_cycles-size nil stack = omega arith
push_cycles-size (cons (label l) cs) stack = omega (arith, push_cycles-size cs stack)
push_cycles-size (cons (cycle c) cs) stack = omega (arith, push_cycles-size cs stack)

push_cycles-AllCycles :
    (cs : WtoPartition) (stack : List WtoPartition)
    → AllHaveHeads cs
    → AllCycles stack
    → AllCycles (push_cycles cs stack)
unfolding AllHaveHeads HasHeads
push_cycles-AllCycles nil stack h a = a
push_cycles-AllCycles (cons (label l) cs) stack h a = push_cycles-AllCycles cs stack h.1 a
push_cycles-AllCycles (cons (cycle c) cs) stack h a = (h.0, push_cycles-AllCycles cs stack h.1 a)

heads_loop-heads :
    (fuel : ℕ) (stack : List WtoPartition)
    → AllCycles stack
    → partitions_size stack < fuel
    → heads_loop fuel stack ≡ some (heads_of_stack stack)
unfolding heads_loop HasHeads
heads_loop-heads zero stack a f = absurd (omega arith)
heads_loop-heads (suc fuel) [] a f = refl
heads_loop-heads (suc fuel) (cs ∷ stack) a f =
    let (h, e) = a.0.0 in
    rw
      (
        e,
        heads_loop-heads fuel (push_cycles cs stack) (push_cycles-AllCycles cs stack (a.0.1) (a.1))
            (omega (arith, push_cycles-size cs stack)),
        push_cycles-heads cs stack,
      )
      refl

-- For components in which every cycle starts with a label, the visit with an explicit stack ends
-- without a panic and calls its function with the heads of the cycles in the order of a
-- recursive descent: the components from the last to the first, and the head of a cycle before
-- the heads of the cycles inside it.
pub visit_loop_heads-heads :
    (components : WtoPartition)
    → AllHaveHeads components
    → visit_loop_heads components ≡ some (loop_heads_in components)
unfolding visit_loop_heads
visit_loop_heads-heads cs h =
    heads_loop-heads (suc (sizes cs)) (push_cycles cs []) (push_cycles-AllCycles cs [] h tt)
      (omega (arith, push_cycles-size cs []))
    ∙ ap some (push_cycles-heads cs [] ∙ append-nil (loop_heads_in cs))
