-- ===== src/Cfg/Label.antt =====
-- src/cfg/label.rs: the nodes of the control-flow graph, their order and the offsets of jumps. A
-- string is the list of its code points, whose order is that of the bytes of the string.
use Prim.Native.Nat.{Ordering, compare}
use prevail_rust.Base.Tests.{
  ℕ, zero, suc, ◌+◌, ◌-◌, ◌*◌, ◌/◌, ◌%◌, ◌^◌, ◌≤◌, ◌<◌, ◌≡◌, ◌↔◌, refl, ap, ◌∙◌, sym, Bool, true,
  false, not, ◌&&◌, List, [], ◌∷◌, if◌then◌else◌, ◌==◌, ltb, arith, Bool-cases, inl, inr,
}
use prevail_rust.Base.Lists.{length}
use prevail_rust.Base.Int.{
  ℤ, pos, negsuc, pos_part, neg_part, ◌-ℤ◌, ◌+ℤ◌, leb_ℤ, ltb_ℤ, eqb_ℤ, eq_of_parts,
}
use prevail_rust.Base.Maps.{Ord, compare_iff, by_order}
use prevail_rust.Ir.Isa.{bits, signed}
pub mod Offset

abbrev pub Text : Type 0
Text = List ℕ

pub record Label : Type 0 where
  pub stack_frame_prefix : Text
  pub from : ℤ
  pub to : ℤ
  pub special_label : Text

abbrev i32_max : ℤ
i32_max = pos (2 ^ 31 - 1)

abbrev pub entry : Label
entry = record { stack_frame_prefix = []; from = negsuc 0; to = negsuc 0; special_label = [] }

abbrev pub exit : Label
exit = record { stack_frame_prefix = []; from = i32_max; to = i32_max; special_label = [] }

unfoldable pub new : ℤ → Label
new index = record { stack_frame_prefix = []; from = index; to = negsuc 0; special_label = [] }

unfoldable pub new_with_to : ℤ → ℤ → Label
new_with_to index to = record { stack_frame_prefix = []; from = index; to = to; special_label = [] }

unfoldable pub new_full : ℤ → ℤ → Text → Label
new_full index to prefix = record {
  stack_frame_prefix = prefix;
  from = index;
  to = to;
  special_label = [];
}

unfoldable pub make_jump : Label → Label → Label
make_jump src target = record {
  stack_frame_prefix = target.stack_frame_prefix;
  from = src.from;
  to = target.from;
  special_label = [];
}

-- The text "counter".
abbrev counter : Text
counter = 99 ∷ 111 ∷ 117 ∷ 110 ∷ 116 ∷ 101 ∷ 114 ∷ []

unfoldable pub make_increment_counter : Label → Label
make_increment_counter label = record {
  stack_frame_prefix = label.stack_frame_prefix;
  from = label.from;
  to = label.to;
  special_label = counter;
}

unfoldable pub isjump : Label → Bool
isjump label = not (eqb_ℤ label.to (negsuc 0))

abbrev stack_frame_delimiter : ℕ
stack_frame_delimiter = 47

unfoldable pub count_delimiters : Text → ℕ
count_delimiters [] = 0
count_delimiters (c ∷ cs) =
    let rest = count_delimiters cs in if c == stack_frame_delimiter then suc rest else rest

unfoldable pub call_stack_depth : Label → ℕ
unfolding count_delimiters
call_stack_depth label =
    if length label.stack_frame_prefix == 0
    then 1
    else 2 + count_delimiters label.stack_frame_prefix

-- The distance of a label from the slot after `pc`; it is an `i64`.
abbrev pub distance : ℕ → Label → ℤ
distance pc label = label.from -ℤ pos pc -ℤ pos 1

abbrev pub is16 : ℤ → Bool
is16 offset = leb_ℤ (negsuc (2 ^ 15 - 1)) offset && leb_ℤ offset (pos (2 ^ 15 - 1))

-- `offset as i16` is the offset where it fits, and only then is it taken.
unfoldable pub label_to_offset16 : ℕ → Label → ℤ
label_to_offset16 pc label =
    if is16 (distance pc label) then signed 16 (bits 16 (distance pc label)) else pos 0

unfoldable pub label_to_offset32 : ℕ → Label → ℤ
label_to_offset32 pc label =
    if is16 (distance pc label) then pos 0 else signed 32 (bits 32 (distance pc label))

-- The derived order: the fields in the order of their declaration.
abbrev cmp_ℤ : ℤ → ℤ → Ordering
cmp_ℤ a b = if ltb_ℤ a b then Ordering.lt else if eqb_ℤ a b then Ordering.eq else Ordering.gt

unfoldable pub cmp_text : Text → Text → Ordering
cmp_text [] [] = Ordering.eq
cmp_text [] (b ∷ ys) = Ordering.lt
cmp_text (a ∷ xs) [] = Ordering.gt
cmp_text (a ∷ xs) (b ∷ ys) = by_order (compare a b) Ordering.lt (cmp_text xs ys) Ordering.gt

abbrev then_by : Ordering → Ordering → Ordering
then_by first second = by_order first Ordering.lt second Ordering.gt

unfoldable pub cmp_label : Label → Label → Ordering
unfolding cmp_text
cmp_label a b = then_by (cmp_text a.stack_frame_prefix b.stack_frame_prefix) (
    then_by (cmp_ℤ a.from b.from)
      (then_by (cmp_ℤ a.to b.to) (cmp_text a.special_label b.special_label)))

cmp_ℤ_self : (a : ℤ) → cmp_ℤ a a ≡ Ordering.eq
cmp_ℤ_self a = ground arith

cmp_ℤ_iff : (a b : ℤ) → (cmp_ℤ a b ≡ Ordering.eq) ↔ (a ≡ b)
cmp_ℤ_iff a b = (λ h. eq_of_parts a b (ground arith), λ e. ap (λ x. cmp_ℤ x b) e ∙ cmp_ℤ_self b)

then_by_iff :
    (c d : Ordering) → (then_by c d ≡ Ordering.eq) ↔ ((c ≡ Ordering.eq) × (d ≡ Ordering.eq))
then_by_iff Ordering.eq d = (λ h. (refl, h), λ h. h.1)
then_by_iff Ordering.lt d = (λ h. cc, λ h. cc)
then_by_iff Ordering.gt d = (λ h. cc, λ h. cc)

pub cmp_text_iff : (a b : Text) → (cmp_text a b ≡ Ordering.eq) ↔ (a ≡ b)
unfolding cmp_text
cmp_text_iff [] [] = (λ h. refl, λ h. refl)
cmp_text_iff [] (b ∷ ys) = (λ h. cc, λ h. cc)
cmp_text_iff (a ∷ xs) [] = (λ h. cc, λ h. cc)
cmp_text_iff (a ∷ xs) (b ∷ ys) = (
  λ h.
      let (x, y) = (then_by_iff (compare a b) (cmp_text xs ys)).0 h in
      cc ((compare_iff a b).0 x, (cmp_text_iff xs ys).0 y),
  λ e.
      (then_by_iff (compare a b) (cmp_text xs ys)).1
        ((compare_iff a b).1 (cc e), (cmp_text_iff xs ys).1 (cc e)),
)

instance abbrev pub text_ord : Ord Text
text_ord = record { cmp = cmp_text; cmp_iff = cmp_text_iff }

cmp_label_self : (a : Label) → cmp_label a a ≡ Ordering.eq
unfolding cmp_label
cmp_label_self a =
    let text : (t : Text) → cmp_text t t ≡ Ordering.eq = λ t. (cmp_text_iff t t).1 refl in
    rw (text a.stack_frame_prefix, cmp_ℤ_self a.from, cmp_ℤ_self a.to, text a.special_label) refl

pub cmp_label_iff : (a b : Label) → (cmp_label a b ≡ Ordering.eq) ↔ (a ≡ b)
unfolding cmp_label
cmp_label_iff a b = (
  λ h.
      let prefix = cmp_text a.stack_frame_prefix b.stack_frame_prefix in
      let special = cmp_text a.special_label b.special_label in
      let (p, rest) =
        (then_by_iff prefix (then_by (cmp_ℤ a.from b.from) (then_by (cmp_ℤ a.to b.to) special))).0
          h in
      let (f, rest') =
        (then_by_iff (cmp_ℤ a.from b.from) (then_by (cmp_ℤ a.to b.to) special)).0 rest in
      let (t, s) = (then_by_iff (cmp_ℤ a.to b.to) special).0 rest' in
      fields ((cmp_text_iff a.stack_frame_prefix b.stack_frame_prefix).0 p)
        ((cmp_ℤ_iff a.from b.from).0 f) ((cmp_ℤ_iff a.to b.to).0 t)
        ((cmp_text_iff a.special_label b.special_label).0 s),
  λ e. ap (λ x. cmp_label x b) e ∙ cmp_label_self b,
)
  where
    fields :
        a.stack_frame_prefix ≡ b.stack_frame_prefix
        → a.from ≡ b.from
        → a.to ≡ b.to
        → a.special_label ≡ b.special_label
        → a ≡ b
    fields p f t s = cc

instance abbrev pub label_ord : Ord Label
label_ord = record { cmp = cmp_label; cmp_iff = cmp_label_iff }
