-- ===== src/Cfg/Wto/Nesting.antt =====
-- src/cfg/wto.rs: a nesting that extends another by inner heads.
use prevail_rust.Base.Tests.{
  ℕ, zero, suc, ◌+◌, ◌-◌, ◌≤◌, ◌<◌, ◌≡◌, ◌↔◌, refl, sym, ap, ◌∙◌, true, false, Option, none, some,
  List, [], ◌∷◌, ◌++◌, arith, Bool-cases, inl, inr, leb, ◌==◌,
}
use prevail_rust.Base.Lists.{length, get_elem?, length-append}
use prevail_rust.Base.Maps.{same_iff, same_self}
use prevail_rust.Cfg.Label.{Label, label_ord}
use prevail_rust.Cfg.Wto.{WtoNesting, same_from, same_at, is_superset_of}

same_at_read : (a b : Option Label) → same_at a b ≡ true → a ≡ b
same_at_read none b h = cc
same_at_read (some a) none h = cc
same_at_read (some a) (some b) h = ap some ((same_iff a b).0 h)

get_elem?-below :
    (xs : List Label) (i : ℕ) → i < length xs → (x : Label) × (get_elem? xs i ≡ some x)
get_elem?-below [] i h = absurd (omega arith)
get_elem?-below (x ∷ xs) zero h = (x, refl)
get_elem?-below (x ∷ xs) (suc i) h = get_elem?-below xs i (omega arith)

get_elem?-after :
    (xs ys : List Label) (i : ℕ) → get_elem? (xs ++ ys) (length xs + i) ≡ get_elem? ys i
get_elem?-after [] ys i = rw (zero_add i) refl
  where
    zero_add : (i : ℕ) → 0 + i ≡ i
    zero_add i = omega arith
get_elem?-after (x ∷ xs) ys i = rw (suc_add (length xs) i) (get_elem?-after xs ys i)
  where
    suc_add : (n i : ℕ) → suc n + i ≡ suc (n + i)
    suc_add n i = omega arith

same_from_read :
    (left index : ℕ) (this other : List Label)
    → same_from left index this other ≡ true
    → (i : ℕ) → index ≤ i
    → i < index + left
    → get_elem? this (length this - 1 - i) ≡ get_elem? other (length other - 1 - i)
unfolding same_from
same_from_read zero index this other h i lo hi = absurd (omega arith)
same_from_read (suc left) index this other h i lo hi =
    elim (Bool-cases (
      same_at (get_elem? this (length this - 1 - index))
        (get_elem? other (length other - 1 - index)))) [
          | inl here ↦ elim (Bool-cases (i == index)) [
            | inl at ↦ let i_is : i ≡ index = ground arith in rw i_is (same_at_read _ _ here)
            | inr after ↦
                same_from_read left (suc index) this other (ground arith) i (ground arith)
                  (omega arith)
          ]
          | inr differs ↦ absurd (ground arith)
        ]

same_from_build :
    (left index : ℕ) (this other : List Label)
    → ((i : ℕ)
        → index ≤ i
        → i < index + left
        → same_at (get_elem? this (length this - 1 - i)) (get_elem? other (length other - 1 - i))
          ≡ true)
    → same_from left index this other ≡ true
unfolding same_from
same_from_build zero index this other h = refl
same_from_build (suc left) index this other h =
    rw (h index (omega arith) (omega arith))
      (same_from_build left (suc index) this other (λ i lo hi. h i (omega arith) (omega arith)))

list_ext :
    (xs ys : List Label)
    → length xs ≡ length ys
    → ((i : ℕ) → i < length ys → get_elem? xs i ≡ get_elem? ys i)
    → xs ≡ ys
list_ext [] [] e h = refl
list_ext [] (y ∷ ys) e h = absurd (omega arith)
list_ext (x ∷ xs) [] e h = absurd (omega arith)
list_ext (x ∷ xs) (y ∷ ys) e h =
    cc (h 0 (omega arith), list_ext xs ys (omega arith) (λ i lt. h (suc i) (omega arith)))

suffix :
    (this other : List Label)
    → length other ≤ length this
    → ((i : ℕ)
        → i < length other
        → get_elem? this (length this - length other + i) ≡ get_elem? other i)
    → (inner : List Label) × (this ≡ inner ++ other)
suffix [] other l h = ([], list_ext [] other (omega arith) (λ i lt. absurd (omega arith)))
suffix (x ∷ xs) other l h = elim (Bool-cases (leb (length other) (length xs))) [
  | inl more ↦
      let (inner, e) = suffix xs other (ground arith) (λ i lt.
        let at : length {A = Label} (x ∷ xs) - length other + i
            ≡ suc (length xs - length other + i) =
          ground arith in
        sym (ap (get_elem? (x ∷ xs)) at) ∙ h i lt) in
      (x ∷ inner, ap (λ t. x ∷ t) e)
  | inr same_length ↦ (
    [],
    list_ext (x ∷ xs) other (ground arith) (λ i lt.
        let at : length {A = Label} (x ∷ xs) - length other + i ≡ i = ground arith in
        sym (ap (get_elem? (x ∷ xs)) at) ∙ h i lt),
  )
]

-- The elements of a suffix, counted from the end.
from_end :
    (inner ys : List Label) (i : ℕ)
    → i < length ys
    → get_elem? (inner ++ ys) (length (inner ++ ys) - 1 - i) ≡ get_elem? ys (length ys - 1 - i)
from_end inner ys i lt =
    let at : length (inner ++ ys) - 1 - i ≡ length inner + (length ys - 1 - i) =
      omega (arith, length-append inner ys) in
    ap (get_elem? (inner ++ ys)) at ∙ get_elem?-after inner ys (length ys - 1 - i)

same_at_self :
    (xs : List Label) (i : ℕ) → i < length xs → same_at (get_elem? xs i) (get_elem? xs i) ≡ true
same_at_self xs i lt = let (x, e) = get_elem?-below xs i lt in rw e (same_self x)

-- A nesting is a superset of another if and only if its heads are one or more inner heads
-- followed by the heads of the other.
pub is_superset_of-suffix :
    (this other : WtoNesting)
    → (is_superset_of this other ≡ true)
      ↔ ((inner : List Label) × (this.heads ≡ inner ++ other.heads) × (0 < length inner))
unfolding is_superset_of
is_superset_of-suffix this other = (λ h. forward h, λ p. backward p.0 p.1 p.2)
  where
    read_back :
        (xs ys : List Label)
        → length ys ≤ length xs
        → ((i : ℕ)
            → 0 ≤ i
            → i < 0 + length ys
            → get_elem? xs (length xs - 1 - i) ≡ get_elem? ys (length ys - 1 - i))
        → (i : ℕ) → i < length ys
        → get_elem? xs (length xs - length ys + i) ≡ get_elem? ys i
    read_back xs ys le h i lt =
        let there : length xs - 1 - (length ys - 1 - i) ≡ length xs - length ys + i = omega arith in
        let here : length ys - 1 - (length ys - 1 - i) ≡ i = omega arith in
        sym (ap (get_elem? xs) there)
        ∙ h (length ys - 1 - i) (omega arith) (omega arith)
        ∙ ap (get_elem? ys) here

    forward :
        is_superset_of this other ≡ true
        → (inner : List Label) × (this.heads ≡ inner ++ other.heads) × (0 < length inner)
    forward h =
        let longer : length other.heads < length this.heads = ground arith in
        let (inner, e) = suffix this.heads other.heads (omega arith) (
          read_back this.heads other.heads (omega arith)
            (same_from_read (length other.heads) 0 this.heads other.heads (ground arith))) in
        (inner, e, omega (arith, ap length e, length-append inner other.heads))

    backward :
        (inner : List Label)
        → this.heads ≡ inner ++ other.heads
        → 0 < length inner
        → is_superset_of this other ≡ true
    backward inner e pos =
        let longer : leb (length this.heads) (length other.heads) ≡ false =
          ground (arith, ap length e, length-append inner other.heads) in
        rw longer (
          same_from_build (length other.heads) 0 this.heads other.heads (λ i lo hi.
            rw (e, from_end inner other.heads i (omega arith))
              (same_at_self other.heads (length other.heads - 1 - i) (omega arith))))
