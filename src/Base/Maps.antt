-- ===== src/Base/Maps.antt =====
-- Ordered maps and sets, as lists in the order of their keys: what the source uses of `BTreeMap`
-- and `BTreeSet`. A map has at most one entry for a key, and the laws of `get` need no more.
use Prim.Native.Nat.{Ordering, compare}
use prevail_rust.Base.Tests.{
  ℕ, ◌≡◌, ◌↔◌, refl, sym, ◌∙◌, Bool, true, false, Option, none, some, List, [], ◌∷◌, if◌then◌else◌,
  Bool-cases, inl, inr, arith,
}
pub mod Ordered

-- A linear order, of which the laws of maps need only that it tells keys apart.
pub record Ord {ℓ} (K : Type ℓ) : Type ℓ where
  pub cmp : K → K → Ordering
  pub cmp_iff : (a b : K) → (cmp a b ≡ Ordering.eq) ↔ (a ≡ b)

abbrev pub is_eq : Ordering → Bool
is_eq Ordering.eq = true
is_eq Ordering.lt = false
is_eq Ordering.gt = false

abbrev pub by_order {ℓ} : {A : Type ℓ} → Ordering → A → A → A → A
by_order Ordering.lt l e g = l
by_order Ordering.eq l e g = e
by_order Ordering.gt l e g = g

pub compare_iff : (a b : ℕ) → (compare a b ≡ Ordering.eq) ↔ (a ≡ b)
compare_iff a b = ground arith

instance abbrev pub nat_ord : Ord ℕ
nat_ord = record { cmp = compare; cmp_iff = compare_iff }

abbrev pub Map {ℓ} : Type ℓ → Type ℓ → Type ℓ
Map K V = List (K × V)

module _ {ℓ} {K : Type ℓ} ⦃o : Ord K⦄ where
  abbrev pub same : K → K → Bool
  same a b = is_eq (o.cmp a b)

  pub same_iff : (a b : K) → (same a b ≡ true) ↔ (a ≡ b)
  same_iff a b = (λ h. (o.cmp_iff a b).0 (read (o.cmp a b) h), λ e. rw ((o.cmp_iff a b).1 e) refl)
    where
      read : (c : Ordering) → is_eq c ≡ true → c ≡ Ordering.eq
      read Ordering.eq h = refl
      read Ordering.lt h = cc
      read Ordering.gt h = cc

  pub same_self : (a : K) → same a a ≡ true
  same_self a = (same_iff a a).1 refl

  pub same_sym : (a b : K) → same a b ≡ same b a
  same_sym a b = elim (Bool-cases (same a b)) [
    | inl h ↦ rw (h, (same_iff b a).1 (sym ((same_iff a b).0 h))) refl
    | inr h ↦ elim (Bool-cases (same b a)) [
      | inl k ↦ absurd (cc (h, (same_iff a b).1 (sym ((same_iff b a).0 k))))
      | inr k ↦ rw (h, k) refl
    ]
  ]

module _ {ℓ} {K V : Type ℓ} ⦃o : Ord K⦄ where
  unfoldable pub get : K → Map K V → Option V
  get q [] = none
  get q ((k, v) ∷ m) = if same q k then some v else get q m

  unfoldable pub insert : K → V → Map K V → Map K V
  insert q w [] = (q, w) ∷ []
  insert q w ((k, v) ∷ m) =
      let after = insert q w m in
      by_order (o.cmp q k) ((q, w) ∷ (k, v) ∷ m) ((q, w) ∷ m) ((k, v) ∷ after)

  unfoldable pub remove : K → Map K V → Map K V
  remove q [] = []
  remove q ((k, v) ∷ m) = let rest = remove q m in if same q k then rest else ((k, v) ∷ rest)

  -- A lookup after an insertion.
  pub get-insert :
      (p q : K) (w : V) (m : Map K V)
      → get p (insert q w m) ≡ (if same p q then some w else get p m)
  unfolding get insert
  get-insert p q w [] = refl
  get-insert p q w ((k, v) ∷ m) = by_cmp (o.cmp q k) refl (get-insert p q w m)
    where
      by_cmp :
          (c : Ordering)
          → o.cmp q k ≡ c
          → get p (insert q w m) ≡ (if same p q then some w else get p m)
          → get p (insert q w ((k, v) ∷ m))
            ≡ (if same p q then some w else if same p k then some v else get p m)
      by_cmp Ordering.lt e ih = rw e refl
      by_cmp Ordering.eq e ih = let qk = (o.cmp_iff q k).0 e in rw (e, sym qk) (ground arith)
      by_cmp Ordering.gt e ih =
          rw (e, ih)
            (elim (Bool-cases (same p k)) [
              | inl pk ↦ elim (Bool-cases (same p q)) [
                | inl pq ↦
                    absurd
                      (cc (e, (o.cmp_iff q k).1 (sym ((same_iff p q).0 pq) ∙ (same_iff p k).0 pk)))
                | inr pq ↦ rw (pk, pq) refl
              ]
              | inr pk ↦ rw pk refl
            ])

  -- A lookup after a removal.
  pub get-remove :
      (p q : K) (m : Map K V) → get p (remove q m) ≡ (if same p q then none else get p m)
  unfolding get remove
  get-remove p q [] = ground arith
  get-remove p q ((k, v) ∷ m) = elim (Bool-cases (same q k)) [
    | inl qk ↦ rw (qk, get-remove p q m, (same_iff q k).0 qk) (ground arith)
    | inr qk ↦
        rw (qk, get-remove p q m)
          (elim (Bool-cases (same p k)) [
            | inl pk ↦ rw (pk) (ground (arith, other pk qk))
            | inr pk ↦ rw pk refl
          ])
  ]
    where
      other : same p k ≡ true → same q k ≡ false → same p q ≡ false
      other pk qk = elim (Bool-cases (same p q)) [
        | inl pq ↦
            absurd (cc (qk, (same_iff q k).1 (sym ((same_iff p q).0 pq) ∙ (same_iff p k).0 pk)))
        | inr pq ↦ pq
      ]
