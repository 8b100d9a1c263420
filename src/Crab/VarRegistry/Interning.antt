-- ===== src/Crab/VarRegistry/Interning.antt =====
-- src/crab/var_registry.rs: names and ids belong to each other, and registering keeps them.
use prevail_rust.Base.Tests.{
  ℕ, zero, suc, ◌+◌, ◌≡◌, ◌⊎◌, inl, inr, refl, sym, ap, ◌∙◌, arith, Bool, true, false, ◌==◌, ==_iff,
  List, [], ◌∷◌, ◌++◌, Option, none, some, some-eq, Bool-cases, and-true, ◌&&◌,
}
use prevail_rust.Base.Lists.{
  length, get_elem?, get_elem?-lt, get_elem?-append, get_elem?-append_last, length-append,
}
use prevail_rust.Base.Maps.{Map, get, insert, same, same_iff, get-insert}
use prevail_rust.Cfg.Label.{Text, text_ord}
use prevail_rust.Crab.VarRegistry.{
  VarMetadata, VariableRegistry, Registered, Entry, names_of, metadata_of, index_names, of_entries,
  register_at, register,
}

-- A name is interned at an id exactly if the id has the name, and every id has metadata.
pub record IsRegistry (r : VariableRegistry) : Type 0 where
  pub same_length : length r.metadata ≡ length r.names
  pub found : (n : Text) (id : ℕ) → get n r.index ≡ some id → get_elem? r.names id ≡ some n
  pub listed : (n : Text) (id : ℕ) → get_elem? r.names id ≡ some n → get n r.index ≡ some id

-- No id loses its name or its metadata.
pub record Keeps (r r' : VariableRegistry) : Type 0 where
  pub keeps_name :
      (id : ℕ) (n : Text) → get_elem? r.names id ≡ some n → get_elem? r'.names id ≡ some n
  pub keeps_metadata :
      (id : ℕ) (m : VarMetadata)
      → get_elem? r.metadata id ≡ some m
      → get_elem? r'.metadata id ≡ some m

-- The variable has the name, and the metadata if it is new; else the registry stays as it was.
abbrev pub Interned : Text → VarMetadata → VariableRegistry → Registered → Type 0
Interned name meta r (r', v) =
    IsRegistry r'
    × Keeps r r'
    × (get_elem? r'.names v ≡ some name)
    × ((r' ≡ r) ⊎ ((get name r.index ≡ none) × (get_elem? r'.metadata v ≡ some meta)))

module _ {ℓ} {A : Type ℓ} where
  pub still :
      (xs : List A) (a v : A) (i : ℕ)
      → get_elem? xs i ≡ some v
      → get_elem? (xs ++ (a ∷ [])) i ≡ some v
  still xs a v i h = get_elem?-append xs (a ∷ []) i (get_elem?-lt xs i h) ∙ h

  pub appended :
      (xs : List A) (a v : A) (i : ℕ)
      → get_elem? (xs ++ (a ∷ [])) i ≡ some v
      → (get_elem? xs i ≡ some v) ⊎ ((i ≡ length xs) × (a ≡ v))
  appended [] a v zero h = inr (refl, some-eq h)
  appended [] a v (suc i) h = absurd (cc h)
  appended (x ∷ xs) a v zero h = inl h
  appended (x ∷ xs) a v (suc i) h = elim (appended xs a v i h) [
    | inl old ↦ inl old
    | inr (at_end, e) ↦ inr (cc at_end, e)
  ]

module _ (r : VariableRegistry) (valid : IsRegistry r) (name : Text) (meta : VarMetadata)
    (fresh : get name r.index ≡ none) where
  abbrev grown : Registered
  grown = register_at none name meta r

  grown-found :
      (n : Text) (id : ℕ)
      → get n (insert name (length r.names) r.index) ≡ some id
      → get_elem? (r.names ++ (name ∷ [])) id ≡ some n
  grown-found n id h = elim (Bool-cases (same n name)) [
    | inl here ↦
        let e = some-eq (rw (get-insert n name (length r.names) r.index, here) at h) in
        rw (sym e, (same_iff n name).0 here) (get_elem?-append_last r.names name)
    | inr other ↦
        still r.names name n id
          (valid.found n id (rw (get-insert n name (length r.names) r.index, other) at h))
  ]

  grown-listed :
      (n : Text) (id : ℕ)
      → get_elem? (r.names ++ (name ∷ [])) id ≡ some n
      → get n (insert name (length r.names) r.index) ≡ some id
  grown-listed n id h =
      rw (get-insert n name (length r.names) r.index) (elim (Bool-cases (same n name)) [
        | inl here ↦ rw here (elim (appended r.names name n id h) [
          | inl old ↦ absurd (cc (fresh, valid.listed n id old, (same_iff n name).0 here))
          | inr (at_end, e) ↦ cc at_end
        ])
        | inr other ↦ rw other (elim (appended r.names name n id h) [
          | inl old ↦ valid.listed n id old
          | inr (at_end, e) ↦ absurd (cc (other, (same_iff n name).1 (sym e)))
        ])
      ])

  grown-Interned : Interned name meta r grown
  grown-Interned = (
    record {
      same_length = omega (
        arith,
        valid.same_length,
        length-append r.names (name ∷ []),
        length-append r.metadata (meta ∷ []),
      );
      found = grown-found;
      listed = grown-listed;
    },
    record {
      keeps_name = λ id n h. still r.names name n id h;
      keeps_metadata = λ id m h. still r.metadata meta m id h;
    },
    get_elem?-append_last r.names name,
    inr (fresh, rw (← valid.same_length) (get_elem?-append_last r.metadata meta)),
  )

resolved-Interned :
    (name : Text) (meta : VarMetadata) (r : VariableRegistry) (known : Option ℕ)
    → IsRegistry r
    → get name r.index ≡ known
    → Interned name meta r (register_at known name meta r)
resolved-Interned name meta r none valid fresh = grown-Interned r valid name meta fresh
resolved-Interned name meta r (some id) valid old = (
  valid,
  record { keeps_name = λ i n h. h; keeps_metadata = λ i m h. h },
  valid.found name id old,
  inl refl,
)

-- For a registry in which the names and the ids belong to each other, registering a name gives
-- such a registry, in which every id keeps its name and its metadata and the answered id has the
-- name. The registry is unchanged, or the name was not registered and the answered id has the
-- given metadata.
pub register-Interned :
    (name : Text) (meta : VarMetadata) (r : VariableRegistry)
    → IsRegistry r
    → Interned name meta r (register name meta r)
unfolding register
register-Interned name meta r valid = resolved-Interned name meta r (get name r.index) valid refl

-- A lookup finds the position of a name, or what was there before.
index_names-found :
    (ns : List Text) (i : ℕ) (m : Map Text ℕ) (n : Text) (id : ℕ)
    → get n (index_names i ns m) ≡ some id
    → (get n m ≡ some id) ⊎ ((k : ℕ) × (id ≡ i + k) × (get_elem? ns k ≡ some n))
unfolding index_names
index_names-found [] i m n id h = inl h
index_names-found (x ∷ ns) i m n id h = elim (index_names-found ns (suc i) (insert x i m) n id h) [
  | inr (k, e, at_k) ↦ inr (suc k, omega (arith, e), at_k)
  | inl before ↦ elim (Bool-cases (same n x)) [
    | inl here ↦
        let e = some-eq (rw (get-insert n x i m, here) at before) in
        inr (0, omega (arith, e), ap (λ t. some t) (sym ((same_iff n x).0 here)))
    | inr other ↦ inl (rw (get-insert n x i m, other) at before)
  ]
]

abbrev is_at : ℕ → Option ℕ → Bool
is_at i none = false
is_at i (some id) = id == i

-- Every name is found at its position.
unfoldable pub positioned : ℕ → List Text → Map Text ℕ → Bool
positioned i [] m = true
positioned i (n ∷ ns) m = is_at i (get n m) && positioned (suc i) ns m

positioned-get :
    (ns : List Text) (i k : ℕ) (m : Map Text ℕ) (n : Text)
    → positioned i ns m ≡ true
    → get_elem? ns k ≡ some n
    → get n m ≡ some (i + k)
unfolding positioned
positioned-get [] i k m n h e = absurd (cc e)
positioned-get (x ∷ ns) i zero m n h e =
    rw (sym (some-eq e)) (at_position (get x m) (and-true _ _ h).0)
  where
    at_position : (o : Option ℕ) → is_at i o ≡ true → o ≡ some (i + 0)
    at_position none h = cc
    at_position (some id) h = ap (λ t. some t) (omega (arith, (==_iff id i).0 h))
positioned-get (x ∷ ns) i (suc k) m n h e =
    positioned-get ns (suc i) k m n (and-true _ _ h).1 e ∙ ap (λ t. some t) (omega arith)

entries-length : (entries : List Entry) → length (metadata_of entries) ≡ length (names_of entries)
entries-length [] = refl
entries-length (e ∷ es) = omega (arith, entries-length es)

pub of_entries-IsRegistry :
    (entries : List Entry)
    → positioned 0 (names_of entries) (index_names 0 (names_of entries) []) ≡ true
    → IsRegistry (of_entries entries)
unfolding of_entries get
of_entries-IsRegistry entries h = record {
  same_length = entries-length entries;
  found = λ n id e. at_own n id (index_names-found (names_of entries) 0 [] n id e);
  listed = λ n id e.
      positioned-get (names_of entries) 0 id (index_names 0 (names_of entries) []) n h e
      ∙ ap (λ t. some t) (omega arith);
}
  where
    at_own :
        (n : Text) (id : ℕ)
        → (get n [] ≡ some id)
          ⊎ ((k : ℕ) × (id ≡ 0 + k) × (get_elem? (names_of entries) k ≡ some n))
        → get_elem? (names_of entries) id ≡ some n
    at_own n id (inl none_there) = absurd (cc none_there)
    at_own n id (inr (k, e, at_k)) = let same_id : id ≡ k = omega (arith, e) in rw same_id at_k
