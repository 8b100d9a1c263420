-- ===== src/Crab/VarIdMap/Bijection.antt =====
-- src/crab/var_id_map.rs: the two directions agree.
use prevail_rust.Base.Tests.{
  ℕ, zero, suc, ◌<◌, ◌≡◌, refl, sym, ap, ◌∙◌, Bool, true, false, Option, none, some, if◌then◌else◌,
  List, [], ◌∷◌, ◌==◌, lt→ltb, arith, Bool-cases, Option-cases, inl, inr,
}
use mathlib.Core.Path.{fun_ext}
use prevail_rust.Base.Lists.{length, get_elem?, set, replicate, length-set}
use prevail_rust.Base.Maps.{Map, get, insert, remove, nat_ord, get-insert, get-remove}
use prevail_rust.Crab.Splitdbm.Graph.Slots.{get_elem?-set}
use prevail_rust.Crab.VarIdMap.{Variable, VarIdMap, new, find_id, renamed, rename}

-- An id belongs to a variable if and only if the variable stands at the id.
pub record IsBijection (m : VarIdMap) : Type 0 where
  pub there : (v id : ℕ) → get v m.var_to_id ≡ some id → get_elem? m.id_to_var id ≡ some (some v)
  pub back : (v id : ℕ) → get_elem? m.id_to_var id ≡ some (some v) → get v m.var_to_id ≡ some id

pub get_elem?-bound :
    (ids : List (Option Variable)) (id : ℕ) (o : Option Variable)
    → get_elem? ids id ≡ some o
    → id < length ids
get_elem?-bound [] id o h = cc
get_elem?-bound (x ∷ ids) zero o h = omega arith
get_elem?-bound (x ∷ ids) (suc id) o h = omega (arith, get_elem?-bound ids id o h)

pub new-IsBijection : (n : ℕ) → IsBijection (new n)
unfolding new get
new-IsBijection n = record { there = λ v id h. cc; back = λ v id h. absurd (all_none n id v h) }
  where
    all_none : (n id : ℕ) (v : ℕ) → get_elem? (replicate n none) id ≡ some (some v) → ⊥
    all_none zero id v h = cc
    all_none (suc n) zero v h = cc
    all_none (suc n) (suc id) v h = all_none n id v h

abbrev pub is_at : Option ℕ → ℕ → Bool
is_at none j = false
is_at (some d) j = d == j

-- The ids after one pair of a renaming: the destination has the id, and lost the one it had.
abbrev Moved : ℕ → Variable → Option ℕ → List (Option Variable) → List (Option Variable) → Type 0
Moved id to dest ids ids' =
    (j : ℕ)
    → get_elem? ids' j
      ≡ (if id == j then some (some to) else if is_at dest j then some none else get_elem? ids j)

pub is_at-some : (o : Option ℕ) (j : ℕ) → is_at o j ≡ true → o ≡ some j
is_at-some none j h = cc
is_at-some (some d) j h = ground arith

module _ (m : VarIdMap) (from to id : ℕ) (b : IsBijection m)
    (h : get from m.var_to_id ≡ some id) where
  abbrev destination : Option ℕ
  destination = get to (remove from m.var_to_id)

  destination-get : destination ≡ (if to == from then none else get to m.var_to_id)
  destination-get = get-remove to from m.var_to_id ∙ ground arith

  abbrev ids_of : Map Variable ℕ
  ids_of = insert to id (remove to (remove from m.var_to_id))

  ids_of-get :
      (v : ℕ)
      → get v ids_of ≡ (if v == to then some id else if v == from then none else get v m.var_to_id)
  ids_of-get v =
      get-insert v to id (remove to (remove from m.var_to_id))
      ∙ rw (get-remove v to (remove from m.var_to_id), get-remove v from m.var_to_id) (ground arith)

  -- The id that the destination had, in terms of the map before.
  destination-there : (j : ℕ) → is_at destination j ≡ true → get to m.var_to_id ≡ some j
  destination-there j at = ground (arith, destination-get, is_at-some destination j at)

  destination-at :
      (j : ℕ) → to == from ≡ false → get to m.var_to_id ≡ some j → is_at destination j ≡ true
  destination-at j apart e =
      let d : destination ≡ some j = destination-get ∙ rw apart e in rw d (ground arith)

  Moved-IsBijection :
      (ids : List (Option Variable))
      → Moved id to destination m.id_to_var ids
      → IsBijection (record { var_to_id = ids_of; id_to_var = ids })
  Moved-IsBijection ids moved = record {
    there = λ v j e. moved j ∙ there_at v j (sym (ids_of-get v) ∙ e);
    back = λ v j e. ids_of-get v ∙ back_at v j (sym (moved j) ∙ e);
  }
    where
      there_at :
          (v j : ℕ)
          → (if v == to then some id else if v == from then none else get v m.var_to_id) ≡ some j
          → (if id == j
              then some (some to)
              else if is_at destination j
              then some none
              else get_elem? m.id_to_var j)
            ≡ some (some v)
      there_at v j e = elim (Bool-cases (v == to)) [
        | inl at ↦ ground arith
        | inr off ↦ elim (Bool-cases (v == from)) [
          | inl gone ↦ absurd (ground arith)
          | inr stays ↦ elim (Bool-cases (is_at destination j)) [
            | inl was ↦ absurd (ground (arith, b.there v j, b.there to j (destination-there j was)))
            | inr other ↦ ground (arith, b.there v j, b.there from id h)
          ]
        ]
      ]

      back_at :
          (v j : ℕ)
          → (if id == j
              then some (some to)
              else if is_at destination j
              then some none
              else get_elem? m.id_to_var j)
            ≡ some (some v)
          → (if v == to then some id else if v == from then none else get v m.var_to_id) ≡ some j
      back_at v j e = elim (Bool-cases (id == j)) [
        | inl at ↦ ground arith
        | inr off ↦ elim (Bool-cases (is_at destination j)) [
          | inl was ↦ absurd (ground arith)
          | inr other ↦
              let old : get v m.var_to_id ≡ some j = b.back v j (ground arith) in
              elim (Bool-cases (v == to)) [
                | inl to_it ↦ elim (Bool-cases (to == from)) [
                  | inl same_one ↦ absurd (ground (arith, h))
                  | inr apart ↦ absurd (ground (arith, destination-at j apart))
                ]
                | inr not_to ↦ ground (arith, h)
              ]
        ]
      ]

  -- One pair ...
  renamed-IsBijection :
      (m' : VarIdMap) × (renamed (some id) from to m ≡ some m')
      × IsBijection m'
      × ((v : Variable)
          → get v m'.var_to_id
            ≡ (if v == to then some id else if v == from then none else get v m.var_to_id))
  renamed-IsBijection = elim (Option-cases destination) [
    | inl fresh ↦
        let ids = set m.id_to_var id (some to) in
        (
          record { var_to_id = ids_of; id_to_var = ids },
          rw (fresh, lt→ltb id (length m.id_to_var) in_range) refl,
          Moved-IsBijection ids (rw fresh (λ j. get_elem?-set m.id_to_var id j (some to) in_range)),
          ids_of-get,
        )
    | inr (d, taken) ↦
        let no_one : Option Variable = none in
        let cleared = set m.id_to_var d no_one in
        let ids = set cleared id (some to) in
        let at : get to m.var_to_id ≡ some d = destination-there d (rw taken (ground arith)) in
        let d_in_range : d < length m.id_to_var =
          get_elem?-bound m.id_to_var d (some to) (b.there to d at) in
        let id_in_range : id < length cleared =
          omega (arith, length-set m.id_to_var d no_one, in_range) in
        (
          record { var_to_id = ids_of; id_to_var = ids },
          rw
              (
                taken,
                lt→ltb d (length m.id_to_var) d_in_range,
                lt→ltb id (length cleared) id_in_range,
              )
              refl,
          Moved-IsBijection ids (
              rw taken (λ j.
                get_elem?-set cleared id j (some to) id_in_range
                ∙ rw (get_elem?-set m.id_to_var d j none d_in_range) refl)),
          ids_of-get,
        )
  ]
    where
      in_range : id < length m.id_to_var
      in_range = get_elem?-bound m.id_to_var id (some from) (b.there from id h)

abbrev pub handed_on : Option ℕ → Variable → Variable → (Variable → Option ℕ) → Variable → Option ℕ
handed_on none from to find v = find v
handed_on (some id) from to find v = if v == to then some id else if v == from then none else find v

-- What a renaming does to the ids that are found: each pair hands the id of its source on.
abbrev pub found_after : List (Variable × Variable) → (Variable → Option ℕ) → Variable → Option ℕ
found_after [] find = find
found_after ((from, to) ∷ renaming) find = found_after renaming (handed_on (find from) from to find)

-- For a map in which the variables and the ids belong to each other, a renaming does not panic
-- and the two directions still agree. The ids that are found are those of handing on, pair by
-- pair, the id of the source, if it has one, to the destination, which loses its own.
pub rename-IsBijection :
    (renaming : List (Variable × Variable)) (m : VarIdMap)
    → IsBijection m
    → (m' : VarIdMap) × (rename renaming m ≡ some m')
      × IsBijection m'
      × ((v : Variable) → find_id v m' ≡ found_after renaming (λ u. find_id u m) v)
unfolding rename find_id
rename-IsBijection [] m b = (m, refl, b, λ v. refl)
rename-IsBijection ((from, to) ∷ renaming) m b = elim (Option-cases (get from m.var_to_id)) [
  | inl unknown ↦
      let (m', e, b', found) = rename-IsBijection renaming m b in rw unknown (m', e, b', found)
  | inr (id, known) ↦
      let (m₁, e₁, b₁, found₁) = renamed-IsBijection m from to id b known in
      let (m', e, b', found) = rename-IsBijection renaming m₁ b₁ in
      rw known (m', rw e₁ e, b', λ v. found v ∙ ap (λ f. found_after renaming f v) (fun_ext found₁))
]
