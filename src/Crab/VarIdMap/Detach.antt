-- ===== src/Crab/VarIdMap/Detach.antt =====
-- src/crab/var_id_map.rs: a variable is taken from its id and registered with another.
use prevail_rust.Base.Tests.{
  ℕ, zero, suc, ◌-◌, ◌<◌, ◌≡◌, ◌≢◌, refl, sym, ◌∙◌, Option, none, some, if◌then◌else◌, List, [],
  ◌∷◌, ◌++◌, ◌==◌, lt→ltb, arith, Bool-cases, Option-cases, inl, inr,
}
use prevail_rust.Base.Lists.{length, get_elem?, set, replicate, length-append, length-replicate}
use prevail_rust.Base.Maps.{get, nat_ord, get-insert}
use prevail_rust.Crab.Splitdbm.Graph.Slots.{get_elem?-set}
use prevail_rust.Crab.VarIdMap.{Variable, VarIdMap, find_id, grown, insert_var, orphan_var}
use prevail_rust.Crab.VarIdMap.Bijection.{IsBijection, get_elem?-bound, is_at, is_at-some}

-- Orphans at the end do not stand for a variable.
padded-read :
    (ids : List (Option Variable)) (n j : ℕ) (u : Variable)
    → get_elem? (ids ++ replicate n none) j ≡ some (some u)
    → get_elem? ids j ≡ some (some u)
padded-read [] zero j u h = cc
padded-read [] (suc n) zero u h = cc
padded-read [] (suc n) (suc j) u h = cc (padded-read [] n j u h)
padded-read (x ∷ ids) n zero u h = h
padded-read (x ∷ ids) n (suc j) u h = padded-read ids n j u h

padded-keep :
    (ids : List (Option Variable)) (n j : ℕ) (o : Option Variable)
    → get_elem? ids j ≡ some o
    → get_elem? (ids ++ replicate n none) j ≡ some o
padded-keep [] n j o h = cc
padded-keep (x ∷ ids) n zero o h = h
padded-keep (x ∷ ids) n (suc j) o h = padded-keep ids n j o h

grown-bound : (id : ℕ) (ids : List (Option Variable)) → id < length (grown id ids)
grown-bound id ids =
    let no_one : Option Variable = none in
    omega (
      arith,
      length-append ids (replicate (suc id - length ids) no_one),
      length-replicate (suc id - length ids) no_one,
    )

module _ (m : VarIdMap) (v id : ℕ) (b : IsBijection m)
    (free : (u : ℕ) → get_elem? m.id_to_var id ≢ some (some u)) where
  -- The ids once v is taken from its old one.
  abbrev Orphaned : List (Option Variable) → Type 0
  Orphaned ids =
      (j : ℕ)
      → get_elem? ids j
        ≡ (if is_at (get v m.var_to_id) j then some none else get_elem? m.id_to_var j)

  insert_var-IsBijection :
      (ids : List (Option Variable))
      → Orphaned ids
      → IsBijection (insert_var v id (record m { id_to_var = ids }))
  unfolding insert_var
  insert_var-IsBijection ids orphaned = record {
    there = λ u j e.
        get_elem?-set (grown id ids) id j (some v) (grown-bound id ids)
        ∙ there_at u j (sym (get-insert u v id m.var_to_id) ∙ e);
    back = λ u j e.
        get-insert u v id m.var_to_id
        ∙ back_at u j (sym (get_elem?-set (grown id ids) id j (some v) (grown-bound id ids)) ∙ e);
  }
    where
      there_at :
          (u j : ℕ)
          → (if u == v then some id else get u m.var_to_id) ≡ some j
          → (if id == j then some (some v) else get_elem? (grown id ids) j) ≡ some (some u)
      there_at u j e = elim (Bool-cases (u == v)) [
        | inl at ↦ ground arith
        | inr off ↦
            let old = b.there u j (ground arith) in
            elim (Bool-cases (is_at (get v m.var_to_id) j)) [
              | inl was ↦
                  absurd (ground (arith, old, b.there v j (is_at-some (get v m.var_to_id) j was)))
              | inr other ↦
                  let kept =
                    padded-keep ids (suc id - length ids) j (some u) (orphaned j ∙ rw other old) in
                  ground (arith, free u, old, kept)
            ]
      ]

      back_at :
          (u j : ℕ)
          → (if id == j then some (some v) else get_elem? (grown id ids) j) ≡ some (some u)
          → (if u == v then some id else get u m.var_to_id) ≡ some j
      back_at u j e = elim (Bool-cases (id == j)) [
        | inl at ↦ ground arith
        | inr off ↦
            let read = padded-read ids (suc id - length ids) j u (ground arith) in
            elim (Bool-cases (is_at (get v m.var_to_id) j)) [
              | inl was ↦ absurd (ground (arith, orphaned j))
              | inr other ↦
                  let old = b.back u j (sym (orphaned j ∙ rw other refl) ∙ read) in
                  ground (arith, old, other)
            ]
      ]

  -- For a map in which the variables and the ids belong to each other, and an id at which no
  -- variable stands, orphaning a variable and inserting it with that id does not panic. The two
  -- directions still agree, the variable has the id, and every other variable keeps its own.
  pub orphan_var-insert_var :
      (m' : VarIdMap) × (orphan_var v m ≡ some m')
      × IsBijection (insert_var v id m')
      × ((u : Variable)
          → find_id u (insert_var v id m') ≡ (if u == v then some id else find_id u m))
  unfolding orphan_var find_id insert_var
  orphan_var-insert_var = elim (Option-cases (get v m.var_to_id)) [
    | inl unknown ↦ (
      m,
      rw unknown refl,
      insert_var-IsBijection m.id_to_var (rw unknown (λ j. refl)),
      λ u. get-insert u v id m.var_to_id,
    )
    | inr (d, known) ↦
        let no_one : Option Variable = none in
        let in_range : d < length m.id_to_var =
          get_elem?-bound m.id_to_var d (some v) (b.there v d known) in
        (
          record m { id_to_var = set m.id_to_var d no_one },
          rw (known, lt→ltb d (length m.id_to_var) in_range) refl,
          insert_var-IsBijection (set m.id_to_var d no_one)
              (rw known (λ j. get_elem?-set m.id_to_var d j no_one in_range)),
          λ u. get-insert u v id m.var_to_id,
        )
  ]
