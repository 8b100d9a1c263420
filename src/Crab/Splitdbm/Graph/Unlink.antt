-- ===== src/Crab/Splitdbm/Graph/Unlink.antt =====
-- src/crab/splitdbm/graph.rs: the loops of `forget` over the edges of one row.
use prevail_rust.Base.Tests.{
  ℕ, zero, suc, ◌≤◌, ◌<◌, ◌≡◌, refl, ap, ◌∙◌, Bool, true, false, ◌&&◌, ◌||◌, Option, none, some,
  if◌then◌else◌, List, [], ◌∷◌, ◌==◌, leb, arith, Bool-cases, inl, inr,
}
use prevail_rust.Base.Lists.{length, set, length-set, get_or-set}
use prevail_rust.Base.Maps.{get, remove, nat_ord, get-remove}
use prevail_rust.Base.Maps.Ordered.{IsOrdered, AllAbove, AllAbove-absent, IsOrdered-remove}
use prevail_rust.Crab.Splitdbm.Graph.{TreeSMap, row, unlink}
use prevail_rust.Crab.Splitdbm.Graph.Slots.{mem, IsNodup}

abbrev pub is_some : Option ℕ → Bool
is_some none = false
is_some (some i) = true

-- The slots of a row.
abbrev pub slots : TreeSMap → List ℕ
slots [] = []
slots ((key, widx) ∷ entries) = widx ∷ slots entries

set-beyond : (rows : List TreeSMap) (i : ℕ) (r : TreeSMap) → length rows ≤ i → set rows i r ≡ rows
set-beyond [] i r h = refl
set-beyond (x ∷ rows) zero r h = absurd (omega arith)
set-beyond (x ∷ rows) (suc i) r h = ap (λ t. x ∷ t) (set-beyond rows i r (omega arith))

pub row-beyond : (rows : List TreeSMap) (i : ℕ) → length rows ≤ i → row rows i ≡ []
row-beyond [] i h = refl
row-beyond (x ∷ rows) zero h = absurd (omega arith)
row-beyond (x ∷ rows) (suc i) h = row-beyond rows i (omega arith)

-- One row after a write.
row-set :
    (rows : List TreeSMap) (key x : ℕ) (r : TreeSMap)
    → (length rows ≤ key → r ≡ [])
    → row (set rows key r) x ≡ (if key == x then r else row rows x)
row-set rows key x r empty = elim (Bool-cases (leb (length rows) key)) [
  | inl beyond ↦
      rw (set-beyond rows key r (ground arith), empty (ground arith))
        (elim (Bool-cases (key == x)) [
          | inl e ↦ rw e (row-beyond rows x (ground arith))
          | inr e ↦ rw e refl
        ])
  | inr within ↦ get_or-set rows key x r [] (ground arith)
]

remove-nil : (v : ℕ) (r : TreeSMap) → r ≡ [] → remove v r ≡ []
unfolding remove
remove-nil v r e = rw e refl

-- A row that is emptied.
pub get-clear :
    (rows : List TreeSMap) (v x y : ℕ)
    → v < length rows
    → get y (row (set rows v []) x) ≡ (if x == v then none else get y (row rows x))
unfolding get
get-clear rows v x y h = ap (get y) (get_or-set rows v x [] [] h) ∙ elim (Bool-cases (v == x)) [
  | inl e ↦ let v_is : v ≡ x = ground arith in rw (e, v_is) (ground arith)
  | inr e ↦ rw e (ground arith)
]

pub IsOrdered-clear :
    (rows : List TreeSMap) (v : ℕ)
    → v < length rows
    → ((x : ℕ) → IsOrdered (row rows x))
    → (x : ℕ) → IsOrdered (row (set rows v []) x)
IsOrdered-clear rows v h o x =
    rw (get_or-set rows v x [] [] h)
      (elim (Bool-cases (v == x)) [ inl e ↦ rw e tt | inr e ↦ rw e (o x) ])

pub removed :
    (v key : ℕ) (rows : List TreeSMap) (x y : ℕ)
    → get y (row (set rows key (remove v (row rows key))) x)
      ≡ (if x == key && y == v then none else get y (row rows x))
removed v key rows x y =
    ap (get y) (
      row-set rows key x (remove v (row rows key))
        (λ h. remove-nil v (row rows key) (row-beyond rows key h)))
    ∙ elim (Bool-cases (key == x)) [
      | inl e ↦
          let key_is : key ≡ x = ground arith in
          rw (e, key_is, get-remove y v (row rows x)) (ground arith)
      | inr e ↦ rw e (ground arith)
    ]

-- The rows after the loop: v is gone from the row of each entry.
pub unlink-rows :
    (v : ℕ) (entries : TreeSMap) (rows : List TreeSMap) (free : List ℕ) (x y : ℕ)
    → get y (row (unlink v entries rows free).0 x)
      ≡ (if y == v && is_some (get x entries) then none else get y (row rows x))
unfolding unlink get
unlink-rows v [] rows free x y = ground arith
unlink-rows v ((key, widx) ∷ entries) rows free x y =
    unlink-rows v entries (set rows key (remove v (row rows key))) (widx ∷ free) x y
    ∙ rw (removed v key rows x y) (ground arith)

pub unlink-length :
    (v : ℕ) (entries : TreeSMap) (rows : List TreeSMap) (free : List ℕ)
    → length (unlink v entries rows free).0 ≡ length rows
unfolding unlink
unlink-length v [] rows free = refl
unlink-length v ((key, widx) ∷ entries) rows free =
    unlink-length v entries (set rows key (remove v (row rows key))) (widx ∷ free)
    ∙ length-set rows key (remove v (row rows key))

pub removed-IsOrdered :
    (v key : ℕ) (rows : List TreeSMap)
    → ((x : ℕ) → IsOrdered (row rows x))
    → (x : ℕ) → IsOrdered (row (set rows key (remove v (row rows key))) x)
removed-IsOrdered v key rows o x =
    rw
      (row-set rows key x (remove v (row rows key))
        (λ h. remove-nil v (row rows key) (row-beyond rows key h)))
      (elim (Bool-cases (key == x)) [
        | inl e ↦ rw e (IsOrdered-remove v (row rows key) (o key))
        | inr e ↦ rw e (o x)
      ])

pub unlink-IsOrdered :
    (v : ℕ) (entries : TreeSMap) (rows : List TreeSMap) (free : List ℕ)
    → ((x : ℕ) → IsOrdered (row rows x))
    → (x : ℕ) → IsOrdered (row (unlink v entries rows free).0 x)
unfolding unlink
unlink-IsOrdered v [] rows free o x = o x
unlink-IsOrdered v ((key, widx) ∷ entries) rows free o x =
    unlink-IsOrdered v entries (set rows key (remove v (row rows key))) (widx ∷ free)
      (removed-IsOrdered v key rows o) x

-- The free slots after the loop.
pub unlink-free :
    (v : ℕ) (entries : TreeSMap) (rows : List TreeSMap) (free : List ℕ) (i : ℕ)
    → mem i (unlink v entries rows free).1 ≡ (mem i (slots entries) || mem i free)
unfolding unlink
unlink-free v [] rows free i = refl
unlink-free v ((key, widx) ∷ entries) rows free i =
    rw (unlink-free v entries (set rows key (remove v (row rows key))) (widx ∷ free) i)
      (ground arith)

-- A slot of a row belongs to one of its neighbours.
pub slots-get :
    (entries : TreeSMap) (i : ℕ)
    → IsOrdered entries
    → mem i (slots entries) ≡ true
    → (x : ℕ) × (get x entries ≡ some i)
unfolding get
slots-get [] i o m = cc
slots-get ((key, widx) ∷ entries) i o m = elim (Bool-cases (i == widx)) [
  | inl e ↦ (key, ground arith)
  | inr e ↦
      let (x, found) = slots-get entries i o.1 (ground arith) in
      let later : key < x = AllAbove-absent key x entries o.0 (λ h. cc) in (x, ground arith)
]

pub get-first : (key widx : ℕ) (entries : TreeSMap) → get key ((key, widx) ∷ entries) ≡ some widx
unfolding get
get-first key widx entries = ground arith

pub get-later :
    (key widx : ℕ) (entries : TreeSMap) (x i : ℕ)
    → AllAbove key entries
    → get x entries ≡ some i
    → (get x ((key, widx) ∷ entries) ≡ some i) × (key < x)
unfolding get
get-later key widx entries x i above e =
    let later : key < x = AllAbove-absent key x entries above (λ h. cc) in (ground arith, later)

-- Rows whose neighbours have slots of their own give free slots that are not free twice.
pub unlink-IsNodup :
    (v : ℕ) (entries : TreeSMap) (rows : List TreeSMap) (free : List ℕ)
    → IsOrdered entries
    → ((x y i : ℕ) → get x entries ≡ some i → get y entries ≡ some i → x ≡ y)
    → ((x i : ℕ) → get x entries ≡ some i → mem i free ≡ false)
    → IsNodup free
    → IsNodup (unlink v entries rows free).1
unfolding unlink
unlink-IsNodup v [] rows free o once apart n = n
unlink-IsNodup v ((key, widx) ∷ entries) rows free o once apart n =
    unlink-IsNodup v entries (set rows key (remove v (row rows key))) (widx ∷ free) o.1
      (λ x y i e e'.
        once x y i ((get-later key widx entries x i o.0 e).0)
          ((get-later key widx entries y i o.0 e').0))
      (λ x i e.
        let (there, later) = get-later key widx entries x i o.0 e in
        ground (arith, apart x i there, once x key i there, get-first key widx entries))
      (apart key widx (get-first key widx entries), n)
