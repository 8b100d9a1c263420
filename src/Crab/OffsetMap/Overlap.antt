-- ===== src/Crab/OffsetMap/Overlap.antt =====
-- src/crab/array_domain.rs: the search for overlapping cells finds exactly those.
use prevail_rust.Base.Tests.{
  ℕ, ◌+◌, ◌^◌, ◌<◌, ◌≡◌, refl, arith, Bool, true, false, not, ◌&&◌, ◌||◌, List, [], ◌∷◌, ◌++◌, some,
  ltb, leb, ◌==◌, if◌then◌else◌, Bool-cases, inl, inr, ==_iff, and-true,
}
use prevail_rust.Base.Maps.{Map}
use prevail_rust.Crab.OffsetMap.{
  Cell, OffsetMap, has_size, bucket_before, cells_before, bucket_cells, cells_inside,
  get_overlap_cells, add_u64,
}

abbrev pub is_cell : Cell → Cell → Bool
is_cell c d = (c.offset == d.offset) && (c.size == d.size)

abbrev pub lists_cell : List Cell → Cell → Bool
lists_cell [] d = false
lists_cell (c ∷ cs) d = is_cell c d || lists_cell cs d

-- Whether a cell is stored.
abbrev pub stores : Map ℕ (List ℕ) → Cell → Bool
stores [] d = false
stores ((off, bucket) ∷ m) d = ((off == d.offset) && has_size bucket d.size) || stores m d

-- Whether a cell shares a byte with the range.
abbrev pub shares_byte : Cell → ℕ → ℕ → Bool
shares_byte d offset size = ltb d.offset (offset + size) && ltb offset (d.offset + d.size)

-- Every stored cell has a byte and ends in the range of `u64`.
abbrev AllFit : ℕ → List ℕ → Type 0
AllFit off [] = Unit
AllFit off (s ∷ ss) = (0 < s) × (off + s < 2 ^ 64) × AllFit off ss

abbrev pub CellsFit : Map ℕ (List ℕ) → Type 0
CellsFit [] = Unit
CellsFit ((off, bucket) ∷ m) = AllFit off bucket × CellsFit m

lists-append :
    (xs ys : List Cell) (d : Cell) → lists_cell (xs ++ ys) d ≡ (lists_cell xs d || lists_cell ys d)
lists-append [] ys d = refl
lists-append (x ∷ xs) ys d = ground (arith, lists-append xs ys d)

add_u64-some : (a b : ℕ) → a + b < 2 ^ 64 → add_u64 a b ≡ some (a + b)
add_u64-some a b h = ground arith

abbrev pub is_range : Cell → ℕ → ℕ → Bool
is_range d offset size = (d.offset == offset) && (d.size == size)

module _ (offset size : ℕ) (d : Cell) where
  bucket_before-lists :
      (off : ℕ) (bucket : List ℕ)
      → AllFit off bucket
      → (out : List Cell) × (bucket_before offset size off bucket ≡ some out)
        × (lists_cell out d ≡ (
            (off == d.offset)
            && has_size bucket d.size
            && ltb offset (d.offset + d.size)
            && not (is_range d offset size)))
  unfolding bucket_before
  bucket_before-lists off [] fits = ([], refl, ground arith)
  bucket_before-lists off (s ∷ ss) fits =
      let (out, e, found) = bucket_before-lists off ss fits.2 in
      (
        if ltb offset (off + s) && (not (off == offset) || not (s == size))
            then record { offset = off; size = s } ∷ out
            else out,
        rw (add_u64-some off s fits.1, e) refl,
        ground (arith, found),
      )

  bucket_cells-lists :
      (off : ℕ) (bucket : List ℕ)
      → lists_cell (bucket_cells off bucket) d ≡ ((off == d.offset) && has_size bucket d.size)
  bucket_cells-lists off [] = ground arith
  bucket_cells-lists off (s ∷ ss) = ground (arith, bucket_cells-lists off ss)

  abbrev before_start : Bool
  before_start =
      leb d.offset offset && ltb offset (d.offset + d.size) && not (is_range d offset size)

  cells_before-lists :
      (m : Map ℕ (List ℕ))
      → CellsFit m
      → (out : List Cell) × (cells_before offset size m ≡ some out)
        × (lists_cell out d ≡ (stores m d && before_start))
  unfolding cells_before
  cells_before-lists [] fits = ([], refl, refl)
  cells_before-lists ((off, bucket) ∷ m) fits =
      let (later, e, found) = cells_before-lists m fits.1 in
      let (here, e', found') = bucket_before-lists off bucket fits.0 in
      elim (Bool-cases (leb off offset)) [
        | inl low ↦ (
          later ++ here,
          rw (e, low, e') refl,
          ground (arith, found, found', lists-append later here d, low),
        )
        | inr high ↦ (later, rw (e, high) refl, ground (arith, found, high))
      ]

  cells_inside-lists :
      (end : ℕ) (m : Map ℕ (List ℕ))
      → lists_cell (cells_inside (offset + 1) end m) d
        ≡ (stores m d && ltb offset d.offset && ltb d.offset end)
  unfolding cells_inside
  cells_inside-lists end [] = refl
  cells_inside-lists end ((off, bucket) ∷ m) =
      let ih = cells_inside-lists end m in
      let here = bucket_cells-lists off bucket in
      elim (Bool-cases (leb (offset + 1) off && ltb off end)) [
        | inl inside ↦
            rw (inside, lists-append (bucket_cells off bucket) (cells_inside (offset + 1) end m) d)
              (ground (arith, ih, here, inside))
        | inr outside ↦ rw outside (ground (arith, ih, outside))
      ]

  after-lists :
      (m : Map ℕ (List ℕ))
      → lists_cell
          (if ltb (offset + 1) (offset + size)
            then cells_inside (offset + 1) (offset + size) m
            else [])
          d
        ≡ (stores m d && ltb offset d.offset && ltb d.offset (offset + size))
  after-lists m = elim (Bool-cases (ltb (offset + 1) (offset + size))) [
    | inl wide ↦ rw wide (cells_inside-lists (offset + size) m)
    | inr narrow ↦ rw narrow (ground (arith, narrow))
  ]

has_size-positive :
    (off size : ℕ) (bucket : List ℕ) → AllFit off bucket → has_size bucket size ≡ true → 0 < size
has_size-positive off size [] fits h = cc
has_size-positive off size (s ∷ ss) fits h = elim (Bool-cases (s == size)) [
  | inl here ↦ rw (← (==_iff s size).0 here) (fits.0)
  | inr other ↦ has_size-positive off size ss fits.2 (rw other at h)
]

stores-positive : (m : Map ℕ (List ℕ)) (d : Cell) → CellsFit m → stores m d ≡ true → 0 < d.size
stores-positive [] d fits h = cc
stores-positive ((off, bucket) ∷ m) d fits h =
    elim (Bool-cases ((off == d.offset) && has_size bucket d.size)) [
      | inl here ↦ has_size-positive off d.size bucket fits.0 (and-true _ _ here).1
      | inr other ↦ stores-positive m d fits.1 (rw other at h)
    ]

-- Before the start or inside of the range: that is to share a byte with it.
two_ways :
    (stored : Bool) (d : Cell) (offset size : ℕ)
    → (stored ≡ true → 0 < d.size)
    → 0 < size
    → ((stored && before_start offset size d)
        || (stored && ltb offset d.offset && ltb d.offset (offset + size)))
      ≡ (stored && shares_byte d offset size && not (is_range d offset size))
two_ways false d offset size h k = refl
two_ways true d offset size h k = ground (arith, h refl)

-- For cells that each have a byte and end in the range of u64, and such a range,
-- get_overlap_cells does not panic. A cell is in its answer exactly if it is stored and shares a
-- byte with the range, but for the cell that is the range.
pub get_overlap_cells-lists :
    (m : OffsetMap) (offset size : ℕ) (d : Cell)
    → CellsFit m.sizes
    → 0 < size
    → offset + size < 2 ^ 64
    → (out : List Cell) × (get_overlap_cells m offset size ≡ some out)
      × (lists_cell out d
          ≡ (stores m.sizes d && shares_byte d offset size && not (is_range d offset size)))
unfolding get_overlap_cells
get_overlap_cells-lists m offset size d fits has_byte below =
    let (before, e, found) = cells_before-lists offset size d m.sizes fits in
    let after =
      if ltb (offset + 1) (offset + size)
      then cells_inside (offset + 1) (offset + size) m.sizes
      else [] in
    (
      before ++ after,
      rw (add_u64-some offset size below, e, add_u64-some offset 1 (omega arith)) refl,
      rw (lists-append before after d, found, after-lists offset size d m.sizes)
          (two_ways (stores m.sizes d) d offset size (stores-positive m.sizes d fits) has_byte),
    )
