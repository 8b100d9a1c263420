-- ===== src/Crab/OffsetMap.antt =====
-- src/crab/array_domain.rs: the cells of the stack, by their offsets. Offsets are `u64` and sizes
-- `u32`; a sum that leaves the range of `u64` panics, which is `none`.
use prevail_rust.Base.Tests.{
  ℕ, ◌+◌, ◌^◌, Bool, true, false, not, ◌&&◌, ◌||◌, List, [], ◌∷◌, ◌++◌, Option, none, some, ltb,
  leb, ◌==◌, ◌>>=◌, if◌then◌else◌,
}
use prevail_rust.Base.Maps.{Map, get, insert, remove, nat_ord}
use prevail_rust.Base.Int.{ℤ, pos, pos_part}
pub mod Overlap
mod Tests

pub record Cell : Type 0 where
  pub offset : ℕ
  pub size : ℕ

pub record OffsetMap : Type 0 where
  pub total_stack_size : ℕ
  pub sizes : Map ℕ (List ℕ)

unfoldable pub new : ℤ → OffsetMap
new total_stack_size = record { total_stack_size = pos_part total_stack_size; sizes = [] }

unfoldable pub is_empty : OffsetMap → Bool
is_empty m = m.total_stack_size == 0

abbrev pub has_size : List ℕ → ℕ → Bool
has_size [] size = false
has_size (s ∷ ss) size = (s == size) || has_size ss size

abbrev has : Option (List ℕ) → ℕ → Bool
has none size = false
has (some bucket) size = has_size bucket size

unfoldable pub get_cell : OffsetMap → ℕ → ℕ → Option Cell
get_cell m offset size =
    if has (get offset m.sizes) size then some (record { offset = offset; size = size }) else none

abbrev bucket_of : Option (List ℕ) → List ℕ
bucket_of none = []
bucket_of (some bucket) = bucket

unfoldable pub insert_cell : Cell → OffsetMap → OffsetMap
insert_cell cell m =
    if ltb cell.offset m.total_stack_size
    then (let bucket = bucket_of (get cell.offset m.sizes) in
        record m {
          sizes =
              insert cell.offset
                (if has_size bucket cell.size then bucket else bucket ++ (cell.size ∷ [])) m.sizes;
        })
    else m

abbrev retain_others : ℕ → List ℕ → List ℕ
retain_others size [] = []
retain_others size (s ∷ ss) =
    let rest = retain_others size ss in if not (s == size) then s ∷ rest else rest

abbrev put_bucket : ℕ → List ℕ → Map ℕ (List ℕ) → Map ℕ (List ℕ)
put_bucket offset [] sizes = remove offset sizes
put_bucket offset (s ∷ ss) sizes = insert offset (s ∷ ss) sizes

abbrev without : Option (List ℕ) → Cell → Map ℕ (List ℕ) → Map ℕ (List ℕ)
without none c sizes = sizes
without (some bucket) c sizes = put_bucket c.offset (retain_others c.size bucket) sizes

-- A bucket is never kept empty.
unfoldable pub remove_cells : List Cell → OffsetMap → OffsetMap
remove_cells [] m = m
remove_cells (c ∷ cs) m =
    remove_cells cs (record m { sizes = without (get c.offset m.sizes) c m.sizes })

unfoldable pub mk_cell : ℕ → ℕ → OffsetMap → OffsetMap × Cell
unfolding insert_cell
mk_cell offset size m =
    let cell : Cell = record { offset = offset; size = size } in (insert_cell cell m, cell)

abbrev pub add_u64 : ℕ → ℕ → Option ℕ
add_u64 a b = if ltb (a + b) (2 ^ 64) then some (a + b) else none

-- The cells of one offset that reach beyond the start of the range, but for the range itself.
unfoldable pub bucket_before : (offset size off : ℕ) → List ℕ → Option (List Cell)
bucket_before offset size off [] = some []
bucket_before offset size off (s ∷ ss) = add_u64 off s >>= λ end.
    bucket_before offset size off ss >>= λ rest. some (
      if ltb offset end && (not (off == offset) || not (s == size))
      then record { offset = off; size = s } ∷ rest
      else rest)

-- The offsets up to the start of the range, in descending order.
unfoldable pub cells_before : (offset size : ℕ) → Map ℕ (List ℕ) → Option (List Cell)
unfolding bucket_before
cells_before offset size [] = some []
cells_before offset size ((off, bucket) ∷ m) = cells_before offset size m >>= λ later.
    if leb off offset
    then (bucket_before offset size off bucket >>= λ here. some (later ++ here))
    else some later

abbrev pub bucket_cells : ℕ → List ℕ → List Cell
bucket_cells off [] = []
bucket_cells off (s ∷ ss) = record { offset = off; size = s } ∷ bucket_cells off ss

abbrev all_cells : Map ℕ (List ℕ) → List Cell
all_cells [] = []
all_cells ((off, bucket) ∷ m) = bucket_cells off bucket ++ all_cells m

unfoldable pub iter_cells : OffsetMap → List Cell
iter_cells m = all_cells m.sizes

-- The offsets inside of the range, in ascending order.
unfoldable pub cells_inside : (first end : ℕ) → Map ℕ (List ℕ) → List Cell
cells_inside first end [] = []
cells_inside first end ((off, bucket) ∷ m) =
    let later = cells_inside first end m in
    if leb first off && ltb off end then bucket_cells off bucket ++ later else later

unfoldable pub get_overlap_cells : OffsetMap → ℕ → ℕ → Option (List Cell)
unfolding cells_before cells_inside
get_overlap_cells m offset size = add_u64 offset size >>= λ end.
    cells_before offset size m.sizes >>= λ before. add_u64 offset 1 >>= λ fwd_start.
    some (before ++ (if ltb fwd_start end then cells_inside fwd_start end m.sizes else []))
