-- ===== src/Crab/OffsetMap/Tests.antt =====
-- src/crab/array_domain.rs: cells at concrete offsets.
use prevail_rust.Base.Tests.{◌≡◌, ◌&&◌, not, some, List, [], ◌∷◌, arith}
use prevail_rust.Crab.OffsetMap.{Cell, OffsetMap, get_overlap_cells}
use prevail_rust.Crab.OffsetMap.Overlap.{
  lists_cell, stores, shares_byte, is_range, get_overlap_cells-lists,
}

-- A cell of eight bytes at 0, and cells of four and of eight at 4.
abbrev three_cells : OffsetMap
three_cells = record { total_stack_size = 4096; sizes = (0, 8 ∷ []) ∷ (4, 4 ∷ 8 ∷ []) ∷ [] }

abbrev probed : Cell
probed = record { offset = 0; size = 8 }

get_overlap_cells-lists_example :
    (out : List Cell) × (get_overlap_cells three_cells 4 4 ≡ some out)
    × (lists_cell out probed
        ≡ (stores three_cells.sizes probed && shares_byte probed 4 4 && not (is_range probed 4 4)))
get_overlap_cells-lists_example =
    get_overlap_cells-lists three_cells 4 4 probed
      (
        (omega arith, omega arith, tt),
        ((omega arith, omega arith, (omega arith, omega arith, tt)), tt),
      )
      (omega arith) (omega arith)
