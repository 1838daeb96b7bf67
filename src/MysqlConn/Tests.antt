-- ===== src/MysqlConn/Tests.antt =====
-- A concrete row.
use calcsig.Common.{
  ℕ, ◌≡◌, refl, List, Bool, true, false, [], ◌∷◌, ◌++◌, map, get_elem?, total, none, some,
}
use calcsig.Common.Text.{Str, codes}
use calcsig.MysqlConn.{Cell, Row, new_row, fill_row, at_column, get_value}
use calcsig.MysqlConn.Memory.{free_rows, new_rows, use_row}
use calcsig.MysqlConn.Memory.Freed.{objects, block}
use calcsig.MysqlConn.Memory.Twice.{free_rows-new_rows}
use calcsig.MysqlConn.Rows.{field_of, last_named, fill_row-cells}

-- A name that stands twice, and a NULL.
abbrev three_cells : List Cell
three_cells =
    record { name = codes "id"; content = some (codes "7"); length = 1 }
    ∷ record { name = codes "name"; content = none; length = 0 }
    ∷ record { name = codes "id"; content = some (codes "8"); length = 1 }
    ∷ []

fill_row-cells_example :
    (row : Row) × (fill_row three_cells new_row ≡ some row)
    × ((i : ℕ) → at_column i row ≡ get_elem? (map field_of three_cells) i)
    × ((name : Str) → get_value name row ≡ last_named name three_cells)
fill_row-cells_example = fill_row-cells three_cells

-- Two rows behind an object of somebody else.
abbrev rows : List (List Cell)
rows = three_cells ∷ three_cells ∷ []

abbrev heap : List Bool
heap = true ∷ []

free_rows-new_rows_example :
    (free_rows (new_rows rows heap).0 (new_rows rows heap).1
      ≡ some (heap ++ block false (total objects rows) []))
    × (h : List Bool) × (use_row 1 (new_rows rows heap).0 (new_rows rows heap).1 ≡ some h)
    × (free_rows (new_rows rows heap).0 h ≡ none)
free_rows-new_rows_example = free_rows-new_rows rows heap 1 _ _ refl
