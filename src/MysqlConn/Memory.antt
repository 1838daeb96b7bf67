-- ===== src/MysqlConn/Memory.antt =====
-- mysqlpool/mysqlconn.h and mysqlpool/mysqlconn.cpp: who deletes the rows of a result and their fields.
-- The heap says of each object that was made by `new` whether it is alive; a pointer is its number. The
-- objects are those of `mysqlrow` and `mysqlfield`; what stands in a field is in MysqlConn.
pub mod Copies
pub mod Freed
pub mod Twice
use calcsig.Common.{
  ℕ, zero, suc, ◌+◌, ◌≡◌, refl, sym, ap, ◌∙◌, subst, arith, Bool, true, false, List, [], ◌∷◌, ◌++◌,
  append_assoc, append-nil, length, length-append, get_elem?, set, replicate, Option, none, some,
  Option-cases, inl, inr,
}
use calcsig.MysqlConn.{Cell}

-- A pointer to a `mysqlrow` and the pointers in its `m_vfields`.
pub record RowObject : Type 0 where
  pub self : ℕ
  pub m_vfields : List ℕ

-- `none` is the deletion of what is not alive.
pub delete : ℕ → List Bool → Option (List Bool)
delete p heap = elim (get_elem? heap p) [
  | none ↦ none
  | some alive ↦ elim alive [ true ↦ some (set heap p false) | false ↦ none ]
]

pub delete_all : List ℕ → List Bool → Option (List Bool)
unfolding delete
delete_all [] heap = some heap
delete_all (p ∷ ps) heap = elim (delete p heap) [ none ↦ none | some h ↦ delete_all ps h ]

-- `~mysqlrow()`, of the row itself or of a copy, which has the same pointers.
pub destroy_row : RowObject → List Bool → Option (List Bool)
unfolding delete_all
destroy_row row heap = delete_all row.m_vfields heap

-- `delete` of a pointer to a row.
pub delete_row : RowObject → List Bool → Option (List Bool)
unfolding destroy_row
delete_row row heap = elim (destroy_row row heap) [ none ↦ none | some h ↦ delete row.self h ]

-- `mysqlresult::free`.
pub free_rows : List RowObject → List Bool → Option (List Bool)
unfolding delete_row
free_rows [] heap = some heap
free_rows (r ∷ rs) heap = elim (delete_row r heap) [ none ↦ none | some h ↦ free_rows rs h ]

-- `new mysqlfield`, once for each cell.
pub new_fields : List Cell → List Bool → List ℕ × List Bool
new_fields [] heap = ([], heap)
new_fields (c ∷ cs) heap = let (ps, h) = new_fields cs (heap ++ true ∷ []) in (length heap ∷ ps, h)

-- The loops of `fetchall`.
pub new_rows : List (List Cell) → List Bool → List RowObject × List Bool
unfolding new_fields
new_rows [] heap = ([], heap)
new_rows (cells ∷ more) heap =
    let (ps, h) = new_fields cells (heap ++ true ∷ []) in
    let (rows, h') = new_rows more h in (record { self = length heap; m_vfields = ps } ∷ rows, h')

-- `operator[]` of a result, and the end of the copy that it returns. An exception copies nothing.
pub use_row : ℕ → List RowObject → List Bool → Option (List Bool)
unfolding destroy_row
use_row iter rows heap = elim (get_elem? rows iter) [
  | none ↦ some heap
  | some r ↦ destroy_row r heap
]
