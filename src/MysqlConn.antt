-- ===== src/MysqlConn.antt =====
-- mysqlpool/mysqlconn.h and mysqlpool/mysqlconn.cpp: the connection to MySQL, its results and their
-- rows. The MySQL client is a parameter. A field is named by the number of its `new` in its row.
pub mod Rows
pub mod Connector
pub mod Memory
pub mod Tests
use calcsig.Common.{
  ℕ, zero, suc, ◌+◌, ◌==◌, ltb, if◌then◌else◌, Bool, true, false, List, [], ◌∷◌, ◌++◌, length,
  get_elem?, set, Option, none, some,
}
use calcsig.Common.Text.{Str, lookup}

-- A cell of a row, as `mysql_fetch_row` and `mysql_fetch_lengths` give it: `none` is NULL. The text
-- is the C string at the pointer, and so ends before a zero byte.
pub record Cell : Type 0 where
  pub name : Str
  pub content : Option Str
  pub length : ℕ

-- `m_value` and `m_length` of a `mysqlfield`, and the name that its constructor copies.
pub record Field : Type 0 where
  pub name : Str
  pub m_value : Str
  pub m_length : ℕ

-- `fields` holds what the pointers point to.
pub record Row : Type 0 where
  pub fields : List Field
  pub m_fields : List (Str × ℕ)
  pub m_vfields : List ℕ

abbrev pub new_row : Row
new_row = record { fields = []; m_fields = []; m_vfields = [] }

unfoldable pub set_value : Str → ℕ → Field → Field
set_value value length f = record f { m_value = value; m_length = length }

pub unset_value : Field → Field
unset_value f = record f { m_value = []; m_length = 0 }

-- Through a pointer, if there is one.
unfoldable pub deref : List Field → Option ℕ → Option Field
deref fields none = none
deref fields (some p) = get_elem? fields p

-- `none` is the exception.
unfoldable pub set_field : Str → Str → ℕ → Row → Option Row
unfolding set_value deref
set_field name value length row = elim (lookup name row.m_fields) [
  | none ↦ none
  | some p ↦ elim (deref row.fields (some p)) [
    | none ↦ none
    | some f ↦ some (record row { fields = set row.fields p (set_value value length f) })
  ]
]

-- `none` is the exception.
unfoldable pub get_value : Str → Row → Option Field
unfolding deref
get_value name row = deref row.fields (lookup name row.m_fields)

-- `operator[]` with a name.
pub at_name : Str → Row → Option Field
unfolding deref
at_name name row = deref row.fields (lookup name row.m_fields)

-- `operator[]` with a number.
pub at_column : ℕ → Row → Option Field
unfolding deref
at_column i row = deref row.fields (get_elem? row.m_vfields i)

pub field_exists : Str → Row → Bool
field_exists name row = elim (lookup name row.m_fields) [ none ↦ false | some p ↦ true ]

abbrev pub text_of : Option Str → Str
text_of none = []
text_of (some s) = s

-- `new mysqlfield(fields+i)`, and its entry in `m_fields`, where the newest entry of a name counts.
unfoldable pub new_field : Str → Row → Row
new_field name row = record row {
  fields = row.fields ++ record { name = name; m_value = []; m_length = 0 } ∷ [];
  m_fields = (name, length row.fields) ∷ row.m_fields;
}

-- One round of the inner loop of `fetchall`.
unfoldable pub add_cell : Cell → Row → Option Row
unfolding new_field set_field
add_cell c row = elim (set_field c.name (text_of c.content) c.length (new_field c.name row)) [
  | none ↦ none
  | some r ↦ some (record r { m_vfields = r.m_vfields ++ length row.fields ∷ [] })
]

unfoldable pub fill_row : List Cell → Row → Option Row
unfolding add_cell
fill_row [] row = some row
fill_row (c ∷ cs) row = elim (add_cell c row) [ none ↦ none | some r ↦ fill_row cs r ]

-- `m_result` is the rows that the client has yet to give.
pub record MysqlResult : Type 0 where
  pub m_result : Option (List (List Cell))
  pub m_rows : List Row
  pub cur_iter : ℕ

-- The outer loop of `fetchall`.
unfoldable pub fetch_rows : List (List Cell) → List Row → Option (List Row)
unfolding fill_row
fetch_rows [] rows = some rows
fetch_rows (cells ∷ more) rows = elim (fill_row cells new_row) [
  | none ↦ none
  | some r ↦ fetch_rows more (rows ++ r ∷ [])
]

-- `none` is an exception, or the use of a null pointer where there is no result.
unfoldable pub fetchall : MysqlResult → Option MysqlResult
unfolding fetch_rows
fetchall res = elim res.m_result [
  | none ↦ none
  | some more ↦ elim (fetch_rows more res.m_rows) [
    | none ↦ none
    | some rows ↦ some (record res { m_result = some []; m_rows = rows })
  ]
]

-- `operator[]` of a result: the row that is copied. What the destructor of the copy does to the fields
-- is in MysqlConn/Memory.
pub at_row : ℕ → MysqlResult → Option Row
at_row iter res = get_elem? res.m_rows iter

-- `none` is `nullptr`.
pub next : MysqlResult → Option Row × MysqlResult
next res = elim (get_elem? res.m_rows res.cur_iter) [
  | none ↦ (none, res)
  | some r ↦ (some r, record res { cur_iter = suc res.cur_iter })
]

pub reset_iter : MysqlResult → MysqlResult
reset_iter res = record res { cur_iter = 0 }

-- `mysqlresult::free`.
pub free : MysqlResult → MysqlResult
free res = record res { m_rows = [] }
