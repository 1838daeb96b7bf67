-- ===== src/MysqlConn/Rows.antt =====
-- mysqlpool/mysqlconn.cpp: the rows that `fetchall` builds.
use calcsig.Common.{
  ℕ, zero, suc, ◌+◌, ◌<◌, ◌≡◌, refl, ap, sym, ◌∙◌, arith, if◌then◌else◌, Bool, true, false, List,
  [], ◌∷◌, ◌++◌, length, map, get_elem?, set, Option, none, some, Option-cases, Bool-cases, inl,
  inr, append_assoc, append-nil, length-append,
}
use calcsig.Common.Text.{Str, str_eq, str_eq_refl, lookup}
use calcsig.MysqlConn.{
  Cell, Field, Row, new_row, set_value, deref, set_field, get_value, at_column, text_of, new_field,
  add_cell, fill_row,
}

-- The field that shows a cell; NULL shows as the empty text.
abbrev pub field_of : Cell → Field
field_of c = record { name = c.name; m_value = text_of c.content; m_length = c.length }

get_elem-end : {A : Type 0} (xs ys : List A) (x : A) → get_elem? (xs ++ x ∷ ys) (length xs) ≡ some x
get_elem-end [] ys x = refl
get_elem-end (a ∷ xs) ys x = get_elem-end xs ys x

set-end : {A : Type 0} (xs : List A) (x y : A) → set (xs ++ x ∷ []) (length xs) y ≡ xs ++ y ∷ []
set-end [] x y = refl
set-end (a ∷ xs) x y = ap (λ r. a ∷ r) (set-end xs x y)

get_elem-keep :
    {A : Type 0} (xs : List A) (x : A) (i : ℕ)
    → i < length xs
    → get_elem? (xs ++ x ∷ []) i ≡ get_elem? xs i
get_elem-keep [] x i h = elim h [ ]
get_elem-keep (a ∷ xs) x zero h = refl
get_elem-keep (a ∷ xs) x (suc i) h = get_elem-keep xs x i (omega (arith, h))

abbrev added : Cell → Row → Row
added c row = record {
  fields = row.fields ++ field_of c ∷ [];
  m_fields = (c.name, length row.fields) ∷ row.m_fields;
  m_vfields = row.m_vfields ++ length row.fields ∷ [];
}

add_cell_eq : (c : Cell) (row : Row) → add_cell c row ≡ some (added c row)
unfolding add_cell new_field set_field set_value deref lookup
add_cell_eq c row =
    rw (str_eq_refl c.name, add_cell)
      (rw (get_elem-end row.fields [] (record { name = c.name; m_value = []; m_length = 0 })) (
        ap
          (λ (fs : List Field). some (record {
            fields = fs;
            m_fields = (c.name, length row.fields) ∷ row.m_fields;
            m_vfields = row.m_vfields ++ length row.fields ∷ [];
          }))
          (set-end row.fields (record { name = c.name; m_value = []; m_length = 0 }) (field_of c))))

abbrev added_all : List Cell → Row → Row
added_all [] row = row
added_all (c ∷ cs) row = added_all cs (added c row)

fill_row_eq : (cs : List Cell) (row : Row) → fill_row cs row ≡ some (added_all cs row)
unfolding fill_row
fill_row_eq [] row = refl
fill_row_eq (c ∷ cs) row = rw (add_cell_eq c row, fill_row) (fill_row_eq cs (added c row))

abbrev pub or_else : Option Field → Option Field → Option Field
or_else none d = d
or_else (some f) d = some f

or_else-none : (o : Option Field) → or_else o none ≡ o
or_else-none none = refl
or_else-none (some f) = refl

-- The last cell of a name.
abbrev pub last_named : Str → List Cell → Option Field
last_named name [] = none
last_named name (c ∷ cs) =
    or_else (last_named name cs) (if str_eq c.name name then some (field_of c) else none)

abbrev Bound : Row → Type 0
Bound row = (name : Str) (p : ℕ) → lookup name row.m_fields ≡ some p → p < length row.fields

added-Bound : (c : Cell) (row : Row) → Bound row → Bound (added c row)
unfolding lookup
added-Bound c row h name p e =
    let n = length-append row.fields (field_of c ∷ []) in ground (arith, n, h name p, e)

added-get_value :
    (c : Cell) (row : Row) (name : Str)
    → Bound row
    → get_value name (added c row)
      ≡ (if str_eq c.name name then some (field_of c) else get_value name row)
unfolding get_value deref lookup
added-get_value c row name h = elim (Bool-cases (str_eq c.name name)) [
  | inl e ↦ rw (e, get_value) (get_elem-end row.fields [] (field_of c))
  | inr e ↦ elim (Option-cases (lookup name row.m_fields)) [
    | inl l ↦ rw (e, l, get_value)
    | inr (p, l) ↦ rw (e, l, get_value) (get_elem-keep row.fields (field_of c) p (h name p l))
  ]
]

last_wins :
    (o : Option Field) (b : Bool) (f : Field) (d e : Option Field)
    → d ≡ (if b then some f else e)
    → or_else o d ≡ or_else (or_else o (if b then some f else none)) e
last_wins none true f d e h = h
last_wins none false f d e h = h
last_wins (some g) b f d e h = refl

added_all-get_value :
    (cs : List Cell) (row : Row) (name : Str)
    → Bound row
    → get_value name (added_all cs row) ≡ or_else (last_named name cs) (get_value name row)
added_all-get_value [] row name h = refl
added_all-get_value (c ∷ cs) row name h =
    added_all-get_value cs (added c row) name (added-Bound c row h)
    ∙ last_wins (last_named name cs) (str_eq c.name name) (field_of c) _ _
        (added-get_value c row name h)

abbrev upto : ℕ → ℕ → List ℕ
upto k zero = []
upto k (suc n) = k ∷ upto (suc k) n

upto-end : (k n : ℕ) → upto k (suc n) ≡ upto k n ++ (k + n) ∷ []
upto-end k zero = ap (λ m. m ∷ []) (omega arith)
upto-end k (suc n) =
    ap (λ r. k ∷ r) (upto-end (suc k) n ∙ ap (λ m. upto (suc k) n ++ m ∷ []) (omega arith))

added_all-fields :
    (cs : List Cell) (row : Row) → (added_all cs row).fields ≡ row.fields ++ map field_of cs
added_all-fields [] row = sym (append-nil row.fields)
added_all-fields (c ∷ cs) row =
    added_all-fields cs (added c row) ∙ append_assoc row.fields (field_of c ∷ []) (map field_of cs)

added_all-m_vfields :
    (cs : List Cell) (row : Row)
    → row.m_vfields ≡ upto 0 (length row.fields)
    → (added_all cs row).m_vfields ≡ upto 0 (length (added_all cs row).fields)
added_all-m_vfields [] row h = h
added_all-m_vfields (c ∷ cs) row h =
    let n : suc (length row.fields) ≡ length (row.fields ++ field_of c ∷ []) =
      omega (arith, length-append row.fields (field_of c ∷ [])) in
    added_all-m_vfields cs (added c row) (
      ap (λ r. r ++ length row.fields ∷ []) h
      ∙ sym (
          upto-end 0 (length row.fields)
          ∙ ap (λ m. upto 0 (length row.fields) ++ m ∷ []) (omega arith))
      ∙ ap (upto 0) n)

-- Reading through the pointers in turn gives the fields in turn.
follow :
    (pre xs : List Field) (i : ℕ)
    → deref (pre ++ xs) (get_elem? (upto (length pre) (length xs)) i) ≡ get_elem? xs i
unfolding deref
follow pre [] i = refl
follow pre (f ∷ xs) zero = get_elem-end pre xs f
follow pre (f ∷ xs) (suc i) =
    let n : suc (length pre) ≡ length (pre ++ f ∷ []) = omega (arith, length-append pre (f ∷ [])) in
    ap (λ k. deref (pre ++ f ∷ xs) (get_elem? (upto k (length xs)) i)) n
    ∙ ap (λ l. deref l (get_elem? (upto (length (pre ++ f ∷ [])) (length xs)) i))
        (sym (append_assoc pre (f ∷ []) xs))
    ∙ follow (pre ++ f ∷ []) xs i

at_column-numbered :
    (row : Row) (i : ℕ)
    → row.m_vfields ≡ upto 0 (length row.fields)
    → at_column i row ≡ get_elem? row.fields i
unfolding at_column
at_column-numbered row i h = ap (λ v. deref row.fields (get_elem? v i)) h ∙ follow [] row.fields i

-- For any row that the client gives, `fetchall` builds one without an exception; it has the cells in
-- their order, NULL as the empty text, and under a name the last cell of that name.
pub fill_row-cells :
    (cells : List Cell)
    → (row : Row) × (fill_row cells new_row ≡ some row)
      × ((i : ℕ) → at_column i row ≡ get_elem? (map field_of cells) i)
      × ((name : Str) → get_value name row ≡ last_named name cells)
unfolding get_value deref lookup
fill_row-cells cells =
    let row = added_all cells new_row in
    (
      row,
      fill_row_eq cells new_row,
      λ i.
          at_column-numbered row i (added_all-m_vfields cells new_row refl)
          ∙ ap (λ fs. get_elem? fs i) (added_all-fields cells new_row),
      λ name.
          added_all-get_value cells new_row name (λ k p e. cc e)
          ∙ or_else-none (last_named name cells),
    )
