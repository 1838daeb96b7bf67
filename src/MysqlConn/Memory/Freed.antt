-- ===== src/MysqlConn/Memory/Freed.antt =====
-- mysqlpool/mysqlconn.h and mysqlpool/mysqlconn.cpp: what `fetchall` allocates and what `free` does to
-- it.
use calcsig.Common.{
  ℕ, zero, suc, ◌+◌, ◌≡◌, refl, sym, ap, ◌∙◌, arith, Bool, true, false, List, [], ◌∷◌, ◌++◌,
  append_assoc, append-nil, length, length-append, get_elem?, set, total, some,
}
use calcsig.MysqlConn.{Cell}
use calcsig.MysqlConn.Memory.{
  RowObject, delete, delete_all, destroy_row, delete_row, free_rows, new_fields, new_rows,
}

-- The objects of a row: itself and its fields.
abbrev pub objects : List Cell → ℕ
objects cells = suc (length cells)

-- The heap behind `front`, where the next objects are alive or not.
abbrev pub block : Bool → ℕ → List Bool → List Bool
block b zero back = back
block b (suc n) back = b ∷ block b n back

get_elem?-front :
    (front back : List Bool) (b : Bool) → get_elem? (front ++ b ∷ back) (length front) ≡ some b
get_elem?-front [] back b = refl
get_elem?-front (x ∷ front) back b = get_elem?-front front back b

set-front :
    (front back : List Bool) (b c : Bool)
    → set (front ++ b ∷ back) (length front) c ≡ front ++ c ∷ back
set-front [] back b c = refl
set-front (x ∷ front) back b c = ap (◌∷◌ x) (set-front front back b c)

delete-front :
    (front back : List Bool)
    → delete (length front) (front ++ true ∷ back) ≡ some (front ++ false ∷ back)
unfolding delete
delete-front front back =
    rw (get_elem?-front front back true, delete, set-front front back true false) refl

-- One object further.
abbrev pub longer : List Bool → Bool → List Bool
longer front b = front ++ b ∷ []

length-longer : (front : List Bool) (b : Bool) → length (longer front b) ≡ suc (length front)
length-longer front b = omega (arith, length-append front (b ∷ []))

abbrev pub next_fields : ℕ → ℕ → List ℕ
next_fields p zero = []
next_fields p (suc n) = p ∷ next_fields (suc p) n

new_fields_lem :
    (cells : List Cell) (front : List Bool)
    → new_fields cells front
      ≡ (next_fields (length front) (length cells), front ++ block true (length cells) [])
unfolding new_fields
new_fields_lem [] front = ap (λ h. ([], h)) (sym (append-nil front))
new_fields_lem (c ∷ cs) front =
    rw
      (
        new_fields_lem cs (longer front true),
        length-longer front true,
        append_assoc front (true ∷ []) (block true (length cs) []),
      )
      refl

-- What is deleted behind one more object.
pub shift :
    (n : ℕ) (front back : List Bool) (b : Bool)
    → delete_all (next_fields (length (longer front b)) n) (longer front b ++ block true n back)
      ≡ some (longer front b ++ block false n back)
    → delete_all (next_fields (suc (length front)) n) (front ++ b ∷ block true n back)
      ≡ some (front ++ b ∷ block false n back)
shift n front back b e =
    rw
      (
        length-longer front b,
        append_assoc front (b ∷ []) (block true n back),
        append_assoc front (b ∷ []) (block false n back),
      )
      at e

pub delete_all-next_fields :
    (n : ℕ) (front back : List Bool)
    → delete_all (next_fields (length front) n) (front ++ block true n back)
      ≡ some (front ++ block false n back)
unfolding delete_all
delete_all-next_fields zero front back = refl
delete_all-next_fields (suc n) front back =
    rw (delete-front front (block true n back), delete_all)
      (shift n front back false (delete_all-next_fields n (longer front false) back))

pub block-add :
    (b : Bool) (n k : ℕ) (back : List Bool) → block b (n + k) back ≡ block b n (block b k back)
block-add b zero k back = let e : 0 + k ≡ k = omega arith in ap (λ m. block b m back) e
block-add b (suc n) k back =
    let e : suc n + k ≡ suc (n + k) = omega arith in
    ap (λ m. block b m back) e ∙ ap (◌∷◌ b) (block-add b n k back)

-- The row whose objects come next.
abbrev pub next_row : ℕ → List Cell → RowObject
next_row p cells = record { self = p; m_vfields = next_fields (suc p) (length cells) }

abbrev pub next_rows : ℕ → List (List Cell) → List RowObject
next_rows p [] = []
next_rows p (cells ∷ more) = next_row p cells ∷ next_rows (p + objects cells) more

pub append-block :
    (front back : List Bool) (b : Bool) (n : ℕ)
    → front ++ block b n back ≡ (front ++ block b n []) ++ back
append-block front back b n =
    rw (append_assoc front (block b n []) back, block-append b n back) refl
  where
    block-append : (b : Bool) (n : ℕ) (back : List Bool) → block b n [] ++ back ≡ block b n back
    block-append b zero back = refl
    block-append b (suc n) back = ap (◌∷◌ b) (block-append b n back)

pub length-block :
    (front : List Bool) (b : Bool) (n : ℕ) → length (front ++ block b n []) ≡ length front + n
length-block front b n = omega (arith, length-append front (block b n []), size b n)
  where
    size : (b : Bool) (n : ℕ) → length (block b n []) ≡ n
    size b zero = refl
    size b (suc n) = omega (arith, size b n)

pub new_rows_lem :
    (rows : List (List Cell)) (front : List Bool)
    → new_rows rows front
      ≡ (next_rows (length front) rows, front ++ block true (total objects rows) [])
unfolding new_rows
new_rows_lem [] front = ap (λ h. ([], h)) (sym (append-nil front))
new_rows_lem (cells ∷ more) front =
    let wide = front ++ block true (objects cells) [] in
    rw
      (
        new_fields_lem cells (longer front true),
        length-longer front true,
        append_assoc front (true ∷ []) (block true (length cells) []),
        new_rows_lem more wide,
        length-block front true (objects cells),
        sym (append-block front (block true (total objects more) []) true (objects cells)),
        block-add true (objects cells) (total objects more) [],
      )
      refl

delete_row-next :
    (cells : List Cell) (front back : List Bool)
    → delete_row (next_row (length front) cells) (front ++ block true (objects cells) back)
      ≡ some (front ++ block false (objects cells) back)
unfolding delete_row destroy_row
delete_row-next cells front back =
    rw
      (
        shift (length cells) front back true
            (delete_all-next_fields (length cells) (longer front true) back),
        delete-front front (block false (length cells) back),
        delete_row,
        destroy_row,
      )
      refl

pub free_rows-next :
    (rows : List (List Cell)) (front back : List Bool)
    → free_rows (next_rows (length front) rows) (front ++ block true (total objects rows) back)
      ≡ some (front ++ block false (total objects rows) back)
unfolding free_rows
free_rows-next [] front back = refl
free_rows-next (cells ∷ more) front back =
    let freed = front ++ block false (objects cells) [] in
    let rest = total objects more in
    let later : free_rows (next_rows (length front + objects cells) more)
          (front ++ block false (objects cells) (block true rest back))
        ≡ some (front ++ block false (objects cells) (block false rest back)) =
      rw
        (
          length-block front false (objects cells),
          sym (append-block front (block true rest back) false (objects cells)),
          sym (append-block front (block false rest back) false (objects cells)),
        )
        at (free_rows-next more freed back) in
    rw
      (
        block-add true (objects cells) rest back,
        block-add false (objects cells) rest back,
        delete_row-next cells front (block true rest back),
        free_rows,
        later,
      )
      refl
