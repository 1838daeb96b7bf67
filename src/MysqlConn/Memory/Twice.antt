-- ===== src/MysqlConn/Memory/Twice.antt =====
-- mysqlpool/mysqlconn.h and mysqlpool/mysqlconn.cpp: `free` with and without a copy of a row before it.
use calcsig.Common.{
  ℕ, zero, suc, ◌≡◌, refl, subst, Bool, true, false, List, [], ◌∷◌, ◌++◌, length, get_elem?, total,
  none, some,
}
use calcsig.MysqlConn.{Cell}
use calcsig.MysqlConn.Memory.{destroy_row, free_rows, new_rows, use_row}
use calcsig.MysqlConn.Memory.Copies.{destroy_row-dead, free_rows-dead}
use calcsig.MysqlConn.Memory.Freed.{
  objects, block, longer, next_row, next_rows, shift, block-add, append-block, length-block,
  new_rows_lem, delete_all-next_fields, free_rows-next,
}

-- The row `i` among the next ones, which its destructor can be called for.
abbrev RowAt : List (List Cell) → List Bool → List Bool → ℕ → List Cell → Type 0
RowAt rows front back i cells =
    (p : ℕ) × (h : List Bool) × (get_elem? (next_rows (length front) rows) i
      ≡ some (next_row p cells))
    × (destroy_row (next_row p cells) (front ++ block true (total objects rows) back) ≡ some h)

next_rows-RowAt :
    (rows : List (List Cell)) (front back : List Bool) (i : ℕ) (cells : List Cell)
    → get_elem? rows i ≡ some cells
    → RowAt rows front back i cells
unfolding destroy_row
next_rows-RowAt [] front back i cells e = cc e
next_rows-RowAt (row ∷ more) front back zero cells e =
    let rest = block true (total objects more) back in
    let alone =
      shift (length row) front rest true
        (delete_all-next_fields (length row) (longer front true) rest) in
    let there : RowAt (row ∷ more) front back zero row = (
      length front,
      front ++ true ∷ block false (length row) rest,
      refl,
      rw (block-add true (objects row) (total objects more) back) alone,
    ) in
    subst (RowAt (row ∷ more) front back zero) (some_eq e) there
  where
    some_eq : {a b : List Cell} → some a ≡ some b → a ≡ b
    some_eq e = cc e
next_rows-RowAt (row ∷ more) front back (suc i) cells e =
    let wide = front ++ block true (objects row) [] in
    let (p, h, found, destroyed) = next_rows-RowAt more wide back i cells e in
    (
      p,
      h,
      rw (length-block front true (objects row)) at found,
      rw
          (
            block-add true (objects row) (total objects more) back,
            append-block front (block true (total objects more) back) true (objects row),
          )
          destroyed,
    )

-- The rows of `fetchall` and their fields are each deleted once by `free`, and nothing else is. If a
-- row with a field was looked at by `operator[]` before, `free` deletes a field that is no more there.
pub free_rows-new_rows :
    (rows : List (List Cell)) (heap : List Bool) (i : ℕ) (c : Cell) (cs : List Cell)
    → get_elem? rows i ≡ some (c ∷ cs)
    → (free_rows (new_rows rows heap).0 (new_rows rows heap).1
        ≡ some (heap ++ block false (total objects rows) []))
      × (h : List Bool) × (use_row i (new_rows rows heap).0 (new_rows rows heap).1 ≡ some h)
      × (free_rows (new_rows rows heap).0 h ≡ none)
unfolding use_row
free_rows-new_rows rows heap i c cs e =
    let (p, h, found, destroyed) = next_rows-RowAt rows heap [] i (c ∷ cs) e in
    let gone = destroy_row-dead (next_row p (c ∷ cs)) _ h (suc p) _ refl destroyed in
    rw (new_rows_lem rows heap) (
      free_rows-next rows heap [],
      h,
      rw (found, use_row) destroyed,
      free_rows-dead (next_rows (length heap) rows) h i (next_row p (c ∷ cs)) (suc p) _ found refl
          gone,
    )
