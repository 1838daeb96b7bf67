-- ===== src/Indexer/Copy/Hashes.antt =====
-- indexer/indexer.cpp: the hash that is written for a row.
use calcsig.Common.{
  ◌≡◌, refl, ap, sym, ◌∙◌, if◌then◌else◌, Bool, true, false, List, [], ◌∷◌, All, Option, none, some,
  Option-cases, inl, inr,
}
use calcsig.Common.Text.{Str, str_eq, lookup, insert, lookup-insert}
use calcsig.Config.{Section}
use calcsig.MysqlConn.{Row, get_value}
use calcsig.Indexer.Values.{to_string}
use calcsig.Indexer.Copy.{fill_hash, text_at}

-- The first word of the column that the first entry for a field names.
abbrev pub first_text : Str → Section → Row → Option Str
first_text k [] row = none
first_text k ((column, target) ∷ entries) row =
    if str_eq target k then text_at column row else first_text k entries row

abbrev or_else : Option Str → Option Str → Option Str
or_else none d = d
or_else (some v) d = some v

or_else-none : (o : Option Str) → or_else o none ≡ o
or_else-none none = refl
or_else-none (some v) = refl

abbrev pub HasColumn : Row → Str × Str → Type 0
HasColumn row e = (v : Str) × (text_at e.0 row ≡ some v)

step_lem :
    (o : Option Str) (b : Bool) (v : Str) (d : Option Str)
    → or_else (elim o [ none ↦ if b then some v else none | some w ↦ some w ]) d
      ≡ or_else o (if b then some v else d)
step_lem none true v d = refl
step_lem none false v d = refl
step_lem (some w) b v d = refl

fill_hash-from :
    (entries : Section) (row : Row) (h : List (Str × Str))
    → All (HasColumn row) entries
    → (g : List (Str × Str)) × (fill_hash entries row h ≡ some g)
      × ((k : Str) → lookup k g ≡ or_else (lookup k h) (first_text k entries row))
unfolding fill_hash text_at
fill_hash-from [] row h has = (h, refl, λ k. sym (or_else-none (lookup k h)))
fill_hash-from ((column, target) ∷ entries) row h has = elim (Option-cases (get_value column row)) [
  | inl e ↦ let (v, there) = has.0 in cc (rw (e, text_at) at there)
  | inr (f, e) ↦
      let v = to_string f.m_value in
      let word : text_at column row ≡ some v = rw (e, text_at) in
      let (g, done, shows) = fill_hash-from entries row (insert target v h) has.1 in
      (
        g,
        rw (e, fill_hash) done,
        λ k.
            shows k
            ∙ ap (λ o. or_else o (first_text k entries row)) (lookup-insert target k v h)
            ∙ step_lem (lookup k h) (str_eq target k) v (first_text k entries row)
            ∙ ap
                (λ o.
                  or_else (lookup k h) (if str_eq target k then o else first_text k entries row))
                (sym word),
      )
]

-- For a row that has every column of the section, the hash is built without an exception, and each of
-- its fields holds the first word of the column that the first entry for the field names: what
-- stands behind a space in the column is left out.
pub fill_hash-first_text :
    (entries : Section) (row : Row)
    → All (HasColumn row) entries
    → (g : List (Str × Str)) × (fill_hash entries row [] ≡ some g)
      × ((k : Str) → lookup k g ≡ first_text k entries row)
unfolding lookup
fill_hash-first_text entries row has = fill_hash-from entries row [] has
