-- ===== src/Indexer/Copy/Stored.antt =====
-- indexer/indexer.cpp: the hash of a row, `Music:<id>`, behind a pass over rows of the table.
mod Tests
use calcsig.Common.{
  ℕ, ◌≡◌, ◌≢◌, inl, inr, refl, sym, ap, ◌∙◌, subst, arith, ◌==◌, ◌||◌, if◌then◌else◌, Bool, true,
  false, List, [], ◌∷◌, ◌++◌, All, Option, none, some, append_assoc, append-nil, Option-cases,
}
use calcsig.Common.Text.{Str, codes, lookup, insert, insert-new, NewKeys, str_eq}
use calcsig.Config.{Section}
use calcsig.Redis.{Transport, flatten, set_hash, is_ok}
use calcsig.MysqlConn.{Row, get_value}
use calcsig.MysqlConn.Connector.{Client}
use calcsig.Indexer.Values.{to_string}
use calcsig.Indexer.World.{World, Action, pure, or_throw, ◌>>=◌, ◌>>◌, select, hash_set}
use calcsig.Indexer.Copy.{
  section_of, fill_hash, number_at, table_of, row_key, pay_info, audio_info, index_row, index_rows,
}
use calcsig.Indexer.Copy.Hashes.{first_text, HasColumn, fill_hash-first_text}
use calcsig.Indexer.Copy.Keeps.{
  KeepsHash, Same, Keeps, or_throw-Keeps, bind-Keeps, pure-Keeps, if-Keeps, hash_set-Keeps,
  bind-some_inverse, with_redis-state, command-state,
}
use calcsig.Indexer.Copy.Keys.{row_key-ne}
use calcsig.Indexer.Copy.Others.{music, pay_info-Keeps, audio_info-Keeps}

-- The hash of a row has no field twice.
NewKeys-snoc :
    (done m : List (Str × Str)) (k v : Str)
    → NewKeys done m
    → lookup k (done ++ m) ≡ none
    → NewKeys done (m ++ (k, v) ∷ [])
NewKeys-snoc done [] k v new out = (subst (λ l. lookup k l ≡ none) (append-nil done) out, tt)
NewKeys-snoc done ((j, w) ∷ m) k v new out = (
  new.0,
  NewKeys-snoc (done ++ (j, w) ∷ []) m k v new.1
      (subst (λ l. lookup k l ≡ none) (sym (append_assoc done ((j, w) ∷ []) m)) out),
)

insert-old : (k v w : Str) (m : List (Str × Str)) → lookup k m ≡ some w → insert k v m ≡ m
unfolding insert lookup
insert-old k v w [] e = cc
insert-old k v w ((j, u) ∷ m) e = ground (arith, insert-old k v w m)

insert-NewKeys : (k v : Str) (m : List (Str × Str)) → NewKeys [] m → NewKeys [] (insert k v m)
insert-NewKeys k v m new = elim (Option-cases (lookup k m)) [
  | inl e ↦ subst (NewKeys []) (sym (insert-new k v m e)) (NewKeys-snoc [] m k v new e)
  | inr (w, e) ↦ subst (NewKeys []) (sym (insert-old k v w m e)) new
]

fill_hash-NewKeys :
    (entries : Section) (row : Row) (h g : List (Str × Str))
    → fill_hash entries row h ≡ some g
    → NewKeys [] h
    → NewKeys [] g
unfolding fill_hash
fill_hash-NewKeys [] row h g e new = subst (NewKeys []) (cc e) new
fill_hash-NewKeys ((column, target) ∷ entries) row h g e new =
    elim (Option-cases (get_value column row)) [
      | inl missing ↦ cc (rw (missing, fill_hash) at e)
      | inr (f, there) ↦
          fill_hash-NewKeys entries row (insert target (to_string f.m_value) h) g
            (rw (there, fill_hash) at e) (insert-NewKeys target (to_string f.m_value) h new)
    ]

-- A value that was needed was there.
or_throw-some_inverse :
    {client : Client} {tr : Transport} {A B : Type 0} (o : Option A) (f : A → Action client tr B)
    (w v : World client tr) (b : B)
    → (or_throw o >>= f) w ≡ some (b, v)
    → (a : A) × (o ≡ some a) × (f a w ≡ some (b, v))
or_throw-some_inverse none f w v b e = cc
or_throw-some_inverse (some a) f w v b e = (a, refl, e)

module _ (client : Client) (tr : Transport) (config : List (Str × Section)) (left rid : ℕ)
    (law : KeepsHash tr (row_key (codes "Music") rid)) where
  -- The hash has these fields, and may have more.
  abbrev Holds : tr.State → List (Str × Str) → Type 0
  Holds t g = law.IsHashKey t × ((f x : Str) → lookup f g ≡ some x → law.hget t f ≡ some x)

  -- The row has another id, if it has one.
  abbrev pub HasOtherId : Row → Type 0
  HasOtherId row = (n : ℕ) → number_at left (codes "id") row ≡ some n → n ≢ rid

  -- Behind the hash of a row.
  abbrev rest_of : ℕ → ℕ → Action client tr (Unit {0})
  rest_of other source =
      (if 0 == 0 || 0 == 1 then pay_info client tr config left 0 (codes "Music") other else pure tt)
      >> (if 0 == 0 then audio_info client tr config left (codes "Music") other source else pure tt)

  rest_of-Keeps : (other source : ℕ) → Keeps client law (rest_of other source)
  rest_of-Keeps other source =
      bind-Keeps client law _ _ (pay_info-Keeps client tr config left rid law 0 other)
        (λ _. audio_info-Keeps client tr config left rid law other source)

  index_row-Keeps :
      (row : Row) → HasOtherId row → Keeps client law (index_row client tr config left 0 row)
  unfolding index_row table_of
  index_row-Keeps row others =
      or_throw-Keeps client law (number_at left (codes "id") row) _ λ other e.
        or_throw-Keeps client law (number_at left (codes "audiosourceid") row) _ λ source _.
          or_throw-Keeps client law (fill_hash (section_of (codes "Music") config) row []) _ λ h _.
            bind-Keeps client law (hash_set client tr (row_key (codes "Music") other) h)
              (λ _. rest_of other source)
              (hash_set-Keeps client law (row_key (codes "Music") other) h
                (row_key-ne (codes "Music") rid other (others other e)))
              (λ _. rest_of-Keeps other source)

  index_rows-Keeps :
      (rows : List Row)
      → All HasOtherId rows
      → Keeps client law (index_rows client tr config left 0 rows)
  unfolding index_rows
  index_rows-Keeps [] others = pure-Keeps client law
  index_rows-Keeps (row ∷ rows) others =
      bind-Keeps client law (index_row client tr config left 0 row)
        (λ _. index_rows client tr config left 0 rows) (index_row-Keeps row others.0)
        (λ _. index_rows-Keeps rows others.1)

  hash_set-Holds :
      (h : List (Str × Str)) (w u : World client tr)
      → NewKeys [] h
      → hash_set client tr (row_key (codes "Music") rid) h w ≡ some (tt, u)
      → law.IsHashKey w.redis_conn
      → Holds u.redis_conn h
  unfolding set_hash
  hash_set-Holds h w u new e at_hash =
      let (b, s) =
        with_redis-state client law (set_hash tr (row_key (codes "Music") rid) h) w u e in
      subst (λ t. Holds t h)
        (command-state tr (codes "HMSET" ∷ row_key (codes "Music") rid ∷ flatten h) is_ok
          w.redis_conn u.redis_conn b s)
        (law.write w.redis_conn h at_hash new)

  index_row-Holds :
      (row : Row) (g : List (Str × Str)) (w v : World client tr)
      → number_at left (codes "id") row ≡ some rid
      → fill_hash (section_of (codes "Music") config) row [] ≡ some g
      → index_row client tr config left 0 row w ≡ some (tt, v)
      → law.IsHashKey w.redis_conn
      → Holds v.redis_conn g
  unfolding index_row table_of
  index_row-Holds row g w v id filled e at_hash =
      let (r, er, e1) = or_throw-some_inverse (number_at left (codes "id") row) _ w v tt e in
      let (source, es, e2) =
        or_throw-some_inverse (number_at left (codes "audiosourceid") row) _ w v tt e1 in
      let (h, eh, e3) =
        or_throw-some_inverse (fill_hash (section_of (codes "Music") config) row []) _ w v tt e2 in
      let (_, u, here, there) =
        bind-some_inverse (hash_set client tr (row_key (codes "Music") r) h) (λ _. rest_of r source)
          w v tt e3 in
      let same_id : r ≡ rid = cc (er, id) in
      let same_hash : h ≡ g = cc (eh, filled) in
      let own =
        subst (λ k. hash_set client tr (row_key (codes "Music") k) h w ≡ some (tt, u)) same_id
          here in
      let set =
        subst (λ k. hash_set client tr (row_key (codes "Music") rid) k w ≡ some (tt, u)) same_hash
          own in
      let (at_u, has) = hash_set-Holds g w u (fill_hash-NewKeys _ row [] g filled tt) set at_hash in
      let (at_v, same) = rest_of-Keeps r source u v tt there at_u in
      (at_v, λ f x e. same f ∙ has f x e)

  index_rows-Holds :
      (before after : List Row) (row : Row) (g : List (Str × Str)) (w v : World client tr)
      → number_at left (codes "id") row ≡ some rid
      → fill_hash (section_of (codes "Music") config) row [] ≡ some g
      → All HasOtherId before
      → All HasOtherId after
      → index_rows client tr config left 0 (before ++ row ∷ after) w ≡ some (tt, v)
      → law.IsHashKey w.redis_conn
      → Holds v.redis_conn g
  unfolding index_rows
  index_rows-Holds [] after row g w v id filled ob oa e at_hash =
      let (_, u, e1, e2) =
        bind-some_inverse (index_row client tr config left 0 row)
          (λ _. index_rows client tr config left 0 after) w v tt e in
      let (at_u, has) = index_row-Holds row g w u id filled e1 at_hash in
      let (at_v, same) = index_rows-Keeps after oa u v tt e2 at_u in
      (at_v, λ f x e. same f ∙ has f x e)
  index_rows-Holds (b ∷ before) after row g w v id filled ob oa e at_hash =
      let (_, u, e1, e2) =
        bind-some_inverse (index_row client tr config left 0 b)
          (λ _. index_rows client tr config left 0 (before ++ row ∷ after)) w v tt e in
      index_rows-Holds before after row g u v id filled ob.1 oa e2
        (index_row-Keeps b ob.0 w u tt e1 at_hash).0

-- The rows of the table `Music`, of which just one has the id `rid`, and it has every column of the
-- section. On a server that keeps its hashes, where the key of that row is absent or holds a hash, a pass
-- over the rows that no exception ends leaves under that key each field that the section names, with the
-- first word of the column that the first entry for it names.
pub index_rows-first_text :
    (client : Client) (tr : Transport) (config : List (Str × Section)) (left rid : ℕ)
    (law : KeepsHash tr (row_key (codes "Music") rid)) (before after : List Row) (row : Row)
    (w v : World client tr)
    → number_at left (codes "id") row ≡ some rid
    → All (HasColumn row) (section_of (codes "Music") config)
    → All (HasOtherId client tr config left rid law) before
    → All (HasOtherId client tr config left rid law) after
    → law.IsHashKey w.redis_conn
    → index_rows client tr config left 0 (before ++ row ∷ after) w ≡ some (tt, v)
    → (f x : Str) → first_text f (section_of (codes "Music") config) row ≡ some x
    → law.hget v.redis_conn f ≡ some x
index_rows-first_text client tr config left rid law before after row w v id has ob oa at_hash e f x
      shown =
    let (g, filled, shows) = fill_hash-first_text (section_of (codes "Music") config) row has in
    (index_rows-Holds client tr config left rid law before after row g w v id filled ob oa e
        at_hash).1
      f x (shows f ∙ shown)
