-- ===== src/IndexerInc/Same.antt =====
-- indexer/indexer.cpp and indexer_inc/indexer.cpp: the code that both have.
use calcsig.Common.{
  ℕ, ◌==◌, ◌||◌, ◌≡◌, refl, Bool, true, false, if◌then◌else◌, ltb, List, [], ◌∷◌, Option, none,
  some,
}
use calcsig.Common.Text.{Str, codes}
use calcsig.Config.{Section}
use calcsig.Redis.{Transport}
use calcsig.MysqlConn.{Row}
use calcsig.MysqlConn.Connector.{Client}
use calcsig.Indexer.World.{World, select, Action, pure, or_throw, hash_set, ◌>>=◌}
use calcsig.Indexer.Copy
use calcsig.Indexer.Init as First
use calcsig.IndexerInc
use calcsig.IndexerInc.{section_of}
use calcsig.IndexerInc.Init as Second

init_same :
    (sql_constructs redis_constructs : ℕ → Bool) (config : List (Str × Section))
    → Second.init sql_constructs redis_constructs config
      ≡ First.init sql_constructs redis_constructs config
unfolding Second.init First.init section_of
init_same sql_constructs redis_constructs config = refl

module _ {client : Client} {tr : Transport} where
  bind_same :
      {A B : Type 0} (m n : Action client tr A) (f g : A → Action client tr B) (w : World client tr)
      → m w ≡ n w
      → ((a : A) (v : World client tr) → f a v ≡ g a v)
      → (m >>= f) w ≡ (n >>= g) w
  bind_same {A} {B} m n f g w e h = rw (e, ◌>>=◌) (go (n w))
    where
      go :
          (o : Option (A × World client tr))
          → (elim o as (λ _. Option (B × World client tr)) [ none ↦ none | some (a, v) ↦ f a v ])
            ≡ (elim o as (λ _. Option (B × World client tr)) [ none ↦ none | some (a, v) ↦ g a v ])
      go none = refl
      go (some (a, v)) = h a v

  if_same :
      {A : Type 0} (b : Bool) (m n k : Action client tr A) (w : World client tr)
      → m w ≡ n w
      → (if b then m else k) w ≡ (if b then n else k) w
  if_same true m n k w e = e
  if_same false m n k w e = refl

module _ (client : Client) (tr : Transport) (config : List (Str × Section)) (left : ℕ) where
  pay_row_same :
      (table : Str) (rid : ℕ) (row : Row) (w : World client tr)
      → IndexerInc.pay_row client tr config left table rid row w
        ≡ Copy.pay_row client tr config left table rid row w
  unfolding IndexerInc.pay_row Copy.pay_row
  pay_row_same table rid row w = refl

  pay_rows_same :
      (table : Str) (rid : ℕ) (rows : List Row) (w : World client tr)
      → IndexerInc.pay_rows client tr config left table rid rows w
        ≡ Copy.pay_rows client tr config left table rid rows w
  unfolding IndexerInc.pay_rows Copy.pay_rows
  pay_rows_same table rid [] w = refl
  pay_rows_same table rid (row ∷ rows) w =
      bind_same (IndexerInc.pay_row client tr config left table rid row)
        (Copy.pay_row client tr config left table rid row) _ _ w (pay_row_same table rid row w)
        (λ a v. pay_rows_same table rid rows v)

  audio_row_same :
      (table : Str) (rid : ℕ) (row : Row) (w : World client tr)
      → IndexerInc.audio_row client tr config left table rid row w
        ≡ Copy.audio_row client tr config left table rid row w
  unfolding IndexerInc.audio_row Copy.audio_row
  audio_row_same table rid row w = refl

  audio_rows_same :
      (table : Str) (rid : ℕ) (rows : List Row) (w : World client tr)
      → IndexerInc.audio_rows client tr config left table rid rows w
        ≡ Copy.audio_rows client tr config left table rid rows w
  unfolding IndexerInc.audio_rows Copy.audio_rows
  audio_rows_same table rid [] w = refl
  audio_rows_same table rid (row ∷ rows) w =
      bind_same (IndexerInc.audio_row client tr config left table rid row)
        (Copy.audio_row client tr config left table rid row) _ _ w (audio_row_same table rid row w)
        (λ a v. audio_rows_same table rid rows v)

  pay_info_same :
      (kind : ℕ) (table : Str) (rid : ℕ) (w : World client tr)
      → IndexerInc.pay_info client tr config left kind table rid w
        ≡ Copy.pay_info client tr config left kind table rid w
  unfolding IndexerInc.pay_info Copy.pay_info
  pay_info_same kind table rid w =
      bind_same (select client tr (Copy.pay_sql client tr config left kind rid))
        (select client tr (Copy.pay_sql client tr config left kind rid)) _ _ w refl found_same
    where
      found_same :
          (found : Option (List Row)) (v : World client tr)
          → IndexerInc.pay_found client tr config left table rid found v
            ≡ Copy.pay_found client tr config left table rid found v
      found_same none v = refl
      found_same (some rows) v = pay_rows_same table rid rows v

  audio_info_same :
      (table : Str) (rid source : ℕ) (w : World client tr)
      → IndexerInc.audio_info client tr config left table rid source w
        ≡ Copy.audio_info client tr config left table rid source w
  unfolding IndexerInc.audio_info Copy.audio_info
  audio_info_same table rid source w = if_same (ltb 0 source) _ _ _ w (
      bind_same (select client tr (Copy.audio_sql client tr config left source))
        (select client tr (Copy.audio_sql client tr config left source))
        (IndexerInc.audio_found client tr config left table rid)
        (Copy.audio_found client tr config left table rid) w refl found_same)
    where
      found_same :
          (found : Option (List Row)) (v : World client tr)
          → IndexerInc.audio_found client tr config left table rid found v
            ≡ Copy.audio_found client tr config left table rid found v
      found_same none v = refl
      found_same (some rows) v = audio_rows_same table rid rows v

  index_row_same :
      (kind : ℕ) (row : Row) (w : World client tr)
      → IndexerInc.index_row client tr config left kind row w
        ≡ Copy.index_row client tr config left kind row w
  unfolding IndexerInc.index_row Copy.index_row
  index_row_same kind row w =
      bind_same (or_throw (Copy.number_at left (codes "id") row))
        (or_throw (Copy.number_at left (codes "id") row)) _ _ w refl
        λ rid w1.
          bind_same (or_throw (Copy.number_at left (codes "audiosourceid") row))
            (or_throw (Copy.number_at left (codes "audiosourceid") row)) _ _ w1 refl
            λ source w2.
              bind_same (or_throw (Copy.fill_hash (Copy.section_of table config) row []))
                (or_throw (Copy.fill_hash (Copy.section_of table config) row [])) _ _ w2 refl
                λ hash w3.
                  bind_same (hash_set client tr (Copy.row_key table rid) hash)
                    (hash_set client tr (Copy.row_key table rid) hash) _ _ w3 refl
                    λ _ w4.
                      bind_same
                        (if kind == 0 || kind == 1
                          then IndexerInc.pay_info client tr config left kind table rid
                          else pure tt)
                        (if kind == 0 || kind == 1
                          then Copy.pay_info client tr config left kind table rid
                          else pure tt)
                        _ _ w4
                        (if_same (kind == 0 || kind == 1)
                          (IndexerInc.pay_info client tr config left kind table rid)
                          (Copy.pay_info client tr config left kind table rid) (pure tt) w4
                          (pay_info_same kind table rid w4))
                        λ _ w5.
                          if_same (kind == 0)
                            (IndexerInc.audio_info client tr config left table rid source)
                            (Copy.audio_info client tr config left table rid source) (pure tt) w5
                            (audio_info_same table rid source w5)
    where
      table : Str
      table = Copy.table_of kind

  index_rows_same :
      (kind : ℕ) (rows : List Row) (w : World client tr)
      → IndexerInc.index_rows client tr config left kind rows w
        ≡ Copy.index_rows client tr config left kind rows w
  unfolding IndexerInc.index_rows Copy.index_rows
  index_rows_same kind [] w = refl
  index_rows_same kind (row ∷ rows) w =
      bind_same (IndexerInc.index_row client tr config left kind row)
        (Copy.index_row client tr config left kind row) _ _ w (index_row_same kind row w)
        (λ a v. index_rows_same kind rows v)

-- On any configuration the two indexers start in the same way, and on any rows of a table both copy the
-- same: from the same connections they make the same statements and the same commands, with the same
-- outcome, an exception among them.
pub indexers_same :
    (client : Client) (tr : Transport) (left : ℕ) (config : List (Str × Section))
    → ((sql_constructs redis_constructs : ℕ → Bool)
        → Second.init sql_constructs redis_constructs config
          ≡ First.init sql_constructs redis_constructs config)
      × ((kind : ℕ) (rows : List Row) (w : World client tr)
          → IndexerInc.index_rows client tr config left kind rows w
            ≡ Copy.index_rows client tr config left kind rows w)
indexers_same client tr left config =
    ((λ s r. init_same s r config), index_rows_same client tr config left)
