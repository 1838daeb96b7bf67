-- ===== src/Indexer/Copy/Others.antt =====
-- indexer/indexer.cpp: the pay and audio information of a row leaves the hash of every row.
use calcsig.Common.{ℕ, List, [], ◌∷◌, ◌++◌, Option, none, some}
use calcsig.Common.Text.{Str, codes}
use calcsig.Config.{Section}
use calcsig.Redis.{Transport}
use calcsig.MysqlConn.{Row}
use calcsig.MysqlConn.Connector.{Client}
use calcsig.Indexer.World.{select}
use calcsig.Indexer.Copy.{
  section_of, fill_hash, number_at, text_at, row_key, policy_key, pay_key, audio_key, pay_row,
  pay_rows, pay_sql, pay_found, pay_info, audio_row, audio_rows, audio_sql, audio_found, audio_info,
}
use calcsig.Indexer.Copy.Keeps.{
  KeepsHash, Keeps, or_throw-Keeps, bind-Keeps, pure-Keeps, if-Keeps, select-Keeps, hash_set-Keeps,
  member_add-Keeps, member_del-Keeps,
}
use calcsig.Indexer.Copy.Keys.{policy_key-ne, pay_key-ne, audio_key-ne, product_key-ne}

module _ (client : Client) (tr : Transport) (config : List (Str × Section)) (left rid : ℕ)
    (law : KeepsHash tr (row_key (codes "Music") rid)) where
  abbrev pub music : Str
  music = codes "Music"

  pay_row-Keeps :
      (other : ℕ) (row : Row) → Keeps client law (pay_row client tr config left music other row)
  unfolding pay_row
  pay_row-Keeps other row = or_throw-Keeps client law (number_at left (codes "id") row) _ λ n _.
      or_throw-Keeps client law (text_at (codes "policy") row) _ λ policy _.
        or_throw-Keeps client law (fill_hash (section_of (codes "Payinfo") config) row []) _ λ h _.
          bind-Keeps client law _ _
            (hash_set-Keeps client law (policy_key music policy other) h
              (policy_key-ne music rid policy other))
            λ _.
              bind-Keeps client law _ _
                (member_add-Keeps client law (pay_key music other) policy
                  (pay_key-ne music rid other))
                λ _.
                  member_del-Keeps client law (pay_key music other) (codes "none")
                    (pay_key-ne music rid other)

  pay_rows-Keeps :
      (other : ℕ) (rows : List Row)
      → Keeps client law (pay_rows client tr config left music other rows)
  unfolding pay_rows
  pay_rows-Keeps other [] = pure-Keeps client law
  pay_rows-Keeps other (row ∷ rows) =
      bind-Keeps client law (pay_row client tr config left music other row)
        (λ _. pay_rows client tr config left music other rows) (pay_row-Keeps other row)
        (λ _. pay_rows-Keeps other rows)

  pay_found-Keeps :
      (other : ℕ) (found : Option (List Row))
      → Keeps client law (pay_found client tr config left music other found)
  unfolding pay_found
  pay_found-Keeps other none =
      member_add-Keeps client law (pay_key music other) (codes "none") (pay_key-ne music rid other)
  pay_found-Keeps other (some rows) = pay_rows-Keeps other rows

  pub pay_info-Keeps :
      (kind other : ℕ) → Keeps client law (pay_info client tr config left kind music other)
  unfolding pay_info
  pay_info-Keeps kind other =
      bind-Keeps client law (select client tr (pay_sql client tr config left kind other))
        (pay_found client tr config left music other)
        (select-Keeps client law (pay_sql client tr config left kind other)) (pay_found-Keeps other)

  audio_row-Keeps :
      (other : ℕ) (row : Row) → Keeps client law (audio_row client tr config left music other row)
  unfolding audio_row
  audio_row-Keeps other row = or_throw-Keeps client law (text_at (codes "id") row) _ λ product _.
      or_throw-Keeps client law (number_at left (codes "id") row) _ λ n _.
        or_throw-Keeps client law (fill_hash (section_of (codes "Audioinfo") config) row []) _
          λ h _.
            bind-Keeps client law _ _
              (hash_set-Keeps client law (codes "Audio:" ++ product) h (product_key-ne rid product))
              λ _.
                member_add-Keeps client law (audio_key music other) product
                  (audio_key-ne music rid other)

  audio_rows-Keeps :
      (other : ℕ) (rows : List Row)
      → Keeps client law (audio_rows client tr config left music other rows)
  unfolding audio_rows
  audio_rows-Keeps other [] = pure-Keeps client law
  audio_rows-Keeps other (row ∷ rows) =
      bind-Keeps client law (audio_row client tr config left music other row)
        (λ _. audio_rows client tr config left music other rows) (audio_row-Keeps other row)
        (λ _. audio_rows-Keeps other rows)

  audio_found-Keeps :
      (other : ℕ) (found : Option (List Row))
      → Keeps client law (audio_found client tr config left music other found)
  unfolding audio_found
  audio_found-Keeps other none = pure-Keeps client law
  audio_found-Keeps other (some rows) = audio_rows-Keeps other rows

  pub audio_info-Keeps :
      (other source : ℕ) → Keeps client law (audio_info client tr config left music other source)
  unfolding audio_info
  audio_info-Keeps other source = if-Keeps client law _ _ λ _.
      bind-Keeps client law (select client tr (audio_sql client tr config left source))
        (audio_found client tr config left music other)
        (select-Keeps client law (audio_sql client tr config left source)) (audio_found-Keeps other)
