-- ===== src/IndexerInc.antt =====
-- indexer_inc/indexer.cpp: `indexerServer::start` of the incremental indexer, which copies the rows that
-- were changed lately. What it does with a row stands there a second time.
pub mod Init
pub mod Same
pub mod Tests
use calcsig.Common.{
  ℕ, zero, suc, ◌+◌, ◌-◌, ltb, ◌==◌, if◌then◌else◌, Bool, true, false, ◌||◌, List, [], ◌∷◌, ◌++◌,
  Option, none, some,
}
use calcsig.Common.Text.{Str, codes, lookup, insert}
use calcsig.Common.Decimal.{format}
use calcsig.Config.{Section}
use calcsig.Redis.{Transport}
use calcsig.MysqlConn.{Field, Row, get_value}
use calcsig.MysqlConn.Connector.{Client}
use calcsig.Indexer.Values.{to_string, to_unsigned}
use calcsig.Indexer.World.{
  World, Action, pure, or_throw, ◌>>=◌, ◌>>◌, select, hash_set, member_add, member_del,
}

-- `server_config[name]`.
pub section_of : Str → List (Str × Section) → Section
section_of name config = elim (lookup name config) [ none ↦ [] | some s ↦ s ]

-- The loop over `table_config`: `none` is the exception of a column that is not there. A target that
-- is there already keeps its value, as `emplace` does.
pub fill_hash : Section → Row → List (Str × Str) → Option (List (Str × Str))
unfolding to_string
fill_hash [] row h = some h
fill_hash ((column, target) ∷ entries) row h = elim (get_value column row) [
  | none ↦ none
  | some f ↦ fill_hash entries row (insert target (to_string f.m_value) h)
]

pub text_at : Str → Row → Option Str
unfolding to_string
text_at column row = elim (get_value column row) [
  | none ↦ none
  | some f ↦ some (to_string f.m_value)
]

pub number_at : ℕ → Str → Row → Option ℕ
unfolding to_unsigned
number_at left column row = elim (get_value column row) [
  | none ↦ none
  | some f ↦ some (to_unsigned left f.m_value)
]

pub table_of : ℕ → Str
table_of kind =
    if kind == 0
    then codes "Music"
    else if kind == 1
    then codes "Album"
    else if kind == 2
    then codes "Artist"
    else codes "Music"

-- The keys of Redis.
pub row_key : Str → ℕ → Str
row_key table rid = table ++ b':' ∷ format rid

pub policy_key : Str → Str → ℕ → Str
policy_key table policy rid = table ++ b':' ∷ (policy ++ b':' ∷ format rid)

pub pay_key : Str → ℕ → Str
pay_key table rid = table ++ (codes ":Pay:" ++ format rid)

pub audio_key : Str → ℕ → Str
audio_key table rid = table ++ (codes ":Audio:" ++ format rid)

-- `left` is what an uninitialised variable holds; see `to_unsigned`.
module _ (client : Client) (tr : Transport) (config : List (Str × Section)) (left : ℕ) where
  -- A row of `MusicPay`.
  pub pay_row : Str → ℕ → Row → Action client tr (Unit {0})
  unfolding number_at text_at section_of fill_hash pay_key policy_key
  pay_row table rid row = do
    or_throw (number_at left (codes "id") row)
    policy ← or_throw (text_at (codes "policy") row)
    hash_data ← or_throw (fill_hash (section_of (codes "Payinfo") config) row [])
    hash_set client tr (policy_key table policy rid) hash_data
    member_add client tr (pay_key table rid) policy
    member_del client tr (pay_key table rid) (codes "none")

  pub pay_rows : Str → ℕ → List Row → Action client tr (Unit {0})
  unfolding pay_row
  pay_rows table rid [] w = some (tt, w)
  pay_rows table rid (row ∷ rows) w = elim (pay_row table rid row w) [
    | none ↦ none
    | some (_, v) ↦ pay_rows table rid rows v
  ]

  pub pay_sql : ℕ → ℕ → Str
  pay_sql kind rid =
      codes "select * from MusicPay where policy!=\"none\" and type="
      ++ (format kind ++ (codes " and rid=" ++ format rid))

  -- Behind the query.
  pub pay_found : Str → ℕ → Option (List Row) → Action client tr (Unit {0})
  unfolding pay_rows pay_key
  pay_found table rid none = member_add client tr (pay_key table rid) (codes "none")
  pay_found table rid (some rows) = pay_rows table rid rows

  pub pay_info : ℕ → Str → ℕ → Action client tr (Unit {0})
  unfolding pay_found pay_sql
  pay_info kind table rid = do
    found ← select client tr (pay_sql kind rid)
    pay_found table rid found

  -- A row of `AudioProduct`.
  pub audio_row : Str → ℕ → Row → Action client tr (Unit {0})
  unfolding number_at text_at section_of fill_hash audio_key
  audio_row table rid row = do
    audio_product_id ← or_throw (text_at (codes "id") row)
    or_throw (number_at left (codes "id") row)
    hash_data ← or_throw (fill_hash (section_of (codes "Audioinfo") config) row [])
    hash_set client tr (codes "Audio:" ++ audio_product_id) hash_data
    member_add client tr (audio_key table rid) audio_product_id

  pub audio_rows : Str → ℕ → List Row → Action client tr (Unit {0})
  unfolding audio_row
  audio_rows table rid [] w = some (tt, w)
  audio_rows table rid (row ∷ rows) w = elim (audio_row table rid row w) [
    | none ↦ none
    | some (_, v) ↦ audio_rows table rid rows v
  ]

  pub audio_sql : ℕ → Str
  audio_sql source = codes "select * from AudioProduct where audiosourceid=" ++ format source

  pub audio_found : Str → ℕ → Option (List Row) → Action client tr (Unit {0})
  unfolding audio_rows
  audio_found table rid none = pure tt
  audio_found table rid (some rows) = audio_rows table rid rows

  pub audio_info : Str → ℕ → ℕ → Action client tr (Unit {0})
  unfolding audio_found audio_sql
  audio_info table rid source =
      if ltb 0 source
      then (do found ← select client tr (audio_sql source); audio_found table rid found)
      else pure tt

  -- The body of the loop over the rows of the table.
  pub index_row : ℕ → Row → Action client tr (Unit {0})
  unfolding number_at section_of fill_hash table_of row_key pay_info audio_info
  index_row kind row = do
    rid ← or_throw (number_at left (codes "id") row)
    source ← or_throw (number_at left (codes "audiosourceid") row)
    hash_data ← or_throw (fill_hash (section_of (table_of kind) config) row [])
    hash_set client tr (row_key (table_of kind) rid) hash_data
    if kind == 0 || kind == 1 then pay_info kind (table_of kind) rid else pure tt
    if kind == 0 then audio_info (table_of kind) rid source else pure tt

  pub index_rows : ℕ → List Row → Action client tr (Unit {0})
  unfolding index_row
  index_rows kind [] w = some (tt, w)
  index_rows kind (row ∷ rows) w = elim (index_row kind row w) [
    | none ↦ none
    | some (_, v) ↦ index_rows kind rows v
  ]

  -- The rows that a query found, if there are any.
  pub index_found : ℕ → Option (List Row) → Action client tr (Unit {0})
  unfolding index_rows
  index_found kind none = pure tt
  index_found kind (some rows) = index_rows kind rows

  pub changed_sql : ℕ → Str → Str
  unfolding table_of
  changed_sql kind time_buf =
      codes "select * from "
      ++ (table_of kind ++ (codes " where rtimestamp>=\"" ++ (time_buf ++ codes "\"")))

  -- `start(type, step_time)` with the two connections that the pools gave, where `now` is what the
  -- first `time(NULL)` returns and `strftime` the text of `localtime`. The loop ends in `break`, so it
  -- runs at most once.
  pub start : (ℕ → Str) → ℕ → Bool → ℕ → ℕ → Action client tr (Unit {0})
  unfolding changed_sql index_found
  start strftime now isstop kind step_time = if isstop then pure tt else (do
    found ← select client tr (changed_sql kind (strftime (now - step_time)))
    index_found kind found)

-- `stop`, under `isstop_mutex`: the flag that `start` reads, and the value returned.
pub stop : Bool → Bool × ℕ
stop isstop = (true, 0)
