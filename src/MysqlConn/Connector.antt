-- ===== src/MysqlConn/Connector.antt =====
-- mysqlpool/mysqlconn.h and mysqlpool/mysqlconn.cpp: `mysqlconnector`, its calls of the client and what they leave.
pub mod Executes
pub mod Tests
use calcsig.Common.{
  ℕ, zero, suc, ◌+◌, ◌-◌, ◌≡◌, refl, ap, sym, ◌∙◌, arith, if◌then◌else◌, Bool, true, false, List,
  [], ◌∷◌, ◌++◌, length, map, Option, none, some, Option-cases, Bool-cases, inl, inr, append_assoc,
  append-nil,
}
use calcsig.Common.Text.{Str}
use calcsig.MysqlConn.{Cell, Row, new_row, fill_row, fetch_rows, MysqlResult, fetchall}
use calcsig.MysqlConn.Rows.{fill_row-cells}

-- What `mysql_store_result` stores; `num_rows` is `none` for -1.
pub record Stored : Type 0 where
  pub rows : List (List Cell)
  pub num_rows : Option ℕ

-- The Booleans say whether the call succeeds.
pub record Client : Type 1 where
  pub State : Type 0
  pub init : State → State × Bool
  pub real_connect : State → State × Bool
  pub set_character_set : State → State × Bool
  pub ping : State → State × Bool
  pub real_query : Str → State → State × Bool
  pub store_result : State → State × Option Stored
  pub close : State → State

-- The manual: `mysql_num_rows` is the number of the rows in the result.
pub record IsClient (client : Client) : Type 0 where
  pub store_result-num_rows :
      (s : client.State) (st : Stored)
      → (client.store_result s).1 ≡ some st
      → st.num_rows ≡ some (length st.rows)

abbrev pub fresh : Option (List (List Cell)) → MysqlResult
fresh m_result = record { m_result = m_result; m_rows = []; cur_iter = 0 }

module _ (client : Client) where
  open client use {
    State, init, real_connect, set_character_set, ping, real_query, store_result, close,
  }

  -- `handles` counts the handles of `mysql_init` that are not closed; `lost`, the results that
  -- nothing points to any more and that were not deleted.
  pub record Connector : Type 0 where
    pub state : State
    pub handles : ℕ
    pub result : Option MysqlResult
    pub lost : ℕ

  -- An exception, or what is returned; `none` is -1.
  pub data Executed : Type 0 where
    threw : Connector → Executed
    returned : Option ℕ → Connector → Executed

  abbrev at_state : State → Connector → Connector
  at_state s c = record c { state = s }

  -- The calls behind `mysql_init`.
  pub set_up : State → State × Bool
  set_up s =
      let (t, connected) = real_connect s in if connected then set_character_set t else (t, false)

  -- True is the return of 0, and false an exception.
  pub connect : Connector → Connector × Bool
  unfolding set_up
  connect c =
      let (s, made) = init c.state in
      if made
      then (record c { state = (set_up s).0; handles = suc c.handles }, (set_up s).1)
      else (at_state s c, false)

  -- `result = new mysqlresult()`, without a look at what it was.
  unfoldable pub put_result : MysqlResult → Connector → Connector
  put_result r c = elim c.result [
    | none ↦ record c { result = some r }
    | some old ↦ record c { result = some r; lost = suc c.lost }
  ]

  -- From `mysql_store_result` on.
  unfoldable pub store : Connector → Executed
  unfolding put_result
  store c =
      let (s, stored) = store_result c.state in
      elim stored [
        | none ↦ returned none (put_result (fresh none) (at_state s c))
        | some st ↦ returned st.num_rows (put_result (fresh (some st.rows)) (at_state s c))
      ]

  -- From `mysql_real_query` on.
  unfoldable pub query : Str → Connector → Executed
  unfolding store
  query sql c =
      let (s, done) = real_query sql c.state in
      if done then store (at_state s c) else returned none (at_state s c)

  -- After `connect`, whose exception leaves `execute`.
  pub after_connect : Str → Connector × Bool → Executed
  unfolding query
  after_connect sql (c, true) = query sql c
  after_connect sql (c, false) = threw c

  unfoldable pub execute : Str → Connector → Executed
  unfolding connect after_connect
  execute sql c =
      let (s, alive) = ping c.state in
      if alive then query sql (at_state s c) else after_connect sql (connect (at_state s c))

  -- `~mysqlconnector()`.
  pub destroy : Connector → Connector
  destroy c = record {
    state = close c.state;
    handles = c.handles - 1;
    result = none;
    lost = c.lost;
  }
