-- ===== src/MysqlConn/Connector/Tests.antt =====
-- A client whose every statement gives one row of one cell.
use calcsig.Common.{
  ℕ, ◌+◌, ◌≡◌, refl, ap, sym, ◌∙◌, arith, true, [], ◌∷◌, length, map, Option, none, some,
}
use calcsig.Common.Text.{codes}
use calcsig.MysqlConn.{new_row, fill_row, MysqlResult, fetchall}
use calcsig.MysqlConn.Connector.{
  Stored, Client, IsClient, fresh, Connector, returned, put_result, store, query, execute, destroy,
}
use calcsig.MysqlConn.Connector.Executes.{done, then_execute, execute-fetchall, Executes-lost}

abbrev one_row : Stored
one_row = record {
  rows = (record { name = codes "id"; content = some (codes "7"); length = 1 } ∷ []) ∷ [];
  num_rows = some 1;
}

abbrev toy_client : Client
toy_client = record {
  State = ℕ;
  init = λ s. (s, true);
  real_connect = λ s. (s, true);
  set_character_set = λ s. (s, true);
  ping = λ s. (s, true);
  real_query = λ sql s. (s, true);
  store_result = λ s. (s, some one_row);
  close = λ s. s;
}

abbrev value : Option Stored → Option ℕ
value none = none
value (some st) = st.num_rows

abbrev rows_of : Option Stored → Option ℕ
rows_of none = none
rows_of (some st) = some (length st.rows)

toy_client-IsClient : IsClient toy_client
toy_client-IsClient = record { store_result-num_rows = λ s st e. ap value (sym e) ∙ ap rows_of e }

abbrev with_result : ℕ → Connector toy_client
with_result lost = record {
  state = 0;
  handles = 1;
  result = some (fresh (some one_row.rows));
  lost = lost;
}

ran :
    (lost : ℕ)
    → execute toy_client (codes "q") (with_result lost) ≡ returned (some 1) (with_result (1 + lost))
unfolding execute query store put_result
ran lost = ap (λ n. returned (some 1) (with_result n)) (omega arith)

execute-fetchall_example :
    (s : ℕ) × (st : Stored) × ((toy_client.store_result s).1 ≡ some st)
    × (res : MysqlResult) × ((with_result 1).result ≡ some (fresh (some st.rows)))
    × (fetchall (fresh (some st.rows)) ≡ some res)
    × (map some res.m_rows ≡ map (λ cells. fill_row cells new_row) st.rows)
    × (length res.m_rows ≡ 1)
execute-fetchall_example =
    execute-fetchall toy_client toy_client-IsClient (codes "q") (with_result 0) (with_result 1) 1
      (ran 0)

Executes-lost_example :
    (destroy toy_client (with_result 2)).lost ≡ 0 + length (codes "q" ∷ codes "q" ∷ [])
Executes-lost_example =
    Executes-lost toy_client (with_result 0) (with_result 2) (codes "q" ∷ codes "q" ∷ [])
      (fresh (some one_row.rows)) refl
      (then_execute (codes "q") (ran 0) (then_execute (codes "q") (ran 1) done))
