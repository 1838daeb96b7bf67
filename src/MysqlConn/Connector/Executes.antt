-- ===== src/MysqlConn/Connector/Executes.antt =====
-- mysqlpool/mysqlconn.cpp: `execute` with `fetchall`, and what a chain of `execute` leaves behind.
use calcsig.Common.{
  ℕ, suc, ◌+◌, ◌≡◌, refl, ap, sym, ◌∙◌, arith, Bool, true, false, List, [], ◌∷◌, ◌++◌, length, map,
  Option, none, some, Option-cases, Bool-cases, inl, inr, append_assoc, append-nil,
}
use calcsig.Common.Text.{Str}
use calcsig.MysqlConn.{Cell, Row, new_row, fill_row, fetch_rows, MysqlResult, fetchall}
use calcsig.MysqlConn.Rows.{fill_row-cells}
use calcsig.MysqlConn.Connector.{
  Stored, Client, IsClient, fresh, Connector, Executed, threw, returned, connect, put_result, store,
  query, after_connect, execute, destroy,
}

fetch_rows-all :
    (more : List (List Cell)) (rows : List Row)
    → (new : List Row) × (fetch_rows more rows ≡ some (rows ++ new))
      × (map some new ≡ map (λ cells. fill_row cells new_row) more)
unfolding fetch_rows
fetch_rows-all [] rows = ([], ap some (sym (append-nil rows)), refl)
fetch_rows-all (cells ∷ more) rows =
    let (r, e, _, _) = fill_row-cells cells in
    let (new, done, same) = fetch_rows-all more (rows ++ r ∷ []) in
    (
      r ∷ new,
      rw (e, fetch_rows) (done ∙ ap some (append_assoc rows (r ∷ []) new)),
      rw e (ap (λ l. some r ∷ l) same),
    )

fetchall-fresh :
    (more : List (List Cell)) (rows : List Row)
    → fetch_rows more [] ≡ some rows
    → fetchall (fresh (some more))
      ≡ some (record { m_result = some []; m_rows = rows; cur_iter = 0 })
unfolding fetchall
fetchall-fresh more rows e = rw (e, fetchall)

length-map : {A B : Type 0} (f : A → B) (xs : List A) → length (map f xs) ≡ length xs
length-map f [] = refl
length-map f (x ∷ xs) = ap suc (length-map f xs)

abbrev or_zero : Option ℕ → ℕ
or_zero none = 0
or_zero (some n) = n

module _ (client : Client) where
  abbrev count : Executed client → Option ℕ
  count (threw c) = none
  count (returned n c) = n

  abbrev left : Executed client → Connector client
  left (threw c) = c
  left (returned n c) = c

  put_result-result :
      (r : MysqlResult) (c : Connector client) → (put_result client r c).result ≡ some r
  unfolding put_result
  put_result-result r c = elim (Option-cases c.result) [
    | inl e ↦ rw (e, put_result)
    | inr (old, e) ↦ rw (e, put_result)
  ]

  put_result-lost :
      (r old : MysqlResult) (c : Connector client)
      → c.result ≡ some old
      → (put_result client r c).lost ≡ suc c.lost
  unfolding put_result
  put_result-lost r old c e = rw (e, put_result)

  -- What a call of `store` that returns a number comes from, with a connection that has the same
  -- result as before.
  abbrev Stores : Connector client → ℕ → Connector client → Type 0
  Stores c n c' =
      (s : client.State) × (st : Stored) × ((client.store_result s).1 ≡ some st)
      × (st.num_rows ≡ some n)
      × (d : Connector client) × (d.result ≡ c.result)
      × (d.lost ≡ c.lost)
      × (c' ≡ put_result client (fresh (some st.rows)) d)

  store-Stores :
      (c c' : Connector client) (n : ℕ) → store client c ≡ returned (some n) c' → Stores c n c'
  unfolding store
  store-Stores c c' n h = elim (Option-cases (client.store_result c.state).1) [
    | inl e ↦ let h' = rw (e, store) at h in cc (ap count h')
    | inr (st, e) ↦
        let h' = rw (e, store) at h in
        (c.state, st, e, ap count h', _, refl, refl, sym (ap left h'))
  ]

  query-Stores :
      (sql : Str) (c c' : Connector client) (n : ℕ)
      → query client sql c ≡ returned (some n) c'
      → Stores c n c'
  unfolding query
  query-Stores sql c c' n h = elim (Bool-cases (client.real_query sql c.state).1) [
    | inl e ↦ store-Stores _ c' n (rw (e, query) at h)
    | inr e ↦ let h' = rw (e, query) at h in cc (ap count h')
  ]

  connect-keeps :
      (c : Connector client)
      → ((connect client c).0.result ≡ c.result) × ((connect client c).0.lost ≡ c.lost)
  unfolding connect
  connect-keeps c = elim (Bool-cases (client.init c.state).1) [
    | inl e ↦ (rw (e, connect), rw (e, connect))
    | inr e ↦ (rw (e, connect), rw (e, connect))
  ]

  after_connect-Stores :
      (sql : Str) (r : Connector client × Bool) (c' : Connector client) (n : ℕ)
      → after_connect client sql r ≡ returned (some n) c'
      → Stores r.0 n c'
  unfolding after_connect
  after_connect-Stores sql (c, true) c' n h = query-Stores sql c c' n h
  after_connect-Stores sql (c, false) c' n h = cc (ap count h)

  execute-Stores :
      (sql : Str) (c c' : Connector client) (n : ℕ)
      → execute client sql c ≡ returned (some n) c'
      → Stores c n c'
  unfolding execute
  execute-Stores sql c c' n h = elim (Bool-cases (client.ping c.state).1) [
    | inl e ↦ query-Stores sql _ c' n (rw (e, execute) at h)
    | inr e ↦
        let pinged : Connector client = record c { state = (client.ping c.state).0 } in
        let (s, st, stored, rows, d, same, lost, put) =
          after_connect-Stores sql (connect client pinged) c' n (rw (e, execute) at h) in
        (
          s,
          st,
          stored,
          rows,
          d,
          same ∙ (connect-keeps pinged).0,
          lost ∙ (connect-keeps pinged).1,
          put,
        )
  ]

  -- After an `execute` that returns the number `n`, `fetchall` throws nothing and has `n` rows, each
  -- filled from the cells of the row of the client in its place.
  pub execute-fetchall :
      (law : IsClient client) (sql : Str) (c c' : Connector client) (n : ℕ)
      → execute client sql c ≡ returned (some n) c'
      → (s : client.State) × (st : Stored) × ((client.store_result s).1 ≡ some st)
        × (res : MysqlResult) × (c'.result ≡ some (fresh (some st.rows)))
        × (fetchall (fresh (some st.rows)) ≡ some res)
        × (map some res.m_rows ≡ map (λ cells. fill_row cells new_row) st.rows)
        × (length res.m_rows ≡ n)
  execute-fetchall law sql c c' n h =
      let (s, st, stored, num, d, _, _, put) = execute-Stores sql c c' n h in
      let (new, done, same) = fetch_rows-all st.rows [] in
      let number = law.store_result-num_rows s st stored in
      (
        s,
        st,
        stored,
        record { m_result = some []; m_rows = new; cur_iter = 0 },
        ap (λ (u : Connector client). u.result) put ∙ put_result-result _ d,
        fetchall-fresh st.rows new done,
        same,
        sym (length-map some new)
            ∙ ap length same
            ∙ length-map (λ cells. fill_row cells new_row) st.rows
            ∙ ap or_zero (sym number ∙ num),
      )

  -- Statements that all return a number, one after the other on one connection.
  pub data Executes : Connector client → List Str → Connector client → Type 0 where
    done : {c : Connector client} → Executes c [] c
    then_execute :
        {c d e : Connector client} {n : ℕ} (sql : Str) {sqls : List Str}
        → execute client sql c ≡ returned (some n) d
        → Executes d sqls e
        → Executes c (sql ∷ sqls) e

  execute-lost :
      (sql : Str) (c c' : Connector client) (n : ℕ) (old : MysqlResult)
      → c.result ≡ some old
      → execute client sql c ≡ returned (some n) c'
      → (new : MysqlResult) × (c'.result ≡ some new) × (c'.lost ≡ suc c.lost)
  execute-lost sql c c' n old r h =
      let (s, st, _, _, d, same, lost, put) = execute-Stores sql c c' n h in
      (
        fresh (some st.rows),
        ap (λ (u : Connector client). u.result) put ∙ put_result-result _ d,
        ap (λ (u : Connector client). u.lost) put
            ∙ put_result-lost _ old d (same ∙ r)
            ∙ ap suc lost,
      )

  -- On a connection that has a result, every further statement that returns a number loses one
  -- result, which no later call, nor the destructor, gets back.
  pub Executes-lost :
      (c c' : Connector client) (sqls : List Str) (old : MysqlResult)
      → c.result ≡ some old
      → Executes c sqls c'
      → (destroy client c').lost ≡ c.lost + length sqls
  unfolding destroy
  Executes-lost c c' [] old r done = omega arith
  Executes-lost c c' (_ ∷ sqls) old r (then_execute {d = d} {n = n} sql h rest) =
      let (new, r', lost) = execute-lost sql c d n old r h in
      omega (arith, Executes-lost d c' sqls new r' rest, lost)
