-- ===== src/Indexer/World.antt =====
-- indexer/indexer.cpp: what a pass of the indexer works on, one connection to MySQL and one to Redis,
-- and the calls that it makes of them.
use calcsig.Common.{zero, suc, Bool, List, Option, none, some, ◌≡◌}
use calcsig.Common.Text.{Str}
use calcsig.Redis.{Transport, set_hash, set_add, set_del}
use calcsig.MysqlConn.{Row, fetchall}
use calcsig.MysqlConn.Connector.{Client, Connector, threw, returned, execute}

module _ (client : Client) (tr : Transport) where
  pub record World : Type 0 where
    pub sql_conn : Connector client
    pub redis_conn : tr.State

  -- `none` is an exception, or the use of a null pointer: it ends the program.
  abbrev pub Action {ℓ} : Type ℓ → Type ℓ
  Action A = World → Option (A × World)

abbrev pub pure {ℓ} : {client : Client} {tr : Transport} {A : Type ℓ} → A → Action client tr A
pure a w = some (a, w)

abbrev pub or_throw {ℓ} :
    {client : Client} {tr : Transport} {A : Type ℓ} → Option A → Action client tr A
or_throw none w = none
or_throw (some a) w = some (a, w)

infixl 5 ◌>>=◌ ◌>>◌
abbrev pub ◌>>=◌ {ℓ κ} :
    {client : Client} {tr : Transport} {A : Type ℓ} {B : Type κ}
    → Action client tr A
    → (A → Action client tr B)
    → Action client tr B
◌>>=◌ m f w = elim (m w) [ none ↦ none | some (a, v) ↦ f a v ]

abbrev pub ◌>>◌ {ℓ κ} :
    {client : Client} {tr : Transport} {A : Type ℓ} {B : Type κ}
    → Action client tr A
    → Action client tr B
    → Action client tr B
m >> k = m >>= λ _. k

module _ {ℓ κ} {client : Client} {tr : Transport} {A : Type ℓ} {B : Type κ} where
  pub bind-some :
      (m : Action client tr A) (f : A → Action client tr B) (w v : World client tr) (a : A)
      → m w ≡ some (a, v)
      → (m >>= f) w ≡ f a v
  bind-some m f w v a e = rw (e, ◌>>=◌)

  -- A value that is there is handed on.
  pub bind-or_throw :
      (o : Option A) (f : A → Action client tr B) (w : World client tr) (a : A)
      → o ≡ some a
      → (or_throw o >>= f) w ≡ f a w
  bind-or_throw o f w a e = rw e

module _ (client : Client) (tr : Transport) where
  -- `fetchall` on the result of the connection. The rows are freed before the next call of `execute`
  -- or the end of the loop over them; the object of the result stays.
  unfoldable pub fetch : Connector client → Option (List Row × Connector client)
  fetch c = elim c.result [
    | none ↦ none
    | some res ↦ elim (fetchall res) [
      | none ↦ none
      | some r ↦ some (r.m_rows, record c { result = some r })
    ]
  ]

  -- `execute`, and `fetchall` if the count is positive.
  unfoldable pub select : Str → Action client tr (Option (List Row))
  unfolding fetch
  select sql w = elim (execute client sql w.sql_conn) [
    | threw c ↦ none
    | returned none c ↦ some (none, record w { sql_conn = c })
    | returned (some zero) c ↦ some (none, record w { sql_conn = c })
    | returned (some (suc n)) c ↦ elim (fetch c) [
      | none ↦ none
      | some (rows, d) ↦ some (some rows, record w { sql_conn = d })
    ]
  ]

  -- A command of the Redis connection; what it returns is not used.
  abbrev pub with_redis : (tr.State → Option (Bool × tr.State)) → Action client tr (Unit {0})
  with_redis f w = elim (f w.redis_conn) [
    | none ↦ none
    | some (b, s) ↦ some (tt, record w { redis_conn = s })
  ]

  abbrev pub hash_set : Str → List (Str × Str) → Action client tr (Unit {0})
  hash_set key h = with_redis (set_hash tr key h)

  abbrev pub member_add : Str → Str → Action client tr (Unit {0})
  member_add key value = with_redis (set_add tr key value)

  abbrev pub member_del : Str → Str → Action client tr (Unit {0})
  member_del key value = with_redis (set_del tr key value)

  pub with_redis-some :
      (f : tr.State → Option (Bool × tr.State)) (w : World client tr) (b : Bool) (s : tr.State)
      → f w.redis_conn ≡ some (b, s)
      → with_redis f w ≡ some (tt, record w { redis_conn = s })
  with_redis-some f w b s e = rw (e, with_redis)
