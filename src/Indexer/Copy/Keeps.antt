-- ===== src/Indexer/Copy/Keeps.antt =====
-- indexer/indexer.cpp: the steps of a pass that leave one key of Redis as it is.
use calcsig.Common.{
  zero, suc, ◌≡◌, ◌≢◌, ◌⊎◌, inl, inr, refl, ap, ◌∙◌, subst, Bool, true, false, if◌then◌else◌, List,
  [], ◌∷◌, Option, none, some,
}
use calcsig.Common.Text.{Str, codes, lookup, NewKeys}
use calcsig.Redis.{Transport, Reply, flatten, command, set_hash, set_add, set_del, is_ok}
use calcsig.MysqlConn.{Row}
use calcsig.MysqlConn.Connector.{Client, Connector, Executed, threw, returned, execute}
use calcsig.Indexer.World.{
  World, Action, pure, or_throw, ◌>>=◌, fetch, select, with_redis, hash_set, member_add, member_del,
}

-- What the manual says of a hash at `key`: HMSET writes its fields, and HMSET, SADD and SREM at another
-- key leave it. `IsHashKey` says that the key is absent or holds a hash.
pub record KeepsHash (tr : Transport) (key : Str) : Type 1 where
  pub IsHashKey : tr.State → Type 0
  pub hget : tr.State → Str → Option Str
  pub write :
      (s : tr.State) (h : List (Str × Str))
      → IsHashKey s
      → NewKeys [] h
      → IsHashKey (tr.argv (codes "HMSET" ∷ key ∷ flatten h) s).1
        × ((f x : Str)
            → lookup f h ≡ some x
            → hget (tr.argv (codes "HMSET" ∷ key ∷ flatten h) s).1 f ≡ some x)
  pub elsewhere :
      (s : tr.State) (cmd k : Str) (args : List Str)
      → (cmd ≡ codes "HMSET") ⊎ (cmd ≡ codes "SADD") ⊎ (cmd ≡ codes "SREM")
      → k ≢ key
      → IsHashKey s
      → IsHashKey (tr.argv (cmd ∷ k ∷ args) s).1
        × ((f : Str) → hget (tr.argv (cmd ∷ k ∷ args) s).1 f ≡ hget s f)

module _ (tr : Transport) where
  -- The state behind a command is the one that the server leaves.
  pub command-state :
      (args : List Str) (f : Reply → Bool) (s t : tr.State) (b : Bool)
      → command tr args f s ≡ some (b, t)
      → (tr.argv args s).1 ≡ t
  command-state args f s t b e = go (tr.argv args s).0 e
    where
      go :
          (o : Option Reply)
          → (elim o as (λ _. Option (Bool × tr.State)) [
            | none ↦ none
            | some r ↦ some (f r, (tr.argv args s).1)
          ])
            ≡ some (b, t)
          → (tr.argv args s).1 ≡ t
      go none h = cc
      go (some r) h = cc

  -- The server after `s` has the key as it was.
  abbrev pub Same : {key : Str} → KeepsHash tr key → tr.State → tr.State → Type 0
  Same law s t = law.IsHashKey s → law.IsHashKey t × ((f : Str) → law.hget t f ≡ law.hget s f)

module _ {client : Client} {tr : Transport} where
  pub bind-some_inverse :
      {A B : Type 0} (m : Action client tr A) (f : A → Action client tr B) (w v : World client tr)
      (b : B)
      → (m >>= f) w ≡ some (b, v)
      → (a : A) × (u : World client tr) × (m w ≡ some (a, u)) × (f a u ≡ some (b, v))
  bind-some_inverse {A} {B} m f w v b e = go (m w) refl e
    where
      go :
          (o : Option (A × World client tr))
          → m w ≡ o
          → (elim o as (λ _. Option (B × World client tr)) [ none ↦ none | some (a, u) ↦ f a u ])
            ≡ some (b, v)
          → (a : A) × (u : World client tr) × (m w ≡ some (a, u)) × (f a u ≡ some (b, v))
      go none here h = cc
      go (some (a, u)) here h = (a, u, here, h)

  -- A query changes nothing on the Redis connection.
  select-redis_conn :
      (sql : Str) (w v : World client tr) (a : Option (List Row))
      → select client tr sql w ≡ some (a, v)
      → w.redis_conn ≡ v.redis_conn
  unfolding select
  select-redis_conn sql w v a e = at_result (execute client sql w.sql_conn) e
    where
      Answer : Type 0
      Answer = Option (Option (List Row) × World client tr)

      at_rows :
          (o : Option (List Row × Connector client))
          → (elim o as (λ _. Answer) [
            | none ↦ none
            | some (rows, d) ↦ some (some rows, record w { sql_conn = d })
          ])
            ≡ some (a, v)
          → w.redis_conn ≡ v.redis_conn
      at_rows none h = cc
      at_rows (some (rows, d)) h =
          ap (λ (o : Answer). elim o [ none ↦ w.redis_conn | some (_, u) ↦ u.redis_conn ]) h

      at_result :
          (x : Executed client)
          → (elim x as (λ _. Answer) [
            | threw c ↦ none
            | returned none c ↦ some (none, record w { sql_conn = c })
            | returned (some zero) c ↦ some (none, record w { sql_conn = c })
            | returned (some (suc n)) c ↦ elim (fetch client tr c) as (λ _. Answer) [
              | none ↦ none
              | some (rows, d) ↦ some (some rows, record w { sql_conn = d })
            ]
          ])
            ≡ some (a, v)
          → w.redis_conn ≡ v.redis_conn
      at_result (threw c) h = cc
      at_result (returned none c) h =
          ap (λ (o : Answer). elim o [ none ↦ w.redis_conn | some (_, u) ↦ u.redis_conn ]) h
      at_result (returned (some zero) c) h =
          ap (λ (o : Answer). elim o [ none ↦ w.redis_conn | some (_, u) ↦ u.redis_conn ]) h
      at_result (returned (some (suc n)) c) h = at_rows (fetch client tr c) h

module _ (client : Client) {tr : Transport} {key : Str} (law : KeepsHash tr key) where
  abbrev pub Keeps : {A : Type 0} → Action client tr A → Type 0
  Keeps {A} m =
      (w v : World client tr) (a : A) → m w ≡ some (a, v) → Same tr law w.redis_conn v.redis_conn

  -- Where the value that is thrown away otherwise is known.
  pub or_throw-Keeps :
      {A B : Type 0} (o : Option A) (f : A → Action client tr B)
      → ((a : A) → o ≡ some a → Keeps (f a))
      → Keeps (or_throw o >>= f)
  or_throw-Keeps none f h w v a e = cc
  or_throw-Keeps (some x) f h w v a e = h x refl w v a e

  pub bind-Keeps :
      {A B : Type 0} (m : Action client tr A) (f : A → Action client tr B)
      → Keeps m
      → ((a : A) → Keeps (f a))
      → Keeps (m >>= f)
  bind-Keeps m f h k w v b e at_hash =
      let (a, u, here, there) = bind-some_inverse m f w v b e in
      let (mid, same) = h w u a here at_hash in
      let (last, same') = k a u v b there mid in (last, λ x. same' x ∙ same x)

  pub pure-Keeps : Keeps (pure tt)
  pure-Keeps w v b e =
      subst (λ u. Same tr law w.redis_conn u)
        (ap
          (λ (o : Option (Unit {0} × World client tr)). elim o [
            | none ↦ w.redis_conn
            | some (_, u) ↦ u.redis_conn
          ])
          e)
        (λ at_hash. (at_hash, λ f. refl))

  pub if-Keeps :
      (b : Bool) (m : Action client tr (Unit {0}))
      → (b ≡ true → Keeps m)
      → Keeps (if b then m else pure tt)
  if-Keeps true m h = h refl
  if-Keeps false m h = pure-Keeps

  pub select-Keeps : (sql : Str) → Keeps (select client tr sql)
  select-Keeps sql w v a e =
      subst (λ u. Same tr law w.redis_conn u) (select-redis_conn sql w v a e)
        (λ at_hash. (at_hash, λ f. refl))

  pub with_redis-state :
      (f : tr.State → Option (Bool × tr.State)) (w v : World client tr)
      → with_redis client tr f w ≡ some (tt, v)
      → (b : Bool) × (f w.redis_conn ≡ some (b, v.redis_conn))
  with_redis-state f w v e = go (f w.redis_conn) e
    where
      go :
          (o : Option (Bool × tr.State))
          → (elim o as (λ _. Option (Unit {0} × World client tr)) [
            | none ↦ none
            | some (b, s) ↦ some (tt, record w { redis_conn = s })
          ])
            ≡ some (tt, v)
          → (b : Bool) × (o ≡ some (b, v.redis_conn))
      go none h = cc
      go (some (b, s)) h = (
        b,
        ap
            (λ (o : Option (Unit {0} × World client tr)).
              some (b, elim o [ none ↦ s | some (_, u) ↦ u.redis_conn ]))
            h,
      )

  pub hash_set-Keeps : (k : Str) (h : List (Str × Str)) → k ≢ key → Keeps (hash_set client tr k h)
  unfolding set_hash
  hash_set-Keeps k h ne w v a e at_hash =
      let (b, s) = with_redis-state (set_hash tr k h) w v e in
      subst (λ t. law.IsHashKey t × ((f : Str) → law.hget t f ≡ law.hget w.redis_conn f))
        (command-state tr (codes "HMSET" ∷ k ∷ flatten h) is_ok w.redis_conn v.redis_conn b s)
        (law.elsewhere w.redis_conn (codes "HMSET") k (flatten h) (inl refl) ne at_hash)

  pub member_add-Keeps : (k value : Str) → k ≢ key → Keeps (member_add client tr k value)
  unfolding set_add
  member_add-Keeps k value ne w v a e at_hash =
      let (b, s) = with_redis-state (set_add tr k value) w v e in
      subst (λ t. law.IsHashKey t × ((f : Str) → law.hget t f ≡ law.hget w.redis_conn f))
        (command-state tr (codes "SADD" ∷ k ∷ value ∷ []) is_ok w.redis_conn v.redis_conn b s)
        (law.elsewhere w.redis_conn (codes "SADD") k (value ∷ []) (inr (inl refl)) ne at_hash)

  pub member_del-Keeps : (k value : Str) → k ≢ key → Keeps (member_del client tr k value)
  unfolding set_del
  member_del-Keeps k value ne w v a e at_hash =
      let (b, s) = with_redis-state (set_del tr k value) w v e in
      subst (λ t. law.IsHashKey t × ((f : Str) → law.hget t f ≡ law.hget w.redis_conn f))
        (command-state tr (codes "SREM" ∷ k ∷ value ∷ []) is_ok w.redis_conn v.redis_conn b s)
        (law.elsewhere w.redis_conn (codes "SREM") k (value ∷ []) (inr (inr refl)) ne at_hash)
