-- ===== src/Indexer/Copy/Members.antt =====
-- indexer/indexer.cpp: the set of the policies of a row, `<table>:Pay:<id>`.
use mathlib.Core.List.{append_cancel_left, append_cancel_right}
use calcsig.Common.{
  All, ℕ, ◌≡◌, ◌≢◌, refl, ap, ◌∙◌, Bool, true, false, not, ◌&&◌, ◌||◌, List, [], ◌∷◌, Option, none,
  some,
}
use calcsig.Common.Text.{Str, codes, str_eq}
use calcsig.Common.Decimal.{format}
use calcsig.Config.{Section}
use calcsig.Redis.{
  Transport, Reply, flatten, set_hash, set_add, set_del, set_hash-argv, set_add-argv, set_del-argv,
}
use calcsig.MysqlConn.{Row}
use calcsig.MysqlConn.Connector.{Client}
use calcsig.Indexer.World.{
  World, select, hash_set, member_add, bind-some, bind-or_throw, with_redis-some,
}
use calcsig.Indexer.Copy.{
  section_of, fill_hash, text_at, number_at, policy_key, pay_key, pay_row, pay_rows, pay_sql,
  pay_found, pay_info,
}

-- What the manual says of one set of the server, at `key`: SADD and SREM add and take out a member, and
-- HMSET at another key leaves it. `IsSetKey` says that the key is absent or holds a set.
pub record KeepsSet (tr : Transport) (key : Str) : Type 1 where
  pub IsSetKey : tr.State → Type 0
  pub member : tr.State → Str → Bool
  pub add :
      (s : tr.State) (v : Str)
      → IsSetKey s
      → (r : Reply) × (t : tr.State) × (tr.argv (codes "SADD" ∷ key ∷ v ∷ []) s ≡ (some r, t))
        × IsSetKey t
        × ((x : Str) → member t x ≡ (str_eq v x || member s x))
  pub del :
      (s : tr.State) (v : Str)
      → IsSetKey s
      → (r : Reply) × (t : tr.State) × (tr.argv (codes "SREM" ∷ key ∷ v ∷ []) s ≡ (some r, t))
        × IsSetKey t
        × ((x : Str) → member t x ≡ (not (str_eq v x) && member s x))
  pub hash :
      (s : tr.State) (k : Str) (args : List Str)
      → k ≢ key
      → IsSetKey s
      → (r : Reply) × (t : tr.State) × (tr.argv (codes "HMSET" ∷ k ∷ args) s ≡ (some r, t))
        × IsSetKey t
        × ((x : Str) → member t x ≡ member s x)

policy_key-ne :
    (table policy : Str) (rid : ℕ)
    → policy ≢ codes "Pay"
    → policy_key table policy rid ≢ pay_key table rid
unfolding policy_key pay_key
policy_key-ne table policy rid ne e =
    let tail = append_cancel_left table _ _ e in
    ne (append_cancel_right policy (codes "Pay") (b':' ∷ format rid) (cc tail))

abbrev pub no_policy : Str
no_policy = codes "none"

-- The members behind a query: with rows, their policies are in and `none` is out; without, `none` is in.
-- The others stay in either case.
abbrev pub listed : Str → List Str → Bool
listed x [] = false
listed x (p ∷ ps) = str_eq p x || listed x ps

abbrev pub members_after : Option (List Str) → (Str → Bool) → Str → Bool
members_after none m x = str_eq no_policy x || m x
members_after (some []) m x = m x
members_after (some (p ∷ ps)) m x = not (str_eq no_policy x) && (listed x (p ∷ ps) || m x)

or_false : (b : Bool) → b ≡ (b || false)
or_false true = refl
or_false false = refl

-- The round of a first policy in front of a set that `rest` describes.
members_step :
    (p : Str) (ps : List Str) (m m' : Str → Bool) (x : Str)
    → m' x ≡ (not (str_eq no_policy x) && (str_eq p x || m x))
    → members_after (some ps) m' x ≡ members_after (some (p ∷ ps)) m x
members_step p [] m m' x e =
    e ∙ ap (λ b. not (str_eq no_policy x) && (b || m x)) (or_false (str_eq p x))
members_step p (q ∷ ps) m m' x e =
    ap (λ b. not (str_eq no_policy x) && (listed x (q ∷ ps) || b)) e
    ∙ absorb (str_eq no_policy x) (listed x (q ∷ ps)) (str_eq p x) (m x)
  where
    absorb : (n l e b : Bool) → (not n && (l || (not n && (e || b)))) ≡ (not n && ((e || l) || b))
    absorb true l e b = refl
    absorb false true true b = refl
    absorb false true false b = refl
    absorb false false true b = refl
    absorb false false false b = refl

-- The hash of a policy `Pay` would have the key of the set of policies.
abbrev pub IsNotPay : Str → Type 0
IsNotPay policy = policy ≢ codes "Pay"

module _ (client : Client) (tr : Transport) (config : List (Str × Section)) (left : ℕ) where
  -- The row has an id and the columns that are configured, and its policy has this first word.
  abbrev pub HasPolicy : Row → Str → Type 0
  HasPolicy row policy =
      (n : ℕ) × (h : List (Str × Str)) × (number_at left (codes "id") row ≡ some n)
      × (text_at (codes "policy") row ≡ some policy)
      × (fill_hash (section_of (codes "Payinfo") config) row [] ≡ some h)

  abbrev pub HavePolicies : List Row → List Str → Type 0
  HavePolicies [] [] = Unit
  HavePolicies [] (p ∷ ps) = ⊥
  HavePolicies (row ∷ rows) [] = ⊥
  HavePolicies (row ∷ rows) (p ∷ ps) = HasPolicy row p × HavePolicies rows ps

  module _ (table : Str) (rid : ℕ) (law : KeepsSet tr (pay_key table rid)) where
    pay_row-member :
        (row : Row) (policy : Str) (w : World client tr)
        → HasPolicy row policy
        → policy ≢ codes "Pay"
        → law.IsSetKey w.redis_conn
        → (v : World client tr) × (pay_row client tr config left table rid row w ≡ some (tt, v))
          × law.IsSetKey v.redis_conn
          × ((x : Str)
              → law.member v.redis_conn x
                ≡ (not (str_eq no_policy x) && (str_eq policy x || law.member w.redis_conn x)))
    unfolding pay_row
    pay_row-member row policy w (n, h, id, word, filled) ne at_set =
        let (r1, s1, e1, i1, m1) =
          law.hash w.redis_conn (policy_key table policy rid) (flatten h)
            (policy_key-ne table policy rid ne) at_set in
        let (r2, s2, e2, i2, m2) = law.add s1 policy i1 in
        let (r3, s3, e3, i3, m3) = law.del s2 no_policy i2 in
        let w1 : World client tr = record w { redis_conn = s1 } in
        let w2 : World client tr = record w { redis_conn = s2 } in
        let runs =
          bind-or_throw (number_at left (codes "id") row) _ w n id
          ∙ bind-or_throw (text_at (codes "policy") row) _ w policy word
          ∙ bind-or_throw (fill_hash (section_of (codes "Payinfo") config) row []) _ w h filled
          ∙ bind-some (hash_set client tr (policy_key table policy rid) h) _ w w1 tt (
              with_redis-some client tr (set_hash tr (policy_key table policy rid) h) w _ s1
                (set_hash-argv tr _ h w.redis_conn r1 s1 e1))
          ∙ bind-some (member_add client tr (pay_key table rid) policy) _ w1 w2 tt (
              with_redis-some client tr (set_add tr (pay_key table rid) policy) w1 _ s2
                (set_add-argv tr _ policy s1 r2 s2 e2))
          ∙ with_redis-some client tr (set_del tr (pay_key table rid) no_policy) w2 _ s3
              (set_del-argv tr _ no_policy s2 r3 s3 e3) in
        (record w { redis_conn = s3 }, runs, i3, λ x. m3 x ∙ rw (m2 x, m1 x))

    pay_rows-member :
        (rows : List Row) (policies : List Str) (w : World client tr)
        → HavePolicies rows policies
        → All IsNotPay policies
        → law.IsSetKey w.redis_conn
        → (v : World client tr) × (pay_rows client tr config left table rid rows w ≡ some (tt, v))
          × ((x : Str)
              → law.member v.redis_conn x
                ≡ members_after (some policies) (law.member w.redis_conn) x)
    unfolding pay_rows
    pay_rows-member [] [] w have ne at_set = (w, refl, λ x. refl)
    pay_rows-member [] (p ∷ ps) w have ne at_set = absurd have
    pay_rows-member (row ∷ rows) [] w have ne at_set = absurd have
    pay_rows-member (row ∷ rows) (p ∷ ps) w have ne at_set =
        let (v, ran, set_v, m) = pay_row-member row p w have.0 ne.0 at_set in
        let (u, rest, m') = pay_rows-member rows ps v have.1 ne.1 set_v in
        (
          u,
          rw (ran, pay_rows) rest,
          λ x. m' x ∙ members_step p ps (law.member w.redis_conn) (law.member v.redis_conn) x (m x),
        )

    abbrev pub NonePay : Option (List Str) → Type 0
    NonePay none = Unit
    NonePay (some policies) = All IsNotPay policies

    -- What the query may find, as the policies of its rows.
    abbrev pub Finds : Option (List Row) → Option (List Str) → Type 0
    Finds none none = Unit
    Finds none (some ps) = ⊥
    Finds (some rows) none = ⊥
    Finds (some rows) (some ps) = HavePolicies rows ps

    pay_found-member :
        (found : Option (List Row)) (policies : Option (List Str)) (w : World client tr)
        → Finds found policies
        → NonePay policies
        → law.IsSetKey w.redis_conn
        → (v : World client tr) × (pay_found client tr config left table rid found w ≡ some (tt, v))
          × ((x : Str)
              → law.member v.redis_conn x ≡ members_after policies (law.member w.redis_conn) x)
    unfolding pay_found
    pay_found-member none none w finds ne at_set =
        let (r, s, e, i, m) = law.add w.redis_conn no_policy at_set in
        (
          record w { redis_conn = s },
          with_redis-some client tr (set_add tr (pay_key table rid) no_policy) w _ s
              (set_add-argv tr _ no_policy w.redis_conn r s e),
          m,
        )
    pay_found-member none (some ps) w finds ne at_set = absurd finds
    pay_found-member (some rows) none w finds ne at_set = absurd finds
    pay_found-member (some rows) (some ps) w finds ne at_set =
        pay_rows-member rows ps w finds ne at_set

    -- The query for the policies of a row, and what is done with its answer, where the rows found can
    -- be read, none of them has the policy `Pay`, whose hash would have the key of the set, and the
    -- key is that of a set. With policies, these are in the set and `none` is out of it; without,
    -- `none` is put in. Nothing else is taken out of the set in either case: a policy that is gone from
    -- MySQL stays.
    pub pay_info-members_after :
        (kind : ℕ) (found : Option (List Row)) (policies : Option (List Str))
        (w v : World client tr)
        → select client tr (pay_sql client tr config left kind rid) w ≡ some (found, v)
        → Finds found policies
        → NonePay policies
        → law.IsSetKey v.redis_conn
        → (u : World client tr) × (pay_info client tr config left kind table rid w ≡ some (tt, u))
          × ((x : Str)
              → law.member u.redis_conn x ≡ members_after policies (law.member v.redis_conn) x)
    unfolding pay_info
    pay_info-members_after kind found policies w v asked finds ne at_set =
        let (u, ran, m) = pay_found-member found policies v finds ne at_set in
        (
          u,
          bind-some (select client tr (pay_sql client tr config left kind rid)) _ w v found asked
              ∙ ran,
          m,
        )
