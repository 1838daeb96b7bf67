-- ===== src/Indexer/Copy/Tests.antt =====
-- A row of `MusicPay` for the row 7, and a server with one set.
use calcsig.Common.{
  ℕ, ◌≡◌, ◌≢◌, refl, ap, if◌then◌else◌, Bool, true, not, ◌&&◌, ◌||◌, List, [], ◌∷◌, Option, none,
  some,
}
use calcsig.Common.Text.{Str, codes, str_eq, lookup}
use calcsig.Config.{Section}
use calcsig.Redis.{Transport, Reply, integer}
use calcsig.MysqlConn.{
  Cell, Row, fetchall, fetch_rows, fill_row, add_cell, new_field, set_field, set_value, deref,
  get_value,
}
use calcsig.MysqlConn.Connector.{Client, execute, query, store, put_result}
use calcsig.Indexer.Values.{to_string, to_unsigned}
use calcsig.Indexer.World.{World, select, fetch}
use calcsig.Indexer.Copy.{section_of, fill_hash, pay_info, pay_key, pay_sql, text_at, number_at}
use calcsig.Indexer.Copy.Members.{KeepsSet, members_after, no_policy, pay_info-members_after}

-- The state of the server is the one set.
act : Str → List Str → (Str → Bool) → Str → Bool
act cmd [] s x = s x
act cmd (v ∷ more) s x =
    if str_eq cmd (codes "SADD")
    then (str_eq v x || s x)
    else if str_eq cmd (codes "SREM")
    then (not (str_eq v x) && s x)
    else s x

toy_argv : List Str → (Str → Bool) → Option Reply × (Str → Bool)
toy_argv [] s = (none, s)
toy_argv (cmd ∷ []) s = (none, s)
toy_argv (cmd ∷ key ∷ args) s = (some (integer 0), act cmd args s)

abbrev toy_tr : Transport
toy_tr = record { State = Str → Bool; argv = toy_argv }

act-hash : (args : List Str) (s : Str → Bool) (x : Str) → act (codes "HMSET") args s x ≡ s x
unfolding act str_eq
act-hash [] s x = refl
act-hash (v ∷ more) s x = refl

toy_KeepsSet : (key : Str) → KeepsSet toy_tr key
unfolding toy_argv act str_eq
toy_KeepsSet key = record {
  IsSetKey = λ s. Unit;
  member = λ s x. s x;
  add = λ s v i. (integer 0, _, refl, tt, λ x. refl);
  del = λ s v i. (integer 0, _, refl, tt, λ x. refl);
  hash = λ s k args ne i. (integer 0, _, refl, tt, λ x. act-hash args s x);
}

abbrev pay_cells : List Cell
pay_cells =
    record { name = codes "id"; content = some (codes "1"); length = 1 }
    ∷ record { name = codes "policy"; content = some (codes "vip only"); length = 8 }
    ∷ []

abbrev toy_client : Client
toy_client = record {
  State = ℕ;
  init = λ s. (s, true);
  real_connect = λ s. (s, true);
  set_character_set = λ s. (s, true);
  ping = λ s. (s, true);
  real_query = λ sql s. (s, true);
  store_result = λ s. (s, some (record { rows = pay_cells ∷ []; num_rows = some 1 }));
  close = λ s. s;
}

abbrev toy_config : List (Str × Section)
toy_config = (codes "Payinfo", (codes "policy", codes "p") ∷ []) ∷ []

abbrev pay_fields : Row
pay_fields = record {
  fields =
      record { name = codes "id"; m_value = codes "1"; m_length = 1 }
      ∷ record { name = codes "policy"; m_value = codes "vip only"; m_length = 8 }
      ∷ [];
  m_fields = (codes "policy", 1) ∷ (codes "id", 0) ∷ [];
  m_vfields = 0 ∷ 1 ∷ [];
}

abbrev before : World toy_client toy_tr
before = record {
  sql_conn = record { state = 0; handles = 1; result = none; lost = 0 };
  redis_conn = λ x. str_eq no_policy x;
}

asked :
    (v : World toy_client toy_tr) × (select toy_client toy_tr
        (pay_sql toy_client toy_tr toy_config 0 0 7)
        before
      ≡ some (some (pay_fields ∷ []), v))
unfolding select fetch execute query store put_result fetchall fetch_rows fill_row add_cell
    new_field set_field set_value deref lookup str_eq
asked = (_, refl)

policies_of_row :
    (n : ℕ) × (h : List (Str × Str)) × (number_at 0 (codes "id") pay_fields ≡ some n)
    × (text_at (codes "policy") pay_fields ≡ some (codes "vip"))
    × (fill_hash ((codes "policy", codes "p") ∷ []) pay_fields [] ≡ some h)
unfolding number_at text_at fill_hash to_string to_unsigned get_value deref lookup str_eq
policies_of_row = (_, _, refl, refl, refl)

vip-IsNotPay : codes "vip" ≢ codes "Pay"
unfolding str_eq
vip-IsNotPay e = cc (ap (λ s. str_eq s (codes "Pay")) e)

pay_info-members_after_example :
    (u : World toy_client toy_tr) × (pay_info toy_client toy_tr toy_config 0 0
        (codes "Music")
        7
        before
      ≡ some (tt, u))
    × ((x : Str) → u.redis_conn x ≡ members_after (some (codes "vip" ∷ [])) (asked.0.redis_conn) x)
unfolding toy_KeepsSet section_of lookup str_eq
pay_info-members_after_example =
    pay_info-members_after toy_client toy_tr toy_config 0 (codes "Music") 7
      (toy_KeepsSet (pay_key (codes "Music") 7)) 0 (some (pay_fields ∷ []))
      (some (codes "vip" ∷ [])) before asked.0 asked.1 (policies_of_row, tt) (vip-IsNotPay, tt) tt
