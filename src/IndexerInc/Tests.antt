-- ===== src/IndexerInc/Tests.antt =====
-- The two indexers on a server that remembers its commands and a database that is empty.
use calcsig.Common.{ℕ, ◌≡◌, ◌++◌, Bool, true, List, [], ◌∷◌, some}
use calcsig.Common.Text.{Str, codes}
use calcsig.Config.{Section}
use calcsig.Redis.{Transport, integer}
use calcsig.MysqlConn.{Row}
use calcsig.MysqlConn.Connector.{Client}
use calcsig.Indexer.World.{World}
use calcsig.Indexer.Copy
use calcsig.Indexer.Init as First
use calcsig.IndexerInc
use calcsig.IndexerInc.Init as Second
use calcsig.IndexerInc.Same.{indexers_same}

abbrev log_tr : Transport
log_tr = record {
  State = List (List Str);
  argv = λ args log. (some (integer 1), log ++ (args ∷ []));
}

abbrev empty_client : Client
empty_client = record {
  State = List Str;
  init = λ s. (s, true);
  real_connect = λ s. (s, true);
  set_character_set = λ s. (s, true);
  ping = λ s. (s, true);
  real_query = λ sql s. (s ++ (sql ∷ []), true);
  store_result = λ s. (s, some (record { rows = []; num_rows = some 0 }));
  close = λ s. s;
}

abbrev two_sections : List (Str × Section)
two_sections =
    (codes "Music", (codes "name", codes "n") ∷ [])
    ∷ (codes "common", (codes "pic_artist", codes "a") ∷ [])
    ∷ []

indexers_same_example :
    ((sql_constructs redis_constructs : ℕ → Bool)
      → Second.init sql_constructs redis_constructs two_sections
        ≡ First.init sql_constructs redis_constructs two_sections)
    × ((kind : ℕ) (rows : List Row) (w : World empty_client log_tr)
        → IndexerInc.index_rows empty_client log_tr two_sections 0 kind rows w
          ≡ Copy.index_rows empty_client log_tr two_sections 0 kind rows w)
indexers_same_example = indexers_same empty_client log_tr 0 two_sections
