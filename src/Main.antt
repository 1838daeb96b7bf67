-- ===== src/Main.antt =====
-- src/main.cpp, indexer/main.cpp and indexer_inc/main.cpp: from the file of the configuration to the
-- service and to the two indexers. Logs are left out.
pub mod Ready
pub mod Tests
use calcsig.Common.{ℕ, Bool, false, List, Option, none, some}
use calcsig.Common.Text.{Str}
use calcsig.Config.{Section, Loaded, no_file, loaded, load_config}
use calcsig.Redis.{Transport}
use calcsig.MysqlConn.Connector.{Client}
use calcsig.Indexer.World.{World}
use calcsig.Indexer.Copy
use calcsig.Indexer.Init as First
use calcsig.IndexerInc
use calcsig.IndexerInc.Init as Second
use calcsig.Server.Init as Service

-- What `main` comes to: the return of -1 without a parameter, without the file, or behind `init`; an
-- exception; or what it starts.
pub data Exit (A : Type 0) : Type 0 where
  parameter_missing : Exit A
  no_config : Exit A
  init_failed : Exit A
  uncaught : Exit A
  starts : A → Exit A

-- `argv[1]`, if it is there, as the lines of the file of that name, if it can be opened.
abbrev pub Argument : Type 0
Argument = Option (Option (List Str))

-- `none` is a `loadConfig` that does not return.
unfoldable pub server_main : ℕ → Argument → Option (Exit Service.Settings)
server_main fuel none = some parameter_missing
server_main fuel (some file) = elim (load_config fuel file) [
  | none ↦ none
  | some no_file ↦ some no_config
  | some (loaded config) ↦ elim (Service.init config) [
    | Service.missing key ↦ some init_failed
    | Service.ready settings ↦ some (starts settings)
  ]
]

-- The connections are those that the pools give; `left` is what an uninitialised variable holds.
module _ (client : Client) (tr : Transport) (left : ℕ)
    (sql_constructs redis_constructs : ℕ → Bool) where
  unfoldable pub indexer_main :
      ℕ → Argument → World client tr → Option (Exit (Option (Unit {0} × World client tr)))
  indexer_main fuel none w = some parameter_missing
  indexer_main fuel (some file) w = elim (load_config fuel file) [
    | none ↦ none
    | some no_file ↦ some no_config
    | some (loaded config) ↦ elim (First.init sql_constructs redis_constructs config) [
      | First.missing ↦ some init_failed
      | First.threw ↦ some uncaught
      | First.ready settings mysql_pool redis_pool ↦
          some (starts (Copy.start client tr config left false 0 10000 w))
    ]
  ]

  unfoldable pub indexer_inc_main :
      (ℕ → Str)
      → ℕ
      → ℕ
      → Argument
      → World client tr
      → Option (Exit (Option (Unit {0} × World client tr)))
  indexer_inc_main strftime now fuel none w = some parameter_missing
  indexer_inc_main strftime now fuel (some file) w = elim (load_config fuel file) [
    | none ↦ none
    | some no_file ↦ some no_config
    | some (loaded config) ↦ elim (Second.init sql_constructs redis_constructs config) [
      | First.missing ↦ some init_failed
      | First.threw ↦ some uncaught
      | First.ready settings mysql_pool redis_pool ↦
          some (starts (IndexerInc.start client tr config left strftime now false 0 180 w))
    ]
  ]
