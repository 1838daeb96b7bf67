-- ===== src/Redis/Cluster.antt =====
-- redispool_cluster/redisconn_cluster.hpp: the same commands over `redisClusterCommandArgv`. The class
-- is a copy of `redisconn` but for the calls of hiredis, which are the parameter.
use calcsig.Common.{List, Option, Bool}
use calcsig.Common.Text.{Str}
use calcsig.Redis
use calcsig.Redis.{Transport, Connected}
use calcsig.Redis.Raw
use calcsig.Redis.Raw.{Call, Connection}

module _ (cluster : Transport) where
  open cluster use {State}

  pub get_hash_all : Str → State → Option (List (Str × Str) × State)
  get_hash_all = Redis.get_hash_all cluster

  pub set_hash : Str → List (Str × Str) → State → Option (Bool × State)
  set_hash = Redis.set_hash cluster

  pub set_string : Str → Str → State → Option (Bool × State)
  set_string = Redis.set_string cluster

  pub get_string : Str → State → Option (Str × State)
  get_string = Redis.get_string cluster

  pub get_set : Str → State → Option (List Str × State)
  get_set = Redis.get_set cluster

  pub set_add : Str → Str → State → Option (Bool × State)
  set_add = Redis.set_add cluster

  pub set_del : Str → Str → State → Option (Bool × State)
  set_del = Redis.set_del cluster

  pub redis_auth : Str → State → Option (Bool × State)
  redis_auth = Redis.redis_auth cluster

pub connect : (cluster : Transport) → Option cluster.State → Str → Connected cluster.State
connect = Redis.connect

-- `sendCommand`, `getReply` and `freeReply`.
pub call : Call → Connection → Option Connection
call = Raw.call

pub run : List Call → Connection → Option Connection
run = Raw.run
