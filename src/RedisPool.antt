-- ===== src/RedisPool.antt =====
-- redispool/redispool.h and redispool_cluster/redispool_cluster.h: the pools of Redis connections.
pub mod Cluster
use calcsig.Common.{ℕ, Bool}
use calcsig.Common.Text.{Str}
use calcsig.ObjectPool as Objects
use calcsig.ObjectPool.{Pool, Got, init, get}

pub record RedisPool : Type 0 where
  pub redispool : Pool
  pub redishost : Str
  pub redisport : ℕ
  pub auth : Str

-- `constructs` says whether a constructor of `redisconn` returns; false as the second part is an
-- exception of the constructor of the pool. Without a password `auth` is empty.
unfoldable pub new_pool : (ℕ → Bool) → ℕ → ℕ → Str → ℕ → Str → RedisPool × Bool
new_pool constructs num max_num host port auth =
    let (pool, made) = init constructs num max_num in
    (record { redispool = pool; redishost = host; redisport = port; auth = auth }, made)

pub get_connection : (ℕ → Bool) → RedisPool → Got
get_connection constructs p = get constructs p.redispool

-- The destructor.
pub destroy : RedisPool → RedisPool
destroy p = record p { redispool = Objects.destroy p.redispool }
