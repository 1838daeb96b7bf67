-- ===== src/RedisPool/Cluster.antt =====
-- redispool_cluster/redispool_cluster.h: the pool of connections to a Redis cluster.
use calcsig.Common.{ℕ, Bool}
use calcsig.Common.Text.{Str}
use calcsig.ObjectPool.{Pool, Got, init, get}
use calcsig.ObjectPool as Objects

pub record RedisClusterPool : Type 0 where
  pub redispool_cluster : Pool
  pub redishosts : Str
  pub auth : Str

pub new_pool : (ℕ → Bool) → ℕ → ℕ → Str → Str → RedisClusterPool × Bool
new_pool constructs num max_num hosts auth =
    let (pool, made) = init constructs num max_num in
    (record { redispool_cluster = pool; redishosts = hosts; auth = auth }, made)

pub get_connection : (ℕ → Bool) → RedisClusterPool → Got
get_connection constructs p = get constructs p.redispool_cluster

-- `~redisClusterPool()`.
pub destroy : RedisClusterPool → RedisClusterPool
destroy p = record p { redispool_cluster = Objects.destroy p.redispool_cluster }
