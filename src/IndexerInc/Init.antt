-- ===== src/IndexerInc/Init.antt =====
-- indexer_inc/indexer.cpp: `indexerServer::init` of the incremental indexer.
use calcsig.Common.{ℕ, if◌then◌else◌, Bool, List, Option, none, some}
use calcsig.Common.Text.{Str, codes, lookup}
use calcsig.Config.{Section}
use calcsig.Indexer.Init.{Settings, Started, missing, ready, threw, number_of}
use calcsig.IndexerInc.{section_of}
use calcsig.MysqlPool
use calcsig.MysqlPool.{MysqlPool}
use calcsig.RedisPool
use calcsig.RedisPool.{RedisPool}

-- `none` is the return of -1.
infixl 5 ◌>>=◌
abbrev ◌>>=◌ {ℓ κ} : {A : Type ℓ} {B : Type κ} → Option A → (A → Option B) → Option B
none >>= f = none
some a >>= f = f a

unfoldable pub read_settings : Section → Section → Section → Option Settings
read_settings common mysql redis = do
  pic_artist ← lookup (codes "pic_artist") common
  pic_album ← lookup (codes "pic_album") common
  db_ip ← lookup (codes "dbres_ip") mysql
  db_user ← lookup (codes "dbres_user") mysql
  db_passwd ← lookup (codes "dbres_passwd") mysql
  db_name ← lookup (codes "dbres_name") mysql
  db_charset ← lookup (codes "dbres_charset") mysql
  db_port ← lookup (codes "dbres_port") mysql
  db_pool_num ← lookup (codes "db_pool_num") mysql
  db_pool_maxnum ← lookup (codes "db_pool_maxnum") mysql
  redis_ip ← lookup (codes "redis_ip") redis
  redis_port ← lookup (codes "redis_port") redis
  redis_auth ← lookup (codes "redis_auth") redis
  redis_pool_num ← lookup (codes "pool_num") redis
  redis_pool_maxnum ← lookup (codes "pool_maxnum") redis
  some (record {
    pic_artist = pic_artist;
    pic_album = pic_album;
    db_ip = db_ip;
    db_user = db_user;
    db_passwd = db_passwd;
    db_name = db_name;
    db_charset = db_charset;
    db_port = number_of db_port;
    db_pool_num = number_of db_pool_num;
    db_pool_maxnum = number_of db_pool_maxnum;
    redis_ip = redis_ip;
    redis_port = number_of redis_port;
    redis_auth = redis_auth;
    redis_pool_num = number_of redis_pool_num;
    redis_pool_maxnum = number_of redis_pool_maxnum;
  })

unfoldable pub make_pools : (ℕ → Bool) → (ℕ → Bool) → Settings → Started
make_pools sql_constructs redis_constructs s =
    let (mysql_pool, sql_made) =
      MysqlPool.new_pool sql_constructs s.db_pool_num s.db_pool_maxnum s.db_ip s.db_port s.db_user
        s.db_passwd s.db_name s.db_charset in
    let (redis_pool, redis_made) =
      RedisPool.new_pool redis_constructs s.redis_pool_num s.redis_pool_maxnum s.redis_ip
        s.redis_port s.redis_auth in
    if sql_made then (if redis_made then ready s mysql_pool redis_pool else threw) else threw

unfoldable pub init : (ℕ → Bool) → (ℕ → Bool) → List (Str × Section) → Started
unfolding read_settings make_pools section_of
init sql_constructs redis_constructs config =
    elim (read_settings (section_of (codes "common") config) (section_of (codes "mysql") config)
      (section_of (codes "redis") config)) [
        | none ↦ missing
        | some s ↦ make_pools sql_constructs redis_constructs s
      ]
