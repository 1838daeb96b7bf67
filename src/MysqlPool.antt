-- ===== src/MysqlPool.antt =====
-- mysqlpool/mysqlpool.h: the pool of MySQL connections, an object pool whose objects are made with the
-- parameters of the connection.
use calcsig.Common.{ℕ, Bool}
use calcsig.Common.Text.{Str}
use calcsig.ObjectPool as Objects
use calcsig.ObjectPool.{Pool, Got, init, get}

pub record MysqlPool : Type 0 where
  pub sqlpool : Pool
  pub host : Str
  pub user : Str
  pub passwd : Str
  pub port : ℕ
  pub charset : Str
  pub db : Str

-- `constructs` says whether a constructor of `mysqlconnector` returns; false as the second part is an
-- exception of the constructor of the pool.
unfoldable pub new_pool : (ℕ → Bool) → ℕ → ℕ → Str → ℕ → Str → Str → Str → Str → MysqlPool × Bool
new_pool constructs num max_num host port user passwd db charset =
    let (pool, made) = init constructs num max_num in
    (
      record {
        sqlpool = pool;
        host = host;
        user = user;
        passwd = passwd;
        port = port;
        charset = charset;
        db = db;
      },
      made,
    )

pub get_connection : (ℕ → Bool) → MysqlPool → Got
get_connection constructs p = get constructs p.sqlpool

-- The destructor.
pub destroy : MysqlPool → MysqlPool
destroy p = record p { sqlpool = Objects.destroy p.sqlpool }
