-- ===== src/Lib.antt =====
-- calcsig: a service that downloads a file, computes two signatures of it, files it under a path that
-- they give and reports back; and an indexer that copies database tables into Redis. Both are
-- written in C++ over pools of connections and threads.
--
-- The parts and the files that model them (paths from the repository's root):
--
-- ObjectPool (objectpool/objectpool.hpp): the pool of shared objects. `init`, `get`, `auto_create_ptr`
-- (`recycle`), `expand_list` and the destructor (`destroy`); `release` is the end of a handle's life.
-- Every operation is one step, since the code holds the mutex. ObjectPool/System has all interleavings.
-- The constructor of the pooled type is a parameter that returns or throws. Counters are natural
-- numbers: the program keeps them in `int`, and its subtractions are written as additions.
--
-- Utils (utils/utils.cpp): `remove_space_punct` (Utils/Punct), `randString` (Utils/RandString), `sigPath`
-- (Utils/SigPath), `reverse_byte_order` and `calcSig` (Utils/CalcSig), `mkdirs` and `mvfile`
-- (Utils/Directories), and `formatStr` (Utils/FormatStr). The generator, MD5, the file system and what
-- `vsnprintf` makes of its arguments are parameters. `mkdirs_within` takes the length of the path and one as
-- its fuel; each call is on a shorter path.
--
-- Config (utils/config.cpp): `configParser::loadConfig` over the lines of the file. The fuel is for the
-- loop that deletes spaces, which does not end once it has begun; any fuel but 0 is enough otherwise.
--
-- ThreadPool98 (threadpool/threadpool_98.hpp): the queue between the server and its workers.
-- `get_task` is split at the waits: a turn is what a thread does from getting the mutex to giving it
-- back. ThreadPool98/Threads has the mutex, any number of threads and every interleaving, where a
-- thread that waits may go on at any time; the sleep of `pthread_cond_wait` and
-- `pthread_cond_signal` are in Server/Service, on which what is said of progress rests.
-- ThreadPool98/Adjust has the number of threads: each test of `adjust_thread` reads the queue and
-- the flag as the other threads have left them. The fuel of `adjust_thread` is the room for threads
-- and one.
--
-- Redis (redispool/redisconn.hpp) and Redis/Cluster (redispool_cluster/redisconn_cluster.hpp): the commands
-- sent and the reading of the replies; Redis/Raw has `sendCommand`, `getReply` and `freeReply`, and which
-- replies are still allocated. hiredis and the server are a parameter; what the manual says of
-- the commands is a hypothesis where it is needed.
--
-- Server (src/server.h, src/server.cpp): `httpServer::init` (Server/Init), `httpServer::start` with
-- the registration of the workers (Server/Start), `check_request_valid` (Server/Auth), the header
-- readers (Server/Headers), the handlers of requests (Server/Request), over the queue of
-- ThreadPool98, and one round of `thread_worker` (Server/Worker), over `randString`, `mkdirs`,
-- `calcSig`, `sigPath` and `mvfile` of Utils. Server/Service has the loop of `thread_worker` step by
-- step: any number of workers and the handler over one queue, one file system and one network, in
-- every interleaving of their steps. A worker that finds the queue empty sleeps until `add_task`
-- signals (Server/Service/Awake and Alert; Stranded has what `stop` leaves asleep), or wakes with no
-- signal, as POSIX allows. There the handler is one step, and so are `mkdirs` and `mvfile`.
-- Server/Service/Files has what is asked of the disk, and Server/Service/Apart the condition on the
-- names that the workers draw, since nothing in the program keeps two of them from drawing the same.
-- libevent, jsoncpp and curl are parameters. The fuel of `read_loop` is one more than the size of
-- the buffer; every read but the last takes a byte. The timer, which only logs, is left out.
--
-- MysqlConn (mysqlpool/mysqlconn.h, mysqlpool/mysqlconn.cpp): rows and results (MysqlConn), and the connection
-- with `execute` and the reconnect (MysqlConn/Connector). The MySQL client is a parameter.
-- MysqlConn/Memory has the rows and fields of a result as objects on a heap, which says of each whether it
-- is alive, with `fetchall`, `free`, the destructors and `operator[]`.
--
-- MysqlPool (mysqlpool/mysqlpool.h), RedisPool (redispool/redispool.h) and RedisPool/Cluster
-- (redispool_cluster/redispool_cluster.h): the pools of connections, each over ObjectPool.
--
-- Indexer (indexer/indexer.cpp, indexer/indexer.h): `indexerServer::init` (Indexer/Init) and
-- `indexerServer::start` (Indexer/Copy), on a connection of MysqlConn and one of Redis (Indexer/World), with
-- the typed conversion of a field (Indexer/Values). The loops over the windows end in `break`, so they need
-- no fuel. IndexerInc (indexer_inc/indexer.cpp) is the incremental indexer, whose code stands there a second
-- time and is translated a second time; the clock and `strftime` are parameters. The output is left out.
--
-- ThreadPoolTask (threadpool/threadpooltask.hpp) and ThreadPool (threadpool/threadpool.hpp): the two other
-- pools of threads. `move` is `thread_loop`, one step at a time; Workers has what they share, the members of
-- the class, `task_add` and every interleaving of any number of threads, and Workers/Totals the sums over
-- the threads. The reading of a condition is one step, and its subtraction is written as an addition. A
-- thread that `init` has still to start is as one that has not moved.
--
-- Main (src/main.cpp, indexer/main.cpp, indexer_inc/main.cpp): the entry points, which load the
-- configuration with Config and start the parts above.
--
-- Not modelled: the programs that are run by hand. hiredis-vip, curl, gflags, glog, jsoncpp and libevent are
-- copies of other projects' libraries.
pub mod Common
pub mod ObjectPool
pub mod Utils
pub mod Config
pub mod ThreadPool98
pub mod Redis
pub mod Server
pub mod MysqlConn
pub mod Indexer
pub mod MysqlPool
pub mod RedisPool
pub mod IndexerInc
pub mod Workers
pub mod ThreadPoolTask
pub mod ThreadPool
pub mod Main
