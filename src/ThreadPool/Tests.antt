-- ===== src/ThreadPool/Tests.antt =====
-- A pool of two threads that may have six.
use calcsig.Common.{◌+◌, ◌<◌, ◌≡◌, arith, false}
use calcsig.Workers.{System, Reach}
use calcsig.ThreadPool.{function_worker, init_threads, start}
use calcsig.ThreadPool.Overshoot.{start-overshoots}

few : init_threads 2 < 6
unfolding init_threads
few = omega arith

start-overshoots_example :
    (s : System function_worker) × Reach (start 2 6) s
    × (s.pool.cur_num ≡ 6 + 1)
    × (s.pool.max_num ≡ 6)
    × (s.pool.is_stopped ≡ false)
    × (s.pool.m_lock ≡ false)
start-overshoots_example = start-overshoots 2 6 few
