-- ===== src/ThreadPoolTask/Reached.antt =====
-- The counters of threadpool/threadpooltask.hpp, with any number of threads in any interleaving.
use calcsig.Common.{
  ◌⊎◌, inr, true, [], ℕ, ◌+◌, ◌*◌, ◌≤◌, ◌≡◌, refl, arith, ltb, if◌then◌else◌, ◌++◌, total,
  total_mono, total-replicate,
}
use calcsig.Workers.Totals.{Kept, IsGood, Reach-IsGood}
use calcsig.Workers.{Pool, System, emplace, halted, Reach, InOrder, Reach-InOrder}
use calcsig.ThreadPoolTask.{Phase, top, task_worker, init_threads, init, start}
use calcsig.ThreadPoolTask.Progress.{CanMove, tasks-CanMove}
use calcsig.ThreadPoolTask.Counts.{
  using, live, holds, late, counted, adding, dropping, gone, late-holds, live-counted, Sums,
  move-Good,
}

-- The larger of the two numbers of threads.
abbrev pub limit : ℕ → ℕ → ℕ
limit n max = if ltb n max then max else n

limit-max : (n max : ℕ) → max ≤ limit n max
limit-max n max = ground arith

module _ (n max : ℕ) where
  abbrev Fits : Pool → ((Phase → ℕ) → ℕ) → Type 0
  Fits = Sums n max (limit n max)

  emplace-Fits : (task : ℕ) (p : Pool) (v : (Phase → ℕ) → ℕ) → Fits p v → Fits (emplace task p) v
  unfolding emplace
  emplace-Fits task p v g = ground arith

  halted-Fits : (p : Pool) (v : (Phase → ℕ) → ℕ) → Fits p v → Fits (halted p) v
  unfolding halted
  halted-Fits p v g = ground arith

  abbrev kept : Kept task_worker
  kept = record {
    Good = Fits;
    Good-move = move-Good n max (limit n max) (limit-max n max);
    Good-emplace = emplace-Fits;
    Good-halted = halted-Fits;
  }

start-IsGood : (num max : ℕ) → IsGood (kept (init_threads num) max) (start num max)
unfolding init
start-IsGood num max = record {
  sum_init = refl;
  sum_max = refl;
  sum_cur = omega (arith, all counted);
  sum_used = omega (arith, all using);
  sum_lock = omega (arith, all holds);
  sum_above = ground (arith, all adding);
  sum_below = omega (arith, all dropping);
  sum_gone = inr (omega (arith, all gone));
}
  where
    all : (f : Phase → ℕ) → total f (init num max).1 ≡ init_threads num * f top
    all f = total-replicate f (init_threads num) top

init_threads-some : (num : ℕ) → 1 ≤ init_threads num
unfolding init_threads
init_threads-some num = ground arith

-- For all the threads and tasks, in whatever order they run, and whether the pool is stopped or not:
-- the number of threads stays between the number of `init` and the limit, or at the first where the
-- limit is lower; it is the number of the threads that have not left as one too many, or one less while
-- the thread that has the lock starts one more; as many threads as `used_num` says run a task; at most
-- one thread has the lock; unless the pool is stopped or no task is queued, some thread can do its next
-- step; and the tasks are taken in the order in which they were added, each once, with the rest in the
-- queue.
pub Reach-counts :
    (num max : ℕ) (s : System task_worker)
    → Reach (start num max) s
    → (init_threads num ≤ s.pool.cur_num)
      × (s.pool.cur_num ≤ limit (init_threads num) max)
      × (s.pool.cur_num ≤ total live s.threads)
      × (total live s.threads ≤ s.pool.cur_num + 1)
      × (s.pool.used_num ≡ total using s.threads)
      × (total holds s.threads ≤ 1)
      × ((s.pool.is_stopped ≡ true) ⊎ (s.pool.tasks ≡ []) ⊎ CanMove s.pool s.threads)
      × (s.added ≡ s.taken ++ s.pool.tasks)
unfolding init
Reach-counts num max s r =
    let v = Reach-IsGood (kept (init_threads num) max) (start-IsGood num max) r in
    let one = total_mono late holds s.threads late-holds in
    (
      ground arith,
      ground arith,
      omega (arith, live-counted s.threads),
      ground (arith, live-counted s.threads),
      v.sum_used,
      ground arith,
      tasks-CanMove s.pool s.threads v.sum_lock
          (ground (arith, init_threads-some num, live-counted s.threads)) v.sum_gone,
      Reach-InOrder start-InOrder r,
    )
  where
    start-InOrder : InOrder (start num max)
    start-InOrder = refl
