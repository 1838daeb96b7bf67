-- ===== src/ThreadPool/Reached.antt =====
-- What the counters of threadpool/threadpool.hpp count, with any number of threads in any interleaving.
use calcsig.Common.{
  ℕ, ◌*◌, ◌≤◌, ◌≡◌, refl, arith, if◌then◌else◌, List, [], ◌∷◌, ◌++◌, total, total-replicate,
}
use calcsig.Workers.{Pool, System, emplace, halted, Reach, InOrder, Reach-InOrder}
use calcsig.Workers.Totals.{sum_of, After, if-After, Kept, IsGood, Reach-IsGood}
use calcsig.ThreadPool.{
  Phase, top, waits, took, running, ran, adds, counts, tests, drops, ended, stopped, move, pop_task,
  should_add, should_drop, function_worker, init_threads, init, start,
}

-- Running a task.
abbrev pub using : Phase → ℕ
using (running task n) = 1
using _ = 0

-- Neither returned as one thread too many nor about to count the thread that it has started.
abbrev pub counted : Phase → ℕ
counted ended = 0
counted (counts n) = 0
counted _ = 1

-- Holding the lock.
abbrev pub holds : Phase → ℕ
holds (counts n) = 1
holds _ = 0

-- The pool against the sums over its threads.
record Sums (n : ℕ) (p : Pool) (v : (Phase → ℕ) → ℕ) : Type 0 where
  sum_init : p.init_num ≡ n
  sum_cur : p.cur_num ≡ v counted
  sum_used : p.used_num ≡ v using
  sum_lock : v holds ≡ (if p.m_lock then 1 else 0)

module _ (n : ℕ) where
  pop_task-Sums :
      (p : Pool) (l : List ℕ) (rest : List Phase)
      → Sums n p (sum_of waits rest [])
      → After (Sums n) rest (pop_task p l)
  unfolding pop_task
  pop_task-Sums p [] rest s = if-After (Sums n) rest p.is_stopped _ _ (λ e. ground arith) (λ e. tt)
  pop_task-Sums p (task ∷ more) rest s = ground arith

  move-Sums :
      (p : Pool) (ph : Phase) (rest : List Phase)
      → Sums n p (sum_of ph rest [])
      → After (Sums n) rest (move p ph)
  unfolding move should_add should_drop
  move-Sums p top rest s =
      if-After (Sums n) rest p.is_stopped _ _ (λ e. ground arith) (λ e. ground arith)
  move-Sums p waits rest s =
      if-After (Sums n) rest p.m_lock _ _ (λ e. tt) (λ e. pop_task-Sums p p.tasks rest s)
  move-Sums p (took task k) rest s = ground arith
  move-Sums p (running task k) rest s = ground arith
  move-Sums p (ran k) rest s =
      if-After (Sums n) rest (should_add k p) _ _ (λ e. ground arith) (λ e. ground arith)
  move-Sums p (adds k) rest s = if-After (Sums n) rest p.m_lock _ _ (λ e. tt) (λ e. ground arith)
  move-Sums p (counts k) rest s = ground arith
  move-Sums p (tests k) rest s =
      if-After (Sums n) rest (should_drop k p) _ _ (λ e. ground arith) (λ e. ground arith)
  move-Sums p drops rest s = ground arith
  move-Sums p ended rest s = tt
  move-Sums p stopped rest s = tt

  emplace-Sums :
      (task : ℕ) (p : Pool) (v : (Phase → ℕ) → ℕ) → Sums n p v → Sums n (emplace task p) v
  unfolding emplace
  emplace-Sums task p v g = ground arith

  halted-Sums : (p : Pool) (v : (Phase → ℕ) → ℕ) → Sums n p v → Sums n (halted p) v
  unfolding halted
  halted-Sums p v g = ground arith

  abbrev kept : Kept function_worker
  kept = record {
    Good = Sums n;
    Good-move = move-Sums;
    Good-emplace = emplace-Sums;
    Good-halted = halted-Sums;
  }

start-IsGood : (num max : ℕ) → IsGood (kept (init_threads num)) (start num max)
unfolding init
start-IsGood num max = record {
  sum_init = refl;
  sum_cur = omega (arith, all counted);
  sum_used = omega (arith, all using);
  sum_lock = omega (arith, all holds);
}
  where
    all : (f : Phase → ℕ) → total f (init num max).1 ≡ init_threads num * f top
    all f = total-replicate f (init_threads num) top

-- For all the threads and tasks, in whatever order they run, and whether the pool is stopped or not:
-- `cur_num` is the number of the threads that have not left as one too many, but for one that has the
-- lock and has just started another; `used_num` is the number of the threads that run a task; at most
-- one thread has the lock; and the tasks are taken in the order in which they were added, each once,
-- with the rest in the queue.
pub start-counts :
    (num max : ℕ) (s : System function_worker)
    → Reach (start num max) s
    → (s.pool.cur_num ≡ total counted s.threads)
      × (s.pool.used_num ≡ total using s.threads)
      × (total holds s.threads ≤ 1)
      × (s.added ≡ s.taken ++ s.pool.tasks)
unfolding init
start-counts num max s r =
    let v = Reach-IsGood (kept (init_threads num)) (start-IsGood num max) r in
    (v.sum_cur, v.sum_used, ground arith, Reach-InOrder start-InOrder r)
  where
    start-InOrder : InOrder (start num max)
    start-InOrder = refl
