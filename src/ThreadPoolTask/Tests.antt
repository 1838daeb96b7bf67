-- ===== src/ThreadPoolTask/Tests.antt =====
-- Two threads at work: the one has run its task and starts a thread, the other runs its own.
use calcsig.Common.{◌⊎◌, true, ◌+◌, ◌≤◌, ◌≡◌, refl, false, [], ◌∷◌, ◌++◌, total, replicate}
use calcsig.Workers.{System, act, clear, add, emplace, Reach, here, next}
use calcsig.ThreadPoolTask.{
  top, waits, took, running, move, pop_task, task_worker, init_threads, init, start,
}
use calcsig.ThreadPoolTask.Counts.{using, live, holds}
use calcsig.ThreadPoolTask.Progress.{CanMove}
use calcsig.ThreadPoolTask.Reached.{limit, Reach-counts}

abbrev busy : System task_worker
busy = record {
  pool = record {
    tasks = 8 ∷ 9 ∷ [];
    m_lock = false;
    is_stopped = false;
    init_num = 5;
    cur_num = 5;
    used_num = 1;
    max_num = 7;
  };
  threads = running 7 2 ∷ top ∷ top ∷ top ∷ top ∷ [];
  cleared = [];
  added = 7 ∷ 8 ∷ 9 ∷ [];
  taken = 7 ∷ [];
}

busy-Reach : Reach (start 2 7) busy
unfolding init init_threads move pop_task emplace
busy-Reach =
    next
      (next
        (next
          (next
            (next
              (next (next (next (next here (clear 7 refl)) (add [] [] 7 refl refl)) (clear 8 refl))
                (add [] [] 8 refl refl))
              (clear 9 refl))
            (add [] [] 9 refl refl))
          (act [] (replicate 4 top) top _ refl refl))
        (act [] (replicate 4 top) waits _ refl refl))
      (act [] (replicate 4 top) (took 7 2) _ refl refl)

Reach-counts_example :
    (init_threads 2 ≤ busy.pool.cur_num)
    × (busy.pool.cur_num ≤ limit (init_threads 2) 7)
    × (busy.pool.cur_num ≤ total live busy.threads)
    × (total live busy.threads ≤ busy.pool.cur_num + 1)
    × (busy.pool.used_num ≡ total using busy.threads)
    × (total holds busy.threads ≤ 1)
    × ((busy.pool.is_stopped ≡ true) ⊎ (busy.pool.tasks ≡ []) ⊎ CanMove busy.pool busy.threads)
    × (busy.added ≡ busy.taken ++ busy.pool.tasks)
Reach-counts_example = Reach-counts 2 7 busy busy-Reach
