-- ===== src/ThreadPool98/Tests.antt =====
-- Runs of the thread pool on small inputs, and the theorems at them.
use calcsig.Common.{ℕ, ◌≤◌, ◌≡◌, refl, arith, true, false, List, [], ◌∷◌, ◌++◌, none, some}
use calcsig.ThreadPool98.{
  Pool, new_pool, get_task, push_task, stop, adjust_thread, is_full, Seen, see,
}
use calcsig.ThreadPool98.Threads.{
  System, Step, clear, add, take, halt, Reach, here, next, start_system, Reach-fifo, Reach-frozen,
}
use calcsig.ThreadPool98.Adjust.{adjust_thread-bounds, adjust_thread-diverges}

abbrev pool_with : ℕ → List ℕ → Pool
pool_with cur tasks = record {
  min_thread = 2;
  max_thread = 4;
  cur_thread = cur;
  is_stopped = false;
  max_queue = 2;
  task_queue = tasks;
}

-- Tasks 7 and 8 are added, and the first of them is taken.
abbrev one_taken : System
one_taken = record {
  pool = pool_with 2 (8 ∷ []);
  holder = none;
  cleared = [];
  added = 7 ∷ 8 ∷ [];
  taken = 7 ∷ [];
}

one_taken-Reach : Reach (start_system 2 4 2) one_taken
unfolding new_pool push_task get_task
one_taken-Reach =
    next
      (next (next (next (next here (clear 7 refl)) (clear 8 refl)) (add (8 ∷ []) [] 7 refl refl))
        (add [] [] 8 refl refl))
      (take 1 7 _ refl refl)

Reach-fifo_example : one_taken.added ≡ one_taken.taken ++ one_taken.pool.task_queue
Reach-fifo_example = Reach-fifo 2 4 2 one_taken one_taken-Reach

abbrev stopped : System
stopped = record one_taken { pool = record (pool_with 2 (8 ∷ [])) { is_stopped = true } }

-- Another thread wants to add a task after the first has left with the mutex.
abbrev stuck : System
stuck = record stopped { holder = some 1; pool = stop stopped.pool }

Reach-frozen_example :
    Step stopped (record stopped { holder = some 1 })
    × (stuck.holder ≡ some 1)
    × (stuck.taken ≡ stopped.taken)
    × (stuck.added ≡ stopped.added)
    × (stuck.pool.task_queue ≡ stopped.pool.task_queue)
Reach-frozen_example = Reach-frozen stopped stuck 1 refl refl (next here halt)

abbrev full_seen : ℕ → Seen
full_seen n = record { stopped = false; queue = 1 ∷ 2 ∷ 3 ∷ [] }

-- The workers have emptied the queue when it is read behind the loop.
abbrev empty_seen : Seen
empty_seen = record { stopped = false; queue = [] }

adjust_thread-bounds_example :
    (q : Pool) × (adjust_thread (λ n. true) full_seen empty_seen 3 (pool_with 2 (1 ∷ 2 ∷ 3 ∷ []))
      ≡ some q)
    × (2 ≤ q.cur_thread)
    × (q.cur_thread ≤ 4)
    × (q.task_queue ≡ 1 ∷ 2 ∷ 3 ∷ [])
adjust_thread-bounds_example =
    adjust_thread-bounds (λ n. true) full_seen empty_seen 2 (pool_with 2 (1 ∷ 2 ∷ 3 ∷ []))
      (λ k. refl) (omega arith) (omega arith) (omega arith)

adjust_thread-diverges_example :
    adjust_thread (λ n. false) full_seen empty_seen 1000 (pool_with 2 (1 ∷ 2 ∷ [])) ≡ none
unfolding is_full see
adjust_thread-diverges_example =
    adjust_thread-diverges (λ n. false) full_seen empty_seen (pool_with 2 (1 ∷ 2 ∷ [])) 1000
      (λ k h. refl) (λ k h. refl) (λ k h. refl) (omega arith)
