-- ===== src/Workers.antt =====
-- threadpool/threadpooltask.hpp and threadpool/threadpool.hpp: what the two pools of threads have in
-- common, the members of the class and the interleaving of their threads. A thread is where it stands
-- in `thread_loop`, and `move` does its next step: what is done while `m_lock` is held and what nobody
-- else can see in between is one step, and so is the reading of a condition. A task is named by a
-- number.
pub mod Totals
use calcsig.Common.{
  ℕ, ◌≡◌, refl, ap, sym, ◌∙◌, Bool, true, false, List, [], ◌∷◌, ◌++◌, append_assoc, Option, none,
  some,
}

-- The members, but for the list of the threads. `int` and `size_t` are natural numbers.
pub record Pool : Type 0 where
  pub tasks : List ℕ
  pub m_lock : Bool
  pub is_stopped : Bool
  pub init_num : ℕ
  pub cur_num : ℕ
  pub used_num : ℕ
  pub max_num : ℕ

-- A step of a thread: the pool and the place behind it, and the threads that it has started.
pub record Moved (Phase : Type 0) : Type 0 where
  pub pool : Pool
  pub phase : Phase
  pub started : List Phase

-- A `thread_loop`. The move `none` is that of a thread that is blocked or has returned; `popped` is
-- the task that a thread has just taken from the queue.
pub record Worker : Type 1 where
  pub Phase : Type 0
  pub move : Pool → Phase → Option (Moved Phase)
  pub popped : Phase → List ℕ
  pub move-tasks :
      (p : Pool) (ph : Phase) (m : Moved Phase)
      → move p ph ≡ some m
      → p.tasks ≡ popped m.phase ++ m.pool.tasks

-- `cleared` holds the tasks whose `task_add` has read `is_stopped` as false and waits for the lock;
-- `added` and `taken` record the tasks put into the queue and taken from it, the first first.
pub record System (worker : Worker) : Type 0 where
  pub pool : Pool
  pub threads : List worker.Phase
  pub cleared : List ℕ
  pub added : List ℕ
  pub taken : List ℕ

-- What `task_add` does under the lock.
unfoldable pub emplace : ℕ → Pool → Pool
emplace task p = record p { tasks = p.tasks ++ task ∷ [] }

-- The destructor.
unfoldable pub halted : Pool → Pool
halted p = record p { is_stopped = true }

module _ {worker : Worker} where
  abbrev pub moved :
      System worker → List worker.Phase → List worker.Phase → Moved worker.Phase → System worker
  moved s before after m = record s {
    pool = m.pool;
    threads = before ++ m.phase ∷ (after ++ m.started);
    taken = s.taken ++ worker.popped m.phase;
  }

  pub data Step (s : System worker) : System worker → Type 0 where
    act :
        (before after : List worker.Phase) (ph : worker.Phase) (m : Moved worker.Phase)
        → s.threads ≡ before ++ ph ∷ after
        → worker.move s.pool ph ≡ some m
        → Step s (moved s before after m)
    clear :
        (task : ℕ) → s.pool.is_stopped ≡ false → Step s (record s { cleared = task ∷ s.cleared })
    add :
        (before after : List ℕ) (task : ℕ)
        → s.pool.m_lock ≡ false
        → s.cleared ≡ before ++ task ∷ after
        → Step s (record s {
          pool = emplace task s.pool;
          cleared = before ++ after;
          added = s.added ++ task ∷ [];
        })
    halt : Step s (record s { pool = halted s.pool })

  pub data Reach (s : System worker) : System worker → Type 0 where
    here : Reach s s
    next : {t u : System worker} → Reach s t → Step t u → Reach s u

  -- The tasks are taken in the order in which they were added, each once, and the rest is queued.
  abbrev pub InOrder : System worker → Type 0
  InOrder s = s.added ≡ s.taken ++ s.pool.tasks

  Step-InOrder : {s t : System worker} → Step s t → InOrder s → InOrder t
  unfolding halted emplace
  Step-InOrder {s} (act before after ph m e h) v =
      v
      ∙ ap (◌++◌ s.taken) (worker.move-tasks s.pool ph m h)
      ∙ sym (append_assoc s.taken (worker.popped m.phase) m.pool.tasks)
  Step-InOrder (clear task e) v = v
  Step-InOrder {s} (add before after task f e) v =
      ap (λ l. l ++ task ∷ []) v ∙ append_assoc s.taken s.pool.tasks (task ∷ [])
  Step-InOrder halt v = v

  pub Reach-InOrder : {s t : System worker} → InOrder s → Reach s t → InOrder t
  Reach-InOrder v here = v
  Reach-InOrder v (next r st) = Step-InOrder st (Reach-InOrder v r)
