-- ===== src/ThreadPool98/Threads.antt =====
-- Any number of threads over one pool: the mutex, and every interleaving of their calls. A thread
-- that waits on the condition variable may go on at any time, as it may by a spurious wake-up.
use calcsig.Common.{
  ℕ, ◌≡◌, refl, ap, sym, ◌∙◌, arith, true, false, List, [], ◌∷◌, ◌++◌, append_assoc, Option, none,
  some,
}
use calcsig.ThreadPool98.{Pool, waits, null_locked, takes, get_task, push_task, stop, new_pool}

-- `holder` is the thread that has `mutex`; `cleared` holds the tasks whose `add_task` has read
-- `is_stopped` as false and waits for the mutex; `added` and `taken` record the tasks pushed and the
-- tasks that `get_task` returned, the first first.
pub record System : Type 0 where
  pub pool : Pool
  pub holder : Option ℕ
  pub cleared : List ℕ
  pub added : List ℕ
  pub taken : List ℕ

pub data Step (s : System) : System → Type 0 where
  wait : (t : ℕ) → s.holder ≡ none → get_task s.pool ≡ waits → Step s s
  give_up :
      (t : ℕ)
      → s.holder ≡ none
      → get_task s.pool ≡ null_locked
      → Step s (record s { holder = some t })
  take :
      (t task : ℕ) (q : Pool)
      → s.holder ≡ none
      → get_task s.pool ≡ takes task q
      → Step s (record s { pool = q; taken = s.taken ++ task ∷ [] })
  clear : (task : ℕ) → s.pool.is_stopped ≡ false → Step s (record s { cleared = task ∷ s.cleared })
  add :
      (before after : List ℕ) (task : ℕ)
      → s.holder ≡ none
      → s.cleared ≡ before ++ task ∷ after
      → Step s (record s {
        pool = push_task task s.pool;
        cleared = before ++ after;
        added = s.added ++ task ∷ [];
      })
  halt : Step s (record s { pool = stop s.pool })

pub data Reach (s : System) : System → Type 0 where
  here : Reach s s
  next : {t u : System} → Reach s t → Step t u → Reach s u

-- Nothing is added or taken yet, and nobody has the mutex.
abbrev pub start_system : ℕ → ℕ → ℕ → System
start_system min max max_q = record {
  pool = new_pool min max max_q;
  holder = none;
  cleared = [];
  added = [];
  taken = [];
}

abbrev InOrder : System → Type 0
InOrder s = s.added ≡ s.taken ++ s.pool.task_queue

get_task-takes :
    (p : Pool) (l : List ℕ) (task : ℕ) (q : Pool)
    → p.task_queue ≡ l
    → get_task p ≡ takes task q
    → (p.task_queue ≡ task ∷ q.task_queue) × (p.is_stopped ≡ false)
unfolding get_task
get_task-takes p [] task q e h = absurd (ground arith)
get_task-takes p (x ∷ l) task q e h = ground arith

Step-InOrder : {s t : System} → Step s t → InOrder s → InOrder t
unfolding stop push_task
Step-InOrder (wait t f e) v = v
Step-InOrder (give_up t f e) v = v
Step-InOrder {s} (take t task q f e) v =
    v
    ∙ ap (◌++◌ s.taken) (get_task-takes s.pool _ task q refl e).0
    ∙ sym (append_assoc s.taken (task ∷ []) q.task_queue)
Step-InOrder (clear task e) v = v
Step-InOrder {s} (add before after task f e) v =
    ap (λ l. l ++ task ∷ []) v ∙ append_assoc s.taken s.pool.task_queue (task ∷ [])
Step-InOrder halt v = v

Reach-InOrder : {s t : System} → InOrder s → Reach s t → InOrder t
Reach-InOrder v here = v
Reach-InOrder v (next r st) = Step-InOrder st (Reach-InOrder v r)

-- However many threads call `get_task` and `add_task` in whatever order, the tasks are taken in the
-- order in which they were added, each once, and those not taken are in the queue.
pub Reach-fifo :
    (min max max_q : ℕ) (s : System)
    → Reach (start_system min max max_q) s
    → s.added ≡ s.taken ++ s.pool.task_queue
unfolding new_pool
Reach-fifo min max max_q s r = Reach-InOrder refl r

-- Some thread has the mutex, and the tasks are as they were.
abbrev Frozen : ℕ → System → System → Type 0
Frozen t s u =
    (u.holder ≡ some t)
    × (u.taken ≡ s.taken)
    × (u.added ≡ s.added)
    × (u.pool.task_queue ≡ s.pool.task_queue)

Step-Frozen : {s u : System} (t : ℕ) → s.holder ≡ some t → Step s u → Frozen t s u
unfolding stop
Step-Frozen t h (wait _ f e) = cc
Step-Frozen t h (give_up _ f e) = cc
Step-Frozen t h (take _ task q f e) = absurd (cc (f, h))
Step-Frozen t h (clear task e) = (h, refl, refl, refl)
Step-Frozen t h (add before after task f e) = absurd (cc (f, h))
Step-Frozen t h halt = (h, refl, refl, refl)

Reach-Frozen : {s u : System} (t : ℕ) → s.holder ≡ some t → Reach s u → Frozen t s u
Reach-Frozen t h here = (h, refl, refl, refl)
Reach-Frozen {s} t h (next {u} r st) =
    let before = Reach-Frozen t h r in
    let after = Step-Frozen t before.0 st in
    (after.0, after.1 ∙ before.1, after.2 ∙ before.2, after.3 ∙ before.3)

-- In a stopped pool whose mutex is free, a thread that calls `get_task` can take the mutex and leave
-- with NULL; from then on it has the mutex for good, and whatever the threads do, no task is taken or
-- added any more.
pub Reach-frozen :
    (s u : System) (t : ℕ)
    → s.holder ≡ none
    → s.pool.is_stopped ≡ true
    → Reach (record s { holder = some t }) u
    → Step s (record s { holder = some t })
      × (u.holder ≡ some t)
      × (u.taken ≡ s.taken)
      × (u.added ≡ s.added)
      × (u.pool.task_queue ≡ s.pool.task_queue)
unfolding get_task
Reach-frozen s u t free stopped r =
    let f = Reach-Frozen t refl r in (give_up t free (ground arith), f.0, f.1, f.2, f.3)
