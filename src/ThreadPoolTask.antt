-- ===== src/ThreadPoolTask.antt =====
-- threadpool/threadpooltask.hpp: `init` and `thread_loop` of the pool whose tasks are objects.
pub mod Counts
pub mod Progress
pub mod Reached
pub mod Tests
use calcsig.Common.{
  ℕ, ◌+◌, ◌-◌, ltb, leb, if◌then◌else◌, Bool, true, false, not, ◌&&◌, List, [], ◌∷◌, ◌++◌, length,
  replicate, ◌≡◌, refl, arith, Option, none, some,
}
use calcsig.Workers.{Pool, Moved, Worker, System}

-- Where a thread stands; from `grows` to `drops` it has the lock. `ended`
-- has returned as one thread too many, `stopped` because the pool is. The numbers are `task`, where it has one, and `task_nums`.
pub data Phase : Type 0 where
  top : Phase
  waits : Phase
  took : ℕ → ℕ → Phase
  running : ℕ → ℕ → Phase
  ran : ℕ → Phase
  grows : ℕ → Phase
  adds : ℕ → Phase
  counts : ℕ → Phase
  shrinks : ℕ → Phase
  drops : Phase
  ended : Phase
  stopped : Phase

abbrev pub goes : Pool → Phase → Option (Moved Phase)
goes p ph = some (record { pool = p; phase = ph; started = [] })

-- The wait and what follows it under the lock, at the queue. Without a task the thread sleeps, which leaves
-- everything as it is.
unfoldable pub pop_task : Pool → List ℕ → Option (Moved Phase)
pop_task p [] = if p.is_stopped then goes p stopped else none
pop_task p (task ∷ rest) = goes (record p { tasks = rest }) (took task (length rest))

-- `!is_stopped.load() && task_nums >= cur_num - used_num && cur_num < max_num`.
unfoldable pub should_add : ℕ → Pool → Bool
should_add task_nums p =
    not p.is_stopped && (leb p.cur_num (task_nums + p.used_num) && ltb p.cur_num p.max_num)

-- `!is_stopped.load() && task_nums < cur_num - used_num && cur_num > init_num`.
unfoldable pub should_drop : ℕ → Pool → Bool
should_drop task_nums p =
    not p.is_stopped && (ltb (task_nums + p.used_num) p.cur_num && ltb p.init_num p.cur_num)

unfoldable pub move : Pool → Phase → Option (Moved Phase)
unfolding pop_task should_add should_drop
move p top = if p.is_stopped then goes p stopped else goes p waits
move p waits = if p.m_lock then none else pop_task p p.tasks
move p (took task n) = goes (record p { used_num = p.used_num + 1 }) (running task n)
move p (running task n) = goes (record p { used_num = p.used_num - 1 }) (ran n)
move p (ran n) = if p.m_lock then none else goes (record p { m_lock = true }) (grows n)
move p (grows n) = if should_add n p then goes p (adds n) else goes p (shrinks n)
move p (adds n) = some (record { pool = p; phase = counts n; started = top ∷ [] })
move p (counts n) = goes (record p { cur_num = p.cur_num + 1 }) (shrinks n)
move p (shrinks n) =
    if should_drop n p then goes p drops else goes (record p { m_lock = false }) top
move p drops = goes (record p { cur_num = p.cur_num - 1; m_lock = false }) ended
move p ended = none
move p stopped = none

abbrev pub popped : Phase → List ℕ
popped (took task n) = task ∷ []
popped _ = []

pop_task-tasks :
    (p : Pool) (l : List ℕ) (m : Moved Phase)
    → p.tasks ≡ l
    → pop_task p l ≡ some m
    → p.tasks ≡ popped m.phase ++ m.pool.tasks
unfolding pop_task
pop_task-tasks p [] m e h = ground arith
pop_task-tasks p (task ∷ rest) m e h = ground arith

pub move-tasks :
    (p : Pool) (ph : Phase) (m : Moved Phase)
    → move p ph ≡ some m
    → p.tasks ≡ popped m.phase ++ m.pool.tasks
unfolding move
move-tasks p top m h = ground arith
move-tasks p waits m h = ground (arith, pop_task-tasks p p.tasks m refl)
move-tasks p (took task n) m h = ground arith
move-tasks p (running task n) m h = ground arith
move-tasks p (ran n) m h = ground arith
move-tasks p (grows n) m h = ground arith
move-tasks p (adds n) m h = ground arith
move-tasks p (counts n) m h = ground arith
move-tasks p (shrinks n) m h = ground arith
move-tasks p drops m h = ground arith
move-tasks p ended m h = ground arith
move-tasks p stopped m h = ground arith

abbrev pub task_worker : Worker
task_worker = record { Phase = Phase; move = move; popped = popped; move-tasks = move-tasks }

-- `num > 5 ? num : 5`.
unfoldable pub init_threads : ℕ → ℕ
init_threads num = if ltb 5 num then num else 5

-- `init(num, max)`: every thread is at the test of its loop.
unfoldable pub init : ℕ → ℕ → Pool × List Phase
init num max = (
  record {
    tasks = [];
    m_lock = false;
    is_stopped = false;
    init_num = init_threads num;
    cur_num = init_threads num;
    used_num = 0;
    max_num = max;
  },
  replicate (init_threads num) top,
)

-- Behind `init`.
abbrev pub start : ℕ → ℕ → System task_worker
start num max = record {
  pool = (init num max).0;
  threads = (init num max).1;
  cleared = [];
  added = [];
  taken = [];
}
