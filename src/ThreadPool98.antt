-- ===== src/ThreadPool98.antt =====
-- threadpool/threadpool_98.hpp: the queue of tasks between the HTTP server and its worker threads.
-- A method's body is a function of the state; what is done while `mutex` is held is one step. A
-- task is named by a number, as a pointer names it. `int` and `unsigned` are natural numbers.
pub mod Threads
pub mod Adjust
pub mod Tests
use calcsig.Common.{
  ℕ, zero, suc, ◌+◌, ◌-◌, ◌/◌, ltb, leb, if◌then◌else◌, Bool, true, false, not, ◌&&◌, List, [], ◌∷◌,
  ◌++◌, length, Option, none, some,
}

pub record Pool : Type 0 where
  pub min_thread : ℕ
  pub max_thread : ℕ
  pub cur_thread : ℕ
  pub is_stopped : Bool
  pub max_queue : ℕ
  pub task_queue : List ℕ

-- The constructor; `min > 1 ? min : 1`.
unfoldable pub new_pool : ℕ → ℕ → ℕ → Pool
new_pool min max max_q =
    let at_least_one = λ (n : ℕ). if ltb 1 n then n else 1 in
    record {
      min_thread = at_least_one min;
      max_thread = at_least_one max;
      cur_thread = at_least_one min;
      is_stopped = false;
      max_queue = max_q;
      task_queue = [];
    }

-- What one turn in `get_task` comes to, once the thread has the mutex: it waits, which gives the
-- mutex back; it returns NULL, and does not give the mutex back; or it takes the first task and
-- unlocks.
pub data Turn : Type 0 where
  waits : Turn
  null_locked : Turn
  takes : ℕ → Pool → Turn

unfoldable pub get_task : Pool → Turn
get_task p = if p.is_stopped then null_locked else elim p.task_queue [
  | [] ↦ waits
  | task ∷ rest ↦ takes task (record p { task_queue = rest })
]

unfoldable pub push_task : ℕ → Pool → Pool
push_task task p = record p { task_queue = p.task_queue ++ task ∷ [] }

-- `none` is the exception; otherwise the task is pushed under the mutex.
unfoldable pub add_task : ℕ → Pool → Option Pool
unfolding push_task
add_task task p = if p.is_stopped then none else some (push_task task p)

unfoldable pub stop : Pool → Pool
stop p = record p { is_stopped = true }

unfoldable pub is_full : Pool → Bool
is_full p = leb p.max_queue (length p.task_queue)

pub task_size : Pool → ℕ
task_size p = length p.task_queue

-- What a test of `adjust_thread` reads, which is without the mutex: the other threads may have changed
-- both since the test before.
pub record Seen : Type 0 where
  pub stopped : Bool
  pub queue : List ℕ

unfoldable pub see : Seen → Pool → Pool
see r p = record p { is_stopped = r.stopped; task_queue = r.queue }

-- `creates n` says whether call number `n` of `pthread_create` succeeds, `seen n` is what test number
-- `n` of the first loop reads, and `behind` what the part behind it reads. Of the pool only
-- `cur_thread` changes. `none` says that the fuel ran out.
module _ (creates : ℕ → Bool) (seen : ℕ → Seen) (behind : Seen) where
  pub add_threads : ℕ → ℕ → Pool → Option Pool
  unfolding is_full see
  add_threads zero n p = none
  add_threads (suc fuel) n p =
      let r = see (seen n) p in
      elim (not r.is_stopped && (is_full r && ltb r.cur_thread r.max_thread)) [
        | false ↦ some p
        | true ↦ elim (creates n) [
          | true ↦ add_threads fuel (suc n) (record p { cur_thread = suc p.cur_thread })
          | false ↦ add_threads fuel (suc n) p
        ]
      ]

  -- The part behind the loop.
  drop_thread : Pool → Pool
  unfolding task_size see
  drop_thread p =
      let r = see behind p in
      if not r.is_stopped && (ltb (task_size r) (r.max_queue / 2) && ltb r.min_thread r.cur_thread)
      then record p { cur_thread = p.cur_thread - 1 }
      else p

  pub adjust_thread : ℕ → Pool → Option Pool
  unfolding add_threads drop_thread
  adjust_thread fuel p = elim (add_threads fuel 0 p) [ none ↦ none | some q ↦ some (drop_thread q) ]

module _ (creates : ℕ → Bool) where
  -- The loop of `start`: true, if every thread was created; false, if an exception was thrown.
  start_threads : ℕ → ℕ → Bool
  start_threads zero n = true
  start_threads (suc left) n = elim (creates n) [
    | true ↦ start_threads left (suc n)
    | false ↦ false
  ]

  pub start : Pool → Bool
  unfolding start_threads
  start p = start_threads p.min_thread 0
