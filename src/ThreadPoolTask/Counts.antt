-- ===== src/ThreadPoolTask/Counts.antt =====
-- The counters of threadpool/threadpooltask.hpp, at one step of one thread.
use calcsig.Common.{
  ◌⊎◌, true, ℕ, ◌+◌, ◌≤◌, ◌≡◌, arith, if◌then◌else◌, List, [], ◌∷◌, total, total_mono,
}
use calcsig.Workers.Totals.{sum_of, After, if-After}
use calcsig.Workers.{Pool}
use calcsig.ThreadPoolTask.{
  Phase, top, waits, took, running, ran, grows, adds, counts, shrinks, drops, ended, stopped, move,
  pop_task, should_add, should_drop,
}

-- Running a task.
abbrev pub using : Phase → ℕ
using (running task n) = 1
using _ = 0

-- Not returned as one thread too many.
abbrev pub live : Phase → ℕ
live ended = 0
live _ = 1

-- Holding the lock.
abbrev pub holds : Phase → ℕ
holds (grows n) = 1
holds (adds n) = 1
holds (counts n) = 1
holds (shrinks n) = 1
holds drops = 1
holds _ = 0

-- Between starting a thread and counting it.
abbrev pub late : Phase → ℕ
late (counts n) = 1
late _ = 0

abbrev pub counted : Phase → ℕ
counted ended = 0
counted (counts n) = 0
counted _ = 1

abbrev pub adding : Phase → ℕ
adding (adds n) = 1
adding (counts n) = 1
adding _ = 0

-- Returned because the pool is stopped.
abbrev pub gone : Phase → ℕ
gone stopped = 1
gone _ = 0

abbrev pub dropping : Phase → ℕ
dropping drops = 1
dropping _ = 0

pub late-holds : (ph : Phase) → late ph ≤ holds ph
late-holds (counts n) = omega arith
late-holds _ = omega arith

pub adding-holds : (ph : Phase) → adding ph ≤ holds ph
adding-holds (adds n) = omega arith
adding-holds (counts n) = omega arith
adding-holds _ = omega arith

pub dropping-holds : (ph : Phase) → dropping ph ≤ holds ph
dropping-holds drops = omega arith
dropping-holds _ = omega arith

pub live-counted : (ths : List Phase) → total live ths ≡ total counted ths + total late ths
live-counted [] = omega arith
live-counted (ended ∷ ths) = omega (arith, live-counted ths)
live-counted (counts n ∷ ths) = omega (arith, live-counted ths)
live-counted (_ ∷ ths) = omega (arith, live-counted ths)

-- The pool against the sums over its threads. `top_num` is the most threads that there may be.
pub record Sums (n max top_num : ℕ) (p : Pool) (v : (Phase → ℕ) → ℕ) : Type 0 where
  pub sum_init : p.init_num ≡ n
  pub sum_max : p.max_num ≡ max
  pub sum_cur : p.cur_num ≡ v counted
  pub sum_used : p.used_num ≡ v using
  pub sum_lock : v holds ≡ (if p.m_lock then 1 else 0)
  pub sum_above : p.cur_num + v adding ≤ top_num
  pub sum_below : n + v dropping ≤ p.cur_num
  pub sum_gone : (p.is_stopped ≡ true) ⊎ (v gone ≡ 0)

module _ (n max top_num : ℕ) (most : max ≤ top_num) where
  abbrev pub Good : Pool → ((Phase → ℕ) → ℕ) → Type 0
  Good = Sums n max top_num

  pop_task-Good :
      (p : Pool) (l : List ℕ) (rest : List Phase)
      → Good p (sum_of waits rest [])
      → After Good rest (pop_task p l)
  unfolding pop_task
  pop_task-Good p [] rest s = if-After Good rest p.is_stopped _ _ (λ e. ground arith) (λ e. tt)
  pop_task-Good p (task ∷ more) rest s = ground arith

  pub move-Good :
      (p : Pool) (ph : Phase) (rest : List Phase)
      → Good p (sum_of ph rest [])
      → After Good rest (move p ph)
  unfolding move should_add should_drop
  move-Good p top rest s =
      if-After Good rest p.is_stopped _ _ (λ e. ground arith) (λ e. ground arith)
  move-Good p waits rest s =
      if-After Good rest p.m_lock _ _ (λ e. tt) (λ e. pop_task-Good p p.tasks rest s)
  move-Good p (took task k) rest s = ground arith
  move-Good p (running task k) rest s = ground arith
  move-Good p (ran k) rest s = if-After Good rest p.m_lock _ _ (λ e. tt) (λ e. ground arith)
  move-Good p (grows k) rest s =
      let alone = total_mono adding holds rest adding-holds in
      if-After Good rest (should_add k p) _ _ (λ e. ground arith) (λ e. ground arith)
  move-Good p (adds k) rest s = ground arith
  move-Good p (counts k) rest s = ground arith
  move-Good p (shrinks k) rest s =
      let alone = total_mono dropping holds rest dropping-holds in
      if-After Good rest (should_drop k p) _ _ (λ e. ground arith) (λ e. ground arith)
  move-Good p drops rest s = ground arith
  move-Good p ended rest s = tt
  move-Good p stopped rest s = tt
