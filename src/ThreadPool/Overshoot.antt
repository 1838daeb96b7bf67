-- ===== src/ThreadPool/Overshoot.antt =====
-- Two threads of threadpool/threadpool.hpp that both read the same number of threads before either of
-- them has counted the one that it starts.
use calcsig.Common.{
  ℕ, zero, suc, ◌+◌, ◌-◌, ◌≤◌, ◌<◌, ◌≡◌, refl, sym, subst, arith, false, List, [], ◌∷◌, ◌++◌,
  length, length-append, replicate, some,
}
use calcsig.Workers.{Pool, Moved, System, act, clear, add, emplace, Reach, here, next}
use calcsig.ThreadPool.{
  Phase, top, ran, adds, move, pop_task, should_add, function_worker, init_threads, init, start,
}

-- The pool as it runs with nobody at work.
abbrev idle : ℕ → ℕ → ℕ → List ℕ → Pool
idle n max cur ts = record {
  tasks = ts;
  m_lock = false;
  is_stopped = false;
  init_num = n;
  cur_num = cur;
  used_num = 0;
  max_num = max;
}

module _ (x : System function_worker) where
  -- A system with this pool, whose first two threads stand here, is reached from `x`.
  Stands : Pool → Phase → Phase → Type 0
  Stands p a b =
      (rest : List Phase) × (added : List ℕ) × (taken : List ℕ) × Reach x
        (record { pool = p; threads = a ∷ b ∷ rest; cleared = []; added = added; taken = taken })

  first :
      (p : Pool) (a b : Phase) (m : Moved Phase)
      → move p a ≡ some m
      → Stands p a b
      → Stands m.pool m.phase b
  unfolding Stands
  first p a b m e (rest, ad, tk, r) = (_, _, _, next r (act [] (b ∷ rest) a m refl e))

  second :
      (p : Pool) (a b : Phase) (m : Moved Phase)
      → move p b ≡ some m
      → Stands p a b
      → Stands m.pool a m.phase
  unfolding Stands
  second p a b m e (rest, ad, tk, r) = (_, _, _, next r (act (a ∷ []) rest b m refl e))

  queued :
      (n max cur : ℕ) (ts : List ℕ) (a b : Phase)
      → Stands (idle n max cur ts) a b
      → Stands (idle n max cur (ts ++ 0 ∷ [])) a b
  unfolding Stands emplace
  queued n max cur ts a b (rest, ad, tk, r) =
      (_, _, _, next (next r (clear 0 refl)) (add [] [] 0 refl refl))

  queued_many :
      (k n max cur : ℕ) (a b : Phase)
      → Stands (idle n max cur []) a b
      → (ts : List ℕ) × (length ts ≡ k) × Stands (idle n max cur ts) a b
  queued_many zero n max cur a b s = ([], refl, s)
  queued_many (suc k) n max cur a b s =
      let (ts, e, t) = queued_many k n max cur a b s in
      (ts ++ 0 ∷ [], omega (arith, length-append ts (0 ∷ [])), queued n max cur ts a b t)

  first_ran :
      (n max cur task : ℕ) (ts : List ℕ) (b : Phase)
      → Stands (idle n max cur (task ∷ ts)) top b
      → Stands (idle n max cur ts) (ran (length ts)) b
  unfolding move pop_task
  first_ran n max cur task ts b s =
      first _ _ b _ refl (first _ _ b _ refl (first _ _ b _ refl (first _ _ b _ refl s)))

  second_ran :
      (n max cur task : ℕ) (ts : List ℕ) (a : Phase)
      → Stands (idle n max cur (task ∷ ts)) a top
      → Stands (idle n max cur ts) a (ran (length ts))
  unfolding move pop_task
  second_ran n max cur task ts a s =
      second _ a _ _ refl (second _ a _ _ refl (second _ a _ _ refl (second _ a _ _ refl s)))

  -- The condition holds where there is room and work.
  room :
      (n max cur k : ℕ) (ts : List ℕ)
      → cur < max
      → cur < k
      → move (idle n max cur ts) (ran k)
        ≡ some (record { pool = idle n max cur ts; phase = adds k; started = [] })
  unfolding move should_add
  room n max cur k ts h g = ground arith

  grow_one :
      (n max cur k : ℕ) (ts : List ℕ) (b : Phase)
      → Stands (idle n max cur ts) (adds k) b
      → Stands (idle n max (cur + 1) ts) (ran k) b
  unfolding move
  grow_one n max cur k ts b s = first _ _ b _ refl (first _ _ b _ refl s)

  grow_to :
      (d n max cur k : ℕ) (ts : List ℕ) (b : Phase)
      → cur + d ≤ max
      → cur + d ≤ k
      → Stands (idle n max cur ts) (ran k) b
      → Stands (idle n max (cur + d) ts) (ran k) b
  grow_to zero n max cur k ts b h g s =
      subst (λ c. Stands (idle n max c ts) (ran k) b) (omega arith) s
  grow_to (suc d) n max cur k ts b h g s =
      subst (λ c. Stands (idle n max c ts) (ran k) b) (omega arith)
        (grow_to d n max (cur + 1) k ts b (omega arith) (omega arith) (
          grow_one n max cur k ts b
            (first _ _ b _ (room n max cur k ts (omega arith) (omega arith)) s)))

  -- With one thread to go, both threads pass the condition and both start a thread.
  both :
      (n cur t1 : ℕ) (ts : List ℕ)
      → cur + 2 ≤ length (t1 ∷ ts)
      → Stands (idle n (cur + 1) cur (t1 ∷ ts)) (ran (suc (length ts))) top
      → Stands (idle n (cur + 1) (cur + 2) ts) (ran (suc (length ts))) (ran (length ts))
  unfolding move
  both n cur t1 ts h s =
      subst (λ c. Stands (idle n (cur + 1) c ts) (ran (suc (length ts))) (ran (length ts)))
        (omega arith)
        (second _ _ _ _ refl (
          second _ _ _ _ refl (
            grow_one n (cur + 1) cur (suc (length ts)) ts (adds (length ts)) (
              second _ _ _ _ (room n (cur + 1) cur (length ts) ts (omega arith) (omega arith)) (
                second_ran n (cur + 1) cur t1 ts (adds (suc (length ts))) (
                  first _ _ _ _
                    (room n (cur + 1) cur (suc (length ts)) (t1 ∷ ts) (omega arith) (omega arith))
                    s))))))

  finish :
      (n c : ℕ) (ts : List ℕ)
      → n ≤ c
      → length ts ≡ c + 3
      → Stands (idle n (c + 1) n ts) top top
      → (ts' : List ℕ) × (a : Phase) × (b : Phase) × Stands (idle n (c + 1) (c + 2) ts') a b
  finish n c [] h e s = absurd (omega arith)
  finish n c (t ∷ []) h e s = absurd (omega arith)
  finish n c (t ∷ t1 ∷ ts) h e s = (
    ts,
    _,
    _,
    both n c t1 ts (omega arith) (
        subst (λ k. Stands (idle n (c + 1) k (t1 ∷ ts)) (ran (suc (length ts))) top) (omega arith)
          (grow_to (c - n) n (c + 1) n (suc (length ts)) (t1 ∷ ts) top (omega arith) (omega arith)
            (first_ran n (c + 1) n t (t1 ∷ ts) top s))),
  )

abbrev idle_system : ℕ → ℕ → System function_worker
idle_system n max = record {
  pool = idle n max n [];
  threads = replicate n top;
  cleared = [];
  added = [];
  taken = [];
}

idle_system-Stands :
    (n j max : ℕ) → n ≡ suc (suc j) → Stands (idle_system n max) (idle n max n []) top top
unfolding Stands
idle_system-Stands n j max e =
    subst (λ k. Stands (idle_system k max) (idle k max k []) top top) (sym e)
      (replicate j top, [], [], here)

abbrev Exceeds : ℕ → ℕ → Type 0
Exceeds n max =
    (s : System function_worker) × Reach (idle_system n max) s
    × (s.pool.cur_num ≡ max + 1)
    × (s.pool.max_num ≡ max)
    × (s.pool.is_stopped ≡ false)
    × (s.pool.m_lock ≡ false)

idle_system-Exceeds : (n c : ℕ) → 2 ≤ n → n ≤ c → Exceeds n (c + 1)
unfolding Stands
idle_system-Exceeds n c two h =
    let start_here = idle_system-Stands n (n - 2) (c + 1) (omega arith) in
    let (ts, len, s) = queued_many (idle_system n (c + 1)) (c + 3) n (c + 1) n top top start_here in
    let (ts', a, b, (rest, ad, tk, r)) = finish (idle_system n (c + 1)) n c ts h len s in
    (_, r, omega arith, refl, refl, refl)

init_threads-two : (num : ℕ) → 2 ≤ init_threads num
unfolding init_threads
init_threads-two num = ground arith

-- For any number of threads that `init` is asked for and any limit above the number that it starts, the
-- threads can come to number one more than the limit while the pool runs and no thread has the lock.
pub start-overshoots :
    (num max : ℕ)
    → init_threads num < max
    → (s : System function_worker) × Reach (start num max) s
      × (s.pool.cur_num ≡ max + 1)
      × (s.pool.max_num ≡ max)
      × (s.pool.is_stopped ≡ false)
      × (s.pool.m_lock ≡ false)
unfolding init
start-overshoots num max h =
    subst (Exceeds (init_threads num)) (omega arith)
      (idle_system-Exceeds (init_threads num) (max - 1) (init_threads-two num) (omega arith))
