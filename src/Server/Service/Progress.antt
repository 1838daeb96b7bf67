-- ===== src/Server/Service/Progress.antt =====
-- src/server.cpp: which worker cannot go on.
use calcsig.Common.{
  ℕ, zero, suc, ◌<◌, ◌≤◌, total, total-append, ◌≡◌, ◌≢◌, refl, subst, ap, arith, if◌then◌else◌,
  Bool, true, false, List, [], ◌∷◌, ◌++◌, All, All-parts, length, get_elem?, Option, none,
  Option-cases, Bool-cases, inl, inr, ◌⊎◌, count,
}
use calcsig.ThreadPool98.{get_task, new_pool}
use calcsig.Server.Request.{HttpTask}
use calcsig.Server.Service.{
  Phase, top, asks, sleeps, ended, has, named, ready, opened, writing, signing, moving, reporting,
  Shared, Setting, Service, Reach, idle, shared_of, after_get_task, move,
}
use calcsig.Server.Service.Accounts.{Accounted, Reach-Accounted}
use calcsig.Server.Service.Awake.{awake, asleep}
use calcsig.Server.Service.Alert.{Reach-Alert}
use calcsig.Server.Service.Stopping.{Reach-Unstopped}

pub get_elem?-lt : (tasks : List HttpTask) (i : ℕ) → i < length tasks → get_elem? tasks i ≢ none
get_elem?-lt [] i h e = omega (arith, h)
get_elem?-lt (t ∷ ts) zero h e = cc e
get_elem?-lt (t ∷ ts) (suc i) h e = get_elem?-lt ts i (omega (arith, h)) e

otherwise :
    {A : Type 0} {o : Option A} (u : Option A) (b : Bool)
    → b ≡ false
    → (if b then u else o) ≡ none
    → o ≡ none
otherwise u false e h = h
otherwise u true e h = cc e

module _ (c : Setting) (tasks : List HttpTask) (s : Shared c.fs.State) where
  -- The pointers in the queue are those of tasks.
  abbrev Known : Type 0
  Known = (i : ℕ) (rest : List ℕ) → s.pool.task_queue ≡ i ∷ rest → i < length tasks

  turn-goes :
      (l : List ℕ)
      → s.pool.task_queue ≡ l
      → Known
      → after_get_task c tasks s (get_task s.pool) ≢ none
  unfolding after_get_task get_task
  turn-goes l queue known e = elim (Bool-cases s.pool.is_stopped) [
    | inl stopped ↦ cc (rw (stopped, get_task, after_get_task) at e)
    | inr running ↦ goes_on l queue running
  ]
    where
      goes_on : (l : List ℕ) → s.pool.task_queue ≡ l → s.pool.is_stopped ≡ false → ⊥
      goes_on [] queue running = cc (rw (running, queue, get_task, after_get_task) at e)
      goes_on (i ∷ l) queue running = elim (Option-cases (get_elem? tasks i)) [
        | inl lost ↦ absurd (get_elem?-lt tasks i (known i l queue) lost)
        | inr (t, found) ↦ cc (rw (running, queue, found, get_task, after_get_task) at e)
      ]

  abbrev Waits : Phase → Type 0
  Waits ph = (ph ≡ ended) ⊎ (((ph ≡ asks) × (s.locked ≡ true)) ⊎ (ph ≡ sleeps))

  move-none : (isstop : Bool) (ph : Phase) → Known → move c isstop tasks s ph ≡ none → Waits ph
  unfolding move
  move-none isstop top known e = cc e
  move-none isstop asks known e = elim (Bool-cases s.locked) [
    | inl l ↦ inr (inl (refl, l))
    | inr l ↦ absurd (turn-goes s.pool.task_queue refl known (otherwise none s.locked l e))
  ]
  move-none isstop ended known e = inl refl
  move-none isstop sleeps known e = inr (inr refl)
  move-none isstop (has i t) known e = cc e
  move-none isstop (named i t path) known e = cc e
  move-none isstop (ready i t path) known e = cc e
  move-none isstop (opened i t path) known e = cc e
  move-none isstop (writing i t path r (b ∷ bs)) known e = cc e
  move-none isstop (writing i t path r []) known e = cc e
  move-none isstop (signing i t path size) known e = cc e
  move-none isstop (moving i t path sigs size) known e = cc e
  move-none isstop (reporting i t item) known e = cc e

-- A worker that sleeps is counted.
asleep-place :
    (workers before after : List Phase) (ph : Phase)
    → workers ≡ before ++ ph ∷ after
    → ph ≡ sleeps
    → 1 ≤ total asleep workers
asleep-place workers before after ph place sleeping =
    omega
      (arith, ap (total asleep) place, total-append asleep before (ph ∷ after), ap asleep sleeping)

module _ (c : Setting) where
  Accounted-Known :
      (v : Service c.fs.State) → ((n : ℕ) → Accounted c n v) → Known c v.server.tasks (shared_of v)
  Accounted-Known v a i rest queue = ground (arith, (a i).0, (a i).1, ap (count i) queue)

  -- If a worker sleeps in a running pool, as many are awake in `get_task` as there are tasks.
  pub Reach-awake :
      (min max max_q : ℕ) (isstop : Bool) (world : c.fs.State) (v : Service c.fs.State)
      (before after : List Phase) (ph : Phase)
      → Reach c (idle c (new_pool min max max_q) isstop world) v
      → v.workers ≡ before ++ ph ∷ after
      → ph ≡ sleeps
      → (v.server.thread_pool.is_stopped ≡ true)
        ⊎ (length v.server.thread_pool.task_queue ≤ total awake v.workers)
  Reach-awake min max max_q isstop world v before after ph r place sleeping =
      let alert = Reach-Alert c min max max_q isstop world v r in
      elim (Bool-cases v.server.thread_pool.is_stopped) [
        | inl stopped ↦ inl stopped
        | inr running ↦ elim (alert.1 running) [
          | inl nobody_sleeps ↦
              absurd (
                omega (arith, nobody_sleeps, asleep-place v.workers before after ph place sleeping))
          | inr enough ↦ inr enough
        ]
      ]

  -- In every state that is reached, a worker that cannot go on has returned, and then `isstop` was
  -- true before anything called `stop`; or it waits for the mutex, which was kept by a worker that
  -- found the pool stopped; or it sleeps in `get_task`, and then the pool is stopped or at least as
  -- many workers are awake in `get_task` as there are tasks in the queue: no wake-up is lost.
  pub Reach-moves :
      (min max max_q : ℕ) (isstop : Bool) (world : c.fs.State) (v : Service c.fs.State)
      (before after : List Phase) (ph : Phase)
      → Reach c (idle c (new_pool min max max_q) isstop world) v
      → v.workers ≡ before ++ ph ∷ after
      → move c v.isstop v.server.tasks (shared_of v) ph ≡ none
      → ((ph ≡ ended) × (isstop ≡ true))
        ⊎ (((ph ≡ asks) × (v.locked ≡ true) × (v.server.thread_pool.is_stopped ≡ true))
            ⊎ ((ph ≡ sleeps)
                × ((v.server.thread_pool.is_stopped ≡ true)
                    ⊎ (length v.server.thread_pool.task_queue ≤ total awake v.workers))))
  Reach-moves min max max_q isstop world v before after ph r place e =
      elim (move-none c v.server.tasks (shared_of v) v.isstop ph
        (Accounted-Known v (λ n. Reach-Accounted c n min max max_q isstop world v r)) e) [
          | inl over ↦
              let stay = (Reach-Unstopped c isstop (new_pool min max max_q) world v r).1 in
              let parts =
                All-parts (λ ph. ph ≡ ended → isstop ≡ true) before (ph ∷ after)
                  (subst (All (λ ph. ph ≡ ended → isstop ≡ true)) place stay) in
              inl (over, parts.1.0 over)
          | inr (inl (entering, held)) ↦
              let alert = Reach-Alert c min max max_q isstop world v r in
              inr (inl (entering, held, alert.0 held))
          | inr (inr sleeping) ↦ inr (
              inr (
                sleeping,
                Reach-awake min max max_q isstop world v before after ph r place sleeping,
              ))
        ]
