-- ===== src/Server/Service/Served.antt =====
-- src/server.cpp: a worker in `get_task` of a running pool serves the queue, task after task.
use calcsig.Common.{
  total, ◌⊎◌, ℕ, ◌≤◌, ◌≡◌, refl, sym, ap, subst, arith, Bool, false, List, [], ◌∷◌, ◌++◌,
  append-nil, length, inl, inr,
}
use calcsig.ThreadPool98.{new_pool}
use calcsig.Server.Service.{Phase, asks, Finish, sleeps, Setting, Service, Reach, idle}
use calcsig.Server.Service.Accounts.{Accounted, Reach-Accounted}
use calcsig.Server.Service.Awake.{awake, awake-asks}
use calcsig.Server.Service.Progress.{Reach-awake}
use calcsig.Server.Service.Serving.{Works, rest, run_all, served, Accounted-All, serve_queue}

-- Where a worker is awake.
awake-place :
    (ws : List Phase)
    → 1 ≤ total awake ws
    → (before : List Phase) × (after : List Phase) × (ws ≡ before ++ asks ∷ after)
awake-place [] h = absurd (omega (arith, h))
awake-place (ph ∷ ws) h = elim (awake-asks ph) [
  | inl e ↦ ([], ws, rw e)
  | inr e ↦
      let (before, after, found) = awake-place ws (omega (arith, h, e)) in
      (ph ∷ before, after, ap (λ l. ph ∷ l) found)
]

module _ (c : Setting) where
  open c use {fs}

  -- From a worker that is awake in `get_task`.
  serve_awake :
      (v : Service fs.State) (before after : List Phase)
      → ((n : ℕ) → Accounted c n v)
      → v.workers ≡ before ++ asks ∷ after
      → v.locked ≡ false
      → v.isstop ≡ false
      → v.server.thread_pool.is_stopped ≡ false
      → Works c v (served c v)
  serve_awake v before after accounted place free going running =
      let p = v.server.thread_pool in
      let final : List Phase → Bool → Service fs.State =
        λ l b. record (served c v) { locked = b; workers = l } in
      let run =
        serve_queue c v before after p.task_queue p v.world v.finished going running refl
          (Accounted-All c v accounted) in
      subst (λ b. Works c (record v { locked = b }) (final v.workers b)) (sym free)
        (subst (λ l. Works c (record v { locked = false; workers = l }) (final l false)) (sym place)
          run)

  -- With an empty queue there is nothing to do.
  serve_none :
      (v : Service fs.State) → v.server.thread_pool.task_queue ≡ [] → Works c v (served c v)
  serve_none v empty =
      let at_queue = λ (l : List ℕ) (f : List Finish). record v {
        server = record v.server { thread_pool = record v.server.thread_pool { task_queue = l } };
        finished = f;
      } in
      let r : List ℕ → fs.State × List Finish = λ l. run_all c v.server.tasks l v.world in
      subst
        (λ l.
          Works c (at_queue l v.finished)
            (record (at_queue [] (v.finished ++ (r l).1)) { world = (r l).0 }))
        (sym empty)
        (subst (λ f. Works c (at_queue [] v.finished) (at_queue [] f)) (sym (append-nil v.finished))
          rest)

  -- In every state that is reached, with the mutex free, the pool running and `isstop` false: if a
  -- worker is in `get_task`, awake or asleep, then the workers that are awake can go on until the
  -- queue is empty, with no other signal. Its tasks have then been carried out one after another, in
  -- their order and each as `run_task` does, and the workers stand where they stood.
  pub Reach-served :
      (min max max_q : ℕ) (isstop : Bool) (world : fs.State) (v : Service fs.State)
      (before after : List Phase) (ph : Phase)
      → Reach c (idle c (new_pool min max max_q) isstop world) v
      → v.workers ≡ before ++ ph ∷ after
      → ((ph ≡ asks) ⊎ (ph ≡ sleeps))
      → v.locked ≡ false
      → v.isstop ≡ false
      → v.server.thread_pool.is_stopped ≡ false
      → Works c v (served c v)
  Reach-served min max max_q isstop world v before after ph r place (inl entering) free going
        running =
      serve_awake v before after (λ n. Reach-Accounted c n min max max_q isstop world v r)
        (rw entering at place) free going running
  Reach-served min max max_q isstop world v before after ph r place (inr sleeping) free going
        running =
      elim (Reach-awake c min max max_q isstop world v before after ph r place sleeping) [
        | inl stopped ↦ cc (stopped, running)
        | inr enough ↦ by_queue v.server.thread_pool.task_queue refl enough
      ]
    where
      by_queue :
          (q : List ℕ)
          → v.server.thread_pool.task_queue ≡ q
          → length v.server.thread_pool.task_queue ≤ total awake v.workers
          → Works c v (served c v)
      by_queue [] queue enough = serve_none v queue
      by_queue (i ∷ q) queue enough =
          let (b, a, found) = awake-place v.workers (omega (arith, ap length queue, enough)) in
          serve_awake v b a (λ n. Reach-Accounted c n min max max_q isstop world v r) found free
            going running
