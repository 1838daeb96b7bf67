-- ===== src/Server/Service/Accounts.antt =====
-- src/server.cpp: where the accepted tasks are, in every state that the server and its workers reach.
use calcsig.Common.{
  ℕ, ◌+◌, ◌≤◌, ◌≡◌, refl, sym, ap, ◌∙◌, arith, ltb, ◌==◌, if◌then◌else◌, Bool, List, [], ◌∷◌, ◌++◌,
  length, length-append, drop, drop-append, append-nil, total, total-append, count, count-append,
  inl, inr, ◌⊎◌,
}
use calcsig.ThreadPool98.{Pool, takes, get_task, stop, new_pool}
use calcsig.Server.Request.{HttpTask, Server}
use calcsig.Server.Request.Accepted.{calcsig_process-Queued, calcsig_process-tasks}
use calcsig.Server.Service.{
  Phase, top, asks, sleeps, ended, has, named, ready, opened, writing, signing, moving, reporting,
  Finish, Shared, Moved, Setting, Service, moved, pushed, answered, Step, work, request, wake, join,
  halt, stop_server, Reach, here, next, idle, shared_of, move,
}
use calcsig.Server.Service.Woken.{woken-total, Signals-total}
use calcsig.Server.Service.Cases.{
  Always, Always-some, top-Always, asks-Always, named-Always, ready-Always, writing-Always,
  signing-Always, moving-Always, reporting-Always,
}

-- Whether a worker has the task `n`.
abbrev pub holds : ℕ → Phase → ℕ
holds n top = 0
holds n asks = 0
holds n sleeps = 0
holds n ended = 0
holds n (has i t) = if i == n then 1 else 0
holds n (named i t path) = if i == n then 1 else 0
holds n (ready i t path) = if i == n then 1 else 0
holds n (opened i t path) = if i == n then 1 else 0
holds n (writing i t path r left) = if i == n then 1 else 0
holds n (signing i t path size) = if i == n then 1 else 0
holds n (moving i t path sigs size) = if i == n then 1 else 0
holds n (reporting i t item) = if i == n then 1 else 0

-- How many of the rounds that are over were rounds of `n`.
abbrev pub rounds_of : ℕ → List Finish → ℕ
rounds_of n fs = total (λ f. if f.pointer == n then 1 else 0) fs

module _ (c : Setting) (n : ℕ) where
  abbrev weight : Moved c.fs.State → ℕ
  weight m = count n m.shared.pool.task_queue + (holds n m.phase + rounds_of n m.finished)

  get_task-weight :
      (p : Pool) (l : List ℕ) (i : ℕ) (q : Pool)
      → p.task_queue ≡ l
      → get_task p ≡ takes i q
      → count n p.task_queue ≡ count n q.task_queue + (if i == n then 1 else 0)
  unfolding get_task
  get_task-weight p [] i q e h = absurd (ground arith)
  get_task-weight p (x ∷ l) i q e h = ground arith

  abbrev Weighs : ℕ → Moved c.fs.State → Type 0
  Weighs k m = weight m ≡ k

  move-Weighs :
      (isstop : Bool) (tasks : List HttpTask) (s : Shared c.fs.State) (ph : Phase)
      → Always c (Weighs (count n s.pool.task_queue + holds n ph)) (move c isstop tasks s ph)
  unfolding move
  move-Weighs isstop tasks s top =
      top-Always c (Weighs (count n s.pool.task_queue + holds n top)) isstop tasks s
        (λ e. omega arith) (omega arith)
  move-Weighs isstop tasks s asks =
      asks-Always c (Weighs (count n s.pool.task_queue + holds n asks)) isstop tasks s
        (λ free e. omega arith) (λ free e. omega arith)
        (λ i q t e found. omega (arith, get_task-weight s.pool _ i q refl e))
  move-Weighs isstop tasks s ended = tt
  move-Weighs isstop tasks s sleeps = tt
  move-Weighs isstop tasks s (has i t) = omega arith
  move-Weighs isstop tasks s (named i t path) =
      named-Always c (Weighs (count n s.pool.task_queue + holds n (named i t path))) isstop tasks s
        i t path (omega arith, omega arith)
  move-Weighs isstop tasks s (ready i t path) =
      ready-Always c (Weighs (count n s.pool.task_queue + holds n (ready i t path))) isstop tasks s
        i t path (omega arith) (omega arith)
  move-Weighs isstop tasks s (opened i t path) = omega arith
  move-Weighs isstop tasks s (writing i t path r (b ∷ bs)) = omega arith
  move-Weighs isstop tasks s (writing i t path r []) =
      writing-Always c (Weighs (count n s.pool.task_queue + holds n (writing i t path r []))) isstop
        tasks s i t path r (λ e. omega arith) (omega arith)
  move-Weighs isstop tasks s (signing i t path size) =
      signing-Always c (Weighs (count n s.pool.task_queue + holds n (signing i t path size))) isstop
        tasks s i t path size (λ sigs e. omega arith) (omega arith)
  move-Weighs isstop tasks s (moving i t path sigs size) =
      moving-Always c (Weighs (count n s.pool.task_queue + holds n (moving i t path sigs size)))
        isstop tasks s i t path sigs size (omega arith, omega arith)
  move-Weighs isstop tasks s (reporting i t item) =
      reporting-Always c (Weighs (count n s.pool.task_queue + holds n (reporting i t item))) isstop
        tasks s i t item (omega arith) (omega arith)

module _ (c : Setting) (n : ℕ) where
  -- The task `n` is as often in the queue, with a worker or done with as it was accepted; and it was
  -- accepted once at most, after it was made.
  abbrev pub Accounted : Service c.fs.State → Type 0
  Accounted v =
      (count n v.added
        ≡ count n v.server.thread_pool.task_queue
          + (total (holds n) v.workers + rounds_of n v.finished))
      × (count n v.added ≤ (if ltb n (length v.server.tasks) then 1 else 0))

  work-Accounted :
      (v : Service c.fs.State) (before after : List Phase) (ph : Phase) (m : Moved c.fs.State)
      → v.workers ≡ before ++ ph ∷ after
      → Weighs c n (count n v.server.thread_pool.task_queue + holds n ph) m
      → Accounted v
      → Accounted (moved v before after m)
  work-Accounted v before after ph m place w a =
      let split = ap (total (holds n)) place in
      (
        omega (
          arith,
          a.0,
          w,
          split,
          total-append (holds n) before (ph ∷ after),
          total-append (holds n) before (m.phase ∷ after),
          total-append (λ (f : Finish). if f.pointer == n then 1 else 0) v.finished m.finished,
        ),
        a.1,
      )

  request-Accounted :
      (v : Service c.fs.State) (server : Server) (workers : List Phase) (q : List ℕ)
      (more : List HttpTask)
      → total (holds n) workers ≡ total (holds n) v.workers
      → server.thread_pool.task_queue ≡ v.server.thread_pool.task_queue ++ q
      → ((q ≡ []) ⊎ ((q ≡ length v.server.tasks ∷ []) × (1 ≤ length more)))
      → server.tasks ≡ v.server.tasks ++ more
      → Accounted v
      → Accounted (answered v server workers)
  request-Accounted v server workers q more held queue one tasks a =
      let pushed : drop (length v.server.thread_pool.task_queue) server.thread_pool.task_queue ≡ q =
        ap (drop (length v.server.thread_pool.task_queue)) queue
        ∙ drop-append v.server.thread_pool.task_queue q in
      let behind = count-append n v.added q in
      let queued = ap (count n) queue ∙ count-append n v.server.thread_pool.task_queue q in
      let longer = ap length tasks ∙ length-append v.server.tasks more in
      let allowed : count n q + (if ltb n (length v.server.tasks) then 1 else 0)
          ≤ (if ltb n (length server.tasks) then 1 else 0) =
        elim one [
          | inl e ↦ ground (arith, ap (count n) e, longer)
          | inr (e, some_more) ↦ ground (arith, ap (count n) e, longer, some_more)
        ] in
      rw pushed (omega (arith, a.0, held, behind, queued), omega (arith, a.1, behind, allowed))

  Step-Accounted : {v w : Service c.fs.State} → Step c v w → Accounted v → Accounted w
  unfolding stop
  Step-Accounted {v} (work before after ph m place e) a =
      work-Accounted v before after ph m place
        (Always-some c (Weighs c n (count n v.server.thread_pool.task_queue + holds n ph)) _ m e
          (move-Weighs c n v.isstop v.server.tasks (shared_of v) ph))
        a
  Step-Accounted {v} (request r sent server workers h free signals) a =
      let held = Signals-total (holds n) refl (pushed v server) v.workers workers signals in
      let (more, tasks) = calcsig_process-tasks c.ev c.json r v.server server sent h in
      elim (calcsig_process-Queued c.ev c.json r v.server server sent h) [
        | inl (f, (queue, t, one_more, filled)) ↦
            request-Accounted v server workers (length v.server.tasks ∷ []) (t ∷ []) held queue
              (inr (refl, omega arith)) one_more a
        | inr (f, pool) ↦
            request-Accounted v server workers [] more held
              (ap (λ (p : Pool). p.task_queue) pool
                ∙ sym (append-nil v.server.thread_pool.task_queue))
              (inl refl) tasks a
      ]
  Step-Accounted {v} (wake before after place) a =
      (omega (arith, a.0, woken-total (holds n) refl v.workers before after place), a.1)
  Step-Accounted {v} join a = (omega (arith, a.0, total-append (holds n) v.workers (top ∷ [])), a.1)
  Step-Accounted halt a = a
  Step-Accounted stop_server a = a

  Reach-Accounted-from : {v w : Service c.fs.State} → Accounted v → Reach c v w → Accounted w
  Reach-Accounted-from a here = a
  Reach-Accounted-from a (next r st) = Step-Accounted st (Reach-Accounted-from a r)

  -- In every state that the server and its workers reach: as often as the task `n` was accepted, it
  -- is in the queue, with one of the workers, or in a round that is over, and in one of these only;
  -- and it was accepted once at most, and only if it was made.
  pub Reach-Accounted :
      (min max max_q : ℕ) (isstop : Bool) (world : c.fs.State) (v : Service c.fs.State)
      → Reach c (idle c (new_pool min max max_q) isstop world) v
      → Accounted v
  unfolding new_pool
  Reach-Accounted min max max_q isstop world v r = Reach-Accounted-from (omega arith, omega arith) r
