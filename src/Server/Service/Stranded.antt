-- ===== src/Server/Service/Stranded.antt =====
-- threadpool/threadpool_98.hpp: `stop`, which signals nobody.
use calcsig.Common.{
  ◌≡◌, refl, sym, ap, ◌∙◌, arith, Bool, true, List, [], ◌∷◌, length, drop, drop-append, append-nil,
  some, total, total-append, inl, inr,
}
use calcsig.ThreadPool98.{Pool, waits, get_task, stop}
use calcsig.Server.Request.{HttpTask}
use calcsig.Server.Request.Accepted.{calcsig_process-Queued}
use calcsig.Server.Request.Stopped.{calcsig_process-is_stopped, calcsig_process-stopped}
use calcsig.Server.Service.{
  Phase, top, asks, sleeps, ended, has, named, ready, opened, writing, signing, moving, reporting,
  Shared, Moved, Setting, Service, pushed, Step, work, request, wake, join, halt, stop_server,
  shared_of, move,
}
use calcsig.Server.Service.Awake.{asleep, get_task-takes}
use calcsig.Server.Service.Cases.{
  Always, Always-some, top-Always, asks-Always, named-Always, ready-Always, writing-Always,
  signing-Always, moving-Always, reporting-Always,
}

module _ (c : Setting) where
  -- A step that is no wake-up without a signal.
  abbrev pub IsPrompted : {v w : Service c.fs.State} → Step c v w → Type 0
  IsPrompted (wake before after place) = ⊥
  IsPrompted _ = Unit

  pub data PromptedReach (v : Service c.fs.State) : Service c.fs.State → Type 0 where
    stay : PromptedReach v v
    then_prompted :
        {u w : Service c.fs.State}
        → PromptedReach v u
        → (st : Step c u w) → IsPrompted st
        → PromptedReach v w

get_task-stopped : (p : Pool) → p.is_stopped ≡ true → get_task p ≡ waits → ⊥
unfolding get_task
get_task-stopped p stopped e = cc (rw (stopped, get_task) at e)

module _ (c : Setting) (isstop : Bool) (tasks : List HttpTask) (s : Shared c.fs.State) where
  -- The worker does not fall asleep, and the pool is still stopped.
  abbrev pub Up : Moved c.fs.State → Type 0
  Up m = (m.shared.pool.is_stopped ≡ true) × (asleep m.phase ≡ 0)

  pub move-Up : (ph : Phase) → s.pool.is_stopped ≡ true → Always c Up (move c isstop tasks s ph)
  unfolding move
  move-Up top h = top-Always c Up isstop tasks s (λ e. (h, refl)) (h, refl)
  move-Up asks h =
      asks-Always c Up isstop tasks s (λ free e. absurd (get_task-stopped s.pool h e))
        (λ free e. (h, refl))
        (λ i q t e found. (sym (get_task-takes s.pool _ i q refl e).1 ∙ h, refl))
  move-Up ended h = tt
  move-Up sleeps h = tt
  move-Up (has i t) h = (h, refl)
  move-Up (named i t path) h = named-Always c Up isstop tasks s i t path ((h, refl), (h, refl))
  move-Up (ready i t path) h = ready-Always c Up isstop tasks s i t path (h, refl) (h, refl)
  move-Up (opened i t path) h = (h, refl)
  move-Up (writing i t path r (b ∷ bs)) h = (h, refl)
  move-Up (writing i t path r []) h =
      writing-Always c Up isstop tasks s i t path r (λ e. (h, refl)) (h, refl)
  move-Up (signing i t path size) h =
      signing-Always c Up isstop tasks s i t path size (λ sigs e. (h, refl)) (h, refl)
  move-Up (moving i t path sigs size) h =
      moving-Always c Up isstop tasks s i t path sigs size ((h, refl), (h, refl))
  move-Up (reporting i t item) h = reporting-Always c Up isstop tasks s i t item (h, refl) (h, refl)

  -- A worker that sleeps makes no step.
  mover-up : (ph : Phase) (m : Moved c.fs.State) → move c isstop tasks s ph ≡ some m → asleep ph ≡ 0
  unfolding move
  mover-up sleeps m e = cc e
  mover-up top m e = refl
  mover-up asks m e = refl
  mover-up ended m e = refl
  mover-up (has i t) m e = refl
  mover-up (named i t path) m e = refl
  mover-up (ready i t path) m e = refl
  mover-up (opened i t path) m e = refl
  mover-up (writing i t path r left) m e = refl
  mover-up (signing i t path size) m e = refl
  mover-up (moving i t path sigs size) m e = refl
  mover-up (reporting i t item) m e = refl

module _ (c : Setting) (v : Service c.fs.State) where
  abbrev Stranded : Service c.fs.State → Type 0
  Stranded u =
      (u.server.thread_pool.is_stopped ≡ true) × (total asleep u.workers ≡ total asleep v.workers)

  Step-Stranded :
      {u w : Service c.fs.State} (st : Step c u w) → IsPrompted c st → Stranded u → Stranded w
  unfolding stop
  Step-Stranded {u} (work before after ph m place e) p (stopped, same) =
      let (still, up) =
        Always-some c (Up c u.isstop u.server.tasks (shared_of u)) _ m e
          (move-Up c u.isstop u.server.tasks (shared_of u) ph stopped) in
      (
        still,
        omega (
          arith,
          same,
          up,
          mover-up c u.isstop u.server.tasks (shared_of u) ph m e,
          ap (total asleep) place,
          total-append asleep before (ph ∷ after),
          total-append asleep before (m.phase ∷ after),
        ),
      )
  Step-Stranded {u} (request r sent server workers h free signals) p (stopped, same) =
      elim (calcsig_process-Queued c.ev c.json r u.server server sent h) [
        | inl (f, (queue, t, tasks, filled)) ↦
            cc (f, calcsig_process-stopped c.ev c.json r u.server server sent stopped h)
        | inr (f, pool) ↦
            let nothing : pushed u server ≡ [] =
              ap (λ (q : Pool). drop (length u.server.thread_pool.task_queue) q.task_queue) pool
              ∙ ap (drop (length u.server.thread_pool.task_queue))
                  (sym (append-nil u.server.thread_pool.task_queue))
              ∙ drop-append u.server.thread_pool.task_queue [] in
            let as_before : workers ≡ u.workers = rw nothing at signals in
            (
              calcsig_process-is_stopped c.ev c.json r u.server server sent h ∙ stopped,
              ap (total asleep) as_before ∙ same,
            )
      ]
  Step-Stranded (wake before after place) p stranded = absurd p
  Step-Stranded {u} join p (stopped, same) =
      (stopped, omega (arith, same, total-append asleep u.workers (top ∷ [])))
  Step-Stranded halt p (stopped, same) = (refl, same)
  Step-Stranded stop_server p stranded = stranded

  Reach-Stranded :
      {w : Service c.fs.State}
      → PromptedReach c v w
      → v.server.thread_pool.is_stopped ≡ true
      → Stranded w
  Reach-Stranded stay stopped = (stopped, refl)
  Reach-Stranded (then_prompted r st p) stopped = Step-Stranded st p (Reach-Stranded r stopped)

module _ (c : Setting) where
  -- `stop` wakes nobody: from then on, whatever requests come and whatever the workers do, as many
  -- workers sleep in `get_task` as slept when it was called, as long as none wakes without a signal;
  -- and the pool stays stopped.
  pub halt-strands :
      (v w : Service c.fs.State)
      → PromptedReach c
          (record v { server = record v.server { thread_pool = stop v.server.thread_pool } })
          w
      → (w.server.thread_pool.is_stopped ≡ true) × (total asleep w.workers ≡ total asleep v.workers)
  unfolding stop
  halt-strands v w r =
      Reach-Stranded c
        (record v { server = record v.server { thread_pool = stop v.server.thread_pool } }) r refl
