-- ===== src/Server/Service/Alert.antt =====
-- threadpool/threadpool_98.hpp: no wake-up is lost while the pool runs.
use calcsig.Common.{
  ℕ, ◌+◌, ◌≡◌, refl, sym, ap, ◌∙◌, arith, Bool, List, [], ◌∷◌, ◌++◌, length, length-append, drop,
  drop-append, append-nil, total, total-append, some, inl, inr,
}
use calcsig.ThreadPool98.{Pool, stop, new_pool}
use calcsig.Server.Request.{Server}
use calcsig.Server.Request.Accepted.{calcsig_process-Queued}
use calcsig.Server.Request.Stopped.{calcsig_process-is_stopped}
use calcsig.Server.Service.Awake.{
  awake, asleep, AlertAt, With, move-With, woken-counts, Signals-Enough,
}
use calcsig.Server.Service.{
  Phase, top, Moved, Setting, Service, moved, pushed, answered, Signals, Step, work, request, wake,
  join, halt, stop_server, Reach, here, next, idle, shared_of, move,
}
use calcsig.Server.Service.Cases.{Always-some}

module _ (c : Setting) where
  abbrev pub Alert : Service c.fs.State → Type 0
  Alert v = AlertAt v.server.thread_pool v.locked (total asleep v.workers) (total awake v.workers)

  work-Alert :
      (v : Service c.fs.State) (before after : List Phase) (ph : Phase) (m : Moved c.fs.State)
      → v.workers ≡ before ++ ph ∷ after
      → move c v.isstop v.server.tasks (shared_of v) ph ≡ some m
      → Alert v
      → Alert (moved v before after m)
  work-Alert v before after ph m place e h =
      let z = total asleep before + total asleep after in
      let a = total awake before + total awake after in
      let split : (f : Phase → ℕ) (x : Phase)
          → total f before + total f after + f x ≡ total f (before ++ x ∷ after) =
        λ f x. omega (arith, total-append f before (x ∷ after)) in
      let here_z : z + asleep ph ≡ total asleep v.workers =
        split asleep ph ∙ ap (total asleep) (sym place) in
      let here_a : a + awake ph ≡ total awake v.workers =
        split awake ph ∙ ap (total awake) (sym place) in
      let h' = rw (sym here_z, sym here_a) at h in
      let after_it =
        Always-some c (With c z a) _ m e
          (move-With c z a v.isstop v.server.tasks (shared_of v) ph h') in
      rw (split asleep m.phase, split awake m.phase) at after_it

  request-Alert :
      (v : Service c.fs.State) (server : Server) (workers : List Phase) (q : List ℕ)
      → server.thread_pool.task_queue ≡ v.server.thread_pool.task_queue ++ q
      → server.thread_pool.is_stopped ≡ v.server.thread_pool.is_stopped
      → Signals (pushed v server) v.workers workers
      → Alert v
      → Alert (answered v server workers)
  request-Alert v server workers q queue same signals h =
      let behind : pushed v server ≡ q =
        ap (drop (length v.server.thread_pool.task_queue)) queue
        ∙ drop-append v.server.thread_pool.task_queue q in
      let longer = ap length queue ∙ length-append v.server.thread_pool.task_queue q in
      (
        λ l. same ∙ h.0 l,
        λ r. rw (longer) (
            Signals-Enough q v.workers workers (length v.server.thread_pool.task_queue)
              (rw behind at signals) (h.1 (sym same ∙ r))),
      )

  Step-Alert : {v w : Service c.fs.State} → Step c v w → Alert v → Alert w
  unfolding stop
  Step-Alert {v} (work before after ph m place e) h = work-Alert v before after ph m place e h
  Step-Alert {v} (request r sent server workers e free signals) h =
      let same = calcsig_process-is_stopped c.ev c.json r v.server server sent e in
      elim (calcsig_process-Queued c.ev c.json r v.server server sent e) [
        | inl (f, (queue, t, tasks, filled)) ↦ request-Alert v server workers _ queue same signals h
        | inr (f, pool) ↦
            request-Alert v server workers []
              (ap (λ (p : Pool). p.task_queue) pool
                ∙ sym (append-nil v.server.thread_pool.task_queue))
              same signals h
      ]
  Step-Alert {v} (wake before after place) h =
      let (w, z) = woken-counts v.workers before after place in
      (h.0, λ r. ground (arith, w, z, h.1 r))
  Step-Alert {v} join h = (
    h.0,
    λ r. ground (
      arith,
      h.1 r,
      total-append awake v.workers (top ∷ []),
      total-append asleep v.workers (top ∷ []),
    ),
  )
  Step-Alert halt h = (λ l. refl, λ r. cc r)
  Step-Alert stop_server h = h

  Reach-Alert-from : {v w : Service c.fs.State} → Alert v → Reach c v w → Alert w
  Reach-Alert-from h here = h
  Reach-Alert-from h (next r st) = Step-Alert st (Reach-Alert-from h r)

  -- No wake-up is lost.
  pub Reach-Alert :
      (min max max_q : ℕ) (isstop : Bool) (world : c.fs.State) (v : Service c.fs.State)
      → Reach c (idle c (new_pool min max max_q) isstop world) v
      → Alert v
  Reach-Alert min max max_q isstop world v r = Reach-Alert-from (λ l. cc l, λ s. inl refl) r
