-- ===== src/Server/Service/Serving.antt =====
-- src/server.cpp: a worker that is awake in `get_task` of a running pool serves the queue, task after
-- task.
use calcsig.Common.{
  ℕ, ◌<◌, ◌≤◌, count, ◌≡◌, refl, sym, ap, ◌∙◌, subst, arith, false, List, [], ◌∷◌, ◌++◌,
  append_assoc, append-nil, All, length, get_elem?, none, some, Option-cases, inl, inr,
}
use calcsig.ThreadPool98.{Pool, takes, get_task}
use calcsig.Server.Request.{HttpTask}
use calcsig.Server.Worker.{run_task}
use calcsig.Server.Service.{
  Phase, top, asks, has, Finish, Shared, Moved, goes, ends, Setting, Service, moved, shared_of,
  after_get_task, move,
}
use calcsig.Server.Service.Accounts.{Accounted}
use calcsig.Server.Service.Progress.{get_elem?-lt}
use calcsig.Server.Service.Rounds.{Ending, run_task-Ending}

get_task-front :
    (p : Pool) (i : ℕ) (q : List ℕ)
    → p.is_stopped ≡ false
    → p.task_queue ≡ i ∷ q
    → get_task p ≡ takes i (record p { task_queue = q })
unfolding get_task
get_task-front p i q running queue = ground arith

module _ (c : Setting) where
  open c use {fs, sys, md5, base_path, my_ip}

  -- What the workers come to on their own: no request, no new thread, and no wake-up.
  pub data Works (v : Service fs.State) : Service fs.State → Type 0 where
    rest : Works v v
    then_work :
        {u : Service fs.State} (before after : List Phase) (ph : Phase) (m : Moved fs.State)
        → Works v u
        → u.workers ≡ before ++ ph ∷ after
        → move c u.isstop u.server.tasks (shared_of u) ph ≡ some m
        → Works v (moved u before after m)

  Works-trans : {u v w : Service fs.State} → Works u v → Works v w → Works u w
  Works-trans r rest = r
  Works-trans r (then_work before after ph m s place e) =
      then_work before after ph m (Works-trans r s) place e

  -- The tasks at the pointers one after another, each in one piece.
  abbrev pub run_all : List HttpTask → List ℕ → fs.State → fs.State × List Finish
  run_all tasks [] w = (w, [])
  run_all tasks (i ∷ q) w = elim (get_elem? tasks i) [
    | none ↦ (w, [])
    | some t ↦
        let r = run_task fs sys md5 base_path my_ip t w in
        let (w', fs') = run_all tasks q r.state in
        (w', record { pointer = i; deleted = r.deleted; result = r.result } ∷ fs')
  ]

  -- The service with the queue empty, its tasks carried out.
  abbrev pub served : Service fs.State → Service fs.State
  served v =
      let r = run_all v.server.tasks v.server.thread_pool.task_queue v.world in
      record v {
        server = record v.server { thread_pool = record v.server.thread_pool { task_queue = [] } };
        world = r.0;
        finished = v.finished ++ r.1;
      }

  -- What is in the queue is a task.
  queue-All : (q : List ℕ) (P : ℕ → Type 0) → ((i : ℕ) → 1 ≤ count i q → P i) → All P q
  queue-All [] P f = tt
  queue-All (i ∷ q) P f = (f i (ground arith), queue-All q P (λ j h. f j (ground (arith, h))))

  pub Accounted-All :
      (v : Service fs.State)
      → ((n : ℕ) → Accounted c n v)
      → All (λ i. i < length v.server.tasks) v.server.thread_pool.task_queue
  Accounted-All v a =
      queue-All v.server.thread_pool.task_queue (λ i. i < length v.server.tasks)
        (λ i h. ground (arith, h, (a i).0, (a i).1))

  module _ (v : Service fs.State) (before after : List Phase) where
    -- The service where the worker stands at `ph`.
    abbrev at_phase : Shared fs.State → Phase → List Finish → Service fs.State
    at_phase s ph fin = record v {
      server = record v.server { thread_pool = s.pool };
      locked = s.locked;
      world = s.world;
      workers = before ++ ph ∷ after;
      finished = fin;
    }

    step_at :
        (s : Shared fs.State) (ph : Phase) (m : Moved fs.State) (fin : List Finish)
        → move c v.isstop v.server.tasks s ph ≡ some m
        → Works (at_phase s ph fin) (at_phase m.shared m.phase (fin ++ m.finished))
    step_at s ph m fin e = then_work before after ph m rest refl e

    goes_at :
        (s s' : Shared fs.State) (ph ph' : Phase) (fin : List Finish)
        → move c v.isstop v.server.tasks s ph ≡ some (goes s' ph')
        → Works (at_phase s ph fin) (at_phase s' ph' fin)
    goes_at s s' ph ph' fin e =
        subst (λ f. Works (at_phase s ph fin) (at_phase s' ph' f)) (append-nil fin)
          (step_at s ph (goes s' ph') fin e)

    reaches : Ending c v.isstop v.server.tasks
    reaches = record {
      Comes = λ s ph i r.
          (fin : List Finish)
          → Works (at_phase s ph fin) (
              at_phase (record s { world = r.state }) top
                (fin ++ record { pointer = i; deleted = r.deleted; result = r.result } ∷ []));
      Comes-goes = λ s w ph ph' i r e rest fin.
          Works-trans (goes_at s (record s { world = w }) ph ph' fin e) (rest fin);
      Comes-ends = λ s ph i r e fin.
          step_at s ph (ends (record s { world = r.state }) i r.deleted r.result) fin e;
    }

    asks-takes :
        (p : Pool) (w : fs.State) (i : ℕ) (q : List ℕ) (t : HttpTask)
        → p.is_stopped ≡ false
        → p.task_queue ≡ i ∷ q
        → get_elem? v.server.tasks i ≡ some t
        → move c v.isstop v.server.tasks (record { pool = p; locked = false; world = w }) asks
          ≡ some (
              goes
                (record { pool = record p { task_queue = q }; locked = false; world = w })
                (has i t))
    unfolding move after_get_task
    asks-takes p w i q t running queue found =
        ap (after_get_task c v.server.tasks (record { pool = p; locked = false; world = w }))
          (get_task-front p i q running queue)
        ∙ rw (found, after_get_task) refl

    serve_one :
        (p : Pool) (w : fs.State) (i : ℕ) (q : List ℕ) (t : HttpTask) (fin : List Finish)
        → v.isstop ≡ false
        → p.is_stopped ≡ false
        → p.task_queue ≡ i ∷ q
        → get_elem? v.server.tasks i ≡ some t
        → (let r = run_task fs sys md5 base_path my_ip t w in
            Works (at_phase (record { pool = p; locked = false; world = w }) asks fin) (
              at_phase
                (record { pool = record p { task_queue = q }; locked = false; world = r.state })
                asks
                (fin ++ record { pointer = i; deleted = r.deleted; result = r.result } ∷ [])))
    unfolding move reaches
    serve_one p w i q t fin going running queue found =
        let taken : Shared fs.State = record {
          pool = record p { task_queue = q };
          locked = false;
          world = w;
        } in
        let r = run_task fs sys md5 base_path my_ip t w in
        Works-trans (goes_at _ taken asks (has i t) fin (asks-takes p w i q t running queue found))
          (Works-trans (run_task-Ending reaches taken i t fin) (
            goes_at (record taken { world = r.state }) (record taken { world = r.state }) top asks _
              (rw going refl)))

    pub serve_queue :
        (q : List ℕ) (p : Pool) (w : fs.State) (fin : List Finish)
        → v.isstop ≡ false
        → p.is_stopped ≡ false
        → p.task_queue ≡ q
        → All (λ i. i < length v.server.tasks) q
        → Works (at_phase (record { pool = p; locked = false; world = w }) asks fin) (
            at_phase
              (record {
                pool = record p { task_queue = [] };
                locked = false;
                world = (run_all v.server.tasks q w).0;
              })
              asks
              (fin ++ (run_all v.server.tasks q w).1))
    serve_queue [] p w fin going running queue known =
        let stopped_at = λ (l : List ℕ) (f : List Finish).
          at_phase (record { pool = record p { task_queue = l }; locked = false; world = w }) asks
            f in
        subst (λ l. Works (stopped_at p.task_queue fin) (stopped_at l (fin ++ []))) queue
          (subst (λ f. Works (stopped_at p.task_queue fin) (stopped_at p.task_queue f))
            (sym (append-nil fin)) rest)
    serve_queue (i ∷ q) p w fin going running queue known =
        elim (Option-cases (get_elem? v.server.tasks i)) [
          | inl lost ↦ absurd (get_elem?-lt v.server.tasks i known.0 lost)
          | inr (t, found) ↦
              let r = run_task fs sys md5 base_path my_ip t w in
              let one = serve_one p w i q t fin going running queue found in
              let more =
                serve_queue q (record p { task_queue = q }) r.state
                  (fin ++ record { pointer = i; deleted = r.deleted; result = r.result } ∷ []) going
                  running refl known.1 in
              let whole = Works-trans one more in
              rw (found, run_all)
                (rw
                  (append_assoc fin
                    (record { pointer = i; deleted = r.deleted; result = r.result } ∷ [])
                    (run_all v.server.tasks q r.state).1)
                  at whole)
        ]
