-- ===== src/Server/Request/Accepted.antt =====
-- src/server.cpp: which requests become tasks.
use calcsig.Common.{
  ◌≡◌, ◌≢◌, ap, sym, ◌∙◌, arith, Bool, true, false, List, [], ◌∷◌, ◌++◌, append-nil, length, Option,
  some, Option-cases, inl, inr, ◌⊎◌, ◌&&◌, Bool-cases,
}
use calcsig.Common.Text.{Str, codes}
use calcsig.ThreadPool98.{push_task, add_task}
use calcsig.Server.Request.{
  EvBuffer, Json, HttpTask, empty_task, Reply, Server, Handled, handled, aborted, Request,
  has_fields, fill_task, take_task, reply, calcsig_process, request_text,
}

abbrev pub after : Server → Handled → Server
after s (handled sent s') = s'
after s aborted = s

module _ (ev : EvBuffer) (json : Json) where
  fill_task-fields :
      (value : json.Value) (t : HttpTask)
      → fill_task ev json value ≡ some t
      → (json.as_string value (codes "action_id") ≡ some t.action_id)
        × (json.as_string value (codes "src_url") ≡ some t.src_url)
        × (json.as_string value (codes "callback_url") ≡ some t.callback_url)
        × (json.as_string value (codes "table") ≡ some t.table)
        × (json.as_string value (codes "file_format") ≡ some t.file_format)
  unfolding fill_task
  fill_task-fields value t h = ground arith

  -- A POST whose body has the three fields, where the buffer for the reply could be made.
  abbrev pub accepts : Request ev json → Bool
  accepts r =
      r.created
      && (r.is_post && has_fields ev json (json.parse (request_text ev r.sz_temp r.input)))

  abbrev pub Field : Request ev json → Str → Str → Type 0
  Field r key v = json.as_string (json.parse (request_text ev r.sz_temp r.input)) key ≡ some v

  -- The task holds the five fields of the body.
  abbrev pub Filled : Request ev json → HttpTask → Type 0
  Filled r t =
      Field r (codes "action_id") t.action_id
      × Field r (codes "src_url") t.src_url
      × Field r (codes "callback_url") t.callback_url
      × Field r (codes "table") t.table
      × Field r (codes "file_format") t.file_format

  -- One task more, at the end of the queue.
  abbrev pub Queued : Request ev json → Server → Server → Type 0
  Queued r s s' =
      (s'.thread_pool.task_queue ≡ s.thread_pool.task_queue ++ length s.tasks ∷ [])
      × (t : HttpTask) × (s'.tasks ≡ s.tasks ++ t ∷ [])
      × Filled r t

  take_task-Queued :
      (printed : Bool) (value : json.Value) (s s' : Server) (sent : Option Reply)
      → take_task ev json printed value s ≡ handled sent s'
      → ((has_fields ev json value ≡ true)
          × (s'.thread_pool.task_queue ≡ s.thread_pool.task_queue ++ length s.tasks ∷ [])
          × (t : HttpTask) × (s'.tasks ≡ s.tasks ++ t ∷ [])
          × (fill_task ev json value ≡ some t))
        ⊎ ((has_fields ev json value ≡ false) × (s'.thread_pool ≡ s.thread_pool))
  unfolding take_task reply add_task push_task
  take_task-Queued printed value s s' sent h = elim (Bool-cases (has_fields ev json value)) [
    | inr e ↦
        let done = rw (e, take_task, reply) at h in
        let state = ap (after s) done in inr (e, ap (λ (u : Server). u.thread_pool) (sym state))
    | inl e ↦ elim (Option-cases (fill_task ev json value)) [
      | inl none_filled ↦ let lost = rw (e, none_filled, take_task) at h in cc lost
      | inr (t, filled) ↦ elim (Bool-cases s.thread_pool.is_stopped) [
        | inl stopped ↦ let lost = rw (e, filled, stopped, take_task) at h in cc lost
        | inr running ↦
            let done = rw (e, filled, running, take_task, reply) at h in
            let state = sym (ap (after s) done) in
            inl (
              e,
              ap (λ (u : Server). u.thread_pool.task_queue) state,
              t,
              ap (λ (u : Server). u.tasks) state,
              filled,
            )
      ]
    ]
  ]

  -- If the handler returns, then a request that is accepted has put one task, with the five fields
  -- of its body, at the end of the queue, and any other request has left the queue as it was.
  pub calcsig_process-Queued :
      (r : Request ev json) (s s' : Server) (sent : Option Reply)
      → calcsig_process ev json r s ≡ handled sent s'
      → ((accepts r ≡ true) × Queued r s s')
        ⊎ ((accepts r ≡ false) × (s'.thread_pool ≡ s.thread_pool))
  unfolding calcsig_process reply
  calcsig_process-Queued r s s' sent h = elim (Bool-cases r.created) [
    | inr no_buffer ↦
        let done = rw (no_buffer, calcsig_process) at h in
        inr (rw no_buffer, ap (λ (u : Server). u.thread_pool) (sym (ap (after s) done)))
    | inl buffer ↦ elim (Bool-cases r.is_post) [
      | inr no_post ↦
          let done = rw (buffer, no_post, calcsig_process, reply) at h in
          inr (rw (buffer, no_post), ap (λ (u : Server). u.thread_pool) (sym (ap (after s) done)))
      | inl post ↦
          let done = rw (buffer, post, calcsig_process) at h in
          elim (take_task-Queued _ _ s s' sent done) [
            | inl (f, queue, t, tasks, filled) ↦
                inl (rw (buffer, post) f, (queue, t, tasks, fill_task-fields _ t filled))
            | inr (f, pool) ↦ inr (rw (buffer, post) f, pool)
          ]
    ]
  ]

  take_task-aborted :
      (printed : Bool) (value : json.Value) (s : Server) (t : HttpTask)
      → s.thread_pool.is_stopped ≡ false
      → fill_task ev json value ≡ some t
      → take_task ev json printed value s ≢ aborted
  unfolding take_task reply add_task push_task
  take_task-aborted printed value s t running filled lost =
      elim (Bool-cases (has_fields ev json value)) [
        | inl e ↦ cc (rw (e, filled, running, take_task, reply) at lost)
        | inr e ↦ cc (rw (e, take_task, reply) at lost)
      ]

  -- No exception leaves the handler if the pool is running and each of the five
  -- fields can be read as a text.
  pub calcsig_process-aborted :
      (r : Request ev json) (s : Server) (t : HttpTask)
      → s.thread_pool.is_stopped ≡ false
      → fill_task ev json (json.parse (request_text ev r.sz_temp r.input)) ≡ some t
      → calcsig_process ev json r s ≢ aborted
  unfolding calcsig_process reply
  calcsig_process-aborted r s t running filled lost = elim (Bool-cases r.created) [
    | inr no_buffer ↦ cc (rw (no_buffer, calcsig_process) at lost)
    | inl buffer ↦ elim (Bool-cases r.is_post) [
      | inr no_post ↦ cc (rw (buffer, no_post, calcsig_process, reply) at lost)
      | inl post ↦
          take_task-aborted r.printed _ s t running filled
            (rw (buffer, post, calcsig_process) at lost)
    ]
  ]

  take_task-tasks :
      (printed : Bool) (value : json.Value) (s s' : Server) (sent : Option Reply)
      → take_task ev json printed value s ≡ handled sent s'
      → (more : List HttpTask) × (s'.tasks ≡ s.tasks ++ more)
  unfolding take_task reply add_task
  take_task-tasks printed value s s' sent h = elim (Bool-cases (has_fields ev json value)) [
    | inr e ↦
        let done = rw (e, take_task, reply) at h in
        (empty_task ∷ [], ap (λ (u : Server). u.tasks) (sym (ap (after s) done)))
    | inl e ↦ elim (take_task-Queued printed value s s' sent h) [
      | inl (f, queue, t, tasks, filled) ↦ (t ∷ [], tasks)
      | inr (f, pool) ↦ cc (e, f)
    ]
  ]

  -- The tasks that were made before stay as they were.
  pub calcsig_process-tasks :
      (r : Request ev json) (s s' : Server) (sent : Option Reply)
      → calcsig_process ev json r s ≡ handled sent s'
      → (more : List HttpTask) × (s'.tasks ≡ s.tasks ++ more)
  unfolding calcsig_process reply
  calcsig_process-tasks r s s' sent h = elim (Bool-cases r.created) [
    | inr no_buffer ↦ let done = rw (no_buffer, calcsig_process) at h in ([], same done)
    | inl buffer ↦ elim (Bool-cases r.is_post) [
      | inr no_post ↦
          let done = rw (buffer, no_post, calcsig_process, reply) at h in ([], same done)
      | inl post ↦ take_task-tasks r.printed _ s s' sent (rw (buffer, post, calcsig_process) at h)
    ]
  ]
    where
      same :
          {reply_sent : Option Reply}
          → handled reply_sent s ≡ handled sent s'
          → s'.tasks ≡ s.tasks ++ []
      same done = ap (λ (u : Server). u.tasks) (sym (ap (after s) done)) ∙ sym (append-nil s.tasks)
