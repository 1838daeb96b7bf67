-- ===== src/Server/Request/Stopped.antt =====
-- src/server.cpp: requests and the stop of the pool.
use calcsig.Common.{
  ◌≡◌, ap, sym, ◌∙◌, Bool, true, false, Option, Option-cases, inl, inr, Bool-cases,
}
use calcsig.ThreadPool98.{push_task, add_task}
use calcsig.Server.Request.{
  EvBuffer, Json, Reply, Server, handled, Request, has_fields, fill_task, take_task, reply,
  calcsig_process,
}
use calcsig.Server.Request.Accepted.{accepts, after}

module _ (ev : EvBuffer) (json : Json) where
  take_task-is_stopped :
      (printed : Bool) (value : json.Value) (s s' : Server) (sent : Option Reply)
      → take_task ev json printed value s ≡ handled sent s'
      → s'.thread_pool.is_stopped ≡ s.thread_pool.is_stopped
  unfolding take_task reply add_task push_task
  take_task-is_stopped printed value s s' sent h = elim (Bool-cases (has_fields ev json value)) [
    | inr e ↦
        let done = rw (e, take_task, reply) at h in
        ap (λ (u : Server). u.thread_pool.is_stopped) (sym (ap (after s) done))
    | inl e ↦ elim (Option-cases (fill_task ev json value)) [
      | inl none_filled ↦ let lost = rw (e, none_filled, take_task) at h in cc lost
      | inr (t, filled) ↦ elim (Bool-cases s.thread_pool.is_stopped) [
        | inl stopped ↦ let lost = rw (e, filled, stopped, take_task) at h in cc lost
        | inr running ↦
            let done = rw (e, filled, running, take_task, reply) at h in
            ap (λ (u : Server). u.thread_pool.is_stopped) (sym (ap (after s) done)) ∙ sym running
      ]
    ]
  ]

  -- No request stops the pool.
  pub calcsig_process-is_stopped :
      (r : Request ev json) (s s' : Server) (sent : Option Reply)
      → calcsig_process ev json r s ≡ handled sent s'
      → s'.thread_pool.is_stopped ≡ s.thread_pool.is_stopped
  unfolding calcsig_process reply
  calcsig_process-is_stopped r s s' sent h = elim (Bool-cases r.created) [
    | inr no_buffer ↦ same (rw (no_buffer, calcsig_process) at h)
    | inl buffer ↦ elim (Bool-cases r.is_post) [
      | inr no_post ↦ same (rw (buffer, no_post, calcsig_process, reply) at h)
      | inl post ↦
          take_task-is_stopped r.printed _ s s' sent (rw (buffer, post, calcsig_process) at h)
    ]
  ]
    where
      same :
          {reply_sent : Option Reply}
          → handled reply_sent s ≡ handled sent s'
          → s'.thread_pool.is_stopped ≡ s.thread_pool.is_stopped
      same done = ap (λ (u : Server). u.thread_pool.is_stopped) (sym (ap (after s) done))

  take_task-stopped :
      (printed : Bool) (value : json.Value) (s s' : Server) (sent : Option Reply)
      → s.thread_pool.is_stopped ≡ true
      → take_task ev json printed value s ≡ handled sent s'
      → has_fields ev json value ≡ false
  unfolding take_task add_task
  take_task-stopped printed value s s' sent stopped h =
      elim (Bool-cases (has_fields ev json value)) [
        | inr e ↦ e
        | inl e ↦ elim (Option-cases (fill_task ev json value)) [
          | inl none_filled ↦ let lost = rw (e, none_filled, take_task) at h in cc lost
          | inr (t, filled) ↦ let lost = rw (e, filled, stopped, take_task) at h in cc lost
        ]
      ]

  -- Where the pool is stopped, no request that would be accepted returns.
  pub calcsig_process-stopped :
      (r : Request ev json) (s s' : Server) (sent : Option Reply)
      → s.thread_pool.is_stopped ≡ true
      → calcsig_process ev json r s ≡ handled sent s'
      → accepts ev json r ≡ false
  unfolding calcsig_process
  calcsig_process-stopped r s s' sent stopped h = elim (Bool-cases r.created) [
    | inr no_buffer ↦ rw no_buffer
    | inl buffer ↦ elim (Bool-cases r.is_post) [
      | inr no_post ↦ rw (buffer, no_post)
      | inl post ↦
          rw (buffer, post)
            (take_task-stopped r.printed _ s s' sent stopped
              (rw (buffer, post, calcsig_process) at h))
    ]
  ]
