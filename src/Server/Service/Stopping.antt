-- ===== src/Server/Service/Stopping.antt =====
-- src/server.cpp: `httpServer::stop` and the test of `stop_status`.
use calcsig.Common.{◌≡◌, subst, Bool, true, List, [], ◌∷◌, All, All-append, All-parts}
use calcsig.ThreadPool98.{Pool, stop}
use calcsig.Server.Request.{HttpTask}
use calcsig.Server.Service.{
  Phase, top, asks, sleeps, ended, has, named, ready, opened, writing, signing, moving, reporting,
  Shared, Moved, Setting, Service, pushed, Step, work, request, wake, join, halt, stop_server,
  Reach, here, next, idle, shared_of, move,
}
use calcsig.Server.Service.Woken.{woken-All, Signals-All}
use calcsig.Server.Service.Cases.{
  Always, Always-some, top-Always, asks-Always, named-Always, ready-Always, writing-Always,
  signing-Always, moving-Always, reporting-Always,
}

module _ (c : Setting) (isstop : Bool) (tasks : List HttpTask) where
  -- Only a thread that read `isstop` as true has returned.
  abbrev Stays : Moved c.fs.State → Type 0
  Stays m = m.phase ≡ ended → isstop ≡ true

  move-Stays : (s : Shared c.fs.State) (ph : Phase) → Always c Stays (move c isstop tasks s ph)
  unfolding move
  move-Stays s top = top-Always c Stays isstop tasks s (λ e h. e) (λ h. cc h)
  move-Stays s asks =
      asks-Always c Stays isstop tasks s (λ free e h. cc h) (λ free e h. cc h)
        (λ i q t e found h. cc h)
  move-Stays s ended = tt
  move-Stays s sleeps = tt
  move-Stays s (has i t) = λ h. cc h
  move-Stays s (named i t path) =
      named-Always c Stays isstop tasks s i t path (λ h. cc h, λ h. cc h)
  move-Stays s (ready i t path) =
      ready-Always c Stays isstop tasks s i t path (λ h. cc h) (λ h. cc h)
  move-Stays s (opened i t path) = λ h. cc h
  move-Stays s (writing i t path r (b ∷ bs)) = λ h. cc h
  move-Stays s (writing i t path r []) =
      writing-Always c Stays isstop tasks s i t path r (λ e h. cc h) (λ h. cc h)
  move-Stays s (signing i t path size) =
      signing-Always c Stays isstop tasks s i t path size (λ sigs e h. cc h) (λ h. cc h)
  move-Stays s (moving i t path sigs size) =
      moving-Always c Stays isstop tasks s i t path sigs size (λ h. cc h, λ h. cc h)
  move-Stays s (reporting i t item) =
      reporting-Always c Stays isstop tasks s i t item (λ h. cc h) (λ h. cc h)

module _ (c : Setting) (isstop : Bool) where
  -- A thread returns, and `isstop` is true, only where that was so from the start.
  abbrev pub Unstopped : Service c.fs.State → Type 0
  Unstopped v = (v.isstop ≡ true → isstop ≡ true) × All (λ ph. ph ≡ ended → isstop ≡ true) v.workers

  Step-Unstopped : {v w : Service c.fs.State} → Step c v w → Unstopped v → Unstopped w
  unfolding stop
  Step-Unstopped {v} (work before after ph m place e) a =
      let (b, (k, k_after)) =
        All-parts (λ ph. ph ≡ ended → isstop ≡ true) before (ph ∷ after)
          (subst (All (λ ph. ph ≡ ended → isstop ≡ true)) place a.1) in
      let stays =
        Always-some c (Stays c v.isstop v.server.tasks) _ m e
          (move-Stays c v.isstop v.server.tasks (shared_of v) ph) in
      (
        a.0,
        All-append (λ ph. ph ≡ ended → isstop ≡ true) before (m.phase ∷ after) b
            (λ e. a.0 (stays e), k_after),
      )
  Step-Unstopped {v} (request r sent server workers h free signals) a = (
    a.0,
    Signals-All (λ ph. ph ≡ ended → isstop ≡ true) (λ k e. cc e) (pushed v server) v.workers workers
        signals a.1,
  )
  Step-Unstopped {v} (wake before after place) a = (
    a.0,
    woken-All (λ ph. ph ≡ ended → isstop ≡ true) (λ k e. cc e) v.workers before after place a.1,
  )
  Step-Unstopped {v} join a =
      (a.0, All-append (λ ph. ph ≡ ended → isstop ≡ true) v.workers (top ∷ []) a.1 (λ e. cc e, tt))
  Step-Unstopped halt a = a
  Step-Unstopped stop_server a = (λ e. cc e, a.1)

  Reach-Unstopped-from : {v w : Service c.fs.State} → Unstopped v → Reach c v w → Unstopped w
  Reach-Unstopped-from a here = a
  Reach-Unstopped-from a (next r st) = Step-Unstopped st (Reach-Unstopped-from a r)

  -- No call of `stop` makes a thread return.
  pub Reach-Unstopped :
      (pool : Pool) (world : c.fs.State) (v : Service c.fs.State)
      → Reach c (idle c pool isstop world) v
      → Unstopped v
  Reach-Unstopped pool world v r = Reach-Unstopped-from (λ e. e, tt) r
