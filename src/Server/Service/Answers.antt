-- ===== src/Server/Service/Answers.antt =====
-- src/server.cpp: what the rounds of the workers come to, for the tasks that the handler made.
use calcsig.Common.{
  ℕ, ◌≡◌, refl, sym, subst, Bool, List, [], ◌∷◌, ◌++◌, All, All-append, All-parts, All-mono,
  get_elem?, get_elem?-append, some,
}
use calcsig.Common.Text.{c_string}
use calcsig.Utils.SigPath.{sig_path}
use calcsig.ThreadPool98.{Pool, stop}
use calcsig.Server.Request.{HttpTask}
use calcsig.Server.Request.Accepted.{calcsig_process-tasks}
use calcsig.Server.Worker.{
  Item, Result, tmp_dir_failed, no_curl, download_failed, sig_failed, mv_failed, no_callback,
  called_back, item_of,
}
use calcsig.Server.Worker.Reported.{frees}
use calcsig.Server.Service.{
  Phase, top, asks, sleeps, ended, has, named, ready, opened, writing, signing, moving, reporting,
  Finish, Shared, Moved, ends, Setting, Service, pushed, Step, work, request, wake, join, halt,
  stop_server, Reach, here, next, idle, shared_of, move,
}
use calcsig.Server.Service.Woken.{woken-All, Signals-All}
use calcsig.Server.Service.Cases.{
  Always, Always-some, top-Always, asks-Always, named-Always, ready-Always, writing-Always,
  signing-Always, moving-Always, reporting-Always,
}

-- The item is one for this task.
abbrev pub Describes : HttpTask → Item → Type 0
Describes t item =
    (item.action_id ≡ c_string t.action_id)
    × (item.table ≡ c_string t.table)
    × (item.file_path ≡ c_string (sig_path item.file_sig1 item.file_sig2 t.file_format))

-- A report goes to the URL of the task and describes it, its texts up to the first zero byte; any other end says nothing of the task.
abbrev pub Reports : HttpTask → Result → Type 0
Reports t (called_back url item) = (url ≡ t.callback_url) × Describes t item
Reports t _ = Unit

-- The round was one of a task that was made, deleted it in the cases that `frees` names, and reported
-- it to nobody but its own URL.
abbrev pub Answers : List HttpTask → Finish → Type 0
Answers tasks f =
    (t : HttpTask) × (get_elem? tasks f.pointer ≡ some t)
    × (f.deleted ≡ frees f.result)
    × Reports t f.result

-- What a worker has in its hands is the task at its pointer.
abbrev pub Knows : List HttpTask → Phase → Type 0
Knows tasks top = Unit
Knows tasks asks = Unit
Knows tasks sleeps = Unit
Knows tasks ended = Unit
Knows tasks (has i t) = get_elem? tasks i ≡ some t
Knows tasks (named i t path) = get_elem? tasks i ≡ some t
Knows tasks (ready i t path) = get_elem? tasks i ≡ some t
Knows tasks (opened i t path) = get_elem? tasks i ≡ some t
Knows tasks (writing i t path r left) = get_elem? tasks i ≡ some t
Knows tasks (signing i t path size) = get_elem? tasks i ≡ some t
Knows tasks (moving i t path sigs size) = get_elem? tasks i ≡ some t
Knows tasks (reporting i t item) = (get_elem? tasks i ≡ some t) × Describes t item

item-Describes :
    (c : Setting) (t : HttpTask) (sigs : ℕ × ℕ) (size : ℕ)
    → Describes t (item_of c.fs c.sys c.md5 c.base_path c.my_ip t sigs size)
unfolding item_of
item-Describes c t sigs size = (refl, refl, refl)

module _ (c : Setting) (tasks : List HttpTask) where
  abbrev pub Right : Moved c.fs.State → Type 0
  Right m = Knows tasks m.phase × All (Answers tasks) m.finished

  ends-Right :
      (s : Shared c.fs.State) (i : ℕ) (t : HttpTask) (result : Result)
      → get_elem? tasks i ≡ some t
      → Reports t result
      → Right (ends s i (frees result) result)
  ends-Right s i t result e r = (tt, ((t, e, refl, r), tt))

  pub move-Right :
      (isstop : Bool) (s : Shared c.fs.State) (ph : Phase)
      → Knows tasks ph
      → Always c Right (move c isstop tasks s ph)
  unfolding move
  move-Right isstop s top k = top-Always c Right isstop tasks s (λ e. (tt, tt)) (tt, tt)
  move-Right isstop s asks k =
      asks-Always c Right isstop tasks s (λ free e. (tt, tt)) (λ free e. (tt, tt))
        (λ i q t e found. (found, tt))
  move-Right isstop s ended k = tt
  move-Right isstop s sleeps k = tt
  move-Right isstop s (has i t) k = (k, tt)
  move-Right isstop s (named i t path) k =
      named-Always c Right isstop tasks s i t path ((k, tt), ends-Right s i t tmp_dir_failed k tt)
  move-Right isstop s (ready i t path) k =
      ready-Always c Right isstop tasks s i t path (k, tt) (ends-Right s i t no_curl k tt)
  move-Right isstop s (opened i t path) k = (k, tt)
  move-Right isstop s (writing i t path r (b ∷ bs)) k = (k, tt)
  move-Right isstop s (writing i t path r []) k =
      writing-Always c Right isstop tasks s i t path r (λ e. (k, tt))
        (ends-Right s i t download_failed k tt)
  move-Right isstop s (signing i t path size) k =
      signing-Always c Right isstop tasks s i t path size (λ sigs e. (k, tt))
        (ends-Right s i t sig_failed k tt)
  move-Right isstop s (moving i t path sigs size) k =
      moving-Always c Right isstop tasks s i t path sigs size
        (((k, item-Describes c t sigs size), tt), ends-Right s i t mv_failed k tt)
  move-Right isstop s (reporting i t item) (k, d) =
      reporting-Always c Right isstop tasks s i t item
        (ends-Right s i t (called_back t.callback_url item) k (refl, d))
        (ends-Right s i t no_callback k tt)

pub Knows-append :
    (tasks more : List HttpTask) (ph : Phase) → Knows tasks ph → Knows (tasks ++ more) ph
Knows-append tasks more top k = tt
Knows-append tasks more asks k = tt
Knows-append tasks more sleeps k = tt
Knows-append tasks more ended k = tt
Knows-append tasks more (has i t) k = get_elem?-append tasks more i t k
Knows-append tasks more (named i t path) k = get_elem?-append tasks more i t k
Knows-append tasks more (ready i t path) k = get_elem?-append tasks more i t k
Knows-append tasks more (opened i t path) k = get_elem?-append tasks more i t k
Knows-append tasks more (writing i t path r left) k = get_elem?-append tasks more i t k
Knows-append tasks more (signing i t path size) k = get_elem?-append tasks more i t k
Knows-append tasks more (moving i t path sigs size) k = get_elem?-append tasks more i t k
Knows-append tasks more (reporting i t item) (k, d) = (get_elem?-append tasks more i t k, d)

Answers-append :
    (tasks more : List HttpTask) (f : Finish) → Answers tasks f → Answers (tasks ++ more) f
Answers-append tasks more f (t, k, deleted, reports) =
    (t, get_elem?-append tasks more f.pointer t k, deleted, reports)

module _ (c : Setting) where
  abbrev AllRight : Service c.fs.State → Type 0
  AllRight v = All (Knows v.server.tasks) v.workers × All (Answers v.server.tasks) v.finished

  Step-AllRight : {v w : Service c.fs.State} → Step c v w → AllRight v → AllRight w
  unfolding stop
  Step-AllRight {v} (work before after ph m place e) a =
      let k = subst (All (Knows v.server.tasks)) place a.0 in
      let (b, (k_ph, k_after)) = All-parts (Knows v.server.tasks) before (ph ∷ after) k in
      let right =
        Always-some c (Right c v.server.tasks) _ m e
          (move-Right c v.server.tasks v.isstop (shared_of v) ph k_ph) in
      (
        All-append (Knows v.server.tasks) before (m.phase ∷ after) b (right.0, k_after),
        All-append (Answers v.server.tasks) v.finished m.finished a.1 right.1,
      )
  Step-AllRight {v} (request r sent server workers h free signals) a =
      let (more, tasks) = calcsig_process-tasks c.ev c.json r v.server server sent h in
      subst (λ (l : List HttpTask). All (Knows l) workers × All (Answers l) v.finished) (sym tasks)
        (
          All-mono (Knows-append v.server.tasks more) workers (
              Signals-All (Knows v.server.tasks) (λ k. k) (pushed v server) v.workers workers
                signals a.0),
          All-mono (Answers-append v.server.tasks more) v.finished a.1,
        )
  Step-AllRight {v} (wake before after place) a =
      (woken-All (Knows v.server.tasks) (λ k. k) v.workers before after place a.0, a.1)
  Step-AllRight {v} join a =
      (All-append (Knows v.server.tasks) v.workers (top ∷ []) a.0 (tt, tt), a.1)
  Step-AllRight halt a = a
  Step-AllRight stop_server a = a

  Reach-AllRight : {v w : Service c.fs.State} → AllRight v → Reach c v w → AllRight w
  Reach-AllRight a here = a
  Reach-AllRight a (next r st) = Step-AllRight st (Reach-AllRight a r)

  -- However the requests and the workers run: every round that is over was the round of a task that
  -- the handler made; it deleted the task unless it ended for want of a handle of curl or in a
  -- download that failed; and if it reported, then to the URL of that task, with its `action_id`, its
  -- `table` and the place that the signatures name, each up to its first zero byte.
  pub Reach-Answers :
      (pool : Pool) (isstop : Bool) (world : c.fs.State) (v : Service c.fs.State)
      → Reach c (idle c pool isstop world) v
      → All (Answers v.server.tasks) v.finished
  Reach-Answers pool isstop world v r = (Reach-AllRight (tt, tt) r).1
