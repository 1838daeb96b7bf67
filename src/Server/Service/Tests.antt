-- ===== src/Server/Service/Tests.antt =====
-- A server with one worker, on a machine that has nothing to remember.
use calcsig.Common.{
  List, length, total, ◌≤◌, ◌≡◌, refl, true, false, [], ◌∷◌, ◌++◌, All, some, none, ◌⊎◌, inl, inr,
}
use calcsig.Common.Text.{Str, codes}
use calcsig.Utils.Directories.{FileSystem}
use calcsig.Utils.RandString.{rand_string}
use calcsig.ThreadPool98.{new_pool, get_task, push_task, stop}
use calcsig.Server.Request.{ok_reply}
use calcsig.Server.Request.Tests.{
  toy_ev, toy_json, toy_request, toy_request_lem, x_task, busy_server,
}
use calcsig.Server.Worker.{Transfer, System, tmp_path, tmp_dir, tmp_ready, download_failed}
use calcsig.Server.Service.{
  Phase, top, asks, sleeps, ended, nobody, wakes_one, has, named, ready, opened, writing, Setting,
  Service, Step, work, request, join, Reach, here, next, idle, shared_of, answered, moved, goes,
  ends, move, after_get_task, after_tmp_ready,
}
use calcsig.Server.Service.Accounts.{Accounted, Reach-Accounted}
use calcsig.Server.Service.Answers.{Answers, Reach-Answers}
use calcsig.Server.Service.Awake.{awake, asleep}
use calcsig.Server.Service.Stranded.{PromptedReach, stay, then_prompted, halt-strands}
use calcsig.Server.Service.Progress.{Reach-moves}
use calcsig.Server.Service.Serving.{served, Works}
use calcsig.Server.Service.Served.{Reach-served}

abbrev still_fs : FileSystem
still_fs = record {
  State = Unit;
  access_rw = λ s d. true;
  access_rwx = λ s d. true;
  mkdir = λ d s. (s, true);
  rename = λ src dst s. (s, true);
}

-- The server that is asked does not have the file.
abbrev not_found : Transfer
not_found = record { headers = []; chunks = codes "none" ∷ []; ok = true; response_code = 404 }

abbrev still_sys : System still_fs
still_sys = record {
  draw = λ s. (0, s);
  access_rw_x = λ s d. true;
  create = λ d s. s;
  append = λ d bytes s. s;
  unlink = λ d s. s;
  reads = λ s d. none;
  easy_init = λ s. true;
  fetch = λ url s. (not_found, s);
  post = λ url item s. (not_found, s);
}

abbrev toy : Setting
toy = record {
  fs = still_fs;
  sys = still_sys;
  md5 = record { Ctx = Str; md5_init = []; update = λ c s. c ++ s; final = λ c i. 0 };
  base_path = codes "/data";
  my_ip = codes "::1";
  ev = toy_ev;
  json = toy_json;
}

abbrev start : Service Unit
start = idle toy (new_pool 1 1 4) false tt

abbrev accepted : Service Unit
accepted = answered start busy_server []

start_accepts : Step toy start accepted
unfolding new_pool push_task
start_accepts =
    request toy_request (some ok_reply) busy_server [] toy_request_lem (inl refl)
      ([], nobody tt, refl)

abbrev joined : Service Unit
joined = record accepted { workers = top ∷ [] }

abbrev path : Str
path =
    tmp_path still_fs still_sys toy.md5 toy.base_path toy.my_ip
      (rand_string still_sys.draw 16 true true tt).0 (codes "x")

abbrev asking : Service Unit
asking = moved joined [] [] (goes (shared_of joined) asks)

abbrev taken : Service Unit
taken =
    moved asking [] [] (goes (record (shared_of asking) { pool = new_pool 1 1 4 }) (has 0 x_task))

start-asking : Reach toy start asking
unfolding move
start-asking =
    next (next (next here start_accepts) join)
      (work [] [] top (goes (shared_of joined) asks) refl refl)

start-taken : Reach toy start taken
unfolding move after_get_task get_task push_task new_pool
start-taken = next start-asking (
    work [] [] asks (goes (record (shared_of asking) { pool = new_pool 1 1 4 }) (has 0 x_task)) refl
      refl)

abbrev at_phase : Phase → Service Unit
at_phase ph = moved taken [] [] (goes (shared_of taken) ph)

abbrev over : Service Unit
over = moved taken [] [] (ends (shared_of taken) 0 false download_failed)

taken-over : Reach toy taken over
unfolding move after_tmp_ready tmp_ready tmp_dir
taken-over =
    let go : (from to : Phase)
        → move toy false (x_task ∷ []) (shared_of taken) from ≡ some (goes (shared_of taken) to)
        → Step toy (at_phase from) (at_phase to) =
      λ from to e. work [] [] from (goes (shared_of taken) to) refl e in
    next
      (next
        (next
          (next
            (next (next here (go (has 0 x_task) (named 0 x_task path) refl))
              (go (named 0 x_task path) (ready 0 x_task path) refl))
            (go (ready 0 x_task path) (opened 0 x_task path) refl))
          (go (opened 0 x_task path) (writing 0 x_task path not_found not_found.chunks) refl))
        (go (writing 0 x_task path not_found not_found.chunks) (writing 0 x_task path not_found [])
          refl))
      (work [] [] (writing 0 x_task path not_found [])
        (ends (shared_of taken) 0 false download_failed) refl refl)

trans : {u v w : Service Unit} → Reach toy u v → Reach toy v w → Reach toy u w
trans r here = r
trans r (next s st) = next (trans r s) st

start-over : Reach toy start over
start-over = trans start-taken taken-over

Reach-Accounted_example : Accounted toy 0 over
Reach-Accounted_example = Reach-Accounted toy 0 1 1 4 false tt over start-over

Reach-Answers_example : All (Answers over.server.tasks) over.finished
Reach-Answers_example = Reach-Answers toy (new_pool 1 1 4) false tt over start-over

-- The queue is empty again, so another worker falls asleep.
abbrev joined_again : Service Unit
joined_again = record over { workers = top ∷ top ∷ [] }

abbrev entering : Service Unit
entering = moved joined_again (top ∷ []) [] (goes (shared_of joined_again) asks)

abbrev waiting : Service Unit
waiting = moved entering (top ∷ []) [] (goes (shared_of entering) sleeps)

start-waiting : Reach toy start waiting
unfolding move after_get_task get_task new_pool
start-waiting =
    next
      (next (next start-over join)
        (work (top ∷ []) [] top (goes (shared_of joined_again) asks) refl refl))
      (work (top ∷ []) [] asks (goes (shared_of entering) sleeps) refl refl)

Reach-moves_example :
    ((sleeps ≡ ended) × (false ≡ true))
    ⊎ (((sleeps ≡ asks) × (waiting.locked ≡ true) × (waiting.server.thread_pool.is_stopped ≡ true))
        ⊎ ((sleeps ≡ sleeps)
            × ((waiting.server.thread_pool.is_stopped ≡ true)
                ⊎ (length waiting.server.thread_pool.task_queue ≤ total awake waiting.workers))))
unfolding move
Reach-moves_example =
    Reach-moves toy 1 1 4 false tt waiting (top ∷ []) [] sleeps start-waiting refl refl

-- Two workers fall asleep before the first request; it wakes the first of them.
abbrev sleepers : List Phase → Service Unit
sleepers ws = record start { workers = ws }

start-asleep : Reach toy start (sleepers (sleeps ∷ sleeps ∷ []))
unfolding move after_get_task get_task new_pool
start-asleep =
    let go : (before after : List Phase) (from to : Phase)
        → move toy false [] (shared_of start) from ≡ some (goes (shared_of start) to)
        → Step toy (sleepers (before ++ from ∷ after)) (sleepers (before ++ to ∷ after)) =
      λ before after from to e. work before after from (goes (shared_of start) to) refl e in
    next
      (next
        (next (next (next (next here join) join) (go [] (top ∷ []) top asks refl))
          (go [] (top ∷ []) asks sleeps refl))
        (go (sleeps ∷ []) [] top asks refl))
      (go (sleeps ∷ []) [] asks sleeps refl)

abbrev signalled : Service Unit
signalled = answered (sleepers (sleeps ∷ sleeps ∷ [])) busy_server (asks ∷ sleeps ∷ [])

start-signalled : Reach toy start signalled
unfolding new_pool push_task
start-signalled = next start-asleep (
    request toy_request (some ok_reply) busy_server (asks ∷ sleeps ∷ []) toy_request_lem (inl refl)
      (asks ∷ sleeps ∷ [], wakes_one [] (sleeps ∷ []) refl, refl))

-- The queue is served, although the second still sleeps.
Reach-served_example : Works toy signalled (served toy signalled)
unfolding new_pool push_task
Reach-served_example =
    Reach-served toy 1 1 4 false tt signalled (asks ∷ []) [] sleeps start-signalled refl (inr refl)
      refl refl refl

-- The pool is stopped, and a worker that comes later finds that out and keeps the mutex.
abbrev stopped_with : List Phase → Service Unit
stopped_with ws = record (sleepers ws) {
  server = record start.server { thread_pool = stop start.server.thread_pool };
}

abbrev kept : Service Unit
kept = record (stopped_with (sleeps ∷ sleeps ∷ top ∷ [])) { locked = true }

stopped_with-kept : PromptedReach toy (stopped_with (sleeps ∷ sleeps ∷ [])) kept
unfolding move after_get_task get_task new_pool stop
stopped_with-kept =
    let asleep_two : List Phase = sleeps ∷ sleeps ∷ [] in
    then_prompted
      (then_prompted (then_prompted stay join tt)
        (work asleep_two [] top (goes (shared_of (stopped_with [])) asks) refl refl) tt)
      (work asleep_two [] asks (goes (record (shared_of (stopped_with [])) { locked = true }) top)
        refl refl)
      tt

halt-strands_example :
    (kept.server.thread_pool.is_stopped ≡ true)
    × (total asleep kept.workers ≡ total asleep (sleeps ∷ sleeps ∷ []))
halt-strands_example = halt-strands toy (sleepers (sleeps ∷ sleeps ∷ [])) kept stopped_with-kept
