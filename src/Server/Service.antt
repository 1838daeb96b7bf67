-- ===== src/Server/Service.antt =====
-- src/server.cpp: the loop of `thread_worker`, any number of its threads and the handler of the
-- requests, over one queue, one file system and one network. A thread is where it stands in the loop,
-- and `move` does its next step: a step is what is done while the mutex of the queue is held, or the
-- use of one of the calls that the threads share.
pub mod Cases
pub mod Woken
pub mod Awake
pub mod Alert
pub mod Stranded
pub mod Accounts
pub mod Answers
pub mod Files
pub mod Genuine
pub mod Undisturbed
pub mod Apart
pub mod DiskTests
pub mod Rounds
pub mod Serving
pub mod Served
pub mod Stopping
pub mod Progress
pub mod Tests
use calcsig.Common.{
  ℕ, ◌≡◌, ◌≢◌, All, ◌==◌, if◌then◌else◌, Bool, true, false, ◌&&◌, List, [], ◌∷◌, ◌++◌, length, drop,
  get_elem?, Option, none, some, ◌⊎◌,
}
use calcsig.Common.Text.{Str}
use calcsig.ThreadPool98.{Pool, Turn, waits, null_locked, takes, get_task, stop}
use calcsig.Utils.Directories.{FileSystem, mvfile}
use calcsig.Utils.CalcSig.{Md5, calc_sig}
use calcsig.Utils.RandString.{rand_string}
use calcsig.Server.Headers.{read_headers}
use calcsig.Server.Request.{
  EvBuffer, Json, HttpTask, Server, Handled, handled, Reply, Request, calcsig_process,
}
use calcsig.Server.Worker.{
  Transfer, Item, System, Result, tmp_dir_failed, no_curl, download_failed, sig_failed, mv_failed,
  no_callback, called_back, tmp_path, tmp_ready, item_of, target_path,
}

-- Before the test of `stop_status`; in `get_task`, where it is to take the mutex, or sleeps in
-- `pthread_cond_wait` and nobody has woken it; or in a round with a task: its pointer, the object
-- and what the round has in its variables. `writing` is `curl_easy_perform` with the parts of the body
-- that are still to come.
pub data Phase : Type 0 where
  top asks sleeps ended : Phase
  has : ℕ → HttpTask → Phase
  named : ℕ → HttpTask → Str → Phase
  ready : ℕ → HttpTask → Str → Phase
  opened : ℕ → HttpTask → Str → Phase
  writing : ℕ → HttpTask → Str → Transfer → List Str → Phase
  signing : ℕ → HttpTask → Str → ℕ → Phase
  moving : ℕ → HttpTask → Str → ℕ × ℕ → ℕ → Phase
  reporting : ℕ → HttpTask → Item → Phase

-- A round that is over: its task, whether that was deleted, and where the round ended.
pub record Finish : Type 0 where
  pub pointer : ℕ
  pub deleted : Bool
  pub result : Result

-- What the threads share; `locked` is the mutex of the queue.
pub record Shared (State : Type 0) : Type 0 where
  pub pool : Pool
  pub locked : Bool
  pub world : State

pub record Moved (State : Type 0) : Type 0 where
  pub shared : Shared State
  pub phase : Phase
  pub finished : List Finish

module _ {State : Type 0} where
  abbrev pub goes : Shared State → Phase → Moved State
  goes s ph = record { shared = s; phase = ph; finished = [] }

  -- `continue`, or the end of the loop's body.
  abbrev pub ends : Shared State → ℕ → Bool → Result → Moved State
  ends s i deleted result = record {
    shared = s;
    phase = top;
    finished = record { pointer = i; deleted = deleted; result = result } ∷ [];
  }

-- The libraries and the machine, and the two settings that a worker reads.
pub record Setting : Type 1 where
  pub fs : FileSystem
  pub sys : System fs
  pub md5 : Md5
  pub base_path : Str
  pub my_ip : Str
  pub ev : EvBuffer
  pub json : Json

module _ (c : Setting) where
  open c use {fs, sys, md5, base_path, my_ip}
  open fs use {State}
  open sys use {draw, create, append, unlink, reads, easy_init, fetch, post}

  -- `waits` and `takes` give the mutex back; `null_locked` does not.
  pub after_get_task : List HttpTask → Shared State → Turn → Option (Moved State)
  after_get_task tasks s waits = some (goes s sleeps)
  after_get_task tasks s null_locked = some (goes (record s { locked = true }) top)
  after_get_task tasks s (takes i q) = elim (get_elem? tasks i) [
    | none ↦ none
    | some t ↦ some (goes (record s { pool = q }) (has i t))
  ]

  pub after_tmp_ready : Shared State → ℕ → HttpTask → Str → State × Bool → Moved State
  after_tmp_ready s i t path (w, true) = goes (record s { world = w }) (ready i t path)
  after_tmp_ready s i t path (w, false) = ends (record s { world = w }) i true tmp_dir_failed

  pub after_mvfile : Shared State → ℕ → HttpTask → ℕ × ℕ → ℕ → State × Bool → Moved State
  after_mvfile s i t sigs n (w, true) =
      goes (record s { world = w }) (reporting i t (item_of fs sys md5 base_path my_ip t sigs n))
  after_mvfile s i t sigs n (w, false) = ends (record s { world = w }) i true mv_failed

  pub after_calc_sig : Shared State → ℕ → HttpTask → Str → ℕ → Option (ℕ × ℕ) → Moved State
  after_calc_sig s i t path n none = ends s i true sig_failed
  after_calc_sig s i t path n (some sigs) = goes s (moving i t path sigs n)

  -- `none` for a thread that cannot go on: it waits for the mutex, it sleeps, or it has returned.
  pub move : Bool → List HttpTask → Shared State → Phase → Option (Moved State)
  unfolding after_get_task after_tmp_ready after_mvfile after_calc_sig
  move isstop tasks s top = some (goes s (if isstop then ended else asks))
  move isstop tasks s ended = none
  move isstop tasks s sleeps = none
  move isstop tasks s asks = if s.locked then none else after_get_task tasks s (get_task s.pool)
  move isstop tasks s (has i t) =
      let (name, drawn) = rand_string draw 16 true true s.world in
      some (
        goes (record s { world = drawn })
          (named i t (tmp_path fs sys md5 base_path my_ip name t.file_format)))
  move isstop tasks s (named i t path) =
      some (after_tmp_ready s i t path (tmp_ready fs sys md5 base_path my_ip s.world))
  move isstop tasks s (ready i t path) =
      let made = record s { world = create path s.world } in
      some (
        if easy_init (create path s.world)
        then goes made (opened i t path)
        else ends made i false no_curl)
  move isstop tasks s (opened i t path) =
      let r = fetch t.src_url s.world in
      some (goes (record s { world = r.1 }) (writing i t path r.0 r.0.chunks))
  move isstop tasks s (writing i t path r (c ∷ cs)) =
      some (goes (record s { world = append path c s.world }) (writing i t path r cs))
  move isstop tasks s (writing i t path r []) = some (
      if r.ok && r.response_code == 200
      then goes s (signing i t path (read_headers r.headers 0))
      else ends (record s { world = unlink path s.world }) i false download_failed)
  move isstop tasks s (signing i t path n) =
      some (after_calc_sig s i t path n (calc_sig md5 (reads s.world path)).signature)
  move isstop tasks s (moving i t path sigs n) = some (
      after_mvfile s i t sigs n
        (mvfile fs path (target_path fs sys md5 base_path my_ip t sigs) s.world))
  move isstop tasks s (reporting i t item) = some (
      if easy_init s.world
      then ends (record s { world = (post t.callback_url item s.world).1 }) i true
          (called_back t.callback_url item)
      else ends s i false no_callback)

-- `added` records the pointers pushed to the queue and `finished` the rounds, the first first;
-- `isstop` is the member of the server, which `init` leaves as it is.
pub record Service (State : Type 0) : Type 0 where
  pub server : Server
  pub locked : Bool
  pub isstop : Bool
  pub world : State
  pub workers : List Phase
  pub added : List ℕ
  pub finished : List Finish

module _ {State : Type 0} where
  abbrev pub shared_of : Service State → Shared State
  shared_of v = record { pool = v.server.thread_pool; locked = v.locked; world = v.world }

  abbrev pub moved : Service State → List Phase → List Phase → Moved State → Service State
  moved v before after m = record v {
    server = record v.server { thread_pool = m.shared.pool };
    locked = m.shared.locked;
    world = m.shared.world;
    workers = before ++ m.phase ∷ after;
    finished = v.finished ++ m.finished;
  }

  -- What the handler has put behind the queue.
  abbrev pub pushed : Service State → Server → List ℕ
  pushed v server = drop (length v.server.thread_pool.task_queue) server.thread_pool.task_queue

  abbrev pub answered : Service State → Server → List Phase → Service State
  answered v server workers = record v {
    server = server;
    workers = workers;
    added = v.added ++ pushed v server;
  }

-- `pthread_cond_signal`: it wakes one of the threads that sleep, whichever, or nobody where none does.
pub data Signalled (ws : List Phase) : List Phase → Type 0 where
  nobody : All (λ ph. ph ≢ sleeps) ws → Signalled ws ws
  wakes_one :
      (before after : List Phase)
      → ws ≡ before ++ sleeps ∷ after
      → Signalled ws (before ++ asks ∷ after)

-- One signal for each task that was pushed.
abbrev pub Signals : List ℕ → List Phase → List Phase → Type 0
Signals [] ws us = us ≡ ws
Signals (i ∷ q) ws us = (vs : List Phase) × Signalled ws vs × Signals q vs us

module _ (c : Setting) where
  open c use {ev, json}

  -- A handler that adds a task needs the mutex, and signals before it gives it back; one that throws
  -- ends the program, and is no step. `wake` is a thread that wakes with no signal, which the manual of
  -- `pthread_cond_wait` allows.
  -- `join` is a thread that `start` or `adjust_thread` has created; `stop_server` is
  -- `httpServer::stop`, which sets `isstop` to false.
  pub data Step (v : Service c.fs.State) : Service c.fs.State → Type 0 where
    work :
        (before after : List Phase) (ph : Phase) (m : Moved c.fs.State)
        → v.workers ≡ before ++ ph ∷ after
        → move c v.isstop v.server.tasks (shared_of v) ph ≡ some m
        → Step v (moved v before after m)
    request :
        (r : Request ev json) (sent : Option Reply) (server : Server) (workers : List Phase)
        → calcsig_process ev json r v.server ≡ handled sent server
        → (v.locked ≡ false) ⊎ (server.thread_pool ≡ v.server.thread_pool)
        → Signals (pushed v server) v.workers workers
        → Step v (answered v server workers)
    wake :
        (before after : List Phase)
        → v.workers ≡ before ++ sleeps ∷ after
        → Step v (record v { workers = before ++ asks ∷ after })
    join : Step v (record v { workers = v.workers ++ top ∷ [] })
    halt :
        Step v (record v { server = record v.server { thread_pool = stop v.server.thread_pool } })
    stop_server : Step v (record v { isstop = false })

  pub data Reach (v : Service c.fs.State) : Service c.fs.State → Type 0 where
    here : Reach v v
    next : {u w : Service c.fs.State} → Reach v u → Step u w → Reach v w

  -- As `init` leaves it, with no thread.
  abbrev pub idle : Pool → Bool → c.fs.State → Service c.fs.State
  idle pool isstop world = record {
    server = record { thread_pool = pool; tasks = [] };
    locked = false;
    isstop = isstop;
    world = world;
    workers = [];
    added = [];
    finished = [];
  }
