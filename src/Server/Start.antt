-- ===== src/Server/Start.antt =====
-- src/server.cpp: `httpServer::start`. It starts the workers and waits on `init_cond` until `threadnum`
-- of them have registered, which is the first thing that `thread_worker` does; then it sets up the
-- server of libevent. A number `threadnum` below 0 is as 0.
use calcsig.Common.{
  ℕ, zero, suc, ◌+◌, ◌*◌, ◌≤◌, ◌<◌, ◌≡◌, ◌⊎◌, inl, inr, refl, arith, ltb, if◌then◌else◌, Bool, List,
  [], ◌∷◌,
}
use calcsig.Common.Text.{Str, codes}
use calcsig.ThreadPool98.{new_pool}

-- Where the thread of `start` stands: it creates workers, it has `init_lock` to be taken before the test
-- of its loop, it sleeps in `pthread_cond_wait`, it is past the loop, or an exception has left.
pub data Main : Type 0 where
  creates : ℕ → Main
  tests : Main
  sleeps : Main
  passed : Main
  threw : Main

-- `arriving` is the number of workers that have not registered.
pub record Latch : Type 0 where
  pub main : Main
  pub threadnum : ℕ
  pub init_count : ℕ
  pub arriving : ℕ

-- `pthread_cond_signal`.
unfoldable pub signal : Main → Main
signal sleeps = tests
signal m = m

-- What a worker does under `init_lock`.
unfoldable pub register : Latch → Latch
unfolding signal
register s = record s { init_count = s.init_count + 1; main = signal s.main }

-- One turn of the loop of `start`, under `init_lock`.
unfoldable pub test : Latch → Latch
test s = record s { main = if ltb s.init_count s.threadnum then sleeps else passed }

pub data Step (s : Latch) : Latch → Type 0 where
  create :
      (left : ℕ)
      → s.main ≡ creates (suc left)
      → Step s (record s { main = creates left; arriving = suc s.arriving })
  fail : (left : ℕ) → s.main ≡ creates (suc left) → Step s (record s { main = threw })
  created : s.main ≡ creates zero → Step s (record s { main = tests })
  turn : s.main ≡ tests → Step s (test s)
  arrive : (n : ℕ) → s.arriving ≡ suc n → Step s (register (record s { arriving = n }))

pub data Reach (s : Latch) : Latch → Type 0 where
  here : Reach s s
  next : {t u : Latch} → Reach s t → Step t u → Reach s u

-- `init_count = 0`, and the loop of `threadpool_98::start` before it.
abbrev pub start : ℕ → ℕ → ℕ → Latch
start threadnum threadmax queue_max_size = record {
  main = creates (new_pool threadnum threadmax queue_max_size).min_thread;
  threadnum = threadnum;
  init_count = 0;
  arriving = 0;
}

-- The handlers that are set.
pub data Handler : Type 0 where
  test_process : Handler
  calcsig_process : Handler
  other_process : Handler

pub record Routes : Type 0 where
  pub callbacks : List (Str × Handler)
  pub generic : Handler

-- What `start` comes to behind the wait: the return of -1, or the server runs, and 0 is returned when
-- `event_base_dispatch` does.
pub data Served : Type 0 where
  failed : Served
  dispatched : Routes → Served

-- `base` and `http` say whether `event_base_new` and `evhttp_new` return an object; `bound` whether
-- `evhttp_bind_socket` returns 0.
pub serve : Bool → Bool → Bool → Served
serve base http bound =
    if base
    then (if http
        then (if bound
            then dispatched (record {
              callbacks = (codes "/test", test_process) ∷ (codes "/calcsig", calcsig_process) ∷ [];
              generic = other_process;
            })
            else failed)
        else failed)
    else failed

-- The workers to be created.
abbrev to_create : Main → ℕ
to_create (creates n) = n
to_create _ = 0

-- One for each thing that can still happen: a worker is created, a worker registers, a turn.
abbrev stage : Main → ℕ
stage (creates n) = 4 * n + 4
stage tests = 3
stage sleeps = 1
stage passed = 0
stage threw = 0

abbrev pub remaining : Latch → ℕ
remaining s = stage s.main + 3 * s.arriving

-- Every worker is to be created, arriving or counted, if no creation failed; who sleeps waits for one.
record Counted (k : ℕ) (s : Latch) : Type 0 where
  same : s.threadnum ≡ k
  enough : (s.main ≡ threw) ⊎ (k ≤ to_create s.main + s.arriving + s.init_count)
  asleep : s.main ≡ sleeps → s.init_count < k
  beyond : s.main ≡ passed → k ≤ s.init_count

Step-Counted : (k : ℕ) {s t : Latch} → Step s t → Counted k s → Counted k t
unfolding register signal test
Step-Counted k {s} (create left e) c = ground arith
Step-Counted k {s} (fail left e) c = ground arith
Step-Counted k {s} (created e) c = ground arith
Step-Counted k {s} (turn e) c = ground arith
Step-Counted k {s} (arrive n e) c = ground arith

Reach-Counted : (k : ℕ) {s t : Latch} → Counted k s → Reach s t → Counted k t
Reach-Counted k c here = c
Reach-Counted k c (next r st) = Step-Counted k st (Reach-Counted k c r)

Step-remaining : {s t : Latch} → Step s t → remaining t < remaining s
unfolding register signal test
Step-remaining {s} (create left e) = ground arith
Step-remaining {s} (fail left e) = ground arith
Step-remaining {s} (created e) = ground arith
Step-remaining {s} (turn e) = ground arith
Step-remaining {s} (arrive n e) = ground arith

abbrev Goes : Latch → Type 0
Goes s = (s.main ≡ passed) ⊎ (s.main ≡ threw) ⊎ ((t : Latch) × Step s t)

-- A thread asleep has a worker that is still to come.
Counted-Goes :
    (k : ℕ) (s : Latch) (m : Main) (a : ℕ) → s.main ≡ m → s.arriving ≡ a → Counted k s → Goes s
Counted-Goes k s (creates zero) a e f c = inr (inr (_, created e))
Counted-Goes k s (creates (suc left)) a e f c = inr (inr (_, create left e))
Counted-Goes k s tests a e f c = inr (inr (_, turn e))
Counted-Goes k s sleeps zero e f c = absurd (ground (arith, c.asleep e))
Counted-Goes k s sleeps (suc n) e f c = inr (inr (_, arrive n f))
Counted-Goes k s passed a e f c = inl e
Counted-Goes k s threw a e f c = inr (inl e)

start-Counted : (k max q : ℕ) → Counted k (start k max q)
unfolding new_pool
start-Counted k max q = ground arith

-- However the threads run, `start` passes the wait unless a worker cannot be created: where it has
-- neither passed nor thrown some step can be done, and every step leaves less to be done; and once it
-- has passed at least `threadnum` workers have registered.
pub start-passes :
    (threadnum threadmax queue_max_size : ℕ) (s : Latch)
    → Reach (start threadnum threadmax queue_max_size) s
    → ((s.main ≡ passed) ⊎ (s.main ≡ threw) ⊎ ((t : Latch) × Step s t))
      × ((t : Latch) → Step s t → remaining t < remaining s)
      × (s.main ≡ passed → threadnum ≤ s.init_count)
start-passes threadnum threadmax queue_max_size s r =
    let c = Reach-Counted threadnum (start-Counted threadnum threadmax queue_max_size) r in
    (Counted-Goes threadnum s s.main s.arriving refl refl c, λ t st. Step-remaining st, c.beyond)
