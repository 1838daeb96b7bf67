-- ===== src/Server/Service/Awake.antt =====
-- threadpool/threadpool_98.hpp: the signal of `add_task` and the threads that sleep in `get_task`.
use calcsig.Common.{
  ℕ, suc, ◌+◌, ◌≤◌, ◌≡◌, ◌≢◌, refl, sym, ap, ◌∙◌, arith, Bool, true, false, List, [], ◌∷◌, ◌++◌,
  All, length, total, total-append, inl, inr, ◌⊎◌,
}
use calcsig.ThreadPool98.{Pool, waits, null_locked, takes, get_task}
use calcsig.Server.Request.{HttpTask}
use calcsig.Server.Service.{
  Phase, top, asks, sleeps, ended, has, named, ready, opened, writing, signing, moving, reporting,
  Shared, Moved, Setting, Signalled, nobody, wakes_one, Signals, move,
}
use calcsig.Server.Service.Cases.{
  Always, top-Always, asks-Always, named-Always, ready-Always, writing-Always, signing-Always,
  moving-Always, reporting-Always,
}

-- Whether a worker is in `get_task` and awake, and whether it sleeps there.
abbrev pub awake : Phase → ℕ
awake asks = 1
awake _ = 0

abbrev pub asleep : Phase → ℕ
asleep sleeps = 1
asleep _ = 0

pub awake-asks : (ph : Phase) → (ph ≡ asks) ⊎ (awake ph ≡ 0)
awake-asks asks = inl refl
awake-asks top = inr refl
awake-asks sleeps = inr refl
awake-asks ended = inr refl
awake-asks (has i t) = inr refl
awake-asks (named i t path) = inr refl
awake-asks (ready i t path) = inr refl
awake-asks (opened i t path) = inr refl
awake-asks (writing i t path r left) = inr refl
awake-asks (signing i t path size) = inr refl
awake-asks (moving i t path sigs size) = inr refl
awake-asks (reporting i t item) = inr refl

get_task-waits :
    (p : Pool) (l : List ℕ) → p.task_queue ≡ l → get_task p ≡ waits → length p.task_queue ≡ 0
unfolding get_task
get_task-waits p [] queue e = ground arith
get_task-waits p (i ∷ l) queue e = absurd (ground arith)

get_task-null :
    (p : Pool) (l : List ℕ) → p.task_queue ≡ l → get_task p ≡ null_locked → p.is_stopped ≡ true
unfolding get_task
get_task-null p [] queue e = ground arith
get_task-null p (i ∷ l) queue e = ground arith

pub get_task-takes :
    (p : Pool) (l : List ℕ) (i : ℕ) (q : Pool)
    → p.task_queue ≡ l
    → get_task p ≡ takes i q
    → (length p.task_queue ≡ suc (length q.task_queue)) × (p.is_stopped ≡ q.is_stopped)
unfolding get_task
get_task-takes p [] i q queue e = absurd (ground arith)
get_task-takes p (j ∷ l) i q queue e = ground arith

-- No thread sleeps, or as many are awake in `get_task` as there are tasks.
abbrev pub Enough : ℕ → ℕ → ℕ → Type 0
Enough tasks sleeping waking = (sleeping ≡ 0) ⊎ (tasks ≤ waking)

-- The mutex is kept only behind a pool that is stopped, and no wake-up is lost in one that runs.
abbrev pub AlertAt : Pool → Bool → ℕ → ℕ → Type 0
AlertAt p locked sleeping waking =
    (locked ≡ true → p.is_stopped ≡ true)
    × (p.is_stopped ≡ false → Enough (length p.task_queue) sleeping waking)

module _ (c : Setting) (z a : ℕ) where
  -- The rest of the workers are `z` that sleep and `a` that are awake in `get_task`.
  abbrev pub With : Moved c.fs.State → Type 0
  With m = AlertAt m.shared.pool m.shared.locked (z + asleep m.phase) (a + awake m.phase)

  pub move-With :
      (isstop : Bool) (tasks : List HttpTask) (s : Shared c.fs.State) (ph : Phase)
      → AlertAt s.pool s.locked (z + asleep ph) (a + awake ph)
      → Always c With (move c isstop tasks s ph)
  unfolding move
  move-With isstop tasks s top h =
      top-Always c With isstop tasks s (λ e. h) (h.0, λ r. ground (arith, h.1 r))
  move-With isstop tasks s asks h =
      asks-Always c With isstop tasks s
        (λ free e. (h.0, λ r. inr (omega (arith, get_task-waits s.pool _ refl e))))
        (λ free e. (λ l. get_task-null s.pool _ refl e, λ r. cc (r, get_task-null s.pool _ refl e)))
        (λ i q t e found.
          let (shorter, same) = get_task-takes s.pool _ i q refl e in
          (λ l. sym same ∙ h.0 l, λ r. ground (arith, shorter, h.1 (same ∙ r))))
  move-With isstop tasks s ended h = tt
  move-With isstop tasks s sleeps h = tt
  move-With isstop tasks s (has i t) h = h
  move-With isstop tasks s (named i t path) h = named-Always c With isstop tasks s i t path (h, h)
  move-With isstop tasks s (ready i t path) h = ready-Always c With isstop tasks s i t path h h
  move-With isstop tasks s (opened i t path) h = h
  move-With isstop tasks s (writing i t path r (b ∷ bs)) h = h
  move-With isstop tasks s (writing i t path r []) h =
      writing-Always c With isstop tasks s i t path r (λ e. h) h
  move-With isstop tasks s (signing i t path size) h =
      signing-Always c With isstop tasks s i t path size (λ sigs e. h) h
  move-With isstop tasks s (moving i t path sigs size) h =
      moving-Always c With isstop tasks s i t path sigs size (h, h)
  move-With isstop tasks s (reporting i t item) h =
      reporting-Always c With isstop tasks s i t item h h

none-asleep : (ws : List Phase) → All (λ ph. ph ≢ sleeps) ws → total asleep ws ≡ 0
none-asleep [] h = refl
none-asleep (sleeps ∷ ws) h = absurd (h.0 refl)
none-asleep (top ∷ ws) h = omega (arith, none-asleep ws h.1)
none-asleep (asks ∷ ws) h = omega (arith, none-asleep ws h.1)
none-asleep (ended ∷ ws) h = omega (arith, none-asleep ws h.1)
none-asleep (has i t ∷ ws) h = omega (arith, none-asleep ws h.1)
none-asleep (named i t path ∷ ws) h = omega (arith, none-asleep ws h.1)
none-asleep (ready i t path ∷ ws) h = omega (arith, none-asleep ws h.1)
none-asleep (opened i t path ∷ ws) h = omega (arith, none-asleep ws h.1)
none-asleep (writing i t path r left ∷ ws) h = omega (arith, none-asleep ws h.1)
none-asleep (signing i t path size ∷ ws) h = omega (arith, none-asleep ws h.1)
none-asleep (moving i t path sigs size ∷ ws) h = omega (arith, none-asleep ws h.1)
none-asleep (reporting i t item ∷ ws) h = omega (arith, none-asleep ws h.1)

-- One more is awake, and one less sleeps.
pub woken-counts :
    (ws before after : List Phase)
    → ws ≡ before ++ sleeps ∷ after
    → (total awake (before ++ asks ∷ after) ≡ suc (total awake ws))
      × (suc (total asleep (before ++ asks ∷ after)) ≡ total asleep ws)
woken-counts ws before after place =
    let w = ap (total awake) place in
    let z = ap (total asleep) place in
    (
      omega (
        arith,
        w,
        total-append awake before (sleeps ∷ after),
        total-append awake before (asks ∷ after),
      ),
      omega (
        arith,
        z,
        total-append asleep before (sleeps ∷ after),
        total-append asleep before (asks ∷ after),
      ),
    )

Signalled-Enough :
    (ws us : List Phase) (n : ℕ)
    → Signalled ws us
    → Enough n (total asleep ws) (total awake ws)
    → Enough (suc n) (total asleep us) (total awake us)
Signalled-Enough ws us n (nobody none_sleeps) h = inl (none-asleep ws none_sleeps)
Signalled-Enough ws us n (wakes_one before after place) h =
    let (w, z) = woken-counts ws before after place in ground (arith, w, z, h)

-- Each task that is pushed wakes a thread, if one sleeps.
pub Signals-Enough :
    (q : List ℕ) (ws us : List Phase) (n : ℕ)
    → Signals q ws us
    → Enough n (total asleep ws) (total awake ws)
    → Enough (n + length q) (total asleep us) (total awake us)
Signals-Enough [] ws us n e h =
    let z = ap (total asleep) e in let w = ap (total awake) e in ground (arith, z, w, h)
Signals-Enough (i ∷ q) ws us n (vs, one, more) h =
    ground (arith, Signals-Enough q vs us (suc n) more (Signalled-Enough ws vs n one h))
