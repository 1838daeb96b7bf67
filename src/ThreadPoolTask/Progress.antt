-- ===== src/ThreadPoolTask/Progress.antt =====
-- threadpool/threadpooltask.hpp: the threads never block each other for good.
use calcsig.Common.{
  ℕ, zero, suc, ◌+◌, ◌≤◌, ◌≡◌, ◌⊎◌, inl, inr, refl, ap, arith, if◌then◌else◌, Bool, true, false,
  Bool-cases, List, [], ◌∷◌, ◌++◌, total, Option, none, some,
}
use calcsig.Workers.{Pool, Moved}
use calcsig.ThreadPoolTask.{
  Phase, top, waits, took, running, ran, grows, adds, counts, shrinks, drops, ended, stopped, move,
  pop_task, should_add, should_drop,
}
use calcsig.ThreadPoolTask.Counts.{live, holds, gone}

abbrev pub IsSome : Option (Moved Phase) → Type 0
IsSome o = (m : Moved Phase) × (o ≡ some m)

-- Some thread can do its next step.
abbrev pub CanMove : Pool → List Phase → Type 0
CanMove p ths =
    (before : List Phase) × (after : List Phase) × (ph : Phase) × (ths ≡ before ++ ph ∷ after)
    × IsSome (move p ph)

-- Where the threads weigh something, one of them does.
abbrev Found : (Phase → ℕ) → List Phase → Type 0
Found w ths =
    (before : List Phase) × (after : List Phase) × (ph : Phase) × (ths ≡ before ++ ph ∷ after)
    × (1 ≤ w ph)

cons-Found :
    (w : Phase → ℕ) (ph : Phase) (ths : List Phase) (k : ℕ)
    → w ph ≡ k
    → 1 ≤ k + total w ths
    → (1 ≤ total w ths → Found w ths)
    → Found w (ph ∷ ths)
cons-Found w ph ths zero e h later =
    let (before, after, ph', split, heavy) = later (omega (arith, h)) in
    (ph ∷ before, after, ph', ap (◌∷◌ ph) split, heavy)
cons-Found w ph ths (suc k) e h later = ([], ths, ph, refl, omega (arith, e))

total-Found : (w : Phase → ℕ) (ths : List Phase) → 1 ≤ total w ths → Found w ths
total-Found w [] h = absurd (omega arith)
total-Found w (ph ∷ ths) h = cons-Found w ph ths (w ph) refl h (λ k. total-Found w ths k)

if-IsSome :
    (b : Bool) (m k : Option (Moved Phase)) → IsSome m → IsSome k → IsSome (if b then m else k)
if-IsSome true m k f g = f
if-IsSome false m k f g = g

holder-IsSome : (p : Pool) (ph : Phase) → 1 ≤ holds ph → IsSome (move p ph)
unfolding move
holder-IsSome p (grows n) h = if-IsSome (should_add n p) _ _ (_, refl) (_, refl)
holder-IsSome p (adds n) h = (_, refl)
holder-IsSome p (counts n) h = (_, refl)
holder-IsSome p (shrinks n) h = if-IsSome (should_drop n p) _ _ (_, refl) (_, refl)
holder-IsSome p drops h = (_, refl)
holder-IsSome p _ h = absurd (omega arith)

-- Neither returned nor stopped.
abbrev able : Phase → ℕ
able ended = 0
able stopped = 0
able _ = 1

live-able : (ths : List Phase) → total live ths ≡ total able ths + total gone ths
live-able [] = omega arith
live-able (ended ∷ ths) = omega (arith, live-able ths)
live-able (stopped ∷ ths) = omega (arith, live-able ths)
live-able (_ ∷ ths) = omega (arith, live-able ths)

if_false-IsSome :
    (b : Bool) (m k : Option (Moved Phase)) → b ≡ false → IsSome k → IsSome (if b then m else k)
if_false-IsSome true m k e f = cc
if_false-IsSome false m k e f = f

pop_task-IsSome :
    (p : Pool) (l : List ℕ) (task : ℕ) (rest : List ℕ) → l ≡ task ∷ rest → IsSome (pop_task p l)
unfolding pop_task
pop_task-IsSome p [] task rest e = cc
pop_task-IsSome p (t ∷ ts) task rest e = (_, refl)

able-IsSome :
    (p : Pool) (ph : Phase) (task : ℕ) (rest : List ℕ)
    → p.m_lock ≡ false
    → p.tasks ≡ task ∷ rest
    → 1 ≤ able ph
    → IsSome (move p ph)
unfolding move pop_task
able-IsSome p top task rest free e h = if-IsSome p.is_stopped _ _ (_, refl) (_, refl)
able-IsSome p waits task rest free e h =
    if_false-IsSome p.m_lock none _ free (pop_task-IsSome p p.tasks task rest e)
able-IsSome p (took t n) task rest free e h = (_, refl)
able-IsSome p (running t n) task rest free e h = (_, refl)
able-IsSome p (ran n) task rest free e h = if_false-IsSome p.m_lock none _ free (_, refl)
able-IsSome p ended task rest free e h = absurd (omega arith)
able-IsSome p stopped task rest free e h = absurd (omega arith)
able-IsSome p (grows n) task rest free e h = holder-IsSome p (grows n) (omega arith)
able-IsSome p (adds n) task rest free e h = (_, refl)
able-IsSome p (counts n) task rest free e h = (_, refl)
able-IsSome p (shrinks n) task rest free e h = holder-IsSome p (shrinks n) (omega arith)
able-IsSome p drops task rest free e h = (_, refl)

-- A task waits, and no thread is gone: some thread moves.
pub tasks-CanMove :
    (p : Pool) (ths : List Phase)
    → total holds ths ≡ (if p.m_lock then 1 else 0)
    → 1 ≤ total live ths
    → (p.is_stopped ≡ true) ⊎ (total gone ths ≡ 0)
    → (p.is_stopped ≡ true) ⊎ (p.tasks ≡ []) ⊎ CanMove p ths
tasks-CanMove p ths held alive (inl stop) = inl stop
tasks-CanMove p ths held alive (inr none_gone) = elim (Bool-cases p.m_lock) [
  | inl locked ↦
      let (before, after, ph, split, heavy) = total-Found holds ths (ground (arith, locked)) in
      inr (inr (before, after, ph, split, holder-IsSome p ph heavy))
  | inr free ↦ at_queue free p.tasks refl
]
  where
    at_queue :
        p.m_lock ≡ false
        → (l : List ℕ) → p.tasks ≡ l
        → (p.is_stopped ≡ true) ⊎ (p.tasks ≡ []) ⊎ CanMove p ths
    at_queue free [] e = inr (inl e)
    at_queue free (task ∷ rest) e =
        let (before, after, ph, split, heavy) =
          total-Found able ths (omega (arith, live-able ths, none_gone, alive)) in
        inr (inr (before, after, ph, split, able-IsSome p ph task rest free e heavy))
