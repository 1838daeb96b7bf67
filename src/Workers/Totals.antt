-- ===== src/Workers/Totals.antt =====
-- A statement about the pool and the sums over its threads holds in every system that is reached, if
-- each step of a thread keeps it.
use calcsig.Common.{
  ℕ, ◌+◌, ◌≡◌, refl, sym, subst, arith, Bool, true, false, if◌then◌else◌, List, [], ◌∷◌, ◌++◌,
  total, total-append, Option, none, some,
}
use calcsig.Workers.{
  Pool, Moved, Worker, System, Step, act, clear, add, halt, emplace, halted, Reach, here, next,
}

-- The sum of each weight, for one thread, the rest and some new ones.
abbrev pub sum_of : {Phase : Type 0} → Phase → List Phase → List Phase → (Phase → ℕ) → ℕ
sum_of ph rest new f = f ph + (total f rest + total f new)

module _ {Phase : Type 0} (Good : Pool → ((Phase → ℕ) → ℕ) → Type 0) (rest : List Phase) where
  abbrev pub After : Option (Moved Phase) → Type 0
  After none = Unit
  After (some m) = Good m.pool (sum_of m.phase rest m.started)

  pub if-After :
      (b : Bool) (m k : Option (Moved Phase))
      → (b ≡ true → After m)
      → (b ≡ false → After k)
      → After (if b then m else k)
  if-After true m k f g = f refl
  if-After false m k f g = g refl

pub record Kept (worker : Worker) : Type 1 where
  pub Good : Pool → ((worker.Phase → ℕ) → ℕ) → Type 0
  pub Good-move :
      (p : Pool) (ph : worker.Phase) (rest : List worker.Phase)
      → Good p (sum_of ph rest [])
      → After Good rest (worker.move p ph)
  pub Good-emplace :
      (task : ℕ) (p : Pool) (v : (worker.Phase → ℕ) → ℕ) → Good p v → Good (emplace task p) v
  pub Good-halted : (p : Pool) (v : (worker.Phase → ℕ) → ℕ) → Good p v → Good (halted p) v

module _ {worker : Worker} (k : Kept worker) where
  abbrev pub IsGood : System worker → Type 0
  IsGood s = k.Good s.pool (λ f. total f s.threads)

  Step-IsGood : {s t : System worker} → Step s t → IsGood s → IsGood t
  Step-IsGood {s} (act before after ph m e h) v =
      subst (k.Good m.pool) (λ i f. sym (sum_moved f) i)
        (subst (After k.Good (before ++ after)) h
          (k.Good-move s.pool ph (before ++ after) (subst (k.Good s.pool) (λ i f. sum_here f i) v)))
    where
      sum_here : (f : worker.Phase → ℕ) → total f s.threads ≡ sum_of ph (before ++ after) [] f
      sum_here f =
          rw e (omega (arith, total-append f before (ph ∷ after), total-append f before after))

      sum_moved :
          (f : worker.Phase → ℕ)
          → total f (before ++ m.phase ∷ (after ++ m.started))
            ≡ sum_of m.phase (before ++ after) m.started f
      sum_moved f = omega (
        arith,
        total-append f before (m.phase ∷ (after ++ m.started)),
        total-append f after m.started,
        total-append f before after,
      )
  Step-IsGood (clear task e) v = v
  Step-IsGood {s} (add before after task f e) v = k.Good-emplace task s.pool _ v
  Step-IsGood {s} halt v = k.Good-halted s.pool _ v

  pub Reach-IsGood : {s t : System worker} → IsGood s → Reach s t → IsGood t
  Reach-IsGood v here = v
  Reach-IsGood v (next r st) = Step-IsGood st (Reach-IsGood v r)
