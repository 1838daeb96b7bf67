-- ===== src/Server/Service/Woken.antt =====
-- threadpool/threadpool_98.hpp: what the signal to a thread that sleeps leaves as it was.
use calcsig.Common.{
  ℕ, ◌≡◌, sym, ap, subst, arith, List, [], ◌∷◌, ◌++◌, All, All-append, All-parts, total,
  total-append,
}
use calcsig.Server.Service.{Phase, asks, sleeps, Signalled, nobody, wakes_one, Signals}

module _ (P : Phase → Type 0) (wakes : P sleeps → P asks) where
  pub woken-All :
      (ws before after : List Phase)
      → ws ≡ before ++ sleeps ∷ after
      → All P ws
      → All P (before ++ asks ∷ after)
  woken-All ws before after place a =
      let (b, (s, r)) = All-parts P before (sleeps ∷ after) (subst (All P) place a) in
      All-append P before (asks ∷ after) b (wakes s, r)

  Signalled-All : {ws us : List Phase} → Signalled ws us → All P ws → All P us
  Signalled-All (nobody none_sleeps) a = a
  Signalled-All {ws} (wakes_one before after place) a = woken-All ws before after place a

  -- What holds of a thread that was woken, if it holds of one that sleeps, is kept.
  pub Signals-All : (q : List ℕ) (ws us : List Phase) → Signals q ws us → All P ws → All P us
  Signals-All [] ws us e a = subst (All P) (sym e) a
  Signals-All (i ∷ q) ws us (vs, one, more) a = Signals-All q vs us more (Signalled-All one a)

module _ (f : Phase → ℕ) (same : f asks ≡ f sleeps) where
  pub woken-total :
      (ws before after : List Phase)
      → ws ≡ before ++ sleeps ∷ after
      → total f (before ++ asks ∷ after) ≡ total f ws
  woken-total ws before after place = omega (
    arith,
    same,
    ap (total f) place,
    total-append f before (sleeps ∷ after),
    total-append f before (asks ∷ after),
  )

  Signalled-total : {ws us : List Phase} → Signalled ws us → total f us ≡ total f ws
  Signalled-total (nobody none_sleeps) = omega arith
  Signalled-total {ws} (wakes_one before after place) = woken-total ws before after place

  pub Signals-total : (q : List ℕ) (ws us : List Phase) → Signals q ws us → total f us ≡ total f ws
  Signals-total [] ws us e = ap (total f) e
  Signals-total (i ∷ q) ws us (vs, one, more) =
      omega (arith, Signals-total q vs us more, Signalled-total one)
