-- ===== src/ObjectPool/System.antt =====
-- The pool together with the handles that its clients hold: every interleaving of `get` and of the
-- end of a handle's life, in any order and by any client.
use calcsig.Common.{ℕ, ◌+◌, ◌≡◌, true, Bool, List, [], ◌∷◌, ◌++◌, map, count}
use calcsig.ObjectPool.{Handle, Pool, lent, null, threw, get, release, init}

pub record System : Type 0 where
  pub pool : Pool
  pub out : List Handle

abbrev pub objects : List Handle → List ℕ
objects = map λ h. h.object

-- How often an object is idle, lent or destroyed.
abbrev pub places : ℕ → System → ℕ
places a s =
    count a (objects s.pool.user_object_list) + count a (objects s.out) + count a s.pool.deleted

module _ (constructs : ℕ → Bool) where
  pub data Step (s : System) : System → Type 0 where
    take :
        (h : Handle) (q : Pool)
        → get constructs s.pool ≡ lent h q
        → Step s (record { pool = q; out = h ∷ s.out })
    refuse : (q : Pool) → get constructs s.pool ≡ null q → Step s (record s { pool = q })
    fail : (q : Pool) → get constructs s.pool ≡ threw q → Step s (record s { pool = q })
    give :
        (before after : List Handle) (h : Handle)
        → s.out ≡ before ++ h ∷ after
        → Step s (record { pool = release h s.pool; out = before ++ after })

  -- From `init(num, max)` with all its constructions done, while the pool lives.
  pub data Reach (num max : ℕ) : System → Type 0 where
    start :
        (p : Pool)
        → init constructs num max ≡ (p, true)
        → Reach num max (record { pool = p; out = [] })
    next : {s t : System} → Reach num max s → Step s t → Reach num max t
