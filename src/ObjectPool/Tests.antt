-- ===== src/ObjectPool/Tests.antt =====
-- Runs of the pool on small inputs, and the theorems at them.
use calcsig.Common.{
  ℕ, suc, ◌+◌, ◌≤◌, ◌<◌, ◌≡◌, refl, arith, ◌⊎◌, Bool, true, List, [], ◌∷◌, ◌++◌, count, length,
}
use calcsig.ObjectPool.{Handle, Pool, Got, lent, null, auto_create_ptr, plain, init, get, release}
use calcsig.ObjectPool.System.{System, places, take, give, Reach, start, next}
use calcsig.ObjectPool.Exclusive.{Reach-places}
use calcsig.ObjectPool.Bounds.{Reach-bounded, Reach-GetSpec}
use calcsig.ObjectPool.Starvation.{cycles, get-cycles}

abbrev always : ℕ → Bool
always n = true

abbrev own : ℕ → Handle
own n = record { object = n; deleter = auto_create_ptr }

abbrev pool_of : List Handle → ℕ → ℕ → ℕ → ℕ → Pool
pool_of hs cur used max made = record {
  user_object_list = hs;
  free_object = Bool.false;
  init_num = 1;
  cur_num = cur;
  used_num = used;
  max_num = max;
  created = made;
  deleted = [];
}

-- `init(1, 3)`, two `get`s (the second one doubles the pool), and the first handle given back.
abbrev busy : System
busy = record { pool = pool_of [] 2 2 3 2; out = own 1 ∷ own 0 ∷ [] }

abbrev after_one : System
after_one = record {
  pool = pool_of (record { object = 0; deleter = plain } ∷ []) 2 1 3 2;
  out = own 1 ∷ [];
}

busy-Reach : Reach always 1 3 busy
unfolding init get
busy-Reach =
    next (next (start (pool_of (own 0 ∷ []) 1 0 3 1) refl) (take (own 0) _ refl))
      (take (own 1) _ refl)

after_one-Reach : Reach always 1 3 after_one
unfolding release
after_one-Reach = next busy-Reach (give (own 1 ∷ []) [] (own 0) refl)

Reach-places_example : places 0 after_one ≤ 1
Reach-places_example = Reach-places always 1 3 after_one after_one-Reach 0

Reach-bounded_example :
    (length after_one.pool.user_object_list + length after_one.out ≤ after_one.pool.cur_num)
    × (1 ≤ after_one.pool.cur_num)
    × (after_one.pool.cur_num ≤ 3)
    × (length after_one.out ≤ after_one.pool.used_num)
Reach-bounded_example =
    Reach-bounded always 1 3 after_one (λ n. refl) (omega arith) (omega arith) after_one-Reach

Reach-GetSpec_example :
    ((0 < length after_one.pool.user_object_list) ⊎ (after_one.pool.cur_num < 3))
      × ((h : Handle) × (q : Pool) × (get always after_one.pool ≡ lent h q)
          × (q.used_num ≡ suc after_one.pool.used_num))
    ⊎ (length after_one.pool.user_object_list ≡ 0)
      × (after_one.pool.cur_num ≡ 3)
      × (get always after_one.pool ≡ null after_one.pool)
Reach-GetSpec_example =
    Reach-GetSpec always 1 3 after_one (λ n. refl) (omega arith) (omega arith) after_one-Reach

get-cycles_example :
    ((cycles always 4 (init always 2 2).0).user_object_list ≡ [])
    × (get always (cycles always 4 (init always 2 2).0)
        ≡ null (cycles always 4 (init always 2 2).0))
unfolding init
get-cycles_example = get-cycles always 2 (init always 2 2).0 (λ n. refl) refl

-- The first constructor works and the second throws: the pool has lent one object and holds none.
throws_second :
    get (λ n. calcsig.Common.ltb n 1) (pool_of [] 1 1 3 1) ≡ Got.threw (pool_of [] 1 1 3 2)
unfolding get
throws_second = refl
