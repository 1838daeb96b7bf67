-- ===== src/ObjectPool/Exclusive.antt =====
-- An object is never in two places: idle in the pool, lent to a client, or destroyed.
use mathlib.Core.List.{map-append}
use calcsig.Common.{
  ℕ, zero, suc, ◌+◌, ◌-◌, ◌≤◌, ◌≡◌, ◌==◌, refl, subst, arith, if◌then◌else◌, Bool, List, [], ◌∷◌,
  ◌++◌, count, count-append, inl, inr, Bool-cases,
}
use calcsig.ObjectPool.{
  Handle, Pool, Got, lent, null, threw, undefined, auto_create_ptr, plain, remove, lend_front,
  expand_list, grow, init, get, recycle, run_deleter, release, Deleter,
}
use calcsig.ObjectPool.System.{
  System, objects, places, Step, take, refuse, fail, give, Reach, start, next,
}

-- Object `a` has at most one place, counting `k` places outside the pool, and none before its
-- construction.
abbrev pub OneAt : ℕ → ℕ → Pool → Type 0
OneAt a k p =
    (count a (objects p.user_object_list) + k + count a p.deleted ≤ 1)
    × (p.created ≤ a → count a (objects p.user_object_list) + k + count a p.deleted ≡ 0)

abbrev OneGot : ℕ → ℕ → Got → Type 0
OneGot a k (lent h q) = OneAt a (k + (if h.object == a then 1 else 0)) q
OneGot a k (null q) = OneAt a k q
OneGot a k (threw q) = OneAt a k q
OneGot a k (undefined q) = OneAt a k q

pub count-objects-append :
    (a : ℕ) (xs ys : List Handle)
    → count a (objects (xs ++ ys)) ≡ count a (objects xs) + count a (objects ys)
count-objects-append a xs ys = rw (map-append _ xs ys) (count-append a (objects xs) (objects ys))

count-remove :
    (a o : ℕ) (hs : List Handle)
    → count a (objects (remove o hs)) ≡ (if o == a then 0 else count a (objects hs))
unfolding remove
count-remove a o [] = ground arith
count-remove a o (h ∷ hs) = ground (arith, count-remove a o hs)

lend_front-OneGot :
    (a k : ℕ) (p : Pool) (hs : List Handle)
    → p.user_object_list ≡ hs
    → OneAt a k p
    → OneGot a k (lend_front p)
unfolding lend_front
lend_front-OneGot a k p [] e v = rw (e, lend_front) v
lend_front-OneGot a k p (h ∷ hs) e v =
    let v' = rw e at v in
    rw (e, lend_front) (ground (arith, count-remove a h.object (h ∷ hs), v'.1))

module _ (constructs : ℕ → Bool) where
  pub expand_list-OneAt :
      (num : ℕ) (a k : ℕ) (p : Pool) → OneAt a k p → OneAt a k (expand_list constructs num p).0
  unfolding expand_list
  expand_list-OneAt zero a k p v = v
  expand_list-OneAt (suc num) a k p v = elim (Bool-cases (constructs p.created)) [
    | inl e ↦
        rw (e, expand_list)
          (expand_list-OneAt num a k _ (
            ground (
              arith,
              count-objects-append a p.user_object_list
                  (record { object = p.created; deleter = auto_create_ptr } ∷ []),
              v.1,
            )))
    | inr e ↦ rw (e, expand_list) (ground (arith, v.1))
  ]

  grow-OneGot :
      (num total a k : ℕ) (p : Pool) → OneAt a k p → OneGot a k (grow constructs num total p)
  unfolding grow
  grow-OneGot num total a k p v = elim (Bool-cases (expand_list constructs num p).1) [
    | inl e ↦
        rw (e, grow)
          (lend_front-OneGot a k (record (expand_list constructs num p).0 { cur_num = total }) _
            refl (expand_list-OneAt num a k p v))
    | inr e ↦ rw (e, grow) (expand_list-OneAt num a k p v)
  ]

  get-OneGot :
      (a k : ℕ) (p : Pool) (hs : List Handle)
      → p.user_object_list ≡ hs
      → OneAt a k p
      → OneGot a k (get constructs p)
  unfolding get
  get-OneGot a k p [] e v =
      rw (e, get)
        (ground (
          arith,
          grow-OneGot p.cur_num (p.cur_num + p.cur_num) a k p v,
          grow-OneGot (p.max_num - p.cur_num) p.max_num a k p v,
        ))
  get-OneGot a k p (h ∷ hs) e v = rw (e, get) (lend_front-OneGot a k p (h ∷ hs) e v)

recycle-OneAt :
    (a k t : ℕ) (p : Pool) → OneAt a (k + (if t == a then 1 else 0)) p → OneAt a k (recycle t p)
unfolding recycle
recycle-OneAt a k t p v = ground (
  arith,
  count-objects-append a p.user_object_list (record { object = t; deleter = plain } ∷ []),
  v.1,
)

run_deleter-OneAt :
    (a k : ℕ) (d : Deleter) (t : ℕ) (p : Pool)
    → OneAt a (k + (if t == a then 1 else 0)) p
    → OneAt a k (run_deleter d t p)
unfolding run_deleter
run_deleter-OneAt a k auto_create_ptr t p v = recycle-OneAt a k t p v
run_deleter-OneAt a k plain t p v = ground (arith, v.1)

-- A system where object `a` has at most one place, and none before its construction.
abbrev pub One : ℕ → System → Type 0
One a s = OneAt a (count a (objects s.out)) s.pool

module _ (constructs : ℕ → Bool) (a : ℕ) where
  Step-One : {s t : System} → Step constructs s t → One a s → One a t
  unfolding release
  Step-One {s} (take h q e) v =
      subst (OneGot a (count a (objects s.out))) e (get-OneGot constructs a _ s.pool _ refl v)
  Step-One {s} (refuse q e) v =
      subst (OneGot a (count a (objects s.out))) e (get-OneGot constructs a _ s.pool _ refl v)
  Step-One {s} (fail q e) v =
      subst (OneGot a (count a (objects s.out))) e (get-OneGot constructs a _ s.pool _ refl v)
  Step-One {s} (give before after h e) v =
      let back : count a (objects (before ++ after))
          ≡ count a (objects before) + count a (objects after) =
        count-objects-append a before after in
      let held : count a (objects (before ++ h ∷ after))
          ≡ count a (objects before) + count a (objects (h ∷ after)) =
        count-objects-append a before (h ∷ after) in
      run_deleter-OneAt a _ h.deleter h.object s.pool (rw (back) (ground (arith, v.1, rw e at v)))

  pub Reach-One : {num max : ℕ} {s : System} → Reach constructs num max s → One a s
  unfolding init
  Reach-One {num} (start p e) =
      subst (λ r. OneAt a 0 r.0) e (expand_list-OneAt constructs num a 0 _ (omega arith))
  Reach-One (next r st) = Step-One st (Reach-One r)

-- In every state that the pool and its clients reach, an object has one place at most: it is never
-- in the idle list twice, lent twice, idle while lent, or lent or idle once destroyed.
pub Reach-places :
    (constructs : ℕ → Bool) (num max : ℕ) (s : System)
    → Reach constructs num max s
    → (a : ℕ) → places a s ≤ 1
Reach-places constructs num max s r a = (Reach-One constructs a r).0
