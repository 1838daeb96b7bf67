-- ===== src/ObjectPool/Starvation.antt =====
-- What becomes of a pool whose clients take one object at a time and give it back.
use calcsig.Common.{
  ℕ, zero, suc, ◌+◌, ◌≤◌, ◌≡◌, refl, ap, sym, subst, arith, ◌∙◌, Bool, true, false, List, [], ◌∷◌,
  ◌++◌, map, count, length, All, All-append, append_assoc, append-nil,
}
use mathlib.Core.List.{map-append}
use calcsig.ObjectPool.{
  Handle, Pool, lent, null, threw, undefined, auto_create_ptr, plain, lend_front, expand_list, init,
  blank, get, recycle, run_deleter, release,
}
use calcsig.ObjectPool.System.{objects}
use calcsig.ObjectPool.Exclusive.{OneAt, expand_list-OneAt, count-objects-append}
use calcsig.ObjectPool.Bounds.{remove-front, expand_list-fields, expand_list-length}

abbrev IsOwn : Handle → Type 0
IsOwn h = h.deleter ≡ auto_create_ptr

-- The handles that `auto_create_ptr` puts back for the objects of these.
abbrev plainly : List Handle → List Handle
plainly = map λ h. record { object = h.object; deleter = plain }

abbrev Distinct : List Handle → Type 0
Distinct hs = (a : ℕ) → count a (objects hs) ≤ 1

module _ (constructs : ℕ → Bool) where
  -- A client takes an object and gives it back.
  pub cycle : Pool → Pool
  unfolding get release
  cycle p = elim (get constructs p) [
    | lent h q ↦ release h q
    | null q ↦ q
    | threw q ↦ q
    | undefined q ↦ q
  ]

  pub cycles : ℕ → Pool → Pool
  unfolding cycle
  cycles zero p = p
  cycles (suc n) p = cycles n (cycle p)

  get_front :
      (p : Pool) (h : Handle) (hs : List Handle)
      → p.user_object_list ≡ h ∷ hs
      → Distinct (h ∷ hs)
      → get constructs p ≡ lent h (record p { user_object_list = hs; used_num = suc p.used_num })
  unfolding get lend_front
  get_front p h hs e d = ground (arith, remove-front h hs (d h.object))

  cycle_own :
      (p : Pool) (h : Handle) (hs : List Handle)
      → p.user_object_list ≡ h ∷ hs
      → Distinct (h ∷ hs)
      → h.deleter ≡ auto_create_ptr
      → p.free_object ≡ false
      → p.cur_num ≤ p.init_num + suc p.used_num
      → cycle p ≡ record p { user_object_list = hs ++ plainly (h ∷ []) }
  unfolding cycle release run_deleter recycle
  cycle_own p h hs e d own live few = ground (arith, get_front p h hs e d)

  cycle_plain :
      (p : Pool) (h : Handle) (hs : List Handle)
      → p.user_object_list ≡ h ∷ hs
      → Distinct (h ∷ hs)
      → h.deleter ≡ plain
      → cycle p ≡ record p {
        user_object_list = hs;
        used_num = suc p.used_num;
        deleted = h.object ∷ p.deleted;
      }
  unfolding cycle release run_deleter
  cycle_plain p h hs e d own = ground (arith, get_front p h hs e d)

  Distinct-tail : (h : Handle) (hs : List Handle) → Distinct (h ∷ hs) → Distinct hs
  Distinct-tail h hs d a = omega (arith, d a)

  -- One round over the pool's own handles replaces each by a plain one.
  cycles_own :
      (xs ys : List Handle) (p : Pool)
      → p.user_object_list ≡ xs ++ plainly ys
      → Distinct (xs ++ plainly ys)
      → All IsOwn xs
      → p.free_object ≡ false
      → p.cur_num ≤ p.init_num + suc p.used_num
      → cycles (length xs) p ≡ record p { user_object_list = plainly (ys ++ xs) }
  unfolding cycles
  cycles_own [] ys p e d own live few =
      let e' : p.user_object_list ≡ plainly (ys ++ []) = rw append-nil e in ground arith
  cycles_own (x ∷ xs) ys p e d own live few =
      let next =
        cycles_own xs (ys ++ x ∷ [])
          (record p { user_object_list = (xs ++ plainly ys) ++ plainly (x ∷ []) })
          (simp (append_assoc, map-append))
          (λ a.
            rw
              (
                map-append _ ys (x ∷ []),
                count-objects-append a xs (plainly ys ++ plainly (x ∷ [])),
                count-objects-append a (plainly ys) (plainly (x ∷ [])),
              )
              (omega (arith, d a, count-objects-append a xs (plainly ys))))
          own.1 live few in
      ap (cycles (length xs)) (cycle_own p x (xs ++ plainly ys) e d own.0 live few)
      ∙ (rw (append_assoc ys (x ∷ []) xs) at next)

  -- The next round destroys the objects, and the counters still count them as used.
  cycles_plain :
      (xs : List Handle) (p : Pool)
      → p.user_object_list ≡ plainly xs
      → Distinct (plainly xs)
      → (q : Pool) × (cycles (length xs) p ≡ q)
        × (q.user_object_list ≡ [])
        × (q.cur_num ≡ p.cur_num)
        × (q.max_num ≡ p.max_num)
  unfolding cycles
  cycles_plain [] p e d = (p, refl, e, refl, refl)
  cycles_plain (x ∷ xs) p e d =
      let (q, eq, nil, cur, most) =
        cycles_plain xs
          (record p {
            user_object_list = plainly xs;
            used_num = suc p.used_num;
            deleted = x.object ∷ p.deleted;
          })
          refl (Distinct-tail (record { object = x.object; deleter = plain }) (plainly xs) d) in
      (
        q,
        ap (cycles (length xs))
              (cycle_plain p (record { object = x.object; deleter = plain }) (plainly xs) e d refl)
            ∙ eq,
        nil,
        cur,
        most,
      )

  module _ (never_throws : (n : ℕ) → constructs n ≡ true) where
    expand_list-IsOwn :
        (num : ℕ) (p : Pool)
        → All IsOwn p.user_object_list
        → All IsOwn (expand_list constructs num p).0.user_object_list
    unfolding expand_list
    expand_list-IsOwn zero p v = v
    expand_list-IsOwn (suc num) p v =
        rw (never_throws p.created, expand_list)
          (expand_list-IsOwn num _ (All-append IsOwn p.user_object_list _ v (refl, tt)))

cycles-add :
    (constructs : ℕ → Bool) (m n : ℕ) (p : Pool)
    → cycles constructs (m + n) p ≡ cycles constructs n (cycles constructs m p)
unfolding cycles
cycles-add constructs zero n p = ap (λ k. cycles constructs k p) {x = 0 + n} {y = n} (omega arith)
cycles-add constructs (suc m) n p =
    let e : suc m + n ≡ suc (m + n) = omega arith in
    rw e (cycles-add constructs m n (cycle constructs p))

objects-plainly : (hs : List Handle) → objects (plainly hs) ≡ objects hs
objects-plainly [] = refl
objects-plainly (h ∷ hs) = ap (◌∷◌ h.object) (objects-plainly hs)

-- Two rounds over a pool that holds only handles of its own and may not grow.
cycles-drained :
    (constructs : ℕ → Bool) (p : Pool)
    → All IsOwn p.user_object_list
    → Distinct p.user_object_list
    → p.free_object ≡ false
    → p.cur_num ≤ p.init_num + suc p.used_num
    → (q : Pool) × (cycles constructs (length p.user_object_list + length p.user_object_list) p ≡ q)
      × (q.user_object_list ≡ [])
      × (q.cur_num ≡ p.cur_num)
      × (q.max_num ≡ p.max_num)
cycles-drained constructs p own d live few =
    let l = p.user_object_list in
    let one = cycles_own constructs l [] p (sym (append-nil l)) (rw append-nil d) own live few in
    let (q, eq, nil, cur, most) =
      cycles_plain constructs l (record p { user_object_list = plainly l }) refl
        (λ a. rw (objects-plainly l) (d a)) in
    (
      q,
      cycles-add constructs (length l) (length l) p ∙ ap (cycles constructs (length l)) one ∙ eq,
      nil,
      cur,
      most,
    )

get_empty :
    (constructs : ℕ → Bool) (q : Pool)
    → q.user_object_list ≡ []
    → q.max_num ≤ q.cur_num
    → get constructs q ≡ null q
unfolding get
get_empty constructs q e le = ground arith

-- A pool made by `init(n, n)` whose constructors all return, and one client that takes an object and
-- gives it back `2 * n` times: then the pool holds no object, and `get` returns `nullptr` although
-- nobody holds a handle.
pub get-cycles :
    (constructs : ℕ → Bool) (n : ℕ) (p : Pool)
    → ((k : ℕ) → constructs k ≡ true)
    → init constructs n n ≡ (p, true)
    → ((cycles constructs (n + n) p).user_object_list ≡ [])
      × (get constructs (cycles constructs (n + n) p) ≡ null (cycles constructs (n + n) p))
unfolding init get
get-cycles constructs n p never_throws e =
    let made : (expand_list constructs n (blank n n)).0 ≡ p = ap (λ r. r.0) e in
    let fields = ap (λ r. r.0) (expand_list-fields constructs never_throws n (blank n n)) in
    let len : length p.user_object_list ≡ n =
      subst (λ q. length q.user_object_list ≡ n) made
        (omega (arith, expand_list-length constructs never_throws n (blank n n))) in
    let kept : (p.free_object ≡ false) × (p.cur_num ≡ n) × (p.init_num ≡ n) × (p.max_num ≡ n) =
      subst (λ q. (q.free_object ≡ false) × (q.cur_num ≡ n) × (q.init_num ≡ n) × (q.max_num ≡ n))
        made
        (
          ap (λ q. q.free_object) fields,
          ap (λ q. q.cur_num) fields,
          ap (λ q. q.init_num) fields,
          ap (λ q. q.max_num) fields,
        ) in
    let (q, eq, nil, cur, most) =
      cycles-drained constructs p
        (subst (λ q. All IsOwn q.user_object_list) made
          (expand_list-IsOwn constructs never_throws n (blank n n) tt))
        (λ a. omega (
          arith,
          subst (OneAt a 0) made (expand_list-OneAt constructs n a 0 (blank n n) (omega arith)),
        ))
        kept.0 (omega (arith, kept)) in
    let eq' : cycles constructs (n + n) p ≡ q =
      subst (λ m. cycles constructs (m + m) p ≡ q) len eq in
    subst (λ r. (r.user_object_list ≡ []) × (get constructs r ≡ null r)) (sym eq')
      (nil, get_empty constructs q nil (omega (arith, kept, cur, most)))
