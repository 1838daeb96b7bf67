-- ===== src/ObjectPool/Bounds.antt =====
-- The counters of the pool, when no constructor throws: the number of live objects stays within
-- `max_num`, and when `get` lends.
use native.Mathlib.Decide.{dec_le}
use calcsig.Common.{
  ℕ, zero, suc, ◌+◌, ◌-◌, ◌*◌, ◌≤◌, ◌<◌, ◌≡◌, refl, ap, subst, arith, ◌∙◌, Bool, true, false, List,
  [], ◌∷◌, ◌++◌, count, length, length-append, inl, inr, ◌⊎◌,
}
use calcsig.ObjectPool.{
  Handle, Pool, Got, lent, null, threw, undefined, Deleter, auto_create_ptr, plain, remove,
  lend_front, expand_list, grow, init, blank, get, recycle, run_deleter, release,
}
use calcsig.ObjectPool.System.{System, objects, Step, take, refuse, fail, give, Reach, start, next}
use calcsig.ObjectPool.Exclusive.{OneAt, One, expand_list-OneAt, Reach-One}

pub remove-absent : (o : ℕ) (hs : List Handle) → count o (objects hs) ≡ 0 → remove o hs ≡ hs
unfolding remove
remove-absent o [] e = refl
remove-absent o (h ∷ hs) e = ground (arith, remove-absent o hs)

pub remove-front :
    (h : Handle) (hs : List Handle)
    → count h.object (objects (h ∷ hs)) ≤ 1
    → remove h.object (h ∷ hs) ≡ hs
unfolding remove
remove-front h hs v = ground (arith, remove-absent h.object hs)

module _ (num max : ℕ) where
  -- The counters of a pool made by `init(num, max)`.
  pub record Sound (p : Pool) : Type 0 where
    pub live : p.free_object ≡ false
    pub init_is : p.init_num ≡ num
    pub max_is : p.max_num ≡ max
    pub accounts : length p.user_object_list + p.used_num ≡ p.cur_num
    pub at_most : p.cur_num ≤ max
    pub at_least : num ≤ p.cur_num

  -- The call lends an object, and counts it.
  abbrev pub Lends : ℕ → Got → Type 0
  Lends u r = (h : Handle) × (q : Pool) × (r ≡ lent h q) × Sound q × (q.used_num ≡ suc u)

  lend_front-Lends :
      (p : Pool) (hs : List Handle) (u : ℕ)
      → p.user_object_list ≡ hs
      → p.used_num ≡ u
      → ((a : ℕ) → count a (objects p.user_object_list) ≤ 1)
      → 0 < length p.user_object_list
      → Sound p
      → Lends u (lend_front p)
  unfolding lend_front
  lend_front-Lends p [] u e eu d l v = absurd (omega (arith, rw e at l))
  lend_front-Lends p (h ∷ hs) u e eu d l v =
      let d' = rw e at (d h.object) in
      let a' = rw e at v.accounts in
      (
        h,
        record p { user_object_list = hs; used_num = suc p.used_num },
        rw (e, lend_front) (rw (remove-front h hs d')),
        record {
          live = v.live;
          init_is = v.init_is;
          max_is = v.max_is;
          accounts = omega arith;
          at_most = v.at_most;
          at_least = v.at_least;
        },
        ap suc eu,
      )

module _ (constructs : ℕ → Bool) (never_throws : (n : ℕ) → constructs n ≡ true) where
  -- The loop completes, adds `num` handles and leaves the counters alone.
  pub expand_list-fields :
      (num : ℕ) (p : Pool)
      → expand_list constructs num p ≡ (
        record (expand_list constructs num p).0 {
          init_num = p.init_num;
          max_num = p.max_num;
          cur_num = p.cur_num;
          used_num = p.used_num;
          free_object = p.free_object;
          deleted = p.deleted;
        },
        true,
      )
  unfolding expand_list
  expand_list-fields zero p = refl
  expand_list-fields (suc num) p =
      rw (never_throws p.created, expand_list) (expand_list-fields num _)

  pub expand_list-length :
      (num : ℕ) (p : Pool)
      → length (expand_list constructs num p).0.user_object_list ≡ length p.user_object_list + num
  unfolding expand_list
  expand_list-length zero p = omega arith
  expand_list-length (suc num) p =
      rw (never_throws p.created, expand_list)
        (omega (
          arith,
          expand_list-length num (record p {
            user_object_list =
                p.user_object_list ++ record { object = p.created; deleter = auto_create_ptr } ∷ [];
            created = suc p.created;
          }),
          length-append p.user_object_list
              (record { object = p.created; deleter = auto_create_ptr } ∷ []),
        ))

  expand_list-done : (num : ℕ) (p : Pool) → (expand_list constructs num p).1 ≡ true
  expand_list-done num p = ap (λ r. r.1) (expand_list-fields num p)

  module _ (num max : ℕ) (some : 0 < num) where
    grow-Lends :
        (n total : ℕ) (p : Pool) (k : ℕ → ℕ)
        → ((a : ℕ) → OneAt a (k a) p)
        → Sound num max p
        → length p.user_object_list ≡ 0
        → 0 < n
        → total ≡ p.cur_num + n
        → total ≤ max
        → Lends num max p.used_num (grow constructs n total p)
    unfolding grow
    grow-Lends n total p k d v nil pos eq le =
        let fields = ap (λ r. r.0) (expand_list-fields n p) in
        let len = expand_list-length n p in
        let used = ap (λ q. q.used_num) fields in
        rw (expand_list-done n p, grow)
          (lend_front-Lends num max (record (expand_list constructs n p).0 { cur_num = total }) _
            p.used_num refl used
            (λ a. omega (arith, (expand_list-OneAt constructs n a (k a) p (d a)).0))
            (omega (arith, len))
            (record {
              live = ap (λ q. q.free_object) fields ∙ v.live;
              init_is = ap (λ q. q.init_num) fields ∙ v.init_is;
              max_is = ap (λ q. q.max_num) fields ∙ v.max_is;
              accounts = omega (arith, len, used, v.accounts);
              at_most = le;
              at_least = omega (arith, v.at_least);
            }))

    -- `get` on a sound pool: it lends while an object is idle or fewer than `max_num` exist, and
    -- otherwise returns `nullptr` and leaves the pool as it was.
    abbrev GetSpec : Pool → Got → Type 0
    GetSpec p r =
        ((0 < length p.user_object_list) ⊎ (p.cur_num < max)) × Lends num max p.used_num r
        ⊎ (length p.user_object_list ≡ 0) × (p.cur_num ≡ max) × (r ≡ null p)

    get-GetSpec :
        (p : Pool) (hs : List Handle) (k : ℕ → ℕ)
        → p.user_object_list ≡ hs
        → ((a : ℕ) → OneAt a (k a) p)
        → Sound num max p
        → GetSpec p (get constructs p)
    unfolding get
    get-GetSpec p [] k e d v = elim (dec_le p.max_num p.cur_num) [
      | yes full ↦ inr (rw e, omega (arith, v.at_most, v.max_is), ground arith)
      | no room ↦ elim (dec_le (p.cur_num * 2) p.max_num) [
        | yes twice ↦
            let r : get constructs p ≡ grow constructs p.cur_num (p.cur_num + p.cur_num) p =
              ground arith in
            inl (
              inr (omega (arith, v.max_is)),
              rw r (
                  grow-Lends p.cur_num (p.cur_num + p.cur_num) p k d v (rw e)
                    (omega (arith, v.at_least)) refl (omega (arith, v.max_is))),
            )
        | no once ↦
            let r : get constructs p ≡ grow constructs (p.max_num - p.cur_num) p.max_num p =
              ground arith in
            inl (
              inr (omega (arith, v.max_is)),
              rw r (
                  grow-Lends (p.max_num - p.cur_num) p.max_num p k d v (rw e) (omega arith)
                    (omega arith) (omega (arith, v.max_is))),
            )
      ]
    ]
    get-GetSpec p (h ∷ hs) k e d v = inl (
      inl (rw e (omega arith)),
      rw (e, get)
          (lend_front-Lends num max p (h ∷ hs) p.used_num e refl (λ a. omega (arith, (d a).0))
            (rw e (omega arith)) v),
    )

    abbrev pub SoundSystem : System → Type 0
    SoundSystem s = Sound num max s.pool × (length s.out ≤ s.pool.used_num)

    -- One proof for the three outcomes of `get`.
    abbrev After : System → Got → Type 0
    After s (lent h q) = SoundSystem (record { pool = q; out = h ∷ s.out })
    After s (null q) = SoundSystem (record s { pool = q })
    After s (threw q) = SoundSystem (record s { pool = q })
    After s (undefined q) = Unit

    get-After : (s : System) (r : Got) → GetSpec s.pool r → SoundSystem s → After s r
    get-After s r (inl (_, (h, q, e, v, u))) (_, le) = rw e (v, omega arith)
    get-After s r (inr (_, _, e)) v = rw e v

    release-SoundSystem :
        (p : Pool) (h : Handle) (d : Deleter) (n : ℕ)
        → Sound num max p
        → suc n ≤ p.used_num
        → Sound num max (run_deleter d h.object p) × (n ≤ (run_deleter d h.object p).used_num)
    unfolding run_deleter recycle
    release-SoundSystem p h auto_create_ptr n v le = ground (
      arith,
      v.live,
      v.accounts,
      v.init_is,
      v.at_most,
      v.at_least,
      length-append p.user_object_list (record { object = h.object; deleter = plain } ∷ []),
    )
    release-SoundSystem p h plain n v le = ground arith

    Step-SoundSystem :
        {s t : System} → Step constructs s t → ((a : ℕ) → One a s) → SoundSystem s → SoundSystem t
    unfolding release
    Step-SoundSystem {s} (take h q e) d v =
        subst (After s) e
          (get-After s _ (get-GetSpec s.pool _ (λ a. count a (objects s.out)) refl d v.0) v)
    Step-SoundSystem {s} (refuse q e) d v =
        subst (After s) e
          (get-After s _ (get-GetSpec s.pool _ (λ a. count a (objects s.out)) refl d v.0) v)
    Step-SoundSystem {s} (fail q e) d v =
        subst (After s) e
          (get-After s _ (get-GetSpec s.pool _ (λ a. count a (objects s.out)) refl d v.0) v)
    Step-SoundSystem {s} (give before after h e) d v =
        release-SoundSystem s.pool h h.deleter (length (before ++ after)) v.0 (
          omega
            (arith, ap length e, length-append before (h ∷ after), length-append before after, v.1))

    blank-Sound : num ≤ max → Sound num max (expand_list constructs num (blank num max)).0
    blank-Sound le =
        let fields = ap (λ r. r.0) (expand_list-fields num (blank num max)) in
        let len = expand_list-length num (blank num max) in
        let used = ap (λ q. q.used_num) fields in
        let cur = ap (λ q. q.cur_num) fields in
        record {
          live = ap (λ q. q.free_object) fields;
          init_is = ap (λ q. q.init_num) fields;
          max_is = ap (λ q. q.max_num) fields;
          accounts = omega (arith, len, used, cur);
          at_most = omega (arith, cur);
          at_least = omega (arith, cur);
        }

    Reach-SoundSystem : num ≤ max → {s : System} → Reach constructs num max s → SoundSystem s
    unfolding init
    Reach-SoundSystem le (start p e) =
        (subst (λ r. Sound num max r.0) e (blank-Sound le), omega arith)
    Reach-SoundSystem le (next r st) =
        Step-SoundSystem st (λ a. Reach-One constructs a r) (Reach-SoundSystem le r)

module _ (constructs : ℕ → Bool) (num max : ℕ) (s : System) where
  -- If no constructor throws and `1 <= num <= max`, then in every state that is reached the idle
  -- and the lent objects together are at most `cur_num`, which stays between `num` and `max`; and
  -- no handle is lent that `used_num` does not count.
  pub Reach-bounded :
      ((n : ℕ) → constructs n ≡ true)
      → 0 < num
      → num ≤ max
      → Reach constructs num max s
      → (length s.pool.user_object_list + length s.out ≤ s.pool.cur_num)
        × (num ≤ s.pool.cur_num)
        × (s.pool.cur_num ≤ max)
        × (length s.out ≤ s.pool.used_num)
  Reach-bounded never_throws some le r =
      let v = Reach-SoundSystem constructs never_throws num max some le r in
      omega (arith, v.0.accounts, v.0.at_most, v.0.at_least, v.1)

  -- If no constructor throws and `1 <= num <= max`, then in every state that is reached `get` either
  -- lends a handle and counts it, which it does exactly when an object is idle or fewer than
  -- `max_num` are counted, or it returns `nullptr` and leaves the pool as it was.
  pub Reach-GetSpec :
      ((n : ℕ) → constructs n ≡ true)
      → 0 < num
      → num ≤ max
      → Reach constructs num max s
      → ((0 < length s.pool.user_object_list) ⊎ (s.pool.cur_num < max))
          × ((h : Handle) × (q : Pool) × (get constructs s.pool ≡ lent h q)
              × (q.used_num ≡ suc s.pool.used_num))
        ⊎ (length s.pool.user_object_list ≡ 0)
          × (s.pool.cur_num ≡ max)
          × (get constructs s.pool ≡ null s.pool)
  Reach-GetSpec never_throws some le r =
      let v = Reach-SoundSystem constructs never_throws num max some le r in
      elim (get-GetSpec constructs never_throws num max some s.pool _ (λ a. count a (objects s.out))
        refl (λ a. Reach-One constructs a r) v.0) [
          | inl (c, (h, q, e, _, u)) ↦ inl (c, (h, q, e, u))
          | inr n ↦ inr n
        ]
