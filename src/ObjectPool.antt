-- ===== src/ObjectPool.antt =====
-- objectpool/objectpool.hpp: the pool of shared objects behind the MySQL and Redis pools.
-- An object is named by the number of its `new T(args...)`; a handle is a `shared_ptr` with the
-- deleter that it was built with. The mutex makes `get` and the deleter's body atomic.
pub mod System
pub mod Exclusive
pub mod Bounds
pub mod Starvation
pub mod Teardown
pub mod Tests
use calcsig.Common.{
  ℕ, zero, suc, ◌+◌, ◌-◌, ◌*◌, Bool, true, false, List, [], ◌∷◌, ◌++◌, leb, ltb, ◌==◌,
  if◌then◌else◌,
}

-- `auto_create_ptr` is the lambda given to the pool's own objects; `plain` is the default `delete`.
pub data Deleter : Type 0 where
  auto_create_ptr plain : Deleter

pub record Handle : Type 0 where
  pub object : ℕ
  pub deleter : Deleter

-- `created` counts the constructions begun, and `deleted` lists the objects destroyed.
pub record Pool : Type 0 where
  pub user_object_list : List Handle
  pub free_object : Bool
  pub init_num : ℕ
  pub cur_num : ℕ
  pub used_num : ℕ
  pub max_num : ℕ
  pub created : ℕ
  pub deleted : List ℕ

-- What `get` comes to: a handle, `nullptr`, an exception of `T`'s constructor, or `front()` of an
-- empty list, which is undefined.
pub data Got : Type 0 where
  lent : Handle → Pool → Got
  null : Pool → Got
  threw : Pool → Got
  undefined : Pool → Got

-- `user_object_list.remove(ptr)` removes every handle that holds the same object.
pub remove : ℕ → List Handle → List Handle
remove o [] = []
remove o (h ∷ hs) = if h.object == o then remove o hs else h ∷ remove o hs

pub lend_front : Pool → Got
unfolding remove
lend_front p = elim p.user_object_list [
  | [] ↦ undefined p
  | h ∷ hs ↦
      lent h (record p { user_object_list = remove h.object (h ∷ hs); used_num = suc p.used_num })
]

-- The constructor of the pool, and the counters that `init` sets.
abbrev pub blank : ℕ → ℕ → Pool
blank num max = record {
  user_object_list = [];
  free_object = false;
  init_num = num;
  cur_num = num;
  used_num = 0;
  max_num = max;
  created = 0;
  deleted = [];
}

-- `constructs n` says whether construction number `n` returns or throws.
module _ (constructs : ℕ → Bool) where
  -- The `for` loop; the second part is false if a constructor threw.
  pub expand_list : ℕ → Pool → Pool × Bool
  expand_list zero p = (p, true)
  expand_list (suc num) p = elim (constructs p.created) [
    | true ↦ expand_list num (record p {
      user_object_list =
          p.user_object_list ++ record { object = p.created; deleter = auto_create_ptr } ∷ [];
      created = suc p.created;
    })
    | false ↦ (record p { created = suc p.created }, false)
  ]

  -- `init(num, max)` on a new pool.
  pub init : ℕ → ℕ → Pool × Bool
  unfolding expand_list
  init num max = expand_list num (blank num max)

  grow : ℕ → ℕ → Pool → Got
  unfolding expand_list lend_front
  grow num total p =
      let (q, done) = expand_list num p in
      if done then lend_front (record q { cur_num = total }) else threw q

  pub get : Pool → Got
  unfolding grow lend_front
  get p = elim p.user_object_list [
    | [] ↦
        if leb p.max_num p.cur_num
        then null p
        else if leb (p.cur_num * 2) p.max_num
        then grow p.cur_num (p.cur_num + p.cur_num) p
        else grow (p.max_num - p.cur_num) p.max_num p
    | h ∷ hs ↦ lend_front p
  ]

-- `auto_create_ptr(t)`; `cur_num - used_num > init_num` is written without the subtraction.
pub recycle : ℕ → Pool → Pool
recycle t p =
    if p.free_object
    then record p { deleted = t ∷ p.deleted }
    else if ltb (p.init_num + p.used_num) p.cur_num
    then record p { deleted = t ∷ p.deleted; cur_num = p.cur_num - 1; used_num = p.used_num - 1 }
    else record p {
      user_object_list = p.user_object_list ++ record { object = t; deleter = plain } ∷ [];
      used_num = p.used_num - 1;
    }

run_deleter : Deleter → ℕ → Pool → Pool
unfolding recycle
run_deleter auto_create_ptr t p = recycle t p
run_deleter plain t p = record p { deleted = t ∷ p.deleted }

-- The last copy of a `shared_ptr` goes out of scope.
pub release : Handle → Pool → Pool
unfolding run_deleter
release h p = run_deleter h.deleter h.object p

pub release_all : List Handle → Pool → Pool
unfolding release
release_all [] p = p
release_all (h ∷ hs) p = release_all hs (release h p)

-- `~objectPool()`: the flag is set, and then the list is destroyed.
pub destroy : Pool → Pool
unfolding release_all
destroy p = record (release_all p.user_object_list (record p { free_object = true })) {
  user_object_list = [];
}
