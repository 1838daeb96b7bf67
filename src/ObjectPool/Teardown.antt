-- ===== src/ObjectPool/Teardown.antt =====
-- `~objectPool()`.
use calcsig.Common.{ℕ, ◌+◌, ◌≡◌, refl, sym, subst, arith, true, List, [], ◌∷◌, count}
use calcsig.ObjectPool.{
  Handle, Pool, Deleter, auto_create_ptr, plain, recycle, run_deleter, release, release_all,
  destroy,
}
use calcsig.ObjectPool.System.{objects}

run_deleter_freed :
    (d : Deleter) (t : ℕ) (p : Pool)
    → p.free_object ≡ true
    → run_deleter d t p ≡ record p { deleted = t ∷ p.deleted }
unfolding run_deleter recycle
run_deleter_freed auto_create_ptr t p e = ground arith
run_deleter_freed plain t p e = refl

release_all_freed :
    (hs : List Handle) (p : Pool) (a : ℕ)
    → p.free_object ≡ true
    → (count a (release_all hs p).deleted ≡ count a (objects hs) + count a p.deleted)
      × ((release_all hs p).used_num ≡ p.used_num)
      × ((release_all hs p).cur_num ≡ p.cur_num)
unfolding release_all release
release_all_freed [] p a e = (omega arith, refl, refl)
release_all_freed (h ∷ hs) p a e =
    let next = release_all_freed hs (record p { deleted = h.object ∷ p.deleted }) a e in
    subst
      (λ q.
        (count a (release_all hs q).deleted ≡ count a (objects (h ∷ hs)) + count a p.deleted)
        × ((release_all hs q).used_num ≡ p.used_num)
        × ((release_all hs q).cur_num ≡ p.cur_num))
      (sym (run_deleter_freed h.deleter h.object p e)) (omega (arith, next.0), next.1, next.2)

-- The destructor destroys each idle object exactly once, whichever deleter its handle has, touches
-- no other object, and leaves none in the list; the counters are not adjusted.
pub count-destroy :
    (p : Pool) (a : ℕ)
    → (count a (destroy p).deleted ≡ count a (objects p.user_object_list) + count a p.deleted)
      × ((destroy p).user_object_list ≡ [])
      × ((destroy p).used_num ≡ p.used_num)
      × ((destroy p).cur_num ≡ p.cur_num)
unfolding destroy
count-destroy p a =
    let r = release_all_freed p.user_object_list (record p { free_object = true }) a refl in
    (r.0, refl, r.1, r.2)
