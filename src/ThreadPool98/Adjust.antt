-- ===== src/ThreadPool98/Adjust.antt =====
-- `adjust_thread`: the number of threads, whatever the other threads do to the queue meanwhile.
use calcsig.Common.{
  ℕ, zero, suc, ◌+◌, ◌≤◌, ◌<◌, ◌≡◌, refl, arith, ltb, lt→ltb, Bool, true, false, not, ◌&&◌, none,
  some, Bool-cases, inl, inr,
}
use calcsig.ThreadPool98.{Pool, Seen, see, is_full, add_threads, drop_thread, adjust_thread}

module _ (creates : ℕ → Bool) (seen : ℕ → Seen) (behind : Seen) where
  -- The number of threads is between the least and the limit; the rest is as in `p`.
  abbrev Within : Pool → Pool → Type 0
  Within p q =
      (p.min_thread ≤ q.cur_thread)
      × (q.cur_thread ≤ p.max_thread)
      × (q.task_queue ≡ p.task_queue)
      × (q.min_thread ≡ p.min_thread)

  abbrev goes_on : ℕ → Pool → Bool
  goes_on n p =
      let r = see (seen n) p in not r.is_stopped && (is_full r && ltb r.cur_thread r.max_thread)

  add_threads-ends :
      (fuel n : ℕ) (p : Pool)
      → ((k : ℕ) → creates k ≡ true)
      → p.max_thread ≤ fuel + p.cur_thread
      → p.min_thread ≤ p.cur_thread
      → p.cur_thread ≤ p.max_thread
      → (q : Pool) × (add_threads creates seen behind (suc fuel) n p ≡ some q) × Within p q
  unfolding add_threads see
  add_threads-ends zero n p all h lo hi = (p, ground arith, (lo, hi, refl, refl))
  add_threads-ends (suc fuel) n p all h lo hi = elim (Bool-cases (goes_on n p)) [
    | inr ended ↦ (p, rw (ended, add_threads), (lo, hi, refl, refl))
    | inl more ↦
        let room : p.cur_thread < p.max_thread = ground (arith, more) in
        let (q, e, within) =
          add_threads-ends fuel (suc n) (record p { cur_thread = suc p.cur_thread }) all
            (omega arith) (omega arith) (omega arith) in
        (
          q,
          rw (more, add_threads) (rw (all n) e),
          (omega (arith, within), within.1, within.2, within.3),
        )
  ]

  -- If every thread is created, `adjust_thread` ends with one more round than there is room for
  -- threads, whatever its tests read; from a number of threads between the least and the limit it
  -- leaves one between them, and it does not touch the queue.
  pub adjust_thread-bounds :
      (fuel : ℕ) (p : Pool)
      → ((k : ℕ) → creates k ≡ true)
      → p.max_thread ≤ fuel + p.cur_thread
      → p.min_thread ≤ p.cur_thread
      → p.cur_thread ≤ p.max_thread
      → (q : Pool) × (adjust_thread creates seen behind (suc fuel) p ≡ some q)
        × (p.min_thread ≤ q.cur_thread)
        × (q.cur_thread ≤ p.max_thread)
        × (q.task_queue ≡ p.task_queue)
  unfolding adjust_thread drop_thread see
  adjust_thread-bounds fuel p all h lo hi =
      let (q, e, (q_lo, q_hi, queue, same)) = add_threads-ends fuel 0 p all h lo hi in
      (
        drop_thread creates seen behind q,
        rw (e, adjust_thread),
        ground arith,
        ground arith,
        ground arith,
      )

  add_threads-none :
      (fuel n : ℕ) (p : Pool)
      → ((k : ℕ) → k < n + fuel → creates k ≡ false)
      → ((k : ℕ) → k < n + fuel → (seen k).stopped ≡ false)
      → ((k : ℕ) → k < n + fuel → is_full (see (seen k) p) ≡ true)
      → p.cur_thread < p.max_thread
      → add_threads creates seen behind fuel n p ≡ none
  unfolding add_threads see
  add_threads-none zero n p fails live full room = refl
  add_threads-none (suc fuel) n p fails live full room =
      let rest =
        add_threads-none fuel (suc n) p (λ k h. fails k (omega (arith, h)))
          (λ k h. live k (omega (arith, h))) (λ k h. full k (omega (arith, h))) room in
      rw (live n (omega arith), full n (omega arith), lt→ltb _ _ room, add_threads)
        (rw (fails n (omega arith)) rest)

  -- As long as no thread can be created and each test reads a running pool with a full queue, with
  -- room for threads, `adjust_thread` does not return, however many tests it makes, and it holds
  -- `mutex_num` all the while.
  pub adjust_thread-diverges :
      (p : Pool) (fuel : ℕ)
      → ((k : ℕ) → k < fuel → creates k ≡ false)
      → ((k : ℕ) → k < fuel → (seen k).stopped ≡ false)
      → ((k : ℕ) → k < fuel → is_full (see (seen k) p) ≡ true)
      → p.cur_thread < p.max_thread
      → adjust_thread creates seen behind fuel p ≡ none
  unfolding adjust_thread
  adjust_thread-diverges p fuel fails live full room =
      let zero_add : (k : ℕ) → k < 0 + fuel → k < fuel = λ k h. omega (arith, h) in
      let e =
        add_threads-none fuel 0 p (λ k h. fails k (zero_add k h)) (λ k h. live k (zero_add k h))
          (λ k h. full k (zero_add k h)) room in
      rw (e, adjust_thread)
