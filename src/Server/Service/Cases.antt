-- ===== src/Server/Service/Cases.antt =====
-- src/server.cpp: the cases of a worker's step. What holds of every outcome that a step can have holds
-- of the step.
use calcsig.Common.{
  ℕ, ◌≡◌, refl, subst, ◌==◌, ◌&&◌, if◌then◌else◌, Bool, true, false, List, [], get_elem?, Option,
  none, some, Option-cases, Bool-cases, inl, inr,
}
use calcsig.Common.Text.{Str}
use calcsig.Utils.CalcSig.{calc_sig}
use calcsig.Utils.Directories.{mvfile}
use calcsig.ThreadPool98.{Pool, Turn, waits, null_locked, takes, get_task}
use calcsig.Server.Headers.{read_headers}
use calcsig.Server.Request.{HttpTask}
use calcsig.Server.Worker.{
  Transfer, Item, tmp_dir_failed, no_curl, download_failed, sig_failed, mv_failed, no_callback,
  called_back, tmp_ready, item_of, target_path,
}
use calcsig.Server.Service.{
  top, asks, sleeps, ended, has, named, ready, opened, writing, signing, moving, reporting, Shared,
  Moved, goes, ends, Setting, after_get_task, after_tmp_ready, after_mvfile, after_calc_sig, move,
}

module _ (c : Setting) (P : Moved c.fs.State → Type 0) where
  -- Of a thread that cannot go on there is nothing to say.
  abbrev pub Always : Option (Moved c.fs.State) → Type 0
  Always none = Unit
  Always (some m) = P m

  pub Always-some :
      (o : Option (Moved c.fs.State)) (m : Moved c.fs.State) → o ≡ some m → Always o → P m
  Always-some o m e a = subst Always e a

module _ (c : Setting) (P : Moved c.fs.State → Type 0) (isstop : Bool) (tasks : List HttpTask)
    (s : Shared c.fs.State) where
  open c use {fs, sys, md5, base_path, my_ip}

  abbrev at_world : fs.State → Shared fs.State
  at_world w = record s { world = w }

  if-P : (b : Bool) (m k : Moved fs.State) → (b ≡ true → P m) → P k → P (if b then m else k)
  if-P true m k f g = f refl
  if-P false m k f g = g

  pub top-Always :
      (isstop ≡ true → P (goes s ended)) → P (goes s asks) → Always c P (move c isstop tasks s top)
  unfolding move
  top-Always f g = elim (Bool-cases isstop) [ inl e ↦ rw e (f e) | inr e ↦ rw e g ]

  turn-Always :
      (turn : Turn)
      → (turn ≡ waits → P (goes s sleeps))
      → (turn ≡ null_locked → P (goes (record s { locked = true }) top))
      → ((i : ℕ) (q : Pool) (t : HttpTask)
          → turn ≡ takes i q
          → get_elem? tasks i ≡ some t
          → P (goes (record s { pool = q }) (has i t)))
      → Always c P (after_get_task c tasks s turn)
  unfolding after_get_task
  turn-Always waits z f g = z refl
  turn-Always null_locked z f g = f refl
  turn-Always (takes i q) z f g = elim (Option-cases (get_elem? tasks i)) [
    | inl e ↦ rw (e, after_get_task) tt
    | inr (t, e) ↦ rw (e, after_get_task) (g i q t refl e)
  ]

  locked-Always :
      (b : Bool) (o : Option (Moved fs.State))
      → (b ≡ false → Always c P o)
      → Always c P (if b then none else o)
  locked-Always true o f = tt
  locked-Always false o f = f refl

  pub asks-Always :
      (s.locked ≡ false → get_task s.pool ≡ waits → P (goes s sleeps))
      → (s.locked ≡ false
          → get_task s.pool ≡ null_locked
          → P (goes (record s { locked = true }) top))
      → ((i : ℕ) (q : Pool) (t : HttpTask)
          → get_task s.pool ≡ takes i q
          → get_elem? tasks i ≡ some t
          → P (goes (record s { pool = q }) (has i t)))
      → Always c P (move c isstop tasks s asks)
  unfolding move
  asks-Always z f g =
      locked-Always s.locked _ (λ free. turn-Always (get_task s.pool) (z free) (f free) g)

  tmp-P :
      (i : ℕ) (t : HttpTask) (path : Str) (r : fs.State × Bool)
      → P (goes (at_world r.0) (ready i t path))
      → P (ends (at_world r.0) i true tmp_dir_failed)
      → P (after_tmp_ready c s i t path r)
  unfolding after_tmp_ready
  tmp-P i t path (w, true) f g = f
  tmp-P i t path (w, false) f g = g

  pub named-Always :
      (i : ℕ) (t : HttpTask) (path : Str)
      → (let w = (tmp_ready fs sys md5 base_path my_ip s.world).0 in
          P (goes (at_world w) (ready i t path)) × P (ends (at_world w) i true tmp_dir_failed))
      → Always c P (move c isstop tasks s (named i t path))
  unfolding move
  named-Always i t path h = tmp-P i t path _ h.0 h.1

  pub ready-Always :
      (i : ℕ) (t : HttpTask) (path : Str)
      → P (goes (at_world (sys.create path s.world)) (opened i t path))
      → P (ends (at_world (sys.create path s.world)) i false no_curl)
      → Always c P (move c isstop tasks s (ready i t path))
  unfolding move
  ready-Always i t path f g =
      if-P (sys.easy_init (sys.create path s.world))
        (goes (at_world (sys.create path s.world)) (opened i t path))
        (ends (at_world (sys.create path s.world)) i false no_curl) (λ e. f) g

  pub writing-Always :
      (i : ℕ) (t : HttpTask) (path : Str) (r : Transfer)
      → ((r.ok && r.response_code == 200) ≡ true
          → P (goes s (signing i t path (read_headers r.headers 0))))
      → P (ends (at_world (sys.unlink path s.world)) i false download_failed)
      → Always c P (move c isstop tasks s (writing i t path r []))
  unfolding move
  writing-Always i t path r f g =
      if-P (r.ok && r.response_code == 200) (goes s (signing i t path (read_headers r.headers 0)))
        (ends (at_world (sys.unlink path s.world)) i false download_failed) f g

  pub signing-Always :
      (i : ℕ) (t : HttpTask) (path : Str) (size : ℕ)
      → ((sigs : ℕ × ℕ)
          → (calc_sig md5 (sys.reads s.world path)).signature ≡ some sigs
          → P (goes s (moving i t path sigs size)))
      → P (ends s i true sig_failed)
      → Always c P (move c isstop tasks s (signing i t path size))
  unfolding move after_calc_sig
  signing-Always i t path size f g =
      elim (Option-cases (calc_sig md5 (sys.reads s.world path)).signature) [
        | inl e ↦ rw (e, after_calc_sig) g
        | inr (sigs, e) ↦ rw (e, after_calc_sig) (f sigs e)
      ]

  mvfile-P :
      (i : ℕ) (t : HttpTask) (sigs : ℕ × ℕ) (size : ℕ) (r : fs.State × Bool)
      → P (goes (at_world r.0) (reporting i t (item_of fs sys md5 base_path my_ip t sigs size)))
      → P (ends (at_world r.0) i true mv_failed)
      → P (after_mvfile c s i t sigs size r)
  unfolding after_mvfile
  mvfile-P i t sigs size (w, true) f g = f
  mvfile-P i t sigs size (w, false) f g = g

  pub moving-Always :
      (i : ℕ) (t : HttpTask) (path : Str) (sigs : ℕ × ℕ) (size : ℕ)
      → (let w = (mvfile fs path (target_path fs sys md5 base_path my_ip t sigs) s.world).0 in
          P (goes (at_world w) (reporting i t (item_of fs sys md5 base_path my_ip t sigs size)))
          × P (ends (at_world w) i true mv_failed))
      → Always c P (move c isstop tasks s (moving i t path sigs size))
  unfolding move
  moving-Always i t path sigs size h = mvfile-P i t sigs size _ h.0 h.1

  pub reporting-Always :
      (i : ℕ) (t : HttpTask) (item : Item)
      → P (
          ends
            (at_world (sys.post t.callback_url item s.world).1)
            i
            true
            (called_back t.callback_url item))
      → P (ends s i false no_callback)
      → Always c P (move c isstop tasks s (reporting i t item))
  unfolding move
  reporting-Always i t item f g =
      if-P (sys.easy_init s.world)
        (ends (at_world (sys.post t.callback_url item s.world).1) i true
          (called_back t.callback_url item))
        (ends s i false no_callback) (λ e. f) g
