-- ===== src/Server/Service/Rounds.antt =====
-- src/server.cpp: the steps of a round of a worker, one after another, are what `run_task` says, the
-- round in one piece.
use calcsig.Common.{
  ℕ, ◌≡◌, refl, ap, ◌==◌, ◌&&◌, Bool, true, false, List, [], ◌∷◌, some, Option-cases, Bool-cases,
  inl, inr,
}
use calcsig.Common.Text.{Str}
use calcsig.Utils.CalcSig.{calc_sig}
use calcsig.Utils.Directories.{mvfile}
use calcsig.Utils.RandString.{rand_string}
use calcsig.Server.Headers.{read_headers}
use calcsig.Server.Request.{HttpTask}
use calcsig.Server.Worker.{
  Transfer, Item, Round, write_all, tmp_path, tmp_ready, item_of, target_path, report,
  move_and_report, file_away, fetched, download, after_tmp, run_task,
}
use calcsig.Server.Service.{
  Phase, has, named, ready, opened, writing, signing, moving, reporting, Shared, goes, ends,
  Setting, after_tmp_ready, after_mvfile, after_calc_sig, move,
}

module _ (c : Setting) (isstop : Bool) (tasks : List HttpTask) where
  open c use {fs, sys, md5, base_path, my_ip}

  -- A way to say that the round of the task `i` comes to an end from where a worker stands: a step goes
  -- on in the round, or ends it.
  pub record Ending : Type 1 where
    pub Comes : Shared fs.State → Phase → ℕ → Round fs.State → Type 0
    pub Comes-goes :
        (s : Shared fs.State) (w : fs.State) (ph ph' : Phase) (i : ℕ) (r : Round fs.State)
        → move c isstop tasks s ph ≡ some (goes (record s { world = w }) ph')
        → Comes (record s { world = w }) ph' i r
        → Comes s ph i r
    pub Comes-ends :
        (s : Shared fs.State) (ph : Phase) (i : ℕ) (r : Round fs.State)
        → move c isstop tasks s ph ≡ some (ends (record s { world = r.state }) i r.deleted r.result)
        → Comes s ph i r

module _ {c : Setting} {isstop : Bool} {tasks : List HttpTask} (k : Ending c isstop tasks) where
  open c use {fs, sys, md5, base_path, my_ip}
  open k use {Comes, Comes-goes, Comes-ends}

  reporting-Comes :
      (s : Shared fs.State) (i : ℕ) (t : HttpTask) (item : Item)
      → Comes s (reporting i t item) i (report fs sys md5 base_path my_ip t item s.world)
  unfolding move report
  reporting-Comes s i t item = elim (Bool-cases (sys.easy_init s.world)) [
    | inl e ↦ Comes-ends s (reporting i t item) i _ (rw e refl)
    | inr e ↦ Comes-ends s (reporting i t item) i _ (rw e refl)
  ]

  moving-Comes :
      (s : Shared fs.State) (i : ℕ) (t : HttpTask) (path : Str) (sigs : ℕ × ℕ) (size : ℕ)
      (r : fs.State × Bool)
      → mvfile fs path (target_path fs sys md5 base_path my_ip t sigs) s.world ≡ r
      → Comes s
          (moving i t path sigs size)
          i
          (move_and_report fs sys md5 base_path my_ip t path sigs size r)
  unfolding move move_and_report after_mvfile
  moving-Comes s i t path sigs size (w, true) e =
      Comes-goes s w _ (reporting i t (item_of fs sys md5 base_path my_ip t sigs size)) i _
        (ap (λ r. some (after_mvfile c s i t sigs size r)) e)
        (reporting-Comes (record s { world = w }) i t _)
  moving-Comes s i t path sigs size (w, false) e =
      Comes-ends s (moving i t path sigs size) i _
        (ap (λ r. some (after_mvfile c s i t sigs size r)) e)

  signing-Comes :
      (s : Shared fs.State) (i : ℕ) (t : HttpTask) (path : Str) (size : ℕ)
      → Comes s (signing i t path size) i (file_away fs sys md5 base_path my_ip t path size s.world)
  unfolding move file_away after_calc_sig
  signing-Comes s i t path size =
      elim (Option-cases (calc_sig md5 (sys.reads s.world path)).signature) [
        | inl e ↦
            rw (e, file_away)
              (Comes-ends s (signing i t path size) i _
                (ap (λ o. some (after_calc_sig c s i t path size o)) e))
        | inr (sigs, e) ↦
            rw (e, file_away)
              (Comes-goes s s.world (signing i t path size) (moving i t path sigs size) i _
                (ap (λ o. some (after_calc_sig c s i t path size o)) e)
                (moving-Comes s i t path sigs size _ refl))
      ]

  writing-Comes :
      (s : Shared fs.State) (i : ℕ) (t : HttpTask) (path : Str) (r : Transfer) (left : List Str)
      → Comes s
          (writing i t path r left)
          i
          (fetched fs sys md5 base_path my_ip t path (record r { chunks = left }, s.world))
  unfolding move fetched write_all
  writing-Comes s i t path r (b ∷ bs) =
      Comes-goes s (sys.append path b s.world) (writing i t path r (b ∷ bs)) (writing i t path r bs)
        i _ refl (writing-Comes (record s { world = sys.append path b s.world }) i t path r bs)
  writing-Comes s i t path r [] = elim (Bool-cases (r.ok && r.response_code == 200)) [
    | inl e ↦ rw e (
        Comes-goes s s.world (writing i t path r []) (signing i t path (read_headers r.headers 0)) i
          _ (rw e refl) (signing-Comes s i t path (read_headers r.headers 0)))
    | inr e ↦ rw e (Comes-ends s (writing i t path r []) i _ (rw e refl))
  ]

  ready-Comes :
      (s : Shared fs.State) (i : ℕ) (t : HttpTask) (path : Str)
      → Comes s (ready i t path) i (download fs sys md5 base_path my_ip t path s.world)
  unfolding move download
  ready-Comes s i t path = elim (Bool-cases (sys.easy_init (sys.create path s.world))) [
    | inl e ↦
        let made = sys.create path s.world in
        let (r, w) = sys.fetch t.src_url made in
        rw e (
          Comes-goes s made (ready i t path) (opened i t path) i _ (rw e refl) (
            Comes-goes (record s { world = made }) w (opened i t path) (writing i t path r r.chunks)
              i _ refl (writing-Comes (record s { world = w }) i t path r r.chunks)))
    | inr e ↦ rw e (Comes-ends s (ready i t path) i _ (rw e refl))
  ]

  named-Comes :
      (s : Shared fs.State) (i : ℕ) (t : HttpTask) (path : Str) (r : fs.State × Bool)
      → tmp_ready fs sys md5 base_path my_ip s.world ≡ r
      → Comes s (named i t path) i (after_tmp fs sys md5 base_path my_ip t path r)
  unfolding move after_tmp after_tmp_ready
  named-Comes s i t path (w, true) e =
      Comes-goes s w (named i t path) (ready i t path) i _
        (ap (λ r. some (after_tmp_ready c s i t path r)) e)
        (ready-Comes (record s { world = w }) i t path)
  named-Comes s i t path (w, false) e =
      Comes-ends s (named i t path) i _ (ap (λ r. some (after_tmp_ready c s i t path r)) e)

  -- The whole round.
  pub run_task-Ending :
      (s : Shared fs.State) (i : ℕ) (t : HttpTask)
      → Comes s (has i t) i (run_task fs sys md5 base_path my_ip t s.world)
  unfolding move run_task
  run_task-Ending s i t =
      let (name, drawn) = rand_string sys.draw 16 true true s.world in
      Comes-goes s drawn (has i t)
        (named i t (tmp_path fs sys md5 base_path my_ip name t.file_format)) i _ refl
        (named-Comes (record s { world = drawn }) i t _ _ refl)
