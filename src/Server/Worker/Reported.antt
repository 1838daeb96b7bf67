-- ===== src/Server/Worker/Reported.antt =====
-- src/server.cpp: what a round of `thread_worker` reports, and what becomes of its task.
use calcsig.Common.{
  ℕ, ◌≡◌, ◌≢◌, refl, subst, sym, arith, ◌==◌, Bool, true, false, ◌&&◌, [], ◌∷◌, ◌++◌, some,
  Option-cases, Bool-cases, inl, inr, append_assoc,
}
use calcsig.Common.Text.{Str, codes, c_string}
use calcsig.Utils.Directories.{FileSystem, IsPosix, slash, mkdirs, mkdirs-slash, mvfile}
use calcsig.Utils.CalcSig.{Md5, calc_sig}
use calcsig.Utils.SigPath.{sig_path}
use calcsig.Utils.RandString.{rand_string}
use calcsig.Server.Headers.{read_headers}
use calcsig.Server.Request.{HttpTask}
use calcsig.Server.Worker.{
  Transfer, Item, System, Result, tmp_dir_failed, no_curl, download_failed, sig_failed, mv_failed,
  no_callback, called_back, Round, write_all, tmp_dir, tmp_ready, item_of, report, target_path,
  move_and_report, file_away, fetched, download, after_tmp, run_task,
}

-- Whether a round that ends so has deleted the task.
abbrev pub frees : Result → Bool
frees tmp_dir_failed = true
frees no_curl = false
frees download_failed = false
frees sig_failed = true
frees mv_failed = true
frees no_callback = false
frees (called_back url item) = true

tmp_nonempty : (s : Str) → s ++ codes "/tmp" ≢ []
tmp_nonempty [] = λ e. cc
tmp_nonempty (c ∷ s) = λ e. cc

and_true : (a b : Bool) → (a && b) ≡ true → (a ≡ true) × (b ≡ true)
and_true true b h = (refl, h)
and_true false b h = cc h

module _ (fs : FileSystem) (sys : System fs) (md5 : Md5) (base_path my_ip : Str) where
  -- `calcSig` gives the signatures, for the file as it is.
  abbrev pub Signs : fs.State → Str → ℕ × ℕ → Type 0
  Signs s path sigs = (calc_sig md5 (sys.reads s path)).signature ≡ some sigs

  -- `mvfile` returns 0.
  abbrev pub Moves : Str → Str → fs.State → Type 0
  Moves path sig_path s = (mvfile fs path (base_path ++ slash ∷ sig_path) s).1 ≡ true

  -- The round gave the object `item` for `task` to its callback: the file at `path` is a download
  -- that succeeded, the signatures are those of that file, and it was moved to the place they name.
  -- The texts in the object end at their first zero byte.
  pub record Honest (task : HttpTask) (url : Str) (item : Item) : Type 0 where
    pub path : Str
    pub transfer : Transfer
    pub after : fs.State
    pub before : fs.State
    pub downloaded : sys.fetch task.src_url (sys.create path before) ≡ (transfer, after)
    pub was_ok : transfer.ok ≡ true
    pub was_200 : (transfer.response_code == 200) ≡ true
    pub signed :
        Signs
          (write_all fs sys md5 base_path my_ip path transfer.chunks after)
          path
          (item.file_sig1, item.file_sig2)
    pub placed : item.file_path ≡ c_string (sig_path item.file_sig1 item.file_sig2 task.file_format)
    pub moved :
        Moves path
          (sig_path item.file_sig1 item.file_sig2 task.file_format)
          (write_all fs sys md5 base_path my_ip path transfer.chunks after)
    pub sized : item.file_size ≡ read_headers transfer.headers 0
    pub addressed : url ≡ task.callback_url
    pub named : (item.action_id ≡ c_string task.action_id) × (item.table ≡ c_string task.table)

  abbrev Frees : Round fs.State → Type 0
  Frees r = r.deleted ≡ frees r.result

  report-Frees :
      (task : HttpTask) (item : Item) (s : fs.State)
      → Frees (report fs sys md5 base_path my_ip task item s)
  unfolding report
  report-Frees task item s = ground arith

  move-Frees :
      (task : HttpTask) (path : Str) (sigs : ℕ × ℕ) (n : ℕ) (r : fs.State × Bool)
      → Frees (move_and_report fs sys md5 base_path my_ip task path sigs n r)
  unfolding move_and_report
  move-Frees task path sigs n (s, true) = report-Frees task _ s
  move-Frees task path sigs n (s, false) = refl

  file_away-Frees :
      (task : HttpTask) (path : Str) (n : ℕ) (s : fs.State)
      → Frees (file_away fs sys md5 base_path my_ip task path n s)
  unfolding file_away
  file_away-Frees task path n s = elim (Option-cases (calc_sig md5 (sys.reads s path)).signature) [
    | inl e ↦ rw (e, file_away)
    | inr (sigs, e) ↦ rw (e, file_away) (move-Frees task path sigs n _)
  ]

  fetched-Frees :
      (task : HttpTask) (path : Str) (r : Transfer × fs.State)
      → Frees (fetched fs sys md5 base_path my_ip task path r)
  unfolding fetched
  fetched-Frees task path (t, s) = elim (Bool-cases (t.ok && t.response_code == 200)) [
    | inl e ↦ rw (e, fetched) (file_away-Frees task path _ _)
    | inr e ↦ rw (e, fetched)
  ]

  after_tmp-Frees :
      (task : HttpTask) (path : Str) (r : fs.State × Bool)
      → Frees (after_tmp fs sys md5 base_path my_ip task path r)
  unfolding after_tmp download
  after_tmp-Frees task path (s, true) = elim (Bool-cases (sys.easy_init (sys.create path s))) [
    | inl e ↦
        rw (e, download) (fetched-Frees task path (sys.fetch task.src_url (sys.create path s)))
    | inr e ↦ rw (e, download)
  ]
  after_tmp-Frees task path (s, false) = refl

  -- A round deletes its task unless curl gives no handle or the download fails: then the task is
  -- neither deleted nor reported.
  pub run_task-frees :
      (task : HttpTask) (s : fs.State)
      → (run_task fs sys md5 base_path my_ip task s).deleted
        ≡ frees (run_task fs sys md5 base_path my_ip task s).result
  unfolding run_task
  run_task-frees task s = after_tmp-Frees task _ _

  tmp_ready-false :
      (posix : IsPosix fs) (s : fs.State)
      → sys.access_rw_x s (base_path ++ codes "/tmp/") ≡ false
      → fs.access_rwx s (base_path ++ codes "/tmp") ≡ false
      → tmp_ready fs sys md5 base_path my_ip s
        ≡ ((mkdirs fs (base_path ++ codes "/tmp") s).0, false)
  unfolding tmp_ready tmp_dir
  tmp_ready-false posix s out_slash out =
      rw (out_slash, tmp_ready, tmp_dir)
        (subst (λ d. mkdirs fs d s ≡ ((mkdirs fs (base_path ++ codes "/tmp") s).0, false))
          (append_assoc base_path (codes "/tmp") (slash ∷ []))
          (mkdirs-slash fs posix (base_path ++ codes "/tmp") s (tmp_nonempty base_path) out))

  -- The first round where `tmp` is not there: `mkdirs` is given the path with a slash at the end, so
  -- the task is dropped although the directory may have been made.
  pub run_task-tmp_dir_failed :
      (posix : IsPosix fs) (task : HttpTask) (s : fs.State)
      → sys.access_rw_x (rand_string sys.draw 16 true true s).1 (base_path ++ codes "/tmp/") ≡ false
      → fs.access_rwx (rand_string sys.draw 16 true true s).1 (base_path ++ codes "/tmp") ≡ false
      → run_task fs sys md5 base_path my_ip task s ≡ record {
        state = (mkdirs fs (base_path ++ codes "/tmp") (rand_string sys.draw 16 true true s).1).0;
        deleted = true;
        result = tmp_dir_failed;
      }
  unfolding run_task
  run_task-tmp_dir_failed posix task s out_slash out = rw (tmp_ready-false posix _ out_slash out)

  report-called_back :
      (task : HttpTask) (item item' : Item) (url : Str) (s : fs.State)
      → (report fs sys md5 base_path my_ip task item s).result ≡ called_back url item'
      → (url ≡ task.callback_url) × (item' ≡ item)
  unfolding report
  report-called_back task item item' url s h = ground arith

  move-called_back :
      (task : HttpTask) (path : Str) (sigs : ℕ × ℕ) (n : ℕ) (r : fs.State × Bool) (url : Str)
      (item : Item)
      → (move_and_report fs sys md5 base_path my_ip task path sigs n r).result
        ≡ called_back url item
      → (r.1 ≡ true)
        × (url ≡ task.callback_url)
        × (item ≡ item_of fs sys md5 base_path my_ip task sigs n)
  unfolding move_and_report
  move-called_back task path sigs n (s, true) url item h =
      let (u, i) = report-called_back task _ item url s h in (refl, u, i)
  move-called_back task path sigs n (s, false) url item h = cc h

  file_away-called_back :
      (task : HttpTask) (path : Str) (n : ℕ) (s : fs.State) (url : Str) (item : Item)
      → (file_away fs sys md5 base_path my_ip task path n s).result ≡ called_back url item
      → (sigs : ℕ × ℕ) × Signs s path sigs
        × Moves path (sig_path sigs.0 sigs.1 task.file_format) s
        × (url ≡ task.callback_url)
        × (item ≡ item_of fs sys md5 base_path my_ip task sigs n)
  unfolding file_away target_path
  file_away-called_back task path n s url item h =
      elim (Option-cases (calc_sig md5 (sys.reads s path)).signature) [
        | inl e ↦ let h' = rw (e, file_away) at h in cc h'
        | inr (sigs, e) ↦
            let h' = rw (e, file_away) at h in
            let (moved, u, i) = move-called_back task path sigs n _ url item h' in
            (sigs, e, moved, u, i)
      ]

  fetched-called_back :
      (task : HttpTask) (path : Str) (r : Transfer × fs.State) (url : Str) (item : Item)
      (before : fs.State)
      → sys.fetch task.src_url (sys.create path before) ≡ r
      → (fetched fs sys md5 base_path my_ip task path r).result ≡ called_back url item
      → Honest task url item
  unfolding fetched item_of
  fetched-called_back task path (t, s) url item before downloaded h =
      elim (Bool-cases (t.ok && t.response_code == 200)) [
        | inl e ↦
            let h' = rw (e, fetched) at h in
            let (sigs, signed, moved, u, i) = file_away-called_back task path _ _ url item h' in
            subst (Honest task url) (sym i) (record {
              path = path;
              transfer = t;
              after = s;
              before = before;
              downloaded = downloaded;
              was_ok = (and_true t.ok _ e).0;
              was_200 = (and_true t.ok _ e).1;
              signed = signed;
              placed = refl;
              moved = moved;
              sized = refl;
              addressed = u;
              named = (refl, refl);
            })
        | inr e ↦ let h' = rw (e, fetched) at h in cc h'
      ]

  after_tmp-called_back :
      (task : HttpTask) (path : Str) (r : fs.State × Bool) (url : Str) (item : Item)
      → (after_tmp fs sys md5 base_path my_ip task path r).result ≡ called_back url item
      → Honest task url item
  unfolding after_tmp download
  after_tmp-called_back task path (s, false) url item h = cc h
  after_tmp-called_back task path (s, true) url item h =
      elim (Bool-cases (sys.easy_init (sys.create path s))) [
        | inl e ↦
            let h' = rw (e, after_tmp, download) at h in
            fetched-called_back task path (sys.fetch task.src_url (sys.create path s)) url item s
              refl h'
        | inr e ↦ let h' = rw (e, after_tmp, download) at h in cc h'
      ]

  -- Whatever a round reports: the file is a download that succeeded, the signatures are those of
  -- that file, it was moved to the place they name, and the report goes to the task's own URL.
  pub run_task-Honest :
      (task : HttpTask) (s : fs.State) (url : Str) (item : Item)
      → (run_task fs sys md5 base_path my_ip task s).result ≡ called_back url item
      → Honest task url item
  unfolding run_task
  run_task-Honest task s url item h = after_tmp-called_back task _ _ url item h
