-- ===== src/Server/Worker.antt =====
-- src/server.cpp: one round of `thread_worker`, from the task that it took to the end of the loop's
-- body. curl, the file system, MD5, the generator and the JSON writer are parameters; the state
-- `World` is what they share.
pub mod Reported
pub mod Tests
use calcsig.Common.{
  ℕ, ◌==◌, if◌then◌else◌, Bool, true, false, not, ◌&&◌, List, [], ◌∷◌, ◌++◌, length, Option, none,
  some,
}
use calcsig.Common.Text.{Str, codes, c_string}
use calcsig.Utils.Directories.{FileSystem, slash, mkdirs, mvfile}
use calcsig.Utils.CalcSig.{Md5, Read, Outcome, calc_sig}
use calcsig.Utils.SigPath.{sig_path}
use calcsig.Utils.RandString.{rand_string}
use calcsig.Server.Headers.{read_headers}
use calcsig.Server.Request.{HttpTask}

-- What one `curl_easy_perform` comes to: the header lines and the parts of the body that it hands to
-- the callbacks, whether it returns CURLE_OK, and the response code.
pub record Transfer : Type 0 where
  pub headers : List Str
  pub chunks : List Str
  pub ok : Bool
  pub response_code : ℕ

-- The JSON object that is posted.
pub record Item : Type 0 where
  pub action_id : Str
  pub file_sig1 : ℕ
  pub file_sig2 : ℕ
  pub file_path : Str
  pub file_size : ℕ
  pub my_ip : Str
  pub table : Str

-- `access_rw_x` is `R_OK | W_OK | X_OK`; `create` is the `open` that truncates, `append` a `write` to
-- that file, `unlink` is `remove`; `reads` is what `open` and `read` give `calcSig`, `none` where the
-- file cannot be opened. `easy_init` is whether `curl_easy_init` gives a handle.
pub record System (fs : FileSystem) : Type 0 where
  pub draw : fs.State → ℕ × fs.State
  pub access_rw_x : fs.State → Str → Bool
  pub create : Str → fs.State → fs.State
  pub append : Str → Str → fs.State → fs.State
  pub unlink : Str → fs.State → fs.State
  pub reads : fs.State → Str → Option (List Read)
  pub easy_init : fs.State → Bool
  pub fetch : Str → fs.State → Transfer × fs.State
  pub post : Str → Item → fs.State → Transfer × fs.State

-- Where a round ends. `called_back` holds the URL and the item posted; whatever the answer is, the
-- round ends in the same way.
pub data Result : Type 0 where
  tmp_dir_failed no_curl download_failed sig_failed mv_failed no_callback : Result
  called_back : Str → Item → Result

-- `deleted` is whether the task was deleted in the round.
pub record Round (State : Type 0) : Type 0 where
  pub state : State
  pub deleted : Bool
  pub result : Result

module _ (fs : FileSystem) (sys : System fs) (md5 : Md5) (base_path my_ip : Str) where
  open fs use {State}
  open sys use {draw, access_rw_x, create, append, unlink, reads, easy_init, fetch, post}

  -- `data_reader`, once for each part; the file is the one that was opened.
  unfoldable pub write_all : Str → List Str → State → State
  write_all path [] s = s
  write_all path (c ∷ cs) s = write_all path cs (append path c s)

  unfoldable pub tmp_dir : Str
  tmp_dir = base_path ++ codes "/tmp/"

  unfoldable pub tmp_path : Str → Str → Str
  unfolding tmp_dir
  tmp_path name format = tmp_dir ++ (name ++ b'.' ∷ format)

  -- The test of the directory and, where it fails, `mkdirs`.
  unfoldable pub tmp_ready : State → State × Bool
  unfolding tmp_dir
  tmp_ready s = if access_rw_x s tmp_dir then (s, true) else mkdirs fs tmp_dir s

  -- The texts are handed over by `c_str()`.
  unfoldable pub item_of : HttpTask → ℕ × ℕ → ℕ → Item
  item_of task sigs content_length = record {
    action_id = c_string task.action_id;
    file_sig1 = sigs.0;
    file_sig2 = sigs.1;
    file_path = c_string (sig_path sigs.0 sigs.1 task.file_format);
    file_size = content_length;
    my_ip = c_string my_ip;
    table = c_string task.table;
  }

  -- The callback.
  unfoldable pub report : HttpTask → Item → State → Round State
  report task item s =
      if easy_init s
      then record {
        state = (post task.callback_url item s).1;
        deleted = true;
        result = called_back task.callback_url item;
      }
      else record { state = s; deleted = false; result = no_callback }

  unfoldable pub target_path : HttpTask → ℕ × ℕ → Str
  target_path task sigs = base_path ++ slash ∷ sig_path sigs.0 sigs.1 task.file_format

  unfoldable pub move_and_report : HttpTask → Str → ℕ × ℕ → ℕ → State × Bool → Round State
  unfolding report item_of
  move_and_report task path sigs content_length (s, true) =
      report task (item_of task sigs content_length) s
  move_and_report task path sigs content_length (s, false) = record {
    state = s;
    deleted = true;
    result = mv_failed;
  }

  -- From `calcSig` on.
  unfoldable pub file_away : HttpTask → Str → ℕ → State → Round State
  unfolding move_and_report target_path
  file_away task path content_length s = elim (calc_sig md5 (reads s path)).signature [
    | none ↦ record { state = s; deleted = true; result = sig_failed }
    | some sigs ↦
        move_and_report task path sigs content_length (mvfile fs path (target_path task sigs) s)
  ]

  -- After `curl_easy_perform`; a download that fails does not delete the task.
  unfoldable pub fetched : HttpTask → Str → Transfer × State → Round State
  unfolding file_away write_all
  fetched task path (t, s) =
      if t.ok && t.response_code == 200
      then file_away task path (read_headers t.headers 0) (write_all path t.chunks s)
      else record {
        state = unlink path (write_all path t.chunks s);
        deleted = false;
        result = download_failed;
      }

  -- From `new downloadInfo()` on.
  unfoldable pub download : HttpTask → Str → State → Round State
  unfolding fetched
  download task path s =
      if easy_init (create path s)
      then fetched task path (fetch task.src_url (create path s))
      else record { state = create path s; deleted = false; result = no_curl }

  unfoldable pub after_tmp : HttpTask → Str → State × Bool → Round State
  unfolding download
  after_tmp task path (s, true) = download task path s
  after_tmp task path (s, false) = record { state = s; deleted = true; result = tmp_dir_failed }

  unfoldable pub run_task : HttpTask → State → Round State
  unfolding after_tmp tmp_path tmp_ready
  run_task task s =
      let (name, drawn) = rand_string draw 16 true true s in
      after_tmp task (tmp_path name task.file_format) (tmp_ready drawn)
