-- ===== src/Server/Worker/Tests.antt =====
-- Concrete rounds of a worker.
use Prim.Native.Nat.{bit_xor}
use calcsig.Server.Headers.{read_headers}
use calcsig.Common.{
  ℕ, ◌≡◌, refl, ap, sym, ◌∙◌, Bool, true, false, not, [], ◌∷◌, ◌++◌, some, append_assoc, append-nil,
  get_or,
}
use calcsig.Common.Text.{Str, codes}
use calcsig.Utils.Directories.{FileSystem, IsPosix, slash, mkdirs, mkdirs-slash, mvfile-there}
use calcsig.Utils.CalcSig.{Md5, IsStreaming, chunk, Outcome, big_endian, calc_sig, calc_sig-content}
use calcsig.Utils.RandString.{rand_string, rand_string-keeps}
use calcsig.Server.Request.{HttpTask}
use calcsig.Server.Worker.{
  Transfer, Item, System, tmp_dir_failed, called_back, write_all, tmp_path, tmp_ready, item_of,
  report, move_and_report, file_away, fetched, download, after_tmp, run_task,
}
use calcsig.Server.Worker.Reported.{Honest, run_task-tmp_dir_failed, run_task-Honest}

-- The state says whether the directories are there.
abbrev toy_fs : FileSystem
toy_fs = record {
  State = Bool;
  access_rw = λ s d. s;
  access_rwx = λ s d. s;
  mkdir = λ d s. (true, not s);
  rename = λ src dst s. (s, true);
}

abbrev toy_fs-IsPosix : IsPosix toy_fs
toy_fs-IsPosix = record {
  is_there = λ s d. s;
  mkdir_there = λ d s t e. ap (λ r. r.0) (sym e);
  mkdir_fails = λ d s e. rw e;
  mkdir_fails_slash = λ d s e. rw e;
}

abbrev answer : Transfer
answer = record {
  headers = codes "Content-Length: 3\r\n" ∷ [];
  chunks = codes "abc" ∷ [];
  ok = true;
  response_code = 200;
}

abbrev toy_sys : System toy_fs
toy_sys = record {
  draw = λ s. (0, s);
  access_rw_x = λ s d. s;
  create = λ d s. s;
  append = λ d bytes s. s;
  unlink = λ d s. s;
  reads = λ s d. some (chunk (codes "abc") ∷ []);
  easy_init = λ s. true;
  fetch = λ url s. (answer, s);
  post = λ url item s. (answer, s);
}

abbrev sum_md5 : Md5
sum_md5 = record { Ctx = Str; md5_init = []; update = λ c s. c ++ s; final = λ c i. get_or c i 0 }

sum_md5-IsStreaming : IsStreaming sum_md5
sum_md5-IsStreaming = record {
  update-append = λ c s t. append_assoc c s t;
  update-nil = λ c. append-nil c;
}

abbrev task : HttpTask
task = record {
  action_id = codes "1";
  src_url = codes "http://a/b";
  file_format = codes "mp3";
  table = codes "songs";
  callback_url = codes "http://a/c";
}

drawn_lem : (s : Bool) → (rand_string toy_sys.draw 16 true true s).1 ≡ s
drawn_lem s = rand_string-keeps toy_sys.draw (λ s. s) (λ s. refl) 16 true true s

run_task-tmp_dir_failed_example :
    run_task toy_fs toy_sys sum_md5 (codes "/data") (codes "::1") task false ≡ record {
      state = (mkdirs toy_fs (codes "/data/tmp") (rand_string toy_sys.draw 16 true true false).1).0;
      deleted = true;
      result = tmp_dir_failed;
    }
run_task-tmp_dir_failed_example =
    run_task-tmp_dir_failed toy_fs toy_sys sum_md5 (codes "/data") (codes "::1") toy_fs-IsPosix task
      false (drawn_lem false) (drawn_lem false)

abbrev sigs : ℕ × ℕ
sigs = (
  bit_xor (big_endian sum_md5 (codes "abc") 0) (big_endian sum_md5 (codes "abc") 4),
  bit_xor (big_endian sum_md5 (codes "abc") 8) (big_endian sum_md5 (codes "abc") 12),
)

signed : (calc_sig sum_md5 (some (chunk (codes "abc") ∷ []))).signature ≡ some sigs
signed =
    ap (λ (o : Outcome). o.signature)
      (calc_sig-content sum_md5 sum_md5-IsStreaming (chunk (codes "abc") ∷ []))

abbrev posted : ℕ → Item
posted n = item_of toy_fs toy_sys sum_md5 (codes "/data") (codes "::1") task sigs n

filed :
    (path : Str) (n : ℕ)
    → (file_away toy_fs toy_sys sum_md5 (codes "/data") (codes "::1") task path n true).result
      ≡ called_back (codes "http://a/c") (posted n)
unfolding file_away move_and_report report
filed path n =
    rw (signed, file_away)
      (ap
        (λ r.
          (move_and_report toy_fs toy_sys sum_md5 (codes "/data") (codes "::1") task path sigs n
            r).result)
        (mvfile-there toy_fs path _ true refl (λ d. refl)))

abbrev size : ℕ
size = read_headers answer.headers 0

reported :
    (run_task toy_fs toy_sys sum_md5 (codes "/data") (codes "::1") task true).result
    ≡ called_back (codes "http://a/c") (posted size)
unfolding run_task after_tmp tmp_ready download fetched write_all
reported =
    let path =
      tmp_path toy_fs toy_sys sum_md5 (codes "/data") (codes "::1")
        (rand_string toy_sys.draw 16 true true true).0 (codes "mp3") in
    ap
      (λ s.
        (after_tmp toy_fs toy_sys sum_md5 (codes "/data") (codes "::1") task path
          (tmp_ready toy_fs toy_sys sum_md5 (codes "/data") (codes "::1") s)).result)
      (drawn_lem true)
    ∙ filed path size

run_task-Honest_example :
    Honest toy_fs toy_sys sum_md5
      (codes "/data")
      (codes "::1")
      task
      (codes "http://a/c")
      (posted size)
run_task-Honest_example =
    run_task-Honest toy_fs toy_sys sum_md5 (codes "/data") (codes "::1") task true
      (codes "http://a/c") (posted size) reported

mkdirs-slash_example :
    mkdirs toy_fs (codes "/data/tmp" ++ slash ∷ []) false
    ≡ ((mkdirs toy_fs (codes "/data/tmp") false).0, false)
mkdirs-slash_example = mkdirs-slash toy_fs toy_fs-IsPosix (codes "/data/tmp") false (λ e. cc e) refl
