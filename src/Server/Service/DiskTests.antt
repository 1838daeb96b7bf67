-- ===== src/Server/Service/DiskTests.antt =====
-- A round on a disk that is a function from paths to what the files hold.
use mathlib.Core.Option
use calcsig.Common.{
  ◌≡◌, ◌≢◌, refl, ap, ◌∙◌, subst, if◌then◌else◌, true, false, List, [], ◌∷◌, ◌++◌, append_assoc,
  append-nil, All, Option, none, some, inl, inr, ◌⊎◌,
}
use calcsig.Common.Text.{Str, codes, str_eq, str_eq_refl, str_eq-false}
use calcsig.Utils.Directories.{FileSystem}
use calcsig.Utils.CalcSig.{Md5, IsStreaming, Read, chunk, content}
use calcsig.ThreadPool98.{new_pool, get_task, push_task}
use calcsig.Server.Request.{ok_reply}
use calcsig.Server.Request.Tests.{
  toy_ev, toy_json, toy_request, toy_request_lem, x_task, busy_server,
}
use calcsig.Server.Worker.{Transfer, System, run_task}
use calcsig.Server.Service.{
  Phase, top, asks, has, Finish, Shared, Moved, goes, ends, Setting, Service, work, request, nobody,
  join, idle, shared_of, answered, moved, move, after_get_task,
}
use calcsig.Server.Service.Rounds.{Ending, run_task-Ending}
use calcsig.Server.Service.Files.{IsDisk}
use calcsig.Server.Service.Genuine.{Proven}
use calcsig.Server.Service.Apart.{ApartReach, start, then_step, Reach-Genuine}

abbrev Files : Type 0
Files = Str → Option Str

put : Str → Option Str → Files → Files
put p x s = λ q. if str_eq q p then x else s q

put-own : (p : Str) (x : Option Str) (s : Files) → put p x s p ≡ x
unfolding put
put-own p x s = rw (str_eq_refl p) refl

put-other : (p q : Str) (x : Option Str) (s : Files) → q ≢ p → put p x s q ≡ s q
unfolding put
put-other p q x s h = rw (str_eq-false q p h) refl

abbrev disk_fs : FileSystem
disk_fs = record {
  State = Files;
  access_rw = λ s d. true;
  access_rwx = λ s d. true;
  mkdir = λ d s. (s, true);
  rename = λ src dst s. (put dst (s src) (put src none s), true);
}

abbrev answer : Transfer
answer = record {
  headers = codes "Content-Length: 3\r\n" ∷ [];
  chunks = codes "ab" ∷ codes "c" ∷ [];
  ok = true;
  response_code = 200;
}

abbrev disk_sys : System disk_fs
disk_sys = record {
  draw = λ s. (0, s);
  access_rw_x = λ s d. true;
  create = λ p s. put p (some []) s;
  append = λ p b s. put p (Option.map (λ x. x ++ b) (s p)) s;
  unlink = λ p s. put p none s;
  reads = λ s p. Option.map (λ x. chunk x ∷ []) (s p);
  easy_init = λ s. true;
  fetch = λ url s. (answer, s);
  post = λ url item s. (answer, s);
}

abbrev sum_md5 : Md5
sum_md5 = record { Ctx = Str; md5_init = []; update = λ c s. c ++ s; final = λ c i. 0 }

sum_md5-IsStreaming : IsStreaming sum_md5
sum_md5-IsStreaming = record {
  update-append = λ c s t. append_assoc c s t;
  update-nil = λ c. append-nil c;
}

abbrev toy : Setting
toy = record {
  fs = disk_fs;
  sys = disk_sys;
  md5 = sum_md5;
  base_path = codes "/data";
  my_ip = codes "::1";
  ev = toy_ev;
  json = toy_json;
}

whole : (x : Str) → content sum_md5 (chunk x ∷ []) ≡ some x
whole [] = refl
whole (b ∷ x) = ap some (append-nil (b ∷ x))

read_whole :
    (o : Option Str) (x : Str) (rs : List Read)
    → o ≡ some x
    → Option.map (λ y. chunk y ∷ []) o ≡ some rs
    → (content sum_md5 rs ≡ none) ⊎ (content sum_md5 rs ≡ some x)
read_whole none x rs e h = cc e
read_whole (some y) x rs e h =
    let same : rs ≡ chunk x ∷ [] = cc (e, h) in inr (ap (content sum_md5) same ∙ whole x)

toy-IsDisk : IsDisk toy
toy-IsDisk = record {
  contents = λ s p. s p;
  create-own = λ p s tmp. put-own p (some []) s;
  create-other = λ p q s h. put-other p q (some []) s h;
  append-own =
      λ p b x s e. put-own p (Option.map (λ y. y ++ b) (s p)) s ∙ ap (Option.map (λ y. y ++ b)) e;
  append-other = λ p q b s h. put-other p q (Option.map (λ y. y ++ b) (s p)) s h;
  unlink-other = λ p q s h. put-other p q none s h;
  rename-other = λ p d q s tmp h k. put-other d q (s p) (put p none s) k ∙ put-other p q none s h;
  mkdir-other = λ d q s. refl;
  draw-other = λ q s. refl;
  fetch-other = λ url q s. refl;
  post-other = λ url q item s. refl;
  reads-own = λ p x s rs e h. read_whole (s p) x rs e h;
}

abbrev empty : Files
empty = λ p. none

abbrev before : Service Files
before = idle toy (new_pool 1 1 4) false empty

abbrev joined : Service Files
joined = record (answered before busy_server []) { workers = top ∷ [] }

abbrev asking : Service Files
asking = moved joined [] [] (goes (shared_of joined) asks)

abbrev taken : Shared Files
taken = record (shared_of asking) { pool = new_pool 1 1 4 }

abbrev at_phase : Shared Files → Phase → List Finish → Service Files
at_phase s ph fin = record asking {
  server = record asking.server { thread_pool = s.pool };
  locked = s.locked;
  world = s.world;
  workers = ph ∷ [];
  finished = fin;
}

before-taken : ApartReach toy before (at_phase taken (has 0 x_task) [])
unfolding move after_get_task get_task push_task new_pool
before-taken =
    then_step
      (then_step
        (then_step
          (then_step start tt (
            request toy_request (some ok_reply) busy_server [] toy_request_lem (inl refl)
              ([], nobody tt, refl)))
          tt join)
        (tt, tt) (work [] [] top (goes (shared_of joined) asks) refl refl))
      (tt, tt) (work [] [] asks (goes taken (has 0 x_task)) refl refl)

-- One worker is apart.
step_at :
    (s : Shared Files) (ph : Phase) (m : Moved Files) (fin : List Finish)
    → move toy false (x_task ∷ []) s ph ≡ some m
    → ApartReach toy before (at_phase s ph fin)
    → ApartReach toy before (at_phase m.shared m.phase (fin ++ m.finished))
step_at s ph m fin e r = then_step r (tt, tt) (work [] [] ph m refl e)

reaches : Ending toy false (x_task ∷ [])
reaches = record {
  Comes = λ s ph i r.
      (fin : List Finish)
      → ApartReach toy before (at_phase s ph fin)
      → ApartReach toy before (
          at_phase (record s { world = r.state }) top
            (fin ++ record { pointer = i; deleted = r.deleted; result = r.result } ∷ []));
  Comes-goes = λ s w ph ph' i r e rest fin reached. rest fin (
      subst (λ f. ApartReach toy before (at_phase (record s { world = w }) ph' f)) (append-nil fin)
        (step_at s ph (goes (record s { world = w }) ph') fin e reached));
  Comes-ends = λ s ph i r e fin reached.
      step_at s ph (ends (record s { world = r.state }) i r.deleted r.result) fin e reached;
}

-- The file comes in two parts, is filed away and reported.
abbrev over : Service Files
over =
    let r = run_task disk_fs disk_sys sum_md5 (codes "/data") (codes "::1") x_task empty in
    at_phase (record taken { world = r.state }) top
      (record { pointer = 0; deleted = r.deleted; result = r.result } ∷ [])

before-over : ApartReach toy before over
unfolding reaches
before-over = run_task-Ending reaches taken 0 x_task [] before-taken

Reach-Genuine_example : All (λ f. Proven toy over.server.tasks f.pointer f.result) over.finished
Reach-Genuine_example =
    Reach-Genuine toy toy-IsDisk sum_md5-IsStreaming (new_pool 1 1 4) false empty over before-over
