-- ===== src/Server/Service/Apart.antt =====
-- src/server.cpp: the reports of any number of workers, in every interleaving of their steps in which
-- no two of them have drawn the same name for their temporary files.
use calcsig.Common.{
  ℕ, ◌≡◌, ◌≢◌, sym, subst, Bool, List, [], ◌∷◌, ◌++◌, All, All-append, All-parts, All-mono,
  get_elem?-append, some,
}
use calcsig.Common.Text.{Str}
use calcsig.Utils.CalcSig.{IsStreaming}
use calcsig.ThreadPool98.{Pool, stop}
use calcsig.Server.Request.{HttpTask}
use calcsig.Server.Request.Accepted.{calcsig_process-tasks}
use calcsig.Server.Worker.{
  Result, tmp_dir_failed, no_curl, download_failed, sig_failed, mv_failed, no_callback, called_back,
}
use calcsig.Server.Service.{
  Phase, top, Moved, Setting, Service, moved, shared_of, pushed, Step, work, request, wake, join,
  halt, stop_server, idle, move,
}
use calcsig.Server.Service.Answers.{Knows, Knows-append, Right, move-Right}
use calcsig.Server.Service.Files.{IsDisk, path_of, Leaves, move-Leaves}
use calcsig.Server.Service.Genuine.{Proven, Own, Own-same, Own-IsTmp}
use calcsig.Server.Service.Undisturbed.{Fine, move-Fine}
use calcsig.Server.Service.Woken.{woken-All, Signals-All}
use calcsig.Server.Service.Cases.{Always-some}

-- The two have not named the same file.
abbrev pub Clear : Phase → Phase → Type 0
Clear a b = (q : Str) → path_of a ≡ some q → path_of b ≢ some q

-- No two workers have.
abbrev pub Apart : List Phase → Type 0
Apart [] = Unit
Apart (ph ∷ rest) = All (Clear ph) rest × Apart rest

Clear-sym : (a b : Phase) → Clear a b → Clear b a
Clear-sym a b h q e d = h q d e

Apart-parts :
    (before after : List Phase) (ph : Phase)
    → Apart (before ++ ph ∷ after)
    → All (Clear ph) before × All (Clear ph) after
Apart-parts [] after ph a = (tt, a.0)
Apart-parts (b ∷ before) after ph a =
    let (u, (clear, v)) = All-parts (Clear b) before (ph ∷ after) a.0 in
    let (f, g) = Apart-parts before after ph a.1 in ((Clear-sym b ph clear, f), g)

All-zip :
    {A : Type 0} {P Q R : A → Type 0}
    → ((x : A) → P x → Q x → R x)
    → (xs : List A) → All P xs
    → All Q xs
    → All R xs
All-zip f [] p q = tt
All-zip f (x ∷ xs) p q = (f x p.0 q.0, All-zip f xs p.1 q.1)

Proven-append :
    (c : Setting) (tasks more : List HttpTask) (i : ℕ) (r : Result)
    → Proven c tasks i r
    → Proven c (tasks ++ more) i r
Proven-append c tasks more i tmp_dir_failed p = tt
Proven-append c tasks more i no_curl p = tt
Proven-append c tasks more i download_failed p = tt
Proven-append c tasks more i sig_failed p = tt
Proven-append c tasks more i mv_failed p = tt
Proven-append c tasks more i no_callback p = tt
Proven-append c tasks more i (called_back url item) (t, found, u, g) =
    (t, get_elem?-append tasks more i t found, u, g)

-- A run in which no two workers ever have named the same file.
pub data ApartReach (c : Setting) (v : Service c.fs.State) : Service c.fs.State → Type 0 where
  start : ApartReach c v v
  then_step :
      {u w : Service c.fs.State}
      → ApartReach c v u
      → Apart u.workers
      → Step c u w
      → ApartReach c v w

module _ (c : Setting) (disk : IsDisk c) (law : IsStreaming c.md5) where
  open c use {fs}

  abbrev Sound : Service fs.State → Type 0
  Sound v =
      All (Knows v.server.tasks) v.workers
      × All (Own c disk v.world) v.workers
      × All (λ f. Proven c v.server.tasks f.pointer f.result) v.finished

  work-Sound :
      (v : Service fs.State) (before after : List Phase) (ph : Phase) (m : Moved fs.State)
      → v.workers ≡ before ++ ph ∷ after
      → move c v.isstop v.server.tasks (shared_of v) ph ≡ some m
      → Apart v.workers
      → Sound v
      → Sound (moved v before after m)
  work-Sound v before after ph m place e apart (knows, own, proven) =
      let tasks = v.server.tasks in
      let (k_before, (k, k_after)) =
        All-parts (Knows tasks) before (ph ∷ after) (subst (All (Knows tasks)) place knows) in
      let (o_before, (o, o_after)) =
        All-parts (Own c disk v.world) before (ph ∷ after)
          (subst (All (Own c disk v.world)) place own) in
      let (clear_before, clear_after) = Apart-parts before after ph (subst Apart place apart) in
      let right =
        Always-some c (Right c tasks) _ m e (move-Right c tasks v.isstop (shared_of v) ph k) in
      let fine =
        Always-some c (Fine c disk law tasks) _ m e
          (move-Fine c disk law tasks v.isstop (shared_of v) ph k o) in
      let others : (x : Phase) → Clear ph x → Own c disk v.world x → Own c disk m.shared.world x =
        λ x clear own_x.
          Own-same c disk v.world m.shared.world x
            (λ q named. Always-some c (Leaves c disk tasks v.isstop q (shared_of v)) _ m e (
              move-Leaves c disk tasks v.isstop q (shared_of v) ph
                (Own-IsTmp c disk v.world x q named own_x)
                (λ p mine. Own-IsTmp c disk v.world ph p mine o) (λ same. clear q same named)))
            own_x in
      (
        All-append (Knows tasks) before (m.phase ∷ after) k_before (right.0, k_after),
        All-append (Own c disk m.shared.world) before (m.phase ∷ after)
            (All-zip others before clear_before o_before)
            (fine.0, All-zip others after clear_after o_after),
        All-append (λ f. Proven c tasks f.pointer f.result) v.finished m.finished proven fine.1,
      )

  Step-Sound : {v w : Service fs.State} → Step c v w → Apart v.workers → Sound v → Sound w
  unfolding stop
  Step-Sound {v} (work before after ph m place e) apart s =
      work-Sound v before after ph m place e apart s
  Step-Sound {v} (request r sent server workers h free signals) apart (knows, own, proven) =
      let (more, tasks) = calcsig_process-tasks c.ev c.json r v.server server sent h in
      subst
        (λ (l : List HttpTask).
          All (Knows l) workers
          × All (Own c disk v.world) workers
          × All (λ f. Proven c l f.pointer f.result) v.finished)
        (sym tasks)
        (
          All-mono (Knows-append v.server.tasks more) workers (
              Signals-All (Knows v.server.tasks) (λ k. k) (pushed v server) v.workers workers
                signals knows),
          Signals-All (Own c disk v.world) (λ k. k) (pushed v server) v.workers workers signals own,
          All-mono (λ f. Proven-append c v.server.tasks more f.pointer f.result) v.finished proven,
        )
  Step-Sound {v} (wake before after place) apart (knows, own, proven) = (
    woken-All (Knows v.server.tasks) (λ k. k) v.workers before after place knows,
    woken-All (Own c disk v.world) (λ k. k) v.workers before after place own,
    proven,
  )
  Step-Sound {v} join apart (knows, own, proven) = (
    All-append (Knows v.server.tasks) v.workers (top ∷ []) knows (tt, tt),
    All-append (Own c disk v.world) v.workers (top ∷ []) own (tt, tt),
    proven,
  )
  Step-Sound halt apart s = s
  Step-Sound stop_server apart s = s

  Reach-Sound : {v w : Service fs.State} → ApartReach c v w → Sound v → Sound w
  Reach-Sound start s = s
  Reach-Sound (then_step r apart st) s = Step-Sound st apart (Reach-Sound r s)

  -- On a disk on which no `open` and no `write` of a temporary file fails, and as long as no two
  -- workers have drawn the same name: whatever the interleaving, every report goes to the URL of its
  -- task, and has the signatures of a download from that task's source that came whole with the code
  -- 200, and the size that the headers of this download gave.
  pub Reach-Genuine :
      (pool : Pool) (isstop : Bool) (world : fs.State) (v : Service fs.State)
      → ApartReach c (idle c pool isstop world) v
      → All (λ f. Proven c v.server.tasks f.pointer f.result) v.finished
  Reach-Genuine pool isstop world v r = (Reach-Sound r (tt, tt, tt)).2
