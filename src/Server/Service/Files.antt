-- ===== src/Server/Service/Files.antt =====
-- src/server.cpp: which files a step of a worker touches.
use calcsig.Common.{
  ℕ, ◌≡◌, ◌≢◌, refl, sym, ap, arith, Bool, true, List, [], ◌∷◌, ◌++◌, append_assoc, length, drop,
  drop-append, get_elem?, Option, none, some, Bool-cases, inl, inr, ◌⊎◌,
}
use calcsig.Common.Text.{Str, codes}
use calcsig.Utils.CalcSig.{Read, content}
use calcsig.Utils.RandString.{rand_string-keeps}
use calcsig.Utils.SigPath.{sig_path, sig_path-head}
use calcsig.Utils.Directories.{mvfile, slash}
use calcsig.Utils.Directories.Keeps.{mkdirs-keeps, mvfile-keeps}
use calcsig.Server.Request.{HttpTask}
use calcsig.Server.Worker.{Item, tmp_path, tmp_dir, tmp_ready, target_path}
use calcsig.Server.Service.{
  Phase, top, asks, sleeps, ended, has, named, ready, opened, writing, signing, moving, reporting,
  Shared, Moved, Setting, move,
}
use calcsig.Server.Service.Cases.{
  Always, top-Always, asks-Always, named-Always, ready-Always, writing-Always, signing-Always,
  moving-Always, reporting-Always,
}

-- The path is one of a temporary file.
abbrev pub IsTmp : Setting → Str → Type 0
IsTmp c path =
    (name : Str) × (ext : Str) × (path ≡ tmp_path c.fs c.sys c.md5 c.base_path c.my_ip name ext)

-- What the manuals say of a disk on which no `open` and no `write` of a temporary file fails:
-- `contents` is what a file holds. A call changes the files that it names and no other, and the reads
-- of a file that come to its end give what it holds.
pub record IsDisk (c : Setting) : Type 0 where
  pub contents : c.fs.State → Str → Option Str
  pub create-own : (p : Str) (s : c.fs.State) → IsTmp c p → contents (c.sys.create p s) p ≡ some []
  pub create-other :
      (p q : Str) (s : c.fs.State) → q ≢ p → contents (c.sys.create p s) q ≡ contents s q
  pub append-own :
      (p b x : Str) (s : c.fs.State)
      → contents s p ≡ some x
      → contents (c.sys.append p b s) p ≡ some (x ++ b)
  pub append-other :
      (p q b : Str) (s : c.fs.State) → q ≢ p → contents (c.sys.append p b s) q ≡ contents s q
  pub unlink-other :
      (p q : Str) (s : c.fs.State) → q ≢ p → contents (c.sys.unlink p s) q ≡ contents s q
  pub rename-other :
      (p d q : Str) (s : c.fs.State)
      → IsTmp c p
      → q ≢ p
      → q ≢ d
      → contents (c.fs.rename p d s).0 q ≡ contents s q
  pub mkdir-other : (d q : Str) (s : c.fs.State) → contents (c.fs.mkdir d s).0 q ≡ contents s q
  pub draw-other : (q : Str) (s : c.fs.State) → contents (c.sys.draw s).1 q ≡ contents s q
  pub fetch-other : (url q : Str) (s : c.fs.State) → contents (c.sys.fetch url s).1 q ≡ contents s q
  pub post-other :
      (url q : Str) (item : Item) (s : c.fs.State)
      → contents (c.sys.post url item s).1 q ≡ contents s q
  pub reads-own :
      (p x : Str) (s : c.fs.State) (rs : List Read)
      → contents s p ≡ some x
      → c.sys.reads s p ≡ some rs
      → (content c.md5 rs ≡ none) ⊎ (content c.md5 rs ≡ some x)

-- The temporary file that a worker has named.
abbrev pub path_of : Phase → Option Str
path_of top = none
path_of asks = none
path_of sleeps = none
path_of ended = none
path_of (has i t) = none
path_of (named i t path) = some path
path_of (ready i t path) = some path
path_of (opened i t path) = some path
path_of (writing i t path r left) = some path
path_of (signing i t path size) = some path
path_of (moving i t path sigs size) = some path
path_of (reporting i t item) = none

module _ (c : Setting) where
  open c use {fs, sys, md5, base_path, my_ip}

  -- The store is not in `tmp`.
  pub target_path-IsTmp :
      (t : HttpTask) (sigs : ℕ × ℕ) (q : Str)
      → IsTmp c q
      → q ≢ target_path fs sys md5 base_path my_ip t sigs
  unfolding target_path tmp_path tmp_dir
  target_path-IsTmp t sigs q (name, ext, e) h =
      let (letter, rest, head, other) = sig_path-head sigs.0 sigs.1 t.file_format in
      let at1 : Str → Option ℕ = λ s. get_elem? (drop (length base_path) s) 1 in
      let file = name ++ b'.' ∷ ext in
      let l : at1 ((base_path ++ codes "/tmp/") ++ file) ≡ some b't' =
        rw
          (
            append_assoc base_path (codes "/tmp/") file,
            drop-append base_path (codes "/tmp/" ++ file),
          )
          refl in
      let r : at1 (base_path ++ slash ∷ sig_path sigs.0 sigs.1 t.file_format) ≡ some letter =
        rw (drop-append base_path (slash ∷ sig_path sigs.0 sigs.1 t.file_format), head) refl in
      let same : letter ≡ b't' = cc (l, r) in absurd (ground (arith, same, other))

module _ (c : Setting) (disk : IsDisk c) (tasks : List HttpTask) (isstop : Bool) where
  open c use {fs, sys, md5, base_path, my_ip}

  -- A file in `tmp` that is not the worker's is as it was.
  abbrev pub Leaves : Str → Shared fs.State → Moved fs.State → Type 0
  Leaves q s m = disk.contents m.shared.world q ≡ disk.contents s.world q

  tmp_ready-other :
      (q : Str) (w : fs.State)
      → disk.contents (tmp_ready fs sys md5 base_path my_ip w).0 q ≡ disk.contents w q
  unfolding tmp_ready
  tmp_ready-other q w = elim (Bool-cases (sys.access_rw_x w (tmp_dir fs sys md5 base_path my_ip))) [
    | inl e ↦ rw (e, tmp_ready) refl
    | inr e ↦
        rw (e, tmp_ready)
          (mkdirs-keeps fs (λ s. disk.contents s q) (λ d s. disk.mkdir-other d q s) _ w)
  ]

  mvfile-other :
      (q : Str) (s : Shared fs.State) (src dst : Str)
      → IsTmp c src
      → q ≢ src
      → q ≢ dst
      → disk.contents (mvfile fs src dst s.world).0 q ≡ disk.contents s.world q
  mvfile-other q s src dst tmp h k =
      mvfile-keeps fs (λ w. disk.contents w q) (λ d w. disk.mkdir-other d q w) src dst s.world
        (λ w. disk.rename-other src dst q w tmp h k)

  pub move-Leaves :
      (q : Str) (s : Shared fs.State) (ph : Phase)
      → IsTmp c q
      → ((p : Str) → path_of ph ≡ some p → IsTmp c p)
      → path_of ph ≢ some q
      → Always c (Leaves q s) (move c isstop tasks s ph)
  unfolding move
  move-Leaves q s top is_tmp own other = top-Always c (Leaves q s) isstop tasks s (λ e. refl) refl
  move-Leaves q s asks is_tmp own other =
      asks-Always c (Leaves q s) isstop tasks s (λ free e. refl) (λ free e. refl)
        (λ i l t e found. refl)
  move-Leaves q s ended is_tmp own other = tt
  move-Leaves q s sleeps is_tmp own other = tt
  move-Leaves q s (has i t) is_tmp own other =
      rand_string-keeps sys.draw (λ w. disk.contents w q) (disk.draw-other q) 16 true true s.world
  move-Leaves q s (named i t path) is_tmp own other =
      let keeps = tmp_ready-other q s.world in
      named-Always c (Leaves q s) isstop tasks s i t path (keeps, keeps)
  move-Leaves q s (ready i t path) is_tmp own other =
      let keeps = disk.create-other path q s.world (λ e. other (ap some (sym e))) in
      ready-Always c (Leaves q s) isstop tasks s i t path keeps keeps
  move-Leaves q s (opened i t path) is_tmp own other = disk.fetch-other t.src_url q s.world
  move-Leaves q s (writing i t path r (b ∷ bs)) is_tmp own other =
      disk.append-other path q b s.world (λ e. other (ap some (sym e)))
  move-Leaves q s (writing i t path r []) is_tmp own other =
      writing-Always c (Leaves q s) isstop tasks s i t path r (λ e. refl)
        (disk.unlink-other path q s.world (λ e. other (ap some (sym e))))
  move-Leaves q s (signing i t path size) is_tmp own other =
      signing-Always c (Leaves q s) isstop tasks s i t path size (λ sigs e. refl) refl
  move-Leaves q s (moving i t path sigs size) is_tmp own other =
      let keeps =
        mvfile-other q s path (target_path fs sys md5 base_path my_ip t sigs) (own path refl)
          (λ e. other (ap some (sym e))) (target_path-IsTmp c t sigs q is_tmp) in
      moving-Always c (Leaves q s) isstop tasks s i t path sigs size (keeps, keeps)
  move-Leaves q s (reporting i t item) is_tmp own other =
      reporting-Always c (Leaves q s) isstop tasks s i t item
        (disk.post-other t.callback_url q item s.world) refl
