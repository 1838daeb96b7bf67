-- ===== src/Utils/Directories.antt =====
-- utils/utils.cpp: `mkdirs` and `mvfile`. The file system is a parameter: the calls `access`,
-- `mkdir` and `rename`, each on a state, with a Boolean for "returned 0".
pub mod Keeps
use calcsig.Common.{
  ℕ, zero, suc, ◌<◌, ◌≡◌, ◌≢◌, refl, ap, sym, ◌∙◌, arith, if◌then◌else◌, Bool, true, false, not,
  ◌&&◌, [], ◌∷◌, ◌++◌, length, length-take, take, take-append, Option, none, some, Option-cases,
  Bool-cases, inl, inr, ◌⊎◌,
}
use calcsig.Common.Text.{Str, rfind, rfind-lt, str_eq, str_eq-false}

-- `access_rw` is `F_OK|W_OK`, `access_rwx` is `F_OK|W_OK|X_OK`. The mode is fixed by each caller.
pub record FileSystem : Type 1 where
  pub State : Type 0
  pub access_rw : State → Str → Bool
  pub access_rwx : State → Str → Bool
  pub mkdir : Str → State → State × Bool
  pub rename : Str → Str → State → State × Bool

abbrev pub slash : ℕ
slash = b'/'

module _ (fs : FileSystem) where
  open fs use {State, access_rw, access_rwx, mkdir, rename}

  -- The parent that is to be made first, if there is one.
  pub missing_parent : State → Str → Option Str
  missing_parent s pathname = elim (rfind slash pathname) [
    | none ↦ none
    | some pos ↦
        if not (str_eq (take pos pathname) []) && not (access_rwx s (take pos pathname))
        then some (take pos pathname)
        else none
  ]

  pub after_parent : Str → State × Bool → State × Bool
  after_parent pathname (s, true) = mkdir pathname s
  after_parent pathname (s, false) = (s, false)

  -- True stands for "returned 0"; `none`, for fuel that ran out.
  mkdirs_within : ℕ → Str → State → Option (State × Bool)
  unfolding missing_parent after_parent
  mkdirs_within zero pathname s = none
  mkdirs_within (suc fuel) pathname s = elim (missing_parent s pathname) [
    | none ↦ some (mkdir pathname s)
    | some subpath ↦ elim (mkdirs_within fuel subpath s) [
      | none ↦ none
      | some r ↦ some (after_parent pathname r)
    ]
  ]

  -- Each call is on a shorter path, so the length is enough fuel.
  pub mkdirs : Str → State → State × Bool
  mkdirs pathname s = elim (mkdirs_within (suc (length pathname)) pathname s) [
    | none ↦ (s, false)
    | some r ↦ r
  ]

  missing_parent-lt :
      (s : State) (pathname sub : Str)
      → missing_parent s pathname ≡ some sub
      → length sub < length pathname
  unfolding missing_parent
  missing_parent-lt s pathname sub h = elim (Option-cases (rfind slash pathname)) [
    | inl e ↦ cc (rw (e, missing_parent) at h)
    | inr (pos, e) ↦
        let h' = rw (e, missing_parent) at h in
        ground (arith, rfind-lt slash pathname pos e, length-take pos pathname, h')
  ]

  mkdirs_within_eq :
      (f g : ℕ) (pathname : Str) (s : State)
      → length pathname < f
      → length pathname < g
      → mkdirs_within f pathname s ≡ mkdirs_within g pathname s
  unfolding mkdirs_within
  mkdirs_within_eq zero g pathname s hf hg = elim hf [ ]
  mkdirs_within_eq (suc f) zero pathname s hf hg = elim hg [ ]
  mkdirs_within_eq (suc f) (suc g) pathname s hf hg =
      elim (Option-cases (missing_parent s pathname)) [
        | inl e ↦ rw (e, mkdirs_within)
        | inr (sub, e) ↦
            let l = missing_parent-lt s pathname sub e in
            rw (e, mkdirs_within, mkdirs_within_eq f g sub s (omega arith) (omega arith))
      ]

  mkdirs_within-some :
      (f : ℕ) (pathname : Str) (s : State)
      → length pathname < f
      → (r : State × Bool) × (mkdirs_within f pathname s ≡ some r)
  unfolding mkdirs_within
  mkdirs_within-some zero pathname s h = elim h [ ]
  mkdirs_within-some (suc f) pathname s h = elim (Option-cases (missing_parent s pathname)) [
    | inl e ↦ (mkdir pathname s, rw (e, mkdirs_within))
    | inr (sub, e) ↦
        let l = missing_parent-lt s pathname sub e in
        let (r, er) = mkdirs_within-some f sub s (omega arith) in
        (after_parent pathname r, rw (e, mkdirs_within) (rw er))
  ]

  within_none :
      (f : ℕ) (pathname : Str) (s : State)
      → missing_parent s pathname ≡ none
      → mkdirs_within (suc f) pathname s ≡ some (mkdir pathname s)
  unfolding mkdirs_within
  within_none f pathname s e = rw (e, mkdirs_within)

  within_some :
      (f : ℕ) (pathname sub : Str) (s : State) (r : State × Bool)
      → missing_parent s pathname ≡ some sub
      → mkdirs_within f sub s ≡ some r
      → mkdirs_within (suc f) pathname s ≡ some (after_parent pathname r)
  unfolding mkdirs_within
  within_some f pathname sub s r e er = rw (e, mkdirs_within) (rw er)

  within_mkdirs :
      (f : ℕ) (pathname : Str) (s : State)
      → length pathname < f
      → mkdirs_within f pathname s ≡ some (mkdirs pathname s)
  unfolding mkdirs
  within_mkdirs f pathname s h =
      let (r, er) = mkdirs_within-some f pathname s h in
      let same = mkdirs_within_eq f (suc (length pathname)) pathname s h (omega arith) in
      cc (er, same)

  -- `mkdirs` ends on every path, and is what its body says: it makes the missing parent first, gives
  -- up if that fails, and makes the directory.
  mkdirs_lem :
      (pathname : Str) (s : State)
      → mkdirs pathname s ≡ elim (missing_parent s pathname) [
        | none ↦ mkdir pathname s
        | some subpath ↦ after_parent pathname (mkdirs subpath s)
      ]
  mkdirs_lem pathname s = elim (Option-cases (missing_parent s pathname)) [
    | inl e ↦ rw e (
        cc (
          within_mkdirs (suc (length pathname)) pathname s (omega arith),
          within_none (length pathname) pathname s e,
        ))
    | inr (sub, e) ↦
        let l = missing_parent-lt s pathname sub e in
        rw e (
          cc (
            within_mkdirs (suc (length pathname)) pathname s (omega arith),
            within_some (length pathname) pathname sub s (mkdirs sub s) e
                (within_mkdirs (length pathname) sub s (omega arith)),
          ))
  ]

  -- `mvfile(src, dst)`.
  mv_rename : Str → Str → State × Bool → State × Bool
  mv_rename src dst (s, true) = rename src dst s
  mv_rename src dst (s, false) = (s, false)

  -- The directory of `dst`, made if it is not accessible.
  target_dir : Str → State → State × Bool
  unfolding mkdirs
  target_dir dst s = elim (rfind slash dst) [
    | none ↦ (s, true)
    | some pos ↦ if access_rwx s (take pos dst) then (s, true) else mkdirs (take pos dst) s
  ]

  unfoldable pub mvfile : Str → Str → State → State × Bool
  unfolding mv_rename target_dir mkdirs_within
  mvfile src dst s = if access_rw s src then mv_rename src dst (target_dir dst s) else (s, false)

  target_dir-there :
      (dst : Str) (s : State) → ((d : Str) → access_rwx s d ≡ true) → target_dir dst s ≡ (s, true)
  unfolding target_dir
  target_dir-there dst s there = elim (Option-cases (rfind slash dst)) [
    | inl e ↦ rw (e, target_dir)
    | inr (pos, e) ↦ rw (e, there (take pos dst), target_dir)
  ]

  -- Where the source and every directory are accessible, `mvfile` is the rename.
  pub mvfile-there :
      (src dst : Str) (s : State)
      → access_rw s src ≡ true
      → ((d : Str) → access_rwx s d ≡ true)
      → mvfile src dst s ≡ rename src dst s
  unfolding mvfile mv_rename
  mvfile-there src dst s e there = rw (e, target_dir-there dst s there, mvfile)

-- What the manual of `mkdir(2)` says: a directory that was made is there, and what is there cannot
-- be made, also when it is spelled with a slash at the end.
pub record IsPosix (fs : FileSystem) : Type 0 where
  pub is_there : fs.State → Str → Bool
  pub mkdir_there : (d : Str) (s t : fs.State) → fs.mkdir d s ≡ (t, true) → is_there t d ≡ true
  pub mkdir_fails : (d : Str) (s : fs.State) → is_there s d ≡ true → fs.mkdir d s ≡ (s, false)
  pub mkdir_fails_slash :
      (d : Str) (s : fs.State) → is_there s d ≡ true → fs.mkdir (d ++ slash ∷ []) s ≡ (s, false)

module _ (fs : FileSystem) (posix : IsPosix fs) where
  after_parent-true :
      (p : Str) (r : fs.State × Bool) (t : fs.State)
      → after_parent fs p r ≡ (t, true)
      → (s : fs.State) × (r ≡ (s, true)) × (fs.mkdir p s ≡ (t, true))
  unfolding after_parent
  after_parent-true p (s, true) t h = (s, refl, h)
  after_parent-true p (s, false) t h = cc

  -- A directory that `mkdirs` reports as made is there.
  pub mkdirs_there :
      (d : Str) (s t : fs.State) → mkdirs fs d s ≡ (t, true) → posix.is_there t d ≡ true
  mkdirs_there d s t h = elim (Option-cases (missing_parent fs s d)) [
    | inl e ↦ posix.mkdir_there d s t (rw e at (rw mkdirs_lem at h))
    | inr (sub, e) ↦
        let (u, _, made) = after_parent-true d (mkdirs fs sub s) t (rw e at (rw mkdirs_lem at h)) in
        posix.mkdir_there d u t made
  ]

  rfind_last : (c : ℕ) (d : Str) → rfind c (d ++ c ∷ []) ≡ some (length d)
  unfolding rfind
  rfind_last c [] = ground arith
  rfind_last c (a ∷ d) = rw (rfind_last c d)

  missing_parent-slash :
      (d : Str) (s : fs.State)
      → d ≢ []
      → fs.access_rwx s d ≡ false
      → missing_parent fs s (d ++ slash ∷ []) ≡ some d
  unfolding missing_parent
  missing_parent-slash d s ne out =
      rw (rfind_last slash d, missing_parent)
        (rw (take-append d (slash ∷ []), str_eq-false d [] ne, out))

  after_parent-slash :
      (d : Str) (r : fs.State × Bool)
      → (r.1 ≡ true → posix.is_there r.0 d ≡ true)
      → after_parent fs (d ++ slash ∷ []) r ≡ (r.0, false)
  unfolding after_parent
  after_parent-slash d (s, true) h = posix.mkdir_fails_slash d s (h refl)
  after_parent-slash d (s, false) h = refl

  -- Called with a slash at the end, on a directory that is not accessible, `mkdirs` always reports a
  -- failure, even where it makes the directory: what it leaves is what the call without the slash
  -- leaves.
  pub mkdirs-slash :
      (d : Str) (s : fs.State)
      → d ≢ []
      → fs.access_rwx s d ≡ false
      → mkdirs fs (d ++ slash ∷ []) s ≡ ((mkdirs fs d s).0, false)
  mkdirs-slash d s ne out =
      mkdirs_lem fs (d ++ slash ∷ []) s
      ∙ rw (missing_parent-slash d s ne out) (
          after_parent-slash d (mkdirs fs d s)
            (λ e. mkdirs_there d s (mkdirs fs d s).0 (ap (λ (b : Bool). ((mkdirs fs d s).0, b)) e)))

  mv_rename-true :
      (src dst : Str) (r : fs.State × Bool) (u : fs.State)
      → mv_rename fs src dst r ≡ (u, true)
      → (t : fs.State) × (r ≡ (t, true)) × (fs.rename src dst t ≡ (u, true))
  unfolding mv_rename
  mv_rename-true src dst (t, true) u h = (t, refl, h)
  mv_rename-true src dst (t, false) u h = cc

  abbrev Ready : Str → fs.State → fs.State → Type 0
  Ready dst s t =
      (t ≡ s)
      ⊎ ((pos : ℕ) × (rfind slash dst ≡ some pos) × (posix.is_there t (take pos dst) ≡ true))

  target_dir-true : (dst : Str) (s t : fs.State) → target_dir fs dst s ≡ (t, true) → Ready dst s t
  unfolding target_dir
  target_dir-true dst s t h = elim (Option-cases (rfind slash dst)) [
    | inl e ↦ let h' = rw (e, target_dir) at h in inl (cc (ap (λ r. r.0) h'))
    | inr (pos, e) ↦
        let h' = rw (e, target_dir) at h in
        elim (Bool-cases (fs.access_rwx s (take pos dst))) [
          | inl ea ↦ let h2 = rw ea at h' in inl (sym (ap (λ r. r.0) h2))
          | inr ea ↦ inr (pos, e, mkdirs_there (take pos dst) s t (rw ea at h'))
        ]
  ]

  -- `mvfile` succeeds only if the source is accessible, the rename that comes last succeeds, and
  -- either nothing was changed before it or the directory of the target is there by `mkdirs`.
  pub mvfile-true :
      (src dst : Str) (s u : fs.State)
      → mvfile fs src dst s ≡ (u, true)
      → (fs.access_rw s src ≡ true)
        × (t : fs.State) × (fs.rename src dst t ≡ (u, true))
        × ((t ≡ s)
            ⊎ ((pos : ℕ) × (rfind slash dst ≡ some pos) × (posix.is_there t (take pos dst) ≡ true)))
  unfolding mvfile
  mvfile-true src dst s u h = elim (Bool-cases (fs.access_rw s src)) [
    | inl e ↦
        let (t, ready, moved) =
          mv_rename-true src dst (target_dir fs dst s) u (rw (e, mvfile) at h) in
        (e, t, moved, target_dir-true dst s t ready)
    | inr e ↦ let h' = rw (e, mvfile) at h in cc (ap (λ r. r.1) h')
  ]
