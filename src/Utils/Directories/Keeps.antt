-- ===== src/Utils/Directories/Keeps.antt =====
-- utils/utils.cpp: what `mkdirs` and `mvfile` leave as it is.
use calcsig.Common.{
  ℕ, zero, suc, ◌≡◌, refl, subst, ◌∙◌, Bool, true, false, length, take, Option, none, some,
  Option-cases, Bool-cases, inl, inr,
}
use calcsig.Common.Text.{Str, rfind}
use calcsig.Utils.Directories.{
  FileSystem, slash, missing_parent, after_parent, mkdirs_within, mkdirs, mv_rename, target_dir,
  mvfile,
}

-- What every `mkdir` leaves as it is, `mkdirs` does too, and `mvfile`, if its `rename` does.
module _ (fs : FileSystem) {A : Type 0} (seen : fs.State → A)
    (mkdir_keeps : (d : Str) (s : fs.State) → seen (fs.mkdir d s).0 ≡ seen s) where
  after_parent-keeps : (p : Str) (r : fs.State × Bool) → seen (after_parent fs p r).0 ≡ seen r.0
  unfolding after_parent
  after_parent-keeps p (s, true) = mkdir_keeps p s
  after_parent-keeps p (s, false) = refl

  abbrev AllSeen : fs.State → Option (fs.State × Bool) → Type 0
  AllSeen s none = Unit
  AllSeen s (some r) = seen r.0 ≡ seen s

  within-AllSeen : (f : ℕ) (p : Str) (s : fs.State) → AllSeen s (mkdirs_within fs f p s)
  unfolding mkdirs_within
  within-AllSeen zero p s = tt
  within-AllSeen (suc f) p s = elim (Option-cases (missing_parent fs s p)) [
    | inl e ↦ rw (e, mkdirs_within) (mkdir_keeps p s)
    | inr (sub, e) ↦ elim (Option-cases (mkdirs_within fs f sub s)) [
      | inl deep ↦ rw (e, deep, mkdirs_within) tt
      | inr (r, deep) ↦
          rw (e, deep, mkdirs_within)
            (after_parent-keeps p r ∙ subst (AllSeen s) deep (within-AllSeen f sub s))
    ]
  ]

  pub mkdirs-keeps : (p : Str) (s : fs.State) → seen (mkdirs fs p s).0 ≡ seen s
  unfolding mkdirs
  mkdirs-keeps p s = elim (Option-cases (mkdirs_within fs (suc (length p)) p s)) [
    | inl e ↦ rw (e, mkdirs) refl
    | inr (r, e) ↦ rw (e, mkdirs) (subst (AllSeen s) e (within-AllSeen (suc (length p)) p s))
  ]

  target_dir-keeps : (dst : Str) (s : fs.State) → seen (target_dir fs dst s).0 ≡ seen s
  unfolding target_dir
  target_dir-keeps dst s = elim (Option-cases (rfind slash dst)) [
    | inl e ↦ rw (e, target_dir) refl
    | inr (pos, e) ↦ elim (Bool-cases (fs.access_rwx s (take pos dst))) [
      | inl there ↦ rw (e, there, target_dir) refl
      | inr missing ↦ rw (e, missing, target_dir) (mkdirs-keeps (take pos dst) s)
    ]
  ]

  mv_rename-keeps :
      (src dst : Str) (r : fs.State × Bool)
      → ((s : fs.State) → seen (fs.rename src dst s).0 ≡ seen s)
      → seen (mv_rename fs src dst r).0 ≡ seen r.0
  unfolding mv_rename
  mv_rename-keeps src dst (s, true) h = h s
  mv_rename-keeps src dst (s, false) h = refl

  pub mvfile-keeps :
      (src dst : Str) (s : fs.State)
      → ((t : fs.State) → seen (fs.rename src dst t).0 ≡ seen t)
      → seen (mvfile fs src dst s).0 ≡ seen s
  unfolding mvfile
  mvfile-keeps src dst s h = elim (Bool-cases (fs.access_rw s src)) [
    | inl e ↦
        rw (e, mvfile) (mv_rename-keeps src dst (target_dir fs dst s) h ∙ target_dir-keeps dst s)
    | inr e ↦ rw (e, mvfile) refl
  ]
