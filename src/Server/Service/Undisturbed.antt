-- ===== src/Server/Service/Undisturbed.antt =====
-- src/server.cpp: the workers' reports under every interleaving in which no two of them have named the
-- same temporary file.
use calcsig.Common.{
  ℕ, ◌≡◌, refl, sym, ap, ◌∙◌, Bool, true, List, [], ◌∷◌, ◌++◌, append_assoc, append-nil, All, some,
  Option-cases, inl, inr,
}
use calcsig.Common.Text.{Str}
use calcsig.Utils.CalcSig.{
  IsStreaming, Outcome, calc_sig, outcome_of, calc_sig-content, calc_sig-none,
}
use calcsig.Utils.RandString.{rand_string}
use calcsig.Server.Request.{HttpTask}
use calcsig.Server.Worker.{item_of}
use calcsig.Server.Service.{
  Phase, top, asks, sleeps, ended, has, named, ready, opened, writing, signing, moving, reporting,
  Finish, Shared, Moved, Setting, move,
}
use calcsig.Server.Service.Answers.{Knows}
use calcsig.Server.Service.Files.{IsDisk}
use calcsig.Server.Service.Genuine.{concat, Signature, Proven, Own}
use calcsig.Server.Service.Cases.{
  Always, top-Always, asks-Always, named-Always, ready-Always, writing-Always, signing-Always,
  moving-Always, reporting-Always,
}

module _ (c : Setting) (disk : IsDisk c) (law : IsStreaming c.md5) (tasks : List HttpTask) where
  open c use {fs, sys, md5, base_path, my_ip}

  abbrev pub ProvenFinish : Finish → Type 0
  ProvenFinish f = Proven c tasks f.pointer f.result

  abbrev pub Fine : Moved fs.State → Type 0
  Fine m = Own c disk m.shared.world m.phase × All ProvenFinish m.finished

  -- The signatures are those of what the file holds.
  calc_sig-Signature :
      (w : fs.State) (path x : Str) (sigs : ℕ × ℕ)
      → disk.contents w path ≡ some x
      → (calc_sig md5 (sys.reads w path)).signature ≡ some sigs
      → Signature c x sigs
  calc_sig-Signature w path x sigs holds signed = elim (Option-cases (sys.reads w path)) [
    | inl e ↦
        let no_sig = ap (λ o. (calc_sig md5 o).signature) e ∙ calc_sig-none md5 in
        cc (no_sig, signed)
    | inr (rs, e) ↦
        let known =
          ap (λ (o : Outcome). o.signature) (ap (calc_sig md5) e ∙ calc_sig-content md5 law rs) in
        elim (disk.reads-own path x w rs holds e) [
          | inl bad ↦
              let no_sig = known ∙ ap (λ o. (outcome_of md5 o).signature) bad in cc (no_sig, signed)
          | inr good ↦ sym (ap (λ o. (outcome_of md5 o).signature) good) ∙ sym known ∙ signed
        ]
  ]

  pub move-Fine :
      (isstop : Bool) (s : Shared fs.State) (ph : Phase)
      → Knows tasks ph
      → Own c disk s.world ph
      → Always c Fine (move c isstop tasks s ph)
  unfolding move item_of
  move-Fine isstop s top k o = top-Always c Fine isstop tasks s (λ e. (tt, tt)) (tt, tt)
  move-Fine isstop s asks k o =
      asks-Always c Fine isstop tasks s (λ free e. (tt, tt)) (λ free e. (tt, tt))
        (λ i q t e found. (tt, tt))
  move-Fine isstop s ended k o = tt
  move-Fine isstop s sleeps k o = tt
  move-Fine isstop s (has i t) k o =
      (((rand_string sys.draw 16 true true s.world).0, t.file_format, refl), tt)
  move-Fine isstop s (named i t path) k o =
      named-Always c Fine isstop tasks s i t path ((o, tt), (tt, (tt, tt)))
  move-Fine isstop s (ready i t path) k o =
      ready-Always c Fine isstop tasks s i t path ((o, disk.create-own path s.world o), tt)
        (tt, (tt, tt))
  move-Fine isstop s (opened i t path) k (tmp, e) =
      ((tmp, (s.world, refl), [], disk.fetch-other t.src_url path s.world ∙ e, refl), tt)
  move-Fine isstop s (writing i t path r (b ∷ bs)) k (tmp, f, written, e, whole) = (
    (
      tmp,
      f,
      written ++ b,
      disk.append-own path b written s.world e,
      append_assoc written b (concat bs) ∙ whole,
    ),
    tt,
  )
  move-Fine isstop s (writing i t path r []) k (tmp, f, written, e, whole) =
      let full = e ∙ ap some (sym (append-nil written) ∙ whole) in
      writing-Always c Fine isstop tasks s i t path r (λ ok. ((tmp, r, f, ok, full, refl), tt))
        (tt, (tt, tt))
  move-Fine isstop s (signing i t path size) k (tmp, r, f, ok, holds, n) =
      signing-Always c Fine isstop tasks s i t path size
        (λ sigs e. ((tmp, r, f, ok, calc_sig-Signature s.world path _ sigs holds e, n), tt))
        (tt, (tt, tt))
  move-Fine isstop s (moving i t path sigs size) k (tmp, r, f, ok, signed, n) =
      moving-Always c Fine isstop tasks s i t path sigs size
        (((r, f, ok, signed, n), tt), (tt, (tt, tt)))
  move-Fine isstop s (reporting i t item) k o =
      reporting-Always c Fine isstop tasks s i t item (tt, ((t, k.0, refl, o), tt)) (tt, (tt, tt))
