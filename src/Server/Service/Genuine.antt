-- ===== src/Server/Service/Genuine.antt =====
-- src/server.cpp: what a round knows of its file while the other workers go on with theirs.
use calcsig.Common.{
  ℕ, ◌≡◌, refl, ◌∙◌, subst, ◌==◌, ◌&&◌, true, List, [], ◌∷◌, ◌++◌, get_elem?, some,
}
use calcsig.Common.Text.{Str}
use calcsig.Utils.CalcSig.{outcome_of}
use calcsig.Server.Headers.{read_headers}
use calcsig.Server.Request.{HttpTask}
use calcsig.Server.Worker.{Transfer, Item, Result, called_back}
use calcsig.Server.Service.{
  Phase, top, asks, sleeps, ended, has, named, ready, opened, writing, signing, moving, reporting,
  Setting,
}
use calcsig.Server.Service.Files.{IsDisk, IsTmp, path_of}

abbrev pub concat : List Str → Str
concat [] = []
concat (s ∷ ss) = s ++ concat ss

some_eq : {a b : Str} → some a ≡ some b → a ≡ b
some_eq e = cc e

module _ (c : Setting) where
  open c use {fs, sys, md5, base_path, my_ip}

  -- The answer to a request for the URL of the task.
  abbrev pub Fetched : HttpTask → Transfer → Type 0
  Fetched t r = (s : fs.State) × ((sys.fetch t.src_url s).0 ≡ r)

  -- It came whole, with the code 200.
  abbrev pub Complete : Transfer → Type 0
  Complete r = (r.ok && r.response_code == 200) ≡ true

  abbrev pub Signature : Str → ℕ × ℕ → Type 0
  Signature x sigs = (outcome_of md5 (some x)).signature ≡ some sigs

  -- The item has the signatures and the size of a download of the task that succeeded.
  abbrev pub Genuine : HttpTask → Item → Type 0
  Genuine t item =
      (r : Transfer) × Fetched t r
      × Complete r
      × Signature (concat r.chunks) (item.file_sig1, item.file_sig2)
      × (item.file_size ≡ read_headers r.headers 0)

  -- Of a round that is over, if it reported.
  abbrev pub Proven : List HttpTask → ℕ → Result → Type 0
  Proven tasks i (called_back url item) =
      (t : HttpTask) × (get_elem? tasks i ≡ some t) × (url ≡ t.callback_url) × Genuine t item
  Proven tasks i _ = Unit

  module _ (disk : IsDisk c) where
    -- What the temporary file holds, by the place of the worker.
    abbrev pub Own : fs.State → Phase → Type 0
    Own w top = Unit
    Own w asks = Unit
    Own w sleeps = Unit
    Own w ended = Unit
    Own w (has i t) = Unit
    Own w (named i t path) = IsTmp c path
    Own w (ready i t path) = IsTmp c path
    Own w (opened i t path) = IsTmp c path × (disk.contents w path ≡ some [])
    Own w (writing i t path r left) =
        IsTmp c path
        × Fetched t r
        × (written : Str) × (disk.contents w path ≡ some written)
        × (written ++ concat left ≡ concat r.chunks)
    Own w (signing i t path size) =
        IsTmp c path
        × (r : Transfer) × Fetched t r
        × Complete r
        × (disk.contents w path ≡ some (concat r.chunks))
        × (size ≡ read_headers r.headers 0)
    Own w (moving i t path sigs size) =
        IsTmp c path
        × (r : Transfer) × Fetched t r
        × Complete r
        × Signature (concat r.chunks) sigs
        × (size ≡ read_headers r.headers 0)
    Own w (reporting i t item) = Genuine t item

    -- Only the worker's own file matters.
    pub Own-same :
        (w u : fs.State) (ph : Phase)
        → ((q : Str) → path_of ph ≡ some q → disk.contents u q ≡ disk.contents w q)
        → Own w ph
        → Own u ph
    Own-same w u top same o = tt
    Own-same w u asks same o = tt
    Own-same w u sleeps same o = tt
    Own-same w u ended same o = tt
    Own-same w u (has i t) same o = tt
    Own-same w u (named i t path) same o = o
    Own-same w u (ready i t path) same o = o
    Own-same w u (opened i t path) same (tmp, e) = (tmp, same path refl ∙ e)
    Own-same w u (writing i t path r left) same (tmp, f, written, e, whole) =
        (tmp, f, written, same path refl ∙ e, whole)
    Own-same w u (signing i t path size) same (tmp, r, f, ok, e, n) =
        (tmp, r, f, ok, same path refl ∙ e, n)
    Own-same w u (moving i t path sigs size) same o = o
    Own-same w u (reporting i t item) same o = o

    pub Own-IsTmp :
        (w : fs.State) (ph : Phase) (q : Str) → path_of ph ≡ some q → Own w ph → IsTmp c q
    Own-IsTmp w top q e o = cc e
    Own-IsTmp w asks q e o = cc e
    Own-IsTmp w sleeps q e o = cc e
    Own-IsTmp w ended q e o = cc e
    Own-IsTmp w (has i t) q e o = cc e
    Own-IsTmp w (named i t path) q e o = subst (IsTmp c) (some_eq e) o
    Own-IsTmp w (ready i t path) q e o = subst (IsTmp c) (some_eq e) o
    Own-IsTmp w (opened i t path) q e o = subst (IsTmp c) (some_eq e) o.0
    Own-IsTmp w (writing i t path r left) q e o = subst (IsTmp c) (some_eq e) o.0
    Own-IsTmp w (signing i t path size) q e o = subst (IsTmp c) (some_eq e) o.0
    Own-IsTmp w (moving i t path sigs size) q e o = subst (IsTmp c) (some_eq e) o.0
    Own-IsTmp w (reporting i t item) q e o = cc e
