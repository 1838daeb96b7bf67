-- ===== src/Redis/Replies.antt =====
-- How the results depend on the replies.
use calcsig.Common.{ℕ, ◌≡◌, ◌⊎◌, inl, inr, refl, ap, ◌∙◌, false, List, [], ◌∷◌, some}
use calcsig.Common.Text.{Str, codes}
use calcsig.Redis.{
  Transport, Reply, error, integer, nil, string, is_ok, string_of_reply, set_add, set_del,
  get_string, command_lem,
}

-- What the manual says of `SADD` and `SREM`: the reply is the number of members added or removed, or
-- an error.
pub record CountsMembers (tr : Transport) : Type 0 where
  pub counts :
      (args : List Str) (s : tr.State) (cmd : Str)
      → (cmd ≡ codes "SADD") ⊎ (cmd ≡ codes "SREM")
      → (r : Reply) × (t : tr.State) × (tr.argv (cmd ∷ args) s ≡ (some r, t))
        × (((n : ℕ) × (r ≡ integer n)) ⊎ ((e : Str) × (r ≡ error e)))

module _ (tr : Transport) (law : CountsMembers tr) where
  count_not_ok :
      (r : Reply) → ((n : ℕ) × (r ≡ integer n)) ⊎ ((e : Str) × (r ≡ error e)) → is_ok r ≡ false
  unfolding is_ok
  count_not_ok r (inl (n, e)) = rw e
  count_not_ok r (inr (m, e)) = rw e

  set_add-false :
      (key value : Str) (s : tr.State)
      → (set_add tr key value s ≡ some (false, (tr.argv (codes "SADD" ∷ key ∷ value ∷ []) s).1))
        × (set_del tr key value s ≡ some (false, (tr.argv (codes "SREM" ∷ key ∷ value ∷ []) s).1))
  unfolding set_add set_del
  set_add-false key value s =
      let (r, t, e, c) = law.counts (key ∷ value ∷ []) s (codes "SADD") (inl refl) in
      let (r', t', e', c') = law.counts (key ∷ value ∷ []) s (codes "SREM") (inr refl) in
      (
        command_lem tr (codes "SADD" ∷ key ∷ value ∷ []) is_ok s r (ap (λ p. p.0) e)
            ∙ ap (λ b. some (b, (tr.argv (codes "SADD" ∷ key ∷ value ∷ []) s).1))
                (count_not_ok r c),
        command_lem tr (codes "SREM" ∷ key ∷ value ∷ []) is_ok s r' (ap (λ p. p.0) e')
            ∙ ap (λ b. some (b, (tr.argv (codes "SREM" ∷ key ∷ value ∷ []) s).1))
                (count_not_ok r' c'),
      )

-- What the manual says of `GET`: a string, nil, or an error.
pub record ReadsString (tr : Transport) : Type 0 where
  pub reads :
      (key : Str) (s : tr.State)
      → (r : Reply) × (t : tr.State) × (tr.argv (codes "GET" ∷ key ∷ []) s ≡ (some r, t))
        × (((v : Str) × (r ≡ string v)) ⊎ (r ≡ nil) ⊎ ((e : Str) × (r ≡ error e)))

module _ (tr : Transport) (law : ReadsString tr) where
  no_status :
      (r : Reply)
      → ((v : Str) × (r ≡ string v)) ⊎ (r ≡ nil) ⊎ ((e : Str) × (r ≡ error e))
      → string_of_reply r ≡ []
  unfolding string_of_reply
  no_status r (inl (v, e)) = rw e
  no_status r (inr (inl e)) = rw e
  no_status r (inr (inr (m, e))) = rw e

  get_string-empty :
      (key : Str) (s : tr.State)
      → get_string tr key s ≡ some ([], (tr.argv (codes "GET" ∷ key ∷ []) s).1)
  unfolding get_string
  get_string-empty key s =
      let (r, t, e, c) = law.reads key s in
      command_lem tr (codes "GET" ∷ key ∷ []) string_of_reply s r (ap (λ p. p.0) e)
      ∙ ap (λ v. some (v, (tr.argv (codes "GET" ∷ key ∷ []) s).1)) (no_status r c)

-- On a Redis server `setAdd` and `setDel` report a failure every time, also where the member was added
-- or removed, and `getString` returns the empty string for every key, whatever is stored; the state is
-- the one that the command leaves.
pub statuses_only :
    (tr : Transport)
    → CountsMembers tr
    → ReadsString tr
    → (key value : Str) (s : tr.State)
    → (set_add tr key value s ≡ some (false, (tr.argv (codes "SADD" ∷ key ∷ value ∷ []) s).1))
      × (set_del tr key value s ≡ some (false, (tr.argv (codes "SREM" ∷ key ∷ value ∷ []) s).1))
      × (get_string tr key s ≡ some ([], (tr.argv (codes "GET" ∷ key ∷ []) s).1))
statuses_only tr members strings key value s =
    let (add, del) = set_add-false tr members key value s in
    (add, del, get_string-empty tr strings key s)
