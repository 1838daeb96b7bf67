-- ===== src/Redis/RoundTrip.antt =====
-- `setHash` and then `getHashAll`.
use mathlib.Core.Path.{ap₂}
use calcsig.Common.{
  All, Bool-cases, inl, inr, none, subst, append-nil, sym, ◌+◌, ◌*◌, ◌≡◌, ◌≢◌, refl, ap, ◌∙◌, arith,
  true, List, [], ◌∷◌, ◌++◌, map, length, some, append_assoc,
}
use calcsig.Common.Text.{
  Str, codes, lookup, insert, insert-new, NewKeys, str_eq, str_eq_refl, str_eq_iff, Lacks,
  c_string_whole,
}
use calcsig.Redis.{
  Transport, status, array, text, is_ok, is_ok_text, flatten, read_pairs, hash_of_reply, set_hash,
  get_hash_all, lower, command_lem,
}

-- No field and no value has a zero byte.
abbrev pub HasNoZero : Str × Str → Type 0
HasNoZero (k, v) = Lacks 0 k × Lacks 0 v

-- The loop of `getHashAll` takes apart what `setHash` laid out.
read_pairs-flatten :
    (key : Str) (done h : List (Str × Str))
    → NewKeys done h
    → All HasNoZero h
    → read_pairs true key done (map text (flatten h)) ≡ done ++ h
unfolding read_pairs flatten
read_pairs-flatten key done [] new whole = sym (append-nil done)
read_pairs-flatten key done ((k, v) ∷ h) new whole =
    ap₂ (λ j w. read_pairs true j (insert j w done) (map text (flatten h)))
      (c_string_whole k whole.0.0) (c_string_whole v whole.0.1)
    ∙ ap (λ m. read_pairs true k m (map text (flatten h))) (insert-new k v done new.0)
    ∙ read_pairs-flatten k (done ++ (k, v) ∷ []) h new.1 whole.1
    ∙ append_assoc done ((k, v) ∷ []) h

lookup-first :
    (k v : Str) (done h : List (Str × Str))
    → lookup k done ≡ none
    → lookup k (done ++ (k, v) ∷ h) ≡ some v
unfolding lookup
lookup-first k v [] h new = rw (str_eq_refl k)
lookup-first k v ((j, w) ∷ done) h new = ground (arith, lookup-first k v done h)

-- What holds of every entry that `lookup` finds holds of all entries.
found-All :
    (P : Str × Str → Type 0) (done h : List (Str × Str))
    → NewKeys done h
    → ((k v : Str) → lookup k (done ++ h) ≡ some v → P (k, v))
    → All P h
found-All P done [] new f = tt
found-All P done ((k, v) ∷ h) new f = (
  f k v (lookup-first k v done h new.0),
  found-All P (done ++ (k, v) ∷ []) h new.1
      (λ j w e. f j w (subst (λ l. lookup j l ≡ some w) (append_assoc done ((k, v) ∷ []) h) e)),
)

All-lookup :
    (h : List (Str × Str)) (k v : Str) → All HasNoZero h → lookup k h ≡ some v → HasNoZero (k, v)
unfolding lookup
All-lookup [] k v whole e = cc e
All-lookup ((j, w) ∷ h) k v whole e = elim (Bool-cases (str_eq j k)) [
  | inl same ↦
      let found = rw (same, lookup) at e in
      let key = (str_eq_iff j k).0 same in
      (subst (Lacks 0) key whole.0.0, subst (Lacks 0) (cc found) whole.0.1)
  | inr other ↦ All-lookup h k v whole.1 (rw (other, lookup) at e)
]

-- The entries sent are as many as `redisvalues` has room for.
length-flatten : (h : List (Str × Str)) → length (flatten h) ≡ length h * 2
unfolding flatten
length-flatten [] = omega arith
length-flatten ((k, v) ∷ h) = omega (arith, length-flatten h)

-- What the manual says of `HMSET` on a key that is absent, and of `HGETALL` behind it: the fields are
-- listed in any order, each once, with its value.
pub record KeepsHashes (tr : Transport) : Type 1 where
  pub IsAbsent : tr.State → Str → Type 0
  pub keeps :
      (s : tr.State) (key : Str) (h : List (Str × Str))
      → IsAbsent s key
      → h ≢ []
      → NewKeys [] h
      → (t : tr.State) × (u : tr.State) × (g : List (Str × Str)) × (tr.argv
            (codes "HMSET" ∷ key ∷ flatten h)
            s
          ≡ (some (status (codes "OK")), t))
        × (tr.argv (codes "HGETALL" ∷ key ∷ []) t ≡ (some (array (map text (flatten g))), u))
        × NewKeys [] g
        × ((k : Str) → lookup k g ≡ lookup k h)

module _ (tr : Transport) (law : KeepsHashes tr) where
  -- A hash that is not empty and has no zero byte in a field or a value, written at an absent key:
  -- `setHash` sends as many strings as its arrays have room for and reports success, and
  -- `getHashAll` then returns a hash with the same value at every field.
  pub get_hash_all-set_hash :
      (s : tr.State) (key : Str) (h : List (Str × Str))
      → law.IsAbsent s key
      → h ≢ []
      → NewKeys [] h
      → All HasNoZero h
      → (t : tr.State) × (u : tr.State) × (g : List (Str × Str)) × (length
            (codes "HMSET" ∷ key ∷ flatten h)
          ≡ length h * 2 + 2)
        × (set_hash tr key h s ≡ some (true, t))
        × (get_hash_all tr key t ≡ some (g, u))
        × ((k : Str) → lookup k g ≡ lookup k h)
  unfolding set_hash get_hash_all hash_of_reply
  get_hash_all-set_hash s key h absent ne new whole =
      let (t, u, g, e, e', gn, same) = law.keeps s key h absent ne new in
      let kept : All HasNoZero g =
        found-All HasNoZero [] g gn (λ k v found. All-lookup h k v whole (sym (same k) ∙ found)) in
      let ok : is_ok (status (codes "OK")) ≡ true = unfold is_ok is_ok_text lower str_eq in refl in
      (
        t,
        u,
        g,
        omega (arith, length-flatten h),
        command_lem tr (codes "HMSET" ∷ key ∷ flatten h) is_ok s (status (codes "OK"))
              (ap (λ p. p.0) e)
            ∙ ap₂ (λ b x. some (b, x)) ok (ap (λ p. p.1) e),
        command_lem tr (codes "HGETALL" ∷ key ∷ []) hash_of_reply t (array (map text (flatten g)))
              (ap (λ p. p.0) e')
            ∙ ap₂ (λ x y. some (x, y)) (read_pairs-flatten [] [] g gn kept) (ap (λ p. p.1) e'),
        same,
      )
