-- ===== src/Common/Text.antt =====
-- `std::string` as the list of its bytes: comparison, `find`, `rfind`, `substr`, `erase`, and the
-- dictionaries `std::map` and `std::unordered_map` from strings.
use Prim.Native.Nat.{ℕ, zero, suc, ◌<◌}
use Prim.Native.Char.{code}
use Prim.Native.String.{String}
use mathlib.Core.Path.{◌≡◌, refl}
use mathlib.Core.Logic.{◌↔◌, ◌≢◌, inl, inr}
use mathlib.Core.Bool.{Bool, true, false, ◌&&◌}
use mathlib.Core.List.{List, [], ◌∷◌, ◌++◌}
use mathlib.Core.Option.{Option, none, some}
use native.Mathlib.Omega.{arith}
use calcsig.Common.Tests.{◌==◌, if◌then◌else◌, Bool-cases, Option-cases}
use calcsig.Common.Lists.{length, take, drop, All}

abbrev pub Str : Type 0
Str = List ℕ

-- The code points of a literal: its bytes, if it is ASCII.
abbrev pub codes : String → Str
codes String.[] = []
codes (String.◌∷◌ c s) = code c ∷ codes s

unfoldable pub str_eq : Str → Str → Bool
str_eq [] [] = true
str_eq [] (b ∷ t) = false
str_eq (a ∷ s) [] = false
str_eq (a ∷ s) (b ∷ t) = (a == b) && str_eq s t

pub str_eq→eq : (s t : Str) → str_eq s t ≡ true → s ≡ t
unfolding str_eq
str_eq→eq [] [] h = refl
str_eq→eq [] (b ∷ t) h = cc
str_eq→eq (a ∷ s) [] h = cc
str_eq→eq (a ∷ s) (b ∷ t) h = ground (arith, str_eq→eq s t)

pub str_eq_refl : (s : Str) → str_eq s s ≡ true
unfolding str_eq
str_eq_refl [] = refl
str_eq_refl (a ∷ s) = ground (arith, str_eq_refl s)

pub str_eq_iff : (s t : Str) → (str_eq s t ≡ true) ↔ (s ≡ t)
str_eq_iff s t = (str_eq→eq s t, λ e. rw e (str_eq_refl t))

pub str_eq-false : (s t : Str) → s ≢ t → str_eq s t ≡ false
str_eq-false s t h = elim (Bool-cases (str_eq s t)) [
  | inl e ↦ absurd (h (str_eq→eq s t e))
  | inr e ↦ e
]

-- `s.find(c)`; `none` is `npos`.
unfoldable pub find : ℕ → Str → Option ℕ
find c [] = none
find c (a ∷ s) = if a == c then some 0 else elim (find c s) [ none ↦ none | some i ↦ some (suc i) ]

-- `s.rfind(c)`.
unfoldable pub rfind : ℕ → Str → Option ℕ
rfind c [] = none
rfind c (a ∷ s) = elim (rfind c s) [
  | none ↦ if a == c then some 0 else none
  | some i ↦ some (suc i)
]

-- `s.substr(pos, n)` for `pos <= s.size()`.
abbrev pub substr : ℕ → ℕ → Str → Str
substr pos n s = take n (drop pos s)

-- `s.erase(pos, 1)` for `pos <= s.size()`.
unfoldable pub erase : ℕ → Str → Str
erase i [] = []
erase zero (a ∷ s) = s
erase (suc i) (a ∷ s) = a ∷ erase i s

-- The byte does not occur.
abbrev pub Lacks : ℕ → Str → Type 0
Lacks c = All (λ b. b ≢ c)

pub find-Lacks : (c : ℕ) (s : Str) → Lacks c s → find c s ≡ none
unfolding find
find-Lacks c [] h = refl
find-Lacks c (a ∷ s) h = ground (arith, find-Lacks c s)

pub find-append : (c : ℕ) (s t : Str) → Lacks c s → find c (s ++ c ∷ t) ≡ some (length s)
unfolding find
find-append c [] t h = ground arith
find-append c (a ∷ s) t h = ground (arith, find-append c s t)

pub rfind-lt : (c : ℕ) (s : Str) (i : ℕ) → rfind c s ≡ some i → i < length s
unfolding rfind
rfind-lt c [] i h = cc
rfind-lt c (a ∷ s) i h = elim (Option-cases (rfind c s)) [
  | inl e ↦ ground arith
  | inr (j, e) ↦ ground (arith, rfind-lt c s j e)
]

-- A dictionary; `insert` leaves an existing entry alone, as `std::map::insert` does.
module _ {ℓ} {V : Type ℓ} where
  unfoldable pub lookup : Str → List (Str × V) → Option V
  lookup k [] = none
  lookup k ((j, v) ∷ m) = if str_eq j k then some v else lookup k m

  unfoldable pub insert : Str → V → List (Str × V) → List (Str × V)
  insert k v [] = (k, v) ∷ []
  insert k v ((j, w) ∷ m) = if str_eq j k then (j, w) ∷ m else (j, w) ∷ insert k v m

  pub lookup-insert :
      (k j : Str) (v : V) (m : List (Str × V))
      → lookup j (insert k v m)
        ≡ elim (lookup j m) [ none ↦ if str_eq k j then some v else none | some w ↦ some w ]
  unfolding lookup insert
  lookup-insert k j v [] = refl
  lookup-insert k j v ((i, w) ∷ m) =
      ground (arith, str_eq_iff k j, str_eq_iff i k, str_eq_iff i j, lookup-insert k j v m)

-- No key stands twice, nor among those before.
abbrev pub NewKeys {ℓ} : {V : Type ℓ} → List (Str × V) → List (Str × V) → Type ℓ
NewKeys done [] = Unit
NewKeys done ((k, v) ∷ es) = (lookup k done ≡ none) × NewKeys (done ++ (k, v) ∷ []) es

pub insert-new {ℓ} :
    {V : Type ℓ} (k : Str) (v : V) (m : List (Str × V))
    → lookup k m ≡ none
    → insert k v m ≡ m ++ (k, v) ∷ []
unfolding insert lookup
insert-new k v [] h = refl
insert-new k v ((j, w) ∷ m) h = ground (arith, insert-new k v m)

-- Two texts that agree, each cut at a separator that is not in the part before it.
pub split_unique :
    (c : ℕ) (s t u v : Str) → Lacks c s → Lacks c t → s ++ c ∷ u ≡ t ++ c ∷ v → (s ≡ t) × (u ≡ v)
split_unique c [] [] u v hs ht e = (refl, cc)
split_unique c [] (b ∷ t) u v hs ht e = absurd (ht.0 (cc))
split_unique c (a ∷ s) [] u v hs ht e = absurd (hs.0 (cc))
split_unique c (a ∷ s) (b ∷ t) u v hs ht e =
    let rest = split_unique c s t u v hs.1 ht.1 (cc) in (cc (rest.0), rest.1)

-- The bytes up to the first zero.
unfoldable pub c_string : Str → Str
c_string [] = []
c_string (c ∷ s) = let rest = c_string s in if c == 0 then [] else c ∷ rest

pub c_string-append : (s t : Str) → Lacks 0 s → c_string (s ++ t) ≡ s ++ c_string t
unfolding c_string
c_string-append [] t h = refl
c_string-append (c ∷ s) t h = ground (arith, c_string-append s t, h)

pub c_string_whole : (s : Str) → Lacks 0 s → c_string s ≡ s
unfolding c_string
c_string_whole [] h = refl
c_string_whole (c ∷ s) h = ground (arith, c_string_whole s h.1, h)

-- What stands behind a terminating zero is not read.
pub c_string-zero : (s t : Str) → c_string (s ++ 0 ∷ t) ≡ c_string s
unfolding c_string
c_string-zero [] t = refl
c_string-zero (c ∷ s) t = ground (arith, c_string-zero s t)
