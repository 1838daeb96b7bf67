-- ===== src/Utils/RandString.antt =====
-- utils/utils.cpp: `randString`. The generator `rand()` is a parameter: a state and the next draw.
use calcsig.Common.{
  ℕ, zero, suc, ◌+◌, ◌-◌, ◌%◌, ◌<◌, ◌≡◌, ◌↔◌, refl, ◌∙◌, arith, leb, ltb, ◌==◌, if◌then◌else◌, Bool,
  true, false, not, ◌&&◌, ◌||◌, [], ◌∷◌, ◌++◌, All, All-append, length, length-append, get_elem?,
  none, some, ◌⊎◌, inl, inr, Bool-cases,
}
use calcsig.Common.Text.{Str, codes}

abbrev pub str_chars : Str
str_chars = codes "abcdefghijklmnopqrstuvwxyzABCDEFGHIJKLMNOPQRSTUVWXYZ0123456789"

-- `STR[i]`; the terminating zero stands behind the last character.
char_at : ℕ → ℕ
char_at i = elim (get_elem? str_chars i) [ none ↦ 0 | some c ↦ c ]

-- One round of the loop, in each of its four versions, from the draw `r`.
pub pick : Bool → Bool → ℕ → ℕ
unfolding char_at
pick true true r = char_at (r % 62)
pick true false r = char_at (r % (62 - 10))
pick false true r =
    let index = r % 62 in
    let shifted = if ltb 25 index && ltb index 51 then index + 26 else index in
    char_at (shifted % 62)
pick false false r = char_at (r % (62 - 36))

module _ {R : Type 0} (rand : R → ℕ × R) where
  loop : ℕ → Bool → Bool → Str → R → Str × R
  loop zero capital num ret s = (ret, s)
  loop (suc n) capital num ret s =
      loop n capital num (ret ++ pick capital num (rand s).0 ∷ []) (rand s).1

  -- `randString(len, isCapital, isNum)`.
  pub rand_string : ℕ → Bool → Bool → R → Str × R
  unfolding loop
  rand_string len capital num s = loop len capital num [] s

  loop-keeps :
      {A : Type 0} (seen : R → A)
      → ((s : R) → seen (rand s).1 ≡ seen s)
      → (n : ℕ) (capital num : Bool) (ret : Str) (s : R)
      → seen (loop n capital num ret s).1 ≡ seen s
  unfolding loop
  loop-keeps seen same zero capital num ret s = refl
  loop-keeps seen same (suc n) capital num ret s =
      loop-keeps seen same n capital num (ret ++ pick capital num (rand s).0 ∷ []) (rand s).1
      ∙ same s

  -- What a draw leaves as it is, the call does too.
  pub rand_string-keeps :
      {A : Type 0} (seen : R → A)
      → ((s : R) → seen (rand s).1 ≡ seen s)
      → (len : ℕ) (capital num : Bool) (s : R) → seen (rand_string len capital num s).1 ≡ seen s
  unfolding rand_string
  rand_string-keeps seen same len capital num s = loop-keeps seen same len capital num [] s

pub is_lower : ℕ → Bool
is_lower c = leb b'a' c && leb c b'z'

pub is_upper : ℕ → Bool
is_upper c = leb b'A' c && leb c b'Z'

pub is_digit : ℕ → Bool
is_digit c = leb b'0' c && leb c b'9'

-- What the two flags ask for.
abbrev pub allowed : Bool → Bool → ℕ → Bool
allowed capital num c = is_lower c || (capital && is_upper c || num && is_digit c)

-- A test on every index of a table.
each_index : (ℕ → Bool) → ℕ → Bool
each_index test zero = true
each_index test (suc size) = if test size then each_index test size else false

each_index→at :
    (test : ℕ → Bool) (size i : ℕ) → i < size → each_index test size ≡ true → test i ≡ true
unfolding each_index
each_index→at test zero i lt h = elim lt [ ]
each_index→at test (suc size) i lt h = ground (arith, each_index→at test size i)

-- The version without capitals and with digits, from its index.
low_num_at : ℕ → ℕ
unfolding char_at
low_num_at index = char_at ((if ltb 25 index && ltb index 51 then index + 26 else index) % 62)

low_num_table :
    each_index (λ i. allowed false true (low_num_at i) || i == 51 && low_num_at i == b'Z') 62 ≡ true
unfolding each_index low_num_at is_lower is_upper is_digit
low_num_table = refl

both_table : each_index (λ i. allowed true true (char_at i)) 62 ≡ true
unfolding each_index char_at is_lower is_upper is_digit
both_table = refl

letters_table : each_index (λ i. allowed true false (char_at i)) 52 ≡ true
unfolding each_index char_at is_lower is_upper is_digit
letters_table = refl

lower_table : each_index (λ i. allowed false false (char_at i)) 26 ≡ true
unfolding each_index char_at is_lower is_upper is_digit
lower_table = refl

abbrev upper_at_51 : ℕ → Bool
upper_at_51 i = if i == 51 then is_upper (low_num_at i) else not (is_upper (low_num_at i))

upper_table : each_index upper_at_51 62 ≡ true
unfolding each_index low_num_at is_upper
upper_table = refl

-- A character is as asked, or it is the `Z` of the version with digits and without capitals.
abbrev pub AsAsked : Bool → Bool → ℕ → Type 0
AsAsked capital num c =
    (allowed capital num c ≡ true) ⊎ (capital ≡ false) × (num ≡ true) × (c ≡ b'Z')

pick-AsAsked : (capital num : Bool) (r : ℕ) → AsAsked capital num (pick capital num r)
unfolding pick
pick-AsAsked true true r = inl (each_index→at _ 62 (r % 62) (omega arith) both_table)
pick-AsAsked true false r = inl (each_index→at _ 52 (r % 52) (omega arith) letters_table)
pick-AsAsked false true r =
    let h = each_index→at _ 62 (r % 62) (omega arith) low_num_table in
    elim (Bool-cases (allowed false true (low_num_at (r % 62)))) [
      | inl e ↦ inl (unfold low_num_at in e)
      | inr e ↦ inr (refl, refl, unfold low_num_at in ground (arith, h))
    ]
pick-AsAsked false false r = inl (each_index→at _ 26 (r % 26) (omega arith) lower_table)

-- The version without capitals and with digits yields a capital exactly at the draws that are 51
-- modulo 62: the capital is `Z`.
pick-is_upper : (r : ℕ) → (is_upper (pick false true r) ≡ true) ↔ (r % 62 ≡ 51)
unfolding pick low_num_at
pick-is_upper r = ground (arith, each_index→at upper_at_51 62 (r % 62) (omega arith) upper_table)

module _ {R : Type 0} (rand : R → ℕ × R) where
  loop-AsAsked :
      (n : ℕ) (capital num : Bool) (ret : Str) (s : R)
      → All (AsAsked capital num) ret
      → All (AsAsked capital num) (loop rand n capital num ret s).0
        × (length (loop rand n capital num ret s).0 ≡ length ret + n)
  unfolding loop
  loop-AsAsked zero capital num ret s h = (h, omega arith)
  loop-AsAsked (suc n) capital num ret s h =
      let c = pick capital num (rand s).0 in
      let next = loop-AsAsked n capital num (ret ++ c ∷ []) (rand s).1 (
        All-append (AsAsked capital num) ret (c ∷ []) h
          (pick-AsAsked capital num (rand s).0, tt)) in
      (next.0, omega (arith, next.1, length-append ret (c ∷ [])))

  -- For every generator, the result has `len` characters, and each is of the classes that the flags
  -- ask for, but for the `Z` that stands among them without capitals and with digits; with these flags
  -- a draw gives a capital exactly if it is 51 modulo 62.
  pub rand_string-AsAsked :
      (len : ℕ) (capital num : Bool) (s : R)
      → (length (rand_string rand len capital num s).0 ≡ len)
        × All (AsAsked capital num) (rand_string rand len capital num s).0
        × ((r : ℕ) → (is_upper (pick false true r) ≡ true) ↔ (r % 62 ≡ 51))
  unfolding rand_string
  rand_string-AsAsked len capital num s =
      let h = loop-AsAsked len capital num [] s tt in (omega (arith, h.1), h.0, pick-is_upper)
