-- ===== src/Utils/Punct.antt =====
-- utils/utils.cpp: `remove_space_punct`, and the classes of bytes of the "C" locale that it uses.
use calcsig.Common.{
  ℕ, ◌≤◌, ◌≡◌, refl, arith, leb, ◌==◌, if◌then◌else◌, Bool, not, ◌&&◌, ◌||◌, [], ◌∷◌, All, ◌∙◌, ◌⊎◌,
  keep,
}
use calcsig.Common.Text.{Str}

between : ℕ → ℕ → ℕ → Bool
between lo hi c = leb lo c && leb c hi

pub is_alnum : ℕ → Bool
unfolding between
is_alnum c = between b'0' b'9' c || (between b'A' b'Z' c || between b'a' b'z' c)

-- `ispunct`: printable, not a space and not alphanumeric.
unfoldable pub is_punct : ℕ → Bool
unfolding is_alnum
is_punct c = between 33 126 c && not (is_alnum c)

-- `isspace`: space, and the bytes from tab to carriage return.
unfoldable pub is_space : ℕ → Bool
unfolding between
is_space c = c == 32 || between 9 13 c

-- `std::remove_if` moves what stays to the front, and `erase` cuts the rest off.
remove_if : (ℕ → Bool) → Str → Str
remove_if p [] = []
remove_if p (c ∷ s) = if p c then remove_if p s else c ∷ remove_if p s

unfoldable pub remove_space_punct : Str → Str
unfolding remove_if
remove_space_punct source = remove_if is_space (remove_if is_punct source)

remove_if-keep :
    (p q : ℕ → Bool) (s : Str) → remove_if q (remove_if p s) ≡ keep (λ c. not (p c || q c)) s
unfolding remove_if
remove_if-keep p q [] = refl
remove_if-keep p q (c ∷ s) = ground (arith, remove_if-keep p q s)

-- A byte of plain text: printable ASCII or white space.
abbrev pub IsText : ℕ → Type 0
IsText c = (9 ≤ c) × (c ≤ 13) ⊎ (32 ≤ c) × (c ≤ 126)

text_kept : (c : ℕ) → IsText c → not (is_punct c || is_space c) ≡ is_alnum c
unfolding is_punct is_space is_alnum
text_kept c h = ground arith

keep-alnum :
    (s : Str) → All IsText s → keep (λ c. not (is_punct c || is_space c)) s ≡ keep is_alnum s
keep-alnum [] h = refl
keep-alnum (c ∷ s) h = ground (arith, text_kept c h.0, keep-alnum s)

-- Of a plain text, `remove_space_punct` keeps exactly the letters and digits, in their order.
pub remove_space_punct-keep : (s : Str) → All IsText s → remove_space_punct s ≡ keep is_alnum s
unfolding remove_space_punct
remove_space_punct-keep s h = remove_if-keep is_punct is_space s ∙ keep-alnum s h
