-- ===== src/Utils/FormatStr.antt =====
-- utils/utils.cpp: `formatStr`. The text that `vsnprintf` and `vsprintf` make of the format and the
-- arguments is a parameter, and so is the memory that `new` gives; a length is a natural number.
use calcsig.Common.{
  ℕ, suc, ◌+◌, ◌-◌, ◌≡◌, refl, ap, ◌∙◌, ◌≤◌, arith, leb, le→leb, if◌then◌else◌, [], ◌∷◌, ◌++◌,
  length, set, drop, Option, none, some,
}
use calcsig.Common.Text.{Str, c_string, c_string-zero}

-- `text` and its terminating zero, written to the front of `buf`; `none` where they do not fit.
pub vsprintf : Str → Str → Option Str
vsprintf text buf =
    if leb (length text + 1) (length buf)
    then some (text ++ 0 ∷ drop (length text + 1) buf)
    else none

module _ {Args : Type 0} (printed : Str → Args → Str) (fresh : ℕ → Str) where
  pub format_str : Str → Args → Option Str
  unfolding vsprintf
  format_str fmt arg_list =
      let text = printed fmt arg_list in
      let size = length text + 10 in
      elim (vsprintf text (fresh size)) [
        | none ↦ none
        | some buf ↦ some (c_string (set buf (size - 1) 0))
      ]

set-behind : (s t : Str) (k v : ℕ) → set (s ++ t) (length s + k) v ≡ s ++ set t k v
set-behind [] t k v = let e : 0 + k ≡ k = omega arith in ap (λ i. set t i v) e
set-behind (c ∷ s) t k v =
    let e : suc (length s) + k ≡ suc (length s + k) = omega arith in
    ap (λ i. set (c ∷ (s ++ t)) i v) e ∙ ap (◌∷◌ c) (set-behind s t k v)

vsprintf-fits :
    (text buf : Str)
    → length text + 1 ≤ length buf
    → vsprintf text buf ≡ some (text ++ 0 ∷ drop (length text + 1) buf)
unfolding vsprintf
vsprintf-fits text buf h = rw (le→leb (length text + 1) (length buf) h) refl

-- The buffer is large enough for every text, and the result is the text up to its first zero.
pub format_str-printed :
    {Args : Type 0} (printed : Str → Args → Str) (fresh : ℕ → Str)
    → ((n : ℕ) → length (fresh n) ≡ n)
    → (fmt : Str) (arg_list : Args)
    → format_str printed fresh fmt arg_list ≡ some (c_string (printed fmt arg_list))
unfolding format_str
format_str-printed printed fresh sized fmt arg_list =
    let text = printed fmt arg_list in
    let rest = drop (length text + 1) (fresh (length text + 10)) in
    let last : length text + 10 - 1 ≡ length text + 9 = omega arith in
    rw
      (
        vsprintf-fits text (fresh (length text + 10)) (omega (arith, sized (length text + 10))),
        last,
        set-behind text (0 ∷ rest) 9 0,
        c_string-zero text (set rest 8 0),
        format_str,
      )
      refl
