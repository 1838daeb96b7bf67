-- ===== src/Common/Decimal.antt =====
-- A number written in decimal, as `stringstream << n` does, and the value of a decimal text.
use Prim.Native.Nat.{ℕ, zero, suc, ◌+◌, ◌-◌, ◌*◌, ◌/◌, ◌%◌, ◌≤◌, ◌<◌}
use mathlib.Core.Path.{◌≡◌, refl, ap, sym, ◌∙◌}
use mathlib.Core.List.{[], ◌∷◌, ◌++◌}
use native.Mathlib.Omega.{arith}
use calcsig.Common.Tests.{ltb, if◌then◌else◌}
use calcsig.Common.Lists.{All, All-append}
use calcsig.Common.Text.{Str, codes}

-- The fuel bounds the number of digits; `n + 1` is enough for `n`.
unfoldable pub format_within : ℕ → ℕ → Str
format_within zero n = []
format_within (suc fuel) n =
    let more = format_within fuel (n / 10) ++ (b'0' + n % 10) ∷ [] in
    if ltb n 10 then (b'0' + n) ∷ [] else more

unfoldable pub format : ℕ → Str
unfolding format_within
format n = format_within (suc n) n

abbrev pub IsDigit : ℕ → Type 0
IsDigit c = (b'0' ≤ c) × (c ≤ b'9')

-- The value of a text of digits, read from the left.
unfoldable pub value_from : ℕ → Str → ℕ
value_from acc [] = acc
value_from acc (c ∷ s) = value_from (acc * 10 + (c - b'0')) s

value_from-append :
    (acc : ℕ) (s t : Str) → value_from acc (s ++ t) ≡ value_from (value_from acc s) t
unfolding value_from
value_from-append acc [] t = refl
value_from-append acc (c ∷ s) t = value_from-append (acc * 10 + (c - b'0')) s t

format_within-value : (fuel n : ℕ) → n < fuel → value_from 0 (format_within fuel n) ≡ n
unfolding format_within value_from
format_within-value zero n h = elim h [ ]
format_within-value (suc fuel) n h = ground (
  arith,
  value_from-append 0 (format_within fuel (n / 10)) ((b'0' + n % 10) ∷ []),
  format_within-value fuel (n / 10),
)

format_within-IsDigit : (fuel n : ℕ) → All IsDigit (format_within fuel n)
unfolding format_within
format_within-IsDigit zero n = tt
format_within-IsDigit (suc fuel) n =
    let rest =
      All-append IsDigit (format_within fuel (n / 10)) ((b'0' + n % 10) ∷ [])
        (format_within-IsDigit fuel (n / 10)) (omega arith) in
    ground (arith, rest)

pub format-value : (n : ℕ) → value_from 0 (format n) ≡ n
unfolding format
format-value n = format_within-value (suc n) n (omega arith)

pub format-IsDigit : (n : ℕ) → All IsDigit (format n)
unfolding format
format-IsDigit n = format_within-IsDigit (suc n) n

pub format_injective : (m n : ℕ) → format m ≡ format n → m ≡ n
format_injective m n e = sym (format-value m) ∙ ap (value_from 0) e ∙ format-value n

format_thousand : format 1030 ≡ codes "1030"
unfolding format
format_thousand = refl
