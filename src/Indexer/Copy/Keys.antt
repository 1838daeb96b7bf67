-- ===== src/Indexer/Copy/Keys.antt =====
-- indexer/indexer.cpp: the keys of Redis that a pass writes are different from the key of a row.
use mathlib.Core.List.{append_cancel_left}
use calcsig.Common.{ℕ, ◌≡◌, ◌≢◌, sym, ap, subst, arith, [], ◌∷◌, ◌++◌, All}
use calcsig.Common.Text.{Str, codes}
use calcsig.Common.Decimal.{format, IsDigit, format-IsDigit, format_injective}
use calcsig.Indexer.Copy.{row_key, policy_key, pay_key, audio_key}

All-middle : (p s : Str) (c : ℕ) → All IsDigit (p ++ c ∷ s) → IsDigit c
All-middle [] s c h = h.0
All-middle (d ∷ p) s c h = All-middle p s c h.1

-- A text with another character is no number.
format-ne : (p s : Str) (c rid : ℕ) → (IsDigit c → ⊥) → p ++ c ∷ s ≢ format rid
format-ne p s c rid other e =
    other (All-middle p s c (subst (All IsDigit) (sym e) (format-IsDigit rid)))

module _ (table : Str) (rid : ℕ) where
  pub row_key-ne : (other : ℕ) → other ≢ rid → row_key table other ≢ row_key table rid
  unfolding row_key
  row_key-ne other ne e =
      let tail = append_cancel_left table _ _ e in ne (format_injective other rid (cc tail))

  pub policy_key-ne : (policy : Str) (other : ℕ) → policy_key table policy other ≢ row_key table rid
  unfolding row_key policy_key
  policy_key-ne policy other e =
      let tail = append_cancel_left table _ _ e in
      format-ne policy (format other) b':' rid (λ d. omega (arith, d)) (cc tail)

  pub pay_key-ne : (other : ℕ) → pay_key table other ≢ row_key table rid
  unfolding row_key pay_key
  pay_key-ne other e =
      let tail = append_cancel_left table _ _ e in
      format-ne [] (codes "ay:" ++ format other) b'P' rid (λ d. omega (arith, d)) (cc tail)

  pub audio_key-ne : (other : ℕ) → audio_key table other ≢ row_key table rid
  unfolding row_key audio_key
  audio_key-ne other e =
      let tail = append_cancel_left table _ _ e in
      format-ne [] (codes "udio:" ++ format other) b'A' rid (λ d. omega (arith, d)) (cc tail)

pub product_key-ne :
    (rid : ℕ) (product : Str) → codes "Audio:" ++ product ≢ row_key (codes "Music") rid
unfolding row_key
product_key-ne rid product e =
    let first = λ (s : Str). elim s as (λ _. ℕ) [ [] ↦ 0 | c ∷ t ↦ c ] in
    let letters : b'A' ≡ b'M' = ap first e in omega (arith, letters)
