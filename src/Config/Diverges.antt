-- ===== src/Config/Diverges.antt =====
-- What a space in the file does to `loadConfig`.
use calcsig.Common.{
  ℕ, zero, suc, ◌≡◌, ◌≢◌, ◌⊎◌, inl, inr, refl, List, [], ◌∷◌, none, some, Option-cases,
}
use calcsig.Common.Text.{Str, find, erase}
use calcsig.Config.{
  Parser, erase_loop, del_spaces, parse_line, strip_comment, load_lines, load_config,
}

abbrev pub HasSpace : Str → Type 0
HasSpace s = find 32 s ≢ none

-- Some line holds a space, be it in a comment.
abbrev pub AnySpace : List Str → Type 0
AnySpace [] = ⊥
AnySpace (line ∷ lines) = HasSpace line ⊎ AnySpace lines

erase_loop-none : (fuel i : ℕ) (s : Str) → erase_loop fuel (some i) s ≡ none
unfolding erase_loop
erase_loop-none zero i s = refl
erase_loop-none (suc fuel) i s = erase_loop-none fuel i (erase i s)

del_spaces-none : (fuel : ℕ) (s : Str) → HasSpace s → del_spaces fuel s ≡ none
unfolding del_spaces
del_spaces-none fuel [] h = unfold find in absurd (h refl)
del_spaces-none fuel (c ∷ s) h = elim (Option-cases (find 32 (c ∷ s))) [
  | inl e ↦ absurd (h e)
  | inr (i, e) ↦ rw e (erase_loop-none fuel i (c ∷ s))
]

load_lines-none :
    (fuel : ℕ) (p : Parser) (lines : List Str) → AnySpace lines → load_lines fuel p lines ≡ none
unfolding load_lines
load_lines-none fuel p [] h = absurd h
load_lines-none fuel p (line ∷ lines) (inl h) = rw (del_spaces-none fuel line h, load_lines)
load_lines-none fuel p (line ∷ lines) (inr h) = elim (Option-cases (del_spaces fuel line)) [
  | inl e ↦ rw (e, load_lines)
  | inr (s, e) ↦ rw (e, load_lines) (load_lines-none fuel (parse_line p (strip_comment s)) lines h)
]

-- On a file with a space on any line, a comment's included, `loadConfig` never returns: no number of
-- rounds is enough.
pub load_config-diverges :
    (lines : List Str) → AnySpace lines → (fuel : ℕ) → load_config fuel (some lines) ≡ none
unfolding load_config
load_config-diverges lines h fuel = rw (load_lines-none fuel _ lines h, load_config)
