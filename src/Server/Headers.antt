-- ===== src/Server/Headers.antt =====
-- src/server.cpp: the functions that curl calls with a header line and with a part of the body. A
-- line is the `size * nmemb` bytes at `ptr`.
use calcsig.Common.{
  ℕ, ◌+◌, ◌-◌, ◌*◌, ◌^◌, ◌≡◌, refl, ap, subst, sym, ◌∙◌, arith, ltb, leb, ◌%◌, ◌==◌, if◌then◌else◌,
  false, ◌&&◌, ◌||◌, List, [], ◌∷◌, ◌++◌, All, take, drop, Option-cases, inl, inr, none, some,
}
use calcsig.Common.Text.{Str, codes, str_eq, find}
use calcsig.Server.Init.{front_number}
use calcsig.Common.Decimal.{format, format-value, format-IsDigit, IsDigit, value_from}

abbrev pub ulong_max : ℕ
ulong_max = 2 ^ 64 - 1

-- `strtoul` at base 10: spaces, a sign, digits; too large a number reads as the largest, and behind a
-- minus sign the number is negated modulo 2 ^ 64.
pub strtoul : Str → ℕ
unfolding front_number
strtoul [] = 0
strtoul (c ∷ s) =
    let rest = strtoul s in
    let start = if c == b'+' || c == b'-' then s else c ∷ s in
    if c == 32 || leb 9 c && leb c 13
    then rest
    else if ltb ulong_max (front_number 0 start)
    then ulong_max
    else if c == b'-'
    then (2 ^ 64 - front_number 0 start) % 2 ^ 64
    else front_number 0 start

-- `content_length` after the line `line`, from what it was. A colon in the last byte of the line,
-- where the code would build a string of a negative length, reads as an empty number: every line
-- of curl ends in two more bytes.
pub head_reader : Str → ℕ → ℕ
unfolding strtoul
head_reader line content_length = elim (find b':' line) [
  | none ↦ content_length
  | some pos ↦
      if str_eq (take 14 line) (codes "Content-Length")
      then strtoul (drop (pos + 2) line)
      else content_length
]

-- `callback_head_reader`, the same on the other record.
pub callback_head_reader : Str → ℕ → ℕ
unfolding strtoul
callback_head_reader line content_length = elim (find b':' line) [
  | none ↦ content_length
  | some pos ↦
      if str_eq (take 14 line) (codes "Content-Length")
      then strtoul (drop (pos + 2) line)
      else content_length
]

pub read_headers : List Str → ℕ → ℕ
unfolding head_reader
read_headers [] content_length = content_length
read_headers (line ∷ lines) content_length = read_headers lines (head_reader line content_length)

front_number-digits :
    (acc : ℕ) (s : Str) → All IsDigit s → front_number acc (s ++ codes "\r\n") ≡ value_from acc s
unfolding front_number value_from
front_number-digits acc [] h = refl
front_number-digits acc (c ∷ s) h = ground (arith, front_number-digits (acc * 10 + (c - b'0')) s, h)

abbrev pub min : ℕ → ℕ → ℕ
min m n = if leb m n then m else n

strtoul-digits :
    (c : ℕ) (s : Str)
    → All IsDigit (c ∷ s)
    → strtoul (c ∷ s ++ codes "\r\n") ≡ min ulong_max (value_from 0 (c ∷ s))
unfolding strtoul
strtoul-digits c s h = let e = front_number-digits 0 (c ∷ s) h in ground (arith, h, e)

abbrev pub content_length_line : ℕ → Str
content_length_line n = codes "Content-Length: " ++ format n ++ codes "\r\n"

abbrev pub no_space_line : ℕ → Str
no_space_line n = codes "Content-Length:" ++ format n ++ codes "\r\n"

strtoul-format : (n : ℕ) → strtoul (format n ++ codes "\r\n") ≡ min ulong_max n
unfolding value_from strtoul
strtoul-format n = go (format n) refl
  where
    go : (s : Str) → format n ≡ s → strtoul (format n ++ codes "\r\n") ≡ min ulong_max n
    go [] e = let z : n ≡ 0 = sym (format-value n) ∙ ap (value_from 0) e in rw e (rw z)
    go (c ∷ s) e =
        let digits = subst (All IsDigit) e (format-IsDigit n) in
        let value : value_from 0 (c ∷ s) ≡ n = ap (value_from 0) (sym e) ∙ format-value n in
        rw e (strtoul-digits c s digits ∙ rw value)

-- The line `Content-Length: n`, with one space, sets the length to `n`, or to the largest number of 64
-- bits if that is less, for the download as for the callback. Without the space, which HTTP allows,
-- the first byte of the number is lost.
pub head_reader-content_length :
    (n old : ℕ)
    → (head_reader (content_length_line n) old ≡ min ulong_max n)
      × (callback_head_reader (content_length_line n) old ≡ min ulong_max n)
      × (head_reader (no_space_line n) old ≡ strtoul (drop 1 (format n ++ codes "\r\n")))
      × (callback_head_reader (no_space_line n) old ≡ strtoul (drop 1 (format n ++ codes "\r\n")))
unfolding head_reader callback_head_reader str_eq find
head_reader-content_length n old = (strtoul-format n, strtoul-format n, refl, refl)

-- A line of another header, whatever it holds, leaves the length.
pub head_reader-other :
    (name value : Str) (old : ℕ)
    → str_eq (take 14 (name ++ b':' ∷ value)) (codes "Content-Length") ≡ false
    → head_reader (name ++ b':' ∷ value) old ≡ old
unfolding head_reader
head_reader-other name value old h = elim (Option-cases (find b':' (name ++ b':' ∷ value))) [
  | inl e ↦ rw (e, head_reader)
  | inr (pos, e) ↦ rw (e, h, head_reader)
]
