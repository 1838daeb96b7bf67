-- ===== src/Indexer/Values.antt =====
-- mysqlpool/mysqlconn.h: the conversion of a field to a type, `operator T`, at the types that the
-- indexer asks for. It reads the value by `>>` from a stream.
use calcsig.Common.{
  ℕ, ◌-◌, ◌%◌, ◌^◌, leb, ◌==◌, if◌then◌else◌, Bool, true, false, ◌&&◌, ◌||◌, [], ◌∷◌,
}
use calcsig.Common.Text.{Str}
use calcsig.Server.Init.{front_number}

-- `isspace`.
abbrev pub is_space : ℕ → Bool
is_space c = c == 32 || leb 9 c && leb c 13

pub skip_spaces : Str → Str
skip_spaces [] = []
skip_spaces (c ∷ s) = let rest = skip_spaces s in if is_space c then rest else c ∷ s

pub until_space : Str → Str
until_space [] = []
until_space (c ∷ s) = let rest = until_space s in if is_space c then [] else c ∷ rest

-- `operator std::string`: one word, not the whole text.
unfoldable pub to_string : Str → Str
unfolding skip_spaces until_space
to_string s = until_space (skip_spaces s)

abbrev pub uint_mod : ℕ
uint_mod = 2 ^ 32

-- A number too large reads as the largest one; with a minus sign it wraps round.
pub clip : Bool → ℕ → ℕ
clip negative n =
    if leb uint_mod n then uint_mod - 1 else if negative then (uint_mod - n) % uint_mod else n

read_unsigned : Str → ℕ
unfolding clip
read_unsigned [] = 0
read_unsigned (c ∷ s) =
    if c == b'-'
    then clip true (front_number 0 s)
    else if c == b'+'
    then clip false (front_number 0 s)
    else clip false (front_number 0 (c ∷ s))

-- `operator unsigned int`. `left` is what the variable `value` held before, which is not initialised
-- and which stays if there is nothing but spaces to read.
unfoldable pub to_unsigned : ℕ → Str → ℕ
unfolding skip_spaces read_unsigned
to_unsigned left s = elim (skip_spaces s) [ [] ↦ left | c ∷ t ↦ read_unsigned (c ∷ t) ]
