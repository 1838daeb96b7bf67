-- ===== src/Config.antt =====
-- utils/config.h and utils/config.cpp: `configParser::loadConfig`. The file is the list of the lines
-- that `getline` returns.
pub mod Diverges
pub mod RoundTrip
pub mod Tests
use calcsig.Common.{
  ℕ, zero, suc, ◌+◌, ◌-◌, ltb, if◌then◌else◌, Bool, true, false, not, ◌&&◌, ◌||◌, List, [], ◌∷◌,
  Option, none, some, take, drop,
}
use calcsig.Common.Text.{Str, str_eq, find, erase, insert, substr}

abbrev pub Section : Type 0
Section = List (Str × Str)

-- The member `config`, and the loop's variables.
pub record Parser : Type 0 where
  pub config : List (Str × Section)
  pub cur_key : Str
  pub temp_map : Section

-- `while(index != npos) instr.erase(index, 1)`; `none` if the fuel runs out. The loop does not
-- change `index`.
pub erase_loop : ℕ → Option ℕ → Str → Option Str
erase_loop zero index instr = none
erase_loop (suc fuel) none instr = some instr
erase_loop (suc fuel) (some i) instr = erase_loop fuel (some i) (erase i instr)

-- The part under `//del ' '`.
pub del_spaces : ℕ → Str → Option Str
unfolding erase_loop
del_spaces fuel [] = some []
del_spaces fuel (c ∷ s) = erase_loop fuel (find 32 (c ∷ s)) (c ∷ s)

abbrev pub is_some {ℓ} : {A : Type ℓ} → Option A → Bool
is_some none = false
is_some (some a) = true

-- The line up to `#`.
pub strip_comment : Str → Str
strip_comment instr = elim (find b'#' instr) [ none ↦ instr | some i ↦ substr 0 i instr ]

-- `instr.substr(l + 1, r - l - 1)`; where `]` is missing or stands first, the count is negative, and as
-- an unsigned number it reaches to the end.
pub section_name : ℕ → Option ℕ → Str → Str
section_name l none instr = drop (suc l) instr
section_name l (some r) instr =
    if ltb l r then substr (suc l) (r - l - 1) instr else drop (suc l) instr

pub put_section : Parser → List (Str × Section)
put_section p = if str_eq p.cur_key [] then p.config else insert p.cur_key p.temp_map p.config

-- The rest of the loop's body, on a line without its comment.
pub parse_line : Parser → Str → Parser
unfolding section_name put_section
parse_line p instr =
    let left = find b'[' instr in
    let right = find b']' instr in
    let eq = find b'=' instr in
    if str_eq instr [] || (not (is_some eq) && (not (is_some left) || not (is_some right)))
    then p
    else elim left [
      | some l ↦ record p {
        config = put_section p;
        cur_key = section_name l right instr;
        temp_map = [];
      }
      | none ↦ elim eq [
        | none ↦ p
        | some i ↦ record p { temp_map = insert (substr 0 i instr) (drop (suc i) instr) p.temp_map }
      ]
    ]

pub load_lines : ℕ → Parser → List Str → Option Parser
unfolding del_spaces parse_line strip_comment
load_lines fuel p [] = some p
load_lines fuel p (line ∷ lines) = elim (del_spaces fuel line) [
  | none ↦ none
  | some instr ↦ load_lines fuel (parse_line p (strip_comment instr)) lines
]

-- What `loadConfig` returns, with the member `config` that it leaves.
pub data Loaded : Type 0 where
  no_file : Loaded
  loaded : List (Str × Section) → Loaded

-- `none` for the file stands for one that cannot be opened; `none` as the result, for fuel that ran
-- out. The last section is inserted whatever its name is.
unfoldable pub load_config : ℕ → Option (List Str) → Option Loaded
unfolding load_lines
load_config fuel none = some no_file
load_config fuel (some lines) =
    elim (load_lines fuel (record { config = []; cur_key = []; temp_map = [] }) lines) [
      | none ↦ none
      | some p ↦ some (loaded (insert p.cur_key p.temp_map p.config))
    ]
