-- ===== src/Config/RoundTrip.antt =====
-- What `loadConfig` makes of a file that is written section by section.
use calcsig.Common.{
  ℕ, suc, ◌-◌, ◌≡◌, ◌≢◌, refl, ap, sym, ◌∙◌, arith, List, [], ◌∷◌, ◌++◌, map, All, length, take,
  drop, take-append, none, some, append-nil, append_assoc, All-append,
}
use calcsig.Common.Text.{
  NewKeys, insert-new, Str, find, insert, str_eq, str_eq-false, Lacks, find-Lacks, find-append,
}
use calcsig.Config.{
  Section, Parser, erase_loop, del_spaces, parse_line, strip_comment, put_section, load_lines,
  load_config, loaded,
}

abbrev pub IsPlain : ℕ → Type 0
IsPlain c = (c ≢ 32) × (c ≢ b'#') × (c ≢ b'[')

-- A section's name has no space, `#` or `[`, no `]`, and is not empty; so a key, which has no `=`; a
-- value has no space, `#` or `[`.
abbrev pub IsName : Str → Type 0
IsName s = (s ≢ []) × All IsPlain s × Lacks b']' s

abbrev pub IsEntry : Str × Str → Type 0
IsEntry (k, v) = All IsPlain k × Lacks b'=' k × All IsPlain v

pub header : Str → Str
header name = b'[' ∷ (name ++ b']' ∷ [])

pub entry : Str × Str → Str
entry (k, v) = k ++ b'=' ∷ v

All-Lacks : (P : ℕ → Type 0) (c : ℕ) → ((b : ℕ) → P b → b ≢ c) → (s : Str) → All P s → Lacks c s
All-Lacks P c f [] h = tt
All-Lacks P c f (b ∷ s) h = (f b h.0, All-Lacks P c f s h.1)

-- A text without spaces and `#` passes the first two parts of the body as it is.
clean :
    (fuel : ℕ) (s : Str)
    → Lacks 32 s
    → Lacks b'#' s
    → (t : Str) × (del_spaces (suc fuel) s ≡ some t) × (strip_comment t ≡ s)
unfolding del_spaces erase_loop strip_comment
clean fuel [] a b = ([], refl, rw (find-Lacks b'#' [] tt, strip_comment))
clean fuel (c ∷ s) a b =
    (c ∷ s, rw (find-Lacks 32 (c ∷ s) a), rw (find-Lacks b'#' (c ∷ s) b, strip_comment))

drop_past : (k : Str) (c : ℕ) (v : Str) → drop (suc (length k)) (k ++ c ∷ v) ≡ v
drop_past [] c v = refl
drop_past (b ∷ k) c v = drop_past k c v

entry_ne : (k v : Str) → k ++ b'=' ∷ v ≢ []
entry_ne [] v h = cc
entry_ne (b ∷ k) v h = cc

parse_line-header :
    (p : Parser) (name : Str)
    → Lacks b']' name
    → parse_line p (header name) ≡ record { config = put_section p; cur_key = name; temp_map = [] }
unfolding parse_line header
parse_line-header p name h =
    let left : find b'[' (header name) ≡ some 0 = unfold find in refl in
    let right : find b']' (header name) ≡ some (suc (length name)) =
      find-append b']' (b'[' ∷ name) [] ((omega arith), h) in
    let n : suc (length name) - 0 - 1 ≡ length name = omega arith in
    let cut : take (suc (length name) - 0 - 1) (name ++ b']' ∷ []) ≡ name =
      rw n (take-append name (b']' ∷ [])) in
    ground (arith, left, right, cut, str_eq-false (header name) [] (cc))

parse_line-entry :
    (p : Parser) (k v : Str)
    → IsEntry (k, v)
    → parse_line p (entry (k, v)) ≡ record p { temp_map = insert k v p.temp_map }
unfolding parse_line entry
parse_line-entry p k v h =
    let line = k ++ b'=' ∷ v in
    let left : find b'[' line ≡ none = find-Lacks b'[' line (
      All-append (λ b. b ≢ b'[') k (b'=' ∷ v) (All-Lacks IsPlain b'[' (λ b q. q.2) k h.0)
        (omega arith, All-Lacks IsPlain b'[' (λ b q. q.2) v h.2)) in
    let eq : find b'=' line ≡ some (length k) = find-append b'=' k v h.1 in
    let key : take (length k) line ≡ k = take-append k (b'=' ∷ v) in
    let value : drop (suc (length k)) line ≡ v = drop_past k b'=' v in
    ground (arith, left, eq, key, value, str_eq-false line [] (entry_ne k v))

abbrev pub IsSection : Str × Section → Type 0
IsSection (name, es) = IsName name × All IsEntry es × NewKeys [] es

-- A section as a file holds it: its header, and a line for each entry.
pub print_sections : List (Str × Section) → List Str
unfolding header entry
print_sections [] = []
print_sections ((name, es) ∷ ss) = header name ∷ (map entry es ++ print_sections ss)

load_lines-clean :
    (fuel : ℕ) (p : Parser) (line : Str) (rest : List Str)
    → Lacks 32 line
    → Lacks b'#' line
    → load_lines (suc fuel) p (line ∷ rest) ≡ load_lines (suc fuel) (parse_line p line) rest
unfolding load_lines
load_lines-clean fuel p line rest a b =
    let (t, e, c) = clean fuel line a b in
    rw (e, load_lines) (ap (λ u. load_lines (suc fuel) (parse_line p u) rest) c)

plain_parts : (s : Str) → All IsPlain s → Lacks 32 s × Lacks b'#' s
plain_parts s h = (All-Lacks IsPlain 32 (λ b q. q.0) s h, All-Lacks IsPlain b'#' (λ b q. q.1) s h)

load_lines-entries :
    (fuel : ℕ) (p : Parser) (es : Section) (rest : List Str)
    → All IsEntry es
    → NewKeys p.temp_map es
    → load_lines (suc fuel) p (map entry es ++ rest)
      ≡ load_lines (suc fuel) (record p { temp_map = p.temp_map ++ es }) rest
unfolding entry
load_lines-entries fuel p [] rest h new = rw (append-nil p.temp_map)
load_lines-entries fuel p ((k, v) ∷ es) rest h new =
    let kp = plain_parts k h.0.0 in
    let vp = plain_parts v h.0.2 in
    let next =
      load_lines-entries fuel (record p { temp_map = p.temp_map ++ (k, v) ∷ [] }) es rest h.1
        new.1 in
    load_lines-clean fuel p (k ++ b'=' ∷ v) (map entry es ++ rest)
      (All-append (λ b. b ≢ 32) k (b'=' ∷ v) kp.0 (omega arith, vp.0))
      (All-append (λ b. b ≢ b'#') k (b'=' ∷ v) kp.1 (omega arith, vp.1))
    ∙ rw (parse_line-entry p k v h.0, insert-new k v p.temp_map new.0)
        (rw (append_assoc p.temp_map ((k, v) ∷ []) es) at next)

load_lines-section :
    (fuel : ℕ) (p : Parser) (name : Str) (es : Section) (rest : List Str)
    → IsSection (name, es)
    → load_lines (suc fuel) p (header name ∷ (map entry es ++ rest))
      ≡ load_lines
          (suc fuel)
          (record { config = put_section p; cur_key = name; temp_map = es })
          rest
unfolding header
load_lines-section fuel p name es rest h =
    let np = plain_parts name h.0.1 in
    load_lines-clean fuel p (header name) (map entry es ++ rest)
      (omega arith, All-append (λ b. b ≢ 32) name (b']' ∷ []) np.0 (omega arith, tt))
      (omega arith, All-append (λ b. b ≢ b'#') name (b']' ∷ []) np.1 (omega arith, tt))
    ∙ rw (parse_line-header p name h.0.2) (
        load_lines-entries fuel (record { config = put_section p; cur_key = name; temp_map = [] })
          es rest h.1 h.2)

-- What the rest of the file adds, once a section has begun.
abbrev Ends : ℕ → Parser → List (Str × Section) → Type 0
Ends fuel p ss =
    (q : Parser) × (load_lines (suc fuel) p (print_sections ss) ≡ some q)
    × (insert q.cur_key q.temp_map q.config ≡ put_section p ++ ss)

load_lines-sections :
    (fuel : ℕ) (p : Parser) (ss : List (Str × Section))
    → p.cur_key ≢ []
    → All IsSection ss
    → NewKeys (put_section p) ss
    → Ends fuel p ss
unfolding print_sections
load_lines-sections fuel p [] ne h new = (
  p,
  unfold load_lines in refl,
  unfold put_section in rw (str_eq-false p.cur_key [] ne) (sym (append-nil _)),
)
load_lines-sections fuel p ((name, es) ∷ ss) ne h new =
    let p' : Parser = record { config = put_section p; cur_key = name; temp_map = es } in
    let put : put_section p' ≡ put_section p ++ (name, es) ∷ [] =
      unfold put_section in
      rw (str_eq-false name [] h.0.0.0) (insert-new name es (put_section p) new.0) in
    let (q, eq, fin) = load_lines-sections fuel p' ss h.0.0.0 h.1 (rw put new.1) in
    (
      q,
      load_lines-section fuel p name es (print_sections ss) h.0 ∙ eq,
      fin ∙ rw put (append_assoc (put_section p) ((name, es) ∷ []) ss),
    )

-- A file that holds the sections of a non-empty configuration one after another is loaded as that
-- configuration, if names, keys and values have no characters of the syntax and no name or key
-- stands twice; a single round of the inner loop is enough.
pub load_config-print_sections :
    (fuel : ℕ) (ss : List (Str × Section))
    → ss ≢ []
    → All IsSection ss
    → NewKeys [] ss
    → load_config (suc fuel) (some (print_sections ss)) ≡ some (loaded ss)
unfolding load_config print_sections
load_config-print_sections fuel [] ne h new = absurd (ne refl)
load_config-print_sections fuel ((name, es) ∷ ss) ne h new =
    let p : Parser = record { config = []; cur_key = []; temp_map = [] } in
    let p' : Parser = record { config = []; cur_key = name; temp_map = es } in
    let first : put_section p ≡ [] = unfold put_section str_eq in refl in
    let put : put_section p' ≡ (name, es) ∷ [] =
      unfold put_section in rw (str_eq-false name [] h.0.0.0) (unfold insert in refl) in
    let (q, eq, fin) = load_lines-sections fuel p' ss h.0.0.0 h.1 (rw put new.1) in
    let start = load_lines-section fuel p name es (print_sections ss) h.0 in
    rw ((rw first at start) ∙ eq, load_config) (ap (λ c. some (loaded c)) (fin ∙ rw put))
