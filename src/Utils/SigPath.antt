-- ===== src/Utils/SigPath.antt =====
-- utils/utils.cpp: `sigPath`, the place of a file in the store by its two signatures.
use Prim.Native.Nat.{bit_xor}
use calcsig.Common.{
  ℕ, ◌+◌, ◌/◌, ◌%◌, ◌≤◌, ◌<◌, ◌≡◌, ◌↔◌, refl, ap, ◌==◌, false, subst, arith, leb, if◌then◌else◌,
  ◌&&◌, List, [], ◌∷◌, ◌++◌, map, All, none, some, Option-cases, inl, inr, Bool-cases,
}
use calcsig.Common.Text.{Str, codes, str_eq, lookup, insert, Lacks, split_unique}
use calcsig.Common.Decimal.{format, format_injective, format-IsDigit, IsDigit}

pub to_lower : ℕ → ℕ
to_lower c = if leb b'A' c && leb c b'Z' then c + 32 else c

pub fmt_map : List (Str × Str)
unfolding insert str_eq
fmt_map = insert (codes "default") (codes "d") (
    insert (codes "mp4") (codes "m") (
      insert (codes "f4v") (codes "v") (
        insert (codes "jpg") (codes "p") (
          insert (codes "aac") (codes "a") (
            insert (codes "flac") (codes "s") (
              insert (codes "ape") (codes "s") (
                insert (codes "wmv") (codes "v") (
                  insert (codes "mkv") (codes "v")
                    (insert (codes "wma") (codes "m") (insert (codes "mp3") (codes "n") []))))))))))

-- `fmt_map[k]`; a missing key reads as the empty string.
at_key : Str → List (Str × Str) → Str
at_key k m = elim (lookup k m) [ none ↦ [] | some v ↦ v ]

-- `fmt_map[fmt]` if the format is known, and `fmt_map["default"]` if not.
pub kind_dir : Str → Str
unfolding at_key fmt_map
kind_dir fmt = elim (lookup fmt fmt_map) [
  | none ↦ at_key (codes "default") fmt_map
  | some v ↦ at_key fmt fmt_map
]

-- The first and second directory level, and the partition.
pub d1 : ℕ → ℕ
d1 sig2 = sig2 % 100

pub d2 : ℕ → ℕ
d2 sig2 = (sig2 / 100) % 100

pub dv : ℕ → ℕ → ℕ
dv sig1 sig2 = bit_xor sig1 sig2 % 3 + 1

unfoldable pub sig_path : ℕ → ℕ → Str → Str
unfolding kind_dir to_lower d1 d2 dv
sig_path sig1 sig2 format_name =
    let fmt = map to_lower format_name in
    kind_dir fmt
    ++ (format (dv sig1 sig2)
        ++ b'/'
          ∷ (format (d1 sig2) ++ b'/' ∷ (format (d2 sig2) ++ b'/' ∷ (format sig1 ++ b'.' ∷ fmt))))

abbrev IsLetter : Str → Type 0
IsLetter s = (c : ℕ) × (s ≡ c ∷ [])

lookup-All :
    (P : Str → Type 0) (k : Str) (m : List (Str × Str)) (v : Str)
    → All (λ e. P e.1) m
    → lookup k m ≡ some v
    → P v
unfolding lookup
lookup-All P k [] v h e = cc
lookup-All P k ((j, w) ∷ m) v h e = elim (Bool-cases (str_eq j k)) [
  | inl hit ↦ subst P (let r : some w ≡ some v = rw hit at e in cc) h.0
  | inr miss ↦ lookup-All P k m v h.1 (rw miss at e)
]

fmt_map-IsLetter : All (λ e. IsLetter e.1) fmt_map
unfolding fmt_map
fmt_map-IsLetter = (
  (b'n', refl),
  (
    (b'm', refl),
    (
      (b'v', refl),
      (
        (b'v', refl),
        (
          (b's', refl),
          (
            (b's', refl),
            ((b'a', refl), ((b'p', refl), ((b'v', refl), ((b'm', refl), ((b'd', refl), tt))))),
          ),
        ),
      ),
    ),
  ),
)

default_dir : at_key (codes "default") fmt_map ≡ codes "d"
unfolding at_key fmt_map lookup str_eq
default_dir = refl

kind_dir-IsLetter : (fmt : Str) → IsLetter (kind_dir fmt)
unfolding kind_dir
kind_dir-IsLetter fmt = elim (Option-cases (lookup fmt fmt_map)) [
  | inl e ↦ rw (e, kind_dir) (b'd', default_dir)
  | inr (v, e) ↦
      rw (e, kind_dir) (rw (e, at_key) (lookup-All IsLetter fmt fmt_map v fmt_map-IsLetter e))
]

digits-Lacks : (c : ℕ) → c < b'0' → (s : Str) → All IsDigit s → Lacks c s
digits-Lacks c h [] v = tt
digits-Lacks c h (b ∷ s) v = (omega (arith, v.0), digits-Lacks c h s v.1)

format-Lacks : (n c : ℕ) → c < b'0' → Lacks c (format n)
format-Lacks n c h = digits-Lacks c h (format n) (format-IsDigit n)

-- A number up to a separator is read off a text in one way.
format_unique :
    (m n c : ℕ) (u v : Str) → c < b'0' → format m ++ c ∷ u ≡ format n ++ c ∷ v → (m ≡ n) × (u ≡ v)
format_unique m n c u v h e =
    let r = split_unique c (format m) (format n) u v (format-Lacks m c h) (format-Lacks n c h) e in
    (format_injective m n r.0, r.1)

letter_unique : (s t u v : Str) → IsLetter s → IsLetter t → s ++ u ≡ t ++ v → u ≡ v
letter_unique s t u v (a, ea) (b, eb) e = let e' : a ∷ u ≡ b ∷ v = rw (ea, eb) at e in cc

-- Two files have one target path exactly when their first signatures are equal, the last four
-- decimal digits of the second and the partitions agree, and the formats are equal up to case.
pub sig_path_eq :
    (sig1 sig2 : ℕ) (fmt : Str) (sig1' sig2' : ℕ) (fmt' : Str)
    → (sig_path sig1 sig2 fmt ≡ sig_path sig1' sig2' fmt') ↔ (
        (sig1 ≡ sig1')
        × (sig2 % 10000 ≡ sig2' % 10000)
        × (bit_xor sig1 sig2 % 3 ≡ bit_xor sig1' sig2' % 3)
        × (map to_lower fmt ≡ map to_lower fmt'))
unfolding sig_path d1 d2 dv
sig_path_eq sig1 sig2 fmt sig1' sig2' fmt' = (
  λ e.
      let f = map to_lower fmt in
      let f' = map to_lower fmt' in
      let tail =
        letter_unique (kind_dir f) (kind_dir f') _ _ (kind_dir-IsLetter f) (kind_dir-IsLetter f')
          e in
      let v = format_unique (dv sig1 sig2) (dv sig1' sig2') b'/' _ _ (omega arith) tail in
      let a = format_unique (d1 sig2) (d1 sig2') b'/' _ _ (omega arith) v.1 in
      let b = format_unique (d2 sig2) (d2 sig2') b'/' _ _ (omega arith) a.1 in
      let c = format_unique sig1 sig1' b'.' _ _ (omega arith) b.1 in
      (c.0, omega (arith, a.0, b.0), omega (arith, v.0), c.1),
  λ h.
      let a : d1 sig2 ≡ d1 sig2' = omega (arith, h.1) in
      let b : d2 sig2 ≡ d2 sig2' = omega (arith, h.1) in
      let v : dv sig1 sig2 ≡ dv sig1' sig2' = omega (arith, h.2) in cc (a, b, v, h.0, h.3),
)

-- The directories are within the layout of the store: 100 by 100 under each of 3 partitions.
pub dirs_bounds :
    (sig1 sig2 : ℕ) → (d1 sig2 < 100) × (d2 sig2 < 100) × (1 ≤ dv sig1 sig2) × (dv sig1 sig2 ≤ 3)
unfolding d1 d2 dv
dirs_bounds sig1 sig2 = omega arith

-- A directory of the store is a letter, and that is not the `t` of `tmp`.
abbrev IsStoreLetter : Str → Type 0
IsStoreLetter s = (c : ℕ) × (s ≡ c ∷ []) × ((c == b't') ≡ false)

fmt_map-IsStoreLetter : All (λ e. IsStoreLetter e.1) fmt_map
unfolding fmt_map
fmt_map-IsStoreLetter = (
  (b'n', refl, refl),
  (
    (b'm', refl, refl),
    (
      (b'v', refl, refl),
      (
        (b'v', refl, refl),
        (
          (b's', refl, refl),
          (
            (b's', refl, refl),
            (
              (b'a', refl, refl),
              (
                (b'p', refl, refl),
                ((b'v', refl, refl), ((b'm', refl, refl), ((b'd', refl, refl), tt))),
              ),
            ),
          ),
        ),
      ),
    ),
  ),
)

kind_dir-IsStoreLetter : (fmt : Str) → IsStoreLetter (kind_dir fmt)
unfolding kind_dir
kind_dir-IsStoreLetter fmt = elim (Option-cases (lookup fmt fmt_map)) [
  | inl e ↦ rw (e, kind_dir) (b'd', default_dir, refl)
  | inr (v, e) ↦
      rw (e, kind_dir)
        (rw (e, at_key) (lookup-All IsStoreLetter fmt fmt_map v fmt_map-IsStoreLetter e))
]

-- No file is stored under a path that starts as `tmp` does.
pub sig_path-head :
    (sig1 sig2 : ℕ) (format_name : Str)
    → (c : ℕ) × (rest : Str) × (sig_path sig1 sig2 format_name ≡ c ∷ rest) × ((c == b't') ≡ false)
unfolding sig_path
sig_path-head sig1 sig2 format_name =
    let fmt = map to_lower format_name in
    let (c, e, other) = kind_dir-IsStoreLetter fmt in
    let rest =
      format (dv sig1 sig2)
      ++ b'/'
        ∷ (format (d1 sig2) ++ b'/' ∷ (format (d2 sig2) ++ b'/' ∷ (format sig1 ++ b'.' ∷ fmt))) in
    (c, rest, ap (λ s. s ++ rest) e, other)
