-- ===== src/Config/Tests.antt =====
-- Small files, and the theorems at them.
use calcsig.Common.{◌≡◌, refl, arith, List, [], ◌∷◌, none, some, inl, inr}
use calcsig.Common.Text.{Str, codes, find, insert, str_eq, lookup}
use calcsig.Config.{Section, loaded, load_config}
use calcsig.Config.Diverges.{load_config-diverges}
use calcsig.Config.RoundTrip.{print_sections, load_config-print_sections}

abbrev commented : List Str
commented = codes "[common]" ∷ codes "threadnum=10" ∷ codes "# ten threads" ∷ []

load_config-diverges_example : load_config 1000 (some commented) ≡ none
unfolding find
load_config-diverges_example = load_config-diverges commented (inr (inr (inl (cc)))) 1000

abbrev small : List (Str × Section)
small =
    (codes "redis", (codes "port", codes "6379") ∷ (codes "auth", codes "Y*=5") ∷ [])
    ∷ (codes "mysql", [])
    ∷ []

load_config-print_sections_example :
    load_config 1 (some (print_sections small)) ≡ some (loaded small)
unfolding lookup str_eq
load_config-print_sections_example =
    load_config-print_sections 0 small (cc)
      (
        (
          (cc, omega arith, omega arith),
          ((omega arith, omega arith, omega arith), ((omega arith, omega arith, omega arith), tt)),
          (refl, (refl, tt)),
        ),
        (((cc, omega arith, omega arith), tt, tt), tt),
      )
      (refl, (refl, tt))

-- Entries above the first section are dropped, and `]` is not needed.
dropped :
    load_config 1 (some (codes "a=1" ∷ codes "[x=" ∷ codes "b=2" ∷ []))
    ≡ some (loaded ((codes "x=", (codes "b", codes "2") ∷ []) ∷ []))
unfolding load_config find insert str_eq
dropped = refl
