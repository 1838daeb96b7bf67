-- ===== src/Main/Ready.antt =====
-- src/main.cpp: from the file to the settings of the service.
use calcsig.Common.{ℕ, ◌≡◌, ◌⊎◌, inl, inr, refl, List, Option, none, some}
use calcsig.Common.Text.{Str, codes}
use calcsig.Config.{Section, loaded, load_config}
use calcsig.Main.{init_failed, starts, server_main}
use calcsig.Server.Init.{
  Settings, missing, ready, init, init_lem, required, first_missing, section_of, Holds,
}

server_main-missing :
    (fuel : ℕ) (file : Option (List Str)) (config : List (Str × Section)) (k : Str)
    → load_config fuel file ≡ some (loaded config)
    → init config ≡ missing k
    → server_main fuel (some file) ≡ some init_failed
unfolding server_main
server_main-missing fuel file config k e m = rw (e, server_main) (rw m refl)

server_main-ready :
    (fuel : ℕ) (file : Option (List Str)) (config : List (Str × Section)) (t : Settings)
    → load_config fuel file ≡ some (loaded config)
    → init config ≡ ready t
    → server_main fuel (some file) ≡ some (starts t)
unfolding server_main
server_main-ready fuel file config t e m = rw (e, server_main) (rw m refl)

-- If the file is loaded as this configuration, `main` fails at `init` exactly where the section `common`
-- lacks one of the five keys, and it is the first of these that `init` names; otherwise it starts the
-- service with the five values.
pub server_main-init :
    (fuel : ℕ) (file : Option (List Str)) (config : List (Str × Section))
    → load_config fuel file ≡ some (loaded config)
    → ((k : Str) × (first_missing required (section_of (codes "common") config) ≡ some k)
        × (init config ≡ missing k)
        × (server_main fuel (some file) ≡ some init_failed))
      ⊎ ((t : Settings) × (first_missing required (section_of (codes "common") config) ≡ none)
          × (init config ≡ ready t)
          × (server_main fuel (some file) ≡ some (starts t))
          × Holds (section_of (codes "common") config) t)
server_main-init fuel file config e = elim (init_lem config) [
  | inl (k, first, fails) ↦ inl (k, first, fails, server_main-missing fuel file config k e fails)
  | inr (t, first, is_ready, holds) ↦
      inr (t, first, is_ready, server_main-ready fuel file config t e is_ready, holds)
]
