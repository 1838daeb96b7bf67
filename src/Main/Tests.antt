-- ===== src/Main/Tests.antt =====
-- A configuration of the service, printed and loaded.
use calcsig.Common.{◌≡◌, ◌⊎◌, refl, arith, List, [], ◌∷◌, none, some}
use calcsig.Common.Text.{Str, codes, lookup, str_eq}
use calcsig.Config.{Section, loaded, load_config}
use calcsig.Config.RoundTrip.{print_sections, load_config-print_sections}
use calcsig.Main.{init_failed, starts, server_main}
use calcsig.Main.Ready.{server_main-init}
use calcsig.Server.Init.{Settings, missing, ready, init, required, first_missing, section_of, Holds}

abbrev service : List (Str × Section)
service =
    (
      codes "common",
      (codes "threadnum", codes "4")
          ∷ (codes "threadmax", codes "8")
          ∷ (codes "queue_max_size", codes "100")
          ∷ (codes "secret_key", codes "k")
          ∷ (codes "my_ip", codes "10.0.0.1")
          ∷ [],
    )
    ∷ []

service_loaded : load_config 1 (some (print_sections service)) ≡ some (loaded service)
unfolding lookup str_eq
service_loaded =
    load_config-print_sections 0 service (cc)
      (
        (
          (cc, omega arith, omega arith),
          (
            (omega arith, omega arith, omega arith),
            (
              (omega arith, omega arith, omega arith),
              (
                (omega arith, omega arith, omega arith),
                (
                  (omega arith, omega arith, omega arith),
                  ((omega arith, omega arith, omega arith), tt),
                ),
              ),
            ),
          ),
          (refl, (refl, (refl, (refl, (refl, tt))))),
        ),
        tt,
      )
      (refl, tt)

server_main-init_example :
    ((k : Str) × (first_missing required (section_of (codes "common") service) ≡ some k)
      × (init service ≡ missing k)
      × (server_main 1 (some (some (print_sections service))) ≡ some init_failed))
    ⊎ ((t : Settings) × (first_missing required (section_of (codes "common") service) ≡ none)
        × (init service ≡ ready t)
        × (server_main 1 (some (some (print_sections service))) ≡ some (starts t))
        × Holds (section_of (codes "common") service) t)
server_main-init_example = server_main-init 1 (some (print_sections service)) service service_loaded
