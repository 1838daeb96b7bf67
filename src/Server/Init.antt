-- ===== src/Server/Init.antt =====
-- src/server.cpp: `httpServer::init`, over the configuration that `loadConfig` leaves.
use mathlib.Core.Option
use calcsig.Common.{
  ℕ, zero, suc, ◌+◌, ◌-◌, ◌*◌, ◌≡◌, ◌⊎◌, inl, inr, ◌∙◌, leb, ◌==◌, if◌then◌else◌, ◌&&◌, ◌||◌, List,
  [], ◌∷◌, Option, none, some, Option-cases,
}
use calcsig.Common.Text.{Str, codes, lookup}
use calcsig.Config.{Section}

-- `negsuc n` is -(n + 1).
pub data ℤ : Type 0 where
  pos negsuc : ℕ → ℤ

negate : ℕ → ℤ
negate zero = pos 0
negate (suc n) = negsuc n

-- The digits at the front of a text, as a number.
unfoldable pub front_number : ℕ → Str → ℕ
front_number acc [] = acc
front_number acc (c ∷ s) =
    let more = front_number (acc * 10 + (c - b'0')) s in
    if leb b'0' c && leb c b'9' then more else acc

-- `atoi`, for numbers that fit an `int`.
pub atoi : Str → ℤ
unfolding front_number negate
atoi [] = pos 0
atoi (c ∷ s) =
    let rest = atoi s in
    if c == 32 || (leb 9 c && leb c 13)
    then rest
    else if c == b'-'
    then negate (front_number 0 s)
    else if c == b'+'
    then pos (front_number 0 s)
    else pos (front_number 0 (c ∷ s))

pub record Settings : Type 0 where
  pub threadnum : ℤ
  pub threadmax : ℤ
  pub queue_max_size : ℤ
  pub secret_key : Str
  pub my_ip : Str

-- `missing k` is the return of -1 with the message that the key is not there.
pub data InitResult : Type 0 where
  missing : Str → InitResult
  ready : Settings → InitResult

-- `config["common"]`; a missing section is made, empty.
pub section_of : Str → List (Str × Section) → Section
section_of name config = elim (lookup name config) [ none ↦ [] | some s ↦ s ]

-- One `if(count(key) > 0) … else … return -1`.
require : Str → Section → (Str → InitResult) → InitResult
require key s next = elim (lookup key s) [ none ↦ missing key | some v ↦ next v ]

-- From the section `common` on.
pub read_settings : Section → InitResult
unfolding atoi require
read_settings s = require (codes "threadnum") s λ threadnum.
    require (codes "threadmax") s λ threadmax. require (codes "queue_max_size") s λ queue_max_size.
      require (codes "secret_key") s λ secret_key. require (codes "my_ip") s λ my_ip.
        ready (record {
          threadnum = atoi threadnum;
          threadmax = atoi threadmax;
          queue_max_size = atoi queue_max_size;
          secret_key = secret_key;
          my_ip = my_ip;
        })

pub init : List (Str × Section) → InitResult
unfolding section_of read_settings
init config = read_settings (section_of (codes "common") config)

abbrev pub required : List Str
required =
    codes "threadnum"
    ∷ codes "threadmax"
    ∷ codes "queue_max_size"
    ∷ codes "secret_key"
    ∷ codes "my_ip"
    ∷ []

-- The first of the keys that is not in the section.
abbrev pub first_missing : List Str → Section → Option Str
first_missing [] s = none
first_missing (k ∷ ks) s = elim (lookup k s) [ none ↦ some k | some v ↦ first_missing ks s ]

-- What the settings hold, key by key.
abbrev pub Holds : Section → Settings → Type 0
Holds s t =
    (Option.map atoi (lookup (codes "threadnum") s) ≡ some t.threadnum)
    × (Option.map atoi (lookup (codes "threadmax") s) ≡ some t.threadmax)
    × (Option.map atoi (lookup (codes "queue_max_size") s) ≡ some t.queue_max_size)
    × (lookup (codes "secret_key") s ≡ some t.secret_key)
    × (lookup (codes "my_ip") s ≡ some t.my_ip)

-- Of the settings read from a section: a key that is missing, or all of them.
abbrev Reads : Section → Type 0
Reads s =
    ((k : Str) × (first_missing required s ≡ some k) × (read_settings s ≡ missing k))
    ⊎ ((t : Settings) × (first_missing required s ≡ none) × (read_settings s ≡ ready t) × Holds s t)

require-none :
    (key : Str) (s : Section) (next : Str → InitResult)
    → lookup key s ≡ none
    → require key s next ≡ missing key
unfolding require
require-none key s next e = rw (e, require)

require-some :
    (key : Str) (s : Section) (next : Str → InitResult) (v : Str)
    → lookup key s ≡ some v
    → require key s next ≡ next v
unfolding require
require-some key s next v e = rw (e, require)

read_settings-Reads : (s : Section) → Reads s
unfolding read_settings
read_settings-Reads s = elim (Option-cases (lookup (codes "threadnum") s)) [
  | inl e ↦ inl (codes "threadnum", rw (e, first_missing), require-none _ s _ e)
  | inr (a, ea) ↦ elim (Option-cases (lookup (codes "threadmax") s)) [
    | inl e ↦ inl (
      codes "threadmax",
      rw (ea, e, first_missing),
      require-some _ s _ a ea ∙ require-none _ s _ e,
    )
    | inr (b, eb) ↦ elim (Option-cases (lookup (codes "queue_max_size") s)) [
      | inl e ↦ inl (
        codes "queue_max_size",
        rw (ea, eb, e, first_missing),
        require-some _ s _ a ea ∙ require-some _ s _ b eb ∙ require-none _ s _ e,
      )
      | inr (c, ec) ↦ elim (Option-cases (lookup (codes "secret_key") s)) [
        | inl e ↦ inl (
          codes "secret_key",
          rw (ea, eb, ec, e, first_missing),
          require-some _ s _ a ea
              ∙ require-some _ s _ b eb
              ∙ require-some _ s _ c ec
              ∙ require-none _ s _ e,
        )
        | inr (d, ed) ↦ elim (Option-cases (lookup (codes "my_ip") s)) [
          | inl e ↦ inl (
            codes "my_ip",
            rw (ea, eb, ec, ed, e, first_missing),
            require-some _ s _ a ea
                ∙ require-some _ s _ b eb
                ∙ require-some _ s _ c ec
                ∙ require-some _ s _ d ed
                ∙ require-none _ s _ e,
          )
          | inr (f, ef) ↦ inr (
            _,
            rw (ea, eb, ec, ed, ef, first_missing),
            require-some _ s _ a ea
                ∙ require-some _ s _ b eb
                ∙ require-some _ s _ c ec
                ∙ require-some _ s _ d ed
                ∙ require-some _ s _ f ef,
            (rw ea, rw eb, rw ec, ed, ef),
          )
        ]
      ]
    ]
  ]
]

-- `init` fails exactly with the first of the five keys that the section `common` lacks, and without
-- one it is ready with the five values.
pub init_lem :
    (config : List (Str × Section))
    → ((k : Str) × (first_missing required (section_of (codes "common") config) ≡ some k)
        × (init config ≡ missing k))
      ⊎ ((t : Settings) × (first_missing required (section_of (codes "common") config) ≡ none)
          × (init config ≡ ready t)
          × Holds (section_of (codes "common") config) t)
unfolding init
init_lem config = read_settings-Reads (section_of (codes "common") config)
