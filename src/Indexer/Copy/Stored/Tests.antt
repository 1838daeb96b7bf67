-- ===== src/Indexer/Copy/Stored/Tests.antt =====
-- Two rows of `Music`, and a server that has one hash.
use calcsig.Common.{
  ℕ, ◌≡◌, refl, sym, subst, ap, arith, if◌then◌else◌, true, ◌&&◌, List, [], ◌∷◌, ◌++◌, All, Option,
  none, some,
}
use calcsig.Common.Text.{Str, codes, str_eq, str_eq_refl, str_eq-false, lookup, insert}
use calcsig.Common.Decimal.{format, format_within}
use calcsig.Config.{Section}
use calcsig.Redis.{Transport, Reply, status, flatten, set_hash, set_add, set_del}
use calcsig.MysqlConn.{Row, get_value, deref}
use calcsig.MysqlConn.Connector.{Client, execute, query, store, put_result}
use calcsig.Indexer.Values.{to_string, to_unsigned}
use calcsig.Server.Init.{front_number}
use calcsig.Indexer.World.{World, select, fetch}
use calcsig.Indexer.Copy.{
  section_of, fill_hash, text_at, number_at, table_of, row_key, pay_key, pay_info, pay_found,
  pay_sql, audio_info, index_row, index_rows,
}
use calcsig.Indexer.Copy.Hashes.{first_text, HasColumn}
use calcsig.Indexer.Copy.Keeps.{KeepsHash}
use calcsig.Indexer.Copy.Stored.{HasOtherId, index_rows-first_text}

abbrev key : Str
key = row_key (codes "Music") 7

unflatten : List Str → List (Str × Str)
unflatten [] = []
unflatten (f ∷ []) = []
unflatten (f ∷ x ∷ args) = (f, x) ∷ unflatten args

toy_argv : List Str → List (Str × Str) → Option Reply × List (Str × Str)
toy_argv [] s = (none, s)
toy_argv (cmd ∷ []) s = (none, s)
toy_argv (cmd ∷ k ∷ args) s = (
  some (status (codes "OK")),
  if str_eq k key && str_eq cmd (codes "HMSET") then unflatten args ++ s else s,
)

abbrev one_hash : Transport
one_hash = record { State = List (Str × Str); argv = toy_argv }

unflatten-flatten : (h : List (Str × Str)) → unflatten (flatten h) ≡ h
unfolding unflatten flatten
unflatten-flatten [] = refl
unflatten-flatten ((f, x) ∷ h) = ap (◌∷◌ (f, x)) (unflatten-flatten h)

lookup-append :
    (f x : Str) (h s : List (Str × Str)) → lookup f h ≡ some x → lookup f (h ++ s) ≡ some x
unfolding lookup
lookup-append f x [] s e = cc
lookup-append f x ((k, v) ∷ h) s e = ground (arith, lookup-append f x h s)

one_hash-KeepsHash : KeepsHash one_hash key
unfolding toy_argv
one_hash-KeepsHash = record {
  IsHashKey = λ s. Unit;
  hget = λ s f. lookup f s;
  write = λ s h i new. (
    tt,
    λ f x e.
        rw (str_eq_refl key, str_eq_refl (codes "HMSET"))
          (subst (λ g. lookup f (g ++ s) ≡ some x) (sym (unflatten-flatten h))
            (lookup-append f x h s e)),
  );
  elsewhere = λ s cmd k args known ne i. (tt, λ f. rw (str_eq-false k key ne) refl);
}

abbrev none_found : Client
none_found = record {
  State = ℕ;
  init = λ s. (s, true);
  real_connect = λ s. (s, true);
  set_character_set = λ s. (s, true);
  ping = λ s. (s, true);
  real_query = λ sql s. (s, true);
  store_result = λ s. (s, some (record { rows = []; num_rows = some 0 }));
  close = λ s. s;
}

abbrev song : Str → Str → Row
song id name = record {
  fields =
      record { name = codes "id"; m_value = id; m_length = 1 }
      ∷ record { name = codes "audiosourceid"; m_value = codes "0"; m_length = 1 }
      ∷ record { name = codes "name"; m_value = name; m_length = 1 }
      ∷ [];
  m_fields = (codes "name", 2) ∷ (codes "audiosourceid", 1) ∷ (codes "id", 0) ∷ [];
  m_vfields = 0 ∷ 1 ∷ 2 ∷ [];
}

abbrev music_config : List (Str × Section)
music_config = (codes "Music", (codes "name", codes "n") ∷ []) ∷ []

abbrev empty : World none_found one_hash
empty = record {
  sql_conn = record { state = 0; handles = 1; result = none; lost = 0 };
  redis_conn = [];
}

abbrev two_songs : List Row
two_songs = song (codes "8") (codes "B") ∷ song (codes "7") (codes "A song") ∷ []

copied :
    (v : World none_found one_hash) × (index_rows none_found one_hash music_config 0 0 two_songs
        empty
      ≡ some (tt, v))
unfolding index_rows index_row number_at section_of fill_hash to_string to_unsigned get_value deref
    lookup insert str_eq table_of pay_info pay_found audio_info select fetch execute query store
    put_result set_hash set_add set_del toy_argv flatten unflatten row_key pay_key pay_sql format
    format_within front_number
copied = (_, refl)

song-columns :
    (number_at 0 (codes "id") (song (codes "7") (codes "A song")) ≡ some 7)
    × All (HasColumn (song (codes "7") (codes "A song"))) (section_of (codes "Music") music_config)
    × (first_text
          (codes "n")
          (section_of (codes "Music") music_config)
          (song (codes "7") (codes "A song"))
        ≡ some (codes "A"))
unfolding number_at text_at section_of to_string to_unsigned get_value deref lookup str_eq
    front_number
song-columns = (refl, ((_, refl), tt), refl)

other_id :
    HasOtherId none_found one_hash music_config 0 7 one_hash-KeepsHash
      (song (codes "8") (codes "B"))
unfolding number_at to_unsigned get_value deref lookup str_eq front_number
other_id n e f =
    let number = λ (o : Option ℕ). elim o as (λ _. ℕ) [ none ↦ 0 | some m ↦ m ] in
    let eight : 8 ≡ n = ap number e in omega (arith, eight, f)

index_rows-first_text_example : lookup (codes "n") copied.0.redis_conn ≡ some (codes "A")
unfolding one_hash-KeepsHash
index_rows-first_text_example =
    index_rows-first_text none_found one_hash music_config 0 7 one_hash-KeepsHash
      (song (codes "8") (codes "B") ∷ []) [] (song (codes "7") (codes "A song")) empty copied.0
      song-columns.0 song-columns.1 (other_id, tt) tt tt copied.1 (codes "n") (codes "A")
      song-columns.2
