-- ===== src/Redis/Tests.antt =====
-- A small Redis server, and the theorems on it.
use calcsig.Common.{
  ◌*◌, ◌+◌, ◌≡◌, inl, refl, ap, ◌∙◌, arith, true, false, List, [], ◌∷◌, map, length, Option, none,
  some, if◌then◌else◌,
}
use calcsig.Common.Text.{Str, codes, str_eq, str_eq_refl, lookup, insert, lookup-insert}
use calcsig.Redis.{
  Transport, Reply, status, error, integer, nil, string, array, text, flatten, set_add, set_del,
  get_string, set_hash, get_hash_all,
}
use calcsig.Redis.Raw.{
  Connection, new_connection, Call, send_command, command, get_reply, free_reply, run, allocated,
  lost, run-lost,
}
use calcsig.Redis.Replies.{CountsMembers, ReadsString, statuses_only}
use calcsig.Redis.RoundTrip.{KeepsHashes, get_hash_all-set_hash}

abbrev Store : Type 0
Store = List (Str × List Str)

fields : Str → Store → List Str
fields key s = elim (lookup key s) [ none ↦ [] | some fs ↦ fs ]

-- Hashes are kept; members are counted as one, and every string is `v`.
on_key : Str → Str → List Str → Store → Option Reply × Store
on_key cmd key rest s =
    if str_eq cmd (codes "HMSET")
    then (some (status (codes "OK")), insert key rest s)
    else if str_eq cmd (codes "HGETALL")
    then (some (array (map text (fields key s))), s)
    else if str_eq cmd (codes "GET")
    then (some (string (codes "v")), s)
    else (some nil, s)

on_args : Str → List Str → Store → Option Reply × Store
on_args cmd [] s = (some (error (codes "ERR")), s)
on_args cmd (key ∷ rest) s = on_key cmd key rest s

serve : List Str → Store → Option Reply × Store
serve [] s = (some (error (codes "ERR")), s)
serve (cmd ∷ args) s =
    if str_eq cmd (codes "SADD")
    then (some (integer 1), s)
    else if str_eq cmd (codes "SREM")
    then (some (integer 1), s)
    else on_args cmd args s

abbrev server : Transport
server = record { State = Store; argv = serve }

server-CountsMembers : CountsMembers server
unfolding serve str_eq
server-CountsMembers = record {
  counts = λ args s cmd c. (integer 1, s, ground (arith), inl (1, refl));
}

server-ReadsString : ReadsString server
unfolding serve on_args on_key str_eq
server-ReadsString = record {
  reads = λ key s. (string (codes "v"), s, refl, inl (codes "v", refl));
}

stored_fields :
    (key : Str) (fs : List Str) (s : Store)
    → lookup key s ≡ none
    → fields key (insert key fs s) ≡ fs
unfolding fields
stored_fields key fs s e =
    let l : lookup key (insert key fs s) ≡ some fs =
      lookup-insert key key fs s ∙ rw e (rw (str_eq_refl key)) in
    rw (l, fields)

server-KeepsHashes : KeepsHashes server
unfolding serve on_args on_key str_eq
server-KeepsHashes = record {
  IsAbsent = λ s key. lookup key s ≡ none;
  keeps = λ s key h absent ne new. (
    insert key (flatten h) s,
    insert key (flatten h) s,
    h,
    refl,
    ap (λ fs. (some (array (map text fs)), insert key (flatten h) s))
        (stored_fields key (flatten h) s absent),
    new,
    λ k. refl,
  );
}

statuses_only_example :
    (set_add server (codes "k") (codes "m") []
      ≡ some (false, (server.argv (codes "SADD" ∷ codes "k" ∷ codes "m" ∷ []) []).1))
    × (set_del server (codes "k") (codes "m") []
        ≡ some (false, (server.argv (codes "SREM" ∷ codes "k" ∷ codes "m" ∷ []) []).1))
    × (get_string server (codes "k") []
        ≡ some ([], (server.argv (codes "GET" ∷ codes "k" ∷ []) []).1))
statuses_only_example =
    statuses_only server server-CountsMembers server-ReadsString (codes "k") (codes "m") []

abbrev person : List (Str × Str)
person = (codes "name", codes "x y") ∷ (codes "age", codes "20") ∷ []

get_hash_all-set_hash_example :
    (t : Store) × (u : Store) × (g : List (Str × Str)) × (length
        (codes "HMSET" ∷ codes "k" ∷ flatten person)
      ≡ length person * 2 + 2)
    × (set_hash server (codes "k") person [] ≡ some (true, t))
    × (get_hash_all server (codes "k") t ≡ some (g, u))
    × ((k : Str) → lookup k g ≡ lookup k person)
unfolding lookup str_eq server-KeepsHashes
get_hash_all-set_hash_example =
    get_hash_all-set_hash server server-KeepsHashes [] (codes "k") person refl (cc)
      (refl, (refl, tt)) (ground arith)

-- The first reply is looked at and not freed before the next command.
abbrev calls : List Call
calls = send_command true ∷ get_reply ∷ send_command true ∷ free_reply ∷ command true ∷ []

run-lost_example :
    (c : Connection) × (run calls new_connection ≡ some c)
    × (allocated c.replies ≡ lost calls false)
run-lost_example = run-lost calls refl
