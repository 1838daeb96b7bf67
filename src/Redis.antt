-- ===== src/Redis.antt =====
-- redispool/redisconn.hpp: the commands that a Redis connection sends and how it reads the replies.
-- hiredis is a parameter: `argv` is `redisCommandArgv` on the state of the connection and the server.
pub mod Replies
pub mod RoundTrip
pub mod Cluster
pub mod Raw
pub mod Tests
use calcsig.Common.{
  ℕ, zero, suc, ◌+◌, ◌-◌, leb, if◌then◌else◌, Bool, true, false, not, ◌&&◌, List, [], ◌∷◌, ◌++◌,
  map, length, Option, none, some, ◌≡◌, ap, ◌∙◌,
}
use calcsig.Common.Text.{Str, codes, str_eq, insert, c_string}

-- An element of an array; only `REDIS_REPLY_STRING` is looked into.
pub data Element : Type 0 where
  text : Str → Element
  other : Element

-- `redisReply` by its type.
pub data Reply : Type 0 where
  status : Str → Reply
  error : Str → Reply
  integer : ℕ → Reply
  nil : Reply
  string : Str → Reply
  array : List Element → Reply

-- `none` is the null pointer that hiredis returns when the connection is broken.
pub record Transport : Type 1 where
  pub State : Type 0
  pub argv : List Str → State → Option Reply × State

lower : ℕ → ℕ
lower c = if leb b'A' c && leb c b'Z' then c + 32 else c

-- `strcasecmp(s, "OK") == 0`.
pub is_ok_text : Str → Bool
unfolding lower
is_ok_text s = str_eq (map lower s) (codes "ok")

-- The test behind each write.
pub is_ok : Reply → Bool
unfolding is_ok_text
is_ok (status s) = is_ok_text s
is_ok r = false

-- The fields and values one after another, as `setHash` lays them out.
unfoldable pub flatten : List (Str × Str) → List Str
flatten [] = []
flatten ((k, v) ∷ h) = k ∷ v ∷ flatten h

-- The loop of `getHashAll`: `even` is `i % 2 == 0`, and `key` keeps its value between rounds. A string
-- is read from its `char*`, up to its first zero byte.
pub read_pairs : Bool → Str → List (Str × Str) → List Element → List (Str × Str)
read_pairs even key h [] = h
read_pairs even key h (other ∷ es) = read_pairs (not even) key h es
read_pairs true key h (text s ∷ es) = read_pairs false (c_string s) h es
read_pairs false key h (text s ∷ es) = read_pairs true key (insert key (c_string s) h) es

pub texts : List Element → List Str
texts [] = []
texts (text s ∷ es) = c_string s ∷ texts es
texts (other ∷ es) = texts es

-- The bodies behind the call, by the reply.
pub hash_of_reply : Reply → List (Str × Str)
unfolding read_pairs
hash_of_reply (array es) = read_pairs true [] [] es
hash_of_reply r = []

pub string_of_reply : Reply → Str
unfolding is_ok_text
string_of_reply (status s) = if is_ok_text s then s else []
string_of_reply r = []

pub set_of_reply : Reply → List Str
unfolding texts
set_of_reply (array es) = texts es
set_of_reply r = []

module _ (tr : Transport) where
  open tr use {State, argv}

  -- One command: it is sent, the reply is read by `f` and freed. `none` is a read through the null
  -- pointer.
  abbrev pub command {ℓ} : {A : Type ℓ} → List Str → (Reply → A) → State → Option (A × State)
  command args f s = elim (argv args s).0 [ none ↦ none | some r ↦ some (f r, (argv args s).1) ]

  pub command_lem {ℓ} :
      {A : Type ℓ} (args : List Str) (f : Reply → A) (s : State) (r : Reply)
      → (argv args s).0 ≡ some r
      → command args f s ≡ some (f r, (argv args s).1)
  command_lem args f s r e = rw (e, command)

  pub get_hash_all : Str → State → Option (List (Str × Str) × State)
  unfolding hash_of_reply
  get_hash_all key = command (codes "HGETALL" ∷ key ∷ []) hash_of_reply

  unfoldable pub set_hash : Str → List (Str × Str) → State → Option (Bool × State)
  unfolding is_ok flatten
  set_hash key h = command (codes "HMSET" ∷ key ∷ flatten h) is_ok

  pub set_string : Str → Str → State → Option (Bool × State)
  unfolding is_ok
  set_string key value = command (codes "SET" ∷ key ∷ value ∷ []) is_ok

  pub get_string : Str → State → Option (Str × State)
  unfolding string_of_reply
  get_string key = command (codes "GET" ∷ key ∷ []) string_of_reply

  pub get_set : Str → State → Option (List Str × State)
  unfolding set_of_reply
  get_set key = command (codes "SMEMBERS" ∷ key ∷ []) set_of_reply

  unfoldable pub set_add : Str → Str → State → Option (Bool × State)
  unfolding is_ok
  set_add key value = command (codes "SADD" ∷ key ∷ value ∷ []) is_ok

  unfoldable pub set_del : Str → Str → State → Option (Bool × State)
  unfolding is_ok
  set_del key value = command (codes "SREM" ∷ key ∷ value ∷ []) is_ok

  pub redis_auth : Str → State → Option (Bool × State)
  unfolding is_ok
  redis_auth auth = command (codes "AUTH" ∷ auth ∷ []) is_ok

  -- A command whose reply is there returns.
  command-argv :
      (args : List Str) (f : Reply → Bool) (s : State) (r : Reply) (t : State)
      → argv args s ≡ (some r, t)
      → command args f s ≡ some (f r, t)
  command-argv args f s r t e =
      command_lem args f s r (ap (λ p. p.0) e) ∙ ap (λ p. some (f r, p.1)) e

  pub set_hash-argv :
      (key : Str) (h : List (Str × Str)) (s : State) (r : Reply) (t : State)
      → argv (codes "HMSET" ∷ key ∷ flatten h) s ≡ (some r, t)
      → set_hash key h s ≡ some (is_ok r, t)
  unfolding set_hash
  set_hash-argv key h s r t e = command-argv (codes "HMSET" ∷ key ∷ flatten h) is_ok s r t e

  pub set_add-argv :
      (key value : Str) (s : State) (r : Reply) (t : State)
      → argv (codes "SADD" ∷ key ∷ value ∷ []) s ≡ (some r, t)
      → set_add key value s ≡ some (is_ok r, t)
  unfolding set_add
  set_add-argv key value s r t e = command-argv (codes "SADD" ∷ key ∷ value ∷ []) is_ok s r t e

  pub set_del-argv :
      (key value : Str) (s : State) (r : Reply) (t : State)
      → argv (codes "SREM" ∷ key ∷ value ∷ []) s ≡ (some r, t)
      → set_del key value s ≡ some (is_ok r, t)
  unfolding set_del
  set_del-argv key value s r t e = command-argv (codes "SREM" ∷ key ∷ value ∷ []) is_ok s r t e

-- What the constructor comes to.
pub data Connected (S : Type 0) : Type 0 where
  connected : S → Connected S
  connect_error : Connected S
  auth_error : S → Connected S
  null_reply : Connected S

-- `connect()`: `opened` is what `redisConnect` gives, `none` for a null pointer or an error flag.
pub connect : (tr : Transport) → Option tr.State → Str → Connected tr.State
unfolding redis_auth
connect tr none auth = connect_error
connect tr (some s) auth = if str_eq auth [] then connected s else elim (redis_auth tr auth s) [
  | none ↦ null_reply
  | some (done, s') ↦ if done then connected s' else auth_error s'
]
