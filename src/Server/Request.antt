-- ===== src/Server/Request.antt =====
-- src/server.cpp: `httpServer::calcsig_process`, which turns a request into a task in the queue, and
-- the two other handlers. libevent's buffers and jsoncpp are parameters. The task of the number `i`
-- is the one made by the `new` of that number. An exception leaves a callback of libevent, which is
-- written in C, and so ends the program: `aborted`.
pub mod Text
pub mod Accepted
pub mod Stopped
pub mod Tests
use calcsig.Common.{
  ℕ, zero, suc, ◌+◌, ◌-◌, ◌≤◌, ◌<◌, ◌≡◌, refl, ap, sym, ◌∙◌, arith, ◌==◌, if◌then◌else◌, Bool, true,
  false, not, ◌&&◌, ◌||◌, List, [], ◌∷◌, ◌++◌, length, take, drop, Option, none, some, Option-cases,
  inl, inr, ◌⊎◌, Bool-cases,
}
use calcsig.Common.Text.{Str, codes, c_string}
use calcsig.ThreadPool98.{Pool, push_task, add_task}

-- `remove n b` is `evbuffer_remove` of up to `n` bytes: nothing is the end or an error.
pub record EvBuffer : Type 1 where
  pub Buf : Type 0
  pub remove : ℕ → Buf → Str × Buf

-- The manual of libevent: the bytes removed are the first of the buffer.
pub record IsEvBuffer (ev : EvBuffer) : Type 0 where
  pub contents : ev.Buf → Str
  pub remove-front : (n : ℕ) (b : ev.Buf) → (ev.remove n b).0 ≡ take n (contents b)
  pub remove-rest : (n : ℕ) (b : ev.Buf) → contents (ev.remove n b).1 ≡ drop n (contents b)

-- `parse` is the value that `Reader::parse` leaves, whatever it returns; `as_string` is
-- `value[k].asString()`, where `none` is an exception.
pub record Json : Type 1 where
  pub Value : Type 0
  pub parse : Str → Value
  pub is_member : Value → Str → Bool
  pub as_string : Value → Str → Option Str

pub record HttpTask : Type 0 where
  pub action_id : Str
  pub src_url : Str
  pub file_format : Str
  pub table : Str
  pub callback_url : Str

infixl 5 ◌>>=◌
abbrev ◌>>=◌ {ℓ κ} : {A : Type ℓ} {B : Type κ} → Option A → (A → Option B) → Option B
none >>= f = none
some a >>= f = f a

abbrev empty_task : HttpTask
empty_task = record {
  action_id = [];
  src_url = [];
  file_format = [];
  table = [];
  callback_url = [];
}

pub record Reply : Type 0 where
  pub status : Str
  pub msg : Str
  pub ret : Str

pub record Server : Type 0 where
  pub thread_pool : Pool
  pub tasks : List HttpTask

-- The reply, if it is sent, and the state after the handler.
pub data Handled : Type 0 where
  handled : Option Reply → Server → Handled
  aborted : Handled

abbrev pub sz_size : ℕ
sz_size = 2048

-- `evbuffer_add_printf` may fail; then no reply is sent.
reply : Bool → Reply → Server → Handled
reply printed r s = handled (if printed then some r else none) s

abbrev missing_reply : Reply
missing_reply = record {
  status = codes "success";
  msg = codes "parameter missing";
  ret = codes "-1";
}

abbrev pub ok_reply : Reply
ok_reply = record { status = codes "success"; msg = codes "OK"; ret = codes "0" }

abbrev post_reply : Reply
post_reply = record {
  status = codes "fail";
  msg = codes "just support get method";
  ret = codes "-1";
}

-- `created` and `printed` say whether `evbuffer_new` and `evbuffer_add_printf` succeed.
pub test_process : Bool → Bool → Server → Handled
unfolding reply
test_process created printed s =
    if created
    then reply printed
        (record { status = codes "success"; msg = codes "just test page!"; ret = codes "0" }) s
    else handled none s

pub other_process : Bool → Bool → Server → Handled
unfolding reply
other_process created printed s =
    if created
    then reply printed
        (record {
          status = codes "success";
          msg = codes "wrong access,kidding me?";
          ret = codes "-1";
        })
        s
    else handled none s

module _ (ev : EvBuffer) where
  -- The loop of `evbuffer_remove`, with `space` bytes left in `szTemp`: what it puts there.
  pub read_loop : ℕ → ℕ → ev.Buf → Str
  read_loop zero space b = []
  read_loop (suc fuel) space b = elim (ev.remove space b).0 [
    | [] ↦ []
    | c ∷ s ↦ (c ∷ s) ++ read_loop fuel (space - suc (length s)) (ev.remove space b).1
  ]

  -- The text that the parser and the log are given. `sz_temp` is the memory from `szTemp` on as it
  -- was before; nothing puts a zero behind the body.
  pub request_text : Str → ev.Buf → Str
  unfolding read_loop c_string
  request_text sz_temp b =
      let body = read_loop (suc sz_size) sz_size b in c_string (body ++ drop (length body) sz_temp)

module _ (ev : EvBuffer) (json : Json) where
  open json use {Value, parse, is_member, as_string}

  pub record Request : Type 0 where
    pub created : Bool
    pub is_post : Bool
    pub input : ev.Buf
    pub sz_temp : Str
    pub printed : Bool

  -- The three fields that are asked for.
  pub has_fields : Value → Bool
  has_fields value = not (
      not (is_member value (codes "action_id"))
      || (not (is_member value (codes "src_url")) || not (is_member value (codes "callback_url"))))

  -- The five assignments.
  pub fill_task : Value → Option HttpTask
  fill_task value = do
    action_id ← as_string value (codes "action_id")
    src_url ← as_string value (codes "src_url")
    callback_url ← as_string value (codes "callback_url")
    table ← as_string value (codes "table")
    file_format ← as_string value (codes "file_format")
    some (record {
      action_id = action_id;
      src_url = src_url;
      file_format = file_format;
      table = table;
      callback_url = callback_url;
    })

  -- From the parsed value on.
  pub take_task : Bool → Value → Server → Handled
  unfolding has_fields fill_task reply add_task
  take_task printed value s =
      if has_fields value
      then elim (fill_task value) [
        | none ↦ aborted
        | some t ↦ elim (add_task (length s.tasks) s.thread_pool) [
          | none ↦ aborted
          | some pool ↦
              reply printed ok_reply (record { thread_pool = pool; tasks = s.tasks ++ t ∷ [] })
        ]
      ]
      else reply printed missing_reply (record s { tasks = s.tasks ++ empty_task ∷ [] })

  pub calcsig_process : Request → Server → Handled
  unfolding take_task request_text
  calcsig_process r s =
      if not r.created
      then handled none s
      else if not r.is_post
      then reply r.printed post_reply s
      else take_task r.printed (parse (request_text ev r.sz_temp r.input)) s
