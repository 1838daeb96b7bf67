-- ===== src/Server/Request/Tests.antt =====
-- Concrete requests to the handler.
use calcsig.Common.{◌≡◌, refl, arith, true, false, [], ◌∷◌, ◌++◌, some, ◌⊎◌, take, drop, length}
use calcsig.Common.Text.{Str, codes, c_string}
use calcsig.Server.Request.{
  EvBuffer, IsEvBuffer, Json, HttpTask, handled, Server, ok_reply, Request, request_text, sz_size,
  calcsig_process, take_task, reply, has_fields, fill_task, read_loop,
}
use calcsig.Server.Request.Text.{request_text_lem}
use calcsig.Server.Request.Accepted.{accepts, Queued, calcsig_process-Queued}
use calcsig.ThreadPool98.{new_pool, add_task, push_task}

-- A buffer that is the list of its bytes.
abbrev pub toy_ev : EvBuffer
toy_ev = record { Buf = Str; remove = λ n b. (take n b, drop n b) }

abbrev toy_ev-IsEvBuffer : IsEvBuffer toy_ev
toy_ev-IsEvBuffer = record {
  contents = λ b. b;
  remove-front = λ n b. refl;
  remove-rest = λ n b. refl;
}

-- The tail of a longer request is behind the body `hi`.
request_text_lem_example :
    request_text toy_ev (codes "abcd") (codes "hi")
    ≡ take sz_size (codes "hi")
      ++ c_string (drop (length (take sz_size (codes "hi"))) (codes "abcd"))
request_text_lem_example =
    request_text_lem toy_ev toy_ev-IsEvBuffer (codes "abcd") (codes "hi")
      (omega arith, (omega arith, tt))

-- Every body has every field, and its value is the body.
abbrev pub toy_json : Json
toy_json = record {
  Value = Str;
  parse = λ s. s;
  is_member = λ v k. true;
  as_string = λ v k. some v;
}

abbrev pub toy_request : Request toy_ev toy_json
toy_request = record {
  created = true;
  is_post = true;
  input = codes "x";
  sz_temp = 0 ∷ 0 ∷ [];
  printed = true;
}

abbrev pub idle_server : Server
idle_server = record { thread_pool = new_pool 1 1 4; tasks = [] }

abbrev pub x_task : HttpTask
x_task = record {
  action_id = codes "x";
  src_url = codes "x";
  file_format = codes "x";
  table = codes "x";
  callback_url = codes "x";
}

abbrev pub busy_server : Server
busy_server = record { thread_pool = push_task 0 (new_pool 1 1 4); tasks = x_task ∷ [] }

pub toy_request_lem :
    calcsig_process toy_ev toy_json toy_request idle_server ≡ handled (some ok_reply) busy_server
unfolding calcsig_process take_task reply has_fields fill_task request_text read_loop c_string
    add_task push_task new_pool
toy_request_lem = refl

calcsig_process-Queued_example :
    ((accepts toy_ev toy_json toy_request ≡ true)
      × Queued toy_ev toy_json toy_request idle_server busy_server)
    ⊎ ((accepts toy_ev toy_json toy_request ≡ false)
        × (busy_server.thread_pool ≡ idle_server.thread_pool))
calcsig_process-Queued_example =
    calcsig_process-Queued toy_ev toy_json toy_request idle_server busy_server (some ok_reply)
      toy_request_lem
