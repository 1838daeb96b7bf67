-- ===== src/Redis/Raw.antt =====
-- redispool/redisconn.hpp: `m_reply`, the reply that a connection holds, with `sendCommand`, `getReply` and
-- `freeReply`. A reply is named by the number of its allocation.
use calcsig.Common.{
  ℕ, zero, suc, ◌+◌, ◌≡◌, refl, arith, if◌then◌else◌, Bool, true, false, List, [], ◌∷◌, ◌++◌,
  length, get_elem?, set, total, total-append, Option, none, some,
}

-- The constructor leaves the pointer as it finds it.
pub data Pointer : Type 0 where
  junk null : Pointer
  held_reply : ℕ → Pointer

-- `replies` says of each reply whether it is still allocated.
pub record Connection : Type 0 where
  pub m_reply : Pointer
  pub replies : List Bool

abbrev pub new_connection : Connection
new_connection = record { m_reply = junk; replies = [] }

-- What the user of a connection calls; `command` is any of the others, which read the reply and free
-- it. The Boolean says whether the server answers: otherwise hiredis gives `NULL`.
pub data Call : Type 0 where
  send_command command : Bool → Call
  get_reply free_reply : Call

pub receive : Bool → Connection → Connection
receive true c = record {
  m_reply = held_reply (length c.replies);
  replies = c.replies ++ true ∷ [];
}
receive false c = record c { m_reply = null }

-- `freeReplyObject`; `none` where it is given what is not allocated.
pub free_at : Pointer → List Bool → Option Connection
free_at junk replies = none
free_at null replies = some (record { m_reply = null; replies = replies })
free_at (held_reply p) replies = elim (get_elem? replies p) [
  | none ↦ none
  | some alive ↦
      if alive then some (record { m_reply = null; replies = set replies p false }) else none
]

-- The other commands read the type of the reply before they free it.
pub read_and_free : Bool → Connection → Option Connection
unfolding free_at receive
read_and_free answers c =
    if answers then free_at (receive true c).m_reply (receive true c).replies else none

pub call : Call → Connection → Option Connection
unfolding receive free_at read_and_free
call (send_command answers) c = some (receive answers c)
call (command answers) c = read_and_free answers c
call get_reply c = some c
call free_reply c = free_at c.m_reply c.replies

-- The calls one after another; the destructor does not look at `m_reply`.
pub run : List Call → Connection → Option Connection
unfolding call
run [] c = some c
run (k ∷ ks) c = elim (call k c) [ none ↦ none | some c' ↦ run ks c' ]

-- How many of the replies are still allocated.
abbrev pub allocated : List Bool → ℕ
allocated rs = total (λ b. if b then 1 else 0) rs

-- How many replies the calls leave allocated for good: those that are held where the next command is
-- sent, or at the end.
abbrev pub lost : List Call → Bool → ℕ
lost [] held = if held then 1 else 0
lost (send_command answers ∷ ks) held = (if held then 1 else 0) + lost ks answers
lost (command answers ∷ ks) held = (if held then 1 else 0) + lost ks false
lost (get_reply ∷ ks) held = lost ks held
lost (free_reply ∷ ks) held = lost ks false

-- No command is read without a reply, and nothing is freed before the first command.
abbrev pub careful : Bool → List Call → Bool
careful started [] = true
careful started (send_command answers ∷ ks) = careful true ks
careful started (command answers ∷ ks) = if answers then careful true ks else false
careful started (get_reply ∷ ks) = careful started ks
careful started (free_reply ∷ ks) = if started then careful true ks else false

allocated-set :
    (rs : List Bool) (p : ℕ)
    → get_elem? rs p ≡ some true
    → allocated (set rs p false) + 1 ≡ allocated rs
allocated-set [] p e = cc e
allocated-set (true ∷ rs) zero e = omega arith
allocated-set (false ∷ rs) zero e = cc e
allocated-set (b ∷ rs) (suc p) e = omega (arith, allocated-set rs p e)

get_elem?-last : (rs : List Bool) → get_elem? (rs ++ true ∷ []) (length rs) ≡ some true
get_elem?-last [] = refl
get_elem?-last (b ∷ rs) = get_elem?-last rs

-- What `held` says of the pointer.
abbrev Holds : Bool → Bool → Pointer → List Bool → Type 0
Holds started held junk rs = (started ≡ false) × (held ≡ false)
Holds started held null rs = held ≡ false
Holds started held (held_reply p) rs = (held ≡ true) × (get_elem? rs p ≡ some true)

abbrev Ends : List Call → Bool → Connection → Type 0
Ends ks held c =
    (c' : Connection) × (run ks c ≡ some c')
    × (allocated c'.replies + (if held then 1 else 0) ≡ allocated c.replies + lost ks held)

free_at-reply :
    (p : ℕ) (rs : List Bool)
    → get_elem? rs p ≡ some true
    → free_at (held_reply p) rs ≡ some (record { m_reply = null; replies = set rs p false })
unfolding free_at
free_at-reply p rs e = rw (e, free_at) refl

run-Ends :
    (ks : List Call) (started held : Bool) (ptr : Pointer) (rs : List Bool)
    → careful started ks ≡ true
    → Holds started held ptr rs
    → Ends ks held (record { m_reply = ptr; replies = rs })
unfolding run call receive read_and_free free_at
run-Ends [] started held ptr rs ok h = (record { m_reply = ptr; replies = rs }, refl, refl)
run-Ends (send_command true ∷ ks) started held ptr rs ok h =
    let (c', e, n) =
      run-Ends ks true true (held_reply (length rs)) (rs ++ true ∷ []) ok
        (refl, get_elem?-last rs) in
    (c', e, omega (arith, n, total-append (λ b. if b then 1 else 0) rs (true ∷ [])))
run-Ends (send_command false ∷ ks) started held ptr rs ok h =
    let (c', e, n) = run-Ends ks true false null rs ok refl in (c', e, omega (arith, n))
run-Ends (command true ∷ ks) started held ptr rs ok h =
    let longer = rs ++ true ∷ [] in
    let (c', e, n) = run-Ends ks true false null (set longer (length rs) false) ok refl in
    (
      c',
      rw (free_at-reply (length rs) longer (get_elem?-last rs), run, call, read_and_free) e,
      omega (
        arith,
        n,
        allocated-set longer (length rs) (get_elem?-last rs),
        total-append (λ b. if b then 1 else 0) rs (true ∷ []),
      ),
    )
run-Ends (command false ∷ ks) started held ptr rs ok h = cc ok
run-Ends (get_reply ∷ ks) started held ptr rs ok h = run-Ends ks started held ptr rs ok h
run-Ends (free_reply ∷ ks) false held ptr rs ok h = cc ok
run-Ends (free_reply ∷ ks) true held junk rs ok h = absurd (cc h.0)
run-Ends (free_reply ∷ ks) true held null rs ok h =
    let (c', e, n) = run-Ends ks true false null rs ok refl in (c', e, ground (arith, n, h))
run-Ends (free_reply ∷ ks) true held (held_reply p) rs ok h =
    let (c', e, n) = run-Ends ks true false null (set rs p false) ok refl in
    (c', rw (free_at-reply p rs h.1, run) e, ground (arith, n, h.0, allocated-set rs p h.1))

-- Whatever is called on a new connection, if nothing is freed before the first command and every
-- command but a raw one is answered: no reply is freed twice, and those still allocated at the end are
-- the ones that were held when another command was sent, and the one held at the end.
pub run-lost :
    (ks : List Call)
    → careful false ks ≡ true
    → (c : Connection) × (run ks new_connection ≡ some c) × (allocated c.replies ≡ lost ks false)
run-lost ks ok =
    let (c, e, n) = run-Ends ks false false junk [] ok (refl, refl) in (c, e, omega (arith, n))
