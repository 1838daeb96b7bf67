-- ===== src/Server/Auth.antt =====
-- src/server.cpp: `httpServer::check_request_valid`. MD5 is a parameter; the clock that the function
-- reads is not used.
use calcsig.Common.{
  ℕ, zero, suc, ◌+◌, ◌-◌, ◌*◌, ◌/◌, ◌%◌, ◌<◌, ◌≡◌, ◌↔◌, refl, sym, ap, ◌∙◌, arith, ltb, leb,
  if◌then◌else◌, Bool, true, ◌&&◌, List, [], ◌∷◌, ◌++◌, append_assoc, append-nil, All, Option, none,
  some,
}
use calcsig.Common.Text.{Str, codes, str_eq, str_eq_iff}
use calcsig.Utils.CalcSig.{Md5}

-- A digit of `%02x`.
unfoldable pub hex_digit : ℕ → ℕ
hex_digit n = if ltb n 10 then b'0' + n else b'a' + (n - 10)

-- `sprintf(tmp, "%02x", b)` for a byte.
unfoldable pub hex_byte : ℕ → Str
unfolding hex_digit
hex_byte b = hex_digit (b / 16) ∷ hex_digit (b % 16) ∷ []

module _ (m : Md5) where
  -- The loop with `strcat`: `left` rounds, from the byte `i` on.
  unfoldable pub hex_loop : ℕ → ℕ → m.Ctx → Str → Str
  unfolding hex_byte
  hex_loop zero i ctx buf = buf
  hex_loop (suc left) i ctx buf = hex_loop left (suc i) ctx (buf ++ hex_byte (m.final ctx i))

  unfoldable pub check_request_valid : Str → Str → Str → Bool
  unfolding hex_loop
  check_request_valid secret_key timestamps md5sum =
      let src = secret_key ++ (codes "_" ++ timestamps) in
      let buf = hex_loop 16 0 (m.update m.md5_init src) [] in str_eq md5sum buf

-- The value of a digit, and the bytes of a text of pairs of digits: an independent reading.
unfoldable pub digit_value : ℕ → Option ℕ
digit_value c =
    if leb b'0' c && leb c b'9'
    then some (c - b'0')
    else if leb b'a' c && leb c b'f'
    then some (c - b'a' + 10)
    else none

abbrev pair_value : Option ℕ → Option ℕ → Option ℕ
pair_value (some h) (some l) = some (16 * h + l)
pair_value _ _ = none

abbrev cons_value : Option ℕ → Option (List ℕ) → Option (List ℕ)
cons_value (some b) (some bs) = some (b ∷ bs)
cons_value _ _ = none

unfoldable pub bytes_of : Str → Option (List ℕ)
unfolding digit_value
bytes_of [] = some []
bytes_of (h ∷ []) = none
bytes_of (h ∷ l ∷ s) = cons_value (pair_value (digit_value h) (digit_value l)) (bytes_of s)

-- `left` bytes of the digest, from the byte `i` on.
abbrev pub bytes_from : (m : Md5) → m.Ctx → ℕ → ℕ → List ℕ
bytes_from m ctx zero i = []
bytes_from m ctx (suc left) i = m.final ctx i ∷ bytes_from m ctx left (suc i)

digit_value-hex_digit : (n : ℕ) → n < 16 → digit_value (hex_digit n) ≡ some n
unfolding digit_value hex_digit
digit_value-hex_digit n h = ground arith

hex_digit-digit_value : (c n : ℕ) → digit_value c ≡ some n → (hex_digit n ≡ c) × (n < 16)
unfolding digit_value hex_digit
hex_digit-digit_value c n h = ground arith

hex_of : List ℕ → Str
unfolding hex_byte
hex_of [] = []
hex_of (b ∷ bs) = hex_byte b ++ hex_of bs

hex_loop-bytes_from :
    (m : Md5) (left i : ℕ) (ctx : m.Ctx) (buf : Str)
    → hex_loop m left i ctx buf ≡ buf ++ hex_of (bytes_from m ctx left i)
unfolding hex_loop hex_of
hex_loop-bytes_from m zero i ctx buf = sym (append-nil buf)
hex_loop-bytes_from m (suc left) i ctx buf =
    hex_loop-bytes_from m left (suc i) ctx (buf ++ hex_byte (m.final ctx i))
    ∙ append_assoc buf (hex_byte (m.final ctx i)) (hex_of (bytes_from m ctx left (suc i)))

bytes_of-hex_of : (bs : List ℕ) → All (λ b. b < 256) bs → bytes_of (hex_of bs) ≡ some bs
unfolding bytes_of hex_of hex_byte
bytes_of-hex_of [] h = refl
bytes_of-hex_of (b ∷ bs) (h, hs) =
    rw
      (
        digit_value-hex_digit (b / 16) (omega arith),
        digit_value-hex_digit (b % 16) (omega arith),
        bytes_of-hex_of bs hs,
      )
      (ap (λ n. some (n ∷ bs)) (omega arith))

values-some :
    (p q : Option ℕ) (r : Option (List ℕ)) (bs : List ℕ)
    → cons_value (pair_value p q) r ≡ some bs
    → (h : ℕ) × (l : ℕ) × (t : List ℕ) × (p ≡ some h)
      × (q ≡ some l)
      × (r ≡ some t)
      × ((16 * h + l) ∷ t ≡ bs)
values-some (some h) (some l) (some t) bs e = (h, l, t, refl, refl, refl, cc)
values-some (some h) (some l) none bs e = cc
values-some (some h) none r bs e = cc
values-some none q r bs e = cc

hex_byte-values : (h l : ℕ) → l < 16 → hex_byte (16 * h + l) ≡ hex_digit h ∷ hex_digit l ∷ []
unfolding hex_byte
hex_byte-values h l e =
    let high : (16 * h + l) / 16 ≡ h = omega arith in
    let low : (16 * h + l) % 16 ≡ l = omega arith in rw (high, low) refl

bytes_of-some : (s : Str) (bs : List ℕ) → bytes_of s ≡ some bs → s ≡ hex_of bs
unfolding bytes_of hex_of
bytes_of-some [] bs h = ap (λ o. hex_of (elim o [ none ↦ [] | some t ↦ t ])) h
bytes_of-some (c ∷ []) bs h = cc
bytes_of-some (c ∷ d ∷ s) bs e =
    let (h, l, t, eh, el, et, eb) = values-some (digit_value c) (digit_value d) (bytes_of s) bs e in
    let (ch, hh) = hex_digit-digit_value c h eh in
    let (cl, hl) = hex_digit-digit_value d l el in
    let rest = bytes_of-some s t et in
    sym (
      sym (ap hex_of eb)
      ∙ ap (λ u. u ++ hex_of t) (hex_byte-values h l hl)
      ∙ rw (ch, cl, sym rest) refl)

bytes_from-All :
    (m : Md5) (ctx : m.Ctx) (left i : ℕ)
    → ((c : m.Ctx) (k : ℕ) → m.final c k < 256)
    → All (λ b. b < 256) (bytes_from m ctx left i)
bytes_from-All m ctx zero i h = tt
bytes_from-All m ctx (suc left) i h = (h ctx i, bytes_from-All m ctx left (suc i) h)

-- Where MD5 gives bytes, a request is valid exactly if its checksum, read as pairs of lower-case
-- hexadecimal digits, is the sixteen bytes of the digest of the secret key, an underscore and the time
-- stamp. Nothing else of the time stamp is looked at.
pub check_request_valid-bytes :
    (m : Md5) (secret_key timestamps md5sum : Str)
    → ((c : m.Ctx) (k : ℕ) → m.final c k < 256)
    → (check_request_valid m secret_key timestamps md5sum ≡ true) ↔ (
        bytes_of md5sum
        ≡ some (bytes_from m (m.update m.md5_init (secret_key ++ (codes "_" ++ timestamps))) 16 0))
unfolding check_request_valid
check_request_valid-bytes m secret_key timestamps md5sum h = (
  λ e.
      ap bytes_of ((str_eq_iff md5sum _).0 e ∙ all)
      ∙ bytes_of-hex_of digest (bytes_from-All m ctx 16 0 h),
  λ e. (str_eq_iff md5sum _).1 (bytes_of-some md5sum digest e ∙ sym all),
)
  where
    ctx : m.Ctx
    ctx = m.update m.md5_init (secret_key ++ (codes "_" ++ timestamps))

    digest : List ℕ
    digest = bytes_from m ctx 16 0

    all : hex_loop m 16 0 ctx [] ≡ hex_of digest
    all = hex_loop-bytes_from m 16 0 ctx []
