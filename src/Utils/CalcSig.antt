-- ===== src/Utils/CalcSig.antt =====
-- utils/utils.cpp: `reverse_byte_order` and `calcSig`, the two signatures of a file. OpenSSL's MD5
-- is a parameter; the file is what its `read` calls return. Words are read as on a little-endian
-- machine.
use Prim.Native.Nat.{bit_xor}
use mathlib.Core.Option
use calcsig.Common.{
  ℕ, ◌+◌, ◌*◌, ◌^◌, ◌≡◌, refl, List, [], ◌∷◌, ◌++◌, Option, Option-cases, none, some, inl, inr,
  get_or, set,
}
use calcsig.Common.Text.{Str}

-- `final` gives the bytes of the digest by their index.
pub record Md5 : Type 1 where
  pub Ctx : Type 0
  pub md5_init : Ctx
  pub update : Ctx → Str → Ctx
  pub final : Ctx → ℕ → ℕ

-- Hashing is by streaming: two updates are one with both parts.
pub record IsStreaming (m : Md5) : Type 0 where
  pub update-append : (c : m.Ctx) (s t : Str) → m.update (m.update c s) t ≡ m.update c (s ++ t)
  pub update-nil : (c : m.Ctx) → m.update c [] ≡ c

swap : ℕ → ℕ → Str → Str
swap i j buf = set (set buf i (get_or buf j 0)) j (get_or buf i 0)

-- At the address `buf + o`.
pub reverse_byte_order : ℕ → Str → Str
unfolding swap
reverse_byte_order o buf = swap (o + 1) (o + 2) (swap o (o + 3) buf)

-- `((unsigned int*)buf)[w]`.
pub load_word : Str → ℕ → ℕ
load_word buf w =
    get_or buf (4 * w) 0
    + get_or buf (4 * w + 1) 0 * 2 ^ 8
    + get_or buf (4 * w + 2) 0 * 2 ^ 16
    + get_or buf (4 * w + 3) 0 * 2 ^ 24

-- The result of one `read`: the bytes (none at the end of the file), or a failure.
pub data Read : Type 0 where
  chunk : Str → Read
  failed : Read

-- What the call returns, and what it leaves behind: descriptors that are open and the two
-- buffers that are allocated.
pub record Outcome : Type 0 where
  pub signature : Option (ℕ × ℕ)
  pub open_fds : ℕ
  pub buffers : ℕ

module _ (m : Md5) where
  open m use {Ctx, md5_init, update, final}

  read_loop : Ctx → List Read → Option Ctx
  read_loop ctx [] = some ctx
  read_loop ctx (chunk [] ∷ rs) = some ctx
  read_loop ctx (chunk (b ∷ s) ∷ rs) = read_loop (update ctx (b ∷ s)) rs
  read_loop ctx (failed ∷ rs) = none

  -- `MD5_Final` into an array of 16 bytes.
  abbrev digest : Ctx → Str
  digest c =
      final c 0
      ∷ final c 1
      ∷ final c 2
      ∷ final c 3
      ∷ final c 4
      ∷ final c 5
      ∷ final c 6
      ∷ final c 7
      ∷ final c 8
      ∷ final c 9
      ∷ final c 10
      ∷ final c 11
      ∷ final c 12
      ∷ final c 13
      ∷ final c 14
      ∷ final c 15
      ∷ []

  signatures : Ctx → ℕ × ℕ
  unfolding reverse_byte_order load_word
  signatures c =
      let md5val =
        reverse_byte_order 12
          (reverse_byte_order 8 (reverse_byte_order 4 (reverse_byte_order 0 (digest c)))) in
      (
        bit_xor (load_word md5val 0) (load_word md5val 1),
        bit_xor (load_word md5val 2) (load_word md5val 3),
      )

  -- `none` for a file that cannot be opened.
  pub calc_sig : Option (List Read) → Outcome
  unfolding read_loop signatures
  calc_sig none = record { signature = none; open_fds = 0; buffers = 0 }
  calc_sig (some reads) = elim (read_loop md5_init reads) [
    | none ↦ record { signature = none; open_fds = 1; buffers = 1 }
    | some ctx ↦ record { signature = some (signatures ctx); open_fds = 0; buffers = 0 }
  ]

  -- Four bytes of the digest, the first the most significant.
  abbrev pub big_endian : Ctx → ℕ → ℕ
  big_endian c i =
      final c (i + 3) + final c (i + 2) * 2 ^ 8 + final c (i + 1) * 2 ^ 16 + final c i * 2 ^ 24

  signatures_lem :
      (c : Ctx)
      → signatures c
        ≡ (bit_xor (big_endian c 0) (big_endian c 4), bit_xor (big_endian c 8) (big_endian c 12))
  unfolding signatures swap
  signatures_lem c = refl

  -- What the reads give of the file, if they come to its end.
  abbrev pub content : List Read → Option Str
  content [] = some []
  content (chunk [] ∷ rs) = some []
  content (chunk (b ∷ s) ∷ rs) = Option.map (λ text. (b ∷ s) ++ text) (content rs)
  content (failed ∷ rs) = none

  abbrev pub outcome_of : Option Str → Outcome
  outcome_of none = record { signature = none; open_fds = 1; buffers = 1 }
  outcome_of (some text) =
      let c = update md5_init text in
      record {
        signature =
            some (
              bit_xor (big_endian c 0) (big_endian c 4),
              bit_xor (big_endian c 8) (big_endian c 12),
            );
        open_fds = 0;
        buffers = 0;
      }

  module _ (law : IsStreaming m) where
    read_loop-content :
        (reads : List Read) (c : Ctx) → read_loop c reads ≡ Option.map (update c) (content reads)
    unfolding read_loop
    read_loop-content [] c = rw law.update-nil
    read_loop-content (chunk [] ∷ rs) c = rw law.update-nil
    read_loop-content (chunk (b ∷ s) ∷ rs) c = elim (Option-cases (content rs)) [
      | inl e ↦ rw (read_loop-content rs (update c (b ∷ s)), e) refl
      | inr (text, e) ↦ rw (read_loop-content rs (update c (b ∷ s)), e, law.update-append) refl
    ]
    read_loop-content (failed ∷ rs) c = refl

    -- A file that is read to its end, in any pieces, has the signatures of its content, each the
    -- exclusive or of two words of the digest in network order, and everything is released; after a
    -- read that fails there is no signature, and the descriptor and the buffer are left behind.
    pub calc_sig-content : (reads : List Read) → calc_sig (some reads) ≡ outcome_of (content reads)
    unfolding calc_sig
    calc_sig-content reads = elim (Option-cases (content reads)) [
      | inl e ↦ rw (calc_sig, read_loop-content reads md5_init, e) refl
      | inr (text, e) ↦ rw (calc_sig, read_loop-content reads md5_init, e) refl
    ]

-- A file that cannot be opened has no signature.
pub calc_sig-none : (m : Md5) → (calc_sig m none).signature ≡ none
unfolding calc_sig
calc_sig-none m = refl
