-- ===== src/Server/Request/Text.antt =====
-- src/server.cpp: the body of a request, as `calcsig_process` reads it into its buffer.
use calcsig.Common.{
  ℕ, zero, suc, ◌-◌, ◌<◌, ◌≡◌, refl, ap, sym, ◌∙◌, arith, [], ◌∷◌, ◌++◌, length, length-take, take,
  drop, append-nil,
}
use calcsig.Common.Text.{Str, Lacks, c_string, c_string-append}
use calcsig.Server.Request.{EvBuffer, IsEvBuffer, read_loop, request_text, sz_size}

take_nil : (n : ℕ) → take {A = ℕ} n [] ≡ []
take_nil zero = refl
take_nil (suc n) = refl

take_rest : (n : ℕ) (s : Str) → take (n - length (take n s)) (drop n s) ≡ []
take_rest zero s = refl
take_rest (suc n) [] = take_nil (suc n - 0)
take_rest (suc n) (c ∷ s) =
    let e : suc n - suc (length (take n s)) ≡ n - length (take n s) = omega arith in
    rw e (take_rest n s)

module _ (ev : EvBuffer) (law : IsEvBuffer ev) where
  read_loop_lem :
      (fuel space : ℕ) (b : ev.Buf)
      → space < fuel
      → read_loop ev fuel space b ≡ take space (law.contents b)
  unfolding read_loop
  read_loop_lem zero space b h = elim h [ ]
  read_loop_lem (suc fuel) space b h = go (read_loop_lem fuel) (ev.remove space b).0 refl
    where
      go :
          ((n : ℕ) (d : ev.Buf) → n < fuel → read_loop ev fuel n d ≡ take n (law.contents d))
          → (s : Str) → (ev.remove space b).0 ≡ s
          → read_loop ev (suc fuel) space b ≡ take space (law.contents b)
      go again [] e = rw (e, read_loop) (sym e ∙ law.remove-front space b)
      go again (c ∷ s) e =
          let front : c ∷ s ≡ take space (law.contents b) = sym e ∙ law.remove-front space b in
          let n : suc (length s) ≡ length (take space (law.contents b)) = ap length front in
          let short = length-take space (law.contents b) in
          let rest =
            again (space - suc (length s)) (ev.remove space b).1 (omega arith)
            ∙ ap (take (space - suc (length s))) (law.remove-rest space b)
            ∙ ap (λ k. take (space - k) (drop space (law.contents b))) n
            ∙ take_rest space (law.contents b) in
          rw (e, read_loop) (ap (λ u. (c ∷ s) ++ u) rest ∙ append-nil (c ∷ s) ∙ front)

  -- What the parser is given is the first 2048 bytes of the body, as far as they hold no zero, and
  -- behind them what was in the buffer before: there is no zero to end the text.
  pub request_text_lem :
      (sz_temp : Str) (b : ev.Buf)
      → Lacks 0 (take sz_size (law.contents b))
      → request_text ev sz_temp b
        ≡ take sz_size (law.contents b)
          ++ c_string (drop (length (take sz_size (law.contents b))) sz_temp)
  unfolding request_text
  request_text_lem sz_temp b h =
      rw (read_loop_lem (suc sz_size) sz_size b (omega arith))
        (c_string-append (take sz_size (law.contents b)) _ h)
