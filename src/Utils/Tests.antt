-- ===== src/Utils/Tests.antt =====
-- The functions of utils/utils.cpp on concrete inputs, and the theorems at them.
use Prim.Native.Nat.{bit_xor}
use calcsig.Common.{
  ℕ, suc, ◌+◌, ◌-◌, ◌*◌, ◌%◌, ◌≡◌, ◌≢◌, ◌↔◌, refl, ap, subst, sym, ◌∙◌, arith, if◌then◌else◌, Bool,
  true, false, ◌&&◌, ◌||◌, List, [], ◌∷◌, ◌++◌, map, All, length, length-append, take, take-append,
  keep, Option, none, some, ◌⊎◌, inl, inr, Bool-cases,
}
use calcsig.Common.Text.{Str, codes, lookup}
use calcsig.Common.Decimal.{format}
use calcsig.Utils.Punct.{is_punct, is_space, remove_space_punct}
use calcsig.Utils.RandString.{pick, is_upper, rand_string, AsAsked, rand_string-AsAsked}
use calcsig.Utils.SigPath.{sig_path, to_lower, sig_path_eq}
use calcsig.Utils.CalcSig.{Md5, IsStreaming, Read, chunk, failed, calc_sig, calc_sig-content}

removed : remove_space_punct (codes "a, b-7") ≡ codes "ab7"
unfolding remove_space_punct is_punct is_space
removed = refl

abbrev count_up : ℕ → ℕ × ℕ
count_up s = (s * 37, s + 1)

rand_string-AsAsked_example :
    (length (rand_string count_up 4 false true 1).0 ≡ 4)
    × All (AsAsked false true) (rand_string count_up 4 false true 1).0
    × ((r : ℕ) → (is_upper (pick false true r) ≡ true) ↔ (r % 62 ≡ 51))
rand_string-AsAsked_example = rand_string-AsAsked count_up 4 false true 1

-- The call in test.cpp of that directory.
test_path : sig_path 3618479176 3060740984 (codes "Mp3") ≡ codes "n2/84/9/3618479176.mp3"
unfolding sig_path format lookup
test_path = refl

sig_path_eq_example : (sig_path 7 10012 (codes "MP3") ≡ sig_path 7 40012 (codes "mp3")) ↔ (
    ◌≡◌ {A = ℕ} 7 7
    × ◌≡◌ {A = ℕ} (10012 % 10000) (40012 % 10000)
    × (bit_xor 7 10012 % 3 ≡ bit_xor 7 40012 % 3)
    × (map to_lower (codes "MP3") ≡ map to_lower (codes "mp3")))
sig_path_eq_example = sig_path_eq 7 10012 (codes "MP3") 7 40012 (codes "mp3")

-- A hash for the tests: the bytes read so far, the digest their first sixteen.
abbrev toy_md5 : Md5
toy_md5 = record {
  Ctx = Str;
  md5_init = [];
  update = λ c s. c ++ s;
  final = λ c i. calcsig.Common.get_or c i 0;
}

toy_md5-IsStreaming : IsStreaming toy_md5
toy_md5-IsStreaming = record {
  update-append = λ c s t. calcsig.Common.append_assoc c s t;
  update-nil = λ c. calcsig.Common.append-nil c;
}

-- The third read fails.
abbrev reads : List Read
reads = chunk (1 ∷ 2 ∷ 3 ∷ []) ∷ chunk (4 ∷ 5 ∷ []) ∷ failed ∷ []

calc_sig-content_example :
    calc_sig toy_md5 (some reads) ≡ record { signature = none; open_fds = 1; buffers = 1 }
calc_sig-content_example = calc_sig-content toy_md5 toy_md5-IsStreaming reads
