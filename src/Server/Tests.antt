-- ===== src/Server/Tests.antt =====
-- Concrete runs of the server's parts.
use calcsig.ThreadPool98.{new_pool}
use calcsig.Utils.CalcSig.{Md5}
use calcsig.Server.Start.{
  Latch, sleeps, passed, threw, Step, create, created, turn, test, Reach, here, next, start,
  remaining, start-passes,
}
use calcsig.Server.Auth.{check_request_valid, bytes_of, bytes_from, check_request_valid-bytes}
use calcsig.Common.{
  drop, ℕ, ◌%◌, ◌<◌, ◌≤◌, ◌↔◌, arith, refl, true, ◌++◌, length, ◌≡◌, [], some, ◌⊎◌,
}
use calcsig.Common.Text.{Str, codes}
use calcsig.Common.Decimal.{format}
use calcsig.Server.Headers.{
  strtoul, no_space_line, head_reader, callback_head_reader, content_length_line, min, ulong_max,
  head_reader-content_length,
}

head_reader-content_length_example :
    (head_reader (content_length_line 1030) 0 ≡ min ulong_max 1030)
    × (callback_head_reader (content_length_line 1030) 0 ≡ min ulong_max 1030)
    × (head_reader (no_space_line 1030) 0 ≡ strtoul (drop 1 (format 1030 ++ codes "\r\n")))
    × (callback_head_reader (no_space_line 1030) 0 ≡ strtoul (drop 1 (format 1030 ++ codes "\r\n")))
head_reader-content_length_example = head_reader-content_length 1030 0

-- A worker has arrived, and the thread of `start` sleeps.
abbrev one_asleep : Latch
one_asleep = record { main = sleeps; threadnum = 1; init_count = 0; arriving = 1 }

one_asleep-Reach : Reach (start 1 4 9) one_asleep
unfolding new_pool test
one_asleep-Reach = next (next (next here (create 0 refl)) (created refl)) (turn refl)

start-passes_example :
    ((one_asleep.main ≡ passed) ⊎ (one_asleep.main ≡ threw) ⊎ ((t : Latch) × Step one_asleep t))
    × ((t : Latch) → Step one_asleep t → remaining t < remaining one_asleep)
    × (one_asleep.main ≡ passed → 1 ≤ one_asleep.init_count)
start-passes_example = start-passes 1 4 9 one_asleep one_asleep-Reach

-- A digest of the length of the text in every byte.
abbrev toy_md5 : Md5
toy_md5 = record { Ctx = Str; md5_init = []; update = λ c s. c ++ s; final = λ c i. length c % 256 }

toy_md5-bytes : (c : toy_md5.Ctx) (k : ℕ) → toy_md5.final c k < 256
toy_md5-bytes c k = omega arith

check_request_valid-bytes_example :
    (check_request_valid toy_md5
        (codes "key")
        (codes "1544113635")
        (codes "0e0e0e0e0e0e0e0e0e0e0e0e0e0e0e0e")
      ≡ true)
    ↔ (bytes_of (codes "0e0e0e0e0e0e0e0e0e0e0e0e0e0e0e0e")
        ≡ some (
            bytes_from toy_md5
              (toy_md5.update toy_md5.md5_init (codes "key" ++ (codes "_" ++ codes "1544113635")))
              16
              0))
check_request_valid-bytes_example =
    check_request_valid-bytes toy_md5 (codes "key") (codes "1544113635")
      (codes "0e0e0e0e0e0e0e0e0e0e0e0e0e0e0e0e") toy_md5-bytes
