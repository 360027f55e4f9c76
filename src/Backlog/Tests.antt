-- ===== src/Backlog/Tests.antt =====
-- The theorems on the backlog at a ring that a write has gone round.
use garnet_rust.Common.{◌≡◌, refl, [], ◌∷◌, arith, if◌then◌else◌, take}
use garnet_rust.Backlog.{ReplicationBacklog, IsValid, keep_last, contents, read_bytes, feed}
use garnet_rust.Backlog.Feed.{Fed, feed_lem}
use garnet_rust.Backlog.Read.{of_history, read_bytes_lem, read_bytes-feed}

-- Four bytes of room, with the bytes 3, 4, 5 and 6 after a stream of ten.
abbrev round : ReplicationBacklog
round = record {
  buf = 5 ∷ 6 ∷ 3 ∷ 4 ∷ [];
  capacity = 4;
  write_idx = 2;
  hist_len = 4;
  master_repl_offset = 10;
}

round-IsValid : IsValid round
round-IsValid = record { size = refl; index = omega arith; history = omega arith }

feed_example : Fed round (7 ∷ 8 ∷ 9 ∷ []) (feed (7 ∷ 8 ∷ 9 ∷ []) round)
feed_example = feed_lem round-IsValid (7 ∷ 8 ∷ 9 ∷ [])

read_bytes_example :
    read_bytes round 7 2
    ≡ (if of_history round 7 then take 2 (keep_last 3 (contents round)) else [])
read_bytes_example = read_bytes_lem round-IsValid 7 2

read_bytes-feed_example : read_bytes (feed (7 ∷ 8 ∷ 9 ∷ []) round) 10 2 ≡ 7 ∷ 8 ∷ []
read_bytes-feed_example = read_bytes-feed round-IsValid (7 ∷ 8 ∷ 9 ∷ []) (omega arith) 2
