-- ===== src/Repl/Tests.antt =====
-- The theorems on replication at concrete states; the sessions are an association list.
use garnet_rust.Common.{
  ℕ, ◌-◌, ◌^◌, get_or, ◌≤◌, ◌≡◌, ◌≢◌, ◌↔◌, refl, ap, inl, inr, List, [], ◌∷◌, ◌++◌, arith, take,
  replicate, bytes_eq,
}
use garnet_rust.Common.Int.{pos}
use garnet_rust.Common.Result.{ok}
use garnet_rust.Repl.Role.{primary}
use garnet_rust.Repl.History.{
  ReplicationHistory, to_byte_array, from_bytes, generate, empty, question_mark, IsValid,
}
use garnet_rust.Repl.History.RoundTrip.{from_bytes-to_byte_array}
use garnet_rust.Repl.History.Sound.{from_bytes-ok}
use garnet_rust.Repl.Sync.{full_resync, decide_sync}
use garnet_rust.Repl.Manager.{
  ReplicationManager, with_history, rotate_and_promote, evaluate_psync, register_replica,
  update_replica_ack, get_current_safe_aof_address,
}
use garnet_rust.Repl.SyncLaws.{Decides, decide_sync-Decides, evaluate_psync-rotate_and_promote}
use garnet_rust.Repl.SessionList.{Entries, session_list, session_list-IsMap}
use garnet_rust.Repl.SafePoint.{
  Acked, get_current_safe_aof_address_lem, get_current_safe_aof_address-update_replica_ack,
}

abbrev past : ReplicationHistory
past = record {
  primary_replid = replicate 40 97;
  primary_replid2 = question_mark;
  replication_offset = 70000;
  replication_offset2 = 2 ^ 64 - 1;
}

past-IsValid : IsValid past
past-IsValid = record {
  id = (refl, inl refl);
  id2 = (refl, inr refl);
  offset = omega arith;
  offset2 = omega arith;
}

from_bytes-to_byte_array_example : from_bytes (to_byte_array past) ≡ ok past
from_bytes-to_byte_array_example = from_bytes-to_byte_array past past-IsValid

-- A byte follows the record.
abbrev file_bytes : List ℕ
file_bytes =
    1
    ∷ (replicate 40 97
        ++ (question_mark ++ (112 ∷ 17 ∷ 1 ∷ 0 ∷ 0 ∷ 0 ∷ 0 ∷ 0 ∷ (replicate 8 255 ++ 7 ∷ []))))

file-from_bytes : from_bytes file_bytes ≡ ok past
unfolding from_bytes bytes_eq
file-from_bytes = refl

from_bytes-ok_example : IsValid past × (to_byte_array past ≡ take 97 file_bytes)
from_bytes-ok_example = from_bytes-ok file_bytes past refl file-from_bytes

abbrev node : List ℕ
node = 110 ∷ 49 ∷ []

-- A primary with a replica.
abbrev served : ReplicationManager Entries
served = register_replica session_list 5 node 6379 [] (with_history session_list primary past)

abbrev random : List ℕ
random = replicate 20 205

decide_sync-Decides_example :
    Decides past 60000 70000
      (replicate 40 97)
      (pos 65000)
      (decide_sync past 60000 70000 (replicate 40 97) (pos 65000))
decide_sync-Decides_example = decide_sync-Decides past 60000 70000 (replicate 40 97) (pos 65000)

past-known : past.primary_replid ≢ empty
past-known e = let first : 97 ≡ 48 = ap (λ xs. get_or xs 0 0) e in absurd (omega (arith, first))

past-other : past.primary_replid ≢ generate random
unfolding generate
past-other e = let first : 97 ≡ 99 = ap (λ xs. get_or xs 0 0) e in absurd (omega (arith, first))

evaluate_psync-rotate_and_promote_example :
    evaluate_psync 60000 80000
      (replicate 40 97)
      (pos 70001)
      (rotate_and_promote random 70000 served)
    ≡ ok (full_resync (generate random) 80000)
evaluate_psync-rotate_and_promote_example =
    evaluate_psync-rotate_and_promote served random 70000 refl past-known past-other 60000 80000
      70001 (omega arith) (omega arith)

get_current_safe_aof_address_example :
    (0 ≤ get_current_safe_aof_address session_list served)
    ↔ ((0 ≤ served.min_served_offset) × Acked session_list-IsMap served.sessions 0)
get_current_safe_aof_address_example =
    get_current_safe_aof_address_lem session_list-IsMap served 0 (omega arith)

get_current_safe_aof_address-update_replica_ack_example :
    get_current_safe_aof_address session_list served
    ≤ get_current_safe_aof_address session_list
        (update_replica_ack session_list 9 node 69000 served)
get_current_safe_aof_address-update_replica_ack_example =
    get_current_safe_aof_address-update_replica_ack session_list-IsMap 9 node 69000 served
      (omega arith)
