-- ===== src/Repl/History.antt =====
-- wedb_repl/src/history.rs: the identity of a replication stream, and the record of the current and the
-- former identity with its binary form. Bytes are numbers below 256; 48 to 57, 65 to 70 and 97 to 102
-- are the hexadecimal digits and 63 is `?`. The random bytes of `generate` are an argument.
pub mod RoundTrip
pub mod Sound
use garnet_rust.Common.{
  ℕ, ◌+◌, ◌-◌, ◌*◌, ◌/◌, ◌%◌, ◌^◌, ◌<◌, ◌≡◌, ◌⊎◌, List, [], ◌∷◌, ◌++◌, Bool, true, false, ltb, leb,
  ◌==◌, ◌&&◌, ◌||◌, not, if◌then◌else◌, length, take, drop, replicate, all, bytes_eq,
}
use garnet_rust.Common.Result.{Result, ok, err, ◌>>=◌}
use garnet_rust.Common.Bytes.{to_le_bytes, from_le_bytes}
use garnet_rust.Backlog.{slice}
use garnet_rust.Repl.Role.{NodeRole, RecoveryStatus}

-- The errors of wedb_repl/src/error.rs that this code raises; the texts are left out.
pub data Error : Type 0 where
  invalid_version : ℕ → ℕ → Error
  invalid_data_length : ℕ → ℕ → Error
  invalid_repl_id : Error
  not_primary : NodeRole → Error
  invalid_state_transition : RecoveryStatus → RecoveryStatus → Error

abbrev pub repl_id_len : ℕ
repl_id_len = 40

abbrev pub replication_history_version : ℕ
replication_history_version = 1

abbrev pub replication_history_bytes_len : ℕ
replication_history_bytes_len = 1 + repl_id_len * 2 + 16

abbrev pub ReplId : Type 0
ReplId = List ℕ

-- `HEX_CHARS` at an index below 16
abbrev pub hex_char : ℕ → ℕ
hex_char d = if ltb d 10 then 48 + d else 87 + d

-- The 20 random bytes as digits.
unfoldable pub generate : List ℕ → ReplId
generate [] = []
generate (b ∷ rand_bytes) = hex_char (b / 16) ∷ hex_char (b % 16) ∷ generate rand_bytes

abbrev pub empty : ReplId
empty = replicate repl_id_len 48

abbrev pub question_mark : ReplId
question_mark = replicate repl_id_len 63

abbrev pub is_empty : ReplId → Bool
is_empty id = bytes_eq id empty

abbrev pub is_question_mark : ReplId → Bool
is_question_mark [] = false
is_question_mark (b ∷ id) = b == 63

abbrev pub is_ascii_hexdigit : ℕ → Bool
is_ascii_hexdigit b = (leb 48 b && leb b 57) || (leb 65 b && leb b 70) || (leb 97 b && leb b 102)

-- The test of `ReplId::from_bytes` for `?`, short or in full.
abbrev pub asks_for_any : List ℕ → Bool
asks_for_any slice =
    bytes_eq slice (63 ∷ []) || (length slice == repl_id_len && all (λ b. b == 63) slice)

unfoldable pub repl_id_from_bytes : List ℕ → Result ReplId Error
repl_id_from_bytes slice =
    if asks_for_any slice
    then ok question_mark
    else if not (length slice == repl_id_len)
    then err invalid_repl_id
    else if all is_ascii_hexdigit slice
    then ok slice
    else err invalid_repl_id

pub record ReplicationHistory : Type 0 where
  pub primary_replid : ReplId
  pub primary_replid2 : ReplId
  pub replication_offset : ℕ
  pub replication_offset2 : ℕ

abbrev pub new : List ℕ → ℕ → ReplicationHistory
new rand_bytes initial_offset = record {
  primary_replid = generate rand_bytes;
  primary_replid2 = empty;
  replication_offset = initial_offset;
  replication_offset2 = 2 ^ 64 - 1;
}

abbrev pub failover_update : List ℕ → ℕ → ReplicationHistory → ReplicationHistory
failover_update rand_bytes tail_offset h = record {
  primary_replid2 = h.primary_replid;
  primary_replid = generate rand_bytes;
  replication_offset = tail_offset;
  replication_offset2 = tail_offset;
}

abbrev pub update_primary_replid : ReplId → ReplicationHistory → ReplicationHistory
update_primary_replid new_id h = record h { primary_replid = new_id }

abbrev pub set_offset : ℕ → ReplicationHistory → ReplicationHistory
set_offset offset h = record h { replication_offset = offset }

-- The buffer, filled from the left.
unfoldable pub to_byte_array : ReplicationHistory → List ℕ
to_byte_array h =
    replication_history_version
    ∷ (h.primary_replid
        ++ (h.primary_replid2
            ++ (to_le_bytes 8 h.replication_offset ++ to_le_bytes 8 h.replication_offset2)))

abbrev pub history_of : List ℕ → ReplId → ReplId → ReplicationHistory
history_of bytes id1 id2 = record {
  primary_replid = id1;
  primary_replid2 = id2;
  replication_offset = from_le_bytes (slice 81 89 bytes);
  replication_offset2 = from_le_bytes (slice 89 97 bytes);
}

-- The two identities, once the version is right.
abbrev pub checked_history : List ℕ → Result ReplicationHistory Error
checked_history bytes = do
  id1 ← repl_id_from_bytes (slice 1 41 bytes)
  id2 ← repl_id_from_bytes (slice 41 81 bytes)
  ok (history_of bytes id1 id2)

abbrev pub with_version : List ℕ → List ℕ → Result ReplicationHistory Error
with_version bytes [] = err (invalid_data_length replication_history_bytes_len 0)
with_version bytes (version ∷ rest) =
    if not (version == replication_history_version)
    then err (invalid_version replication_history_version version)
    else checked_history bytes

unfoldable pub from_bytes : List ℕ → Result ReplicationHistory Error
unfolding repl_id_from_bytes
from_bytes bytes =
    if ltb (length bytes) replication_history_bytes_len
    then err (invalid_data_length replication_history_bytes_len (length bytes))
    else with_version bytes bytes

-- What `ReplId::from_bytes` makes: 40 bytes, all digits or all `?`.
abbrev pub IsReplId : ReplId → Type 0
IsReplId id = (length id ≡ repl_id_len) × ((all is_ascii_hexdigit id ≡ true) ⊎ (id ≡ question_mark))

pub record IsValid (h : ReplicationHistory) : Type 0 where
  pub id : IsReplId h.primary_replid
  pub id2 : IsReplId h.primary_replid2
  pub offset : h.replication_offset < 2 ^ 64
  pub offset2 : h.replication_offset2 < 2 ^ 64
