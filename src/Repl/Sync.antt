-- ===== src/Repl/Sync.antt =====
-- wedb_repl/src/sync.rs: the decision between a partial and a full resynchronisation, and the sessions
-- of the replicas. The concurrent map of the sessions (`GxPapayaMap` of the crate whasher) is an
-- argument, `SessionMap`; a session that is updated through its `Arc` is put in the map again. The time
-- in milliseconds is an argument.
use garnet_rust.Common.{
  ℕ, ◌-◌, List, [], ◌∷◌, Option, none, some, Bool, false, ltb, leb, ◌&&◌, ◌||◌, not, if◌then◌else◌,
  min, max, map, bytes_eq, keep, length,
}
use garnet_rust.Common.Int.{ℤ, pos, negsuc}
use garnet_rust.Repl.History.{ReplId, is_empty, is_question_mark, ReplicationHistory}

pub data SyncDecision : Type 0 where
  partial_resync : ReplId → ℕ → SyncDecision
  full_resync : ReplId → ℕ → SyncDecision

pub record ReplicaSessionInfo : Type 0 where
  pub node_id : List ℕ
  pub listening_port : ℕ
  pub ip_address : List ℕ
  pub ack_offset : ℕ
  pub last_ack_timestamp_ms : ℕ
  pub is_diskless_syncing : Bool

abbrev pub new_session : ℕ → List ℕ → ℕ → List ℕ → ReplicaSessionInfo
new_session now node_id listening_port ip_address = record {
  node_id = node_id;
  listening_port = listening_port;
  ip_address = ip_address;
  ack_offset = 0;
  last_ack_timestamp_ms = now;
  is_diskless_syncing = false;
}

-- `fetch_max`
abbrev pub update_ack : ℕ → ℕ → ReplicaSessionInfo → ReplicaSessionInfo
update_ack now offset r = record r {
  ack_offset = max r.ack_offset offset;
  last_ack_timestamp_ms = now;
}

abbrev pub lag : ReplicaSessionInfo → ℕ → ℕ
lag r current_tail = current_tail - r.ack_offset

abbrev pub is_timed_out : ℕ → ReplicaSessionInfo → ℕ → Bool
is_timed_out now r timeout_ms = ltb timeout_ms (now - r.last_ack_timestamp_ms)

-- The decision at an offset that is not negative.
abbrev pub decide_at : ReplicationHistory → ℕ → ℕ → ReplId → ℕ → SyncDecision
decide_at history wal_begin wal_tail req_replid offset =
    let match_curr = bytes_eq req_replid history.primary_replid in
    let match_prev =
      not (is_empty history.primary_replid2)
      && bytes_eq req_replid history.primary_replid2
      && leb offset history.replication_offset2 in
    if ltb offset wal_begin || ltb wal_tail offset
    then full_resync history.primary_replid wal_tail
    else if match_curr || match_prev
    then partial_resync history.primary_replid offset
    else full_resync history.primary_replid wal_tail

unfoldable pub decide_sync : ReplicationHistory → ℕ → ℕ → ReplId → ℤ → SyncDecision
decide_sync history wal_begin wal_tail req_replid (negsuc n) =
    full_resync history.primary_replid wal_tail
decide_sync history wal_begin wal_tail req_replid (pos offset) =
    if is_question_mark req_replid
    then full_resync history.primary_replid wal_tail
    else decide_at history wal_begin wal_tail req_replid offset

-- The map from identities of nodes to sessions.
pub record SessionMap (S : Type 0) : Type 0 where
  pub empty_map : S
  pub insert : List ℕ → ReplicaSessionInfo → S → S
  pub remove : List ℕ → S → S
  pub get : S → List ℕ → Option ReplicaSessionInfo
  pub entries : S → List (List ℕ × ReplicaSessionInfo)
  pub retain : (List ℕ → ReplicaSessionInfo → Bool) → S → S

module _ {S : Type 0} (m : SessionMap S) where
  abbrev pub register_replica : ℕ → List ℕ → ℕ → List ℕ → S → S
  register_replica now node_id port ip s = m.insert node_id (new_session now node_id port ip) s

  abbrev pub remove_replica : List ℕ → S → S
  remove_replica node_id s = m.remove node_id s

  abbrev pub get_replica : S → List ℕ → Option ReplicaSessionInfo
  get_replica s node_id = m.get s node_id

  abbrev pub all_replicas : S → List ReplicaSessionInfo
  all_replicas s = map (λ e. e.1) (m.entries s)

  abbrev pub add_session : ReplicaSessionInfo → S → S
  add_session r s = m.insert r.node_id r s

  abbrev pub num_sessions : S → ℕ
  num_sessions s = length (m.entries s)

  abbrev pub find_timed_out_replicas : ℕ → ℕ → S → List (List ℕ)
  find_timed_out_replicas now timeout_ms s =
      map (λ e. e.0) (keep (λ e. is_timed_out now e.1 timeout_ms) (m.entries s))

  abbrev pub evict_timed_out_replicas : ℕ → ℕ → S → S × List (List ℕ)
  evict_timed_out_replicas now timeout_ms s = (
    m.retain (λ id r. not (is_timed_out now r timeout_ms)) s,
    find_timed_out_replicas now timeout_ms s,
  )

  abbrev pub clear_sessions : S → S
  clear_sessions s = m.empty_map

-- `min` of an iterator, `none` where it is empty.
abbrev pub min_of : List ℕ → Option ℕ
min_of [] = none
min_of (x ∷ xs) = elim (min_of xs) [ none ↦ some x | some y ↦ some (min x y) ]

abbrev pub unwrap_or : ℕ → Option ℕ → ℕ
unwrap_or d none = d
unwrap_or d (some n) = n

unfoldable pub min_ack_offset : {S : Type 0} → SessionMap S → ℕ → S → ℕ
min_ack_offset m default_val s =
    unwrap_or default_val (min_of (map (λ r. r.ack_offset) (all_replicas m s)))
