-- ===== src/Repl/Reach.antt =====
-- The states that the methods of the manager of wedb_repl/src/manager.rs reach, from its creation on;
-- `load_history` is not among them, since it replaces the history and leaves the backlog as it is.
use garnet_rust.Common.{ℕ, ◌≡◌, List, true, length}
use garnet_rust.Common.Bytes.{all_bytes}
use garnet_rust.Backlog.{ReplicationBacklog, default_backlog_size, contents, feed}
use garnet_rust.Backlog
use garnet_rust.Repl.Role.{NodeRole, RecoveryStatus}
use garnet_rust.Repl.History.{ReplId, ReplicationHistory, IsReplId}
use garnet_rust.Repl.Sync.{SessionMap}
use garnet_rust.Repl.Manager.{
  ReplicationManager, with_history, begin_recovery, end_recovery, reset_recovery,
  rotate_and_promote, demote_to_replica, pin_min_served_offset, unpin_min_served_offset,
  append_stream, set_replication_offset, checkpoint_version_shift_start,
  checkpoint_version_shift_end, try_update_my_primary_repl_id, adopt_primary_identity,
  update_last_primary_sync_time, register_replica, update_replica_ack, evict_timed_out_replicas,
}

pub data Reached {S : Type 0} (map : SessionMap S) : ReplicationManager S → Type 0 where
  started :
      (role : NodeRole) (h : ReplicationHistory)
      → IsReplId h.primary_replid
      → IsReplId h.primary_replid2
      → Reached map (with_history map role h)
  recovery_begun :
      {m : ReplicationManager S} (status : RecoveryStatus)
      → Reached map m
      → Reached map (begin_recovery status m).0
  recovery_ended :
      {m : ReplicationManager S} (status : RecoveryStatus)
      → Reached map m
      → Reached map (end_recovery status m).0
  recovery_reset : {m : ReplicationManager S} → Reached map m → Reached map (reset_recovery m)
  promoted :
      {m : ReplicationManager S} (rand_bytes : List ℕ) (current_tail : ℕ)
      → length rand_bytes ≡ 20
      → all_bytes rand_bytes ≡ true
      → Reached map m
      → Reached map (rotate_and_promote rand_bytes current_tail m)
  demoted : {m : ReplicationManager S} → Reached map m → Reached map (demote_to_replica map m)
  pinned :
      {m : ReplicationManager S} (offset : ℕ)
      → Reached map m
      → Reached map (pin_min_served_offset offset m)
  unpinned : {m : ReplicationManager S} → Reached map m → Reached map (unpin_min_served_offset m)
  appended :
      {m : ReplicationManager S} (bytes : List ℕ)
      → Reached map m
      → Reached map (append_stream bytes m).0
  offset_set :
      {m : ReplicationManager S} (offset : ℕ)
      → Reached map m
      → Reached map (set_replication_offset offset m)
  shift_started :
      {m : ReplicationManager S} → Reached map m → Reached map (checkpoint_version_shift_start m)
  shift_ended :
      {m : ReplicationManager S} → Reached map m → Reached map (checkpoint_version_shift_end m)
  id_updated :
      {m : ReplicationManager S} (new_id : ReplId)
      → IsReplId new_id
      → Reached map m
      → Reached map (try_update_my_primary_repl_id new_id m)
  adopted :
      {m : ReplicationManager S} (replid : ReplId) (offset : ℕ)
      → IsReplId replid
      → Reached map m
      → Reached map (adopt_primary_identity replid offset m)
  synced :
      {m : ReplicationManager S} (now : ℕ)
      → Reached map m
      → Reached map (update_last_primary_sync_time now m)
  registered :
      {m : ReplicationManager S} (now : ℕ) (node_id : List ℕ) (port : ℕ) (ip : List ℕ)
      → Reached map m
      → Reached map (register_replica map now node_id port ip m)
  acked :
      {m : ReplicationManager S} (now : ℕ) (node_id : List ℕ) (offset : ℕ)
      → Reached map m
      → Reached map (update_replica_ack map now node_id offset m)
  evicted :
      {m : ReplicationManager S} (now timeout_ms : ℕ)
      → Reached map m
      → Reached map (evict_timed_out_replicas map now timeout_ms m).0

-- The backlog and the history name the same offset, the identities are well-formed.
pub record Aligned (b : ReplicationBacklog) (h : ReplicationHistory) : Type 0 where
  pub ring : Backlog.IsValid b
  pub whole : b.capacity ≡ default_backlog_size
  pub same_offset : b.master_repl_offset ≡ h.replication_offset
  pub id : IsReplId h.primary_replid
  pub id2 : IsReplId h.primary_replid2

abbrev pub IsAligned : {S : Type 0} → ReplicationManager S → Type 0
IsAligned m = Aligned m.backlog m.history
