-- ===== src/Repl/Manager.antt =====
-- wedb_repl/src/manager.rs: the manager of replication, over the role, the history, the backlog and the
-- sessions of the replicas. A method holds the locks of what it changes, so it is one step. What a file
-- holds, the time and random bytes are arguments.
use garnet_rust.Common.{
  ℕ, ◌-◌, ◌^◌, List, Option, none, some, Bool, ◌==◌, ◌&&◌, not, if◌then◌else◌, min,
}
use garnet_rust.Common.Int.{ℤ}
use garnet_rust.Common.Result.{Result, ok, err, ◌>>=◌}
use garnet_rust.Backlog.{
  ReplicationBacklog, default_backlog_size, feed, set_master_offset, clear, read_bytes,
  is_offset_in_range, first_byte_offset,
}
use garnet_rust.Backlog
use garnet_rust.Repl.Role.{
  NodeRole, primary, replica, is_primary, RecoveryStatus, no_recovery, read_role, code,
  is_recovering,
}
use garnet_rust.Repl.Role
use garnet_rust.Repl.History.{
  Error, not_primary, invalid_state_transition, ReplId, ReplicationHistory, failover_update,
  update_primary_replid, set_offset, repl_id_from_bytes,
}
use garnet_rust.Repl.History
use garnet_rust.Repl.Sync.{SyncDecision, decide_sync, SessionMap, update_ack, lag, min_ack_offset}
use garnet_rust.Repl.Sync

pub record ReplicationManager (S : Type 0) : Type 0 where
  pub role : NodeRole
  pub history : ReplicationHistory
  pub recovery_status : RecoveryStatus
  pub sessions : S
  pub backlog : ReplicationBacklog
  pub min_served_offset : ℕ
  pub last_primary_sync_time_secs : ℕ

module _ {S : Type 0} where
  abbrev pub can_stream_aof : ReplicationManager S → Bool
  can_stream_aof m = Role.can_stream_aof m.recovery_status

  -- `==` of the statuses compares their codes.
  abbrev pub begin_recovery :
      RecoveryStatus → ReplicationManager S → ReplicationManager S × Result (Unit {0}) Error
  begin_recovery status m =
      if is_recovering m.recovery_status && not (code m.recovery_status == code status)
      then (m, err (invalid_state_transition m.recovery_status status))
      else (record m { recovery_status = status }, ok tt)

  abbrev pub end_recovery :
      RecoveryStatus → ReplicationManager S → ReplicationManager S × Result (Unit {0}) Error
  end_recovery status m =
      if not (code m.recovery_status == code status)
      then (m, err (invalid_state_transition m.recovery_status no_recovery))
      else (record m { recovery_status = no_recovery }, ok tt)

  abbrev pub reset_recovery : ReplicationManager S → ReplicationManager S
  reset_recovery m = record m { recovery_status = no_recovery }

  abbrev pub rotate_and_promote : List ℕ → ℕ → ReplicationManager S → ReplicationManager S
  rotate_and_promote rand_bytes current_tail m = record m {
    history = failover_update rand_bytes current_tail m.history;
    backlog = set_master_offset current_tail m.backlog;
    recovery_status = no_recovery;
    role = primary;
  }

  -- The manager after, and the new identity.
  abbrev pub failover_to_primary : List ℕ → ℕ → ReplicationManager S → ReplicationManager S × ReplId
  failover_to_primary rand_bytes current_tail m =
      let m' = rotate_and_promote rand_bytes current_tail m in (m', m'.history.primary_replid)

  abbrev pub replica_of_no_one : List ℕ → ℕ → ReplicationManager S → ReplicationManager S × ReplId
  replica_of_no_one rand_bytes current_tail m = failover_to_primary rand_bytes current_tail m

  abbrev pub evaluate_psync : ℕ → ℕ → ReplId → ℤ → ReplicationManager S → Result SyncDecision Error
  evaluate_psync wal_begin wal_tail req_replid req_offset m =
      if not (is_primary m.role)
      then err (not_primary m.role)
      else ok (decide_sync m.history wal_begin wal_tail req_replid req_offset)

  abbrev pub handle_psync : List ℕ → ℤ → ℕ → ℕ → ReplicationManager S → Result SyncDecision Error
  handle_psync req_replid req_offset wal_begin wal_tail m = do
    replid ← repl_id_from_bytes req_replid
    evaluate_psync wal_begin wal_tail replid req_offset m

  -- `fetch_min`
  abbrev pub pin_min_served_offset : ℕ → ReplicationManager S → ReplicationManager S
  pin_min_served_offset offset m = record m { min_served_offset = min m.min_served_offset offset }

  abbrev pub unpin_min_served_offset : ReplicationManager S → ReplicationManager S
  unpin_min_served_offset m = record m { min_served_offset = 2 ^ 64 - 1 }

  abbrev pub set_safe_aof_address : ℕ → ReplicationManager S → ReplicationManager S
  set_safe_aof_address addr m = pin_min_served_offset addr m

  -- The history that a file holds; `load_from_file` fails before anything is changed.
  abbrev pub load_history : ReplicationHistory → ReplicationManager S → ReplicationManager S
  load_history h m = record m { history = h }

  -- The manager after, and the new tail.
  abbrev pub append_stream : List ℕ → ReplicationManager S → ReplicationManager S × ℕ
  append_stream bytes m =
      let backlog = feed bytes m.backlog in
      let new_tail = backlog.master_repl_offset in
      (record m { backlog = backlog; history = set_offset new_tail m.history }, new_tail)

  abbrev pub read_backlog : ReplicationManager S → ℕ → ℕ → List ℕ
  read_backlog m offset max_bytes = read_bytes m.backlog offset max_bytes

  abbrev pub is_backlog_in_range : ReplicationManager S → ℕ → Bool
  is_backlog_in_range m offset = is_offset_in_range m.backlog offset

  abbrev pub backlog_offsets : ReplicationManager S → ℕ × ℕ
  backlog_offsets m = (first_byte_offset m.backlog, m.backlog.master_repl_offset)

  abbrev pub set_replication_offset : ℕ → ReplicationManager S → ReplicationManager S
  set_replication_offset offset m = record m {
    backlog = set_master_offset offset m.backlog;
    history = set_offset offset m.history;
  }

  abbrev pub checkpoint_version_shift_start : ReplicationManager S → ReplicationManager S
  checkpoint_version_shift_start m =
      if not (is_primary m.role) then m else record m { recovery_status = read_role }

  abbrev pub checkpoint_version_shift_end : ReplicationManager S → ReplicationManager S
  checkpoint_version_shift_end m =
      if not (is_primary m.role) then m else record m { recovery_status = no_recovery }

  abbrev pub try_update_my_primary_repl_id : ReplId → ReplicationManager S → ReplicationManager S
  try_update_my_primary_repl_id new_id m = record m {
    history = update_primary_replid new_id m.history;
  }

  abbrev pub adopt_primary_identity : ReplId → ℕ → ReplicationManager S → ReplicationManager S
  adopt_primary_identity replid offset m = record m {
    history = set_offset offset (update_primary_replid replid m.history);
    backlog = clear (set_master_offset offset m.backlog);
  }

  abbrev pub update_last_primary_sync_time : ℕ → ReplicationManager S → ReplicationManager S
  update_last_primary_sync_time now m = record m { last_primary_sync_time_secs = now }

  abbrev pub get_last_primary_sync_seconds : ℕ → ReplicationManager S → ℕ
  get_last_primary_sync_seconds now m =
      if m.last_primary_sync_time_secs == 0 then 0 else now - m.last_primary_sync_time_secs

-- The methods on the sessions.
module _ {S : Type 0} (map : SessionMap S) where
  abbrev pub with_history : NodeRole → ReplicationHistory → ReplicationManager S
  with_history initial_role history = record {
    role = initial_role;
    history = history;
    recovery_status = no_recovery;
    sessions = map.empty_map;
    backlog = set_master_offset history.replication_offset (Backlog.new default_backlog_size);
    min_served_offset = 2 ^ 64 - 1;
    last_primary_sync_time_secs = 0;
  }

  abbrev pub new : List ℕ → NodeRole → ℕ → ReplicationManager S
  new rand_bytes initial_role initial_offset =
      with_history initial_role (History.new rand_bytes initial_offset)

  abbrev pub demote_to_replica : ReplicationManager S → ReplicationManager S
  demote_to_replica m = record m {
    sessions = Sync.clear_sessions map m.sessions;
    recovery_status = no_recovery;
    role = replica;
  }

  abbrev pub register_replica :
      ℕ → List ℕ → ℕ → List ℕ → ReplicationManager S → ReplicationManager S
  register_replica now node_id port ip m = record m {
    sessions = Sync.register_replica map now node_id port ip m.sessions;
  }

  abbrev pub update_replica_ack : ℕ → List ℕ → ℕ → ReplicationManager S → ReplicationManager S
  update_replica_ack now node_id ack_offset m = elim (map.get m.sessions node_id) [
    | none ↦ m
    | some r ↦ record m { sessions = map.insert node_id (update_ack now ack_offset r) m.sessions }
  ]

  abbrev pub get_replica_lag : ReplicationManager S → List ℕ → ℕ → Option ℕ
  get_replica_lag m node_id current_tail = elim (map.get m.sessions node_id) [
    | none ↦ none
    | some r ↦ some (lag r current_tail)
  ]

  abbrev pub get_current_safe_aof_address : ReplicationManager S → ℕ
  get_current_safe_aof_address m =
      min m.min_served_offset (min_ack_offset map (2 ^ 64 - 1) m.sessions)

  abbrev pub evict_timed_out_replicas :
      ℕ → ℕ → ReplicationManager S → ReplicationManager S × List (List ℕ)
  evict_timed_out_replicas now timeout_ms m =
      let (s, ids) = Sync.evict_timed_out_replicas map now timeout_ms m.sessions in
      (record m { sessions = s }, ids)
