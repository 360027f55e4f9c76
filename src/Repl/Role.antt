-- ===== src/Repl/Role.antt =====
-- wedb_repl/src/role.rs: the role of a node and the state machine of recovery.
use garnet_rust.Common.{ℕ, Bool, true, false, not}

pub data NodeRole : Type 0 where
  primary : NodeRole
  replica : NodeRole

abbrev pub is_primary : NodeRole → Bool
is_primary primary = true
is_primary replica = false

abbrev pub is_replica : NodeRole → Bool
is_replica primary = false
is_replica replica = true

pub data RecoveryStatus : Type 0 where
  no_recovery : RecoveryStatus
  initialize_recover : RecoveryStatus
  cluster_replicate : RecoveryStatus
  cluster_failover : RecoveryStatus
  replica_of_no_one : RecoveryStatus
  checkpoint_recovered_at_replica : RecoveryStatus
  read_role : RecoveryStatus

-- The number of the variant, by which `==` on the type compares.
abbrev pub code : RecoveryStatus → ℕ
code no_recovery = 0
code initialize_recover = 1
code cluster_replicate = 2
code cluster_failover = 3
code replica_of_no_one = 4
code checkpoint_recovered_at_replica = 5
code read_role = 6

abbrev pub is_recovering : RecoveryStatus → Bool
is_recovering no_recovery = false
is_recovering read_role = false
is_recovering initialize_recover = true
is_recovering cluster_replicate = true
is_recovering cluster_failover = true
is_recovering replica_of_no_one = true
is_recovering checkpoint_recovered_at_replica = true

abbrev pub cannot_stream_aof : RecoveryStatus → Bool
cannot_stream_aof initialize_recover = true
cannot_stream_aof cluster_replicate = true
cannot_stream_aof cluster_failover = true
cannot_stream_aof replica_of_no_one = true
cannot_stream_aof no_recovery = false
cannot_stream_aof checkpoint_recovered_at_replica = false
cannot_stream_aof read_role = false

abbrev pub can_stream_aof : RecoveryStatus → Bool
can_stream_aof s = not (cannot_stream_aof s)
