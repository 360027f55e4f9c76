-- ===== src/Txn/Exec.antt =====
-- wedb_txn/src/manager.rs: EXEC in its steps, the preparation of the lock set, the validation of the
-- watched keys, the run of the queue and the commit.
use garnet_rust.Common.{ℕ, List, [], ◌∷◌, Bool, true, false, if◌then◌else◌}
use garnet_rust.Common.Result.{Result, ok, err}
use garnet_rust.Txn.Entries.{is_exclusive, TxnKeyEntries, sort_by_key_hash, LockType}
use garnet_rust.Txn.Versions.{WatchVersionMap, bump_version, bump_all}
use garnet_rust.Txn.Watched.{validate_versions, save_keys_to_lock}
use garnet_rust.Txn.Manager.{
  save_key_entry_to_lock, is_running, TxnState, no_txn, started, running, aborted, Error,
  exec_without_multi, TransactionManager, reset_session, reset_all, reset,
}

pub data Prepared (C : Type 0) : Type 0 where
  prepared_aborted prepared_conflict : Prepared C
  prepared_running : List C → Prepared C

pub data ExecPreparation (C : Type 0) : Type 0 where
  preparation_success : List C → TxnKeyEntries → ExecPreparation C
  preparation_conflict preparation_aborted : ExecPreparation C

pub data ExecResult (T : Type 0) : Type 0 where
  success : T → ExecResult T
  conflict exec_aborted : ExecResult T

-- A version goes up for every entry with an exclusive lock.
unfoldable pub bump_exclusive : TxnKeyEntries → WatchVersionMap → WatchVersionMap
bump_exclusive [] m = m
bump_exclusive (e ∷ es) m =
    bump_exclusive es (if is_exclusive e.lock_type then (bump_version e.key_hash m).0 else m)

abbrev pub begin_state : TxnState → TxnState
begin_state no_txn = no_txn
begin_state started = running
begin_state running = running
begin_state aborted = aborted

module _ {C : Type 0} where
  abbrev pub locked : TransactionManager C → TransactionManager C
  locked t = record t {
    key_entries = sort_by_key_hash (save_keys_to_lock t.watched_keys.entries t.key_entries);
  }

  unfoldable pub prepare_lockset : TransactionManager C → TransactionManager C × Result Bool Error
  prepare_lockset t = elim t.state [
    | aborted ↦ (reset t, ok false)
    | started ↦ (locked t, ok true)
    | no_txn ↦ (t, err exec_without_multi)
    | running ↦ (t, err exec_without_multi)
  ]

  unfoldable pub validate_watches :
      WatchVersionMap → TransactionManager C → TransactionManager C × Bool
  validate_watches version_map t =
      if validate_versions version_map t.watched_keys
      then (t, true)
      else (reset_session false t, false)

  abbrev pub begin_run : TransactionManager C → TransactionManager C
  begin_run t = record t { state = begin_state t.state }

  abbrev pub take_queue : TransactionManager C → TransactionManager C × List C
  take_queue t = (record t { queue = [] }, t.queue)

  abbrev pub taken : TransactionManager C × List C → TransactionManager C × Prepared C
  taken (t, commands) = (t, prepared_running commands)

  -- A conflict gives the lock set up; otherwise the queue is handed over.
  abbrev pub prepare_valid : TransactionManager C × Bool → TransactionManager C × Prepared C
  prepare_valid (t, false) = (record t { key_entries = [] }, prepared_conflict)
  prepare_valid (t, true) = taken (take_queue (begin_run t))

  abbrev pub prepare_locked :
      WatchVersionMap
      → TransactionManager C × Result Bool Error
      → TransactionManager C × Result (Prepared C) Error
  prepare_locked m (t, err e) = (t, err e)
  prepare_locked m (t, ok false) = (t, ok prepared_aborted)
  prepare_locked m (t, ok true) = let (t', p) = prepare_valid (validate_watches m t) in (t', ok p)

  unfoldable pub prepare_inner :
      WatchVersionMap → TransactionManager C → TransactionManager C × Result (Prepared C) Error
  unfolding prepare_lockset validate_watches
  prepare_inner version_map t = prepare_locked version_map (prepare_lockset t)

  -- The table's part of a commit.
  unfoldable pub broadcast : TransactionManager C → WatchVersionMap → WatchVersionMap
  unfolding bump_exclusive
  broadcast t m =
      if t.invalidate_all
      then bump_all m
      else if t.perform_writes
      then bump_exclusive t.key_entries m
      else m

  abbrev pub commit_with_options :
      Bool → TransactionManager C → WatchVersionMap → TransactionManager C × WatchVersionMap
  commit_with_options continue_watch t m = (reset_all continue_watch t, broadcast t m)

  abbrev pub commit :
      TransactionManager C → WatchVersionMap → TransactionManager C × WatchVersionMap
  commit = commit_with_options false

module _ {C S R : Type 0} (executor : C → S → R × S) where
  -- The commands in order; the state is what the executor works on.
  unfoldable pub execute_all : List C → S → List R × S
  execute_all [] s = ([], s)
  execute_all (c ∷ cs) s =
      let (r, s') = executor c s in let (rs, s'') = execute_all cs s' in (r ∷ rs, s'')

  -- The session, the table, the executor's state and the reply after EXEC.
  abbrev pub Executed : Type 0
  Executed = TransactionManager C × WatchVersionMap × S × Result (ExecResult (List R)) Error

  abbrev pub exec_prepared :
      WatchVersionMap → S → TransactionManager C × Result (Prepared C) Error → Executed
  exec_prepared m s (t, err e) = (t, m, s, err e)
  exec_prepared m s (t, ok prepared_aborted) = (t, m, s, ok exec_aborted)
  exec_prepared m s (t, ok prepared_conflict) = (t, m, s, ok conflict)
  exec_prepared m s (t, ok (prepared_running commands)) =
      let (results, s') = execute_all commands s in
      let (t', m') = commit t m in (t', m', s', ok (success results))

  -- EXEC
  unfoldable pub exec : WatchVersionMap → S → TransactionManager C → Executed
  unfolding execute_all broadcast reset_all
  exec version_map s t = exec_prepared version_map s (prepare_inner version_map t)

module _ {C : Type 0} where
  -- A single operation becomes a transaction, unless one runs already; whether the guard is attached.
  unfoldable pub promote_to_transaction :
      (List ℕ → ℕ) → List ℕ → LockType → TransactionManager C → TransactionManager C × Bool
  unfolding save_key_entry_to_lock
  promote_to_transaction fast_hash key lock_type t =
      if is_running t.state
      then (t, false)
      else (record (save_key_entry_to_lock fast_hash key lock_type t) { state = running }, true)

  -- `TransactionGuard::commit`, which its drop calls: an attached guard commits and keeps the watches.
  abbrev pub guard_commit :
      TransactionManager C × Bool → WatchVersionMap → TransactionManager C × WatchVersionMap
  guard_commit (t, false) m = (t, m)
  guard_commit (t, true) m = commit_with_options true t m

  -- The preparation on its own: the commands and the lock set, or why there are none.
  abbrev pub preparation :
      TransactionManager C × Result (Prepared C) Error
      → TransactionManager C × Result (ExecPreparation C) Error
  preparation (t, err e) = (t, err e)
  preparation (t, ok prepared_aborted) = (t, ok preparation_aborted)
  preparation (t, ok prepared_conflict) = (t, ok preparation_conflict)
  preparation (t, ok (prepared_running commands)) =
      (t, ok (preparation_success commands t.key_entries))

  unfoldable pub exec_prepare :
      WatchVersionMap
      → TransactionManager C
      → TransactionManager C × Result (ExecPreparation C) Error
  unfolding prepare_inner
  exec_prepare version_map t = preparation (prepare_inner version_map t)
