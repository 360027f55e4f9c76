-- ===== src/Txn/Manager.antt =====
-- wedb_txn/src/manager.rs, state.rs and error.rs: the transaction of one session. A method that
-- changes `self` or the table returns the new ones. The table of commands (wedb_txn/src/queued_cmd.rs)
-- is an interface: which commands may be queued, which change everything, which write, and the keys of
-- each with their locks. `fast_hash` is the hash function of the crate whasher.
use garnet_rust.Common.{ℕ, List, [], ◌∷◌, ◌++◌, Bool, true, false, not, if◌then◌else◌}
use garnet_rust.Common.Result.{Result, ok, err}
use garnet_rust.Txn.Entries.{LockType, is_exclusive, TxnKeyEntries, add_key_hash, add_key_slice}
use garnet_rust.Txn.Versions.{WatchVersionMap}
use garnet_rust.Txn.Watched
use garnet_rust.Txn.Watched.{WatchedKeysContainer, validate_versions, save_keys_to_lock}

-- `None`, `Started`, `Running` and `Aborted`.
pub data TxnState : Type 0 where
  no_txn started running aborted : TxnState

abbrev pub is_none : TxnState → Bool
is_none no_txn = true
is_none started = false
is_none running = false
is_none aborted = false

abbrev pub is_running : TxnState → Bool
is_running no_txn = false
is_running started = false
is_running running = true
is_running aborted = false

abbrev pub is_skipping_operations : TxnState → Bool
is_skipping_operations no_txn = false
is_skipping_operations started = true
is_skipping_operations running = false
is_skipping_operations aborted = true

-- The text of a codec's error is left out.
pub data Error : Type 0 where
  nested_multi exec_without_multi queue_without_multi discard_without_multi : Error
  watch_inside_multi transaction_aborted watch_conflict : Error
  command_not_allowed_in_txn : List ℕ → Error
  lock_timeout bitcode : Error

pub record CommandTable (C : Type 0) : Type 0 where
  pub as_str : C → List ℕ
  pub is_allowed_in_txn : C → Bool
  pub is_global_mutation : C → Bool
  pub is_write : C → Bool
  pub for_each_key : C → List (List ℕ × LockType)

-- The lock entries of a command's keys, each with the prefix of the session's database.
unfoldable pub add_keys :
    (List ℕ → ℕ) → List ℕ → List (List ℕ × LockType) → TxnKeyEntries → TxnKeyEntries
add_keys fast_hash prefix [] entries = entries
add_keys fast_hash prefix ((k, lock) ∷ ks) entries =
    add_keys fast_hash prefix ks (add_key_hash (fast_hash (prefix ++ k)) lock entries)

pub record TransactionManager (C : Type 0) : Type 0 where
  pub state : TxnState
  pub queue : List C
  pub watched_keys : WatchedKeysContainer
  pub key_entries : TxnKeyEntries
  pub perform_writes : Bool
  pub invalidate_all : Bool
  pub is_replaying : Bool

module _ {C : Type 0} where
  abbrev pub new : TransactionManager C
  new = record {
    state = no_txn;
    queue = [];
    watched_keys = Watched.empty;
    key_entries = [];
    perform_writes = false;
    invalidate_all = false;
    is_replaying = false;
  }

  abbrev pub set_is_replaying : Bool → TransactionManager C → TransactionManager C
  set_is_replaying is_replaying t = record t { is_replaying = is_replaying }

  -- MULTI
  unfoldable pub multi : TransactionManager C → TransactionManager C × Result (Unit {0}) Error
  multi t =
      if is_none t.state
      then (
        record t {
          state = started;
          queue = [];
          key_entries = [];
          perform_writes = false;
          invalidate_all = false;
        },
        ok tt,
      )
      else (record t { state = aborted }, err nested_multi)

  -- WATCH
  unfoldable pub watch :
      (List ℕ → ℕ)
      → List ℕ
      → WatchVersionMap
      → TransactionManager C
      → TransactionManager C × Result (Unit {0}) Error
  watch fast_hash key version_map t =
      if not (is_none t.state) then (t, err watch_inside_multi) else (
        record t { watched_keys = Watched.watch fast_hash key version_map t.watched_keys },
        ok tt,
      )

  -- UNWATCH
  unfoldable pub unwatch : TransactionManager C → TransactionManager C
  unwatch t =
      if is_none t.state then record t { watched_keys = Watched.reset t.watched_keys } else t

  abbrev pub abort : TransactionManager C → TransactionManager C
  abort t = record t { state = aborted }

  -- Resets keep the lock set, resets of everything do not.
  unfoldable pub reset_session : Bool → TransactionManager C → TransactionManager C
  reset_session continue_watch t = record t {
    state = no_txn;
    queue = [];
    watched_keys = if continue_watch then t.watched_keys else Watched.reset t.watched_keys;
    perform_writes = false;
    invalidate_all = false;
  }

  unfoldable pub reset_all : Bool → TransactionManager C → TransactionManager C
  unfolding reset_session
  reset_all continue_watch t = record (reset_session continue_watch t) { key_entries = [] }

  abbrev pub reset : TransactionManager C → TransactionManager C
  reset t = reset_all false t

  -- DISCARD
  unfoldable pub discard : TransactionManager C → TransactionManager C × Result (Unit {0}) Error
  discard t = if is_none t.state then (t, err discard_without_multi) else (reset t, ok tt)

  -- A command enters the queue with the lock entries of its keys.
  unfoldable pub queue_command_with_key_prefix :
      CommandTable C
      → (List ℕ → ℕ)
      → C
      → List ℕ
      → TransactionManager C
      → TransactionManager C × Result (Unit {0}) Error
  unfolding add_keys
  queue_command_with_key_prefix table fast_hash cmd key_prefix t =
      if not (is_skipping_operations t.state)
      then (t, err queue_without_multi)
      else if not (table.is_allowed_in_txn cmd)
      then (abort t, err (command_not_allowed_in_txn (table.as_str cmd)))
      else (
        record t {
          queue = t.queue ++ cmd ∷ [];
          key_entries = add_keys fast_hash key_prefix (table.for_each_key cmd) t.key_entries;
          perform_writes = if table.is_write cmd then true else t.perform_writes;
          invalidate_all = if table.is_global_mutation cmd then true else t.invalidate_all;
        },
        ok tt,
      )

  abbrev pub queue_command :
      CommandTable C
      → (List ℕ → ℕ)
      → C
      → TransactionManager C
      → TransactionManager C × Result (Unit {0}) Error
  queue_command table fast_hash cmd t = queue_command_with_key_prefix table fast_hash cmd [] t

  unfoldable pub save_key_entry_to_lock :
      (List ℕ → ℕ) → List ℕ → LockType → TransactionManager C → TransactionManager C
  save_key_entry_to_lock fast_hash key lock_type t = record t {
    perform_writes = if is_exclusive lock_type then true else t.perform_writes;
    key_entries = add_key_slice fast_hash key lock_type t.key_entries;
  }
