-- ===== src/Txn/Reached.antt =====
-- The states that a session reaches through the methods of wedb_txn/src/manager.rs, the steps of EXEC
-- that wedb_net/src/session.rs takes one by one included, and what holds in all of them. Left out are
-- `watched_keys_mut` and `key_entries_mut`, which hand out the fields themselves.
use garnet_rust.Common.{ℕ, ◌≡◌, refl, List, [], ◌∷◌, ◌++◌, Bool, true, if◌then◌else◌}
use garnet_rust.Common.Result.{ok}
use garnet_rust.Txn.Entries.{LockType}
use garnet_rust.Txn.Versions.{WatchVersionMap}
use garnet_rust.Txn.Manager
use garnet_rust.Txn.Manager.{
  TransactionManager, CommandTable, multi, unwatch, discard, queue_command_with_key_prefix,
  reset_all, save_key_entry_to_lock,
}
use garnet_rust.Txn.Exec.{
  prepared_running, prepare_inner, prepare_lockset, validate_watches, begin_run, take_queue,
  commit_with_options, promote_to_transaction,
}
use garnet_rust.Txn.Covered.{
  on_ok, unless_false, all_covered, Holds, multi-covered, watch-covered, unwatch-covered,
  discard-covered, save-covered, promote-covered, queue-covered, lockset-covered, validate-covered,
  prepare-covered, handed_over,
}

-- The two ways in which a session gives its commands out to be run: `prepare_inner`, behind `exec` and
-- `exec_prepare`, and `take_queue`.
pub data HandsOver {C : Type 0}
    : TransactionManager C → TransactionManager C → List C → Type 0 where
  by_prepare :
      {t : TransactionManager C} (m : WatchVersionMap) {cs : List C}
      → (prepare_inner m t).1 ≡ ok (prepared_running cs)
      → HandsOver t (prepare_inner m t).0 cs
  by_take : {t : TransactionManager C} → HandsOver t (take_queue t).0 (take_queue t).1

module _ {C : Type 0} (table : CommandTable C) (fast_hash : List ℕ → ℕ) where
  -- The states, and the prefixes of the keys of the queued commands, one for each: a command is queued
  -- with the prefix of the database that the session is in.
  pub data Reached : TransactionManager C → List (List ℕ) → Type 0 where
    at_start : Reached Manager.new []
    did_multi :
        {t : TransactionManager C} {ps : List (List ℕ)}
        → Reached t ps
        → Reached (multi t).0 (on_ok (multi t).1 [] ps)
    did_watch :
        {t : TransactionManager C} {ps : List (List ℕ)} (key : List ℕ) (m : WatchVersionMap)
        → Reached t ps
        → Reached (Manager.watch fast_hash key m t).0 ps
    did_unwatch :
        {t : TransactionManager C} {ps : List (List ℕ)} → Reached t ps → Reached (unwatch t) ps
    did_discard :
        {t : TransactionManager C} {ps : List (List ℕ)}
        → Reached t ps
        → Reached (discard t).0 (on_ok (discard t).1 [] ps)
    did_abort :
        {t : TransactionManager C} {ps : List (List ℕ)}
        → Reached t ps
        → Reached (Manager.abort t) ps
    did_set_is_replaying :
        {t : TransactionManager C} {ps : List (List ℕ)} (is_replaying : Bool)
        → Reached t ps
        → Reached (Manager.set_is_replaying is_replaying t) ps
    did_queue :
        {t : TransactionManager C} {ps : List (List ℕ)} (cmd : C) (prefix : List ℕ)
        → Reached t ps
        → Reached (queue_command_with_key_prefix table fast_hash cmd prefix t).0 (
            on_ok
              (queue_command_with_key_prefix table fast_hash cmd prefix t).1
              (ps ++ prefix ∷ [])
              ps)
    did_save_key :
        {t : TransactionManager C} {ps : List (List ℕ)} (key : List ℕ) (lock : LockType)
        → Reached t ps
        → Reached (save_key_entry_to_lock fast_hash key lock t) ps
    did_promote :
        {t : TransactionManager C} {ps : List (List ℕ)} (key : List ℕ) (lock : LockType)
        → Reached t ps
        → Reached (promote_to_transaction fast_hash key lock t).0 ps
    did_prepare :
        {t : TransactionManager C} {ps : List (List ℕ)} (m : WatchVersionMap)
        → Reached t ps
        → Reached (prepare_inner m t).0 (on_ok (prepare_inner m t).1 [] ps)
    did_prepare_lockset :
        {t : TransactionManager C} {ps : List (List ℕ)}
        → Reached t ps
        → Reached (prepare_lockset t).0 (unless_false (prepare_lockset t).1 ps [])
    did_validate :
        {t : TransactionManager C} {ps : List (List ℕ)} (m : WatchVersionMap)
        → Reached t ps
        → Reached (validate_watches m t).0 (if (validate_watches m t).1 then ps else [])
    did_begin_run :
        {t : TransactionManager C} {ps : List (List ℕ)} → Reached t ps → Reached (begin_run t) ps
    did_take_queue :
        {t : TransactionManager C} {ps : List (List ℕ)} → Reached t ps → Reached (take_queue t).0 []
    did_commit :
        {t : TransactionManager C} {ps : List (List ℕ)} (continue_watch : Bool)
        (m : WatchVersionMap)
        → Reached t ps
        → Reached (commit_with_options continue_watch t m).0 []
    did_reset :
        {t : TransactionManager C} {ps : List (List ℕ)} (continue_watch : Bool)
        → Reached t ps
        → Reached (reset_all continue_watch t) []

  Reached-covered :
      {t : TransactionManager C} {ps : List (List ℕ)} → Reached t ps → Holds table fast_hash t ps
  Reached-covered at_start = refl
  Reached-covered (did_multi {t} {ps} r) = multi-covered table fast_hash t ps (Reached-covered r)
  Reached-covered (did_watch {t} {ps} key m r) =
      watch-covered table fast_hash t ps (Reached-covered r) key m
  Reached-covered (did_unwatch {t} {ps} r) =
      unwatch-covered table fast_hash t ps (Reached-covered r)
  Reached-covered (did_discard {t} {ps} r) =
      discard-covered table fast_hash t ps (Reached-covered r)
  Reached-covered (did_abort r) = Reached-covered r
  Reached-covered (did_set_is_replaying b r) = Reached-covered r
  Reached-covered (did_queue {t} {ps} cmd prefix r) =
      queue-covered table fast_hash t ps (Reached-covered r) cmd prefix
  Reached-covered (did_save_key {t} {ps} key lock r) =
      save-covered table fast_hash t ps (Reached-covered r) key lock
  Reached-covered (did_promote {t} {ps} key lock r) =
      promote-covered table fast_hash t ps (Reached-covered r) key lock
  Reached-covered (did_prepare {t} {ps} m r) =
      prepare-covered table fast_hash t ps (Reached-covered r) m
  Reached-covered (did_prepare_lockset {t} {ps} r) =
      lockset-covered table fast_hash t ps (Reached-covered r)
  Reached-covered (did_validate {t} {ps} m r) =
      validate-covered table fast_hash t ps (Reached-covered r) m
  Reached-covered (did_begin_run r) = Reached-covered r
  Reached-covered (did_take_queue r) = refl
  Reached-covered (did_commit continue_watch m r) = unfold reset_all in refl
  Reached-covered (did_reset continue_watch r) = unfold reset_all in refl

  -- In every state that the methods of a session reach, in one database or several, the steps of
  -- EXEC taken one by one and promotions included, the commands that a successful preparation or
  -- `take_queue` hands over may be run in a transaction, each with its keys, under the prefix of the
  -- database that it was queued in, in the lock set under a lock no weaker than it asks for; if one
  -- writes or changes everything, the transaction is marked so.
  pub HandsOver-covered :
      {t u : TransactionManager C} {ps : List (List ℕ)} {cs : List C}
      → Reached t ps
      → HandsOver t u cs
      → all_covered table fast_hash u ps cs ≡ true
  HandsOver-covered {t} {ps = ps} {cs} r (by_prepare m e) =
      handed_over table fast_hash t ps (Reached-covered r) m cs e
  HandsOver-covered r by_take = Reached-covered r
