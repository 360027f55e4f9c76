-- ===== src/Txn/Isolation.antt =====
-- Two sessions of wedb_txn/src/manager.rs on one table: a commit refuses the other's transaction.
use garnet_rust.Common.{
  [], ◌∷◌, none, refl, length-append, ℕ, ◌+◌, ◌≤◌, ◌<◌, ◌≡◌, ap, sym, ◌∙◌, ◌⊎◌, inl, inr, List,
  true, false, if◌then◌else◌, arith, length,
}
use garnet_rust.Txn.Entries.{exclusive, add_key_slice}
use garnet_rust.Txn.EntryLaws.{lock_of, lock_of-sort_by_key_hash}
use garnet_rust.Txn.Versions.{u64, WatchVersionMap, IsValid}
use garnet_rust.Txn.Watched
use garnet_rust.Txn.Watched.{WatchedKeysContainer, validate_versions, save_keys_to_lock}
use garnet_rust.Txn.Manager.{no_txn, running, is_running, reset_all, TransactionManager, started}
use garnet_rust.Txn.Exec.{guard_commit, promote_to_transaction, locked, broadcast, exec}
use garnet_rust.Txn.ManagerLaws.{
  committed, refused, exec-validated, broadcast-run, validate_versions-broadcast,
}
use garnet_rust.Txn.QueueLaws.{add_key-holds, save_keys_to_lock-Grows}

module _ {C S R : Type 0} (executor : C → S → R × S) where
  table_after :
      (m : WatchVersionMap) (s : S) (a : TransactionManager C)
      → a.state ≡ started
      → validate_versions m a.watched_keys ≡ true
      → (exec executor m s a).1 ≡ broadcast (locked a) m
  table_after m s a e y =
      ap (λ x. x.1) (exec-validated executor m s a e)
      ∙ (ap (λ b. (if b then committed executor m s a else refused executor m s a).1) y
          ∙ sym (broadcast-run (locked a) m))

  -- Two sessions are in a started transaction; one watches a key as it is at a state of a valid
  -- table, and the other, whose watched keys are current there, writes and holds an exclusive lock
  -- on the hash of that key, or changes everything. Once the EXEC of the other is done, the EXEC of
  -- the first runs no command, leaves the table and replies with a conflict, where the lock set has
  -- fewer than 2 ^ 64 - 1 entries.
  pub exec-exec :
      (fast_hash : List ℕ → ℕ) (key : List ℕ) (w : WatchedKeysContainer)
      (a b : TransactionManager C) (s s' : S) {m : WatchVersionMap}
      → IsValid m
      → a.state ≡ started
      → validate_versions m a.watched_keys ≡ true
      → length (locked a).key_entries + 1 < u64
      → (a.invalidate_all ≡ true)
        ⊎ ((a.perform_writes ≡ true) × (2 ≤ lock_of (fast_hash key) a.key_entries))
      → b.state ≡ started
      → b.watched_keys ≡ Watched.watch fast_hash key m w
      → let m' = (exec executor m s a).1 in exec executor m' s' b ≡ refused executor m' s' b
  exec-exec fast_hash key w a b s s' {m} v ea ya le writes eb wb =
      let saved = save_keys_to_lock a.watched_keys.entries a.key_entries in
      let h = fast_hash key in
      let held : (a.invalidate_all ≡ true)
          ⊎ ((a.perform_writes ≡ true) × (2 ≤ lock_of h (locked a).key_entries)) =
        elim writes [
          | inl i ↦ inl i
          | inr (p, l) ↦ inr (
            p,
            omega (
              arith,
              l,
              lock_of-sort_by_key_hash h saved,
              save_keys_to_lock-Grows a.watched_keys.entries a.key_entries h,
            ),
          )
        ] in
      let t = table_after m s a ea ya in
      let stale : validate_versions (exec executor m s a).1 b.watched_keys ≡ false =
        rw (t, wb) (validate_versions-broadcast fast_hash key w (locked a) v le held) in
      let m' = (exec executor m s a).1 in
      exec-validated executor m' s' b eb
      ∙ ap (λ x. if x then committed executor m' s' b else refused executor m' s' b) stale

-- Outside a running transaction and on a valid table, the promotion of a single operation on a key
-- under an exclusive lock, once its guard commits, makes every watch put on that key before it fail
-- and leaves the session with no transaction, its own watched keys and an empty lock set, where the
-- lock set has fewer than 2 ^ 64 - 2 entries.
pub promote_to_transaction_lem :
    {C : Type 0} (fast_hash : List ℕ → ℕ) (key : List ℕ) (w : WatchedKeysContainer)
    (t : TransactionManager C) {m : WatchVersionMap}
    → IsValid m
    → length t.key_entries + 2 < u64
    → is_running t.state ≡ false
    → let (t', m') = guard_commit (promote_to_transaction fast_hash key exclusive t) m in
      (validate_versions m' (Watched.watch fast_hash key m w) ≡ false)
      × (t'.state ≡ no_txn)
      × (t'.watched_keys ≡ t.watched_keys)
      × (t'.key_entries ≡ [])
unfolding promote_to_transaction reset_all
promote_to_transaction_lem fast_hash key w t {m} v le idle =
    let u : TransactionManager _ = record t {
      state = running;
      perform_writes = true;
      key_entries = add_key_slice fast_hash key exclusive t.key_entries;
    } in
    rw idle (
      validate_versions-broadcast fast_hash key w u v
          (omega (
            arith,
            length-append t.key_entries
                (record { key_hash = fast_hash key; lock_type = exclusive; key = none } ∷ []),
          ))
          (inr (refl, add_key-holds (fast_hash key) exclusive t.key_entries)),
      refl,
      refl,
      refl,
    )
