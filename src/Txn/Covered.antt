-- ===== src/Txn/Covered.antt =====
-- The commands queued in wedb_txn/src/manager.rs are covered by the lock set and the marks of the
-- transaction, and every method keeps that.
use garnet_rust.Common.{
  ℕ, ◌≡◌, refl, ◌⊎◌, inl, inr, List, [], ◌∷◌, ◌++◌, Bool, true, false, not, ◌&&◌, ◌||◌,
  if◌then◌else◌, arith, Bool-cases, all,
}
use garnet_rust.Common.Result.{Result, ok, err}
use garnet_rust.Txn.Entries.{LockType}
use garnet_rust.Txn.EntryLaws.{lock_of-sort_by_key_hash}
use garnet_rust.Txn.Versions.{WatchVersionMap}
use garnet_rust.Txn.Watched.{validate_versions, save_keys_to_lock}
use garnet_rust.Txn.Manager
use garnet_rust.Txn.Manager.{
  TransactionManager, CommandTable, TxnState, no_txn, started, running, aborted, is_none,
  is_running, is_skipping_operations, multi, unwatch, discard, queue_command_with_key_prefix,
  reset_all, reset_session, add_keys, save_key_entry_to_lock,
}
use garnet_rust.Txn.Exec.{
  prepared_running, prepare_inner, prepare_lockset, validate_watches, promote_to_transaction,
  locked,
}
use garnet_rust.Txn.QueueLaws.{
  Grows, save_keys_to_lock-Grows, is_locked, all_locked-Grows, add_keys-Grows, add_keys-locked,
  add_key-Grows,
}

-- The first value after a success, the second after an error.
abbrev pub on_ok : {A B E : Type 0} → Result A E → B → B → B
on_ok (ok a) x y = x
on_ok (err e) x y = y

-- The first value after an answer `true` or an error, the second after an answer `false`.
abbrev pub unless_false : {B E : Type 0} → Result Bool E → B → B → B
unless_false (ok true) x y = x
unless_false (ok false) x y = y
unless_false (err e) x y = x

module _ {C : Type 0} (table : CommandTable C) (fast_hash : List ℕ → ℕ) where
  -- A queued command may be queued, its keys are locked under the prefix of the database that it was
  -- queued in, and the transaction knows of its writes.
  abbrev pub is_covered : TransactionManager C → List ℕ → C → Bool
  is_covered t prefix c =
      table.is_allowed_in_txn c
      && ((not (table.is_write c) || t.perform_writes)
          && ((not (table.is_global_mutation c) || t.invalidate_all)
              && all (is_locked fast_hash prefix t.key_entries) (table.for_each_key c)))

  -- The commands one by one with their prefixes, as many as there are commands.
  abbrev pub all_covered : TransactionManager C → List (List ℕ) → List C → Bool
  all_covered t [] [] = true
  all_covered t [] (c ∷ cs) = false
  all_covered t (prefix ∷ prefixes) [] = false
  all_covered t (prefix ∷ prefixes) (c ∷ cs) = is_covered t prefix c && all_covered t prefixes cs

  covered-Grows :
      (t u : TransactionManager C) (ps : List (List ℕ)) (cs : List C)
      → Grows t.key_entries u.key_entries
      → (t.perform_writes ≡ true → u.perform_writes ≡ true)
      → (t.invalidate_all ≡ true → u.invalidate_all ≡ true)
      → all_covered t ps cs ≡ true
      → all_covered u ps cs ≡ true
  covered-Grows t u [] [] g w i e = refl
  covered-Grows t u [] (c ∷ cs) g w i e = cc
  covered-Grows t u (p ∷ ps) [] g w i e = cc
  covered-Grows t u (p ∷ ps) (c ∷ cs) g w i e = ground (
    arith,
    w,
    i,
    all_locked-Grows fast_hash p t.key_entries u.key_entries (table.for_each_key c) g,
    covered-Grows t u ps cs g w i,
  )

  all_covered-snoc :
      (t : TransactionManager C) (ps : List (List ℕ)) (cs : List C) (p : List ℕ) (c : C)
      → all_covered t ps cs ≡ true
      → is_covered t p c ≡ true
      → all_covered t (ps ++ p ∷ []) (cs ++ c ∷ []) ≡ true
  all_covered-snoc t [] [] p c e f = rw f
  all_covered-snoc t [] (d ∷ cs) p c e f = cc
  all_covered-snoc t (q ∷ ps) [] p c e f = cc
  all_covered-snoc t (q ∷ ps) (d ∷ cs) p c e f = ground (arith, all_covered-snoc t ps cs p c)

  locked-Grows : (t : TransactionManager C) → Grows t.key_entries (locked t).key_entries
  locked-Grows t h =
      let saved = save_keys_to_lock t.watched_keys.entries t.key_entries in
      omega (
        arith,
        save_keys_to_lock-Grows t.watched_keys.entries t.key_entries h,
        lock_of-sort_by_key_hash h saved,
      )

  locked-covered :
      (t : TransactionManager C) (ps : List (List ℕ)) (cs : List C)
      → all_covered t ps cs ≡ true
      → all_covered (locked t) ps cs ≡ true
  locked-covered t ps cs e = covered-Grows t (locked t) ps cs (locked-Grows t) (λ w. w) (λ i. i) e

  -- The queued commands of a state are covered; `prefixes` are theirs.
  abbrev pub Holds : TransactionManager C → List (List ℕ) → Type 0
  Holds t prefixes = all_covered t prefixes t.queue ≡ true

  module _ (t : TransactionManager C) (ps : List (List ℕ)) (e : Holds t ps) where
    pub multi-covered : Holds (multi t).0 (on_ok (multi t).1 [] ps)
    unfolding multi
    multi-covered = elim (Bool-cases (is_none t.state)) [ inl y ↦ rw y | inr n ↦ rw n e ]

    pub watch-covered :
        (key : List ℕ) (m : WatchVersionMap) → Holds (Manager.watch fast_hash key m t).0 ps
    unfolding Manager.watch
    watch-covered key m = elim (Bool-cases (is_none t.state)) [ inl y ↦ rw y e | inr n ↦ rw n e ]

    pub unwatch-covered : Holds (unwatch t) ps
    unfolding unwatch
    unwatch-covered = elim (Bool-cases (is_none t.state)) [ inl y ↦ rw y e | inr n ↦ rw n e ]

    pub discard-covered : Holds (discard t).0 (on_ok (discard t).1 [] ps)
    unfolding discard reset_all
    discard-covered = elim (Bool-cases (is_none t.state)) [ inl y ↦ rw y e | inr n ↦ rw n ]

    pub save-covered :
        (key : List ℕ) (lock : LockType) → Holds (save_key_entry_to_lock fast_hash key lock t) ps
    unfolding save_key_entry_to_lock
    save-covered key lock =
        covered-Grows t (save_key_entry_to_lock fast_hash key lock t) ps t.queue
          (λ h. add_key-Grows (fast_hash key) lock t.key_entries h) (λ w. ground arith) (λ i. i) e

    pub promote-covered :
        (key : List ℕ) (lock : LockType) → Holds (promote_to_transaction fast_hash key lock t).0 ps
    unfolding promote_to_transaction
    promote-covered key lock = elim (Bool-cases (is_running t.state)) [
      | inl y ↦ rw y e
      | inr n ↦ rw n (save-covered key lock)
    ]

    pub queue-covered :
        (cmd : C) (prefix : List ℕ)
        → let (u, r) = queue_command_with_key_prefix table fast_hash cmd prefix t in
          Holds u (on_ok r (ps ++ prefix ∷ []) ps)
    unfolding queue_command_with_key_prefix
    queue-covered cmd prefix = elim (Bool-cases (is_skipping_operations t.state)) [
      | inr n ↦ rw n e
      | inl y ↦ elim (Bool-cases (table.is_allowed_in_txn cmd)) [
        | inr barred ↦ rw (y, barred) e
        | inl allowed ↦
            rw (y, allowed)
              (let ks = table.for_each_key cmd in
                let u : TransactionManager C = record t {
                  queue = t.queue ++ cmd ∷ [];
                  key_entries = add_keys fast_hash prefix ks t.key_entries;
                  perform_writes = if table.is_write cmd then true else t.perform_writes;
                  invalidate_all = if table.is_global_mutation cmd then true else t.invalidate_all;
                } in
                all_covered-snoc u ps t.queue prefix cmd
                  (covered-Grows t u ps t.queue
                    (λ h. add_keys-Grows fast_hash prefix ks t.key_entries h) (λ w. ground arith)
                    (λ i. ground arith) e)
                  (ground (arith, add_keys-locked fast_hash prefix ks t.key_entries)))
      ]
    ]

    state-cases : (s : TxnState) → ((s ≡ no_txn) ⊎ (s ≡ running)) ⊎ ((s ≡ started) ⊎ (s ≡ aborted))
    state-cases no_txn = inl (inl refl)
    state-cases running = inl (inr refl)
    state-cases started = inr (inl refl)
    state-cases aborted = inr (inr refl)

    pub lockset-covered : Holds (prepare_lockset t).0 (unless_false (prepare_lockset t).1 ps [])
    unfolding prepare_lockset reset_all
    lockset-covered = elim (state-cases t.state) [
      | inl (inl s) ↦ rw s e
      | inl (inr s) ↦ rw s e
      | inr (inr s) ↦ rw s
      | inr (inl s) ↦ rw s (locked-covered t ps t.queue e)
    ]

    pub validate-covered :
        (m : WatchVersionMap)
        → Holds (validate_watches m t).0 (if (validate_watches m t).1 then ps else [])
    unfolding validate_watches reset_session
    validate-covered m = elim (Bool-cases (validate_versions m t.watched_keys)) [
      | inl y ↦ rw y e
      | inr n ↦ rw n
    ]

    pub prepare-covered :
        (m : WatchVersionMap) → Holds (prepare_inner m t).0 (on_ok (prepare_inner m t).1 [] ps)
    unfolding prepare_inner reset_all
    prepare-covered m = elim (state-cases t.state) [
      | inl (inl s) ↦ rw s e
      | inl (inr s) ↦ rw s e
      | inr (inr s) ↦ rw s
      | inr (inl s) ↦ elim (Bool-cases (validate_versions m t.watched_keys)) [
        | inl y ↦ rw (s, y)
        | inr n ↦ rw (s, n)
      ]
    ]

    pub handed_over :
        (m : WatchVersionMap) (cs : List C)
        → (prepare_inner m t).1 ≡ ok (prepared_running cs)
        → all_covered (prepare_inner m t).0 ps cs ≡ true
    unfolding prepare_inner reset_all
    handed_over m cs r = elim (state-cases t.state) [
      | inl (inl s) ↦ (let x = rw s at r in cc)
      | inl (inr s) ↦ (let x = rw s at r in cc)
      | inr (inr s) ↦ (let x = rw s at r in cc)
      | inr (inl s) ↦ elim (Bool-cases (validate_versions m t.watched_keys)) [
        | inl y ↦
            let x = rw (s, y) at r in
            let same : t.queue ≡ cs = ground arith in
            rw (← same, s, y)
              (covered-Grows t (record (locked t) { state = running; queue = [] }) ps t.queue
                (locked-Grows t) (λ w. w) (λ i. i) e)
        | inr n ↦ (let x = rw (s, n) at r in cc)
      ]
    ]
