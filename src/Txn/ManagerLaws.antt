-- ===== src/Txn/ManagerLaws.antt =====
-- EXEC and the broadcast of a commit in wedb_txn/src/manager.rs.
use garnet_rust.Common.{
  ℕ, ◌+◌, ◌%◌, ◌≤◌, ◌<◌, ◌≡◌, refl, ap, ◌∙◌, ◌⊎◌, inl, inr, List, [], ◌∷◌, true, false, ◌==◌,
  if◌then◌else◌, arith, Bool-cases, all, length,
}
use garnet_rust.Common.Result.{ok}
use garnet_rust.Txn.Entries.{
  LockType, no_lock, shared, exclusive, rank, is_exclusive, TxnKeyEntries, sort_by_key_hash,
}
use garnet_rust.Txn.EntryLaws.{lock_of}
use garnet_rust.Txn.Versions.{
  u64, WatchVersionMap, bump_version, IsValid, Bump, bump_key, bump_every, step, run,
}
use garnet_rust.Txn.VersionLaws.{touched}
use garnet_rust.Txn.Watched
use garnet_rust.Txn.Watched.{WatchedKeysContainer, validate_versions}
use garnet_rust.Txn.WatchLaws.{is_untouched, validate_versions-run, validate_versions-watch}
use garnet_rust.Txn.Manager.{TransactionManager, no_txn, started, reset_all}
use garnet_rust.Txn.Exec.{
  success, conflict, locked, prepare_inner, bump_exclusive, broadcast, execute_all, exec, Executed,
}

-- A session with no transaction and no watched key.
abbrev pub idle : {C : Type 0} → TransactionManager C → TransactionManager C
idle t = record {
  state = no_txn;
  queue = [];
  watched_keys = Watched.empty;
  key_entries = [];
  perform_writes = false;
  invalidate_all = false;
  is_replaying = t.is_replaying;
}

-- The steps that a commit makes on the table.
abbrev exclusive_bumps : TxnKeyEntries → List Bump
exclusive_bumps [] = []
exclusive_bumps (e ∷ es) =
    if is_exclusive e.lock_type
    then bump_key e.key_hash ∷ exclusive_bumps es
    else exclusive_bumps es

abbrev bumps_of : {C : Type 0} → TransactionManager C → List Bump
bumps_of t =
    if t.invalidate_all
    then bump_every ∷ []
    else if t.perform_writes
    then exclusive_bumps t.key_entries
    else []

bump_exclusive-run :
    (es : TxnKeyEntries) (m : WatchVersionMap) → bump_exclusive es m ≡ run (exclusive_bumps es) m
unfolding bump_exclusive run step
bump_exclusive-run [] m = refl
bump_exclusive-run (e ∷ es) m = elim (Bool-cases (is_exclusive e.lock_type)) [
  | inl y ↦ rw y (bump_exclusive-run es (bump_version e.key_hash m).0)
  | inr n ↦ rw n (bump_exclusive-run es m)
]

pub broadcast-run :
    {C : Type 0} (t : TransactionManager C) (m : WatchVersionMap)
    → broadcast t m ≡ run (bumps_of t) m
unfolding broadcast run step
broadcast-run t m = elim (Bool-cases t.invalidate_all) [
  | inl y ↦ rw y
  | inr n ↦ elim (Bool-cases t.perform_writes) [
    | inl w ↦ rw (n, w) (bump_exclusive-run t.key_entries m)
    | inr r ↦ rw (n, r)
  ]
]

-- The transaction with the lock set that EXEC prepares: the locks of the queued commands and of the
-- watched keys, sorted and merged.
abbrev prepared : {C : Type 0} → TransactionManager C → TransactionManager C
prepared t = record t {
  key_entries = sort_by_key_hash (Watched.save_keys_to_lock t.watched_keys.entries t.key_entries);
}

module _ {C S R : Type 0} (executor : C → S → R × S) where
  -- The replies to commands run one after another, each on the state that those before it leave, and
  -- the state after the last of them.
  abbrev replies : List C → S → List R
  replies [] s = []
  replies (c ∷ cs) s = (executor c s).0 ∷ replies cs (executor c s).1

  abbrev state_after : List C → S → S
  state_after [] s = s
  state_after (c ∷ cs) s = state_after cs (executor c s).1

  execute_all_lem :
      (cs : List C) (s : S) → execute_all executor cs s ≡ (replies cs s, state_after cs s)
  unfolding execute_all
  execute_all_lem [] s = refl
  execute_all_lem (c ∷ cs) s = rw (execute_all_lem cs (executor c s).1)

  -- The outcome of an EXEC whose watched keys are all current, and of one in conflict.
  abbrev pub committed : WatchVersionMap → S → TransactionManager C → Executed executor
  committed m s t = (
    idle t,
    run (bumps_of (prepared t)) m,
    state_after t.queue s,
    ok (success (replies t.queue s)),
  )

  abbrev pub refused : WatchVersionMap → S → TransactionManager C → Executed executor
  refused m s t = (idle t, m, s, ok conflict)

  pub exec-validated :
      (m : WatchVersionMap) (s : S) (t : TransactionManager C)
      → t.state ≡ started
      → exec executor m s t
        ≡ (if validate_versions m t.watched_keys then committed m s t else refused m s t)
  unfolding exec prepare_inner reset_all
  exec-validated m s t e = elim (Bool-cases (validate_versions m t.watched_keys)) [
    | inl y ↦ rw (e, y, execute_all_lem t.queue s, ← broadcast-run (locked t) m)
    | inr n ↦ rw (e, n)
  ]

  -- EXEC of a started transaction whose watched keys were current, after fewer than 2 ^ 64 steps of
  -- any sessions on a valid table: with every watched key untouched, the queued commands run first
  -- to last, each on the state that those before it leave, the reply is theirs in that order, the
  -- table takes one step for everything if the transaction changes everything, one for each
  -- exclusive entry of the prepared lock set if it writes, none otherwise, and the session is idle;
  -- otherwise no command runs, the table stays, the session is idle and the reply is a conflict.
  pub exec_lem :
      (bs : List Bump) (s : S) (t : TransactionManager C) {m : WatchVersionMap}
      → IsValid m
      → length bs < u64
      → t.state ≡ started
      → validate_versions m t.watched_keys ≡ true
      → exec executor (run bs m) s t ≡ (
          if all (is_untouched m.mask bs) t.watched_keys.entries
          then committed (run bs m) s t
          else refused (run bs m) s t)
  exec_lem bs s t {m} v le e current =
      exec-validated (run bs m) s t e
      ∙ ap (λ b. if b then committed (run bs m) s t else refused (run bs m) s t)
          (validate_versions-run bs t.watched_keys v le current)

length-exclusive_bumps : (es : TxnKeyEntries) → length (exclusive_bumps es) ≤ length es
length-exclusive_bumps [] = omega arith
length-exclusive_bumps (e ∷ es) = ground (arith, length-exclusive_bumps es)

length-bumps_of :
    {C : Type 0} (t : TransactionManager C) → length (bumps_of t) ≤ length t.key_entries + 1
length-bumps_of t = ground (arith, length-exclusive_bumps t.key_entries)

exclusive_rank : (l : LockType) → 2 ≤ rank l → is_exclusive l ≡ true
exclusive_rank no_lock h = absurd (omega arith)
exclusive_rank shared h = absurd (omega arith)
exclusive_rank exclusive h = refl

touched-exclusive_bumps :
    (mask h : ℕ) (es : TxnKeyEntries) → 2 ≤ lock_of h es → 0 < touched mask h (exclusive_bumps es)
touched-exclusive_bumps mask h [] l = absurd (omega arith)
touched-exclusive_bumps mask h (e ∷ es) l = elim (Bool-cases (is_exclusive e.lock_type)) [
  | inl y ↦ elim (Bool-cases (e.key_hash == h)) [
    | inl same ↦
        let at : e.key_hash ≡ h = ground arith in
        let t : (e.key_hash % (mask + 1) == h % (mask + 1)) ≡ true = rw at (ground arith) in
        rw (y, t) (omega arith)
    | inr other ↦
        let l' : 2 ≤ lock_of h es = rw other at l in
        rw y (omega (arith, touched-exclusive_bumps mask h es l'))
  ]
  | inr n ↦ rw n (touched-exclusive_bumps mask h es (ground (arith, exclusive_rank e.lock_type)))
]

touched-bumps_of :
    {C : Type 0} (t : TransactionManager C) (mask h : ℕ)
    → (t.invalidate_all ≡ true) ⊎ ((t.perform_writes ≡ true) × (2 ≤ lock_of h t.key_entries))
    → 0 < touched mask h (bumps_of t)
touched-bumps_of t mask h (inl y) = rw y (omega arith)
touched-bumps_of t mask h (inr (w, l)) = elim (Bool-cases t.invalidate_all) [
  | inl y ↦ rw y (omega arith)
  | inr n ↦ rw (n, w) (touched-exclusive_bumps mask h t.key_entries l)
]

-- On a valid table, a commit that changes everything, or that writes and holds an exclusive lock on
-- the hash of a key, makes the watch that any session has put on that key before it fail, where the
-- lock set has fewer than 2 ^ 64 - 1 entries.
pub validate_versions-broadcast :
    {C : Type 0} (fast_hash : List ℕ → ℕ) (key : List ℕ) (w : WatchedKeysContainer)
    (t : TransactionManager C) {m : WatchVersionMap}
    → IsValid m
    → length t.key_entries + 1 < u64
    → (t.invalidate_all ≡ true)
      ⊎ ((t.perform_writes ≡ true) × (2 ≤ lock_of (fast_hash key) t.key_entries))
    → validate_versions (broadcast t m) (Watched.watch fast_hash key m w) ≡ false
validate_versions-broadcast fast_hash key w t {m} v le writes = rw (broadcast-run t m) (
    validate_versions-watch fast_hash key w (bumps_of t) v (omega (arith, length-bumps_of t))
      (touched-bumps_of t m.mask (fast_hash key) writes))
