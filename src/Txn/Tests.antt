-- ===== src/Txn/Tests.antt =====
-- The theorems on transactions at two sessions and a table of four slots.
use garnet_rust.Common.{
  ◌*◌, ◌≤◌, ◌^◌, ℕ, ◌+◌, ◌%◌, ◌<◌, ◌≡◌, refl, inr, List, [], ◌∷◌, none, true, false, ◌==◌,
  if◌then◌else◌, arith, all, length,
}
use garnet_rust.Common.Result.{ok}
use garnet_rust.Txn.Entries.{
  LockType, shared, exclusive, TxnKeyEntry, TxnKeyEntries, sort_by_key_hash,
}
use garnet_rust.Txn.EntryLaws.{
  lock_of, AscendingFrom, lock_of-sort_by_key_hash, sort_by_key_hash-AscendingFrom,
}
use garnet_rust.Txn.Versions.{
  slot_of, new, u64, WatchVersionMap, IsValid, Bump, bump_key, bump_every, run, read_version,
}
use garnet_rust.Txn.VersionLaws.{slot_of-new, touched, read_version-run, read_version-same}
use garnet_rust.Txn.Watched
use garnet_rust.Txn.Watched.{WatchedKeyEntry, WatchedKeysContainer, validate_versions}
use garnet_rust.Txn.WatchLaws.{is_untouched, validate_versions-run, validate_versions-watch}
use garnet_rust.Txn.Manager
use garnet_rust.Txn.Manager.{
  TransactionManager, CommandTable, started, multi, queue_command_with_key_prefix,
}
use garnet_rust.Txn.Exec.{
  guard_commit, promote_to_transaction, locked, prepare_inner, prepared_running, broadcast, exec,
}
use garnet_rust.Txn.ManagerLaws.{committed, refused, exec_lem, validate_versions-broadcast}
use garnet_rust.Txn.Reached.{at_start, did_multi, did_queue, by_prepare, HandsOver-covered}
use garnet_rust.Txn.Covered.{all_covered}
use garnet_rust.Txn.Isolation.{promote_to_transaction_lem, exec-exec}

abbrev entry : ℕ → LockType → TxnKeyEntry
entry h l = record { key_hash = h; lock_type = l; key = none }

abbrev lock_set : TxnKeyEntries
lock_set = entry 9 shared ∷ entry 4 shared ∷ entry 9 exclusive ∷ []

lock_of-sort_by_key_hash_example : lock_of 9 (sort_by_key_hash lock_set) ≡ 2
lock_of-sort_by_key_hash_example = lock_of-sort_by_key_hash 9 lock_set

sort_by_key_hash-AscendingFrom_example : AscendingFrom 0 (sort_by_key_hash lock_set)
sort_by_key_hash-AscendingFrom_example =
    sort_by_key_hash-AscendingFrom lock_set (refl, (refl, (refl, tt)))

abbrev slots_4 : WatchVersionMap
slots_4 = record { slots = 5 ∷ 0 ∷ 0 ∷ 7 ∷ []; mask = 3; global_epoch = 1 }

slots_4-IsValid : IsValid slots_4
slots_4-IsValid = record { size = refl }

abbrev steps : List Bump
steps = bump_key 7 ∷ bump_every ∷ []

read_version-run_example : read_version (run steps slots_4) 3 ≡ (read_version slots_4 3 + 2) % u64
read_version-run_example = read_version-run steps 3 slots_4-IsValid

read_version-same_example :
    (read_version (run steps slots_4) 3 == read_version slots_4 3) ≡ (touched 3 3 steps == 0)
read_version-same_example = read_version-same steps 3 slots_4-IsValid (omega arith)

abbrev no_keys : WatchedKeysContainer
no_keys = Watched.empty

-- A hash of a byte string for the tests.
abbrev hash_of : List ℕ → ℕ
hash_of [] = 0
hash_of (x ∷ xs) = x + hash_of xs

abbrev watching : WatchedKeysContainer
watching = record {
  entries = record { key = 3 ∷ []; hash = 3; version = 8; is_watched = true } ∷ [];
}

watching-current : validate_versions slots_4 watching ≡ true
unfolding validate_versions read_version
watching-current = refl

validate_versions-run_example :
    validate_versions (run steps slots_4) watching ≡ all (is_untouched 3 steps) watching.entries
validate_versions-run_example =
    validate_versions-run steps watching slots_4-IsValid (omega arith) watching-current

validate_versions-watch_example :
    validate_versions (run steps slots_4) (Watched.watch hash_of (3 ∷ []) slots_4 no_keys) ≡ false
validate_versions-watch_example =
    validate_versions-watch hash_of (3 ∷ []) no_keys steps slots_4-IsValid (omega arith)
      (omega arith)

-- Commands are numbers, the reply to one is the state it finds, and each adds itself to the state.
abbrev add_up : ℕ → ℕ → ℕ × ℕ
add_up c s = (s, s + c)

abbrev session : WatchedKeysContainer → TxnKeyEntries → TransactionManager ℕ
session w entries = record {
  state = started;
  queue = 1 ∷ 2 ∷ [];
  watched_keys = w;
  key_entries = entries;
  perform_writes = true;
  invalidate_all = false;
  is_replaying = false;
}

exec_example : exec add_up (run steps slots_4) 10 (session watching lock_set) ≡ (
    if all (is_untouched 3 steps) watching.entries
    then committed add_up (run steps slots_4) 10 (session watching lock_set)
    else refused add_up (run steps slots_4) 10 (session watching lock_set))
exec_example =
    exec_lem add_up steps 10 (session watching lock_set) slots_4-IsValid (omega arith) refl
      watching-current

validate_versions-broadcast_example :
    validate_versions
      (broadcast (session no_keys (entry 3 exclusive ∷ [])) slots_4)
      (Watched.watch hash_of (3 ∷ []) slots_4 no_keys)
    ≡ false
validate_versions-broadcast_example =
    validate_versions-broadcast hash_of (3 ∷ []) no_keys (session no_keys (entry 3 exclusive ∷ []))
      slots_4-IsValid (omega arith) (inr (refl, omega arith))

-- Every command may be queued and writes the key that is its number.
abbrev commands : CommandTable ℕ
commands = record {
  as_str = λ c. c ∷ [];
  is_allowed_in_txn = λ c. true;
  is_global_mutation = λ c. false;
  is_write = λ c. true;
  for_each_key = λ c. (c ∷ [], exclusive) ∷ [];
}

abbrev queued : TransactionManager ℕ
queued = (queue_command_with_key_prefix commands hash_of 3 (9 ∷ []) (multi Manager.new).0).0

prepare_inner-queued : (prepare_inner slots_4 queued).1 ≡ ok (prepared_running (3 ∷ []))
unfolding prepare_inner queue_command_with_key_prefix multi validate_versions
prepare_inner-queued = refl

HandsOver-covered_example :
    all_covered commands hash_of (prepare_inner slots_4 queued).0 ((9 ∷ []) ∷ []) (3 ∷ []) ≡ true
unfolding prepare_inner queue_command_with_key_prefix multi
HandsOver-covered_example =
    HandsOver-covered commands hash_of (did_queue 3 (9 ∷ []) (did_multi at_start))
      (by_prepare slots_4 prepare_inner-queued)

exec-exec_example :
    let a = session no_keys (entry 3 exclusive ∷ []) in
    let b = session (Watched.watch hash_of (3 ∷ []) slots_4 no_keys) [] in
    let m' = (exec add_up slots_4 10 a).1 in exec add_up m' 20 b ≡ refused add_up m' 20 b
exec-exec_example =
    exec-exec add_up hash_of (3 ∷ []) no_keys (session no_keys (entry 3 exclusive ∷ []))
      (session (Watched.watch hash_of (3 ∷ []) slots_4 no_keys) []) 10 20 slots_4-IsValid refl
      no_keys-current short (inr (refl, omega arith)) refl refl
  where
    no_keys-current : validate_versions slots_4 no_keys ≡ true
    no_keys-current = unfold validate_versions in refl

    short : length (locked (session no_keys (entry 3 exclusive ∷ []))).key_entries + 1 < u64
    short = unfold sort_by_key_hash Watched.save_keys_to_lock in omega arith

promote_to_transaction_example :
    let (t', m') =
      guard_commit
        (promote_to_transaction {C = ℕ} hash_of (3 ∷ []) exclusive Manager.new)
        slots_4 in
    (validate_versions m' (Watched.watch hash_of (3 ∷ []) slots_4 no_keys) ≡ false)
    × (t'.state ≡ Manager.no_txn)
    × (t'.watched_keys ≡ no_keys)
    × (t'.key_entries ≡ [])
promote_to_transaction_example =
    promote_to_transaction_lem hash_of (3 ∷ []) no_keys Manager.new slots_4-IsValid (omega arith)
      refl

slot_of-new_example :
    let m = run steps (new 5) in
    (slot_of m 13 < length m.slots)
    × (5 ≤ length m.slots)
    × (length m.slots < 2 * 5)
    × ((k : ℕ) × (length m.slots ≡ 2 ^ k))
slot_of-new_example = slot_of-new 5 steps 13 (omega arith)
