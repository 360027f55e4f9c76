-- ===== src/Txn/QueueLaws.antt =====
-- The lock set of a transaction in wedb_txn/src/manager.rs covers the keys of its queued commands.
use garnet_rust.Common.{
  ℕ, ◌≤◌, ◌≡◌, refl, inl, inr, List, [], ◌∷◌, ◌++◌, none, Bool, true, arith, Bool-cases, all, max,
  leb,
}
use garnet_rust.Txn.Entries.{LockType, shared, rank, TxnKeyEntries, add_key}
use garnet_rust.Txn.EntryLaws.{lock_of}
use garnet_rust.Txn.Watched.{WatchedKeyEntry, save_keys_to_lock}
use garnet_rust.Txn.Manager.{add_keys}

lock_of-append :
    (h : ℕ) (es fs : TxnKeyEntries) → lock_of h (es ++ fs) ≡ max (lock_of h es) (lock_of h fs)
lock_of-append h [] fs = omega arith
lock_of-append h (e ∷ es) fs = ground (arith, lock_of-append h es fs)

-- One lock set holds at least the locks of another.
abbrev pub Grows : TxnKeyEntries → TxnKeyEntries → Type 0
Grows es fs = (h : ℕ) → lock_of h es ≤ lock_of h fs

pub add_key-Grows : (k : ℕ) (l : LockType) (es : TxnKeyEntries) → Grows es (add_key k l none es)
add_key-Grows k l es h =
    omega (arith, lock_of-append h es (record { key_hash = k; lock_type = l; key = none } ∷ []))

pub save_keys_to_lock-Grows :
    (ws : List WatchedKeyEntry) (es : TxnKeyEntries) → Grows es (save_keys_to_lock ws es)
unfolding save_keys_to_lock
save_keys_to_lock-Grows [] es h = omega arith
save_keys_to_lock-Grows (w ∷ ws) es h = elim (Bool-cases w.is_watched) [
  | inl y ↦ rw y (
      omega (
        arith,
        add_key-Grows w.hash shared es h,
        save_keys_to_lock-Grows ws (add_key w.hash shared none es) h,
      ))
  | inr n ↦ rw n (save_keys_to_lock-Grows ws es h)
]

pub add_key-holds :
    (k : ℕ) (l : LockType) (es : TxnKeyEntries) → rank l ≤ lock_of k (add_key k l none es)
add_key-holds k l es =
    ground (arith, lock_of-append k es (record { key_hash = k; lock_type = l; key = none } ∷ []))

module _ (fast_hash : List ℕ → ℕ) (prefix : List ℕ) where
  -- A lock set holds a key of a command, in the session's database, with the lock it asks for.
  abbrev pub is_locked : TxnKeyEntries → List ℕ × LockType → Bool
  is_locked es kl = leb (rank kl.1) (lock_of (fast_hash (prefix ++ kl.0)) es)

  pub add_keys-Grows :
      (ks : List (List ℕ × LockType)) (es : TxnKeyEntries)
      → Grows es (add_keys fast_hash prefix ks es)
  unfolding add_keys
  add_keys-Grows [] es h = omega arith
  add_keys-Grows ((k, l) ∷ ks) es h = omega (
    arith,
    add_key-Grows (fast_hash (prefix ++ k)) l es h,
    add_keys-Grows ks (add_key (fast_hash (prefix ++ k)) l none es) h,
  )

  pub add_keys-locked :
      (ks : List (List ℕ × LockType)) (es : TxnKeyEntries)
      → all (is_locked (add_keys fast_hash prefix ks es)) ks ≡ true
  unfolding add_keys
  add_keys-locked [] es = refl
  add_keys-locked ((k, l) ∷ ks) es =
      let h = fast_hash (prefix ++ k) in
      let es' = add_key h l none es in
      let held : leb (rank l) (lock_of h (add_keys fast_hash prefix ks es')) ≡ true =
        ground (arith, add_key-holds h l es, add_keys-Grows ks es' h) in
      rw held (add_keys-locked ks es')

  pub all_locked-Grows :
      (es fs : TxnKeyEntries) (ks : List (List ℕ × LockType))
      → Grows es fs
      → all (is_locked es) ks ≡ true
      → all (is_locked fs) ks ≡ true
  all_locked-Grows es fs [] g e = refl
  all_locked-Grows es fs (kl ∷ ks) g e =
      ground (arith, g (fast_hash (prefix ++ kl.0)), all_locked-Grows es fs ks g)
