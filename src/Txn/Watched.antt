-- ===== src/Txn/Watched.antt =====
-- wedb_txn/src/watched_keys.rs: the keys that a session watches, each with the version read then.
-- `fast_hash` is the hash function of the crate whasher.
use garnet_rust.Common.{
  ℕ, List, [], ◌∷◌, ◌++◌, Option, none, some, Bool, true, false, ◌==◌, ◌&&◌, if◌then◌else◌, all,
  keep, length, bytes_eq,
}
use garnet_rust.Txn.Entries.{shared, TxnKeyEntries, add_key}
use garnet_rust.Txn.Versions.{WatchVersionMap, read_version}

pub record WatchedKeyEntry : Type 0 where
  pub key : List ℕ
  pub hash : ℕ
  pub version : ℕ
  pub is_watched : Bool

pub record WatchedKeysContainer : Type 0 where
  pub entries : List WatchedKeyEntry

abbrev pub empty : WatchedKeysContainer
empty = record { entries = [] }

-- The first entry that passes, changed; `none` when none passes.
unfoldable pub change_first :
    (WatchedKeyEntry → Bool)
    → (WatchedKeyEntry → WatchedKeyEntry)
    → List WatchedKeyEntry
    → Option (List WatchedKeyEntry)
change_first p f [] = none
change_first p f (e ∷ es) =
    if p e
    then some (f e ∷ es)
    else elim (change_first p f es) [ none ↦ none | some rest ↦ some (e ∷ rest) ]

abbrev pub watch_again : ℕ → WatchedKeyEntry → WatchedKeyEntry
watch_again version e = record e { version = version; is_watched = true }

abbrev pub or_push :
    List WatchedKeyEntry → WatchedKeyEntry → Option (List WatchedKeyEntry) → List WatchedKeyEntry
or_push es e none = es ++ e ∷ []
or_push es e (some changed) = changed

abbrev pub new_entry : List ℕ → ℕ → ℕ → WatchedKeyEntry
new_entry key hash version = record { key = key; hash = hash; version = version; is_watched = true }

module _ (fast_hash : List ℕ → ℕ) where
  unfoldable pub watch : List ℕ → WatchVersionMap → WatchedKeysContainer → WatchedKeysContainer
  unfolding change_first
  watch key version_map w =
      let hash = fast_hash key in
      let version = read_version version_map hash in
      let found =
        change_first (λ e. e.hash == hash && bytes_eq e.key key) (watch_again version) w.entries in
      record { entries = or_push w.entries (new_entry key hash version) found }

  abbrev pub unwatched :
      WatchedKeysContainer → Option (List WatchedKeyEntry) → WatchedKeysContainer × Bool
  unwatched w none = (w, false)
  unwatched w (some es) = (record { entries = es }, true)

  unfoldable pub remove_watch : List ℕ → WatchedKeysContainer → WatchedKeysContainer × Bool
  unfolding change_first
  remove_watch key w =
      let hash = fast_hash key in
      unwatched w (
        change_first (λ e. e.is_watched && (e.hash == hash && bytes_eq e.key key))
          (λ e. record e { is_watched = false }) w.entries)

abbrev pub reset : WatchedKeysContainer → WatchedKeysContainer
reset w = empty

abbrev pub is_current : WatchVersionMap → WatchedKeyEntry → Bool
is_current version_map e =
    if e.is_watched then read_version version_map e.hash == e.version else true

unfoldable pub validate_versions : WatchVersionMap → WatchedKeysContainer → Bool
validate_versions version_map w = all (is_current version_map) w.entries

unfoldable pub save_keys_to_lock : List WatchedKeyEntry → TxnKeyEntries → TxnKeyEntries
save_keys_to_lock [] key_entries = key_entries
save_keys_to_lock (e ∷ es) key_entries =
    save_keys_to_lock es
      (if e.is_watched then add_key e.hash shared none key_entries else key_entries)

abbrev pub watched_count : WatchedKeysContainer → ℕ
watched_count w = length (keep (λ e. e.is_watched) w.entries)
