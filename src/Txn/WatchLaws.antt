-- ===== src/Txn/WatchLaws.antt =====
-- When the watched keys of wedb_txn/src/watched_keys.rs are still current after steps of any sessions.
use garnet_rust.Common.{
  ℕ, ◌<◌, ◌≡◌, refl, ap₂, ◌∙◌, inl, inr, List, [], ◌∷◌, ◌++◌, some, Bool, true, false, ◌==◌, ◌&&◌,
  if◌then◌else◌, arith, Bool-cases, Option-cases, all, length, bytes_eq,
}
use mathlib.Core.Bool.{and-false}
use garnet_rust.Txn.Versions.{u64, WatchVersionMap, read_version, IsValid, Bump, run}
use garnet_rust.Txn.VersionLaws.{touched, read_version-same}
use garnet_rust.Txn.Watched.{
  WatchedKeyEntry, WatchedKeysContainer, change_first, watch_again, new_entry, watch, is_current,
  validate_versions,
}

-- No step touched the hash of an entry, if it is watched.
abbrev pub is_untouched : ℕ → List Bump → WatchedKeyEntry → Bool
is_untouched mask bs e = if e.is_watched then touched mask e.hash bs == 0 else true

is_current-run :
    (bs : List Bump) (e : WatchedKeyEntry) {m : WatchVersionMap}
    → IsValid m
    → length bs < u64
    → is_current m e ≡ true
    → is_current (run bs m) e ≡ is_untouched m.mask bs e
is_current-run bs e {m} v le h = elim (Bool-cases e.is_watched) [
  | inl y ↦
      let same : e.version ≡ read_version m e.hash = ground arith in
      rw (y, same) (read_version-same bs e.hash v le)
  | inr n ↦ rw n
]

all_current-run :
    (bs : List Bump) (es : List WatchedKeyEntry) {m : WatchVersionMap}
    → IsValid m
    → length bs < u64
    → all (is_current m) es ≡ true
    → all (is_current (run bs m)) es ≡ all (is_untouched m.mask bs) es
all_current-run bs [] v le h = refl
all_current-run bs (e ∷ es) {m} v le h = elim (Bool-cases (is_current m e)) [
  | inl y ↦ ap₂ (◌&&◌) (is_current-run bs e v le y) (all_current-run bs es v le (ground arith))
  | inr n ↦ absurd (ground arith)
]

-- After fewer than 2 ^ 64 steps of any sessions on a valid table, current watched keys are still
-- current exactly when no step touched a watched key.
pub validate_versions-run :
    (bs : List Bump) (w : WatchedKeysContainer) {m : WatchVersionMap}
    → IsValid m
    → length bs < u64
    → validate_versions m w ≡ true
    → validate_versions (run bs m) w ≡ all (is_untouched m.mask bs) w.entries
unfolding validate_versions
validate_versions-run bs w v le h = all_current-run bs w.entries v le h

stale :
    (bs : List Bump) (h : ℕ) {m : WatchVersionMap}
    → IsValid m
    → length bs < u64
    → 0 < touched m.mask h bs
    → (read_version (run bs m) h == read_version m h) ≡ false
stale bs h {m} v le pos = read_version-same bs h v le ∙ ground arith

change_first-stale :
    (m : WatchVersionMap) (h version : ℕ) (key : List ℕ) (es : List WatchedKeyEntry)
    → (read_version m h == version) ≡ false
    → {changed : List WatchedKeyEntry}
    → change_first (λ e. e.hash == h && bytes_eq e.key key) (watch_again version) es ≡ some changed
    → all (is_current m) changed ≡ false
unfolding change_first
change_first-stale m h version key [] s c = cc
change_first-stale m h version key (e ∷ es) s {changed} c =
    let p = λ (x : WatchedKeyEntry). x.hash == h && bytes_eq x.key key in
    elim (Bool-cases (p e)) [
      | inl y ↦
          let at : e.hash ≡ h = ground arith in
          let r : watch_again version e ∷ es ≡ changed = ground arith in rw (← r, at, s)
      | inr n ↦ elim (Option-cases (change_first p (watch_again version) es)) [
        | inl d ↦ absurd (ground arith)
        | inr (rest, d) ↦
            let r : e ∷ rest ≡ changed = ground arith in
            let f = change_first-stale m h version key es s d in
            rw (← r, f) (and-false (is_current m e))
      ]
    ]

push-stale :
    (m : WatchVersionMap) (h version : ℕ) (key : List ℕ) (es : List WatchedKeyEntry)
    → (read_version m h == version) ≡ false
    → all (is_current m) (es ++ new_entry key h version ∷ []) ≡ false
push-stale m h version key [] s = rw s
push-stale m h version key (e ∷ es) s =
    rw (push-stale m h version key es s) (and-false (is_current m e))

-- A key watched at one state of a valid table is no longer current after fewer than 2 ^ 64 steps of
-- which at least one touches its hash.
pub validate_versions-watch :
    (fast_hash : List ℕ → ℕ) (key : List ℕ) (w : WatchedKeysContainer) (bs : List Bump)
    {m : WatchVersionMap}
    → IsValid m
    → length bs < u64
    → 0 < touched m.mask (fast_hash key) bs
    → validate_versions (run bs m) (watch fast_hash key m w) ≡ false
unfolding validate_versions watch
validate_versions-watch fast_hash key w bs {m} v le pos =
    let h = fast_hash key in
    let version = read_version m h in
    let s = stale bs h v le pos in
    elim (Option-cases
      (change_first (λ e. e.hash == h && bytes_eq e.key key) (watch_again version) w.entries)) [
        | inl c ↦ rw c (push-stale (run bs m) h version key w.entries s)
        | inr (changed, c) ↦ rw c (change_first-stale (run bs m) h version key w.entries s c)
      ]
