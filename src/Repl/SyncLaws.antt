-- ===== src/Repl/SyncLaws.antt =====
-- The decision of PSYNC in wedb_repl/src/sync.rs and wedb_repl/src/manager.rs: when a replica may go on
-- from its offset, in general and after a failover.
use garnet_rust.Common.{
  ℕ, ◌≤◌, ◌≡◌, ◌≢◌, ◌↔◌, ◌⊎◌, refl, inl, inr, List, true, false, ltb, leb, not, ◌&&◌, ◌||◌,
  if◌then◌else◌, arith, Bool-cases, bytes_eq, bytes_eq_iff,
}
use garnet_rust.Common.Int.{ℤ, pos, negsuc}
use garnet_rust.Common.Result.{ok}
use garnet_rust.Repl.History.{
  ReplId, ReplicationHistory, empty, is_empty, is_question_mark, generate,
}
use garnet_rust.Repl.Sync.{SyncDecision, partial_resync, full_resync, decide_at, decide_sync}
use garnet_rust.Repl.Manager.{ReplicationManager, rotate_and_promote, evaluate_psync}

-- A replica follows the stream of a history at an offset: it names the identity of the stream, or the
-- former one up to where the two part.
abbrev pub Follows : ReplicationHistory → ReplId → ℕ → Type 0
Follows h id offset =
    (id ≡ h.primary_replid)
    ⊎ ((h.primary_replid2 ≢ empty) × (id ≡ h.primary_replid2) × (offset ≤ h.replication_offset2))

-- The conditions under which PSYNC goes on at an offset.
abbrev pub MayContinue : ReplicationHistory → ℕ → ℕ → ReplId → ℕ → Type 0
MayContinue h wal_begin wal_tail id offset =
    (is_question_mark id ≡ false) × (wal_begin ≤ offset) × (offset ≤ wal_tail) × Follows h id offset

-- What the decision is to be.
abbrev pub Decides : ReplicationHistory → ℕ → ℕ → ReplId → ℤ → SyncDecision → Type 0
Decides h wal_begin wal_tail id offset (partial_resync id' start) =
    (id' ≡ h.primary_replid) × (offset ≡ pos start) × MayContinue h wal_begin wal_tail id start
Decides h wal_begin wal_tail id offset (full_resync id' start) =
    (id' ≡ h.primary_replid)
    × (start ≡ wal_tail)
    × ((n : ℕ) → offset ≡ pos n → ¬ MayContinue h wal_begin wal_tail id n)

pos_inj : {a b : ℕ} → pos a ≡ pos b → a ≡ b
pos_inj e = cc

match_prev_iff :
    (h : ReplicationHistory) (id : ReplId) (offset : ℕ)
    → ((not (is_empty h.primary_replid2)
          && bytes_eq id h.primary_replid2
          && leb offset h.replication_offset2)
        ≡ true)
      ↔ ((h.primary_replid2 ≢ empty) × (id ≡ h.primary_replid2) × (offset ≤ h.replication_offset2))
match_prev_iff h id offset =
    let (to, from) = bytes_eq_iff id h.primary_replid2 in
    let (to', from') = bytes_eq_iff h.primary_replid2 empty in
    elim (Bool-cases (is_empty h.primary_replid2)) [
      | inl y ↦ rw y (λ e. cc, λ (ne, _, _). absurd (ne (to' y)))
      | inr n ↦ elim (Bool-cases (bytes_eq id h.primary_replid2)) [
        | inl y ↦
            rw (n, y) (λ e. (λ s. let t = from' s in cc, to y, leb_le e), λ (_, _, le). le_leb le)
        | inr d ↦ rw (n, d) (λ e. cc, λ (_, s, _). let t = from s in cc)
      ]
    ]
  where
    leb_le : {a b : ℕ} → leb a b ≡ true → a ≤ b
    leb_le e = ground arith

    le_leb : {a b : ℕ} → a ≤ b → leb a b ≡ true
    le_leb le = ground arith

decide_at-Decides :
    (h : ReplicationHistory) (wal_begin wal_tail : ℕ) (id : ReplId) (offset : ℕ)
    → is_question_mark id ≡ false
    → Decides h wal_begin wal_tail id (pos offset) (decide_at h wal_begin wal_tail id offset)
decide_at-Decides h wal_begin wal_tail id offset named =
    elim (Bool-cases (ltb offset wal_begin || ltb wal_tail offset)) [
      | inl outside ↦
          let kept : (wal_begin ≤ offset) → (offset ≤ wal_tail) → ⊥ = λ le le'. ground arith in
          rw (outside, decide_at, Decides)
            (
              refl,
              refl,
              λ n e (_, le, le', _). let s : offset ≡ n = pos_inj e in kept (rw s le) (rw s le'),
            )
      | inr inside ↦
          let low : wal_begin ≤ offset = ground arith in
          let high : offset ≤ wal_tail = ground arith in
          let (to, from) = bytes_eq_iff id h.primary_replid in
          let (to', from') = match_prev_iff h id offset in
          elim (Bool-cases (bytes_eq id h.primary_replid)) [
            | inl y ↦
                rw (inside, y, decide_at, Decides) (refl, refl, (named, low, high, inl (to y)))
            | inr d ↦
                elim (Bool-cases (
                  not (is_empty h.primary_replid2)
                  && bytes_eq id h.primary_replid2
                  && leb offset h.replication_offset2)) [
                    | inl y ↦
                        rw (inside, d, y, decide_at, Decides)
                          (refl, refl, (named, low, high, inr (to' y)))
                    | inr n ↦
                        rw (inside, d, n, decide_at, Decides)
                          (
                            refl,
                            refl,
                            λ k e c. let s : offset ≡ k = pos_inj e in unknown (rw (← s) at c) d n,
                          )
                  ]
          ]
    ]
  where
    unknown :
        MayContinue h wal_begin wal_tail id offset
        → bytes_eq id h.primary_replid ≡ false
        → (not (is_empty h.primary_replid2)
            && bytes_eq id h.primary_replid2
            && leb offset h.replication_offset2)
          ≡ false
        → ⊥
    unknown (_, _, _, inl same) d n = let t = (bytes_eq_iff id h.primary_replid).1 same in cc
    unknown (_, _, _, inr before) d n = let t = (match_prev_iff h id offset).1 before in cc

-- PSYNC allows a partial resynchronisation exactly where the replica does not ask for any stream,
-- its offset is in the log, and it names the current identity, or the former one, if there was one,
-- at an offset before the two part; it starts at the offset asked for, and a full resynchronisation
-- at the tail.
pub decide_sync-Decides :
    (h : ReplicationHistory) (wal_begin wal_tail : ℕ) (id : ReplId) (offset : ℤ)
    → Decides h wal_begin wal_tail id offset (decide_sync h wal_begin wal_tail id offset)
unfolding decide_sync
decide_sync-Decides h wal_begin wal_tail id (negsuc k) = (refl, refl, λ n e. cc)
decide_sync-Decides h wal_begin wal_tail id (pos offset) = elim (Bool-cases (is_question_mark id)) [
  | inl asks ↦ rw (asks, Decides) (refl, refl, λ n e (named, _, _, _). cc)
  | inr named ↦ rw (named, Decides) (decide_at-Decides h wal_begin wal_tail id offset named)
]

-- After a failover at a tail, a replica that names the identity from before, neither `?` nor empty
-- nor the new one, at an offset in the log goes on from there exactly where the offset is not past
-- the tail, and takes a full copy otherwise; either way it learns the new identity.
pub evaluate_psync-rotate_and_promote :
    {S : Type 0} (m : ReplicationManager S) (rand_bytes : List ℕ) (current_tail : ℕ)
    → is_question_mark m.history.primary_replid ≡ false
    → m.history.primary_replid ≢ empty
    → m.history.primary_replid ≢ generate rand_bytes
    → (wal_begin wal_tail offset : ℕ) → wal_begin ≤ offset
    → offset ≤ wal_tail
    → evaluate_psync wal_begin wal_tail m.history.primary_replid
        (pos offset)
        (rotate_and_promote rand_bytes current_tail m)
      ≡ ok (
          if leb offset current_tail
          then partial_resync (generate rand_bytes) offset
          else full_resync (generate rand_bytes) wal_tail)
unfolding decide_sync
evaluate_psync-rotate_and_promote m rand_bytes current_tail named known other wal_begin wal_tail
      offset low high =
    let id = m.history.primary_replid in
    let inside : (ltb offset wal_begin || ltb wal_tail offset) ≡ false = ground arith in
    let fresh : bytes_eq id (generate rand_bytes) ≡ false =
      differs id (generate rand_bytes) other in
    let some_id : bytes_eq id empty ≡ false = differs id empty known in
    let same : bytes_eq id id ≡ true = (bytes_eq_iff id id).1 refl in
    rw (named, inside, fresh, some_id, same)
  where
    differs : (a b : ReplId) → a ≢ b → bytes_eq a b ≡ false
    differs a b ne = elim (Bool-cases (bytes_eq a b)) [
      | inl y ↦ absurd (ne ((bytes_eq_iff a b).0 y))
      | inr n ↦ n
    ]
