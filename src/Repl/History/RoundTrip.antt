-- ===== src/Repl/History/RoundTrip.antt =====
-- The binary form of the replication history, wedb_repl/src/history.rs: what is written is read back,
-- and what is read is well-formed.
use garnet_rust.Common.{
  ℕ, ◌+◌, ◌-◌, ◌≡◌, refl, ap, ap₂, ◌∙◌, inl, inr, List, [], ◌∷◌, ◌++◌, true, false, ltb, ◌==◌,
  arith, length, take, all, bytes_eq, length-append, take-append_left, drop-append_right, take_all,
}
use garnet_rust.Common.Result.{ok}
use garnet_rust.Common.Bytes.{to_le_bytes, from_le_bytes-to_le_bytes}
use garnet_rust.Backlog.{slice}
use garnet_rust.Repl.History.{
  ReplId, repl_id_len, is_ascii_hexdigit, asks_for_any, repl_id_from_bytes, ReplicationHistory,
  to_byte_array, from_bytes, IsReplId, IsValid,
}

-- A digit is not `?`, so an identity of digits does not ask for any.
digits-asks :
    (id : ReplId)
    → length id ≡ repl_id_len
    → all is_ascii_hexdigit id ≡ true
    → asks_for_any id ≡ false
unfolding bytes_eq
digits-asks [] n h = absurd (omega (arith, n))
digits-asks (b ∷ id) n h =
    let other : (b == 63) ≡ false = ground (arith, h) in rw other (ground arith)

repl_id_from_bytes-valid : (id : ReplId) → IsReplId id → repl_id_from_bytes id ≡ ok id
unfolding repl_id_from_bytes bytes_eq
repl_id_from_bytes-valid id (n, inr e) = rw e
repl_id_from_bytes-valid id (n, inl h) =
    let len : (length id == repl_id_len) ≡ true = ground (arith, n) in
    rw (digits-asks id n h, len, h)

slice-past :
    (xs ys : List ℕ) (n from to : ℕ)
    → length xs ≡ n
    → slice (n + from) (n + to) (xs ++ ys) ≡ slice from to ys
slice-past xs ys n from to e = rw (← e) (ap₂ take (omega arith) (drop-append_right from xs ys))

slice-first : (xs ys : List ℕ) (n : ℕ) → length xs ≡ n → slice 0 n (xs ++ ys) ≡ xs
slice-first xs ys n e =
    ap (λ i. take i (xs ++ ys)) {y = length xs} (omega (arith, e))
    ∙ (take-append_left (length xs) xs ys (omega arith) ∙ take_all (length xs) xs (omega arith))

slice-only : (xs : List ℕ) (n : ℕ) → length xs ≡ n → slice 0 n xs ≡ xs
slice-only xs n e = take_all (n - 0) xs (omega (arith, e))

-- The four fields of a record in its binary form.
module _ (h : ReplicationHistory) (v : IsValid h) where
  abbrev low : List ℕ
  low = to_le_bytes 8 h.replication_offset

  abbrev high : List ℕ
  high = to_le_bytes 8 h.replication_offset2

  slice-id : slice 1 41 (to_byte_array h) ≡ h.primary_replid
  unfolding to_byte_array
  slice-id = slice-first h.primary_replid (h.primary_replid2 ++ (low ++ high)) 40 v.id.0

  slice-id2 : slice 41 81 (to_byte_array h) ≡ h.primary_replid2
  unfolding to_byte_array
  slice-id2 =
      slice-past h.primary_replid (h.primary_replid2 ++ (low ++ high)) 40 0 40 v.id.0
      ∙ slice-first h.primary_replid2 (low ++ high) 40 v.id2.0

  slice-low : slice 81 89 (to_byte_array h) ≡ low
  unfolding to_byte_array
  slice-low =
      slice-past h.primary_replid (h.primary_replid2 ++ (low ++ high)) 40 40 48 v.id.0
      ∙ (slice-past h.primary_replid2 (low ++ high) 40 0 8 v.id2.0 ∙ slice-first low high 8 refl)

  slice-high : slice 89 97 (to_byte_array h) ≡ high
  unfolding to_byte_array
  slice-high =
      slice-past h.primary_replid (h.primary_replid2 ++ (low ++ high)) 40 48 56 v.id.0
      ∙ (slice-past h.primary_replid2 (low ++ high) 40 8 16 v.id2.0
          ∙ (slice-past low high 8 0 8 refl ∙ slice-only high 8 refl))

  length-to_byte_array : length (to_byte_array h) ≡ 97
  unfolding to_byte_array
  length-to_byte_array = omega (
    arith,
    v.id.0,
    v.id2.0,
    length-append h.primary_replid (h.primary_replid2 ++ (low ++ high)),
    length-append h.primary_replid2 (low ++ high),
  )

-- A well-formed replication history is read back from its binary form.
pub from_bytes-to_byte_array :
    (h : ReplicationHistory) → IsValid h → from_bytes (to_byte_array h) ≡ ok h
unfolding from_bytes to_byte_array
from_bytes-to_byte_array h v =
    let bytes = to_byte_array h in
    let long : ltb (length bytes) 97 ≡ false = ground (arith, length-to_byte_array h v) in
    let low_ok = from_le_bytes-to_le_bytes 8 h.replication_offset v.offset in
    let high_ok = from_le_bytes-to_le_bytes 8 h.replication_offset2 v.offset2 in
    rw (
      long,
      slice-id h v,
      repl_id_from_bytes-valid h.primary_replid v.id,
      slice-id2 h v,
      repl_id_from_bytes-valid h.primary_replid2 v.id2,
      slice-low h v,
      low_ok,
      slice-high h v,
      high_ok,
    )
