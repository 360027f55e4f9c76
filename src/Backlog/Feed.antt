-- ===== src/Backlog/Feed.antt =====
-- What `feed` of wedb_repl/src/backlog.rs leaves in the ring: the latest bytes of the stream.
use garnet_rust.Common.{
  ℕ, ◌+◌, ◌-◌, ◌≤◌, ◌<◌, ◌≡◌, refl, ap, sym, ◌∙◌, inl, inr, List, [], ◌∷◌, ◌++◌, arith, ltb, ◌==◌,
  Bool-cases, min, length, drop, length-append, length-drop, append-nil, drop-append_left,
  drop-append_past, drop-drop,
}
use garnet_rust.Backlog.{ReplicationBacklog, IsValid, ring, contents, keep_last, feed}
use garnet_rust.Backlog.Ring.{length-ring, write_ring-Wrote, feed-none, feed-over, feed-under}

pub length-contents : {b : ReplicationBacklog} → IsValid b → length (contents b) ≡ b.hist_len
length-contents {b} h =
    omega (arith, length-drop (b.capacity - b.hist_len) (ring b), length-ring h, h.history)

-- The ring `c` after `d` is written to the ring `b`.
pub record Fed (b : ReplicationBacklog) (d : List ℕ) (c : ReplicationBacklog) : Type 0 where
  pub valid : IsValid c
  pub kept : contents c ≡ keep_last b.capacity (contents b ++ d)
  pub offset : c.master_repl_offset ≡ b.master_repl_offset + length d
  pub same_capacity : c.capacity ≡ b.capacity

-- The shifted ring read from the start of the history is the end of the history and the bytes.
drop-shifted :
    (cap hist : ℕ) (r d : List ℕ)
    → length r ≡ cap
    → hist ≤ cap
    → length d < cap
    → drop (cap - min (hist + length d) cap) (drop (length d) r ++ d)
      ≡ keep_last cap (drop (cap - hist) r ++ d)
drop-shifted cap hist r d n le lt =
    let m = length d in
    let k = cap - min (hist + m) cap in
    let len : length (drop (cap - hist) r ++ d) ≡ hist + m =
      omega (arith, length-append (drop (cap - hist) r) d, length-drop (cap - hist) r) in
    let left =
      drop-append_left k (drop m r) d (omega (arith, length-drop m r))
      ∙ ap (λ x. x ++ d) (drop-drop k m r) in
    let right =
      drop-append_left (hist + m - cap) (drop (cap - hist) r) d
        (omega (arith, length-drop (cap - hist) r))
      ∙ ap (λ x. x ++ d) (drop-drop (hist + m - cap) (cap - hist) r) in
    left
    ∙ (ap (λ j. drop j r ++ d) (omega arith)
        ∙ (sym right ∙ ap (λ j. drop (j - cap) (drop (cap - hist) r ++ d)) (sym len)))

feed-under_Fed :
    {b : ReplicationBacklog}
    → IsValid b
    → (d : List ℕ) → 0 < length d
    → length d < b.capacity
    → Fed b d (feed d b)
feed-under_Fed {b} h d pos lt =
    let (n, i, r) = write_ring-Wrote h d lt in
    rw (feed-under b d pos lt) (record {
      valid = record { size = n; index = i; history = omega arith };
      kept =
          ap (drop (b.capacity - min (b.hist_len + length d) b.capacity)) r
          ∙ drop-shifted b.capacity b.hist_len (ring b) d (length-ring h) h.history lt;
      offset = refl;
      same_capacity = refl;
    })

feed-over_Fed :
    {b : ReplicationBacklog}
    → IsValid b
    → (d : List ℕ) → 0 < length d
    → b.capacity ≤ length d
    → Fed b d (feed d b)
feed-over_Fed {b} h d pos le =
    let rest = drop (length d - b.capacity) d in
    let n : length (contents b ++ d) ≡ b.hist_len + length d =
      omega (arith, length-append (contents b) d, length-contents h) in
    let past =
      drop-append_past (length (contents b ++ d) - b.capacity) (contents b) d
        (omega (arith, n, length-contents h)) in
    rw (feed-over b d pos le) (record {
      valid = record {
        size = omega (arith, length-drop (length d - b.capacity) d);
        index = omega (arith, h.index);
        history = omega arith;
      };
      kept =
          ap (λ k. drop k (rest ++ [])) {y = 0} (omega arith)
          ∙ (append-nil rest
              ∙ (ap (λ k. drop k d) (omega (arith, n, length-contents h)) ∙ sym past));
      offset = refl;
      same_capacity = refl;
    })

feed-none_Fed :
    {b : ReplicationBacklog} → IsValid b → (d : List ℕ) → length d ≡ 0 → Fed b d (feed d b)
feed-none_Fed {b} h [] e = rw (feed-none b [] e) (record {
  valid = h;
  kept = sym (
      ap (λ xs. drop (length xs - b.capacity) xs) (append-nil (contents b))
      ∙ ap (λ k. drop k (contents b)) {y = 0} (omega (arith, length-contents h, h.history)));
  offset = omega arith;
  same_capacity = refl;
})
feed-none_Fed h (x ∷ d) e = absurd (omega arith)

-- On a valid ring, `feed` leaves a valid ring of the same capacity whose history is the last
-- `capacity` bytes of the old history followed by the data, and advances the master offset by the
-- length of the data.
pub feed_lem : {b : ReplicationBacklog} → IsValid b → (d : List ℕ) → Fed b d (feed d b)
feed_lem {b} h d = elim (Bool-cases (length d == 0)) [
  | inl z ↦ feed-none_Fed h d (ground arith)
  | inr nz ↦ elim (Bool-cases (ltb (length d) b.capacity)) [
    | inl lt ↦ feed-under_Fed h d (ground arith) (ground arith)
    | inr ge ↦ feed-over_Fed h d (ground arith) (ground arith)
  ]
]
