-- ===== src/Backlog/Read.antt =====
-- What `read_bytes` of wedb_repl/src/backlog.rs reads of the history, and of the bytes just fed.
use garnet_rust.Common.{
  ℕ, ◌+◌, ◌-◌, ◌≤◌, ◌<◌, ◌≡◌, ap, ap₂, sym, ◌∙◌, inl, inr, List, [], ◌++◌, arith, leb, ◌==◌, true,
  false, Bool-cases, if◌then◌else◌, length, take, drop, length-append, length-drop,
  drop-append_past, Bool, ◌&&◌, ◌∷◌, refl, drop-nil, drop-drop, List-cases, take-nil,
}
use garnet_rust.Backlog.{
  ReplicationBacklog, IsValid, ring, contents, keep_last, slices, read_bytes, feed,
  is_offset_in_range,
}
use garnet_rust.Backlog.Feed.{length-contents, feed_lem}
use garnet_rust.Backlog.Slices.{joined, read_bytes-joined, slices_lem}

range-hist :
    (b : ReplicationBacklog) (off : ℕ)
    → is_offset_in_range b off ≡ true
    → b.master_repl_offset - off ≤ b.hist_len
unfolding is_offset_in_range
range-hist b off e = ground arith

contents-back :
    {b : ReplicationBacklog}
    → IsValid b
    → (k : ℕ) → k ≤ b.hist_len
    → drop (b.capacity - k) (ring b) ≡ keep_last k (contents b)
contents-back {b} h k le = sym (
    drop-drop (length (contents b) - k) (b.capacity - b.hist_len) (ring b)
    ∙ ap (λ j. drop j (ring b)) (omega (arith, length-contents h, h.history)))

slices-outside :
    (b : ReplicationBacklog) (off n : ℕ)
    → is_offset_in_range b off ≡ false
    → slices b off n ≡ ([], [])
unfolding slices
slices-outside b off n e = elim (Bool-cases (n == 0)) [ inl z ↦ rw z | inr nz ↦ rw (nz, e) ]

-- The history ends at the master offset, and an offset is of the history from its first byte to its end.
abbrev pub of_history : ReplicationBacklog → ℕ → Bool
of_history b off =
    leb b.master_repl_offset (off + length (contents b)) && leb off b.master_repl_offset

of_history-in_range :
    {b : ReplicationBacklog}
    → IsValid b
    → (off : ℕ) → is_offset_in_range b off ≡ true
    → of_history b off ≡ true
unfolding is_offset_in_range
of_history-in_range {b} h off e =
    let n = length-contents h in
    let lo : leb b.master_repl_offset (off + length (contents b)) ≡ true = ground (arith, n) in
    let hi : leb off b.master_repl_offset ≡ true = ground arith in rw (lo, hi)

-- Outside the range of the code there is nothing to read: either the offset is not of the history, or
-- the history is empty.
nothing-outside :
    {b : ReplicationBacklog}
    → IsValid b
    → (off n : ℕ) → is_offset_in_range b off ≡ false
    → (if of_history b off
        then take n (keep_last (b.master_repl_offset - off) (contents b))
        else [])
      ≡ []
unfolding is_offset_in_range
nothing-outside {b} h off n e = elim (Bool-cases (b.hist_len == 0)) [
  | inl z ↦
      let none_kept : contents b ≡ [] =
        empty_list (contents b) (ground (arith, length-contents h)) in
      let k = b.master_repl_offset - off in
      let gone : take n (keep_last k (contents b)) ≡ [] =
        ap (λ xs. take n (keep_last k xs)) none_kept
        ∙ (ap (take n) (drop-nil (0 - k)) ∙ take-nil n) in
      elim (Bool-cases (of_history b off)) [ inl y ↦ rw y gone | inr x ↦ rw x ]
  | inr nz ↦ let out : of_history b off ≡ false = ground (arith, length-contents h) in rw out
]
  where
    empty_list : (xs : List ℕ) → length xs ≡ 0 → xs ≡ []
    empty_list [] e = refl
    empty_list (x ∷ xs) e = absurd (omega arith)

-- On a valid ring, `read_bytes` at an offset of the history, which ends at the master offset and
-- starts as many bytes before it as the ring keeps, gives the first `n` bytes of the history from
-- that offset on, and at any other offset nothing.
pub read_bytes_lem :
    {b : ReplicationBacklog}
    → IsValid b
    → (off n : ℕ)
    → read_bytes b off n ≡ (
        if of_history b off
        then take n (keep_last (b.master_repl_offset - off) (contents b))
        else [])
read_bytes_lem {b} h off n = elim (Bool-cases (is_offset_in_range b off)) [
  | inl inside ↦ rw (of_history-in_range h off inside) (
      read_bytes-joined b off n
      ∙ (slices_lem h off n inside (range-hist b off inside)
          ∙ ap (take n) (contents-back h (b.master_repl_offset - off) (range-hist b off inside))))
  | inr outside ↦
      read_bytes-joined b off n
      ∙ (ap joined (slices-outside b off n outside) ∙ sym (nothing-outside h off n outside))
]

keep_last-keep_last-append :
    (cap : ℕ) (xs d : List ℕ) → length d ≤ cap → keep_last (length d) (keep_last cap (xs ++ d)) ≡ d
keep_last-keep_last-append cap xs d le =
    let n = length-append xs d in
    let k = length (xs ++ d) - cap in
    let last =
      drop-append_past (length xs) xs d (omega arith) ∙ ap (λ j. drop j d) {y = 0} (omega arith) in
    drop-drop (length (drop k (xs ++ d)) - length d) k (xs ++ d)
    ∙ (ap (λ j. drop j (xs ++ d)) (omega (arith, n, length-drop k (xs ++ d))) ∙ last)

fed-in_range :
    (c : ReplicationBacklog) (off m : ℕ)
    → c.master_repl_offset ≡ off + m
    → m ≤ c.hist_len
    → 0 < m
    → is_offset_in_range c off ≡ true
unfolding is_offset_in_range
fed-in_range c off m e le pos =
    let nz : (c.hist_len == 0) ≡ false = ground arith in
    let lo : leb (c.master_repl_offset - c.hist_len) off ≡ true = ground arith in
    let hi : leb off c.master_repl_offset ≡ true = ground arith in rw (nz, lo, hi)

-- On a valid ring, the bytes just fed, no more than the capacity, are read back from the old master
-- offset: the first `n` of them, for every `n`.
pub read_bytes-feed :
    {b : ReplicationBacklog}
    → IsValid b
    → (d : List ℕ) → length d ≤ b.capacity
    → (n : ℕ) → read_bytes (feed d b) b.master_repl_offset n ≡ take n d
read_bytes-feed {b} h d le n =
    let c = feed d b in
    let fed = feed_lem h d in
    let long : length d ≤ c.hist_len = omega (
      arith,
      length-contents fed.valid,
      ap length fed.kept,
      length-append (contents b) d,
      length-drop (length (contents b ++ d) - b.capacity) (contents b ++ d),
    ) in
    let dist : c.master_repl_offset - b.master_repl_offset ≡ length d = omega (arith, fed.offset) in
    elim (Bool-cases (is_offset_in_range c b.master_repl_offset)) [
      | inl inside ↦
          read_bytes_lem fed.valid b.master_repl_offset n
          ∙ (rw (of_history-in_range fed.valid b.master_repl_offset inside) (
              ap (take n) (
                ap₂ keep_last dist fed.kept
                ∙ keep_last-keep_last-append b.capacity (contents b) d le)))
      | inr outside ↦ elim (List-cases d) [
        | inl e ↦
            read_bytes_lem fed.valid b.master_repl_offset n
            ∙ (nothing-outside fed.valid b.master_repl_offset n outside ∙ rw e (sym (take-nil n)))
        | inr (x, xs, e) ↦
            let pos : 0 < length d = omega (arith, ap length e) in
            absurd
              (ground (arith, fed-in_range c b.master_repl_offset (length d) fed.offset long pos))
      ]
    ]
