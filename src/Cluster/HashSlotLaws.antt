-- ===== src/Cluster/HashSlotLaws.antt =====
-- The rule of hash tags in wedb_cluster/src/slot.rs.
use garnet_rust.Common.{
  ℕ, ◌+◌, ◌%◌, ◌<◌, ◌≡◌, refl, ap, sym, ◌∙◌, List, [], ◌∷◌, ◌++◌, Option, none, some, Bool, true,
  ltb, ◌==◌, not, arith, length, drop, all, position, drop-append_right, take-append_left, take_all,
}
use garnet_rust.Cluster.Slot.{total_hash_slots, crc16, hashed_part, hash_slot}

-- No byte of the list is this one.
abbrev pub free_of : ℕ → List ℕ → Bool
free_of b xs = all (λ x. not (x == b)) xs

position-none : (b : ℕ) (xs : List ℕ) → free_of b xs ≡ true → position (λ x. x == b) xs ≡ none
unfolding position
position-none b [] h = refl
position-none b (x ∷ xs) h = ground (arith, position-none b xs, h)

position-first :
    (b : ℕ) (xs ys : List ℕ)
    → free_of b xs ≡ true
    → position (λ x. x == b) (xs ++ b ∷ ys) ≡ some (length xs)
unfolding position
position-first b [] ys h = let same : (b == b) ≡ true = ground arith in rw same
position-first b (x ∷ xs) ys h =
    let ih = position-first b xs ys (ground (arith, h)) in ground (arith, ih, h)

-- `memchr` finds the first place of a byte.
module _ (memchr : ℕ → List ℕ → Option ℕ)
    (finds : (b : ℕ) (xs : List ℕ) → memchr b xs ≡ position (λ x. x == b) xs) where
  hashed_part-tag :
      (before tag after : List ℕ)
      → free_of 123 before ≡ true
      → free_of 125 tag ≡ true
      → 0 < length tag
      → hashed_part memchr (before ++ 123 ∷ (tag ++ 125 ∷ after)) ≡ tag
  unfolding hashed_part
  hashed_part-tag before tag after h h' some_tag =
      let key = before ++ 123 ∷ (tag ++ 125 ∷ after) in
      let start : memchr 123 key ≡ some (length before) =
        finds 123 key ∙ position-first 123 before (tag ++ 125 ∷ after) h in
      let rest : drop (length before + 1) key ≡ tag ++ 125 ∷ after =
        drop-append_right 1 before (123 ∷ (tag ++ 125 ∷ after)) in
      let close : memchr 125 (tag ++ 125 ∷ after) ≡ some (length tag) =
        finds 125 (tag ++ 125 ∷ after) ∙ position-first 125 tag after h' in
      let nonempty : ltb 0 (length tag) ≡ true = ground arith in
      rw (start, hashed_part, rest, close, nonempty)
        (take-append_left (length tag) tag (125 ∷ after) (omega arith)
          ∙ take_all (length tag) tag (omega arith))

  hashed_part-untagged : (key : List ℕ) → free_of 123 key ≡ true → hashed_part memchr key ≡ key
  unfolding hashed_part
  hashed_part-untagged key h = rw (finds 123 key ∙ position-none 123 key h, hashed_part)

  -- With a `memchr` that finds the first place of a byte, a key whose first opening brace starts a
  -- tag that is not empty and holds no brace goes to the slot of the tag itself, whatever stands
  -- before and after; so all keys with one tag go to one slot.
  pub hash_slot-tag :
      (before tag after : List ℕ)
      → free_of 123 before ≡ true
      → free_of 123 tag ≡ true
      → free_of 125 tag ≡ true
      → 0 < length tag
      → hash_slot memchr (before ++ 123 ∷ (tag ++ 125 ∷ after)) ≡ hash_slot memchr tag
  unfolding hash_slot
  hash_slot-tag before tag after h h' h'' some_tag =
      ap (λ bytes. crc16 bytes % total_hash_slots)
        (hashed_part-tag before tag after h h'' some_tag ∙ sym (hashed_part-untagged tag h'))
