-- ===== src/Cluster/BitmapLaws.antt =====
-- The bitmap of wedb_cluster/src/slot.rs as a set of slots.
use garnet_rust.Common.{
  ℕ, zero, suc, ◌+◌, ◌/◌, ◌%◌, ◌^◌, ◌<◌, ◌≡◌, ap, sym, ◌∙◌, inl, inr, true, false, ltb, leb, ◌==◌,
  ◌&&◌, ◌||◌, arith, Bool-cases, length, get_or, get_or-set_same, get_or-set_other, length-set,
  ==_iff,
}
use native.Mathlib.Nat.{pow-suc, div-div-eq-div-mul}
use garnet_rust.Cluster.Slot.{
  SlotBitmap, total_hash_slots, slot_words, test_bit, set_bit, is_set, set_slot,
}

-- The halves of a word carry its bits.
test_bit-suc : (w i : ℕ) → test_bit w (suc i) ≡ test_bit (w / 2) i
test_bit-suc w i =
    ap (λ n. n % 2 == 1)
      (ap (λ k. w / k) (pow-suc 2 i ∙ omega arith) ∙ sym (div-div-eq-div-mul w 2 (2 ^ i)))

test_bit-zero : (w : ℕ) → test_bit w 0 ≡ (w % 2 == 1)
test_bit-zero w = ap (λ n. n % 2 == 1) {y = w} (omega arith)

-- Adding the power of a bit that is 0 sets that bit and no other.
test_bit-add :
    (i w j : ℕ) → test_bit w i ≡ false → test_bit (w + 2 ^ i) j ≡ (i == j) || test_bit w j
test_bit-add zero w zero e =
    let even : w % 2 ≡ 0 = ground (arith, test_bit-zero w, e) in
    test_bit-zero (w + 2 ^ 0) ∙ ground (arith, even)
test_bit-add zero w (suc j) e =
    let even : w % 2 ≡ 0 = ground (arith, test_bit-zero w, e) in
    let half : (w + 1) / 2 ≡ w / 2 = omega (arith, even) in
    let other : (0 == suc j) ≡ false = ground arith in
    rw other (test_bit-suc (w + 1) j ∙ (ap (λ v. test_bit v j) half ∙ sym (test_bit-suc w j)))
test_bit-add (suc i) w zero e =
    let p = pow-suc 2 i in
    let low : (w + 2 ^ suc i) % 2 ≡ w % 2 = omega (arith, p) in
    let other : (suc i == 0) ≡ false = ground arith in
    rw other (test_bit-zero (w + 2 ^ suc i) ∙ (ap (λ v. v == 1) low ∙ sym (test_bit-zero w)))
test_bit-add (suc i) w (suc j) e =
    let p = pow-suc 2 i in
    let half : (w + 2 ^ suc i) / 2 ≡ w / 2 + 2 ^ i = omega (arith, p) in
    let both : (suc i == suc j) ≡ (i == j) = ground arith in
    test_bit-suc (w + 2 ^ suc i) j
    ∙ (ap (λ v. test_bit v j) half
        ∙ (test_bit-add i (w / 2) j (sym (test_bit-suc w i) ∙ e)
            ∙ (ap (λ b. (i == j) || b) (sym (test_bit-suc w j))
                ∙ ap (λ b. b || test_bit w (suc j)) (sym both))))

test_bit-set_bit : (w i j : ℕ) → test_bit (set_bit w i) j ≡ (i == j) || test_bit w j
test_bit-set_bit w i j = elim (Bool-cases (test_bit w i)) [
  | inr n ↦ rw n (test_bit-add i w j n)
  | inl y ↦ elim (Bool-cases (i == j)) [
    | inl same ↦ let e = (==_iff i j).0 same in rw (y, same) (rw (← e) y)
    | inr other ↦ rw (y, other)
  ]
]

-- A bitmap with as many words as the code gives it.
abbrev pub IsValid : SlotBitmap → Type 0
IsValid b = length b.bits ≡ slot_words

pub set_slot-IsValid : (b : SlotBitmap) (s : ℕ) → IsValid b → IsValid (set_slot b s)
unfolding set_slot
set_slot-IsValid b s v = elim (Bool-cases (ltb s total_hash_slots)) [
  | inl y ↦ rw y (length-set b.bits (s / 64) (set_bit (get_or b.bits (s / 64) 0) (s % 64)) ∙ v)
  | inr n ↦ rw n v
]

same_place : (s t : ℕ) → (s / 64 == t / 64) ≡ true → (s % 64 == t % 64) ≡ (s == t)
same_place s t e = ground arith

other_place : (s t : ℕ) → (s / 64 == t / 64) ≡ false → (s == t) ≡ false
other_place s t e = ground arith

pub is_set-set_slot :
    (b : SlotBitmap) (s t : ℕ)
    → IsValid b
    → is_set (set_slot b s) t ≡ (ltb s total_hash_slots && (s == t)) || is_set b t
unfolding is_set set_slot
is_set-set_slot b s t v = elim (Bool-cases (ltb s total_hash_slots)) [
  | inr n ↦ rw n
  | inl y ↦ elim (Bool-cases (leb total_hash_slots t)) [
    | inl past ↦ let other : (s == t) ≡ false = ground arith in rw (y, past, other)
    | inr inside ↦ elim (Bool-cases (s / 64 == t / 64)) [
      | inl same ↦
          let e = (==_iff (s / 64) (t / 64)).0 same in
          let w = get_or b.bits (s / 64) 0 in
          let lt : s / 64 < length b.bits = ground (arith, v) in
          rw (y, inside, ← e, get_or-set_same b.bits (s / 64) (set_bit w (s % 64)) 0 lt)
            (test_bit-set_bit w (s % 64) (t % 64)
              ∙ ap (λ c. c || test_bit w (t % 64)) (same_place s t same))
      | inr apart ↦
          let w = get_or b.bits (s / 64) 0 in
          rw (
            y,
            inside,
            get_or-set_other b.bits (s / 64) (t / 64) (set_bit w (s % 64)) 0 apart,
            other_place s t apart,
          )
    ]
  ]
]
