-- ===== src/Backlog/Slices.antt =====
-- What `slices` of wedb_repl/src/backlog.rs gives of the ring, on either side of the end of the buffer.
use garnet_rust.Common.{
  ℕ, zero, suc, ◌+◌, ◌-◌, ◌%◌, ◌≤◌, ◌<◌, ◌≡◌, refl, ap, ap₂, sym, ◌∙◌, inl, inr, List, [], ◌∷◌,
  ◌++◌, arith, leb, ◌==◌, true, Bool-cases, min, length, take, drop, length-drop, append-nil,
  drop-append_left, drop-append_past, drop-drop, take-append_left, take-append_past, take_all,
  take-drop-take, take-nil,
}
use native.Mathlib.Nat.{mod-eq_of_lt, add-mod_right}
use garnet_rust.Backlog.{ReplicationBacklog, IsValid, ring, slices, read_bytes, is_offset_in_range}
use garnet_rust.Backlog.Ring.{length-ring}

module _ {ℓ} {A : Type ℓ} where
  take-min : (n k : ℕ) (xs : List A) → length xs ≡ k → take (min n k) xs ≡ take n xs
  take-min zero k xs e = ap (λ j. take j xs) {y = 0} (omega arith)
  take-min (suc n) k [] e = take-nil (min (suc n) k)
  take-min (suc n) zero (x ∷ xs) e = absurd (omega arith)
  take-min (suc n) (suc k) (x ∷ xs) e =
      ap (λ j. take j (x ∷ xs)) {y = suc (min n k)} (omega arith)
      ∙ ap (◌∷◌ x) (take-min n k xs (omega arith))

  empty-append : (xs ys : List A) → length xs + length ys ≡ 0 → xs ++ ys ≡ []
  empty-append [] [] e = refl
  empty-append [] (y ∷ ys) e = absurd (omega arith)
  empty-append (x ∷ xs) ys e = absurd (omega arith)

abbrev pub joined : List ℕ × List ℕ → List ℕ
joined p = p.0 ++ p.1

pub read_bytes-joined :
    (b : ReplicationBacklog) (off n : ℕ) → read_bytes b off n ≡ joined (slices b off n)
unfolding read_bytes
read_bytes-joined b off n =
    let (s1, s2) = slices b off n in
    elim (Bool-cases (length s1 + length s2 == 0)) [
      | inl e ↦ rw e (sym (empty-append s1 s2 (ground arith)))
      | inr e ↦ rw e
    ]

-- The ring read from `k` bytes before the write index, when these go round the end of the buffer.
slices-round :
    {b : ReplicationBacklog}
    → IsValid b
    → (k n : ℕ) → n ≤ k
    → k ≤ b.capacity
    → b.write_idx < k
    → take n (drop (b.capacity - k) (ring b))
      ≡ take n (drop (b.write_idx + b.capacity - k) b.buf) ++ take (n - (k - b.write_idx)) b.buf
slices-round {b} h k n le hk lt =
    let s = b.write_idx + b.capacity - k in
    let front : drop (b.capacity - k) (ring b) ≡ drop s b.buf ++ take b.write_idx b.buf =
      drop-append_left (b.capacity - k) (drop b.write_idx b.buf) (take b.write_idx b.buf)
        (omega (arith, length-drop b.write_idx b.buf, h.size, h.index))
      ∙ ap (λ x. x ++ take b.write_idx b.buf)
          (drop-drop (b.capacity - k) b.write_idx b.buf ∙ ap (λ j. drop j b.buf) (omega arith)) in
    let len : length (drop s b.buf) ≡ k - b.write_idx =
      omega (arith, length-drop s b.buf, h.size, h.index) in
    elim (Bool-cases (leb n (k - b.write_idx))) [
      | inl short ↦
          ap (take n) front
          ∙ (take-append_left n (drop s b.buf) (take b.write_idx b.buf) (ground (arith, len))
              ∙ sym (
                  ap (λ j. take n (drop s b.buf) ++ take j b.buf) {y = 0} (ground arith)
                  ∙ append-nil (take n (drop s b.buf))))
      | inr long ↦
          ap (take n) front
          ∙ (take-append_past n (drop s b.buf) (take b.write_idx b.buf) (ground (arith, len))
              ∙ ap₂ (◌++◌) (sym (take_all n (drop s b.buf) (ground (arith, len)))) (
                  ap (λ j. take (n - j) (take b.write_idx b.buf)) len
                  ∙ take-drop-take 0 b.write_idx (n - (k - b.write_idx)) b.buf (omega arith)))
    ]

slices-straight :
    {b : ReplicationBacklog}
    → IsValid b
    → (k n : ℕ) → n ≤ k
    → k ≤ b.write_idx
    → take n (drop (b.capacity - k) (ring b)) ≡ take n (drop (b.write_idx - k) b.buf)
slices-straight {b} h k n le hk =
    ap (take n) (
      drop-append_past (b.capacity - k) (drop b.write_idx b.buf) (take b.write_idx b.buf)
        (omega (arith, length-drop b.write_idx b.buf, h.size, h.index))
      ∙ ap (λ j. drop j (take b.write_idx b.buf))
          (omega (arith, length-drop b.write_idx b.buf, h.size, h.index)))
    ∙ take-drop-take (b.write_idx - k) b.write_idx n b.buf (omega arith)

pub slices_lem :
    {b : ReplicationBacklog}
    → IsValid b
    → (off n : ℕ) → is_offset_in_range b off ≡ true
    → b.master_repl_offset - off ≤ b.hist_len
    → joined (slices b off n) ≡ take n (drop (b.capacity - (b.master_repl_offset - off)) (ring b))
unfolding slices
slices_lem {b} h off n inside le =
    let k = b.master_repl_offset - off in
    let m = min n k in
    let t = drop (b.capacity - k) (ring b) in
    let lt : length t ≡ k =
      omega (arith, length-drop (b.capacity - k) (ring b), length-ring h, h.history) in
    let whole : take n t ≡ take m t = sym (take-min n k t lt) in
    elim (Bool-cases (n == 0)) [
      | inl z ↦ rw z (sym (ap (λ j. take j t) {y = 0} (ground arith)))
      | inr nz ↦ elim (Bool-cases (m == 0)) [
        | inl mz ↦ rw (nz, inside, mz) (sym (whole ∙ ap (λ j. take j t) {y = 0} (ground arith)))
        | inr mnz ↦ elim (Bool-cases (leb k b.write_idx)) [
          | inl straight ↦
              let st : (b.write_idx + b.capacity - k) % b.capacity ≡ b.write_idx - k =
                ap (λ j. j % b.capacity) {y = b.write_idx - k + b.capacity} (ground arith)
                ∙ (add-mod_right (b.write_idx - k) b.capacity
                    ∙ mod-eq_of_lt (omega (arith, h.index))) in
              let fits : leb m (b.capacity - (b.write_idx - k)) ≡ true = ground (arith, h.index) in
              rw (nz, inside, mnz, st, fits)
                (append-nil
                    (take (b.write_idx - k + m - (b.write_idx - k)) (drop (b.write_idx - k) b.buf))
                  ∙ (ap (λ j. take j (drop (b.write_idx - k) b.buf)) (omega arith)
                      ∙ sym (whole ∙ slices-straight h k m (omega arith) (ground arith))))
          | inr round ↦
              let st : (b.write_idx + b.capacity - k) % b.capacity ≡ b.write_idx + b.capacity - k =
                mod-eq_of_lt (ground (arith, h.index)) in
              let s = b.write_idx + b.capacity - k in
              let around =
                slices-round h k m (omega arith) (omega (arith, h.history)) (ground arith) in
              elim (Bool-cases (leb m (b.capacity - s))) [
                | inl fits ↦
                    rw (nz, inside, mnz, st, fits)
                      (ap₂ (λ i j. take i (drop s b.buf) ++ take j b.buf) {u = 0}
                          {v = m - (k - b.write_idx)} (omega arith) (ground (arith, h.history))
                        ∙ sym (whole ∙ around))
                | inr over ↦
                    rw (nz, inside, mnz, st, over)
                      (ap₂ (λ x j. x ++ take j b.buf) {v = m - (k - b.write_idx)}
                          (sym (
                            take_all m (drop s b.buf)
                              (ground (arith, length-drop s b.buf, h.size))))
                          (ground (arith, h.history))
                        ∙ sym (whole ∙ around))
              ]
        ]
      ]
    ]
