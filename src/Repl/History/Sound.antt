-- ===== src/Repl/History/Sound.antt =====
-- What `from_bytes` of wedb_repl/src/history.rs accepts is well-formed, and it is what `to_byte_array`
-- writes; a new identity is well-formed.
use garnet_rust.Common.{
  ℕ, zero, suc, ◌+◌, ◌-◌, ◌*◌, ◌/◌, ◌%◌, ◌^◌, ◌≤◌, ◌<◌, ◌≡◌, refl, ap, ap₂, sym, ◌∙◌, inl, inr,
  List, [], ◌∷◌, ◌++◌, true, false, ltb, ◌==◌, arith, Bool-cases, ==_iff, length, take, drop, all,
  replicate, bytes_eq, bytes_eq_iff, length-take, length-drop, drop-drop, take-nil,
}
use garnet_rust.Common.Result.{ok, err, Result-cases}
use garnet_rust.Common.Bytes.{
  to_le_bytes, from_le_bytes, all_bytes, to_le_bytes-from_le_bytes, from_le_bytes-lt,
  all_bytes-take, all_bytes-drop,
}
use garnet_rust.Backlog.{slice}
use garnet_rust.Repl.History.{
  Error, ReplId, repl_id_len, question_mark, is_ascii_hexdigit, repl_id_from_bytes, generate,
  hex_char, ReplicationHistory, to_byte_array, from_bytes, IsReplId, IsValid, checked_history,
  history_of,
}

all_same :
    (n : ℕ) (xs : List ℕ) → length xs ≡ n → all (λ b. b == 63) xs ≡ true → xs ≡ replicate n 63
all_same zero [] e h = refl
all_same zero (x ∷ xs) e h = absurd (omega (arith, e))
all_same (suc n) [] e h = absurd (omega (arith, e))
all_same (suc n) (x ∷ xs) e h =
    let first : x ≡ 63 = ground (arith, h) in
    let rest : all (λ b. b == 63) xs ≡ true = ground (arith, h) in
    ap₂ ◌∷◌ first (all_same n xs (omega (arith, e)) rest)

repl_id_from_bytes-ok :
    (s : List ℕ) {id : ReplId}
    → length s ≡ repl_id_len
    → repl_id_from_bytes s ≡ ok id
    → (id ≡ s) × IsReplId s
unfolding repl_id_from_bytes
repl_id_from_bytes-ok s {id} n h =
    let len : (length s == repl_id_len) ≡ true = ground (arith, n) in
    elim (Bool-cases (bytes_eq s (63 ∷ []))) [
      | inl one ↦ absurd (omega (arith, n, ap length ((bytes_eq_iff s (63 ∷ [])).0 one)))
      | inr several ↦ elim (Bool-cases (all (λ b. b == 63) s)) [
        | inl any ↦
            let e = all_same 40 s n any in
            let got : question_mark ≡ id = ground (arith, h, several, len, any) in
            (sym got ∙ sym e, (n, inr e))
        | inr not_any ↦ elim (Bool-cases (all is_ascii_hexdigit s)) [
          | inl hex ↦
              let got : s ≡ id = ground (arith, h, several, len, not_any, hex) in
              (sym got, (n, inl hex))
          | inr other ↦ absurd (ground (arith, h, several, len, not_any, other))
        ]
      ]
    ]

take-plus : (a b : ℕ) (xs : List ℕ) → take (a + b) xs ≡ take a xs ++ take b (drop a xs)
take-plus zero b xs = ap (λ i. take i xs) (omega arith)
take-plus (suc a) b [] = take-nil (suc a + b) ∙ sym (take-nil b)
take-plus (suc a) b (x ∷ xs) =
    let e : suc a + b ≡ suc (a + b) = omega arith in rw e (ap (◌∷◌ x) (take-plus a b xs))

slice-join : (a b c : ℕ) (xs : List ℕ) → a ≤ b → b ≤ c → slice a b xs ++ slice b c xs ≡ slice a c xs
slice-join a b c xs le le' =
    let whole : c - a ≡ (b - a) + (c - b) = omega arith in
    let skip : b ≡ a + (b - a) = omega arith in
    rw whole (
      ap (λ i. take (b - a) (drop a xs) ++ take (c - b) (drop i xs)) skip
      ∙ (ap (λ zs. take (b - a) (drop a xs) ++ take (c - b) zs) (sym (drop-drop (b - a) a xs))
          ∙ sym (take-plus (b - a) (c - b) (drop a xs))))

length-slice : (a b : ℕ) (xs : List ℕ) → a ≤ b → b ≤ length xs → length (slice a b xs) ≡ b - a
length-slice a b xs le le' = omega (arith, length-take (b - a) (drop a xs), length-drop a xs)

module _ (bytes : List ℕ) (long : 97 ≤ length bytes) (small : all_bytes bytes ≡ true) where
  offset-lt : (a : ℕ) → a + 8 ≤ 97 → from_le_bytes (slice a (a + 8) bytes) < 2 ^ 64
  offset-lt a le =
      let bs = slice a (a + 8) bytes in
      let n : length bs ≡ 8 =
        length-slice a (a + 8) bytes (omega arith) (omega arith) ∙ omega arith in
      let lt =
        from_le_bytes-lt bs
          (all_bytes-take (a + 8 - a) (drop a bytes) (all_bytes-drop a bytes small)) in
      rw n at lt

  offset-bytes :
      (a : ℕ)
      → a + 8 ≤ 97
      → to_le_bytes 8 (from_le_bytes (slice a (a + 8) bytes)) ≡ slice a (a + 8) bytes
  offset-bytes a le =
      let bs = slice a (a + 8) bytes in
      let n : length bs ≡ 8 =
        length-slice a (a + 8) bytes (omega arith) (omega arith) ∙ omega arith in
      ap (λ w. to_le_bytes w (from_le_bytes bs)) (sym n)
      ∙ to_le_bytes-from_le_bytes bs
          (all_bytes-take (a + 8 - a) (drop a bytes) (all_bytes-drop a bytes small))

  id_at :
      (a : ℕ) (id : ReplId)
      → a + 40 ≤ 97
      → repl_id_from_bytes (slice a (a + 40) bytes) ≡ ok id
      → (id ≡ slice a (a + 40) bytes) × IsReplId (slice a (a + 40) bytes)
  id_at a id le e =
      repl_id_from_bytes-ok (slice a (a + 40) bytes)
        (length-slice a (a + 40) bytes (omega arith) (omega arith) ∙ omega arith) e

  checked_history-ok :
      (h : ReplicationHistory)
      → checked_history bytes ≡ ok h
      → IsValid h × (to_byte_array h ≡ 1 ∷ slice 1 97 bytes)
  unfolding to_byte_array
  checked_history-ok h e = elim (Result-cases (repl_id_from_bytes (slice 1 41 bytes))) [
    | inr (f, x) ↦ absurd (ground (arith, rw x at e))
    | inl (id1, x) ↦ elim (Result-cases (repl_id_from_bytes (slice 41 81 bytes))) [
      | inr (f, y) ↦ absurd (ground (arith, rw (x, y) at e))
      | inl (id2, y) ↦
          let got : history_of bytes id1 id2 ≡ h = ground (arith, rw (x, y) at e) in
          let (a, v) = id_at 1 id1 (omega arith) x in
          let (b, w) = id_at 41 id2 (omega arith) y in
          rw (← got, a, b)
            (
              record {
                id = v;
                id2 = w;
                offset = offset-lt 81 (omega arith);
                offset2 = offset-lt 89 (omega arith);
              },
              ap (◌∷◌ 1) (
                  ap₂ (λ i j. slice 1 41 bytes ++ (slice 41 81 bytes ++ (i ++ j)))
                    (offset-bytes 81 (omega arith)) (offset-bytes 89 (omega arith))
                  ∙ (ap (λ zs. slice 1 41 bytes ++ (slice 41 81 bytes ++ zs))
                        (slice-join 81 89 97 bytes (omega arith) (omega arith))
                      ∙ (ap (λ zs. slice 1 41 bytes ++ zs)
                            (slice-join 41 81 97 bytes (omega arith) (omega arith))
                          ∙ slice-join 1 41 97 bytes (omega arith) (omega arith)))),
            )
    ]
  ]

err≢ok : {f : Error} {h : ReplicationHistory} → ¬ (err f ≡ ok h)
err≢ok e = cc

not_short : (n : ℕ) → ltb n 97 ≡ false → 97 ≤ n
not_short n e = ground arith

-- A history that `from_bytes` accepts from any bytes is well-formed, and its binary form is the
-- first 97 of these bytes.
pub from_bytes-ok :
    (bytes : List ℕ) (h : ReplicationHistory)
    → all_bytes bytes ≡ true
    → from_bytes bytes ≡ ok h
    → IsValid h × (to_byte_array h ≡ take 97 bytes)
unfolding from_bytes
from_bytes-ok [] h small e = absurd (err≢ok e)
from_bytes-ok (version ∷ rest) h small e = elim (Bool-cases (ltb (length (version ∷ rest)) 97)) [
  | inl short ↦ let refused = rw short at e in absurd (err≢ok refused)
  | inr long ↦ elim (Bool-cases (version == 1)) [
    | inr other ↦ let refused = rw (long, other) at e in absurd (err≢ok refused)
    | inl known ↦
        let one : version ≡ 1 = (==_iff version 1).0 known in
        let checked : checked_history (version ∷ rest) ≡ ok h = rw (long, known) at e in
        let (v, w) =
          checked_history-ok (version ∷ rest) (not_short (length (version ∷ rest)) long) small h
            checked in
        (v, w ∙ ap (λ b. b ∷ take 96 rest) (sym one))
  ]
]

-- Both digits of a byte are hexadecimal.
hex_char-digit : (d : ℕ) → d < 16 → is_ascii_hexdigit (hex_char d) ≡ true
hex_char-digit d lt = elim (Bool-cases (ltb d 10)) [
  | inl low ↦ rw low (ground arith)
  | inr high ↦ rw high (ground arith)
]

generate-digits :
    (bs : List ℕ)
    → all_bytes bs ≡ true
    → (length (generate bs) ≡ 2 * length bs) × (all is_ascii_hexdigit (generate bs) ≡ true)
unfolding generate
generate-digits [] small = (omega arith, refl)
generate-digits (b ∷ bs) small =
    let byte : b < 256 = ground (arith, small) in
    let rest : all_bytes bs ≡ true = ground (arith, small) in
    let (n, h) = generate-digits bs rest in
    let high = hex_char-digit (b / 16) (omega (arith, byte)) in
    let low = hex_char-digit (b % 16) (omega arith) in (omega (arith, n), rw (high, low) h)

pub generate-IsReplId :
    (rand_bytes : List ℕ)
    → length rand_bytes ≡ 20
    → all_bytes rand_bytes ≡ true
    → IsReplId (generate rand_bytes)
generate-IsReplId rand_bytes n small =
    let (len, h) = generate-digits rand_bytes small in (omega (arith, n, len), inl h)
