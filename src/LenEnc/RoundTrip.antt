-- ===== src/LenEnc/RoundTrip.antt =====
-- Lengths written by wedb_resp/src/len_enc.rs are read back.
use garnet_rust.Common.{
  ℕ, ◌+◌, ◌-◌, ◌*◌, ◌/◌, ◌%◌, ◌^◌, ◌≤◌, ◌<◌, ◌≡◌, refl, ap, inl, inr, List, [], ◌∷◌, ◌++◌, true,
  false, ltb, ◌==◌, if◌then◌else◌, length, drop, arith, Bool-cases, drop-prefix,
}
use garnet_rust.Common.Result.{ok, err}
use garnet_rust.Common.Int.{pos, negsuc, to_i64}
use garnet_rust.LenEnc.{
  invalid_length, buffer_too_small, Read, max_length, from_be_bytes, to_be_bytes, high_byte_14,
  read_length, push_length, write_length,
}

-- The code of a length.
pub encoded : ℕ → List ℕ
encoded len =
    if ltb len (2 ^ 6)
    then len ∷ []
    else if ltb len (2 ^ 14)
    then (len / 256 + 64) ∷ (len % 256) ∷ []
    else 128 ∷ to_be_bytes len

abbrev answered : List ℕ → ℕ → Read
answered rest n = (rest, ok n)

-- Two bytes at a time, the four bytes of a length are the length.
be_halves : (n : ℕ) → n / 2 ^ 16 % 256 * 65536 + n % 65536 ≡ n % 2 ^ 24
be_halves n = omega arith

be_low : (n : ℕ) → n / 2 ^ 8 % 256 * 256 + n % 256 ≡ n % 65536
be_low n = omega arith

be_bytes :
    (n : ℕ)
    → n ≤ max_length
    → from_be_bytes (n / 2 ^ 24 % 256) (n / 2 ^ 16 % 256) (n / 2 ^ 8 % 256) (n % 256) ≡ n
be_bytes n le =
    let top : n / 2 ^ 24 % 256 ≡ 0 = omega arith in omega (arith, top, be_halves n, be_low n)

read_length-encoded :
    (len : ℕ) (rest : List ℕ)
    → len ≤ max_length
    → read_length (encoded len ++ rest) ≡ (rest, ok len)
unfolding read_length encoded
read_length-encoded len rest le = elim (Bool-cases (ltb len (2 ^ 6))) [
  | inl s ↦
      let f : (len / 64 == 0) ≡ true = ground arith in
      rw (s, f) (ap (answered rest) {y = len} (ground arith))
  | inr ns ↦ elim (Bool-cases (ltb len (2 ^ 14))) [
    | inl m ↦
        let f0 : ((len / 256 + 64) / 64 == 0) ≡ false = ground arith in
        let f1 : ((len / 256 + 64) / 64 == 1) ≡ true = ground arith in
        rw (ns, m, f0, f1) (ap (answered rest) {y = len} (ground arith))
    | inr nm ↦
        let big : ltb max_length (
              from_be_bytes (len / 2 ^ 24 % 256) (len / 2 ^ 16 % 256) (len / 2 ^ 8 % 256)
                (len % 256))
            ≡ false =
          rw (be_bytes len le) (ground arith) in
        rw (ns, nm, big) (ap (answered rest) (be_bytes len le))
  ]
]

high_byte : (n : ℕ) → n < 2 ^ 14 → high_byte_14 n ≡ n / 256 + 64
high_byte n lt = omega arith

-- `push_length` appends the code of a length that fits in 24 bits and returns its size; a greater one
-- it refuses, and leaves the buffer.
push_length_lem :
    (buf : List ℕ) (len : ℕ)
    → push_length buf len ≡ (
        if ltb max_length len
        then (buf, err (invalid_length (to_i64 len)))
        else (buf ++ encoded len, ok (length (encoded len))))
unfolding push_length encoded
push_length_lem buf len = elim (Bool-cases (ltb max_length len)) [
  | inl over ↦ rw over
  | inr fits ↦ elim (Bool-cases (ltb len (2 ^ 6))) [
    | inl s ↦ let e : len % 256 % 64 ≡ len = ground arith in rw (fits, s, e)
    | inr ns ↦ elim (Bool-cases (ltb len (2 ^ 14))) [
      | inl m ↦ rw (fits, ns, m, high_byte len (ground arith))
      | inr nm ↦ let e : len % 2 ^ 32 ≡ len = ground arith in rw (fits, ns, nm, e)
    ]
  ]
]

-- A length of at most 24 bits that `push_length` appends to a buffer is read back by `read_length`,
-- which leaves exactly the bytes that follow.
pub read_length-push_length :
    (buf rest : List ℕ) (len : ℕ)
    → len ≤ max_length
    → read_length (drop (length buf) (push_length buf len).0 ++ rest) ≡ (rest, ok len)
read_length-push_length buf rest len le =
    let fits : ltb max_length len ≡ false = ground arith in
    rw (push_length_lem buf len, fits, drop-prefix (length buf) buf (encoded len) refl)
      (read_length-encoded len rest le)

-- For a length below 2 ^ 64, `write_length` refuses one of more than 24 bits, with the length as a
-- signed number of 64 bits, and a buffer too short for the code, and leaves the buffer; otherwise it
-- puts the code at the start of the buffer, leaves the bytes after it and returns its size.
pub write_length_lem :
    (len : ℕ) (output : List ℕ)
    → len < 2 ^ 64
    → write_length len output ≡ (
        if ltb max_length len
        then (
          output,
          err (invalid_length (if ltb len (2 ^ 63) then pos len else negsuc (2 ^ 64 - 1 - len))),
        )
        else if ltb (length output) (length (encoded len))
        then (output, err buffer_too_small)
        else (encoded len ++ drop (length (encoded len)) output, ok (length (encoded len))))
unfolding write_length encoded
write_length_lem len output usize = elim (Bool-cases (ltb max_length len)) [
  | inl over ↦ let w : len % 2 ^ 64 ≡ len = omega arith in rw over (rw (over, w))
  | inr fits ↦ elim (Bool-cases (ltb len (2 ^ 6))) [
    | inl s ↦
        let e : len % 256 % 64 ≡ len = ground arith in
        elim (Bool-cases (length output == 0)) [
          | inl z ↦
              let t : ltb (length output) 1 ≡ true = ground arith in rw (fits, s, z, t) (rw fits)
          | inr nz ↦ let t : ltb (length output) 1 ≡ false = ground arith in rw (fits, s, nz, t, e)
        ]
    | inr ns ↦ elim (Bool-cases (ltb len (2 ^ 14))) [
      | inl m ↦ elim (Bool-cases (ltb (length output) 2)) [
        | inl short ↦ rw (fits, ns, m, short) (rw fits)
        | inr long ↦ rw (fits, ns, m, long, high_byte len (ground arith))
      ]
      | inr nm ↦
          let e : len % 2 ^ 32 ≡ len = ground arith in
          elim (Bool-cases (ltb (length output) 5)) [
            | inl short ↦ rw (fits, ns, nm, short) (rw fits)
            | inr long ↦ rw (fits, ns, nm, long, e)
          ]
    ]
  ]
]
