-- ===== src/LenEnc.antt =====
-- wedb_resp/src/len_enc.rs: lengths in 6 bits, 14 bits or 32 bits, the format in the two high bits of
-- the first byte. A byte is a number below 256; `>>`, `&` with a low mask and `|` of disjoint bits are
-- division, remainder and sum.
mod RoundTrip
mod Tests
use garnet_rust.Common.{
  ℕ, ◌+◌, ◌-◌, ◌*◌, ◌/◌, ◌%◌, ◌^◌, List, [], ◌∷◌, ◌++◌, Option, none, some, Bool, ltb, leb, ◌==◌,
  if◌then◌else◌, length, drop,
}
use garnet_rust.Common.Int.{ℤ, pos, negsuc, to_i64}
use garnet_rust.Common.Result.{Result, ok, err}

pub data Error : Type 0 where
  incomplete buffer_too_small : Error
  invalid_length : ℤ → Error

abbrev pub max_length : ℕ
max_length = 0xFFFFFF

-- `u32::from_be_bytes` and `to_be_bytes`
abbrev pub from_be_bytes : ℕ → ℕ → ℕ → ℕ → ℕ
from_be_bytes a b c d = ((a * 256 + b) * 256 + c) * 256 + d

abbrev pub to_be_bytes : ℕ → List ℕ
to_be_bytes n = n / 2 ^ 24 % 256 ∷ n / 2 ^ 16 % 256 ∷ n / 2 ^ 8 % 256 ∷ n % 256 ∷ []

-- The length, or an error, and the input that is left.
abbrev pub Read : Type 0
Read = List ℕ × Result ℕ Error

abbrev pub read_14 : List ℕ → ℕ → List ℕ → Read
read_14 input first_byte [] = (input, err incomplete)
read_14 input first_byte (second_byte ∷ rest2) = (rest2, ok (first_byte % 64 * 256 + second_byte))

abbrev pub read_32 : List ℕ → List ℕ → Read
read_32 input (a ∷ b ∷ c ∷ d ∷ rest) =
    let val = from_be_bytes a b c d in
    (rest, if ltb max_length val then err (invalid_length (pos val)) else ok val)
read_32 input rest = (input, err incomplete)

unfoldable pub read_length : List ℕ → Read
read_length [] = ([], err incomplete)
read_length (first_byte ∷ rest) =
    let format = first_byte / 64 in
    if format == 0
    then (rest, ok (first_byte % 64))
    else if format == 1
    then read_14 (first_byte ∷ rest) first_byte rest
    else if format == 2
    then read_32 (first_byte ∷ rest) rest
    else (first_byte ∷ rest, err (invalid_length (negsuc 0)))

abbrev pub read_bytes_of : List ℕ → Read → Option (ℕ × ℕ)
read_bytes_of input (cursor, err e) = none
read_bytes_of input (cursor, ok len) = some (len, length input - length cursor)

unfoldable pub try_read_length : List ℕ → Option (ℕ × ℕ)
unfolding read_length
try_read_length input = read_bytes_of input (read_length input)

abbrev pub high_byte_14 : ℕ → ℕ
high_byte_14 length = length / 2 ^ 8 % 256 % 64 + 64

-- The buffer and the number of bytes written.
unfoldable pub try_write_length : ℕ → List ℕ → List ℕ × Option ℕ
try_write_length len output =
    if ltb max_length len
    then (output, none)
    else if ltb len (2 ^ 6)
    then if length output == 0 then (output, none) else (len % 256 % 64 ∷ drop 1 output, some 1)
    else if ltb len (2 ^ 14)
    then if ltb (length output) 2
      then (output, none)
      else (high_byte_14 len ∷ len % 256 ∷ drop 2 output, some 2)
    else if ltb (length output) 5
    then (output, none)
    else (2 * 64 ∷ to_be_bytes (len % 2 ^ 32) ++ drop 5 output, some 5)

abbrev pub write_error : ℕ → List ℕ × Option ℕ → List ℕ × Result ℕ Error
write_error len (output, some n) = (output, ok n)
write_error len (output, none) =
    (output, err (if ltb max_length len then invalid_length (to_i64 len) else buffer_too_small))

unfoldable pub write_length : ℕ → List ℕ → List ℕ × Result ℕ Error
unfolding try_write_length
write_length len output = write_error len (try_write_length len output)

unfoldable pub push_length : List ℕ → ℕ → List ℕ × Result ℕ Error
push_length buf len =
    if ltb max_length len
    then (buf, err (invalid_length (to_i64 len)))
    else if ltb len (2 ^ 6)
    then (buf ++ len % 256 % 64 ∷ [], ok 1)
    else if ltb len (2 ^ 14)
    then (buf ++ high_byte_14 len ∷ len % 256 ∷ [], ok 2)
    else (buf ++ 2 * 64 ∷ to_be_bytes (len % 2 ^ 32), ok 5)
