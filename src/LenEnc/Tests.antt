-- ===== src/LenEnc/Tests.antt =====
-- The length encoding at a length of two bytes.
use garnet_rust.Common.{◌-◌, ◌^◌, ◌≡◌, [], ◌∷◌, ◌++◌, ltb, if◌then◌else◌, length, drop, arith}
use garnet_rust.Common.Int.{pos, negsuc}
use garnet_rust.Common.Result.{ok, err}
use garnet_rust.LenEnc.{
  max_length, invalid_length, buffer_too_small, read_length, push_length, write_length,
}
use garnet_rust.LenEnc.RoundTrip.{encoded, read_length-push_length, write_length_lem}

read_length-push_length_example :
    read_length (drop 1 (push_length (7 ∷ []) 1000).0 ++ 5 ∷ []) ≡ (5 ∷ [], ok 1000)
read_length-push_length_example = read_length-push_length (7 ∷ []) (5 ∷ []) 1000 (omega arith)

write_length_example : write_length 1000 (0 ∷ 0 ∷ 0 ∷ []) ≡ (
    if ltb max_length 1000
    then (
      0 ∷ 0 ∷ 0 ∷ [],
      err (invalid_length (if ltb 1000 (2 ^ 63) then pos 1000 else negsuc (2 ^ 64 - 1 - 1000))),
    )
    else if ltb 3 (length (encoded 1000))
    then (0 ∷ 0 ∷ 0 ∷ [], err buffer_too_small)
    else (
      encoded 1000 ++ drop (length (encoded 1000)) (0 ∷ 0 ∷ 0 ∷ []),
      ok (length (encoded 1000)),
    ))
write_length_example = write_length_lem 1000 (0 ∷ 0 ∷ 0 ∷ []) (omega arith)
