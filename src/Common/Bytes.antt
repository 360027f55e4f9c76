-- ===== src/Common/Bytes.antt =====
-- Numbers as bytes in little-endian order: `to_le_bytes` and `from_le_bytes` of Rust's integers, the
-- number of bytes an argument.
use Prim.Native.Nat.{ℕ, zero, suc, ◌+◌, ◌*◌, ◌/◌, ◌%◌, ◌^◌, ◌<◌}
use mathlib.Core.Path.{◌≡◌, refl, ap}
use mathlib.Core.List.{List, [], ◌∷◌}
use mathlib.Core.Bool.{Bool, true}
use native.Mathlib.Omega.{arith}
use native.Mathlib.Nat.{pow-suc}
use garnet_rust.Common.Lists.{length, all, take, drop}
use garnet_rust.Common.Tests.{ltb}

abbrev pub to_le_bytes : ℕ → ℕ → List ℕ
to_le_bytes zero n = []
to_le_bytes (suc w) n = n % 256 ∷ to_le_bytes w (n / 256)

abbrev pub from_le_bytes : List ℕ → ℕ
from_le_bytes [] = 0
from_le_bytes (b ∷ bs) = b + 256 * from_le_bytes bs

abbrev pub all_bytes : List ℕ → Bool
all_bytes bs = all (λ b. ltb b 256) bs

pub length-to_le_bytes : (w n : ℕ) → length (to_le_bytes w n) ≡ w
length-to_le_bytes zero n = refl
length-to_le_bytes (suc w) n = omega (arith, length-to_le_bytes w (n / 256))

pub from_le_bytes-to_le_bytes : (w n : ℕ) → n < 256 ^ w → from_le_bytes (to_le_bytes w n) ≡ n
from_le_bytes-to_le_bytes zero n lt = omega arith
from_le_bytes-to_le_bytes (suc w) n lt =
    omega
      (arith, pow-suc 256 w, from_le_bytes-to_le_bytes w (n / 256) (omega (arith, pow-suc 256 w)))

pub from_le_bytes-lt : (bs : List ℕ) → all_bytes bs ≡ true → from_le_bytes bs < 256 ^ length bs
from_le_bytes-lt [] h = omega arith
from_le_bytes-lt (b ∷ bs) h =
    let small : b < 256 = ground (arith, h) in
    let rest : all_bytes bs ≡ true = ground (arith, h) in
    omega (arith, small, pow-suc 256 (length bs), from_le_bytes-lt bs rest)

pub to_le_bytes-from_le_bytes :
    (bs : List ℕ) → all_bytes bs ≡ true → to_le_bytes (length bs) (from_le_bytes bs) ≡ bs
to_le_bytes-from_le_bytes [] h = refl
to_le_bytes-from_le_bytes (b ∷ bs) h =
    let small : b < 256 = ground (arith, h) in
    let rest : all_bytes bs ≡ true = ground (arith, h) in
    let first : (b + 256 * from_le_bytes bs) % 256 ≡ b = omega (arith, small) in
    let others : (b + 256 * from_le_bytes bs) / 256 ≡ from_le_bytes bs = omega (arith, small) in
    rw (first, others) (ap (◌∷◌ b) (to_le_bytes-from_le_bytes bs rest))

pub all_bytes-take : (n : ℕ) (bs : List ℕ) → all_bytes bs ≡ true → all_bytes (take n bs) ≡ true
all_bytes-take zero bs h = refl
all_bytes-take (suc n) [] h = refl
all_bytes-take (suc n) (b ∷ bs) h = ground (arith, all_bytes-take n bs, h)

pub all_bytes-drop : (n : ℕ) (bs : List ℕ) → all_bytes bs ≡ true → all_bytes (drop n bs) ≡ true
all_bytes-drop zero bs h = h
all_bytes-drop (suc n) [] h = refl
all_bytes-drop (suc n) (b ∷ bs) h = ground (arith, all_bytes-drop n bs, h)
