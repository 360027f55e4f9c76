-- ===== src/Cluster/Slot.antt =====
-- wedb_cluster/src/slot.rs: the states of hash slots, the bitmap of slots and the slot of a key. A word
-- of the bitmap is a number below 2 ^ 64; its bit `i` is the digit of 2 ^ i. `memchr` is a function of an
-- external crate and an argument.
use Prim.Native.Nat.{bit_xor}
use garnet_rust.Common.{
  ℕ, zero, suc, ◌+◌, ◌-◌, ◌*◌, ◌/◌, ◌%◌, ◌^◌, List, [], ◌∷◌, ◌++◌, Option, none, some, Bool, false,
  ltb, leb, ◌==◌, if◌then◌else◌, length, take, drop, replicate, all, get_or, set,
}
use garnet_rust.Common.Bytes.{to_le_bytes, from_le_bytes}

abbrev pub total_hash_slots : ℕ
total_hash_slots = 16384

abbrev pub slot_words : ℕ
slot_words = total_hash_slots / 64

abbrev pub slot_bytes : ℕ
slot_bytes = total_hash_slots / 8

pub data SlotState : Type 0 where
  offline : SlotState
  stable : SlotState
  migrating : SlotState
  importing : SlotState
  fail : SlotState
  node : SlotState
  invalid : SlotState

abbrev pub to_u8 : SlotState → ℕ
to_u8 offline = 0
to_u8 stable = 1
to_u8 migrating = 2
to_u8 importing = 3
to_u8 fail = 4
to_u8 node = 5
to_u8 invalid = 6

abbrev pub from_u8 : ℕ → SlotState
from_u8 val =
    if val == 0
    then offline
    else if val == 1
    then stable
    else if val == 2
    then migrating
    else if val == 3
    then importing
    else if val == 4
    then fail
    else if val == 5
    then node
    else invalid

-- `==` of the states
abbrev pub same_state : SlotState → SlotState → Bool
same_state s t = to_u8 s == to_u8 t

pub record HashSlot : Type 0 where
  pub worker_id : ℕ
  pub state : SlotState

abbrev pub default_slot : HashSlot
default_slot = record { worker_id = 0; state = offline }

abbrev pub effective_worker_id : HashSlot → ℕ
effective_worker_id slot = if same_state slot.state migrating then 1 else slot.worker_id

abbrev pub out_of_range : ℕ → Bool
out_of_range slot = leb total_hash_slots slot

pub record SlotBitmap : Type 0 where
  pub bits : List ℕ

-- `word & (1 << bit) != 0`
abbrev pub test_bit : ℕ → ℕ → Bool
test_bit word bit = word / 2 ^ bit % 2 == 1

-- `word | 1 << bit`, `word & !(1 << bit)` and `word ^ 1 << bit`
abbrev pub set_bit : ℕ → ℕ → ℕ
set_bit word bit = if test_bit word bit then word else word + 2 ^ bit

abbrev pub clear_bit : ℕ → ℕ → ℕ
clear_bit word bit = if test_bit word bit then word - 2 ^ bit else word

abbrev pub flip_bit : ℕ → ℕ → ℕ
flip_bit word bit = if test_bit word bit then word - 2 ^ bit else word + 2 ^ bit

unfoldable pub new : SlotBitmap
new = record { bits = replicate slot_words 0 }

unfoldable pub full : SlotBitmap
full = record { bits = replicate slot_words (2 ^ 64 - 1) }

unfoldable pub is_set : SlotBitmap → ℕ → Bool
is_set b slot =
    if leb total_hash_slots slot then false else test_bit (get_or b.bits (slot / 64) 0) (slot % 64)

-- The change of the word that a slot in range is in.
abbrev pub change_word : (ℕ → ℕ → ℕ) → SlotBitmap → ℕ → SlotBitmap
change_word f b slot =
    if ltb slot total_hash_slots
    then record { bits = set b.bits (slot / 64) (f (get_or b.bits (slot / 64) 0) (slot % 64)) }
    else b

unfoldable pub set_slot : SlotBitmap → ℕ → SlotBitmap
set_slot b slot = change_word set_bit b slot

unfoldable pub clear_slot : SlotBitmap → ℕ → SlotBitmap
clear_slot b slot = change_word clear_bit b slot

unfoldable pub toggle : SlotBitmap → ℕ → SlotBitmap
toggle b slot = change_word flip_bit b slot

abbrev pub is_empty : SlotBitmap → Bool
is_empty b = all (λ w. w == 0) b.bits

abbrev pub is_full : SlotBitmap → Bool
is_full b = all (λ w. w == 2 ^ 64 - 1) b.bits

abbrev pub words_to_bytes : List ℕ → List ℕ
words_to_bytes [] = []
words_to_bytes (w ∷ ws) = to_le_bytes 8 w ++ words_to_bytes ws

abbrev pub to_bytes : SlotBitmap → List ℕ
to_bytes b = words_to_bytes b.bits

-- The first `n` chunks of 8 bytes.
abbrev pub chunks_to_words : ℕ → List ℕ → List ℕ
chunks_to_words zero bytes = []
chunks_to_words (suc n) bytes = from_le_bytes (take 8 bytes) ∷ chunks_to_words n (drop 8 bytes)

-- `none` is the error of a slice of another length.
abbrev pub from_bytes : List ℕ → Option SlotBitmap
from_bytes slice =
    if length slice == slot_bytes
    then some (record { bits = chunks_to_words slot_words slice })
    else none

abbrev pub crc16_table : List ℕ
crc16_table =
    0 ∷ 4129 ∷ 8258 ∷ 12387 ∷ 16516 ∷ 20645 ∷ 24774 ∷ 28903 ∷ 33032 ∷ 37161 ∷ 41290 ∷ 45419 ∷ 49548
    ∷ 53677 ∷ 57806 ∷ 61935 ∷ 4657 ∷ 528 ∷ 12915 ∷ 8786 ∷ 21173 ∷ 17044 ∷ 29431 ∷ 25302 ∷ 37689
    ∷ 33560 ∷ 45947 ∷ 41818 ∷ 54205 ∷ 50076 ∷ 62463 ∷ 58334 ∷ 9314 ∷ 13379 ∷ 1056 ∷ 5121 ∷ 25830
    ∷ 29895 ∷ 17572 ∷ 21637 ∷ 42346 ∷ 46411 ∷ 34088 ∷ 38153 ∷ 58862 ∷ 62927 ∷ 50604 ∷ 54669 ∷ 13907
    ∷ 9842 ∷ 5649 ∷ 1584 ∷ 30423 ∷ 26358 ∷ 22165 ∷ 18100 ∷ 46939 ∷ 42874 ∷ 38681 ∷ 34616 ∷ 63455
    ∷ 59390 ∷ 55197 ∷ 51132 ∷ 18628 ∷ 22757 ∷ 26758 ∷ 30887 ∷ 2112 ∷ 6241 ∷ 10242 ∷ 14371 ∷ 51660
    ∷ 55789 ∷ 59790 ∷ 63919 ∷ 35144 ∷ 39273 ∷ 43274 ∷ 47403 ∷ 23285 ∷ 19156 ∷ 31415 ∷ 27286 ∷ 6769
    ∷ 2640 ∷ 14899 ∷ 10770 ∷ 56317 ∷ 52188 ∷ 64447 ∷ 60318 ∷ 39801 ∷ 35672 ∷ 47931 ∷ 43802 ∷ 27814
    ∷ 31879 ∷ 19684 ∷ 23749 ∷ 11298 ∷ 15363 ∷ 3168 ∷ 7233 ∷ 60846 ∷ 64911 ∷ 52716 ∷ 56781 ∷ 44330
    ∷ 48395 ∷ 36200 ∷ 40265 ∷ 32407 ∷ 28342 ∷ 24277 ∷ 20212 ∷ 15891 ∷ 11826 ∷ 7761 ∷ 3696 ∷ 65439
    ∷ 61374 ∷ 57309 ∷ 53244 ∷ 48923 ∷ 44858 ∷ 40793 ∷ 36728 ∷ 37256 ∷ 33193 ∷ 45514 ∷ 41451 ∷ 53516
    ∷ 49453 ∷ 61774 ∷ 57711 ∷ 4224 ∷ 161 ∷ 12482 ∷ 8419 ∷ 20484 ∷ 16421 ∷ 28742 ∷ 24679 ∷ 33721
    ∷ 37784 ∷ 41979 ∷ 46042 ∷ 49981 ∷ 54044 ∷ 58239 ∷ 62302 ∷ 689 ∷ 4752 ∷ 8947 ∷ 13010 ∷ 16949
    ∷ 21012 ∷ 25207 ∷ 29270 ∷ 46570 ∷ 42443 ∷ 38312 ∷ 34185 ∷ 62830 ∷ 58703 ∷ 54572 ∷ 50445 ∷ 13538
    ∷ 9411 ∷ 5280 ∷ 1153 ∷ 29798 ∷ 25671 ∷ 21540 ∷ 17413 ∷ 42971 ∷ 47098 ∷ 34713 ∷ 38840 ∷ 59231
    ∷ 63358 ∷ 50973 ∷ 55100 ∷ 9939 ∷ 14066 ∷ 1681 ∷ 5808 ∷ 26199 ∷ 30326 ∷ 17941 ∷ 22068 ∷ 55628
    ∷ 51565 ∷ 63758 ∷ 59695 ∷ 39368 ∷ 35305 ∷ 47498 ∷ 43435 ∷ 22596 ∷ 18533 ∷ 30726 ∷ 26663 ∷ 6336
    ∷ 2273 ∷ 14466 ∷ 10403 ∷ 52093 ∷ 56156 ∷ 60223 ∷ 64286 ∷ 35833 ∷ 39896 ∷ 43963 ∷ 48026 ∷ 19061
    ∷ 23124 ∷ 27191 ∷ 31254 ∷ 2801 ∷ 6864 ∷ 10931 ∷ 14994 ∷ 64814 ∷ 60687 ∷ 56684 ∷ 52557 ∷ 48554
    ∷ 44427 ∷ 40424 ∷ 36297 ∷ 31782 ∷ 27655 ∷ 23652 ∷ 19525 ∷ 15522 ∷ 11395 ∷ 7392 ∷ 3265 ∷ 61215
    ∷ 65342 ∷ 53085 ∷ 57212 ∷ 44955 ∷ 49082 ∷ 36825 ∷ 40952 ∷ 28183 ∷ 32310 ∷ 20053 ∷ 24180 ∷ 11923
    ∷ 16050 ∷ 3793 ∷ 7920 ∷ []

-- The loop over the bytes; a `u16` shifted left by 8 keeps its low byte.
abbrev pub crc16_from : ℕ → List ℕ → ℕ
crc16_from result [] = result
crc16_from result (b ∷ bytes) =
    crc16_from (bit_xor (get_or crc16_table (bit_xor (result / 256) b) 0) (result % 256 * 256))
      bytes

unfoldable pub crc16 : List ℕ → ℕ
crc16 bytes = crc16_from 0 bytes

-- `& SLOT_MASK`
abbrev pub masked : ℕ → ℕ
masked n = n % total_hash_slots

-- What is hashed once the first `{` is found: `rest` follows it.
abbrev pub tag_or : List ℕ → List ℕ → Option ℕ → List ℕ
tag_or key rest none = key
tag_or key rest (some offset) = if ltb 0 offset then take offset rest else key

unfoldable pub hashed_part : (ℕ → List ℕ → Option ℕ) → List ℕ → List ℕ
hashed_part memchr key = elim (memchr 123 key) [
  | none ↦ key
  | some start ↦ let rest = drop (start + 1) key in tag_or key rest (memchr 125 rest)
]

unfoldable pub hash_slot : (ℕ → List ℕ → Option ℕ) → List ℕ → ℕ
unfolding crc16 hashed_part
hash_slot memchr key = masked (crc16 (hashed_part memchr key))
