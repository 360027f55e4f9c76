-- ===== src/Txn/Versions.antt =====
-- wedb_txn/src/version_map.rs: the table of versions that all sessions share. An atomic operation is
-- one step on the table. The slot of a hash is `hash & mask`; the mask is one less than a power of two,
-- so that is the remainder of the division by `mask + 1`. Slots and epoch count modulo 2 ^ 64.
use garnet_rust.Common.{
  ℕ, zero, suc, ◌+◌, ◌-◌, ◌*◌, ◌%◌, ◌^◌, ◌≡◌, List, [], ◌∷◌, leb, if◌then◌else◌, max, length,
  get_or, set, replicate,
}

abbrev pub u64 : ℕ
u64 = 2 ^ 64

pub record WatchVersionMap : Type 0 where
  pub slots : List ℕ
  pub mask : ℕ
  pub global_epoch : ℕ

abbrev pub default_version_map_capacity : ℕ
default_version_map_capacity = 2 ^ 16

-- The first of `p`, `2 * p`, ... that is not below `n`, within `fuel` doublings; `n` of them are enough
-- from 1 on. The power of two above `2 ^ 63` wraps around to 0, as in a build without overflow checks.
unfoldable pub doubled : ℕ → ℕ → ℕ → ℕ
doubled zero n p = p
doubled (suc fuel) n p = let next = doubled fuel n (p * 2) in if leb n p then p else next

abbrev pub next_power_of_two : ℕ → ℕ
next_power_of_two n = doubled n n 1 % u64

unfoldable pub new : ℕ → WatchVersionMap
unfolding doubled
new capacity =
    let cap = next_power_of_two (max capacity 2) in
    record { slots = replicate cap 0; mask = (cap + (u64 - 1)) % u64; global_epoch = 0 }

abbrev pub slot_of : WatchVersionMap → ℕ → ℕ
slot_of m hash = hash % (m.mask + 1)

unfoldable pub read_version : WatchVersionMap → ℕ → ℕ
read_version m hash = (get_or m.slots (slot_of m hash) 0 + m.global_epoch) % u64

-- The table after the step, and the new version.
unfoldable pub bump_version : ℕ → WatchVersionMap → WatchVersionMap × ℕ
bump_version hash m =
    let i = slot_of m hash in
    let prev = get_or m.slots i 0 in
    (
      record m { slots = set m.slots i ((prev + 1) % u64) },
      ((prev + 1) % u64 + m.global_epoch) % u64,
    )

unfoldable pub bump_all : WatchVersionMap → WatchVersionMap
bump_all m = record m { global_epoch = (m.global_epoch + 1) % u64 }

abbrev pub zeros : List ℕ → List ℕ
zeros slots = replicate (length slots) 0

unfoldable pub clear : WatchVersionMap → WatchVersionMap
clear m = record m { slots = zeros m.slots; global_epoch = 0 }

pub record IsValid (m : WatchVersionMap) : Type 0 where
  pub size : length m.slots ≡ m.mask + 1

-- What the sessions do to the table: one key's version goes up, or every key's.
pub data Bump : Type 0 where
  bump_key : ℕ → Bump
  bump_every : Bump

unfoldable pub step : Bump → WatchVersionMap → WatchVersionMap
unfolding bump_version bump_all
step (bump_key hash) m = (bump_version hash m).0
step bump_every m = bump_all m

unfoldable pub run : List Bump → WatchVersionMap → WatchVersionMap
unfolding step
run [] m = m
run (b ∷ bs) m = run bs (step b m)
