-- ===== src/Txn/Entries.antt =====
-- wedb_txn/src/key_entry.rs: lock types, lock entries, their order and the merging sort of a lock set.
-- `TxnKeyEntries` is the list of its entries. The sort of the standard library is an insertion sort
-- here; entries that compare as equal differ in the lock type alone, and the pass that follows merges
-- them in either order.
use garnet_rust.Common.{
  ℕ, List, [], ◌∷◌, ◌++◌, Option, none, some, Bool, true, false, ltb, leb, ◌==◌, ◌&&◌, not,
  if◌then◌else◌, length, any, bytes_eq,
}

-- `None`, `Shared` and `Exclusive`.
pub data LockType : Type 0 where
  no_lock shared exclusive : LockType

-- The discriminant, by which lock types are ordered.
abbrev pub rank : LockType → ℕ
rank no_lock = 0
rank shared = 1
rank exclusive = 2

abbrev pub is_exclusive : LockType → Bool
is_exclusive no_lock = false
is_exclusive shared = false
is_exclusive exclusive = true

unfoldable pub upgrade_to : LockType → LockType → LockType
upgrade_to lock other = if ltb (rank lock) (rank other) then other else lock

pub record TxnKeyEntry : Type 0 where
  pub key_hash : ℕ
  pub lock_type : LockType
  pub key : Option (List ℕ)

abbrev pub TxnKeyEntries : Type 0
TxnKeyEntries = List TxnKeyEntry

abbrev pub add_key : ℕ → LockType → Option (List ℕ) → TxnKeyEntries → TxnKeyEntries
add_key key_hash lock_type key entries =
    entries ++ record { key_hash = key_hash; lock_type = lock_type; key = key } ∷ []

abbrev pub add_key_hash : ℕ → LockType → TxnKeyEntries → TxnKeyEntries
add_key_hash key_hash lock_type entries = add_key key_hash lock_type none entries

-- `fast_hash` is the hash function of the crate whasher.
abbrev pub add_key_slice : (List ℕ → ℕ) → List ℕ → LockType → TxnKeyEntries → TxnKeyEntries
add_key_slice fast_hash key lock_type entries = add_key (fast_hash key) lock_type none entries

unfoldable pub is_read_only : TxnKeyEntries → Bool
is_read_only entries = not (any (λ e. is_exclusive e.lock_type) entries)

pub data Ordering : Type 0 where
  less equal greater : Ordering

abbrev pub then_with : Ordering → Ordering → Ordering
then_with less o = less
then_with equal o = o
then_with greater o = greater

abbrev pub cmp : ℕ → ℕ → Ordering
cmp a b = if ltb a b then less else if ltb b a then greater else equal

-- Byte strings are ordered lexicographically, an absent key before a present one.
unfoldable pub cmp_bytes : List ℕ → List ℕ → Ordering
cmp_bytes [] [] = equal
cmp_bytes [] (y ∷ ys) = less
cmp_bytes (x ∷ xs) [] = greater
cmp_bytes (x ∷ xs) (y ∷ ys) = then_with (cmp x y) (cmp_bytes xs ys)

abbrev pub cmp_key : Option (List ℕ) → Option (List ℕ) → Ordering
cmp_key none none = equal
cmp_key none (some k) = less
cmp_key (some k) none = greater
cmp_key (some k1) (some k2) = cmp_bytes k1 k2

unfoldable pub compare : TxnKeyEntry → TxnKeyEntry → Ordering
compare key1 key2 = then_with (cmp key1.key_hash key2.key_hash) (cmp_key key1.key key2.key)

abbrev pub is_greater : Ordering → Bool
is_greater less = false
is_greater equal = false
is_greater greater = true

unfoldable pub insert_entry : TxnKeyEntry → TxnKeyEntries → TxnKeyEntries
unfolding compare
insert_entry e [] = e ∷ []
insert_entry e (x ∷ xs) =
    let rest = insert_entry e xs in if is_greater (compare e x) then x ∷ rest else e ∷ x ∷ xs

unfoldable pub sort_entries : TxnKeyEntries → TxnKeyEntries
unfolding insert_entry
sort_entries [] = []
sort_entries (e ∷ es) = insert_entry e (sort_entries es)

abbrev pub same_key : Option (List ℕ) → Option (List ℕ) → Bool
same_key none k = true
same_key (some k1) none = true
same_key (some k1) (some k2) = bytes_eq k1 k2

abbrev pub is_same : TxnKeyEntry → TxnKeyEntry → Bool
is_same a b = a.key_hash == b.key_hash && same_key a.key b.key

abbrev pub first_key : Option (List ℕ) → Option (List ℕ) → Option (List ℕ)
first_key none k = k
first_key (some k) other = some k

abbrev pub merge_into : TxnKeyEntry → TxnKeyEntry → TxnKeyEntry
merge_into a b = record {
  key_hash = a.key_hash;
  lock_type = upgrade_to a.lock_type b.lock_type;
  key = first_key a.key b.key;
}

-- The merging pass: `cur` is the entry at `write_idx`; the entries before it are final.
unfoldable pub merge_pass : TxnKeyEntry → TxnKeyEntries → TxnKeyEntries
unfolding upgrade_to
merge_pass cur [] = cur ∷ []
merge_pass cur (e ∷ es) =
    let rest = merge_pass (if is_same cur e then merge_into cur e else e) es in
    if is_same cur e then rest else cur ∷ rest

abbrev pub merge_sorted : TxnKeyEntries → TxnKeyEntries
merge_sorted [] = []
merge_sorted (e ∷ es) = merge_pass e es

unfoldable pub sort_by_key_hash : TxnKeyEntries → TxnKeyEntries
unfolding sort_entries merge_pass
sort_by_key_hash entries =
    if leb (length entries) 1 then entries else merge_sorted (sort_entries entries)
