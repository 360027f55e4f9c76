-- ===== src/Txn/EntryLaws.antt =====
-- `sort_by_key_hash` of wedb_txn/src/key_entry.rs keeps the strongest lock of every hash, and sorts.
use garnet_rust.Common.{
  ℕ, ◌+◌, ◌≤◌, ◌≡◌, refl, ap, sym, ◌∙◌, inl, inr, [], ◌∷◌, none, true, false, ◌==◌, leb,
  if◌then◌else◌, max, arith, subst, Bool-cases, length,
}
use garnet_rust.Txn.Entries.{
  LockType, rank, upgrade_to, TxnKeyEntry, TxnKeyEntries, compare, is_greater, insert_entry,
  sort_entries, is_same, first_key, merge_into, merge_pass, merge_sorted, sort_by_key_hash,
}

-- The rank of the strongest lock that a lock set holds on a hash, 0 without any.
abbrev pub lock_of : ℕ → TxnKeyEntries → ℕ
lock_of h [] = 0
lock_of h (e ∷ es) = if e.key_hash == h then max (rank e.lock_type) (lock_of h es) else lock_of h es

upgrade_to_lem : (a b : LockType) → rank (upgrade_to a b) ≡ max (rank a) (rank b)
unfolding upgrade_to
upgrade_to_lem a b = ground arith

lock_of-insert_entry :
    (h : ℕ) (e : TxnKeyEntry) (es : TxnKeyEntries)
    → lock_of h (insert_entry e es) ≡ lock_of h (e ∷ es)
unfolding insert_entry
lock_of-insert_entry h e [] = refl
lock_of-insert_entry h e (x ∷ xs) = elim (Bool-cases (is_greater (compare e x))) [
  | inl gt ↦ rw gt (ground (arith, lock_of-insert_entry h e xs))
  | inr le ↦ rw le
]

lock_of-sort_entries : (h : ℕ) (es : TxnKeyEntries) → lock_of h (sort_entries es) ≡ lock_of h es
unfolding sort_entries
lock_of-sort_entries h [] = refl
lock_of-sort_entries h (e ∷ es) =
    lock_of-insert_entry h e (sort_entries es) ∙ rw (lock_of-sort_entries h es)

same_hash : (a b : TxnKeyEntry) → is_same a b ≡ true → a.key_hash ≡ b.key_hash
same_hash a b e = ground arith

lock_of-merge_into :
    (h : ℕ) (a b : TxnKeyEntry) (es : TxnKeyEntries)
    → is_same a b ≡ true
    → lock_of h (merge_into a b ∷ es) ≡ lock_of h (a ∷ b ∷ es)
lock_of-merge_into h a b es e =
    let t : (b.key_hash == h) ≡ (a.key_hash == h) = ap (λ k. k == h) (sym (same_hash a b e)) in
    let u = upgrade_to_lem a.lock_type b.lock_type in
    elim (Bool-cases (a.key_hash == h)) [ inl y ↦ rw (t, y, u) (omega arith) | inr n ↦ rw (t, n) ]

lock_of-merge_pass :
    (h : ℕ) (cur : TxnKeyEntry) (es : TxnKeyEntries)
    → lock_of h (merge_pass cur es) ≡ lock_of h (cur ∷ es)
unfolding merge_pass
lock_of-merge_pass h cur [] = refl
lock_of-merge_pass h cur (e ∷ es) = elim (Bool-cases (is_same cur e)) [
  | inl y ↦ rw y (lock_of-merge_pass h (merge_into cur e) es ∙ lock_of-merge_into h cur e es y)
  | inr n ↦ rw n (elim (Bool-cases (cur.key_hash == h)) [
    | inl y ↦ rw y (ap (max (rank cur.lock_type)) (lock_of-merge_pass h e es))
    | inr m ↦ rw m (lock_of-merge_pass h e es)
  ])
]

lock_of-merge_sorted : (h : ℕ) (es : TxnKeyEntries) → lock_of h (merge_sorted es) ≡ lock_of h es
lock_of-merge_sorted h [] = refl
lock_of-merge_sorted h (e ∷ es) = lock_of-merge_pass h e es

-- For every hash, the sorted and merged lock set holds exactly the strongest lock that the lock set
-- held before.
pub lock_of-sort_by_key_hash :
    (h : ℕ) (es : TxnKeyEntries) → lock_of h (sort_by_key_hash es) ≡ lock_of h es
unfolding sort_by_key_hash
lock_of-sort_by_key_hash h es = elim (Bool-cases (leb (length es) 1)) [
  | inl short ↦ rw short
  | inr long ↦ rw long (lock_of-merge_sorted h (sort_entries es) ∙ lock_of-sort_entries h es)
]

-- The entries come in the order of their hashes, none below `n`.
abbrev SortedFrom : ℕ → TxnKeyEntries → Type 0
SortedFrom n [] = Unit
SortedFrom n (e ∷ es) = (n ≤ e.key_hash) × SortedFrom e.key_hash es

-- The same, and no hash comes twice.
abbrev pub AscendingFrom : ℕ → TxnKeyEntries → Type 0
AscendingFrom n [] = Unit
AscendingFrom n (e ∷ es) = (n ≤ e.key_hash) × AscendingFrom (e.key_hash + 1) es

-- The entries name a hash alone.
abbrev pub HashOnly : TxnKeyEntries → Type 0
HashOnly [] = Unit
HashOnly (e ∷ es) = (e.key ≡ none) × HashOnly es

insert_entry-HashOnly :
    (e : TxnKeyEntry) (es : TxnKeyEntries)
    → e.key ≡ none
    → HashOnly es
    → HashOnly (insert_entry e es)
unfolding insert_entry
insert_entry-HashOnly e [] k h = (k, tt)
insert_entry-HashOnly e (x ∷ xs) k h = elim (Bool-cases (is_greater (compare e x))) [
  | inl gt ↦ rw gt (h.0, insert_entry-HashOnly e xs k h.1)
  | inr le ↦ rw le (k, h)
]

compare-greater : (e x : TxnKeyEntry) → is_greater (compare e x) ≡ true → x.key_hash ≤ e.key_hash
unfolding compare
compare-greater e x t = ground arith

compare-not_greater :
    (e x : TxnKeyEntry) → is_greater (compare e x) ≡ false → e.key_hash ≤ x.key_hash
unfolding compare
compare-not_greater e x t = ground arith

insert_entry-SortedFrom :
    (n : ℕ) (e : TxnKeyEntry) (es : TxnKeyEntries)
    → n ≤ e.key_hash
    → SortedFrom n es
    → SortedFrom n (insert_entry e es)
unfolding insert_entry
insert_entry-SortedFrom n e [] le s = (le, tt)
insert_entry-SortedFrom n e (x ∷ xs) le s = elim (Bool-cases (is_greater (compare e x))) [
  | inl gt ↦ rw gt (s.0, insert_entry-SortedFrom x.key_hash e xs (compare-greater e x gt) s.1)
  | inr ngt ↦ rw ngt (le, (compare-not_greater e x ngt, s.1))
]

sort_entries-SortedFrom : (es : TxnKeyEntries) → SortedFrom 0 (sort_entries es)
unfolding sort_entries
sort_entries-SortedFrom [] = tt
sort_entries-SortedFrom (e ∷ es) =
    insert_entry-SortedFrom 0 e (sort_entries es) (omega arith) (sort_entries-SortedFrom es)

sort_entries-HashOnly : (es : TxnKeyEntries) → HashOnly es → HashOnly (sort_entries es)
unfolding sort_entries
sort_entries-HashOnly [] h = tt
sort_entries-HashOnly (e ∷ es) h =
    insert_entry-HashOnly e (sort_entries es) h.0 (sort_entries-HashOnly es h.1)

is_same-hash_only : (a b : TxnKeyEntry) → a.key ≡ none → is_same a b ≡ (a.key_hash == b.key_hash)
is_same-hash_only a b k =
    rw k (elim (Bool-cases (a.key_hash == b.key_hash)) [ inl y ↦ rw y | inr m ↦ rw m ])

merge_pass-AscendingFrom :
    (n : ℕ) (cur : TxnKeyEntry) (es : TxnKeyEntries)
    → n ≤ cur.key_hash
    → SortedFrom cur.key_hash es
    → HashOnly (cur ∷ es)
    → AscendingFrom n (merge_pass cur es)
unfolding merge_pass
merge_pass-AscendingFrom n cur [] le s h = (le, tt)
merge_pass-AscendingFrom n cur (e ∷ es) le s h = elim (Bool-cases (is_same cur e)) [
  | inl y ↦ rw y (
      merge_pass-AscendingFrom n (merge_into cur e) es le
        (subst (λ k. SortedFrom k es) (sym (same_hash cur e y)) s.1)
        (ap (λ k. first_key k e.key) h.0 ∙ h.1.0, h.1.1))
  | inr m ↦ rw m (
    le,
    merge_pass-AscendingFrom (cur.key_hash + 1) e es
        (ground (arith, s.0, is_same-hash_only cur e h.0)) s.1 h.1,
  )
]

merge_sorted-AscendingFrom :
    (es : TxnKeyEntries) → SortedFrom 0 es → HashOnly es → AscendingFrom 0 (merge_sorted es)
merge_sorted-AscendingFrom [] s h = tt
merge_sorted-AscendingFrom (e ∷ es) s h = merge_pass-AscendingFrom 0 e es (omega arith) s.1 h

short-AscendingFrom : (es : TxnKeyEntries) → length es ≤ 1 → AscendingFrom 0 es
short-AscendingFrom [] le = tt
short-AscendingFrom (e ∷ []) le = (omega arith, tt)
short-AscendingFrom (e ∷ x ∷ es) le = absurd (omega arith)

-- A lock set whose entries name hashes alone, sorted and merged, has its hashes in strictly
-- ascending order, so each comes once.
pub sort_by_key_hash-AscendingFrom :
    (es : TxnKeyEntries) → HashOnly es → AscendingFrom 0 (sort_by_key_hash es)
unfolding sort_by_key_hash
sort_by_key_hash-AscendingFrom es h = elim (Bool-cases (leb (length es) 1)) [
  | inl short ↦ rw short (short-AscendingFrom es (ground arith))
  | inr long ↦ rw long (
      merge_sorted-AscendingFrom (sort_entries es) (sort_entries-SortedFrom es)
        (sort_entries-HashOnly es h))
]
