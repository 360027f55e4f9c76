-- ===== src/PagedList/Index.antt =====
-- LINDEX and LSET of wedb_list/src/list.rs against the list of elements.
use garnet_rust.Common.{
  ℕ, ◌-◌, ◌<◌, ◌≡◌, refl, inl, inr, List, ◌∷◌, ◌++◌, Option, none, some, arith, length, get_elem?,
  set-append_left, set-append_right, get_elem?-none, ltb, if◌then◌else◌, Bool-cases, set,
  length-set, add-zero,
}
use garnet_rust.Common.Int.{ℤ, pos, negsuc}
use garnet_rust.Common.Result.{Result, ok, err}
use garnet_rust.PagedList.Object.{Bytes, BytesPage, ListObject, flat, to_list, AllGood, IsValid}
use garnet_rust.PagedList.Directory.{flat-append, AllGood-split, AllGood-join}
use garnet_rust.PagedList.Access
use garnet_rust.PagedList.Access.{
  write_at, write_in_page, Error, index_out_of_range, normalize_index, locate, lindex, lset,
  locate_normalized, get_at,
}
use garnet_rust.PagedList.Locate.{
  Located, Finds, locate-Finds, locate-none, Located-page, Located-element, flat-Located,
}

-- The position that a client's index names in a list of `n` elements: from the front, or, when
-- negative, from the back.
abbrev pub position_of : ℕ → ℤ → Option ℕ
position_of n (pos i) = if ltb i n then some i else none
position_of n (negsuc i) = if ltb i n then some (n - 1 - i) else none

normalize_index-position_of : (o : ListObject) (i : ℤ) → normalize_index o i ≡ position_of o.len i
unfolding normalize_index
normalize_index-position_of o (pos i) = ground arith
normalize_index-position_of o (negsuc i) = ground arith

position_of-lt : (n : ℕ) (i : ℤ) {k : ℕ} → position_of n i ≡ some k → k < n
position_of-lt n (pos i) e = ground arith
position_of-lt n (negsuc i) e = ground arith

get_at-locate :
    (o : ListObject) (idx : ℕ)
    → IsValid o
    → get_at o.pages (locate o idx) ≡ get_elem? (to_list o) idx
get_at-locate o idx h = elim (Bool-cases (ltb idx o.len)) [
  | inl inside ↦ found (locate-Finds o idx h (ground arith))
  | inr outside ↦
      rw (
        locate-none o idx (ground arith),
        get_elem?-none (to_list o) idx (ground (arith, h.counted)),
      )
]
  where
    found :
        Finds o.pages idx (locate o idx) → get_at o.pages (locate o idx) ≡ get_elem? (to_list o) idx
    found (pi, local, e, l) = rw (e, Located-page l, Located-element l)

abbrev pub read_at : List Bytes → Option ℕ → Option Bytes
read_at xs none = none
read_at xs (some i) = get_elem? xs i

-- On a valid list, LINDEX returns the element at the position that the index names, counted from the
-- front or from the back, and nothing when the index is out of range.
pub lindex_lem :
    (o : ListObject) (index : ℤ)
    → IsValid o
    → lindex o index ≡ read_at (to_list o) (position_of (length (to_list o)) index)
unfolding lindex
lindex_lem o index h =
    rw (normalize_index-position_of o index, ← h.counted) (go (position_of o.len index))
  where
    go : (p : Option ℕ) → get_at o.pages (Access.and_locate o p) ≡ read_at (to_list o) p
    go none = refl
    go (some i) = get_at-locate o i h

-- A write at a located element changes that element of the list, and no page's length.
write_at-Located :
    (ps : List BytesPage) (v : Bytes) {idx pi local : ℕ}
    → (l : Located ps idx pi local) → AllGood ps
    → (qs : List BytesPage) × (write_at v ps (some (pi, local)) ≡ some qs)
      × (flat qs ≡ set (flat ps) idx v)
      × AllGood qs
unfolding write_at write_in_page
write_at-Located ps v {idx} {pi} {local} l g =
    let q : BytesPage = record { items = set l.page.items local v } in
    let g' : AllGood (l.before ++ l.page ∷ l.after) = rw (← l.parts) g in
    let (gs, gp, hs) = AllGood-split l.before l.page l.after g' in
    (
      l.before ++ q ∷ l.after,
      rw
          (
            Located-page l,
            l.parts,
            l.index,
            ← add-zero (length l.before),
            set-append_right l.before (l.page ∷ l.after) 0 q,
          )
          (ground (arith, l.inside)),
      rw (
        flat-append l.before (q ∷ l.after),
        flat-Located l,
        l.offset,
        set-append_right (flat l.before) (l.page.items ++ flat l.after) local v,
        set-append_left l.page.items (flat l.after) local v l.inside,
      ),
      AllGood-join l.before q l.after gs (rw (length-set l.page.items local v) gp) hs,
    )

abbrev pub set_at : List Bytes → Option ℕ → Bytes → List Bytes × Result (Unit {0}) Error
set_at xs none v = (xs, err index_out_of_range)
set_at xs (some i) v = (set xs i v, ok tt)

-- On a valid list, LSET puts the value at the position that the index names and nowhere else; out of
-- range it reports `index_out_of_range` and changes nothing; it keeps the invariant.
pub lset_lem :
    (o : ListObject) (index : ℤ) (v : Bytes)
    → IsValid o
    → let (o', r) = lset o index v in
      IsValid o' × ((to_list o', r) ≡ set_at (to_list o) (position_of (length (to_list o)) index) v)
unfolding lset
lset_lem o index v h =
    rw (normalize_index-position_of o index, ← h.counted) (go (position_of o.len index) refl)
  where
    go :
        (p : Option ℕ)
        → position_of o.len index ≡ p
        → let (o', r) = Access.written o (write_at v o.pages (Access.and_locate o p)) in
          IsValid o' × ((to_list o', r) ≡ set_at (to_list o) p v)
    go none e = (h, refl)
    go (some i) e = located (locate-Finds o i h (position_of-lt o.len index e))
      where
        located :
            Finds o.pages i (locate o i)
            → let (o', r) = Access.written o (write_at v o.pages (locate o i)) in
              IsValid o' × ((to_list o', r) ≡ set_at (to_list o) (some i) v)
        located (pi, local, f, l) =
            let (qs, w, fl, g) = write_at-Located o.pages v l h.good in
            rw (f, w)
              (record { good = g; counted = rw (fl, length-set (to_list o) i v) h.counted }, rw fl)
