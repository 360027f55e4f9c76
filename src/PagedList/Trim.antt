-- ===== src/PagedList/Trim.antt =====
-- LTRIM of wedb_list/src/list.rs drops whole pages from both ends and cuts the two at the border; it
-- leaves the elements that LRANGE would return.
use garnet_rust.Common.{
  ℕ, zero, suc, ◌+◌, ◌-◌, ◌≤◌, ◌<◌, ◌≡◌, refl, ap, ap₂, sym, ◌∙◌, inl, inr, List, [], ◌∷◌, ◌++◌,
  Option, none, some, arith, append-nil, length, length-append, ltb, ◌==◌, if◌then◌else◌,
  Bool-cases, take, drop, min, reverse, Option-cases, suc-==-zero, drop-nil, drop-append_past,
  length-take, length-drop, drop-append_left, take-append_left, take-append_right, take_all,
  take-nil,
}
use mathlib.Core.List.{reverse-cons, reverse-reverse}
use garnet_rust.Common.Int.{ℤ}
use garnet_rust.PagedList.Page
use garnet_rust.PagedList.Object.{Bytes, BytesPage, ListObject, flat, to_list, AllGood, IsValid}
use garnet_rust.PagedList.Directory.{flat-append, AllGood-append}
use garnet_rust.PagedList.Range.{normalize_range}
use garnet_rust.PagedList.RangeLaws.{
  first_of_range, end_of_range, between, normalize_range-some, normalize_range-none,
}

-- The loop over the front pages: the elements removed and the pages left.
unfoldable pub trim_head : ℕ → ℕ → List BytesPage → ℕ × List BytesPage
unfolding Page.drain_front
trim_head head removed [] = (removed, [])
trim_head head removed (p ∷ ps) =
    if head == 0
    then (removed, p ∷ ps)
    else if ltb head (Page.len p)
    then (removed + head, Page.drain_front head p ∷ ps)
    else trim_head (head - Page.len p) (removed + Page.len p) ps

-- The loop over the back pages, which come in reverse.
unfoldable pub trim_tail : ℕ → List BytesPage → List BytesPage
unfolding Page.drain_back
trim_tail tail [] = []
trim_tail tail (p ∷ rs) =
    if tail == 0
    then p ∷ rs
    else if ltb tail (Page.len p)
    then Page.drain_back tail p ∷ rs
    else trim_tail (tail - Page.len p) rs

unfoldable pub trim_to : ListObject → Option (ℕ × ℕ) → ListObject
unfolding trim_head trim_tail
trim_to o none = record { pages = []; len = 0 }
trim_to o (some (keep_start, stop)) =
    let keep_len = stop + 1 - keep_start in
    let (head_removed, pages) = trim_head keep_start 0 o.pages in
    let tail = o.len - head_removed - keep_len in
    record { pages = reverse (trim_tail tail (reverse pages)); len = keep_len }

unfoldable pub ltrim : ListObject → ℤ → ℤ → ListObject
ltrim o start stop = if o.len == 0 then o else trim_to o (normalize_range o start stop)

-- The head loop drops the first elements and counts them.
trim_head-drop :
    (head removed : ℕ) (ps : List BytesPage)
    → head ≤ length (flat ps)
    → ((trim_head head removed ps).0 ≡ removed + head)
      × (flat (trim_head head removed ps).1 ≡ drop head (flat ps))
unfolding trim_head
trim_head-drop zero removed [] h = ground arith
trim_head-drop (suc head) removed [] h = absurd (omega arith)
trim_head-drop zero removed (p ∷ ps) h = ground arith
trim_head-drop (suc k) removed (p ∷ ps) h =
    let head = suc k in
    elim (Bool-cases (ltb head (length p.items))) [
      | inl cut ↦ ground (arith, drop-append_left head p.items (flat ps))
      | inr whole ↦ ground (
        arith,
        length-append p.items (flat ps),
        trim_head-drop (head - length p.items) (removed + length p.items) ps,
        drop-append_past head p.items (flat ps),
      )
    ]

trim_head-AllGood :
    (head removed : ℕ) (ps : List BytesPage) → AllGood ps → AllGood (trim_head head removed ps).1
unfolding trim_head
trim_head-AllGood head removed [] g = tt
trim_head-AllGood head removed (p ∷ ps) g = ground (
  arith,
  length-drop (min head (length p.items)) p.items,
  trim_head-AllGood (head - length p.items) (removed + length p.items) ps g.1,
)

abbrev flat_rev : List BytesPage → List Bytes
flat_rev rs = flat (reverse rs)

flat_rev-cons : (p : BytesPage) (rs : List BytesPage) → flat_rev (p ∷ rs) ≡ flat_rev rs ++ p.items
flat_rev-cons p rs = rw (reverse-cons p rs, flat-append (reverse rs) (p ∷ []), append-nil p.items)

-- The tail loop drops the last elements.
trim_tail-take :
    (tail : ℕ) (rs : List BytesPage)
    → tail ≤ length (flat_rev rs)
    → flat_rev (trim_tail tail rs) ≡ take (length (flat_rev rs) - tail) (flat_rev rs)
unfolding trim_tail
trim_tail-take tail [] h = sym (take-nil (0 - tail))
trim_tail-take zero (p ∷ rs) h =
    sym (take_all (length (flat_rev (p ∷ rs)) - 0) (flat_rev (p ∷ rs)) (omega arith))
trim_tail-take (suc k) (p ∷ rs) h =
    let tail = suc k in
    let xs = flat_rev rs in
    let n : length (flat_rev (p ∷ rs)) ≡ length xs + length p.items =
      ap length (flat_rev-cons p rs) ∙ length-append xs p.items in
    elim (Bool-cases (ltb tail (length p.items))) [
      | inl cut ↦
          let q : BytesPage = record { items = take (length p.items - tail) p.items } in
          let m : length (flat_rev (p ∷ rs)) - tail ≡ length xs + (length p.items - tail) =
            ground (arith, n) in
          rw (suc-==-zero k, cut, m, flat_rev-cons q rs, flat_rev-cons p rs)
            (sym (take-append_right (length p.items - tail) xs p.items))
      | inr whole ↦
          let m : length (flat_rev (p ∷ rs)) - tail ≡ length xs - (tail - length p.items) =
            ground (arith, n) in
          rw
            (
              suc-==-zero k,
              whole,
              m,
              flat_rev-cons p rs,
              take-append_left (length xs - (tail - length p.items)) xs p.items (omega arith),
            )
            (trim_tail-take (tail - length p.items) rs (omega (arith, n, h)))
    ]

trim_tail-AllGood : (tail : ℕ) (rs : List BytesPage) → AllGood rs → AllGood (trim_tail tail rs)
unfolding trim_tail
trim_tail-AllGood tail [] g = tt
trim_tail-AllGood tail (p ∷ rs) g = ground (
  arith,
  length-take (length p.items - tail) p.items,
  trim_tail-AllGood (tail - length p.items) rs g.1,
)

AllGood-reverse : (ps : List BytesPage) → AllGood ps → AllGood (reverse ps)
AllGood-reverse [] g = tt
AllGood-reverse (p ∷ ps) g =
    rw (reverse-cons p ps) (AllGood-append (reverse ps) (p ∷ []) (AllGood-reverse ps g.1) (g.0, tt))

trim_to-between :
    (o : ListObject) (a b : ℕ)
    → IsValid o
    → a ≤ b
    → b < o.len
    → IsValid (trim_to o (some (a, b)))
      × (to_list (trim_to o (some (a, b))) ≡ between a (b + 1) (to_list o))
unfolding trim_to
trim_to-between o a b h le lt =
    let (n, f) = trim_head-drop a 0 o.pages (omega (arith, h.counted)) in
    let left = (trim_head a 0 o.pages).1 in
    let tail = o.len - (trim_head a 0 o.pages).0 - (b + 1 - a) in
    let r : flat_rev (reverse left) ≡ drop a (to_list o) = rw reverse-reverse f in
    let m : length (flat_rev (reverse left)) ≡ o.len - a =
      ap length r ∙ (length-drop a (to_list o) ∙ omega (arith, h.counted)) in
    let k : length (flat_rev (reverse left)) - tail ≡ b + 1 - a = omega (arith, m, n) in
    let t : flat_rev (trim_tail tail (reverse left)) ≡ between a (b + 1) (to_list o) =
      trim_tail-take tail (reverse left) (omega (arith, m)) ∙ ap₂ take k r in
    (
      record {
        good = AllGood-reverse _ (
            trim_tail-AllGood tail (reverse left)
              (AllGood-reverse left (trim_head-AllGood a 0 o.pages h.good)));
        counted = omega (
          arith,
          ap length t,
          length-take (b + 1 - a) (drop a (to_list o)),
          length-drop a (to_list o),
          h.counted,
        );
      },
      t,
    )

between-nothing : (a b : ℕ) (xs : List Bytes) → length xs ≡ 0 → xs ≡ between a b xs
between-nothing a b [] e = rw (drop-nil a, take-nil (b - a))
between-nothing a b (x ∷ xs) e = absurd (omega (arith, e))

between-empty : (a b : ℕ) (xs : List Bytes) → b ≤ a → [] ≡ between a b xs
between-empty a b xs h = let z : 0 ≡ b - a = omega arith in ap (λ k. take k (drop a xs)) z

-- On a valid list, LTRIM keeps the invariant and exactly the elements that LRANGE gives for the same
-- two indices.
pub ltrim_lem :
    (o : ListObject) (start stop : ℤ)
    → IsValid o
    → let n = length (to_list o) in
      IsValid (ltrim o start stop)
      × (to_list (ltrim o start stop)
          ≡ between (first_of_range n start) (end_of_range n stop) (to_list o))
unfolding ltrim trim_to
ltrim_lem o start stop h =
    let n = length (to_list o) in
    elim (Bool-cases (o.len == 0)) [
      | inl nothing ↦ rw nothing (
        h,
        between-nothing (first_of_range n start) (end_of_range n stop) (to_list o)
            (ground (arith, h.counted)),
      )
      | inr more ↦
          rw (more, ← h.counted)
            (elim (Option-cases (normalize_range o start stop)) [
              | inl e ↦ rw e (
                record { good = tt; counted = refl },
                between-empty (first_of_range o.len start) (end_of_range o.len stop) (to_list o)
                    (ground (arith, normalize_range-none o start stop e)),
              )
              | inr ((a, b), e) ↦
                  let (p, q, le, lt) = normalize_range-some o start stop e in
                  rw (e, ← p, ← q) (trim_to-between o a b h le lt)
            ])
    ]
