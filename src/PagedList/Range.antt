-- ===== src/PagedList/Range.antt =====
-- wedb_list/src/list.rs: index ranges, the iterator `Slices` over the elements of a range, and LRANGE.
use garnet_rust.Common.{
  ℕ, zero, suc, ◌+◌, ◌-◌, ◌^◌, List, [], ◌∷◌, Option, none, some, ltb, leb, ◌==◌, if◌then◌else◌,
  get_elem?,
}
use garnet_rust.Common.Int.{ℤ, pos, negsuc, pos_part, ltb_ℤ, ◌+ℤ◌}
use garnet_rust.PagedList.Page
use garnet_rust.PagedList.Object.{Bytes, BytesPage, ListObject}
use garnet_rust.PagedList.Access.{locate, get_in_page}

abbrev pub max_ℤ : ℤ → ℤ → ℤ
max_ℤ a b = if ltb_ℤ a b then b else a

abbrev pub min_ℤ : ℤ → ℤ → ℤ
min_ℤ a b = if ltb_ℤ b a then b else a

-- The first and the last index of a closed range, `none` when it is empty.
unfoldable pub normalize_range : ListObject → ℤ → ℤ → Option (ℕ × ℕ)
normalize_range o start stop =
    let actual_start = if ltb_ℤ start (pos 0) then max_ℤ (pos o.len +ℤ start) (pos 0) else start in
    let actual_stop =
      if ltb_ℤ stop (pos 0) then pos o.len +ℤ stop else min_ℤ stop (pos o.len +ℤ negsuc 0) in
    if o.len == 0
    then none
    else if ltb_ℤ actual_stop actual_start
    then none
    else some (pos_part actual_start, pos_part actual_stop)

pub record Slices : Type 0 where
  pub pages : List BytesPage
  pub front : ℕ × ℕ
  pub back : ℕ × ℕ
  pub remaining : ℕ

abbrev pub or_origin : Option (ℕ × ℕ) → ℕ × ℕ
or_origin none = (0, 0)
or_origin (some p) = p

unfoldable pub slices : ListObject → ℕ → ℕ → Slices
slices o start end =
    if leb end start
    then record { pages = o.pages; front = (0, 0); back = (0, 0); remaining = 0 }
    else record {
      pages = o.pages;
      front = or_origin (locate o start);
      back = or_origin (locate o (end - 1));
      remaining = end - start;
    }

abbrev pub after_front : ℕ × ℕ → Option BytesPage → ℕ × ℕ
after_front c none = c
after_front c (some page) = if leb (Page.len page) (c.1 + 1) then (c.0 + 1, 0) else (c.0, c.1 + 1)

unfoldable pub advance_front : Slices → Slices
advance_front s = record s { front = after_front s.front (get_elem? s.pages s.front.0) }

-- `usize::wrapping_sub(1)`
abbrev pub wrapping_pred : ℕ → ℕ
wrapping_pred n = if n == 0 then 2 ^ 64 - 1 else n - 1

abbrev pub last_index : Option BytesPage → ℕ
last_index none = 0
last_index (some page) = Page.len page - 1

abbrev pub before_back : List BytesPage → ℕ × ℕ → ℕ × ℕ
before_back pages c =
    if c.1 == 0
    then (wrapping_pred c.0, last_index (get_elem? pages (wrapping_pred c.0)))
    else (c.0, c.1 - 1)

unfoldable pub advance_back : Slices → Slices
advance_back s = record s { back = before_back s.pages s.back }

-- The item at a cursor, and the iterator that has given it out.
abbrev pub give : (Slices → Slices) → Slices → Option Bytes → Option Bytes × Slices
give advance s none = (none, s)
give advance s (some v) =
    let s' : Slices = record s { remaining = s.remaining - 1 } in
    (some v, if ltb 0 s'.remaining then advance s' else s')

unfoldable pub next : Slices → Option Bytes × Slices
unfolding advance_front
next s =
    if s.remaining == 0
    then (none, s)
    else give advance_front s (get_in_page s.front.1 (get_elem? s.pages s.front.0))

unfoldable pub next_back : Slices → Option Bytes × Slices
unfolding advance_back
next_back s =
    if s.remaining == 0
    then (none, s)
    else give advance_back s (get_in_page s.back.1 (get_elem? s.pages s.back.0))

-- What an iterator gives out until it gives nothing, from either end. The fuel bounds the calls.
unfoldable pub collect_with : (Slices → Option Bytes × Slices) → ℕ → Slices → List Bytes
collect_with step zero s = []
collect_with step (suc n) s =
    let (v, s') = step s in elim v [ none ↦ [] | some x ↦ x ∷ collect_with step n s' ]

abbrev pub collect : Slices → List Bytes
collect s = collect_with next (suc s.remaining) s

abbrev pub collect_back : Slices → List Bytes
collect_back s = collect_with next_back (suc s.remaining) s

abbrev pub slices_of : ListObject → Option (ℕ × ℕ) → List Bytes
slices_of o none = []
slices_of o (some (start, stop)) = collect (slices o start (stop + 1))

-- LRANGE
unfoldable pub lrange : ListObject → ℤ → ℤ → List Bytes
lrange o start stop = slices_of o (normalize_range o start stop)

-- `iter`, read forwards, and `iter().rev()`.
unfoldable pub iter : ListObject → List Bytes
iter o = collect (slices o 0 o.len)

unfoldable pub iter_rev : ListObject → List Bytes
iter_rev o = collect_back (slices o 0 o.len)
