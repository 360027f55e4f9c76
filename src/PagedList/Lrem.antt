-- ===== src/PagedList/Lrem.antt =====
-- LREM of wedb_list/src/list.rs: the removal of elements equal to a value, from the front, from the
-- back or everywhere, and the merging of sparse pages after it. The `u64` bit mask of a page is a
-- number: a bit is set once, so `|=` adds it; a page has at most 64 elements, so no shift overflows.
use garnet_rust.Common.{
  ℕ, zero, suc, ◌+◌, ◌-◌, ◌/◌, ◌%◌, ◌^◌, List, [], ◌∷◌, ◌++◌, Option, none, some, Bool, true, false,
  ltb, leb, ◌==◌, ◌&&◌, not, if◌then◌else◌, length, reverse, bytes_eq, unsnoc,
}
use garnet_rust.Common.Int.{ℤ, pos, negsuc}
use garnet_rust.Common.Result.{Result, ok, err}
use garnet_rust.PagedList.Page
use garnet_rust.PagedList.Page.{default_page_capacity}
use garnet_rust.PagedList.Object.{Bytes, BytesPage, ListObject}

-- The closure of `remove_from_page_head`, its state the number removed.
abbrev pub head_closure : ℕ → Bytes → ℕ → Bytes → ℕ × Bool
head_closure quota val removed item =
    if ltb removed quota && bytes_eq item val then (removed + 1, false) else (removed, true)

unfoldable pub remove_from_page_head : ℕ → Bytes → BytesPage → ℕ × BytesPage
unfolding Page.retain
remove_from_page_head quota val page = Page.retain (head_closure quota val) 0 page

-- The loop over the items from the last one on, with the mask and the number removed; the item at hand
-- is as far from the front as items are left behind it.
unfoldable pub mark_tail : ℕ → Bytes → List Bytes → ℕ → ℕ → ℕ × ℕ
mark_tail quota val [] mask removed = (mask, removed)
mark_tail quota val (item ∷ rest) mask removed =
    if quota == 0 then (mask, removed) else elim (bytes_eq item val) [
      | true ↦ mark_tail (quota - 1) val rest (mask + 2 ^ length rest) (removed + 1)
      | false ↦ mark_tail quota val rest mask removed
    ]

-- The closure that keeps the items whose bit is 0.
abbrev pub mask_closure : ℕ → Bytes → ℕ × Bool
mask_closure mask item = (mask / 2, mask % 2 == 0)

unfoldable pub remove_from_page_tail : ℕ → Bytes → BytesPage → ℕ × BytesPage
unfolding mark_tail Page.retain
remove_from_page_tail quota val page =
    let (mask, removed) = mark_tail quota val (reverse page.items) 0 0 in
    if ltb 0 removed then (removed, (Page.retain mask_closure mask page).1) else (removed, page)

-- The pages after a loop over them, and the number removed.
unfoldable pub remove_head : ℕ → Bytes → List BytesPage → ℕ → ℕ × List BytesPage
unfolding remove_from_page_head
remove_head quota val [] removed = (removed, [])
remove_head quota val (page ∷ pages) removed =
    let (r, page') = remove_from_page_head quota val page in
    let (total, pages') = remove_head (quota - r) val pages (removed + r) in
    if quota == 0 then (removed, page ∷ pages) else (total, page' ∷ pages')

-- The same from the last page on; the pages come in reverse.
unfoldable pub remove_tail : ℕ → Bytes → List BytesPage → ℕ → ℕ × List BytesPage
unfolding remove_from_page_tail
remove_tail quota val [] removed = (removed, [])
remove_tail quota val (page ∷ pages) removed =
    let (r, page') = remove_from_page_tail quota val page in
    let (total, pages') = remove_tail (quota - r) val pages (removed + r) in
    if quota == 0 then (removed, page ∷ pages) else (total, page' ∷ pages')

abbrev pub not_eq_closure : Bytes → Unit {0} → Bytes → Unit {0} × Bool
not_eq_closure val s item = (s, not (bytes_eq item val))

unfoldable pub retain_not_eq : Bytes → List BytesPage → ℕ → ℕ × List BytesPage
unfolding Page.retain
retain_not_eq val [] removed = (removed, [])
retain_not_eq val (page ∷ pages) removed =
    let page' = (Page.retain (not_eq_closure val) tt page).1 in
    let (total, pages') = retain_not_eq val pages (removed + (Page.len page - Page.len page')) in
    (total, page' ∷ pages')

abbrev pub merge_or_push : List BytesPage → BytesPage × Result (Unit {0}) BytesPage → List BytesPage
merge_or_push init (head, ok _) = init ++ head ∷ []
merge_or_push init (head, err page) = init ++ head ∷ page ∷ []

-- One round of `reclaim`: the pages kept so far, and the next page.
abbrev pub reclaim_last :
    List BytesPage → BytesPage → Option (BytesPage × List BytesPage) → List BytesPage
reclaim_last merged page none = merged ++ page ∷ []
reclaim_last merged page (some (head, init)) =
    if leb (Page.len head + Page.len page) (default_page_capacity / 2)
    then merge_or_push init (Page.try_merge default_page_capacity head page)
    else merged ++ page ∷ []

unfoldable pub reclaim_pages : List BytesPage → List BytesPage → List BytesPage
unfolding Page.try_merge
reclaim_pages merged [] = merged
reclaim_pages merged (page ∷ pages) =
    reclaim_pages (if Page.is_empty page then merged else reclaim_last merged page (unsnoc merged))
      pages

unfoldable pub reclaim : ListObject → ListObject
unfolding reclaim_pages
reclaim o = record { pages = if o.len == 0 then [] else reclaim_pages [] o.pages; len = o.len }

abbrev pub reversed : ℕ × List BytesPage → ℕ × List BytesPage
reversed (removed, pages) = (removed, reverse pages)

-- The removal by the sign of the count.
unfoldable pub remove_matches : ListObject → ℤ → Bytes → ℕ × List BytesPage
unfolding remove_head remove_tail retain_not_eq
remove_matches o (pos zero) val = retain_not_eq val o.pages 0
remove_matches o (pos (suc c)) val = remove_head (suc c) val o.pages 0
remove_matches o (negsuc c) val =
    if leb o.len (suc c)
    then retain_not_eq val o.pages 0
    else reversed (remove_tail (suc c) val (reverse o.pages) 0)

abbrev pub after_removal : ListObject → ℕ × List BytesPage → ListObject × ℕ
after_removal o (removed, pages) =
    (reclaim (record { pages = pages; len = o.len - removed }), removed)

-- LREM returns the number removed.
unfoldable pub lrem : ListObject → ℤ → Bytes → ListObject × ℕ
unfolding remove_matches reclaim
lrem o count val = if o.len == 0 then (o, 0) else after_removal o (remove_matches o count val)
