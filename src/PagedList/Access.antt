-- ===== src/PagedList/Access.antt =====
-- wedb_list/src/list.rs: indices, the search for the page of an index, reads, writes and removal at
-- an index. An `isize` is an integer; `checked_add` and `saturating_add` of a length and a negative
-- `isize` stay in range, so they are sums.
use garnet_rust.Common.{
  ℕ, suc, ◌+◌, ◌-◌, ◌*◌, List, [], ◌∷◌, Option, none, some, ltb, leb, ◌==◌, not, ◌&&◌,
  if◌then◌else◌, length, get_elem?, set, reverse, zero,
}
use garnet_rust.Common.Int.{ℤ, pos, pos_part, ltb_ℤ, ◌+ℤ◌}
use garnet_rust.Common.Result.{Result, ok, err}
use garnet_rust.PagedList.Page
use garnet_rust.PagedList.Object.{Bytes, BytesPage, ListObject, release}

-- wedb_list/src/error.rs; the text of a bitcode error is left out.
pub data Error : Type 0 where
  index_out_of_range buffer_too_short corrupted_data bitcode : Error

unfoldable pub normalize_index : ListObject → ℤ → Option ℕ
normalize_index o index =
    let absolute = if ltb_ℤ index (pos 0) then pos o.len +ℤ index else index in
    if o.len == 0
    then none
    else if not (ltb_ℤ absolute (pos 0)) && ltb_ℤ absolute (pos o.len)
    then some (pos_part absolute)
    else none

-- The scan from the front: `acc` elements stand before page `pi`.
unfoldable pub locate_front : ℕ → ℕ → ℕ → List BytesPage → Option (ℕ × ℕ)
locate_front idx acc pi [] = none
locate_front idx acc pi (p ∷ ps) =
    if ltb idx (acc + Page.len p)
    then some (pi, idx - acc)
    else locate_front idx (acc + Page.len p) (pi + 1) ps

-- The scan from the back, over the pages in reverse: `acc` elements stand before the end of the page
-- at hand, whose index is `pi - 1`.
unfoldable pub locate_back : ℕ → ℕ → ℕ → List BytesPage → Option (ℕ × ℕ)
locate_back idx acc pi [] = none
locate_back idx acc pi (p ∷ ps) =
    let start = acc - Page.len p in
    if leb start idx then some (pi - 1, idx - start) else locate_back idx start (pi - 1) ps

-- The page of an index and the offset in it, found from the nearer end.
unfoldable pub locate : ListObject → ℕ → Option (ℕ × ℕ)
unfolding locate_front locate_back
locate o idx =
    if leb o.len idx
    then none
    else if leb (idx * 2) o.len
    then locate_front idx 0 0 o.pages
    else locate_back idx o.len (length o.pages) (reverse o.pages)

-- `self.pages.get(pi)?.get(local)`
abbrev pub get_in_page : ℕ → Option BytesPage → Option Bytes
get_in_page i none = none
get_in_page i (some p) = Page.get p i

abbrev pub get_at : List BytesPage → Option (ℕ × ℕ) → Option Bytes
get_at pages none = none
get_at pages (some (pi, i)) = get_in_page i (get_elem? pages pi)

abbrev pub and_locate : ListObject → Option ℕ → Option (ℕ × ℕ)
and_locate o none = none
and_locate o (some idx) = locate o idx

abbrev pub locate_normalized : ListObject → ℤ → Option (ℕ × ℕ)
locate_normalized o index = and_locate o (normalize_index o index)

-- LINDEX
unfoldable pub lindex : ListObject → ℤ → Option Bytes
lindex o index = get_at o.pages (locate_normalized o index)

-- The write through `lindex_mut`.
unfoldable pub write_in_page :
    ℕ → Bytes → List BytesPage → ℕ → Option BytesPage → Option (List BytesPage)
write_in_page i v pages pi none = none
write_in_page i v pages pi (some p) =
    if ltb i (Page.len p) then some (set pages pi (record { items = set p.items i v })) else none

unfoldable pub write_at : Bytes → List BytesPage → Option (ℕ × ℕ) → Option (List BytesPage)
unfolding write_in_page
write_at v pages none = none
write_at v pages (some (pi, i)) = write_in_page i v pages pi (get_elem? pages pi)

abbrev pub written : ListObject → Option (List BytesPage) → ListObject × Result (Unit {0}) Error
written o none = (o, err index_out_of_range)
written o (some pages) = (record o { pages = pages }, ok tt)

-- LSET
unfoldable pub lset : ListObject → ℤ → Bytes → ListObject × Result (Unit {0}) Error
unfolding write_at
lset o index v = written o (write_at v o.pages (locate_normalized o index))

-- The page that has lost an element is put back, or dropped when it is empty.
unfoldable pub put_back : List BytesPage → ℕ → BytesPage → List BytesPage
put_back [] pi q = []
put_back (p ∷ ps) zero q = if Page.is_empty q then ps else q ∷ ps
put_back (p ∷ ps) (suc pi) q = p ∷ put_back ps pi q

abbrev pub removed_from : ListObject → ℕ → Option Bytes × BytesPage → Option Bytes × ListObject
removed_from o pi (none, q) = (none, o)
removed_from o pi (some v, q) =
    (some v, release (record { pages = put_back o.pages pi q; len = o.len - 1 }))

abbrev pub remove_in_page : ListObject → ℕ → ℕ → Option BytesPage → Option Bytes × ListObject
remove_in_page o pi i none = (none, o)
remove_in_page o pi i (some p) = removed_from o pi (Page.remove i p)

abbrev pub remove_located : ListObject → Option (ℕ × ℕ) → Option Bytes × ListObject
remove_located o none = (none, o)
remove_located o (some (pi, i)) = remove_in_page o pi i (get_elem? o.pages pi)

unfoldable pub remove_at : ListObject → ℕ → Option Bytes × ListObject
unfolding put_back Page.remove
remove_at o idx = remove_located o (locate o idx)
