-- ===== src/PagedList/Insert.antt =====
-- LINSERT of wedb_list/src/list.rs: the search for the pivot and the insertion into its page, which is
-- split in two when it is full. `none` is a panic (an index out of range).
use garnet_rust.Common.{
  ℕ, ◌+◌, ◌-◌, ◌/◌, List, [], ◌∷◌, Option, none, some, ltb, if◌then◌else◌, get_elem?, set,
  insert_at, position, bytes_eq,
}
use garnet_rust.Common.Int.{ℤ, pos, negsuc}
use garnet_rust.PagedList.Page
use garnet_rust.PagedList.Page.{default_page_capacity}
use garnet_rust.PagedList.Object.{Bytes, BytesPage, ListObject}

pub data InsertPosition : Type 0 where
  before after : InsertPosition

infixl 5 ◌>>=◌
abbrev pub ◌>>=◌ {ℓ κ} : {A : Type ℓ} {B : Type κ} → Option A → (A → Option B) → Option B
none >>= f = none
some a >>= f = f a

-- A full page keeps its front half; the back half becomes a page of its own behind it.
unfoldable pub insert_split : List BytesPage → ℕ → ℕ → Bytes → BytesPage → Option (List BytesPage)
unfolding Page.split Page.insert
insert_split pages pi local v page =
    let half = Page.len page / 2 in
    let (left, right) = Page.split page in
    let into_left = (do
      left' ← Page.insert local v left
      insert_at (pi + 1) right (set pages pi left')) in
    let into_right = (do
      right' ← Page.insert (local - half) v right
      insert_at (pi + 1) right' (set pages pi left)) in
    if ltb local half then into_left else into_right

unfoldable pub insert_page : List BytesPage → ℕ → ℕ → Bytes → BytesPage → Option (List BytesPage)
unfolding insert_split
insert_page pages pi local v page =
    let room = (do page' ← Page.insert local v page; some (set pages pi page')) in
    if Page.is_full default_page_capacity page then insert_split pages pi local v page else room

unfoldable pub insert_into_page : ListObject → ℕ → ℕ → Bytes → Option ListObject
unfolding insert_page
insert_into_page o pi local v = do
  page ← get_elem? o.pages pi
  pages ← insert_page o.pages pi local v page
  some (record { pages = pages; len = o.len + 1 })

-- The page and the offset of the first element equal to the pivot.
unfoldable pub find_pivot : Bytes → ℕ → List BytesPage → Option (ℕ × ℕ)
find_pivot pivot pi [] = none
find_pivot pivot pi (p ∷ ps) = elim (position (λ item. bytes_eq item pivot) p.items) [
  | some i ↦ some (pi, i)
  | none ↦ find_pivot pivot (pi + 1) ps
]

abbrev pub offset_of : InsertPosition → ℕ → ℕ
offset_of before local = local
offset_of after local = local + 1

abbrev pub insert_found :
    ListObject → Bytes → InsertPosition → Option (ℕ × ℕ) → Option (ListObject × ℤ)
insert_found o v at none = some (o, negsuc 0)
insert_found o v at (some (pi, local)) = do
  o' ← insert_into_page o pi (offset_of at local) v
  some (o', pos o'.len)

unfoldable pub linsert : ListObject → Bytes → Bytes → InsertPosition → Option (ListObject × ℤ)
unfolding find_pivot insert_into_page
linsert o pivot v at = insert_found o v at (find_pivot pivot 0 o.pages)
