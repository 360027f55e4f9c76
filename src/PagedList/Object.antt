-- ===== src/PagedList/Object.antt =====
-- wedb_list/src/list.rs: the object, its pushes and pops at both ends. An element is its bytes. The
-- page directory (`VecDeque<Page>`) is a list, its front first; `len` counts the elements. A method
-- that changes `self` returns the new object. `usize` counters are numbers: none passes the number of
-- elements in memory, and `len -= 1` is reached with an element at hand.
use garnet_rust.Common.{
  ℕ, ◌+◌, ◌-◌, ◌≤◌, ◌<◌, ◌≡◌, List, [], ◌∷◌, ◌++◌, Option, none, some, ltb, ◌==◌, if◌then◌else◌,
  length, unsnoc,
}
use garnet_rust.PagedList.Page
use garnet_rust.PagedList.Page.{LinkedPage, default_page_capacity}

abbrev pub Bytes : Type 0
Bytes = List ℕ

abbrev pub BytesPage : Type 0
BytesPage = LinkedPage Bytes

pub record ListObject : Type 0 where
  pub pages : List BytesPage
  pub len : ℕ

-- The elements of the pages in order.
abbrev pub flat : List BytesPage → List Bytes
flat [] = []
flat (p ∷ ps) = p.items ++ flat ps

-- What a client sees of the object.
abbrev pub to_list : ListObject → List Bytes
to_list o = flat o.pages

-- No page is empty or over its capacity.
abbrev pub Good : BytesPage → Type 0
Good p = (0 < Page.len p) × (Page.len p ≤ default_page_capacity)

abbrev pub AllGood : List BytesPage → Type 0
AllGood [] = Unit
AllGood (p ∷ ps) = Good p × AllGood ps

-- The invariant that the source states beside the type.
pub record IsValid (o : ListObject) : Type 0 where
  pub good : AllGood o.pages
  pub counted : o.len ≡ length (to_list o)

abbrev pub empty : ListObject
empty = record { pages = []; len = 0 }

-- A page with one element.
abbrev pub single : Bytes → BytesPage
single v = (Page.push_front default_page_capacity v Page.new).0

abbrev pub single_back : Bytes → BytesPage
single_back v = (Page.push_back default_page_capacity v Page.new).0

unfoldable pub push_front_pages : Bytes → List BytesPage → List BytesPage
unfolding Page.push_front
push_front_pages v [] = single v ∷ []
push_front_pages v (p ∷ ps) =
    if ltb 0 (Page.remaining_capacity default_page_capacity p)
    then (Page.push_front default_page_capacity v p).0 ∷ ps
    else single v ∷ p ∷ ps

unfoldable pub push_front_inner : Bytes → ListObject → ListObject
unfolding push_front_pages
push_front_inner v o = record { pages = push_front_pages v o.pages; len = o.len + 1 }

unfoldable pub push_back_last :
    Bytes → List BytesPage → Option (BytesPage × List BytesPage) → List BytesPage
unfolding Page.push_back
push_back_last v pages none = pages ++ single_back v ∷ []
push_back_last v pages (some (p, init)) =
    if ltb 0 (Page.remaining_capacity default_page_capacity p)
    then init ++ (Page.push_back default_page_capacity v p).0 ∷ []
    else pages ++ single_back v ∷ []

unfoldable pub push_back_inner : Bytes → ListObject → ListObject
unfolding push_back_last
push_back_inner v o = record { pages = push_back_last v o.pages (unsnoc o.pages); len = o.len + 1 }

-- An empty list gives its page directory back.
abbrev pub release : ListObject → ListObject
release o = record { pages = if o.len == 0 then [] else o.pages; len = o.len }

-- The front page without its first element, dropped when that was the last.
abbrev pub pop_front_page :
    ListObject → List BytesPage → Option Bytes × BytesPage → Option Bytes × ListObject
pop_front_page o ps (none, p) = (none, o)
pop_front_page o ps (some v, p) =
    (some v, release (record { pages = if Page.is_empty p then ps else p ∷ ps; len = o.len - 1 }))

abbrev pub pop_front_pages : ListObject → List BytesPage → Option Bytes × ListObject
unfolding Page.pop_front
pop_front_pages o [] = (none, o)
pop_front_pages o (p ∷ ps) = pop_front_page o ps (Page.pop_front p)

unfoldable pub pop_front_inner : ListObject → Option Bytes × ListObject
unfolding Page.pop_front
pop_front_inner o = pop_front_pages o o.pages

abbrev pub pop_back_page :
    ListObject → List BytesPage → Option Bytes × BytesPage → Option Bytes × ListObject
pop_back_page o init (none, p) = (none, o)
pop_back_page o init (some v, p) = (
  some v,
  release (record { pages = if Page.is_empty p then init else init ++ p ∷ []; len = o.len - 1 }),
)

abbrev pub pop_back_pages :
    ListObject → Option (BytesPage × List BytesPage) → Option Bytes × ListObject
unfolding Page.pop_back
pop_back_pages o none = (none, o)
pop_back_pages o (some (p, init)) = pop_back_page o init (Page.pop_back p)

unfoldable pub pop_back_inner : ListObject → Option Bytes × ListObject
unfolding Page.pop_back
pop_back_inner o = pop_back_pages o (unsnoc o.pages)
