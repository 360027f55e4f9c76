-- ===== src/PagedList/Moves.antt =====
-- wedb_list/src/list.rs: the commands made of pushes and pops (LPUSH, RPUSH, LPUSHX, RPUSHX, LPOP,
-- RPOP, LMOVE, RPOPLPUSH, rotation and bulk transfer) and the iterator `Drain` behind them.
use garnet_rust.Common.{
  ℕ, zero, suc, ◌+◌, ◌-◌, List, [], ◌∷◌, ◌++◌, Option, none, some, Bool, true, false, ◌==◌, ◌||◌,
  if◌then◌else◌, min, unsnoc, uncons,
}
use mathlib.Core.Option
use garnet_rust.PagedList.Object.{
  Bytes, BytesPage, ListObject, push_front_inner, push_back_inner, pop_front_inner, pop_back_inner,
}
use garnet_rust.PagedList.Access.{remove_at}

unfoldable pub push_all : (Bytes → ListObject → ListObject) → List Bytes → ListObject → ListObject
push_all push [] o = o
push_all push (v ∷ vs) o = push_all push vs (push v o)

abbrev pub with_len : ListObject → ListObject × ℕ
with_len o = (o, o.len)

-- LPUSH and RPUSH return the new length.
unfoldable pub lpush : List Bytes → ListObject → ListObject × ℕ
unfolding push_all
lpush values o = with_len (push_all push_front_inner values o)

unfoldable pub rpush : List Bytes → ListObject → ListObject × ℕ
unfolding push_all
rpush values o = with_len (push_all push_back_inner values o)

unfoldable pub lpushx : List Bytes → ListObject → ListObject × ℕ
lpushx values o = if o.len == 0 then (o, 0) else lpush values o

unfoldable pub rpushx : List Bytes → ListObject → ListObject × ℕ
rpushx values o = if o.len == 0 then (o, 0) else rpush values o

-- `Drain::next` from index `start`, and `Drain::next_back` from its last index.
unfoldable pub drain_next : ℕ → ListObject → Option Bytes × ListObject
drain_next start o = if start == 0 then pop_front_inner o else remove_at o start

unfoldable pub drain_next_back : ℕ → ListObject → Option Bytes × ListObject
drain_next_back idx o = if idx + 1 == o.len then pop_back_inner o else remove_at o idx

-- Reading a drain to its end, `remaining` elements at most, and doing `use` with each.
unfoldable pub drain_left {ℓ} : {S : Type ℓ} → (Bytes → S → S) → ℕ → S → ListObject → S × ListObject
drain_left f zero s o = (s, o)
drain_left f (suc remaining) s o =
    let (v, o') = drain_next 0 o in
    elim v [ none ↦ (s, o') | some x ↦ drain_left f remaining (f x s) o' ]

unfoldable pub drain_right {ℓ} :
    {S : Type ℓ} → (Bytes → S → S) → ℕ → ℕ → S → ListObject → S × ListObject
drain_right f start zero s o = (s, o)
drain_right f start (suc remaining) s o =
    let (v, o') = drain_next_back (start + remaining) o in
    elim v [ none ↦ (s, o') | some x ↦ drain_right f start remaining (f x s) o' ]

-- `Vec::push`
abbrev pub append_one : Bytes → List Bytes → List Bytes
append_one v vs = vs ++ v ∷ []

-- LPOP and RPOP with a count return the elements in the order of their removal.
unfoldable pub lpop : ℕ → ListObject → List Bytes × ListObject
unfolding drain_left drain_next
lpop count o =
    if count == 0 || o.len == 0 then ([], o) else drain_left append_one (min count o.len) [] o

unfoldable pub rpop : ℕ → ListObject → List Bytes × ListObject
unfolding drain_right drain_next_back
rpop count o =
    let remaining = min count o.len in
    if count == 0 || o.len == 0
    then ([], o)
    else drain_right append_one (o.len - remaining) remaining [] o

abbrev pub push_side : Bool → Bytes → ListObject → ListObject
push_side true = push_front_inner
push_side false = push_back_inner

abbrev pub pop_side : Bool → ListObject → Option Bytes × ListObject
pop_side true = pop_front_inner
pop_side false = pop_back_inner

-- The source, the destination and the element of a move.
abbrev pub Moved : Type 0
Moved = ListObject × ListObject × Option Bytes

abbrev pub move_popped : ListObject → Bool → Option Bytes × ListObject → Moved
move_popped destination to_left (none, source) = (source, destination, none)
move_popped destination to_left (some v, source) = (source, push_side to_left v destination, some v)

-- LMOVE between two lists. `true` stands for the left side.
unfoldable pub lmove : ListObject → ListObject → Bool → Bool → Moved
lmove source destination from_left to_left =
    move_popped destination to_left (pop_side from_left source)

unfoldable pub rpoplpush : ListObject → ListObject → Moved
rpoplpush source destination = lmove source destination false true

-- LMOVE within one list: the end elements that it may show.
abbrev pub page_front : Option BytesPage → Option Bytes
page_front none = none
page_front (some p) = Option.map (λ (q : Bytes × List Bytes). q.0) (uncons p.items)

abbrev pub page_back : Option BytesPage → Option Bytes
page_back none = none
page_back (some p) = Option.map (λ (q : Bytes × List Bytes). q.0) (unsnoc p.items)

abbrev pub first_of {ℓ κ} : {A : Type ℓ} {B : Type κ} → Option (A × B) → Option A
first_of none = none
first_of (some p) = some p.0

abbrev pub peek_side : Bool → ListObject → Option Bytes
peek_side true o = page_front (first_of (uncons o.pages))
peek_side false o = page_back (first_of (unsnoc o.pages))

-- An element popped at one side goes back in at the other; the pop's `?` ends the call.
abbrev pub put_popped : Bool → Option Bytes × ListObject → Option Bytes × ListObject
put_popped to_left (none, o) = (none, o)
put_popped to_left (some v, o) = let o' = push_side to_left v o in (peek_side to_left o', o')

abbrev pub rotate_sides : Bool → Bool → ListObject → Option Bytes × ListObject
rotate_sides true true o = (peek_side true o, o)
rotate_sides false false o = (peek_side false o, o)
rotate_sides from_left to_left o = put_popped to_left (pop_side from_left o)

unfoldable pub rotate : ListObject → Bool → Bool → Option Bytes × ListObject
rotate o from_left to_left = if o.len == 0 then (none, o) else rotate_sides from_left to_left o

-- Bulk moves between two lists.
unfoldable pub transfer_to : ListObject → ListObject → ℕ → Bool → Bool → ListObject × ListObject × ℕ
unfolding drain_left drain_right drain_next drain_next_back
transfer_to o destination count from_left to_left =
    let take_count = min count o.len in
    let (destination', o') =
      (if from_left
        then drain_left (push_side to_left) take_count destination o
        else drain_right (push_side to_left) (o.len - take_count) take_count destination o) in
    if take_count == 0 then (o, destination, 0) else (o', destination', take_count)

-- The same list as source and destination.
unfoldable pub spin : Bool → Bool → ℕ → ListObject → ListObject
spin from_left to_left zero o = o
spin from_left to_left (suc n) o =
    let (v, o') = pop_side from_left o in
    spin from_left to_left n (elim v [ none ↦ o' | some x ↦ push_side to_left x o' ])

abbrev pub spin_sides : Bool → Bool → ℕ → ListObject → ListObject
spin_sides true true n o = o
spin_sides false false n o = o
spin_sides from_left to_left n o = spin from_left to_left n o

unfoldable pub transfer_self : ListObject → ℕ → Bool → Bool → ListObject × ℕ
unfolding spin
transfer_self o count from_left to_left =
    let take_count = min count o.len in
    if take_count == 0 then (o, 0) else (spin_sides from_left to_left take_count o, take_count)
