-- ===== src/PagedList/Tests.antt =====
-- The theorems on the list object at a list of three elements in two pages.
use garnet_rust.Common.{
  ◌≡◌, ◌+◌, ◌++◌, refl, [], ◌∷◌, some, arith, true, false, length, reverse, take, position,
  bytes_eq,
}
use garnet_rust.Common.Int.{ℤ, pos, negsuc}
use garnet_rust.PagedList.Object.{
  Bytes, ListObject, to_list, IsValid, push_front_inner, push_back_inner, pop_front_inner,
  pop_back_inner,
}
use garnet_rust.PagedList.Access.{locate, lindex, lset, remove_at}
use garnet_rust.PagedList.Locate.{Finds, locate-Finds}
use garnet_rust.PagedList.Push.{push_front_inner_lem, push_back_inner_lem}
use garnet_rust.PagedList.Pop.{take_first, take_last, pop_front_inner_lem, pop_back_inner_lem}
use garnet_rust.PagedList.Index.{set_at, lindex_lem, lset_lem}
use garnet_rust.PagedList.RemoveAt.{remove_at_lem}
use garnet_rust.PagedList.Range.{lrange}
use garnet_rust.PagedList.RangeLaws.{lrange_lem}
use garnet_rust.PagedList.Trim.{ltrim, ltrim_lem}
use garnet_rust.PagedList.Insert.{before, linsert}
use garnet_rust.PagedList.InsertLaws.{beside, linsert_lem}
use garnet_rust.PagedList.Moves.{lpush, rpush, lpop, rpop, lmove, transfer_to, rotate}
use garnet_rust.PagedList.PushPopLaws.{lpush_lem, rpush_lem, lpop_lem, rpop_lem}
use garnet_rust.PagedList.MoveLaws.{moved, take_side, lmove_times, lmove_lem, transfer_to_lem}
use garnet_rust.PagedList.Lrem.{lrem}
use garnet_rust.PagedList.LremLaws.{lremoved, lrem_lem}
use garnet_rust.PagedList.Lpos.{lpos}
use garnet_rust.PagedList.LposLaws.{positions, wanted, lpos_lem}
use garnet_rust.Common.Result.{ok}
use garnet_rust.PagedList.Serial.{serialize, deserialize}
use garnet_rust.PagedList.SerialLaws.{deserialize-serialize}
use garnet_rust.PagedList.RotateLaws.{put_taken, rotate_lem}

abbrev x : Bytes
x = 120 ∷ []

abbrev y : Bytes
y = 121 ∷ 1 ∷ []

abbrev z : Bytes
z = 122 ∷ []

abbrev letters : ListObject
letters = record { pages = record { items = x ∷ y ∷ [] } ∷ record { items = z ∷ [] } ∷ []; len = 3 }

letters-IsValid : IsValid letters
letters-IsValid = record {
  good = ((omega arith, omega arith), ((omega arith, omega arith), tt));
  counted = refl;
}

locate-Finds_example : Finds letters.pages 2 (locate letters 2)
locate-Finds_example = locate-Finds letters 2 letters-IsValid (omega arith)

push_front_inner_example :
    IsValid (push_front_inner z letters)
    × (to_list (push_front_inner z letters) ≡ z ∷ x ∷ y ∷ z ∷ [])
push_front_inner_example = push_front_inner_lem z letters letters-IsValid

push_back_inner_example :
    IsValid (push_back_inner x letters) × (to_list (push_back_inner x letters) ≡ x ∷ y ∷ z ∷ x ∷ [])
push_back_inner_example = push_back_inner_lem x letters letters-IsValid

pop_front_inner_example :
    let (v, o') = pop_front_inner letters in
    IsValid o' × ((v, to_list o') ≡ take_first (x ∷ y ∷ z ∷ []))
pop_front_inner_example = pop_front_inner_lem letters letters-IsValid

pop_back_inner_example :
    let (v, o') = pop_back_inner letters in
    IsValid o' × ((v, to_list o') ≡ take_last (x ∷ y ∷ z ∷ []))
pop_back_inner_example = pop_back_inner_lem letters letters-IsValid

lindex_example : lindex letters (negsuc 0) ≡ some z
lindex_example = lindex_lem letters (negsuc 0) letters-IsValid

lset_example :
    let (o', r) = lset letters (negsuc 1) z in
    IsValid o' × ((to_list o', r) ≡ set_at (x ∷ y ∷ z ∷ []) (some 1) z)
lset_example = lset_lem letters (negsuc 1) z letters-IsValid

remove_at_example :
    let (w, o') = remove_at letters 2 in IsValid o' × (w ≡ some z) × (to_list o' ≡ x ∷ y ∷ [])
remove_at_example = remove_at_lem letters 2 letters-IsValid (omega arith)

lrange_example : lrange letters (pos 1) (negsuc 0) ≡ y ∷ z ∷ []
lrange_example = lrange_lem letters (pos 1) (negsuc 0) letters-IsValid

ltrim_example :
    IsValid (ltrim letters (pos 1) (pos 1)) × (to_list (ltrim letters (pos 1) (pos 1)) ≡ y ∷ [])
ltrim_example = ltrim_lem letters (pos 1) (pos 1) letters-IsValid

linsert_example :
    (o' : ListObject) × (r : ℤ) × (linsert letters y z before ≡ some (o', r))
    × IsValid o'
    × ((to_list o', r)
        ≡ beside (to_list letters) z before (position (λ item. bytes_eq item y) (to_list letters)))
linsert_example = linsert_lem letters y z before letters-IsValid

lpush_example :
    let (o', n) = lpush (y ∷ z ∷ []) letters in
    IsValid o' × (to_list o' ≡ z ∷ y ∷ x ∷ y ∷ z ∷ []) × (n ≡ length (to_list o'))
lpush_example = lpush_lem (y ∷ z ∷ []) letters letters-IsValid

rpush_example :
    let (o', n) = rpush (y ∷ z ∷ []) letters in
    IsValid o' × (to_list o' ≡ x ∷ y ∷ z ∷ y ∷ z ∷ []) × (n ≡ length (to_list o'))
rpush_example = rpush_lem (y ∷ z ∷ []) letters letters-IsValid

lpop_example :
    let (vs, o') = lpop 2 letters in IsValid o' × (vs ≡ x ∷ y ∷ []) × (to_list o' ≡ z ∷ [])
lpop_example = lpop_lem 2 letters letters-IsValid

rpop_example :
    let (vs, o') = rpop 2 letters in
    IsValid o' × (vs ≡ take 2 (reverse (to_list letters))) × (to_list o' ≡ x ∷ [])
rpop_example = rpop_lem 2 letters letters-IsValid

lmove_example :
    let (s', d', v) = lmove letters letters true false in
    IsValid s'
    × IsValid d'
    × ((to_list s', to_list d', v) ≡ moved false (x ∷ y ∷ z ∷ []) (take_side true (x ∷ y ∷ z ∷ [])))
lmove_example = lmove_lem letters letters true false letters-IsValid letters-IsValid

transfer_to_example :
    let (s', d') = lmove_times true false 2 letters letters in
    transfer_to letters letters 2 true false ≡ (s', d', 2)
transfer_to_example = transfer_to_lem letters letters 2 true false letters-IsValid

rotate_example :
    let (v, o') = rotate letters true false in
    IsValid o' × ((v, to_list o') ≡ put_taken false (take_side true (x ∷ y ∷ z ∷ [])))
rotate_example = rotate_lem letters true false letters-IsValid

lrem_example :
    let (o', n) = lrem letters (negsuc 0) y in
    IsValid o'
    × (to_list o' ≡ lremoved (negsuc 0) y (x ∷ y ∷ z ∷ []))
    × (n + length (lremoved (negsuc 0) y (x ∷ y ∷ z ∷ [])) ≡ 3)
lrem_example = lrem_lem letters (negsuc 0) y letters-IsValid

lpos_example :
    lpos letters y (negsuc 0) (some 0) 0
    ≡ positions y (negsuc 0) (wanted (some 0)) 3 (x ∷ y ∷ z ∷ [])
lpos_example = lpos_lem letters y (negsuc 0) (some 0) 0 letters-IsValid

deserialize-serialize_example :
    (o' : ListObject) × (deserialize (serialize letters [] ++ 7 ∷ []) ≡ ok o')
    × IsValid o'
    × (to_list o' ≡ x ∷ y ∷ z ∷ [])
deserialize-serialize_example =
    deserialize-serialize letters (7 ∷ []) letters-IsValid (omega arith)
      (omega arith, (omega arith, (omega arith, tt)))
