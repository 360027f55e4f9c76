-- ===== src/PagedList/Serial.antt =====
-- The binary form of the list object in wedb_list/src/list.rs. Bytes are numbers below 256; an `i32` is
-- a number below 2 ^ 32, negative from 2 ^ 31 on.
use garnet_rust.Common.{
  ℕ, zero, suc, ◌-◌, ◌/◌, ◌%◌, ◌^◌, List, [], ◌∷◌, ◌++◌, ltb, leb, if◌then◌else◌, length, take,
  drop,
}
use garnet_rust.Common.Result.{Result, ok, err}
use garnet_rust.Common.Bytes.{to_le_bytes, from_le_bytes}
use garnet_rust.PagedList.Access.{Error, buffer_too_short, corrupted_data}
use garnet_rust.PagedList.Object.{Bytes, BytesPage, ListObject, empty, push_back_inner}

-- `(n as i32).to_le_bytes()`
abbrev pub i32_bytes : ℕ → List ℕ
i32_bytes n = to_le_bytes 4 (n % 2 ^ 32)

abbrev pub serialize_items : List Bytes → List ℕ
serialize_items [] = []
serialize_items (item ∷ items) = i32_bytes (length item) ++ (item ++ serialize_items items)

abbrev pub serialize_pages : List BytesPage → List ℕ
serialize_pages [] = []
serialize_pages (page ∷ pages) = serialize_items page.items ++ serialize_pages pages

unfoldable pub serialize : ListObject → List ℕ → List ℕ
serialize o buf = buf ++ (i32_bytes o.len ++ serialize_pages o.pages)

-- The loop over the items that are still to come.
unfoldable pub read_items : ℕ → List ℕ → ListObject → Result ListObject Error
read_items zero rest list = ok list
read_items (suc count) rest list =
    let item_len = from_le_bytes (take 4 rest) in
    let payload = drop 4 rest in
    let more =
      read_items count (drop item_len payload) (push_back_inner (take item_len payload) list) in
    if ltb (length rest) 4
    then err buffer_too_short
    else if leb (2 ^ 31) item_len
    then err corrupted_data
    else if ltb (length payload) item_len
    then err buffer_too_short
    else more

unfoldable pub deserialize : List ℕ → Result ListObject Error
unfolding read_items
deserialize buf =
    let count = from_le_bytes (take 4 buf) in
    if ltb (length buf) 4
    then err buffer_too_short
    else if leb (2 ^ 31) count
    then err corrupted_data
    else if ltb ((length buf - 4) / 4) count
    then err corrupted_data
    else read_items count (drop 4 buf) empty
