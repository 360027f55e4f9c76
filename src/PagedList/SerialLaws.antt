-- ===== src/PagedList/SerialLaws.antt =====
-- What `serialize` of wedb_list/src/list.rs writes, `deserialize` reads back.
use garnet_rust.Common.{
  ℕ, suc, ◌+◌, ◌-◌, ◌*◌, ◌/◌, ◌%◌, ◌^◌, ◌≤◌, ◌<◌, ◌≡◌, refl, ap, sym, ◌∙◌, List, [], ◌∷◌, ◌++◌,
  false, ltb, leb, arith, length, take, drop, length-append, append_assoc, append-nil,
  take-append_left, take_all, drop-append_right,
}
use garnet_rust.Common.Result.{ok}
use garnet_rust.Common.Bytes.{from_le_bytes, from_le_bytes-to_le_bytes}
use garnet_rust.PagedList.Object.{
  Bytes, BytesPage, ListObject, flat, to_list, empty, push_back_inner, IsValid,
}
use garnet_rust.PagedList.Push.{push_back_inner_lem}
use garnet_rust.PagedList.Serial.{
  i32_bytes, serialize_items, serialize_pages, serialize, read_items, deserialize,
}

-- Lengths that an `i32` holds.
abbrev pub AllShort : List Bytes → Type 0
AllShort [] = Unit
AllShort (x ∷ xs) = (length x < 2 ^ 31) × AllShort xs

serialize_items-append :
    (xs ys : List Bytes) → serialize_items (xs ++ ys) ≡ serialize_items xs ++ serialize_items ys
serialize_items-append [] ys = refl
serialize_items-append (x ∷ xs) ys =
    ap (λ zs. i32_bytes (length x) ++ (x ++ zs)) (serialize_items-append xs ys)
    ∙ (ap (λ zs. i32_bytes (length x) ++ zs)
          (sym (append_assoc x (serialize_items xs) (serialize_items ys)))
        ∙ sym (append_assoc (i32_bytes (length x)) (x ++ serialize_items xs) (serialize_items ys)))

serialize_pages-flat : (ps : List BytesPage) → serialize_pages ps ≡ serialize_items (flat ps)
serialize_pages-flat [] = refl
serialize_pages-flat (p ∷ ps) =
    ap (λ zs. serialize_items p.items ++ zs) (serialize_pages-flat ps)
    ∙ sym (serialize_items-append p.items (flat ps))

length-serialize_items : (xs : List Bytes) → 4 * length xs ≤ length (serialize_items xs)
length-serialize_items [] = omega arith
length-serialize_items (x ∷ xs) = omega (
  arith,
  length-serialize_items xs,
  length-append (i32_bytes (length x)) (x ++ serialize_items xs),
  length-append x (serialize_items xs),
)

take-i32_bytes : (n : ℕ) (rest : List ℕ) → take 4 (i32_bytes n ++ rest) ≡ i32_bytes n
take-i32_bytes n rest = refl

drop-i32_bytes : (n : ℕ) (rest : List ℕ) → drop 4 (i32_bytes n ++ rest) ≡ rest
drop-i32_bytes n rest = refl

i32_value : (n : ℕ) → n < 2 ^ 31 → from_le_bytes (i32_bytes n) ≡ n
i32_value n lt = from_le_bytes-to_le_bytes 4 (n % 2 ^ 32) (omega arith) ∙ omega (arith, lt)

take-first : (x rest : List ℕ) → take (length x) (x ++ rest) ≡ x
take-first x rest =
    take-append_left (length x) x rest (omega arith) ∙ take_all (length x) x (omega arith)

drop-first : (x rest : List ℕ) → drop (length x) (x ++ rest) ≡ rest
drop-first x rest =
    ap (λ i. drop i (x ++ rest)) {y = length x + 0} (omega arith) ∙ drop-append_right 0 x rest

-- A round that reads an item.
read_item :
    (count : ℕ) (x rest : List ℕ) (list : ListObject)
    → length x < 2 ^ 31
    → read_items (suc count) (i32_bytes (length x) ++ (x ++ rest)) list
      ≡ read_items count rest (push_back_inner x list)
unfolding read_items
read_item count x rest list lt =
    let value = i32_value (length x) lt in
    let long : ltb (length (i32_bytes (length x) ++ (x ++ rest))) 4 ≡ false = ground (arith) in
    let positive : leb (2 ^ 31) (length x) ≡ false = ground (arith) in
    let here : ltb (length (x ++ rest)) (length x) ≡ false = ground (arith, length-append x rest) in
    rw (long, value, positive, here, take-first x rest, drop-first x rest)

read_items_lem :
    (xs : List Bytes) (rest : List ℕ) (list : ListObject)
    → IsValid list
    → AllShort xs
    → (o' : ListObject) × (read_items (length xs) (serialize_items xs ++ rest) list ≡ ok o')
      × IsValid o'
      × (to_list o' ≡ to_list list ++ xs)
unfolding read_items
read_items_lem [] rest list h short = (list, refl, h, sym (append-nil (to_list list)))
read_items_lem (x ∷ xs) rest list h short =
    let (v, e) = push_back_inner_lem x list h in
    let (o', f, v', e') = read_items_lem xs rest (push_back_inner x list) v short.1 in
    let shape : serialize_items (x ∷ xs) ++ rest
        ≡ i32_bytes (length x) ++ (x ++ (serialize_items xs ++ rest)) =
      append_assoc (i32_bytes (length x)) (x ++ serialize_items xs) rest
      ∙ ap (λ zs. i32_bytes (length x) ++ zs) (append_assoc x (serialize_items xs) rest) in
    (
      o',
      ap (λ zs. read_items (suc (length xs)) zs list) shape
          ∙ (read_item (length xs) x (serialize_items xs ++ rest) list short.0 ∙ f),
      v',
      e' ∙ (ap (λ zs. zs ++ xs) e ∙ append_assoc (to_list list) (x ∷ []) xs),
    )

-- A valid list with fewer than 2 ^ 31 elements, each shorter than 2 ^ 31 bytes, is read back from
-- its binary form, whatever bytes follow: `deserialize` succeeds with a valid list of the same
-- elements.
pub deserialize-serialize :
    (o : ListObject) (rest : List ℕ)
    → IsValid o
    → o.len < 2 ^ 31
    → AllShort (to_list o)
    → (o' : ListObject) × (deserialize (serialize o [] ++ rest) ≡ ok o')
      × IsValid o'
      × (to_list o' ≡ to_list o)
unfolding serialize deserialize
deserialize-serialize o rest h lt short =
    let xs = to_list o in
    let items = serialize_items xs ++ rest in
    let shape : serialize_pages o.pages ++ rest ≡ items =
      ap (λ zs. zs ++ rest) (serialize_pages-flat o.pages) in
    let value = i32_value o.len lt in
    let (o', e, v, f) = read_items_lem xs rest empty (record { good = tt; counted = refl }) short in
    let long : ltb (length (i32_bytes o.len ++ items)) 4 ≡ false = ground arith in
    let positive : leb (2 ^ 31) o.len ≡ false = ground arith in
    let enough : ltb ((length (i32_bytes o.len ++ items) - 4) / 4) o.len ≡ false =
      not_fewer (length (i32_bytes o.len ++ items)) o.len (
        omega
          (arith, h.counted, length-serialize_items xs, length-append (serialize_items xs) rest)) in
    (o', rw (shape, long, value, positive, enough, h.counted) e, v, f)
  where
    not_fewer : (n k : ℕ) → 4 + 4 * k ≤ n → ltb ((n - 4) / 4) k ≡ false
    not_fewer n k le = ground arith
