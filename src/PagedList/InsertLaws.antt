-- ===== src/PagedList/InsertLaws.antt =====
-- LINSERT of wedb_list/src/list.rs puts the value beside the first pivot and nowhere else.
use garnet_rust.Common.{
  ℕ, ◌+◌, ◌≤◌, ◌<◌, ◌≡◌, refl, ap, ap₂, sym, ◌∙◌, inl, inr, List, [], ◌∷◌, ◌++◌, Option, none, some,
  arith, get_elem?, take, drop, position, bytes_eq, length, length-append, inserted,
  inserted-append_left, inserted-append_right, length-inserted, position-lt, position-append_left,
  position-append_right, Option-cases, subst, add-zero, zero-add, get_elem?-append_right,
}
use garnet_rust.Common.Int.{ℤ, pos, negsuc}
use garnet_rust.PagedList.Object.{Bytes, BytesPage, ListObject, flat, to_list, AllGood, IsValid}
use garnet_rust.PagedList.Directory.{flat-append, AllGood-split}
use garnet_rust.PagedList.Insert.{
  InsertPosition, before, after, insert_page, insert_into_page, find_pivot, insert_found, offset_of,
  linsert,
}
use garnet_rust.PagedList.InsertPage.{insert_page-Inserts}

-- The page and the offset of the first pivot among the pages; `pre` stands before them.
abbrev Found : Bytes → List BytesPage → ℕ → Option (ℕ × ℕ) → Type 0
Found pivot ps pi none = position (λ x. bytes_eq x pivot) (flat ps) ≡ none
Found pivot ps pi (some (pj, local)) =
    (pre : List BytesPage) × (p : BytesPage) × (qs : List BytesPage) × (ps ≡ pre ++ p ∷ qs)
    × (pj ≡ pi + length pre)
    × (local < length p.items)
    × (position (λ x. bytes_eq x pivot) (flat ps) ≡ some (length (flat pre) + local))

find_pivot-Found :
    (pivot : Bytes) (pi : ℕ) (ps : List BytesPage) → Found pivot ps pi (find_pivot pivot pi ps)
unfolding find_pivot
find_pivot-Found pivot pi [] = unfold position in refl
find_pivot-Found pivot pi (p ∷ ps) =
    elim (Option-cases (position (λ x. bytes_eq x pivot) p.items)) [
      | inr (i, e) ↦
          rw (e, find_pivot)
            (
              [],
              p,
              ps,
              refl,
              omega arith,
              position-lt _ p.items e,
              position-append_left _ p.items (flat ps) e ∙ ap some (sym (zero-add i)),
            )
      | inl e ↦
          rw (e, find_pivot)
            (later e (find_pivot pivot (pi + 1) ps) (find_pivot-Found pivot (pi + 1) ps))
    ]
  where
    later :
        position (λ x. bytes_eq x pivot) p.items ≡ none
        → (r : Option (ℕ × ℕ)) → Found pivot ps (pi + 1) r
        → Found pivot (p ∷ ps) pi r
    later e none f = rw (position-append_right _ p.items (flat ps) e, f)
    later e (some (pj, local)) (pre, q, qs, parts, at, inside, f) = (
      p ∷ pre,
      q,
      qs,
      ap (◌∷◌ p) parts,
      omega (arith, at),
      inside,
      rw (position-append_right _ p.items (flat ps) e, f)
          (ap some (omega (arith, length-append p.items (flat pre)))),
    )

-- The list with `v` beside the first element equal to the pivot, and its length; -1 where there is
-- no such element.
abbrev pub beside : List Bytes → Bytes → InsertPosition → Option ℕ → List Bytes × ℤ
beside xs v at none = (xs, negsuc 0)
beside xs v before (some i) = (take i xs ++ v ∷ drop i xs, pos (length xs + 1))
beside xs v after (some i) = (take (i + 1) xs ++ v ∷ drop (i + 1) xs, pos (length xs + 1))

beside-offset :
    (xs : List Bytes) (v : Bytes) (at : InsertPosition) (i : ℕ)
    → (inserted (offset_of at i) v xs, pos (length xs + 1)) ≡ beside xs v at (some i)
beside-offset xs v before i = refl
beside-offset xs v after i = refl

offset_of-add : (at : InsertPosition) (n i : ℕ) → offset_of at (n + i) ≡ n + offset_of at i
offset_of-add before n i = refl
offset_of-add after n i = omega arith

offset_of-le : (at : InsertPosition) {n i : ℕ} → i < n → offset_of at i ≤ n
offset_of-le before h = omega arith
offset_of-le after h = omega arith

-- A located page takes the value.
insert_into_page_lem :
    (o : ListObject) (pre : List BytesPage) (p : BytesPage) (qs : List BytesPage) (i : ℕ)
    (v : Bytes)
    → IsValid o
    → o.pages ≡ pre ++ p ∷ qs
    → i ≤ length p.items
    → (o' : ListObject) × (insert_into_page o (length pre) i v ≡ some o')
      × IsValid o'
      × (o'.len ≡ o.len + 1)
      × (to_list o' ≡ inserted (length (flat pre) + i) v (to_list o))
unfolding insert_into_page
insert_into_page_lem o pre p qs i v h parts le =
    let (gs, g, hs) = AllGood-split pre p qs (subst AllGood parts h.good) in
    let (pages, e, good, f) = insert_page-Inserts pre p qs gs hs i v g le in
    let at : get_elem? o.pages (length pre) ≡ some p =
      rw (parts, ← add-zero (length pre), get_elem?-append_right pre (p ∷ qs) 0) in
    let e' : insert_page o.pages (length pre) i v p ≡ some pages = rw parts e in
    let l : to_list o ≡ flat pre ++ (p.items ++ flat qs) = rw parts (flat-append pre (p ∷ qs)) in
    let t : flat pages ≡ inserted (length (flat pre) + i) v (to_list o) =
      f
      ∙ rw (
        l,
        inserted-append_right i v (flat pre) (p.items ++ flat qs),
        inserted-append_left i v p.items (flat qs) le,
      ) in
    let n : length (flat pre) + i ≤ length (to_list o) = omega (
      arith,
      ap length l,
      length-append (flat pre) (p.items ++ flat qs),
      length-append p.items (flat qs),
    ) in
    rw (at, e')
      (
        record { pages = pages; len = o.len + 1 },
        refl,
        record {
          good = good;
          counted = omega (
            arith,
            ap length t,
            length-inserted (length (flat pre) + i) v (to_list o) n,
            h.counted,
          );
        },
        refl,
        t,
      )

-- On a valid list, LINSERT does not panic; it puts the value just before or just after the first
-- element equal to the pivot and returns the new length; without a pivot it changes nothing and
-- returns -1; it keeps the invariant.
pub linsert_lem :
    (o : ListObject) (pivot v : Bytes) (at : InsertPosition)
    → IsValid o
    → (o' : ListObject) × (r : ℤ) × (linsert o pivot v at ≡ some (o', r))
      × IsValid o'
      × ((to_list o', r)
          ≡ beside (to_list o) v at (position (λ item. bytes_eq item pivot) (to_list o)))
unfolding linsert
linsert_lem o pivot v at h = finish (find_pivot pivot 0 o.pages) (find_pivot-Found pivot 0 o.pages)
  where
    finish :
        (r : Option (ℕ × ℕ))
        → Found pivot o.pages 0 r
        → (o' : ListObject) × (n : ℤ) × (insert_found o v at r ≡ some (o', n))
          × IsValid o'
          × ((to_list o', n)
              ≡ beside (to_list o) v at (position (λ item. bytes_eq item pivot) (to_list o)))
    finish none f = (o, negsuc 0, refl, h, rw f)
    finish (some (pj, local)) (pre, p, qs, parts, e, inside, f) =
        let (o', q, valid, n, t) =
          insert_into_page_lem o pre p qs (offset_of at local) v h parts (offset_of-le at inside) in
        let e' : pj ≡ length pre = omega (arith, e) in
        rw (e', q, f)
          (
            o',
            pos o'.len,
            refl,
            valid,
            ap₂ (λ (xs : List Bytes) (k : ℕ). (xs, pos k))
                  (t
                    ∙ ap (λ k. inserted k v (to_list o))
                        (sym (offset_of-add at (length (flat pre)) local)))
                  (n ∙ ap (λ k. k + 1) h.counted)
                ∙ beside-offset (to_list o) v at (length (flat pre) + local),
          )
