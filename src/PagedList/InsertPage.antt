-- ===== src/PagedList/InsertPage.antt =====
-- `insert_into_page` of wedb_list/src/list.rs on the page of an element, with room or split in two.
use garnet_rust.Common.{
  ℕ, ◌+◌, ◌-◌, ◌/◌, ◌≤◌, ◌≡◌, ap, ap₂, sym, ◌∙◌, inl, inr, List, ◌∷◌, ◌++◌, Option, some, arith,
  ltb, set, insert_at, length, length-append, take, drop, take-append-drop, length-take,
  length-drop, inserted, insert_at-some, inserted-append_left, inserted-append_right,
  length-inserted, Bool-cases, append_assoc, set-append_right, add-zero,
}
use garnet_rust.PagedList.Page
use garnet_rust.PagedList.Object.{Bytes, BytesPage, flat, Good, AllGood}
use garnet_rust.PagedList.Directory.{flat-append, AllGood-join}
use garnet_rust.PagedList.Insert.{insert_split, insert_page}

-- What the pages `ps`, `p`, `qs` become when `v` goes into `p`.
abbrev pub Inserts :
    List BytesPage → BytesPage → List BytesPage → ℕ → Bytes → Option (List BytesPage) → Type 0
Inserts ps p qs i v r =
    (pages : List BytesPage) × (r ≡ some pages)
    × AllGood pages
    × (flat pages ≡ flat ps ++ (inserted i v p.items ++ flat qs))

Page-insert :
    (i : ℕ) (v : Bytes) (p : BytesPage)
    → i ≤ length p.items
    → Page.insert i v p ≡ some (record { items = inserted i v p.items })
unfolding Page.insert
Page-insert i v p h = rw (Page.insert, insert_at-some i v p.items h)

-- Two pages in the place of one.
module _ (ps : List BytesPage) (p : BytesPage) (qs : List BytesPage) (gs : AllGood ps)
    (hs : AllGood qs) where
  set_page : (q : BytesPage) → set (ps ++ p ∷ qs) (length ps) q ≡ ps ++ q ∷ qs
  set_page q =
      ap (λ k. set (ps ++ p ∷ qs) k q) (sym (add-zero (length ps)))
      ∙ set-append_right ps (p ∷ qs) 0 q

  two_pages :
      (l r : BytesPage)
      → insert_at (length ps + 1) r (set (ps ++ p ∷ qs) (length ps) l) ≡ some (ps ++ l ∷ r ∷ qs)
  two_pages l r =
      rw
        (
          set_page l,
          insert_at-some (length ps + 1) r (ps ++ l ∷ qs)
              (omega (arith, length-append ps (l ∷ qs))),
        )
        (ap some (inserted-append_right 1 r ps (l ∷ qs)))

  flat-two :
      (l r : BytesPage) (xs : List Bytes)
      → l.items ++ r.items ≡ xs
      → flat (ps ++ l ∷ r ∷ qs) ≡ flat ps ++ (xs ++ flat qs)
  flat-two l r xs e =
      flat-append ps (l ∷ r ∷ qs)
      ∙ ap (◌++◌ (flat ps))
          (sym (append_assoc l.items r.items (flat qs)) ∙ ap (λ ys. ys ++ flat qs) e)

  insert_split-Inserts :
      (i : ℕ) (v : Bytes)
      → length p.items ≡ 64
      → i ≤ length p.items
      → Inserts ps p qs i v (insert_split (ps ++ p ∷ qs) (length ps) i v p)
  unfolding insert_split
  insert_split-Inserts i v full le =
      let half = length p.items / 2 in
      let xs = take half p.items in
      let ys = drop half p.items in
      let nx : length xs ≡ 32 = omega (arith, length-take half p.items) in
      let ny : length ys ≡ 32 = omega (arith, length-drop half p.items) in
      let whole = take-append-drop half p.items in
      elim (Bool-cases (ltb i half)) [
        | inl left ↦
            let l : BytesPage = record { items = inserted i v xs } in
            let r : BytesPage = record { items = ys } in
            let le' : i ≤ length xs = ground (arith, nx) in
            rw (left, Page-insert i v (Page.split p).0 le')
              (
                ps ++ l ∷ r ∷ qs,
                two_pages l r,
                AllGood-join ps l (r ∷ qs) gs (omega (arith, length-inserted i v xs le'))
                    (omega (arith, ny), hs),
                flat-two l r (inserted i v p.items)
                    (sym (inserted-append_left i v xs ys le') ∙ ap (inserted i v) whole),
              )
        | inr right ↦
            let l : BytesPage = record { items = xs } in
            let r : BytesPage = record { items = inserted (i - half) v ys } in
            let le' : i - half ≤ length ys = omega (arith, ny) in
            let at : length xs + (i - half) ≡ i = ground (arith, nx) in
            rw (right, Page-insert (i - half) v (Page.split p).1 le')
              (
                ps ++ l ∷ r ∷ qs,
                two_pages l r,
                AllGood-join ps l (r ∷ qs) gs (omega (arith, nx))
                    (omega (arith, length-inserted (i - half) v ys le', ny), hs),
                flat-two l r (inserted i v p.items) (
                    sym (inserted-append_right (i - half) v xs ys)
                    ∙ ap₂ (λ k zs. inserted k v zs) at whole),
              )
      ]

  -- An insertion into a page, split or not, keeps every other element in its place.
  pub insert_page-Inserts :
      (i : ℕ) (v : Bytes)
      → Good p
      → i ≤ length p.items
      → Inserts ps p qs i v (insert_page (ps ++ p ∷ qs) (length ps) i v p)
  unfolding insert_page
  insert_page-Inserts i v g le = elim (Bool-cases (Page.is_full 64 p)) [
    | inl full ↦ rw full (insert_split-Inserts i v (ground (arith, g)) le)
    | inr room ↦
        let q : BytesPage = record { items = inserted i v p.items } in
        rw (room, Page-insert i v p le)
          (
            ps ++ q ∷ qs,
            ap some (set_page q),
            AllGood-join ps q qs gs (ground (arith, length-inserted i v p.items le, g)) hs,
            flat-append ps (q ∷ qs),
          )
  ]
