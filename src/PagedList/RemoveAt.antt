-- ===== src/PagedList/RemoveAt.antt =====
-- `remove_at` of wedb_list/src/list.rs takes the element of an index out of the list.
use garnet_rust.Common.{
  ℕ, ◌-◌, ◌≤◌, ◌<◌, ◌≡◌, refl, ap, sym, ◌∙◌, List, [], ◌∷◌, ◌++◌, some, arith, length, get_elem?,
  ◌==◌, if◌then◌else◌, suc-==-zero, get_elem?-some, remove_at-some, without, without-append,
  length-without,
}
use garnet_rust.PagedList.Page
use garnet_rust.PagedList.Object.{
  Bytes, BytesPage, ListObject, flat, to_list, AllGood, IsValid, release,
}
use garnet_rust.PagedList.Directory.{
  flat-append, AllGood-append, AllGood-split, AllGood-join, AllGood-nil,
}
use garnet_rust.PagedList.Access
use garnet_rust.PagedList.Access.{locate, put_back, remove_at}
use garnet_rust.PagedList.Locate.{
  Located, Finds, locate-Finds, Located-page, Located-element, flat-Located, Located-lt,
}

put_back-append :
    (ps : List BytesPage) (p : BytesPage) (qs : List BytesPage) (q : BytesPage)
    → put_back (ps ++ p ∷ qs) (length ps) q ≡ ps ++ (if Page.is_empty q then qs else q ∷ qs)
unfolding put_back
put_back-append [] p qs q = refl
put_back-append (r ∷ ps) p qs q = ap (◌∷◌ r) (put_back-append ps p qs q)

-- A page put back or dropped: the elements around it stay.
flat-rest :
    (ps qs : List BytesPage) (xs : List Bytes)
    → flat (ps ++ (if length xs == 0 then qs else record { items = xs } ∷ qs))
      ≡ flat ps ++ (xs ++ flat qs)
flat-rest ps qs [] = flat-append ps qs
flat-rest ps qs (x ∷ xs) =
    rw (suc-==-zero (length xs)) (flat-append ps (record { items = x ∷ xs } ∷ qs))

rest-AllGood :
    (ps qs : List BytesPage) (xs : List Bytes)
    → AllGood ps
    → AllGood qs
    → length xs ≤ 64
    → AllGood (ps ++ (if length xs == 0 then qs else record { items = xs } ∷ qs))
rest-AllGood ps qs [] g h b = AllGood-append ps qs g h
rest-AllGood ps qs (x ∷ xs) g h b =
    rw (suc-==-zero (length xs)) (AllGood-join ps (record { items = x ∷ xs }) qs g (omega arith) h)

release-IsValid :
    (ps : List BytesPage) (n : ℕ)
    → AllGood ps
    → n ≡ length (flat ps)
    → let o = release (record { pages = ps; len = n }) in IsValid o × (to_list o ≡ flat ps)
release-IsValid ps n g e = ground (arith, AllGood-nil ps g)

module _ (o : ListObject) (h : IsValid o) {idx pi local : ℕ}
    (l : Located o.pages idx pi local) where
  removed :
      {v : Bytes}
      → get_elem? l.page.items local ≡ some v
      → let (w, o') = Access.remove_located o (some (pi, local)) in
        IsValid o' × (w ≡ some v) × (to_list o' ≡ without idx (to_list o))
  unfolding remove_at
  removed e =
      let xs = without local l.page.items in
      let g' : AllGood (l.before ++ l.page ∷ l.after) = rw (← l.parts) h.good in
      let (gs, gp, hs) = AllGood-split l.before l.page l.after g' in
      let pages =
        l.before ++ (if length xs == 0 then l.after else record { items = xs } ∷ l.after) in
      let f : flat pages ≡ without idx (to_list o) =
        flat-rest l.before l.after xs
        ∙ rw (flat-Located l, l.offset)
            (sym (without-append (flat l.before) l.page.items (flat l.after) local l.inside)) in
      let small : length xs ≤ 64 = omega (arith, length-without l.page.items local l.inside, gp) in
      let n : o.len - 1 ≡ length (flat pages) =
        omega (arith, ap length f, length-without (to_list o) idx (Located-lt l), h.counted) in
      let r = release-IsValid pages (o.len - 1) (rest-AllGood l.before l.after xs gs hs small) n in
      let b : put_back o.pages pi (record { items = xs }) ≡ pages =
        rw (l.parts, l.index) (put_back-append l.before l.page l.after (record { items = xs })) in
      rw (Located-page l, remove_at-some l.page.items local e, b) (r.0, refl, r.1 ∙ f)

-- On a valid list, removal at an index in range returns the element there, leaves all the others in
-- order and keeps the invariant.
pub remove_at_lem :
    (o : ListObject) (idx : ℕ)
    → IsValid o
    → idx < o.len
    → let (w, o') = remove_at o idx in
      IsValid o' × (w ≡ get_elem? (to_list o) idx) × (to_list o' ≡ without idx (to_list o))
unfolding remove_at
remove_at_lem o idx h lt = located (locate-Finds o idx h lt)
  where
    located :
        Finds o.pages idx (locate o idx)
        → let (w, o') = Access.remove_located o (locate o idx) in
          IsValid o' × (w ≡ get_elem? (to_list o) idx) × (to_list o' ≡ without idx (to_list o))
    located (pi, local, f, l) =
        let (v, e) = get_elem?-some l.page.items local l.inside in
        let (g, w, t) = removed o h l e in rw (f, Located-element l, e) (g, w, t)
