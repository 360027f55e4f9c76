-- ===== src/PagedList/LremLaws.antt =====
-- LREM of wedb_list/src/list.rs against the removal from a list.
use garnet_rust.Common.{
  ℕ, zero, suc, ◌+◌, ◌-◌, ◌≤◌, ◌≡◌, refl, ap, sym, ◌∙◌, inl, inr, List, [], ◌∷◌, ◌++◌, true, false,
  leb, ◌==◌, arith, Bool-cases, Option-cases, List-cases, length, length-append, length-reverse,
  reverse, append-nil, append_assoc, bytes_eq, unsnoc, unsnoc-some,
}
use mathlib.Core.List.{reverse-cons, reverse-reverse}
use garnet_rust.Common.Int.{ℤ, pos, negsuc}
use garnet_rust.PagedList.Page
use garnet_rust.PagedList.Object.{
  Bytes, BytesPage, ListObject, flat, to_list, Good, AllGood, IsValid,
}
use garnet_rust.PagedList.Directory.{flat-append, AllGood-append, AllGood-split}
use garnet_rust.PagedList.Lrem.{
  reclaim_last, reclaim_pages, reclaim, remove_matches, after_removal, lrem,
}
use garnet_rust.PagedList.RemovedItems.{remove_first, remove_last, remove_all}
use garnet_rust.PagedList.RemovedPages.{
  AllFit, AllGood-AllFit, Removed, remove_head-Removed, remove_tail-Removed, retain_not_eq-Removed,
  remove_all-append,
}

-- Pages that are good and have these elements.
abbrev Pages : List Bytes → List BytesPage → Type 0
Pages xs ps = AllGood ps × (flat ps ≡ xs)

push_page :
    (merged : List BytesPage) (page : BytesPage)
    → AllGood merged
    → Good page
    → Pages (flat merged ++ page.items) (merged ++ page ∷ [])
push_page merged page g h = (
  AllGood-append merged (page ∷ []) g (h, tt),
  flat-append merged (page ∷ []) ∙ ap (λ ys. flat merged ++ ys) (append-nil page.items),
)

reclaim_last-Pages :
    (merged : List BytesPage) (page : BytesPage)
    → AllGood merged
    → Good page
    → Pages (flat merged ++ page.items) (reclaim_last merged page (unsnoc merged))
unfolding Page.try_merge
reclaim_last-Pages merged page g h = elim (Option-cases (unsnoc merged)) [
  | inl e ↦ rw e (push_page merged page g h)
  | inr ((head, init), e) ↦ rw e (elim (Bool-cases (leb (Page.len head + Page.len page) 32)) [
    | inr far ↦ rw far (push_page merged page g h)
    | inl near ↦
        let fits : leb (Page.len head + Page.len page) 64 ≡ true = ground arith in
        let whole = unsnoc-some merged e in
        let (gi, gh, _) = AllGood-split init head [] (rw whole at g) in
        let joined : BytesPage = record { items = head.items ++ page.items } in
        let good : Good joined = ground (arith, length-append head.items page.items) in
        let (a, b) = push_page init joined gi good in
        rw (near, fits)
          (
            a,
            b
                ∙ (sym (append_assoc (flat init) head.items page.items)
                    ∙ ap (λ ys. ys ++ page.items)
                        (sym ((push_page init head gi gh).1) ∙ ap flat (sym whole))),
          )
  ])
]

reclaim_pages-Pages :
    (merged ps : List BytesPage)
    → AllGood merged
    → AllFit ps
    → Pages (flat merged ++ flat ps) (reclaim_pages merged ps)
unfolding reclaim_pages
reclaim_pages-Pages merged [] g h = (g, sym (append-nil (flat merged)))
reclaim_pages-Pages merged (p ∷ ps) g h = elim (List-cases p.items) [
  | inl nothing ↦
      let e : Page.is_empty p ≡ true = rw nothing in
      let (a, b) = reclaim_pages-Pages merged ps g h.1 in
      rw e (a, b ∙ ap (λ xs. flat merged ++ (xs ++ flat ps)) (sym nothing))
  | inr (x, xs, some_items) ↦
      let n : length p.items ≡ suc (length xs) = ap length some_items in
      let e : Page.is_empty p ≡ false = ground (arith, n) in
      let (a, b) = reclaim_last-Pages merged p g (omega (arith, n), h.0) in
      let (c, d) = reclaim_pages-Pages (reclaim_last merged p (unsnoc merged)) ps a h.1 in
      rw e (c, d ∙ (ap (λ xs. xs ++ flat ps) b ∙ append_assoc (flat merged) p.items (flat ps)))
]

-- The elements that LREM leaves: none equal to the value for a count of 0, all but the first ones equal
-- to it for a positive count and all but the last ones for a negative count.
abbrev pub lremoved : ℤ → Bytes → List Bytes → List Bytes
lremoved (pos zero) v xs = remove_all v xs
lremoved (pos (suc c)) v xs = remove_first (suc c) v xs
lremoved (negsuc c) v xs = remove_last (suc c) v xs

remove_first-all :
    (n : ℕ) (v : Bytes) (xs : List Bytes) → length xs ≤ n → remove_first n v xs ≡ remove_all v xs
unfolding remove_first
remove_first-all n v [] le = refl
remove_first-all zero v (x ∷ xs) le = absurd (omega arith)
remove_first-all (suc n) v (x ∷ xs) le =
    let nz : (suc n == 0) ≡ false = ground arith in
    elim (Bool-cases (bytes_eq x v)) [
      | inl e ↦
          let k : suc n - 1 ≡ n = omega arith in
          rw (nz, e, k) (remove_first-all n v xs (omega arith))
      | inr d ↦ rw (nz, d) (ap (◌∷◌ x) (remove_first-all (suc n) v xs (omega arith)))
    ]

remove_all-reverse :
    (v : Bytes) (xs : List Bytes) → remove_all v (reverse xs) ≡ reverse (remove_all v xs)
remove_all-reverse v [] = refl
remove_all-reverse v (x ∷ xs) =
    ap (remove_all v) (reverse-cons x xs)
    ∙ (remove_all-append v (reverse xs) (x ∷ [])
        ∙ (ap (λ ys. ys ++ remove_all v (x ∷ [])) (remove_all-reverse v xs) ∙ snoc))
  where
    snoc : reverse (remove_all v xs) ++ remove_all v (x ∷ []) ≡ reverse (remove_all v (x ∷ xs))
    snoc = elim (Bool-cases (bytes_eq x v)) [
      | inl e ↦ rw e (append-nil (reverse (remove_all v xs)))
      | inr d ↦ rw d (sym (reverse-cons x (remove_all v xs)))
    ]

remove_last-all :
    (n : ℕ) (v : Bytes) (xs : List Bytes) → length xs ≤ n → remove_last n v xs ≡ remove_all v xs
remove_last-all n v xs le =
    ap reverse (
      remove_first-all n v (reverse xs) (omega (arith, length-reverse xs))
      ∙ remove_all-reverse v xs)
    ∙ reverse-reverse (remove_all v xs)

remove_matches-Removed :
    (o : ListObject) (count : ℤ) (v : Bytes)
    → IsValid o
    → Removed (to_list o) (lremoved count v (to_list o)) (remove_matches o count v)
unfolding remove_matches
remove_matches-Removed o (pos zero) v h =
    retain_not_eq-Removed v o.pages (AllGood-AllFit o.pages h.good)
remove_matches-Removed o (pos (suc c)) v h =
    remove_head-Removed (suc c) v o.pages (AllGood-AllFit o.pages h.good)
remove_matches-Removed o (negsuc c) v h =
    let fit = AllGood-AllFit o.pages h.good in
    elim (Bool-cases (leb o.len (suc c))) [
      | inl all_of_it ↦
          let le : length (to_list o) ≤ suc c = ground (arith, h.counted) in
          rw (all_of_it, remove_last-all (suc c) v (to_list o) le)
            (retain_not_eq-Removed v o.pages fit)
      | inr part ↦ rw part (remove_tail-Removed (suc c) v o.pages fit)
    ]

after_removal_lem :
    (o : ListObject) (target : List Bytes) (r : ℕ × List BytesPage)
    → IsValid o
    → Removed (to_list o) target r
    → let (o', n) = after_removal o r in
      IsValid o' × (to_list o' ≡ target) × (n + length target ≡ length (to_list o))
unfolding reclaim
after_removal_lem o target r h m = elim (Bool-cases (o.len - r.0 == 0)) [
  | inl none_left ↦
      let z : length target ≡ 0 = ground (arith, m.total, h.counted) in
      let e : target ≡ [] = empty_list target z in
      rw none_left
        (record { good = tt; counted = ground (arith, m.total, h.counted) }, sym e, m.total)
  | inr rest ↦
      let (a, b) = reclaim_pages-Pages [] r.1 tt m.fit in
      let all_of_it : flat (reclaim_pages [] r.1) ≡ target = b ∙ m.left in
      rw rest (
        record { good = a; counted = omega (arith, m.total, h.counted, ap length all_of_it) },
        all_of_it,
        m.total,
      )
]
  where
    empty_list : (xs : List Bytes) → length xs ≡ 0 → xs ≡ []
    empty_list [] e = refl
    empty_list (x ∷ xs) e = absurd (omega arith)

-- On a valid list, LREM removes the elements equal to the value: all of them for the count 0, the
-- first `count` of them for a positive count and the last ones for a negative count; it leaves the
-- others in order, keeps the invariant and returns the number removed.
pub lrem_lem :
    (o : ListObject) (count : ℤ) (v : Bytes)
    → IsValid o
    → let (o', n) = lrem o count v in
      IsValid o'
      × (to_list o' ≡ lremoved count v (to_list o))
      × (n + length (lremoved count v (to_list o)) ≡ length (to_list o))
unfolding lrem remove_first
lrem_lem o count v h = elim (Bool-cases (o.len == 0)) [
  | inl nothing ↦
      let z : length (to_list o) ≡ 0 = ground (arith, h.counted) in
      let e = nothing_removed count (to_list o) z in
      rw nothing (h, sym e, omega (arith, ap length e))
  | inr some_items ↦ rw some_items (
      after_removal_lem o (lremoved count v (to_list o)) (remove_matches o count v) h
        (remove_matches-Removed o count v h))
]
  where
    nothing_removed : (c : ℤ) (xs : List Bytes) → length xs ≡ 0 → lremoved c v xs ≡ xs
    nothing_removed (pos zero) [] z = refl
    nothing_removed (pos (suc c)) [] z = refl
    nothing_removed (negsuc c) [] z = refl
    nothing_removed c (x ∷ xs) z = absurd (omega arith)
