-- ===== src/PagedList/RotateLaws.antt =====
-- LMOVE within one list of wedb_list/src/list.rs (`rotate`) against the list of elements.
use garnet_rust.Common.{
  ◌≡◌, refl, ap, ap₂, sym, ◌∙◌, inl, inr, List, [], ◌∷◌, ◌++◌, Option, none, some, arith, ◌==◌,
  unsnoc, unsnoc-some, unsnoc-none, length, append_assoc, Bool, true, false, Bool-cases,
  Option-cases, List-cases,
}
use garnet_rust.PagedList.Object.{Bytes, BytesPage, ListObject, flat, to_list, AllGood, IsValid}
use garnet_rust.PagedList.Pop.{take_last-no_page, take_first, take_last, last_page}
use garnet_rust.PagedList.PushPopLaws.{unsnoc-snoc}
use garnet_rust.PagedList.Moves.{push_side, pop_side, rotate, rotate_sides, put_popped, peek_side}
use garnet_rust.PagedList.MoveLaws.{take_side, put_side, push_side_lem, pop_side_lem}

-- The element shown at a side is the one that a pop there would return.
peek_front :
    (ps : List BytesPage)
    → AllGood ps
    → peek_side true (record { pages = ps; len = 0 }) ≡ (take_first (flat ps)).0
peek_front [] g = refl
peek_front (p ∷ ps) g = elim (List-cases p.items) [
  | inl e ↦ absurd (omega (arith, g.0, ap length e))
  | inr (x, xs, e) ↦ rw e
]

peek_back-some :
    (o : ListObject) (p : BytesPage) (init : List BytesPage)
    → IsValid o
    → unsnoc o.pages ≡ some (p, init)
    → peek_side false o ≡ (take_last (to_list o)).0
peek_back-some o p init h e =
    let l = last_page o p init h e in
    elim (Option-cases (unsnoc p.items)) [
      | inl n ↦ absurd (omega (arith, l.last, ap length (unsnoc-none p.items n)))
      | inr ((x, xs), f) ↦
          let t : to_list o ≡ (flat init ++ xs) ++ x ∷ [] =
            l.listed
            ∙ (ap (◌++◌ (flat init)) (unsnoc-some p.items f)
                ∙ sym (append_assoc (flat init) xs (x ∷ []))) in
          rw (e, f, t, unsnoc-snoc (flat init ++ xs) x)
    ]

peek_side_lem :
    (side : Bool) (o : ListObject) → IsValid o → peek_side side o ≡ (take_side side (to_list o)).0
peek_side_lem true o h = peek_front o.pages h.good
peek_side_lem false o h = elim (Option-cases (unsnoc o.pages)) [
  | inr ((p, init), e) ↦ peek_back-some o p init h e
  | inl e ↦ rw e (
      ap (λ (r : Option Bytes × List Bytes). r.0)
        (take_last-no_page o.pages (unsnoc-none o.pages e)))
]

-- Taking an element and putting it back in at a side.
abbrev pub put_taken : Bool → Option Bytes × List Bytes → Option Bytes × List Bytes
put_taken to_left (none, xs) = (none, xs)
put_taken to_left (some v, xs) = (some v, put_side to_left v xs)

take-put :
    (side : Bool) (v : Bytes) (xs : List Bytes) → (take_side side (put_side side v xs)).0 ≡ some v
take-put true v xs = refl
take-put false v xs = rw (unsnoc-snoc xs v)

-- Put back where it came from, the element is in its old place.
put-take :
    (side : Bool) (xs : List Bytes)
    → put_taken side (take_side side xs) ≡ ((take_side side xs).0, xs)
put-take true [] = refl
put-take true (x ∷ xs) = refl
put-take false xs = elim (Option-cases (unsnoc xs)) [
  | inl e ↦ rw (e, unsnoc-none xs e)
  | inr ((x, ys), e) ↦
      rw e
        (ap (λ zs. let r : Option Bytes × List Bytes = (some x, zs) in r) (sym (unsnoc-some xs e)))
]

put_popped_lem :
    (to_left : Bool) (r : Option Bytes × ListObject)
    → IsValid r.1
    → let (v, o') = put_popped to_left r in
      IsValid o' × ((v, to_list o') ≡ put_taken to_left (r.0, to_list r.1))
put_popped_lem to_left (none, o) h = (h, refl)
put_popped_lem to_left (some v, o) h =
    let (h', e) = push_side_lem to_left v o h in
    (
      h',
      ap₂ (λ (w : Option Bytes) (xs : List Bytes). let r : Option Bytes × List Bytes = (w, xs) in r)
          (peek_side_lem to_left (push_side to_left v o) h'
            ∙ (ap (λ xs. (take_side to_left xs).0) e ∙ take-put to_left v (to_list o)))
          e,
    )

nothing_taken :
    (from_left to_left : Bool) (xs : List Bytes)
    → length xs ≡ 0
    → (none, xs) ≡ put_taken to_left (take_side from_left xs)
unfolding unsnoc
nothing_taken true to_left [] e = refl
nothing_taken false to_left [] e = refl
nothing_taken from_left to_left (x ∷ xs) e = absurd (omega (arith, e))

-- LMOVE within one valid list takes the element off the one side, puts it in at the other and
-- returns it; the empty list stays as it is; it keeps the invariant.
pub rotate_lem :
    (o : ListObject) (from_left to_left : Bool)
    → IsValid o
    → let (v, o') = rotate o from_left to_left in
      IsValid o' × ((v, to_list o') ≡ put_taken to_left (take_side from_left (to_list o)))
unfolding rotate
rotate_lem o from_left to_left h = elim (Bool-cases (o.len == 0)) [
  | inl nothing ↦
      rw nothing (h, nothing_taken from_left to_left (to_list o) (ground (arith, h.counted)))
  | inr more ↦ rw more (go from_left to_left)
]
  where
    same :
        (side : Bool)
        → IsValid o × ((peek_side side o, to_list o) ≡ put_taken side (take_side side (to_list o)))
    same side = (
      h,
      ap (λ w. let r : Option Bytes × List Bytes = (w, to_list o) in r) (peek_side_lem side o h)
          ∙ sym (put-take side (to_list o)),
    )

    other :
        (from_left to_left : Bool)
        → let (v, o') = put_popped to_left (pop_side from_left o) in
          IsValid o' × ((v, to_list o') ≡ put_taken to_left (take_side from_left (to_list o)))
    other from_left to_left =
        let (h', e) = pop_side_lem from_left o h in
        let (r, f) = put_popped_lem to_left (pop_side from_left o) h' in
        (r, f ∙ ap (put_taken to_left) e)

    go :
        (from_left to_left : Bool)
        → let (v, o') = rotate_sides from_left to_left o in
          IsValid o' × ((v, to_list o') ≡ put_taken to_left (take_side from_left (to_list o)))
    go true true = same true
    go false false = same false
    go true false = other true false
    go false true = other false true
