-- ===== src/PagedList/Pop.antt =====
-- `pop_front_inner` and `pop_back_inner` of wedb_list/src/list.rs take the elements off the ends.
use garnet_rust.Common.{
  ℕ, ◌+◌, ◌<◌, ◌≡◌, refl, ap, inl, inr, List, [], ◌∷◌, ◌++◌, Option, none, some, arith, append-nil,
  append_assoc, length, length-append, unsnoc, unsnoc-none, unsnoc-some, Option-cases, ◌-◌, ◌==◌,
  if◌then◌else◌, ◌∙◌,
}
use garnet_rust.PagedList.Object.{
  Bytes, BytesPage, ListObject, flat, to_list, Good, AllGood, IsValid, pop_front_inner,
  pop_back_inner, release,
}
use garnet_rust.PagedList.Directory.{
  flat-append, AllGood-append, AllGood-prefix, AllGood-suffix, AllGood-nil,
}

-- What a pop at either end returns and leaves behind.
abbrev pub take_first : List Bytes → Option Bytes × List Bytes
take_first [] = (none, [])
take_first (x ∷ xs) = (some x, xs)

abbrev pub take_last_of : Option (Bytes × List Bytes) → Option Bytes × List Bytes
take_last_of none = (none, [])
take_last_of (some (x, xs)) = (some x, xs)

abbrev pub take_last : List Bytes → Option Bytes × List Bytes
take_last xs = take_last_of (unsnoc xs)

pop_front_inner_page :
    (n : ℕ) (xs : List Bytes) (ps : List BytesPage)
    → IsValid (record { pages = record { items = xs } ∷ ps; len = n })
    → let (v, o') = pop_front_inner (record { pages = record { items = xs } ∷ ps; len = n }) in
      IsValid o' × ((v, to_list o') ≡ take_first (xs ++ flat ps))
unfolding pop_front_inner
pop_front_inner_page n [] ps h = absurd (omega (arith, h.good.0))
pop_front_inner_page n (x ∷ []) ps h = ground (arith, AllGood-nil ps h.good.1, h.counted, h.good)
pop_front_inner_page n (x ∷ y ∷ ys) ps h = ground (arith, h.counted, h.good)

pop_front_inner_pages :
    (n : ℕ) (ps : List BytesPage)
    → IsValid (record { pages = ps; len = n })
    → let (v, o') = pop_front_inner (record { pages = ps; len = n }) in
      IsValid o' × ((v, to_list o') ≡ take_first (flat ps))
unfolding pop_front_inner
pop_front_inner_pages n [] h = (h, refl)
pop_front_inner_pages n (p ∷ ps) h = pop_front_inner_page n p.items ps h

-- On a valid list, popping at the front keeps the invariant; it returns the first element, if there
-- is one, and leaves the others.
pub pop_front_inner_lem :
    (o : ListObject)
    → IsValid o
    → let (v, o') = pop_front_inner o in IsValid o' × ((v, to_list o') ≡ take_first (to_list o))
pop_front_inner_lem o h = pop_front_inner_pages o.len o.pages h

unsnoc-append_one : (xs : List Bytes) (x : Bytes) → unsnoc (xs ++ x ∷ []) ≡ some (x, xs)
unfolding unsnoc
unsnoc-append_one [] x = refl
unsnoc-append_one (y ∷ ys) x = rw (unsnoc-append_one ys x)

pub record LastPage (o : ListObject) (p : BytesPage) (init : List BytesPage) : Type 0 where
  pub split : o.pages ≡ init ++ p ∷ []
  pub before : AllGood init
  pub last : Good p
  pub listed : to_list o ≡ flat init ++ p.items
  pub total : o.len ≡ length (flat init) + length p.items

pub last_page :
    (o : ListObject) (p : BytesPage) (init : List BytesPage)
    → IsValid o
    → unsnoc o.pages ≡ some (p, init)
    → LastPage o p init
last_page o p init h e =
    let s = unsnoc-some o.pages e in
    let g : AllGood (init ++ p ∷ []) = rw (← s) h.good in
    let l : to_list o ≡ flat init ++ p.items =
      ap flat s ∙ (flat-append init (p ∷ []) ∙ ap (◌++◌ (flat init)) (append-nil p.items)) in
    record {
      split = s;
      before = AllGood-prefix init (p ∷ []) g;
      last = (AllGood-suffix init (p ∷ []) g).0;
      listed = l;
      total = omega (arith, h.counted, ap length l, length-append (flat init) p.items);
    }

-- The object after the last page `ys ++ [v]` has lost `v`.
shortened :
    (n : ℕ) (init : List BytesPage) (ys : List Bytes)
    → AllGood init
    → length ys < 64
    → n ≡ length (flat init) + length ys
    → let o = release (record {
      pages = if length ys == 0 then init else init ++ record { items = ys } ∷ [];
      len = n;
    }) in
      IsValid o × (to_list o ≡ flat init ++ ys)
shortened n init [] g b e = ground (arith, AllGood-nil init g, append-nil (flat init))
shortened n init (y ∷ ys) g b e =
    let q : BytesPage = record { items = y ∷ ys } in
    ground (
      arith,
      flat-append init (q ∷ []),
      append-nil (y ∷ ys),
      length-append (flat init) (y ∷ ys),
      AllGood-append init (q ∷ []) g (omega arith),
    )

pop_back_inner_last :
    (o : ListObject) (p : BytesPage) (init : List BytesPage) (v : Bytes) (ys : List Bytes)
    → LastPage o p init
    → unsnoc o.pages ≡ some (p, init)
    → p.items ≡ ys ++ v ∷ []
    → let (w, o') = pop_back_inner o in IsValid o' × ((w, to_list o') ≡ take_last (to_list o))
unfolding pop_back_inner
pop_back_inner_last o p init v ys h e i =
    let l : length p.items ≡ length ys + 1 = ap length i ∙ length-append ys (v ∷ []) in
    let s =
      shortened (o.len - 1) init ys h.before (omega (arith, h.last, l))
        (omega (arith, h.total, l)) in
    rw
      (
        e,
        i,
        unsnoc-append_one ys v,
        h.listed,
        i,
        ← append_assoc (flat init) ys (v ∷ []),
        unsnoc-append_one (flat init ++ ys) v,
      )
      (s.0, rw s.1)

pub take_last-no_page : (ps : List BytesPage) → ps ≡ [] → (none, flat ps) ≡ take_last (flat ps)
unfolding unsnoc
take_last-no_page ps e = rw e

pop_back_inner-none :
    (o : ListObject)
    → IsValid o
    → unsnoc o.pages ≡ none
    → let (v, o') = pop_back_inner o in IsValid o' × ((v, to_list o') ≡ take_last (to_list o))
unfolding pop_back_inner
pop_back_inner-none o h e = rw e (h, take_last-no_page o.pages (unsnoc-none o.pages e))

-- On a valid list, popping at the back keeps the invariant; it returns the last element, if there is
-- one, and leaves the others.
pub pop_back_inner_lem :
    (o : ListObject)
    → IsValid o
    → let (v, o') = pop_back_inner o in IsValid o' × ((v, to_list o') ≡ take_last (to_list o))
pop_back_inner_lem o h = elim (Option-cases (unsnoc o.pages)) [
  | inl e ↦ pop_back_inner-none o h e
  | inr ((p, init), e) ↦ elim (Option-cases (unsnoc p.items)) [
    | inl e' ↦
        absurd (omega (arith, (last_page o p init h e).last, ap length (unsnoc-none p.items e')))
    | inr ((v, ys), e') ↦
        pop_back_inner_last o p init v ys (last_page o p init h e) e (unsnoc-some p.items e')
  ]
]
