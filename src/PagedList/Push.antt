-- ===== src/PagedList/Push.antt =====
-- `push_front_inner` and `push_back_inner` of wedb_list/src/list.rs act on the ends of the list.
use garnet_rust.Common.{
  ◌≡◌, ap, inl, inr, List, [], ◌∷◌, ◌++◌, some, arith, append-nil, append_assoc, length,
  length-append, unsnoc, unsnoc-some, Option-cases,
}
use garnet_rust.PagedList.Page
use garnet_rust.PagedList.Object.{
  Bytes, BytesPage, ListObject, flat, to_list, Good, AllGood, IsValid, push_front_inner,
  push_front_pages, push_back_inner, push_back_last, single_back,
}
use garnet_rust.PagedList.Directory.{flat-append, AllGood-append, AllGood-prefix, AllGood-suffix}

flat-push_front_pages :
    (v : Bytes) (ps : List BytesPage) → flat (push_front_pages v ps) ≡ v ∷ flat ps
unfolding push_front_pages
flat-push_front_pages v [] = ground arith
flat-push_front_pages v (p ∷ ps) = ground arith

push_front_pages-AllGood :
    (v : Bytes) (ps : List BytesPage) → AllGood ps → AllGood (push_front_pages v ps)
unfolding push_front_pages
push_front_pages-AllGood v [] g = ground arith
push_front_pages-AllGood v (p ∷ ps) g = ground arith

-- Pushing at the front keeps the invariant and puts the element before the others.
pub push_front_inner_lem :
    (v : Bytes) (o : ListObject)
    → IsValid o
    → IsValid (push_front_inner v o) × (to_list (push_front_inner v o) ≡ v ∷ to_list o)
unfolding push_front_inner
push_front_inner_lem v o h =
    let e = flat-push_front_pages v o.pages in
    (
      record {
        good = push_front_pages-AllGood v o.pages h.good;
        counted = omega (arith, ap length e, h.counted);
      },
      e,
    )

flat-single :
    (v : Bytes) (ps : List BytesPage) → flat (ps ++ single_back v ∷ []) ≡ flat ps ++ v ∷ []
unfolding Page.push_back
flat-single v ps = flat-append ps (single_back v ∷ [])

single_back-Good : (v : Bytes) → Good (single_back v)
unfolding Page.push_back
single_back-Good v = omega arith

flat-push_back_last :
    (v : Bytes) (ps : List BytesPage) → flat (push_back_last v ps (unsnoc ps)) ≡ flat ps ++ v ∷ []
unfolding push_back_last
flat-push_back_last v ps = elim (Option-cases (unsnoc ps)) [
  | inl e ↦ rw e (flat-single v ps)
  | inr ((p, init), e) ↦ rw e (
      ground (
        arith,
        flat-single v ps,
        ap flat (unsnoc-some ps e),
        flat-append init (p ∷ []),
        flat-append init ((Page.push_back 64 v p).0 ∷ []),
        append-nil p.items,
        append-nil (p.items ++ v ∷ []),
        append_assoc (flat init) p.items (v ∷ []),
      ))
]

push_back_last-AllGood :
    (v : Bytes) (ps : List BytesPage) → AllGood ps → AllGood (push_back_last v ps (unsnoc ps))
unfolding push_back_last
push_back_last-AllGood v ps g = elim (Option-cases (unsnoc ps)) [
  | inl e ↦ rw e (AllGood-append ps (single_back v ∷ []) g (single_back-Good v, tt))
  | inr ((p, init), e) ↦ rw e (
      ground (
        arith,
        AllGood-append ps (single_back v ∷ []) g (single_back-Good v, tt),
        last_good p init e,
        AllGood-append init ((Page.push_back 64 v p).0 ∷ []),
        length-append p.items (v ∷ []),
      ))
]
  where
    last_good :
        (p : BytesPage) (init : List BytesPage) → unsnoc ps ≡ some (p, init) → AllGood init × Good p
    last_good p init e =
        let g' : AllGood (init ++ p ∷ []) = rw (← unsnoc-some ps e) g in
        (AllGood-prefix init (p ∷ []) g', (AllGood-suffix init (p ∷ []) g').0)

-- Pushing at the back keeps the invariant and puts the element after the others.
pub push_back_inner_lem :
    (v : Bytes) (o : ListObject)
    → IsValid o
    → IsValid (push_back_inner v o) × (to_list (push_back_inner v o) ≡ to_list o ++ v ∷ [])
unfolding push_back_inner
push_back_inner_lem v o h =
    let e = flat-push_back_last v o.pages in
    (
      record {
        good = push_back_last-AllGood v o.pages h.good;
        counted = omega (arith, ap length e, h.counted, length-append (to_list o) (v ∷ []));
      },
      e,
    )
