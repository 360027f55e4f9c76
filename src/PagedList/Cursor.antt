-- ===== src/PagedList/Cursor.antt =====
-- The cursors of `Slices` (wedb_list/src/list.rs) move from one element to its neighbour.
use garnet_rust.Common.{
  ℕ, suc, ◌+◌, ◌≤◌, ◌<◌, ◌≡◌, refl, ap, sym, ◌∙◌, inl, inr, List, [], ◌∷◌, ◌++◌, some, arith,
  append_assoc, append-nil, length, length-append, get_elem?, leb, ◌==◌, Bool-cases, unsnoc,
  unsnoc-some, unsnoc-none, Option-cases, subst, get_elem?-append_right, add-zero,
}
use garnet_rust.PagedList.Object.{BytesPage, flat, AllGood}
use garnet_rust.PagedList.Directory.{AllGood-split}
use garnet_rust.PagedList.Range.{after_front, before_back, wrapping_pred, last_index}
use garnet_rust.PagedList.Locate.{Located, Located-page, flat-Located, length-snoc_flat}

-- The cursor `c` stands at element `idx`.
abbrev pub At : List BytesPage → ℕ → ℕ × ℕ → Type 0
At ps idx c = Located ps idx c.0 c.1

module _ {ps : List BytesPage} (g : AllGood ps) {idx : ℕ} where
  next_page :
      (c : ℕ × ℕ) (l : At ps idx c)
      → length l.page.items ≤ c.1 + 1
      → suc idx < length (flat ps)
      → At ps (suc idx) (c.0 + 1, 0)
  next_page c l full more = go l.after (flat-Located l) l.parts
    where
      go :
          (after : List BytesPage)
          → flat ps ≡ flat l.before ++ (l.page.items ++ flat after)
          → ps ≡ l.before ++ l.page ∷ after
          → At ps (suc idx) (c.0 + 1, 0)
      go [] f e = absurd (
          omega (
            arith,
            l.offset,
            l.inside,
            ap length f,
            length-append (flat l.before) (l.page.items ++ []),
            ap length (append-nil l.page.items),
          ))
      go (q ∷ qs) f e =
          let e' : ps ≡ (l.before ++ l.page ∷ []) ++ q ∷ qs =
            e ∙ sym (append_assoc l.before (l.page ∷ []) (q ∷ qs)) in
          let g' : AllGood ((l.before ++ l.page ∷ []) ++ q ∷ qs) = subst AllGood e' g in
          record {
            before = l.before ++ l.page ∷ [];
            page = q;
            after = qs;
            parts = e';
            index = omega (arith, l.index, length-append l.before (l.page ∷ []));
            offset = omega (arith, l.offset, l.inside, length-snoc_flat l.before l.page);
            inside = (AllGood-split (l.before ++ l.page ∷ []) q qs g').1.0;
          }

  -- The front cursor goes on to the next element, if there is one.
  pub after_front-At :
      (c : ℕ × ℕ)
      → At ps idx c
      → suc idx < length (flat ps)
      → At ps (suc idx) (after_front c (get_elem? ps c.0))
  after_front-At c l more =
      rw (Located-page l) (elim (Bool-cases (leb (length l.page.items) (c.1 + 1))) [
        | inl full ↦ rw full (next_page c l (ground arith) more)
        | inr room ↦ rw room (record {
          before = l.before;
          page = l.page;
          after = l.after;
          parts = l.parts;
          index = l.index;
          offset = omega (arith, l.offset);
          inside = ground arith;
        })
      ])

  previous_page :
      (c : ℕ × ℕ)
      → At ps (suc idx) c
      → c.1 ≡ 0
      → At ps idx (wrapping_pred c.0, last_index (get_elem? ps (wrapping_pred c.0)))
  previous_page c l z = elim (Option-cases (unsnoc l.before)) [
    | inl e ↦
        absurd (omega (arith, l.offset, z, ap (λ qs. length (flat qs)) (unsnoc-none l.before e)))
    | inr ((q, init), e) ↦
        let s = unsnoc-some l.before e in
        let n : length l.before ≡ length init + 1 = ap length s ∙ length-append init (q ∷ []) in
        let m : length (flat l.before) ≡ length (flat init) + length q.items =
          ap (λ qs. length (flat qs)) s ∙ length-snoc_flat init q in
        let e' : ps ≡ init ++ q ∷ (l.page ∷ l.after) =
          l.parts
          ∙ (ap (λ qs. qs ++ l.page ∷ l.after) s ∙ append_assoc init (q ∷ []) (l.page ∷ l.after)) in
        let w : wrapping_pred c.0 ≡ length init = ground (arith, l.index, n) in
        let at : get_elem? ps (length init) ≡ some q =
          rw (e', ← add-zero (length init), get_elem?-append_right init (q ∷ l.page ∷ l.after) 0) in
        let full = (AllGood-split init q (l.page ∷ l.after) (subst AllGood e' g)).1.0 in
        rw (w, at)
          (record {
            before = init;
            page = q;
            after = l.page ∷ l.after;
            parts = e';
            index = refl;
            offset = omega (arith, l.offset, z, m, full);
            inside = omega (arith, full);
          })
  ]

  -- The back cursor goes on to the element before.
  pub before_back-At : (c : ℕ × ℕ) → At ps (suc idx) c → At ps idx (before_back ps c)
  before_back-At c l = elim (Bool-cases (c.1 == 0)) [
    | inl first ↦ rw first (previous_page c l (ground arith))
    | inr later ↦ rw later (record {
      before = l.before;
      page = l.page;
      after = l.after;
      parts = l.parts;
      index = l.index;
      offset = ground (arith, l.offset);
      inside = omega (arith, l.inside);
    })
  ]
