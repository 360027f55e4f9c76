-- ===== src/PagedList/Locate.antt =====
-- `locate` of wedb_list/src/list.rs finds the page that holds the element of an index.
use garnet_rust.Common.{
  ℕ, ◌+◌, ◌-◌, ◌*◌, ◌≤◌, ◌<◌, ◌≡◌, refl, ap, sym, ◌∙◌, inl, inr, List, [], ◌∷◌, ◌++◌, Option, none,
  some, arith, append_assoc, append-nil, length, length-append, get_elem?, reverse, ltb, leb,
  Bool-cases, drop, drop-append_right, drop-append_left, get_elem?-append_left,
  get_elem?-append_right, add-zero, subst, false,
}
use mathlib.Core.List.{reverse-cons, reverse-reverse}
use garnet_rust.PagedList.Object.{Bytes, BytesPage, ListObject, flat, IsValid}
use garnet_rust.PagedList.Directory.{flat-append}
use garnet_rust.PagedList.Access.{locate, locate_front, locate_back}

-- The pages before the one at `pi`, that page and the pages after it; `idx` is its element `local`.
pub record Located (ps : List BytesPage) (idx pi local : ℕ) : Type 0 where
  pub before : List BytesPage
  pub page : BytesPage
  pub after : List BytesPage
  pub parts : ps ≡ before ++ page ∷ after
  pub index : pi ≡ length before
  pub offset : idx ≡ length (flat before) + local
  pub inside : local < length page.items

abbrev pub Finds : List BytesPage → ℕ → Option (ℕ × ℕ) → Type 0
Finds ps idx r = (pi : ℕ) × (local : ℕ) × (r ≡ some (pi, local)) × Located ps idx pi local

locate_front-Finds :
    (idx : ℕ) (pre ps : List BytesPage)
    → length (flat pre) ≤ idx
    → idx < length (flat pre) + length (flat ps)
    → Finds (pre ++ ps) idx (locate_front idx (length (flat pre)) (length pre) ps)
unfolding locate_front
locate_front-Finds idx pre [] lo hi = absurd (omega arith)
locate_front-Finds idx pre (p ∷ ps) lo hi =
    elim (Bool-cases (ltb idx (length (flat pre) + length p.items))) [
      | inl here ↦ (
        length pre,
        idx - length (flat pre),
        rw here,
        record {
          before = pre;
          page = p;
          after = ps;
          parts = refl;
          index = refl;
          offset = omega arith;
          inside = ground arith;
        },
      )
      | inr there ↦ rw there (
          let e : pre ++ p ∷ ps ≡ (pre ++ p ∷ []) ++ ps = sym (append_assoc pre (p ∷ []) ps) in
          let l : length (flat (pre ++ p ∷ [])) ≡ length (flat pre) + length p.items =
            ap length (flat-append pre (p ∷ []))
            ∙ (length-append (flat pre) (flat (p ∷ []))
                ∙ ap (λ (xs : List Bytes). length (flat pre) + length xs) (append-nil p.items)) in
          let n : length (pre ++ p ∷ []) ≡ length pre + 1 = length-append pre (p ∷ []) in
          rw (e, ← l, ← n)
            (locate_front-Finds idx (pre ++ p ∷ []) ps (ground (arith, l))
              (omega (arith, l, length-append p.items (flat ps)))))
    ]

pub length-snoc_flat :
    (pre : List BytesPage) (p : BytesPage)
    → length (flat (pre ++ p ∷ [])) ≡ length (flat pre) + length p.items
length-snoc_flat pre p =
    ap length (flat-append pre (p ∷ []))
    ∙ (length-append (flat pre) (flat (p ∷ []))
        ∙ ap (λ (xs : List Bytes). length (flat pre) + length xs) (append-nil p.items))

locate_back-Finds :
    (idx acc pi : ℕ) (rs post : List BytesPage)
    → acc ≡ length (flat (reverse rs))
    → pi ≡ length (reverse rs)
    → idx < acc
    → Finds (reverse rs ++ post) idx (locate_back idx acc pi rs)
unfolding locate_back
locate_back-Finds idx acc pi [] post ea ep lo = absurd (omega arith)
locate_back-Finds idx acc pi (p ∷ rs) post ea ep lo =
    let l : acc ≡ length (flat (reverse rs)) + length p.items =
      ea ∙ (ap (λ qs. length (flat qs)) (reverse-cons p rs) ∙ length-snoc_flat (reverse rs) p) in
    let n : pi ≡ length (reverse rs) + 1 =
      ep ∙ (ap length (reverse-cons p rs) ∙ length-append (reverse rs) (p ∷ [])) in
    let e : reverse (p ∷ rs) ++ post ≡ reverse rs ++ p ∷ post =
      ap (λ qs. qs ++ post) (reverse-cons p rs) ∙ append_assoc (reverse rs) (p ∷ []) post in
    elim (Bool-cases (leb (acc - length p.items) idx)) [
      | inl here ↦
          rw (here, e)
            (
              pi - 1,
              idx - (acc - length p.items),
              refl,
              record {
                before = reverse rs;
                page = p;
                after = post;
                parts = refl;
                index = omega (arith, n);
                offset = ground (arith, l);
                inside = ground (arith, l);
              },
            )
      | inr there ↦
          rw (there, e)
            (locate_back-Finds idx (acc - length p.items) (pi - 1) rs (p ∷ post) (omega (arith, l))
              (omega (arith, n)) (ground arith))
    ]

-- On a valid list, every index in range is found: its page holds the element at the offset.
pub locate-Finds :
    (o : ListObject) (idx : ℕ) → IsValid o → idx < o.len → Finds o.pages idx (locate o idx)
unfolding locate
locate-Finds o idx h lt = rw (lt_test) (elim (Bool-cases (leb (idx * 2) o.len)) [
  | inl near ↦ rw near (locate_front-Finds idx [] o.pages (omega arith) (omega (arith, h.counted)))
  | inr far ↦ rw far (
      let r =
        locate_back-Finds idx o.len (length o.pages) (reverse o.pages) []
          (rw reverse-reverse h.counted) (rw reverse-reverse) lt in
      subst (λ ps. Finds ps idx (locate_back idx o.len (length o.pages) (reverse o.pages)))
        (rw (append-nil, reverse-reverse)) r)
])
  where
    lt_test : leb o.len idx ≡ false
    lt_test = ground arith

-- An index out of range is refused.
pub locate-none : (o : ListObject) (idx : ℕ) → o.len ≤ idx → locate o idx ≡ none
unfolding locate
locate-none o idx h = ground arith

module _ {ps : List BytesPage} {idx pi local : ℕ} (l : Located ps idx pi local) where
  pub Located-page : get_elem? ps pi ≡ some l.page
  Located-page = rw (
    l.parts,
    l.index,
    ← add-zero (length l.before),
    get_elem?-append_right l.before (l.page ∷ l.after) 0,
  )

  pub flat-Located : flat ps ≡ flat l.before ++ (l.page.items ++ flat l.after)
  flat-Located = rw (l.parts) (flat-append l.before (l.page ∷ l.after))

  pub Located-element : get_elem? (flat ps) idx ≡ get_elem? l.page.items local
  Located-element = rw (
    flat-Located,
    l.offset,
    get_elem?-append_right (flat l.before) (l.page.items ++ flat l.after) local,
    get_elem?-append_left l.page.items (flat l.after) local l.inside,
  )

  -- The elements from the index on: the rest of the page and the pages after it.
  pub drop-Located : drop idx (flat ps) ≡ drop local l.page.items ++ flat l.after
  drop-Located = rw (
    flat-Located,
    l.offset,
    drop-append_right local (flat l.before) (l.page.items ++ flat l.after),
    drop-append_left local l.page.items (flat l.after) (omega (arith, l.inside)),
  )

  pub Located-lt : idx < length (flat ps)
  Located-lt = omega (
    arith,
    l.offset,
    l.inside,
    ap length flat-Located,
    length-append (flat l.before) (l.page.items ++ flat l.after),
    length-append l.page.items (flat l.after),
  )
