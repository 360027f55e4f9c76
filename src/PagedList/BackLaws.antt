-- ===== src/PagedList/BackLaws.antt =====
-- Reading the iterator `Slices` of wedb_list/src/list.rs from its back gives the elements in reverse.
use garnet_rust.Common.{
  ℕ, zero, suc, ◌-◌, ◌≤◌, ◌<◌, ◌≡◌, refl, ap, sym, ◌∙◌, inl, inr, List, [], ◌∷◌, ◌++◌, Option, none,
  some, arith, length, get_elem?, get_elem?-some, ltb, leb, if◌then◌else◌, Bool-cases, suc-==-zero,
  lt→ltb, take, reverse, take_all,
}
use mathlib.Core.List.{reverse-append}
use garnet_rust.PagedList.Object.{Bytes, BytesPage, ListObject, flat, to_list, AllGood, IsValid}
use garnet_rust.PagedList.Access.{locate, get_in_page}
use garnet_rust.PagedList.Range.{
  or_origin, slices, before_back, next_back, collect_with, collect_back,
}
use garnet_rust.PagedList.Cursor.{At, before_back-At}
use garnet_rust.PagedList.Locate.{Finds, locate-Finds, Located-page, Located-element}
use garnet_rust.PagedList.RangeLaws.{at_cursors, collect_with-some}

take-suc :
    (k : ℕ) (xs : List Bytes) {v : Bytes}
    → get_elem? xs k ≡ some v
    → take (suc k) xs ≡ take k xs ++ v ∷ []
take-suc k [] e = cc
take-suc zero (x ∷ xs) {v} e = ap (λ y. y ∷ []) (value_of e)
  where
    or_x : Option Bytes → Bytes
    or_x none = x
    or_x (some y) = y

    value_of : some x ≡ some v → x ≡ v
    value_of e = ap or_x e
take-suc (suc k) (x ∷ xs) e = ap (◌∷◌ x) (take-suc k xs e)

next_back-At :
    (ps : List BytesPage) (front back : ℕ × ℕ) (r : ℕ) {idx : ℕ} {v : Bytes}
    → At ps idx back
    → get_elem? (flat ps) idx ≡ some v
    → let back' = if ltb 0 r then before_back ps back else back in
      next_back (at_cursors ps front back (suc r)) ≡ (some v, at_cursors ps front back' r)
unfolding next_back
next_back-At ps front back r {v = v} l e =
    let e' : get_in_page back.1 (get_elem? ps back.0) ≡ some v =
      rw (Located-page l) (sym (Located-element l) ∙ e) in
    let n : suc r - 1 ≡ r = omega arith in
    rw (suc-==-zero r, e', n) (elim (Bool-cases (ltb 0 r)) [ inl t ↦ rw t | inr f ↦ rw f ])

collect_back-At :
    (n r : ℕ) (ps : List BytesPage) (front back : ℕ × ℕ)
    → AllGood ps
    → r ≤ length (flat ps)
    → (0 < r → At ps (r - 1) back)
    → r < n
    → collect_with next_back n (at_cursors ps front back r) ≡ reverse (take r (flat ps))
collect_back-At zero r ps front back g fits at lt = absurd (omega arith)
collect_back-At (suc n) zero ps front back g fits at lt = unfold collect_with next_back in refl
collect_back-At (suc n) (suc k) ps front back g fits at lt =
    let (v, e) = get_elem?-some (flat ps) k (omega arith) in
    let back' = if ltb 0 k then before_back ps back else back in
    let here : suc k - 1 ≡ k = omega arith in
    let l = rw here at (at (omega arith)) in
    let at' : 0 < k → At ps (k - 1) back' = λ h. earlier k h l in
    collect_with-some next_back n (at_cursors ps front back (suc k))
      (next_back-At ps front back k l e)
    ∙ (ap (◌∷◌ v) (collect_back-At n k ps front back' g (omega arith) at' (omega arith))
        ∙ sym (ap reverse (take-suc k (flat ps) e) ∙ reverse-append (take k (flat ps)) (v ∷ [])))
  where
    earlier :
        (k : ℕ)
        → 0 < k
        → At ps k back
        → At ps (k - 1) (if ltb 0 k then before_back ps back else back)
    earlier zero h l = absurd (omega (arith, h))
    earlier (suc j) h l =
        let past : suc j - 1 ≡ j = omega arith in
        rw (lt→ltb 0 (suc j) h, past) (before_back-At g back l)

pub collect_back-slices :
    (o : ListObject) → IsValid o → collect_back (slices o 0 o.len) ≡ reverse (to_list o)
unfolding slices
collect_back-slices o h = elim (Bool-cases (leb o.len 0)) [
  | inl nothing ↦
      let z : length (to_list o) ≡ 0 = ground (arith, h.counted) in
      rw nothing (
        collect_back-At 1 0 o.pages (0, 0) (0, 0) h.good (omega arith) (λ z. absurd (omega arith))
          (omega arith)
        ∙ ap reverse (sym (nothing_in (to_list o) z)))
  | inr more ↦
      let size : o.len - 0 ≡ o.len = omega arith in
      rw (more, size)
        (collect_back-At (suc o.len) o.len o.pages _ _ h.good (omega (arith, h.counted))
            (λ z. back z) (omega arith)
          ∙ ap reverse (take_all o.len (to_list o) (omega (arith, h.counted))))
]
  where
    nothing_in : (xs : List Bytes) → length xs ≡ 0 → xs ≡ []
    nothing_in [] e = refl
    nothing_in (x ∷ xs) e = absurd (omega arith)

    back : 0 < o.len → At o.pages (o.len - 1) (or_origin (locate o (o.len - 1)))
    back lt = found (locate-Finds o (o.len - 1) h (omega (arith, lt)))
      where
        found :
            Finds o.pages (o.len - 1) (locate o (o.len - 1))
            → At o.pages (o.len - 1) (or_origin (locate o (o.len - 1)))
        found (pi, local, e, l) = rw e l
