-- ===== src/PagedList/RemovedPages.antt =====
-- The removal of elements equal to a value from all pages, in wedb_list/src/list.rs: from the front,
-- from the back and everywhere.
use garnet_rust.Common.{
  ℕ, zero, suc, ◌+◌, ◌-◌, ◌≤◌, ◌≡◌, refl, ap, ap₂, sym, ◌∙◌, inl, inr, List, [], ◌∷◌, ◌++◌, false,
  ◌==◌, arith, Bool-cases, min, length, length-append, length-reverse, reverse, append-nil,
  bytes_eq,
}
use mathlib.Core.List.{reverse-cons, reverse-append, reverse-reverse}
use garnet_rust.PagedList.Page
use garnet_rust.PagedList.Page.{retain_items}
use garnet_rust.PagedList.Object.{Bytes, BytesPage, flat, AllGood}
use garnet_rust.PagedList.Directory.{flat-append}
use garnet_rust.PagedList.Lrem.{
  remove_from_page_head, remove_from_page_tail, not_eq_closure, remove_head, remove_tail,
  retain_not_eq, reversed,
}
use garnet_rust.PagedList.RemovedItems.{
  remove_first, remove_last, remove_all, count_eq, remove_first-zero, remove_first-append,
  count_eq-append, length-remove_first, remove_from_page_head_lem,
}
use garnet_rust.PagedList.RemovedTail.{remove_from_page_tail_lem}

-- Pages that may be empty.
abbrev pub AllFit : List BytesPage → Type 0
AllFit [] = Unit
AllFit (p ∷ ps) = (length p.items ≤ 64) × AllFit ps

pub AllGood-AllFit : (ps : List BytesPage) → AllGood ps → AllFit ps
AllGood-AllFit [] g = tt
AllGood-AllFit (p ∷ ps) g = (omega (arith, g.0), AllGood-AllFit ps g.1)

pub remove_head_lem :
    (quota : ℕ) (v : Bytes) (ps : List BytesPage) (removed : ℕ)
    → AllFit ps
    → let (total, ps') = remove_head quota v ps removed in
      (total ≡ removed + min quota (count_eq v (flat ps)))
      × (flat ps' ≡ remove_first quota v (flat ps))
      × AllFit ps'
unfolding remove_head remove_first
remove_head_lem quota v [] removed g = (omega arith, refl, tt)
remove_head_lem zero v (p ∷ ps) removed g =
    (omega arith, sym (remove_first-zero v (flat (p ∷ ps))), g)
remove_head_lem (suc n) v (p ∷ ps) removed g =
    let quota = suc n in
    let nz : (suc n == 0) ≡ false = ground arith in
    let r = (remove_from_page_head quota v p).0 in
    let (a, b) = remove_from_page_head_lem quota v p in
    let (c, d, e) = remove_head_lem (quota - r) v ps (removed + r) g.1 in
    let k : quota - r ≡ quota - count_eq v p.items = omega (arith, a) in
    rw nz (
      c ∙ omega (arith, a, count_eq-append v p.items (flat ps)),
      ap₂ ◌++◌ b (d ∙ ap (λ i. remove_first i v (flat ps)) k)
          ∙ sym (remove_first-append quota v p.items (flat ps)),
      (omega (arith, ap length b, length-remove_first quota v p.items, g.0), e),
    )

-- The elements of pages that come in reverse, the last one first.
abbrev pub rflat : List BytesPage → List Bytes
rflat [] = []
rflat (p ∷ rs) = reverse p.items ++ rflat rs

pub flat-reverse : (rs : List BytesPage) → flat (reverse rs) ≡ reverse (rflat rs)
flat-reverse [] = refl
flat-reverse (p ∷ rs) =
    ap flat (reverse-cons p rs)
    ∙ (flat-append (reverse rs) (p ∷ [])
        ∙ (ap₂ ◌++◌ (flat-reverse rs) (append-nil p.items ∙ sym (reverse-reverse p.items))
            ∙ sym (reverse-append (reverse p.items) (rflat rs))))

pub rflat-reverse : (ps : List BytesPage) → rflat (reverse ps) ≡ reverse (flat ps)
rflat-reverse ps =
    sym (reverse-reverse (rflat (reverse ps)))
    ∙ ap reverse (sym (flat-reverse (reverse ps)) ∙ ap flat (reverse-reverse ps))

pub AllFit-append : (ps qs : List BytesPage) → AllFit ps → AllFit qs → AllFit (ps ++ qs)
AllFit-append [] qs g h = h
AllFit-append (p ∷ ps) qs g h = (g.0, AllFit-append ps qs g.1 h)

pub AllFit-reverse : (ps : List BytesPage) → AllFit ps → AllFit (reverse ps)
AllFit-reverse [] g = tt
AllFit-reverse (p ∷ ps) g =
    rw (reverse-cons p ps) (AllFit-append (reverse ps) (p ∷ []) (AllFit-reverse ps g.1) (g.0, tt))

remove_tail_rev :
    (quota : ℕ) (v : Bytes) (rs : List BytesPage) (removed : ℕ)
    → AllFit rs
    → let (total, rs') = remove_tail quota v rs removed in
      (total ≡ removed + min quota (count_eq v (rflat rs)))
      × (rflat rs' ≡ remove_first quota v (rflat rs))
      × AllFit rs'
unfolding remove_tail remove_first
remove_tail_rev quota v [] removed g = (omega arith, refl, tt)
remove_tail_rev zero v (p ∷ rs) removed g =
    (omega arith, sym (remove_first-zero v (rflat (p ∷ rs))), g)
remove_tail_rev (suc n) v (p ∷ rs) removed g =
    let quota = suc n in
    let nz : (suc n == 0) ≡ false = ground arith in
    let r = (remove_from_page_tail quota v p).0 in
    let p' = (remove_from_page_tail quota v p).1 in
    let xs = reverse p.items in
    let (a, b) = remove_from_page_tail_lem quota v p in
    let (c, d, e) = remove_tail_rev (quota - r) v rs (removed + r) g.1 in
    let k : quota - r ≡ quota - count_eq v xs = omega (arith, a) in
    rw nz (
      c ∙ omega (arith, a, count_eq-append v xs (rflat rs)),
      ap₂ ◌++◌ b (d ∙ ap (λ i. remove_first i v (rflat rs)) k)
          ∙ sym (remove_first-append quota v xs (rflat rs)),
      (
        omega (
          arith,
          ap length b,
          length-remove_first quota v xs,
          length-reverse p.items,
          length-reverse p'.items,
          g.0,
        ),
        e,
      ),
    )

-- What each kind of removal leaves of the elements, and that the number that it returns is right.
pub record Removed (xs target : List Bytes) (r : ℕ × List BytesPage) : Type 0 where
  pub total : r.0 + length target ≡ length xs
  pub left : flat r.1 ≡ target
  pub fit : AllFit r.1

pub remove_head-Removed :
    (quota : ℕ) (v : Bytes) (ps : List BytesPage)
    → AllFit ps
    → Removed (flat ps) (remove_first quota v (flat ps)) (remove_head quota v ps 0)
remove_head-Removed quota v ps g =
    let (a, b, c) = remove_head_lem quota v ps 0 g in
    record { total = omega (arith, a, length-remove_first quota v (flat ps)); left = b; fit = c }

pub remove_tail-Removed :
    (quota : ℕ) (v : Bytes) (ps : List BytesPage)
    → AllFit ps
    → Removed
        (flat ps)
        (remove_last quota v (flat ps))
        (reversed (remove_tail quota v (reverse ps) 0))
remove_tail-Removed quota v ps g =
    let (a, b, c) = remove_tail_rev quota v (reverse ps) 0 (AllFit-reverse ps g) in
    let ps' = (remove_tail quota v (reverse ps) 0).1 in
    let xs = reverse (flat ps) in
    let same = rflat-reverse ps in
    record {
      total = omega (
        arith,
        a,
        ap (λ zs. min quota (count_eq v zs)) same,
        length-remove_first quota v xs,
        length-reverse (remove_first quota v xs),
        length-reverse (flat ps),
      );
      left = flat-reverse ps' ∙ ap reverse (b ∙ ap (remove_first quota v) same);
      fit = AllFit-reverse ps' c;
    }

retain_items_lem :
    (v : Bytes) (xs : List Bytes) → (retain_items (not_eq_closure v) tt xs).1 ≡ remove_all v xs
unfolding retain_items
retain_items_lem v [] = refl
retain_items_lem v (x ∷ xs) = rw (retain_items_lem v xs)

pub remove_all-append :
    (v : Bytes) (xs ys : List Bytes) → remove_all v (xs ++ ys) ≡ remove_all v xs ++ remove_all v ys
remove_all-append v [] ys = refl
remove_all-append v (x ∷ xs) ys = elim (Bool-cases (bytes_eq x v)) [
  | inl e ↦ rw e (remove_all-append v xs ys)
  | inr d ↦ rw d (ap (◌∷◌ x) (remove_all-append v xs ys))
]

length-remove_all : (v : Bytes) (xs : List Bytes) → length (remove_all v xs) ≤ length xs
length-remove_all v [] = omega arith
length-remove_all v (x ∷ xs) = ground (arith, length-remove_all v xs)

retain_not_eq_lem :
    (v : Bytes) (ps : List BytesPage) (removed : ℕ)
    → AllFit ps
    → let (total, ps') = retain_not_eq v ps removed in
      (total + length (remove_all v (flat ps)) ≡ removed + length (flat ps))
      × (flat ps' ≡ remove_all v (flat ps))
      × AllFit ps'
unfolding retain_not_eq Page.retain
retain_not_eq_lem v [] removed g = (refl, refl, tt)
retain_not_eq_lem v (p ∷ ps) removed g =
    let kept = remove_all v p.items in
    let same = retain_items_lem v p.items in
    let n = length (retain_items (not_eq_closure v) tt p.items).1 in
    let m : n ≡ length kept = ap length same in
    let (a, b, c) = retain_not_eq_lem v ps (removed + (length p.items - n)) g.1 in
    let whole = remove_all-append v p.items (flat ps) in
    let less = length-remove_all v p.items in
    (
      omega (
        arith,
        a,
        m,
        less,
        ap length whole,
        length-append kept (remove_all v (flat ps)),
        length-append p.items (flat ps),
      ),
      ap₂ ◌++◌ same b ∙ sym whole,
      (omega (arith, m, less, g.0), c),
    )

pub retain_not_eq-Removed :
    (v : Bytes) (ps : List BytesPage)
    → AllFit ps
    → Removed (flat ps) (remove_all v (flat ps)) (retain_not_eq v ps 0)
retain_not_eq-Removed v ps g =
    let (a, b, c) = retain_not_eq_lem v ps 0 g in
    record { total = omega (arith, a); left = b; fit = c }
