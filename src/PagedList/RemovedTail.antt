-- ===== src/PagedList/RemovedTail.antt =====
-- `remove_from_page_tail` of wedb_list/src/list.rs: the bit mask that it sets up from the last item on
-- marks the items to remove.
use garnet_rust.Common.{
  ℕ, zero, suc, ◌+◌, ◌-◌, ◌/◌, ◌%◌, ◌^◌, ◌<◌, ◌≡◌, refl, ap, ap₂, sym, ◌∙◌, inl, inr, List, [], ◌∷◌,
  ◌++◌, false, ltb, ◌==◌, arith, Bool-cases, min, length, length-reverse, reverse, bytes_eq,
}
use mathlib.Core.List.{reverse-cons, reverse-reverse}
use native.Mathlib.Nat.{pow-suc, one-le-pow}
use garnet_rust.PagedList.Page.{retain_items}
use garnet_rust.PagedList.Object.{Bytes, BytesPage}
use garnet_rust.PagedList.Lrem.{mark_tail, mask_closure, remove_from_page_tail}
use garnet_rust.PagedList.RemovedItems.{remove_first, count_eq, remove_first-none}

-- The items whose bit is 0.
abbrev unmarked : ℕ → List Bytes → List Bytes
unmarked mask xs = (retain_items mask_closure mask xs).1

unmarked-none : (xs : List Bytes) → unmarked 0 xs ≡ xs
unfolding retain_items
unmarked-none [] = refl
unmarked-none (x ∷ xs) = ap (◌∷◌ x) (unmarked-none xs)

unmarked-snoc :
    (mask : ℕ) (xs : List Bytes) (x : Bytes)
    → mask < 2 ^ length xs
    → unmarked mask (xs ++ x ∷ []) ≡ unmarked mask xs ++ x ∷ []
unfolding retain_items
unmarked-snoc mask [] x lt = let z : mask ≡ 0 = omega arith in rw z
unmarked-snoc mask (y ∷ xs) x lt =
    let lt' : mask / 2 < 2 ^ length xs = omega (arith, pow-suc 2 (length xs)) in
    let ih = unmarked-snoc (mask / 2) xs x lt' in
    elim (Bool-cases (mask % 2 == 0)) [ inl e ↦ rw e (ap (◌∷◌ y) ih) | inr d ↦ rw d ih ]

unmarked-marked :
    (mask : ℕ) (xs : List Bytes) (x : Bytes)
    → mask < 2 ^ length xs
    → unmarked (mask + 2 ^ length xs) (xs ++ x ∷ []) ≡ unmarked mask xs
unfolding retain_items
unmarked-marked mask [] x lt = let z : mask ≡ 0 = omega arith in rw z
unmarked-marked mask (y ∷ xs) x lt =
    let p = pow-suc 2 (length xs) in
    let lt' : mask / 2 < 2 ^ length xs = omega (arith, p) in
    let half : (mask + 2 ^ suc (length xs)) / 2 ≡ mask / 2 + 2 ^ length xs = omega (arith, p) in
    let bit : (mask + 2 ^ suc (length xs)) % 2 ≡ mask % 2 = omega (arith, p) in
    let ih = unmarked-marked (mask / 2) xs x lt' in
    rw (half, bit)
      (elim (Bool-cases (mask % 2 == 0)) [ inl e ↦ rw e (ap (◌∷◌ y) ih) | inr d ↦ rw d ih ])

-- What the loop of `remove_from_page_tail` has marked among the items that it has come past.
record Marked (quota : ℕ) (v : Bytes) (ys : List Bytes) (mask removed : ℕ) (r : ℕ × ℕ)
    : Type 0 where
  added : ℕ
  whole : r ≡ (mask + added, removed + min quota (count_eq v ys))
  low : added < 2 ^ length ys
  kept : unmarked added (reverse ys) ≡ reverse (remove_first quota v ys)

mark_tail-Marked :
    (quota : ℕ) (v : Bytes) (ys : List Bytes) (mask removed : ℕ)
    → Marked quota v ys mask removed (mark_tail quota v ys mask removed)
unfolding mark_tail remove_first
mark_tail-Marked quota v [] mask removed = record {
  added = 0;
  whole = ap₂ (λ i j. let p : ℕ × ℕ = (i, j) in p) (omega arith) (omega arith);
  low = omega arith;
  kept = unmarked-none [];
}
mark_tail-Marked zero v (y ∷ ys) mask removed = record {
  added = 0;
  whole = ap₂ (λ i j. let p : ℕ × ℕ = (i, j) in p) (omega arith) (omega arith);
  low = omega (arith, one-le-pow (length (y ∷ ys)) 2 (omega arith));
  kept = unmarked-none (reverse (y ∷ ys));
}
mark_tail-Marked (suc n) v (y ∷ ys) mask removed =
    let nz : (suc n == 0) ≡ false = ground arith in
    let k : suc n - 1 ≡ n = omega arith in
    let p = pow-suc 2 (length ys) in
    let len = length-reverse ys in
    elim (Bool-cases (bytes_eq y v)) [
      | inl e ↦
          let cnt : count_eq v (y ∷ ys) ≡ suc (count_eq v ys) = rw e in
          let cut : remove_first (suc n) v (y ∷ ys) ≡ remove_first n v ys = rw (nz, e, k) in
          let m = mark_tail-Marked n v ys (mask + 2 ^ length ys) (removed + 1) in
          rw (nz, e, k)
            (record {
              added = m.added + 2 ^ length ys;
              whole =
                  m.whole ∙ ap₂ (λ i j. let p : ℕ × ℕ = (i, j) in p) (omega arith) (omega arith);
              low = omega (arith, p, m.low);
              kept =
                  ap₂ unmarked (ap (λ i. m.added + 2 ^ i) (sym len)) (reverse-cons y ys)
                  ∙ (unmarked-marked m.added (reverse ys) y (rw len m.low)
                      ∙ (m.kept ∙ ap reverse (sym cut)));
            })
      | inr d ↦
          let cnt : count_eq v (y ∷ ys) ≡ count_eq v ys = rw d in
          let cut : remove_first (suc n) v (y ∷ ys) ≡ y ∷ remove_first (suc n) v ys = rw (nz, d) in
          let m = mark_tail-Marked (suc n) v ys mask removed in
          rw (nz, d)
            (record {
              added = m.added;
              whole = m.whole ∙ ap (λ j. let p : ℕ × ℕ = (mask + m.added, j) in p) (omega arith);
              low = omega (arith, p, m.low);
              kept =
                  ap (unmarked m.added) (reverse-cons y ys)
                  ∙ (unmarked-snoc m.added (reverse ys) y (rw len m.low)
                      ∙ (ap (λ zs. zs ++ y ∷ []) m.kept
                          ∙ (sym (reverse-cons y (remove_first (suc n) v ys))
                              ∙ ap reverse (sym cut))));
            })
    ]

-- A page under `remove_from_page_tail`, its items in reverse.
pub remove_from_page_tail_lem :
    (quota : ℕ) (v : Bytes) (page : BytesPage)
    → let (r, page') = remove_from_page_tail quota v page in
      (r ≡ min quota (count_eq v (reverse page.items)))
      × (reverse page'.items ≡ remove_first quota v (reverse page.items))
unfolding remove_from_page_tail
remove_from_page_tail_lem quota v page =
    let m = mark_tail-Marked quota v (reverse page.items) 0 0 in
    let count = min quota (count_eq v (reverse page.items)) in
    let whole : mark_tail quota v (reverse page.items) 0 0 ≡ (m.added, count) =
      m.whole ∙ ap₂ (λ i j. let p : ℕ × ℕ = (i, j) in p) (omega arith) (omega arith) in
    rw (whole, remove_from_page_tail)
      (elim (Bool-cases (ltb 0 count)) [
        | inl some_marked ↦ rw some_marked (
          refl,
          ap reverse (ap (unmarked m.added) (sym (reverse-reverse page.items)) ∙ m.kept)
              ∙ reverse-reverse (remove_first quota v (reverse page.items)),
        )
        | inr none_marked ↦
            let z : count ≡ 0 = ground arith in
            rw none_marked (refl, sym (remove_first-none quota v (reverse page.items) z))
      ])
