-- ===== src/PagedList/RangeLaws.antt =====
-- LRANGE of wedb_list/src/list.rs returns the elements of the range, whatever the pages.
use garnet_rust.Common.{
  ℕ, zero, suc, ◌+◌, ◌-◌, ◌≤◌, ◌<◌, ◌≡◌, refl, ap, sym, ◌∙◌, ◌⊎◌, inl, inr, List, [], ◌∷◌, Option,
  none, some, arith, length, get_elem?, get_elem?-some, drop-get_elem?, ltb, leb, if◌then◌else◌,
  Bool-cases, suc-==-zero, lt→ltb, take, drop, min, true, Option-cases, drop_all, take-nil,
}
use garnet_rust.Common.Int.{ℤ, pos, negsuc}
use garnet_rust.PagedList.Object.{Bytes, BytesPage, ListObject, flat, to_list, AllGood, IsValid}
use garnet_rust.PagedList.Access.{locate, get_in_page}
use garnet_rust.PagedList.Range.{
  or_origin, normalize_range, Slices, slices, after_front, next, collect_with, collect, lrange,
}
use garnet_rust.PagedList.Cursor.{At, after_front-At}
use garnet_rust.PagedList.Locate.{Finds, locate-Finds, Located-page, Located-element}

-- The elements that LRANGE stands for: an index counts from the front, or from the back when it is
-- negative; a start before the first element is the first, a stop past the last is the last.
abbrev pub first_of_range : ℕ → ℤ → ℕ
first_of_range n (pos i) = i
first_of_range n (negsuc i) = n - 1 - i

abbrev pub end_of_range : ℕ → ℤ → ℕ
end_of_range n (pos i) = min (i + 1) n
end_of_range n (negsuc i) = n - i

abbrev pub between : ℕ → ℕ → List Bytes → List Bytes
between start end xs = take (end - start) (drop start xs)

pub normalize_range-some :
    (o : ListObject) (start stop : ℤ) {a b : ℕ}
    → normalize_range o start stop ≡ some (a, b)
    → (a ≡ first_of_range o.len start) × (b + 1 ≡ end_of_range o.len stop) × (a ≤ b) × (b < o.len)
unfolding normalize_range
normalize_range-some o (pos i) (pos j) e = ground arith
normalize_range-some o (pos i) (negsuc j) e = ground arith
normalize_range-some o (negsuc i) (pos j) e = ground arith
normalize_range-some o (negsuc i) (negsuc j) e = ground arith

pub normalize_range-none :
    (o : ListObject) (start stop : ℤ)
    → normalize_range o start stop ≡ none
    → (o.len ≡ 0) ⊎ (end_of_range o.len stop ≤ first_of_range o.len start)
unfolding normalize_range
normalize_range-none o (pos i) (pos j) e = ground arith
normalize_range-none o (pos i) (negsuc j) e = ground arith
normalize_range-none o (negsuc i) (pos j) e = ground arith
normalize_range-none o (negsuc i) (negsuc j) e = ground arith

abbrev pub at_cursors : List BytesPage → ℕ × ℕ → ℕ × ℕ → ℕ → Slices
at_cursors ps front back r = record { pages = ps; front = front; back = back; remaining = r }

next-At :
    (ps : List BytesPage) (front back : ℕ × ℕ) (r : ℕ) {idx : ℕ} {v : Bytes}
    → At ps idx front
    → get_elem? (flat ps) idx ≡ some v
    → let front' = if ltb 0 r then after_front front (get_elem? ps front.0) else front in
      next (at_cursors ps front back (suc r)) ≡ (some v, at_cursors ps front' back r)
unfolding next
next-At ps front back r {v = v} l e =
    let e' : get_in_page front.1 (get_elem? ps front.0) ≡ some v =
      rw (Located-page l) (sym (Located-element l) ∙ e) in
    let n : suc r - 1 ≡ r = omega arith in
    rw (suc-==-zero r, e', n) (elim (Bool-cases (ltb 0 r)) [ inl t ↦ rw t | inr f ↦ rw f ])

pub collect_with-some :
    (step : Slices → Option Bytes × Slices) (n : ℕ) (s : Slices) {v : Bytes} {s' : Slices}
    → step s ≡ (some v, s')
    → collect_with step (suc n) s ≡ v ∷ collect_with step n s'
unfolding collect_with
collect_with-some step n s e =
    ap
      (λ (p : Option Bytes × Slices). elim p.0 [ none ↦ [] | some x ↦ x ∷ collect_with step n p.1 ])
      e

-- Reading on from a cursor gives out the elements from there.
collect-At :
    (n r idx : ℕ) (ps : List BytesPage) (front back : ℕ × ℕ)
    → AllGood ps
    → idx + r ≤ length (flat ps)
    → (0 < r → At ps idx front)
    → r < n
    → collect_with next n (at_cursors ps front back r) ≡ take r (drop idx (flat ps))
collect-At zero r idx ps front back g fits at lt = absurd (omega arith)
collect-At (suc n) zero idx ps front back g fits at lt = unfold collect_with next in refl
collect-At (suc n) (suc r) idx ps front back g fits at lt =
    let (v, e) = get_elem?-some (flat ps) idx (omega arith) in
    let front' = if ltb 0 r then after_front front (get_elem? ps front.0) else front in
    let l = at (omega arith) in
    let at' : 0 < r → At ps (suc idx) front' =
      λ h. rw (lt→ltb 0 r h) (after_front-At g front l (omega arith)) in
    rw
      (
        collect_with-some next n (at_cursors ps front back (suc r)) (next-At ps front back r l e),
        drop-get_elem? (flat ps) idx e,
      )
      (ap (◌∷◌ v) (collect-At n r (suc idx) ps front' back g (omega arith) at' (omega arith)))

-- `slices` gives out the elements of the range, read from its front.
pub collect-slices :
    (o : ListObject) (start end : ℕ)
    → IsValid o
    → end ≤ o.len
    → collect (slices o start end) ≡ between start end (to_list o)
unfolding slices
collect-slices o start end h fits = elim (Bool-cases (leb end start)) [
  | inl nothing ↦
      rw (nothing, zero_left nothing)
        (collect-At 1 0 0 o.pages (0, 0) (0, 0) h.good (omega arith) (λ z. absurd (omega arith))
          (omega arith))
  | inr more ↦ rw more (
      collect-At (suc (end - start)) (end - start) start o.pages _ _ h.good
        (ground (arith, h.counted)) (λ z. front (omega arith)) (omega arith))
]
  where
    zero_left : leb end start ≡ true → end - start ≡ 0
    zero_left e = ground arith

    front : start < end → At o.pages start (or_origin (locate o start))
    front lt = found (locate-Finds o start h (omega (arith)))
      where
        found : Finds o.pages start (locate o start) → At o.pages start (or_origin (locate o start))
        found (pi, local, e, l) = rw e l

-- On a valid list, LRANGE returns the elements from the first index to the last, both counted from
-- the front or from the back and brought into the list, in order.
pub lrange_lem :
    (o : ListObject) (start stop : ℤ)
    → IsValid o
    → let n = length (to_list o) in
      lrange o start stop ≡ between (first_of_range n start) (end_of_range n stop) (to_list o)
unfolding lrange
lrange_lem o start stop h = rw (← h.counted) (elim (Option-cases (normalize_range o start stop)) [
  | inl e ↦ rw e (sym (nothing (normalize_range-none o start stop e)))
  | inr ((a, b), e) ↦
      let (p, q, le, lt) = normalize_range-some o start stop e in
      rw (e, ← p, ← q) (collect-slices o a (b + 1) h (omega arith))
])
  where
    nothing :
        (o.len ≡ 0) ⊎ (end_of_range o.len stop ≤ first_of_range o.len start)
        → between (first_of_range o.len start) (end_of_range o.len stop) (to_list o) ≡ []
    nothing (inl z) =
        rw (drop_all (first_of_range o.len start) (to_list o) (omega (arith, h.counted)), take-nil)
    nothing (inr le) =
        ap (λ k. take k (drop (first_of_range o.len start) (to_list o))) {y = 0} (omega arith)
