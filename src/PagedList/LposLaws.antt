-- ===== src/PagedList/LposLaws.antt =====
-- LPOS of wedb_list/src/list.rs against the positions of the matches.
use garnet_rust.Common.{
  ℕ, zero, suc, ◌+◌, ◌-◌, ◌<◌, ◌≡◌, refl, ap, sym, ◌∙◌, inl, inr, List, [], ◌∷◌, Option, none, some,
  true, ltb, leb, ◌==◌, if◌then◌else◌, arith, Bool-cases, min, length, take, drop, map, reverse,
  bytes_eq, take_all, drop-nil, take-nil, length-reverse,
}
use garnet_rust.Common.Int.{ℤ, pos, negsuc}
use garnet_rust.PagedList.Object.{Bytes, ListObject, to_list, IsValid}
use garnet_rust.PagedList.Range.{iter, iter_rev}
use garnet_rust.PagedList.RangeLaws.{collect-slices}
use garnet_rust.PagedList.BackLaws.{collect_back-slices}
use garnet_rust.PagedList.Lpos.{scan, max_comparisons, target_count, ranked, lpos}

-- The places of the items equal to an element, counted from `offset` on.
abbrev pub matches : Bytes → ℕ → List Bytes → List ℕ
matches element offset [] = []
matches element offset (item ∷ items) =
    if bytes_eq item element
    then offset ∷ matches element (offset + 1) items
    else matches element (offset + 1) items

scan_lem :
    (element : Bytes) (place : ℕ → ℕ) (target skip found offset : ℕ) (items : List Bytes)
    → found < target
    → scan element place target skip found offset items
      ≡ map place (take (target - found) (drop skip (matches element offset items)))
unfolding scan
scan_lem element place target skip found offset [] lt =
    ap (map place) (sym (ap (take (target - found)) (drop-nil skip) ∙ take-nil (target - found)))
scan_lem element place target zero found offset (item ∷ items) lt =
    elim (Bool-cases (bytes_eq item element)) [
      | inr d ↦ rw (d, scan) (scan_lem element place target zero found (offset + 1) items lt)
      | inl e ↦
          let room : target - found ≡ suc (target - (found + 1)) = omega (arith, lt) in
          elim (Bool-cases (leb target (found + 1))) [
            | inl full ↦
                let z : target - (found + 1) ≡ 0 = ground arith in rw (e, scan, full, room, z)
            | inr not_full ↦
                rw (e, scan, not_full, room)
                  (ap (◌∷◌ (place offset)) (
                    scan_lem element place target zero (found + 1) (offset + 1) items
                      (ground arith)))
          ]
    ]
scan_lem element place target (suc s) found offset (item ∷ items) lt =
    elim (Bool-cases (bytes_eq item element)) [
      | inr d ↦ rw (d, scan) (scan_lem element place target (suc s) found (offset + 1) items lt)
      | inl e ↦
          let t : ltb 0 (suc s) ≡ true = ground arith in
          let k : suc s - 1 ≡ s = omega arith in
          rw (e, scan, t, k) (scan_lem element place target s found (offset + 1) items lt)
    ]

-- What LPOS is to return: of the first `most` elements from the front, or from the back when the rank
-- is negative, the positions of the matches after the first ones that the rank skips, at most `target`.
abbrev pub positions : Bytes → ℤ → ℕ → ℕ → List Bytes → List ℕ
positions element (pos zero) target most xs = []
positions element (pos (suc skip)) target most xs =
    take target (drop skip (matches element 0 (take most xs)))
positions element (negsuc skip) target most xs =
    map (λ offset. length xs - 1 - offset)
      (take target (drop skip (matches element 0 (take most (reverse xs)))))

map-same : (xs : List ℕ) → map (λ x. x) xs ≡ xs
map-same [] = refl
map-same (x ∷ xs) = ap (◌∷◌ x) (map-same xs)

iter_lem : (o : ListObject) → IsValid o → iter o ≡ to_list o
unfolding iter
iter_lem o h =
    collect-slices o 0 o.len h (omega arith)
    ∙ take_all (o.len - 0) (to_list o) (omega (arith, h.counted))

ranked_lem :
    (o : ListObject) (element : Bytes) (rank : ℤ) (target most : ℕ)
    → IsValid o
    → 0 < target
    → ranked o element rank target most ≡ positions element rank target most (to_list o)
unfolding iter_rev
ranked_lem o element (pos zero) target most h some_target = refl
ranked_lem o element (pos (suc skip)) target most h some_target =
    let all_of_it : target - 0 ≡ target = omega arith in
    scan_lem element (λ offset. offset) target skip 0 0 (take most (iter o)) some_target
    ∙ (map-same (take (target - 0) (drop skip (matches element 0 (take most (iter o)))))
        ∙ rw (all_of_it, iter_lem o h))
ranked_lem o element (negsuc skip) target most h some_target =
    let all_of_it : target - 0 ≡ target = omega arith in
    scan_lem element (λ offset. o.len - 1 - offset) target skip 0 0 (take most (iter_rev o))
      some_target
    ∙ rw (all_of_it, collect_back-slices o h, h.counted)

-- How many positions are wanted: one without a count, all that a `usize` can count for 0.
abbrev pub wanted : Option ℕ → ℕ
wanted none = 1
wanted (some zero) = 0xFFFFFFFFFFFFFFFF
wanted (some (suc c)) = suc c

target_count-wanted : (count : Option ℕ) → target_count count ≡ wanted count
target_count-wanted none = refl
target_count-wanted (some zero) = omega arith
target_count-wanted (some (suc c)) = ground arith

target_count-pos : (count : Option ℕ) → 0 < target_count count
target_count-pos none = omega arith
target_count-pos (some c) = ground arith

positions-nil :
    (element : Bytes) (rank : ℤ) (target most : ℕ) → positions element rank target most [] ≡ []
positions-nil element (pos zero) target most = refl
positions-nil element (pos (suc skip)) target most =
    ap (λ xs. take target (drop skip (matches element 0 xs))) (take-nil most)
    ∙ (ap (take target) (drop-nil skip) ∙ take-nil target)
positions-nil element (negsuc skip) target most =
    ap (λ xs. map (λ offset. 0 - 1 - offset) (take target (drop skip (matches element 0 xs))))
      (take-nil most)
    ∙ ap (map (λ offset. 0 - 1 - offset)) (ap (take target) (drop-nil skip) ∙ take-nil target)

take-min : (n : ℕ) (xs : List Bytes) → take (min n (length xs)) xs ≡ take n xs
take-min n xs = elim (Bool-cases (leb n (length xs))) [
  | inl short ↦ ap (λ i. take i xs) (ground arith)
  | inr long ↦ take_all (min n (length xs)) xs (ground arith) ∙ sym (take_all n xs (ground arith))
]

-- As many comparisons as `maxlen` asks for, and no more than there are elements.
take-max_comparisons :
    (o : ListObject) (maxlen : ℕ) (xs : List Bytes)
    → length xs ≡ o.len
    → take (max_comparisons o maxlen) xs ≡ take (if maxlen == 0 then o.len else maxlen) xs
take-max_comparisons o maxlen xs e = elim (Bool-cases (maxlen == 0)) [
  | inl y ↦ rw y
  | inr n ↦ rw (n, ← e) (take-min maxlen xs)
]

positions-most :
    (element : Bytes) (rank : ℤ) (target m n : ℕ) (xs : List Bytes)
    → take m xs ≡ take n xs
    → take m (reverse xs) ≡ take n (reverse xs)
    → positions element rank target m xs ≡ positions element rank target n xs
positions-most element (pos zero) target m n xs e f = refl
positions-most element (pos (suc skip)) target m n xs e f =
    ap (λ ys. take target (drop skip (matches element 0 ys))) e
positions-most element (negsuc skip) target m n xs e f =
    ap
      (λ ys.
        map (λ offset. length xs - 1 - offset) (take target (drop skip (matches element 0 ys))))
      f

-- On a valid list, LPOS returns the positions of the elements equal to the value among the first
-- `maxlen` ones, all for 0, from the front, or from the back for a negative rank; it skips as many
-- matches as the rank says and returns at most one without a count, 2 ^ 64 - 1 for a count of 0 and
-- at most as many as any other count says; a rank of 0 gives nothing.
pub lpos_lem :
    (o : ListObject) (element : Bytes) (rank : ℤ) (count : Option ℕ) (maxlen : ℕ)
    → IsValid o
    → lpos o element rank count maxlen
      ≡ positions element rank
          (wanted count)
          (if maxlen == 0 then length (to_list o) else maxlen)
          (to_list o)
unfolding lpos
lpos_lem o element rank count maxlen h =
    let xs = to_list o in
    let target = target_count count in
    rw (← target_count-wanted count) (
      let n : length xs ≡ o.len = sym h.counted in
      elim (Bool-cases (o.len == 0)) [
        | inl nothing ↦
            let z : length xs ≡ 0 = ground (arith, h.counted) in
            let most = if maxlen == 0 then length xs else maxlen in
            rw nothing (
              sym (
                ap (positions element rank target most) (empty_list xs z)
                ∙ positions-nil element rank target most))
        | inr some_items ↦
            rw (some_items, n)
              (ranked_lem o element rank target (max_comparisons o maxlen) h
                  (target_count-pos count)
                ∙ positions-most element rank target (max_comparisons o maxlen)
                    (if maxlen == 0 then o.len else maxlen) xs (take-max_comparisons o maxlen xs n)
                    (take-max_comparisons o maxlen (reverse xs) (length-reverse xs ∙ n)))
      ])
  where
    empty_list : (xs : List Bytes) → length xs ≡ 0 → xs ≡ []
    empty_list [] e = refl
    empty_list (x ∷ xs) e = absurd (omega arith)
