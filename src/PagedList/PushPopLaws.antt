-- ===== src/PagedList/PushPopLaws.antt =====
-- LPUSH, RPUSH, LPOP and RPOP of wedb_list/src/list.rs against the list of elements.
use garnet_rust.Common.{
  ℕ, zero, suc, ◌+◌, ◌-◌, ◌≤◌, ◌≡◌, refl, ap, sym, ◌∙◌, inl, inr, List, [], ◌∷◌, ◌++◌, Option, none,
  some, arith, ◌==◌, ◌||◌, if◌then◌else◌, min, unsnoc, unsnoc-some, unsnoc-none, length,
  length-append, take, drop, take_all, drop_all, append_assoc, append-nil, reverse, Option-cases,
  Bool-cases, List-cases, length-reverse, true, dec_le, take-append_left,
}
use mathlib.Core.List.{reverse-cons, reverse-append}
use garnet_rust.PagedList.Object.{
  Bytes, ListObject, to_list, IsValid, push_front_inner, push_back_inner, pop_front_inner,
  pop_back_inner,
}
use garnet_rust.PagedList.Push.{push_front_inner_lem, push_back_inner_lem}
use garnet_rust.PagedList.Pop.{
  take_first, take_last, take_last_of, pop_front_inner_lem, pop_back_inner_lem,
}
use garnet_rust.PagedList.Access.{remove_at}
use garnet_rust.PagedList.Moves.{
  push_all, lpush, rpush, lpop, rpop, drain_left, drain_right, drain_next, drain_next_back,
  append_one,
}

push_all_front :
    (vs : List Bytes) (o : ListObject)
    → IsValid o
    → IsValid (push_all push_front_inner vs o)
      × (to_list (push_all push_front_inner vs o) ≡ reverse vs ++ to_list o)
unfolding push_all
push_all_front [] o h = (h, refl)
push_all_front (v ∷ vs) o h =
    let (h', e) = push_front_inner_lem v o h in
    let (r, f) = push_all_front vs (push_front_inner v o) h' in
    (r, f ∙ rw (e, reverse-cons v vs) (sym (append_assoc (reverse vs) (v ∷ []) (to_list o))))

push_all_back :
    (vs : List Bytes) (o : ListObject)
    → IsValid o
    → IsValid (push_all push_back_inner vs o)
      × (to_list (push_all push_back_inner vs o) ≡ to_list o ++ vs)
unfolding push_all
push_all_back [] o h = (h, sym (append-nil (to_list o)))
push_all_back (v ∷ vs) o h =
    let (h', e) = push_back_inner_lem v o h in
    let (r, f) = push_all_back vs (push_back_inner v o) h' in
    (r, f ∙ rw e (append_assoc (to_list o) (v ∷ []) vs))

-- On a valid list, LPUSH puts the values before the list, the last one first, returns the new length
-- and keeps the invariant.
pub lpush_lem :
    (vs : List Bytes) (o : ListObject)
    → IsValid o
    → let (o', n) = lpush vs o in
      IsValid o' × (to_list o' ≡ reverse vs ++ to_list o) × (n ≡ length (to_list o'))
unfolding lpush
lpush_lem vs o h = let (r, f) = push_all_front vs o h in (r, f, r.counted)

-- On a valid list, RPUSH puts the values after the list in their order, returns the new length and
-- keeps the invariant.
pub rpush_lem :
    (vs : List Bytes) (o : ListObject)
    → IsValid o
    → let (o', n) = rpush vs o in
      IsValid o' × (to_list o' ≡ to_list o ++ vs) × (n ≡ length (to_list o'))
unfolding rpush
rpush_lem vs o h = let (r, f) = push_all_back vs o h in (r, f, r.counted)

-- What one pop does where an element is left.
pub pop_front-cons :
    (o : ListObject) {x : Bytes} {xs : List Bytes}
    → IsValid o
    → to_list o ≡ x ∷ xs
    → let (v, o') = pop_front_inner o in IsValid o' × (v ≡ some x) × (to_list o' ≡ xs)
pop_front-cons o h e =
    let (h', f) = pop_front_inner_lem o h in
    let f' = f ∙ ap take_first e in
    (
      h',
      ap (λ (p : Option Bytes × List Bytes). p.0) f',
      ap (λ (p : Option Bytes × List Bytes). p.1) f',
    )

pub unsnoc-snoc : (xs : List Bytes) (x : Bytes) → unsnoc (xs ++ x ∷ []) ≡ some (x, xs)
unfolding unsnoc
unsnoc-snoc [] x = refl
unsnoc-snoc (y ∷ ys) x = rw (unsnoc-snoc ys x)

pub pop_back-snoc :
    (o : ListObject) {x : Bytes} {xs : List Bytes}
    → IsValid o
    → to_list o ≡ xs ++ x ∷ []
    → let (v, o') = pop_back_inner o in IsValid o' × (v ≡ some x) × (to_list o' ≡ xs)
pop_back-snoc o {x} {xs} h e =
    let (h', f) = pop_back_inner_lem o h in
    let f' = f ∙ (ap take_last e ∙ ap take_last_of (unsnoc-snoc xs x)) in
    (
      h',
      ap (λ (p : Option Bytes × List Bytes). p.0) f',
      ap (λ (p : Option Bytes × List Bytes). p.1) f',
    )

module _ {ℓ} {S : Type ℓ} (f : Bytes → S → S) (n : ℕ) (s : S) (o : ListObject) {x : Bytes} where
  pub drain_left-some :
      (pop_front_inner o).0 ≡ some x
      → drain_left f (suc n) s o ≡ drain_left f n (f x s) (pop_front_inner o).1
  unfolding drain_left drain_next
  drain_left-some e =
      ap
        (λ v. elim v [
          | none ↦ (s, (pop_front_inner o).1)
          | some y ↦ drain_left f n (f y s) (pop_front_inner o).1
        ])
        e

  -- At the last index a drain from the back pops.
  pub drain_right-some :
      (start : ℕ)
      → start + suc n ≡ o.len
      → (pop_back_inner o).0 ≡ some x
      → drain_right f start (suc n) s o ≡ drain_right f start n (f x s) (pop_back_inner o).1
  unfolding drain_right drain_next_back
  drain_right-some start last e =
      let step = λ (p : Option Bytes × ListObject).
        let r : S × ListObject = elim p.0 [
          | none ↦ (s, p.1)
          | some y ↦ drain_right f start n (f y s) p.1
        ] in
        r in
      let t : (start + n + 1 == o.len) ≡ true = ground arith in
      ap (λ b. step (if b then pop_back_inner o else remove_at o (start + n))) t
      ∙ ap
          (λ v.
            let r : S × ListObject = elim v [
              | none ↦ (s, (pop_back_inner o).1)
              | some y ↦ drain_right f start n (f y s) (pop_back_inner o).1
            ] in
            r)
          e

drain_left-take :
    (n : ℕ) (vs : List Bytes) (o : ListObject)
    → IsValid o
    → n ≤ o.len
    → let (ws, o') = drain_left append_one n vs o in
      IsValid o' × (ws ≡ vs ++ take n (to_list o)) × (to_list o' ≡ drop n (to_list o))
drain_left-take zero vs o h le = unfold drain_left in (h, sym (append-nil vs), refl)
drain_left-take (suc n) vs o h le = elim (List-cases (to_list o)) [
  | inl e ↦ absurd (omega (arith, h.counted, ap length e))
  | inr (x, xs, e) ↦
      let (h', v, t) = pop_front-cons o h e in
      let o' = (pop_front_inner o).1 in
      let n_le : n ≤ o'.len = omega (arith, h'.counted, ap length t, h.counted, ap length e) in
      let (r, ws, left) = drain_left-take n (append_one x vs) o' h' n_le in
      rw (drain_left-some append_one n vs o v, e)
        (r, ws ∙ rw t (append_assoc vs (x ∷ []) (take n xs)), left ∙ ap (drop n) t)
]

take-min : (n : ℕ) (xs : List Bytes) → take (min n (length xs)) xs ≡ take n xs
take-min n xs = elim (dec_le n (length xs)) [
  | yes le ↦ ap (λ k. take k xs) {y = n} (omega arith)
  | no gt ↦ take_all (min n (length xs)) xs (omega arith) ∙ sym (take_all n xs (omega arith))
]

drop-min : (n : ℕ) (xs : List Bytes) → drop (min n (length xs)) xs ≡ drop n xs
drop-min n xs = elim (dec_le n (length xs)) [
  | yes le ↦ ap (λ k. drop k xs) {y = n} (omega arith)
  | no gt ↦ drop_all (min n (length xs)) xs (omega arith) ∙ sym (drop_all n xs (omega arith))
]

min_zero : (a b : ℕ) → (a == 0 || b == 0) ≡ true → min a b ≡ 0
min_zero a b e = ground arith

-- On a valid list, LPOP returns the first `count` elements, all there are if they are fewer, leaves
-- the others and keeps the invariant.
pub lpop_lem :
    (count : ℕ) (o : ListObject)
    → IsValid o
    → let (vs, o') = lpop count o in
      IsValid o' × (vs ≡ take count (to_list o)) × (to_list o' ≡ drop count (to_list o))
unfolding lpop
lpop_lem count o h =
    let xs = to_list o in
    rw (← take-min count xs, ← drop-min count xs, ← h.counted)
      (elim (Bool-cases (count == 0 || o.len == 0)) [
        | inl nothing ↦ rw (nothing, min_zero count o.len nothing) (h, refl, refl)
        | inr more ↦ rw more (drain_left-take (min count o.len) [] o h (omega arith))
      ])

drain_right-take :
    (n : ℕ) (start : ℕ) (vs : List Bytes) (o : ListObject)
    → IsValid o
    → start + n ≡ o.len
    → let (ws, o') = drain_right append_one start n vs o in
      IsValid o' × (ws ≡ vs ++ take n (reverse (to_list o))) × (to_list o' ≡ take start (to_list o))
drain_right-take zero start vs o h le =
    unfold drain_right in
    (h, sym (append-nil vs), sym (take_all start (to_list o) (omega (arith, h.counted))))
drain_right-take (suc n) start vs o h le = elim (Option-cases (unsnoc (to_list o))) [
  | inl e ↦ absurd (omega (arith, h.counted, ap length (unsnoc-none (to_list o) e)))
  | inr ((x, xs), e) ↦
      let s = unsnoc-some (to_list o) e in
      let (h', v, t) = pop_back-snoc o h s in
      let o' = (pop_back_inner o).1 in
      let k : length xs ≡ start + n =
        omega (arith, h.counted, ap length s, length-append xs (x ∷ [])) in
      let n_eq : start + n ≡ o'.len = omega (arith, h'.counted, ap length t, k) in
      let (r, ws, left) = drain_right-take n start (append_one x vs) o' h' n_eq in
      rw (drain_right-some append_one n vs o start le v, s, reverse-append xs (x ∷ []))
        (
          r,
          ws ∙ rw t (append_assoc vs (x ∷ []) (take n (reverse xs))),
          left ∙ (ap (take start) t ∙ sym (take-append_left start xs (x ∷ []) (omega (arith, k)))),
        )
]

-- On a valid list, RPOP returns the last `count` elements, the last one first, all there are if they
-- are fewer, leaves the others and keeps the invariant.
pub rpop_lem :
    (count : ℕ) (o : ListObject)
    → IsValid o
    → let (vs, o') = rpop count o in
      IsValid o'
      × (vs ≡ take count (reverse (to_list o)))
      × (to_list o' ≡ take (length (to_list o) - count) (to_list o))
unfolding rpop
rpop_lem count o h =
    let xs = to_list o in
    let n : length (reverse xs) ≡ o.len = length-reverse xs ∙ sym h.counted in
    let k : length xs - count ≡ o.len - min count o.len = omega (arith, h.counted) in
    rw (k, ← take-min count (reverse xs), n)
      (elim (Bool-cases (count == 0 || o.len == 0)) [
        | inl nothing ↦
            rw (nothing, min_zero count o.len nothing)
              (h, refl, sym (take_all (o.len - 0) xs (omega (arith, h.counted))))
        | inr more ↦
            rw more
              (drain_right-take (min count o.len) (o.len - min count o.len) [] o h (omega arith))
      ])
