-- ===== src/PagedList/MoveLaws.antt =====
-- LMOVE and the bulk transfer of wedb_list/src/list.rs against the list of elements.
use garnet_rust.Common.{
  ℕ, zero, suc, ◌+◌, ◌-◌, ◌≤◌, ◌≡◌, refl, ap, sym, ◌∙◌, inl, inr, List, [], ◌∷◌, ◌++◌, Option, none,
  some, arith, ◌==◌, if◌then◌else◌, min, unsnoc, unsnoc-some, unsnoc-none, length, length-append,
  Bool, true, false, Bool-cases, Option-cases, List-cases,
}
use garnet_rust.PagedList.Object.{
  Bytes, ListObject, to_list, IsValid, pop_front_inner, pop_back_inner,
}
use garnet_rust.PagedList.Push.{push_front_inner_lem, push_back_inner_lem}
use garnet_rust.PagedList.Pop.{take_first, take_last, pop_front_inner_lem, pop_back_inner_lem}
use garnet_rust.PagedList.PushPopLaws.{
  pop_front-cons, pop_back-snoc, drain_left-some, drain_right-some,
}
use garnet_rust.PagedList.Moves.{
  Moved, push_side, pop_side, move_popped, lmove, transfer_to, drain_left, drain_right,
}

-- Taking an element off a side of a list, and putting one there.
abbrev pub take_side : Bool → List Bytes → Option Bytes × List Bytes
take_side true = take_first
take_side false = take_last

abbrev pub put_side : Bool → Bytes → List Bytes → List Bytes
put_side true v xs = v ∷ xs
put_side false v xs = xs ++ v ∷ []

pub push_side_lem :
    (side : Bool) (v : Bytes) (o : ListObject)
    → IsValid o
    → IsValid (push_side side v o) × (to_list (push_side side v o) ≡ put_side side v (to_list o))
push_side_lem true v o h = push_front_inner_lem v o h
push_side_lem false v o h = push_back_inner_lem v o h

pub pop_side_lem :
    (side : Bool) (o : ListObject)
    → IsValid o
    → let (v, o') = pop_side side o in IsValid o' × ((v, to_list o') ≡ take_side side (to_list o))
pop_side_lem true o h = pop_front_inner_lem o h
pop_side_lem false o h = pop_back_inner_lem o h

-- What LMOVE does to the two lists of elements and returns.
abbrev pub moved :
    Bool → List Bytes → Option Bytes × List Bytes → List Bytes × List Bytes × Option Bytes
moved to_left ys (none, xs) = (xs, ys, none)
moved to_left ys (some v, xs) = (xs, put_side to_left v ys, some v)

move_popped_lem :
    (d : ListObject) (to_left : Bool) (r : Option Bytes × ListObject)
    → IsValid d
    → IsValid r.1
    → let (s', d', v) = move_popped d to_left r in
      IsValid s'
      × IsValid d'
      × ((to_list s', to_list d', v) ≡ moved to_left (to_list d) (r.0, to_list r.1))
move_popped_lem d to_left (none, o) hd h = (h, hd, refl)
move_popped_lem d to_left (some v, o) hd h =
    let (hd', e) = push_side_lem to_left v d hd in
    (
      h,
      hd',
      ap (λ ys. let m : List Bytes × List Bytes × Option Bytes = (to_list o, ys, some v) in m) e,
    )

-- LMOVE takes the element off the named side of a valid source and puts it at the named side of a
-- valid destination; from an empty source it moves nothing; both lists keep the invariant.
pub lmove_lem :
    (s d : ListObject) (from_left to_left : Bool)
    → IsValid s
    → IsValid d
    → let (s', d', v) = lmove s d from_left to_left in
      IsValid s'
      × IsValid d'
      × ((to_list s', to_list d', v) ≡ moved to_left (to_list d) (take_side from_left (to_list s)))
unfolding lmove
lmove_lem s d from_left to_left hs hd =
    let (h, e) = pop_side_lem from_left s hs in
    let (a, b, c) = move_popped_lem d to_left (pop_side from_left s) hd h in
    (a, b, c ∙ ap (moved to_left (to_list d)) e)

-- `n` moves in a row.
pub lmove_times : Bool → Bool → ℕ → ListObject → ListObject → ListObject × ListObject
lmove_times from_left to_left zero s d = (s, d)
lmove_times from_left to_left (suc n) s d =
    let (s', d', v) = lmove s d from_left to_left in lmove_times from_left to_left n s' d'

abbrev swapped : ListObject × ListObject → ListObject × ListObject
swapped (a, b) = (b, a)

drain_left-lmove_times :
    (to_left : Bool) (n : ℕ) (s d : ListObject)
    → IsValid s
    → n ≤ s.len
    → drain_left (push_side to_left) n d s ≡ swapped (lmove_times true to_left n s d)
unfolding lmove_times lmove
drain_left-lmove_times to_left zero s d h le = unfold drain_left in refl
drain_left-lmove_times to_left (suc n) s d h le = elim (List-cases (to_list s)) [
  | inl e ↦ absurd (omega (arith, h.counted, ap length e))
  | inr (x, xs, e) ↦
      let (h', v, t) = pop_front-cons s h e in
      let s' = (pop_front_inner s).1 in
      let le' : n ≤ s'.len = omega (arith, h'.counted, ap length t, h.counted, ap length e) in
      let m : move_popped d to_left (pop_front_inner s) ≡ (s', push_side to_left x d, some x) =
        ap (λ w. move_popped d to_left (w, s')) v in
      drain_left-some (push_side to_left) n d s v
      ∙ (drain_left-lmove_times to_left n s' (push_side to_left x d) h' le'
          ∙ ap (λ (p : Moved). swapped (lmove_times true to_left n p.0 p.1)) (sym m))
]

drain_right-lmove_times :
    (to_left : Bool) (n start : ℕ) (s d : ListObject)
    → IsValid s
    → start + n ≡ s.len
    → drain_right (push_side to_left) start n d s ≡ swapped (lmove_times false to_left n s d)
unfolding lmove_times lmove
drain_right-lmove_times to_left zero start s d h le = unfold drain_right in refl
drain_right-lmove_times to_left (suc n) start s d h le = elim (Option-cases (unsnoc (to_list s))) [
  | inl e ↦ absurd (omega (arith, h.counted, ap length (unsnoc-none (to_list s) e)))
  | inr ((x, xs), e) ↦
      let q = unsnoc-some (to_list s) e in
      let (h', v, t) = pop_back-snoc s h q in
      let s' = (pop_back_inner s).1 in
      let le' : start + n ≡ s'.len =
        omega (arith, h'.counted, ap length t, h.counted, ap length q, length-append xs (x ∷ [])) in
      let m : move_popped d to_left (pop_back_inner s) ≡ (s', push_side to_left x d, some x) =
        ap (λ w. move_popped d to_left (w, s')) v in
      drain_right-some (push_side to_left) n d s start le v
      ∙ (drain_right-lmove_times to_left n start s' (push_side to_left x d) h' le'
          ∙ ap (λ (p : Moved). swapped (lmove_times false to_left n p.0 p.1)) (sym m))
]

lmove_times-zero :
    (from_left to_left : Bool) (n : ℕ) (s d : ListObject)
    → n ≡ 0
    → lmove_times from_left to_left n s d ≡ (s, d)
unfolding lmove_times
lmove_times-zero from_left to_left n s d e = rw e

drained-lmove_times :
    (from_left to_left : Bool) (n : ℕ) (s d : ListObject)
    → IsValid s
    → n ≤ s.len
    → (if from_left
        then drain_left (push_side to_left) n d s
        else drain_right (push_side to_left) (s.len - n) n d s)
      ≡ swapped (lmove_times from_left to_left n s d)
drained-lmove_times true to_left n s d h le = drain_left-lmove_times to_left n s d h le
drained-lmove_times false to_left n s d h le =
    drain_right-lmove_times to_left n (s.len - n) s d h (omega arith)

-- From a valid source to another list, a bulk transfer does what as many LMOVEs in a row do, as many
-- as it reports: `count`, or the length of the source where that is less.
pub transfer_to_lem :
    (s d : ListObject) (count : ℕ) (from_left to_left : Bool)
    → IsValid s
    → let n = min count s.len in
      let (s', d') = lmove_times from_left to_left n s d in
      transfer_to s d count from_left to_left ≡ (s', d', n)
unfolding transfer_to
transfer_to_lem s d count from_left to_left h =
    let n = min count s.len in
    elim (Bool-cases (n == 0)) [
      | inl none_left ↦
          let z : n ≡ 0 = ground arith in
          rw (none_left, lmove_times-zero from_left to_left n s d z, z)
      | inr more ↦ rw (more, drained-lmove_times from_left to_left n s d h (omega arith))
    ]
