-- ===== src/Glob/Fuel.antt =====
-- The loop over the members of a character set in wedb_pubsub/src/glob.rs: fuel for every byte of the
-- set is enough.
use garnet_rust.Common.{
  ℕ, zero, suc, ◌+◌, ◌≤◌, ◌<◌, ◌≡◌, refl, ap, inl, inr, List, [], ◌∷◌, Option, none, some, Bool,
  ◌==◌, ◌||◌, arith, Bool-cases, Option-cases, length, drop, length-drop,
}
use garnet_rust.Glob.{next_pat_char, range_end, member, members}
use garnet_rust.Glob.Head.{escaped-pos}

next_pat_char-pos :
    (b : ℕ) (rest : List ℕ) {c adv : ℕ} → next_pat_char (b ∷ rest) ≡ some (c, adv) → 0 < adv
unfolding next_pat_char
next_pat_char-pos b rest {c} {adv} e = elim (Bool-cases (b == 92)) [
  | inl y ↦ let f = rw y at e in omega (arith, ap length_of f, escaped-pos rest)
  | inr n ↦ let f = rw n at e in omega (arith, ap length_of f)
]
  where
    length_of : Option (ℕ × ℕ) → ℕ
    length_of none = 0
    length_of (some (c, adv)) = adv

member-pos :
    (ic : Bool) (target c adv : ℕ) (r : Option (ℕ × ℕ)) → 0 < adv → 0 < (member ic target c adv r).1
member-pos ic target c adv none lt = lt
member-pos ic target c adv (some (c2, adv2)) lt = omega (arith, lt)

pub members-fuel :
    (ic : Bool) (target f g : ℕ) (rest : List ℕ) (i : ℕ) (matched : Bool)
    → length rest ≤ f
    → length rest ≤ g
    → members ic target f rest i matched ≡ members ic target g rest i matched
unfolding members
members-fuel ic target zero zero rest i m le le' = refl
members-fuel ic target zero (suc g) [] i m le le' = refl
members-fuel ic target zero (suc g) (b ∷ rest) i m le le' = absurd (omega (arith, le))
members-fuel ic target (suc f) zero [] i m le le' = refl
members-fuel ic target (suc f) zero (b ∷ rest) i m le le' = absurd (omega (arith, le'))
members-fuel ic target (suc f) (suc g) [] i m le le' = refl
members-fuel ic target (suc f) (suc g) (b ∷ rest) i m le le' = elim (Bool-cases (b == 93)) [
  | inl y ↦ rw y
  | inr n ↦ elim (Option-cases (next_pat_char (b ∷ rest))) [
    | inl e ↦ rw (n, e)
    | inr ((c1, adv1), e) ↦
        let r = range_end (drop adv1 (b ∷ rest)) in
        let (holds, adv) = member ic target c1 adv1 r in
        let some_bytes = member-pos ic target c1 adv1 r (next_pat_char-pos b rest e) in
        let shorter = length-drop (member ic target c1 adv1 r).1 (b ∷ rest) in
        rw (n, e)
          (members-fuel ic target f g (drop (member ic target c1 adv1 r).1 (b ∷ rest))
            (i + (member ic target c1 adv1 r).1) (m || (member ic target c1 adv1 r).0)
            (omega (arith, shorter, some_bytes, le)) (omega (arith, shorter, some_bytes, le')))
  ]
]
