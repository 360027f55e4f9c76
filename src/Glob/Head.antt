-- ===== src/Glob/Head.antt =====
-- One round of the matcher of wedb_pubsub/src/glob.rs at a byte other than `*`: how much of the pattern
-- it takes does not depend on the byte of the key, and it is a byte at least.
use garnet_rust.Common.{
  ℕ, zero, suc, ◌+◌, ◌≤◌, ◌<◌, ◌≡◌, refl, ap, sym, ◌∙◌, inl, inr, List, [], ◌∷◌, Option, none, some,
  Bool, true, false, ltb, ◌==◌, if◌then◌else◌, arith, Bool-cases, Option-cases, length, drop,
  length-drop,
}
use garnet_rust.Glob.{
  next_pat_char, escaped, parse_hex_byte, range_end, members, closed_set, is_negation,
  match_bracket, literal, match_head, fold_case,
}

index_of : Option (Bool × ℕ) → Option ℕ
index_of none = none
index_of (some (b, i)) = some i

members-same :
    (ic : Bool) (t u fuel : ℕ) (rest : List ℕ) (i : ℕ) (m n : Bool)
    → index_of (members ic t fuel rest i m) ≡ index_of (members ic u fuel rest i n)
unfolding members index_of
members-same ic t u zero rest i m n = refl
members-same ic t u (suc fuel) [] i m n = refl
members-same ic t u (suc fuel) (b ∷ rest) i m n = elim (Bool-cases (b == 93)) [
  | inl y ↦ rw y
  | inr no_end ↦ elim (Option-cases (next_pat_char (b ∷ rest))) [
    | inl e ↦ rw (no_end, e)
    | inr ((c1, adv1), e) ↦
        rw (no_end, e)
          (elim (Option-cases (range_end (drop adv1 (b ∷ rest)))) [
            | inl r ↦ rw r (members-same ic t u fuel (drop adv1 (b ∷ rest)) (i + adv1) _ _)
            | inr ((c2, adv2), r) ↦ rw r (
                members-same ic t u fuel (drop (adv1 + 1 + adv2) (b ∷ rest)) (i + (adv1 + 1 + adv2))
                  _ _)
          ])
  ]
]

or_zero : Option ℕ → ℕ
or_zero none = 0
or_zero (some i) = i

closed_set-index :
    (negated : Bool) (r : Option (Bool × ℕ)) → (closed_set negated r).1 ≡ or_zero (index_of r)
unfolding index_of or_zero
closed_set-index negated none = refl
closed_set-index negated (some (b, i)) = refl

match_bracket-same :
    (rest : List ℕ) (c d : ℕ) (ic : Bool)
    → (match_bracket rest c ic).1 ≡ (match_bracket rest d ic).1
unfolding match_bracket
match_bracket-same rest c d ic =
    let go = λ (neg : Bool) (p : List ℕ) (i : ℕ).
      let a = members ic (fold_case ic c) (length rest) p i false in
      let b = members ic (fold_case ic d) (length rest) p i false in
      closed_set-index neg a
      ∙ (ap or_zero
            (members-same ic (fold_case ic c) (fold_case ic d) (length rest) p i false false)
          ∙ sym (closed_set-index neg b)) in
    elim (Bool-cases (is_negation rest)) [
      | inl y ↦ rw y (go true (drop 1 rest) 2)
      | inr n ↦ rw n (go false rest 1)
    ]

pub escaped-pos : (rest : List ℕ) → 0 < (escaped rest).1
unfolding escaped
escaped-pos [] = omega arith
escaped-pos (c ∷ []) = omega arith
escaped-pos (c ∷ h ∷ []) = omega arith
escaped-pos (c ∷ h ∷ l ∷ rest) = elim (Option-cases (parse_hex_byte h l)) [
  | inl e ↦ ground (arith, e)
  | inr (b, e) ↦ ground (arith, e)
]

drop-shorter : (n : ℕ) (h : ℕ) (p : List ℕ) → 0 < n → length (drop n (h ∷ p)) ≤ length p
drop-shorter n h p pos = omega (arith, length-drop n (h ∷ p))

literal-same :
    (ic : Bool) (pat : List ℕ) (c d : ℕ) (r : Option (ℕ × ℕ)) {q q' : List ℕ}
    → literal ic pat c r ≡ some q
    → literal ic pat d r ≡ some q'
    → q ≡ q'
literal-same ic pat c d none e f = cc
literal-same ic pat c d (some (b, adv)) e f = ground arith

literal-shorter :
    (ic : Bool) (h : ℕ) (p : List ℕ) (c : ℕ) (r : Option (ℕ × ℕ)) {q : List ℕ}
    → ((b adv : ℕ) → r ≡ some (b, adv) → 0 < adv)
    → literal ic (h ∷ p) c r ≡ some q
    → length q ≤ length p
literal-shorter ic h p c none pos e = cc
literal-shorter ic h p c (some (b, adv)) pos e =
    ground (arith, drop-shorter adv h p (pos b adv refl))

-- The rest of the pattern after a match does not depend on the byte matched.
pub match_head-same :
    (ic : Bool) (h : ℕ) (p : List ℕ) (c d : ℕ) {q q' : List ℕ}
    → match_head ic h p c ≡ some q
    → match_head ic h p d ≡ some q'
    → q ≡ q'
unfolding match_head
match_head-same ic h p c d {q} {q'} e f =
    let s = match_bracket-same p c d ic in
    ground (arith, literal-same ic (h ∷ p) c d (next_pat_char (h ∷ p)))

-- A match takes a byte of the pattern or more.
pub match_head-shorter :
    (ic : Bool) (h : ℕ) (p : List ℕ) (c : ℕ) {q : List ℕ}
    → match_head ic h p c ≡ some q
    → length q ≤ length p
unfolding match_head
match_head-shorter ic h p c {q} e =
    let n = (match_bracket p c ic).1 in
    elim (Bool-cases (h == 63)) [
      | inl y ↦ let e' = rw y at e in ground arith
      | inr n63 ↦ elim (Bool-cases (h == 91)) [
        | inl y ↦ let e' = rw (n63, y) at e in set_shorter (match_bracket p c ic) e'
        | inr n91 ↦ elim (Bool-cases (h == 92)) [
          | inl y ↦
              let e' = rw (n63, n91, y) at e in
              literal-shorter ic h p c (some (escaped p)) (λ b adv f. ground (arith, escaped-pos p))
                e'
          | inr n92 ↦ let e' = rw (n63, n91, n92) at e in ground arith
        ]
      ]
    ]
  where
    set_shorter :
        (r : Bool × ℕ)
        → (if ltb 0 r.1
            then if r.0 then some (drop r.1 (h ∷ p)) else none
            else if c == 91
            then some p
            else none)
          ≡ some q
        → length q ≤ length p
    set_shorter (b, n) f = elim (Bool-cases (ltb 0 n)) [
      | inl y ↦ ground (arith, drop-shorter n h p)
      | inr z ↦ ground arith
    ]
