-- ===== src/Glob/TokenLaws.antt =====
-- One round of the matcher of wedb_pubsub/src/glob.rs does what the token at that place says.
use garnet_rust.Common.{
  ℕ, zero, suc, ◌+◌, ◌<◌, ◌≡◌, refl, ap, sym, ◌∙◌, inl, inr, List, [], ◌∷◌, Option, none, some,
  Bool, true, false, ltb, leb, ◌==◌, ◌&&◌, ◌||◌, not, if◌then◌else◌, arith, Bool-cases,
  Option-cases, length, drop, any, drop-drop,
}
use garnet_rust.Glob.{
  hex_val, hex_or, hex_pair, parse_hex_byte, escaped, next_pat_char, range_end, member, members,
  closed_set, match_bracket, match_head, fold_case, in_range,
}
use garnet_rust.Glob.Tokens.{
  Token, one, digit, two_digits, escape_or, escape, byte, range_from, range, with_range, ranges,
  set_or, bracket, token, lower, within, accepts,
}

hex_val-digit : (b : ℕ) → hex_val b ≡ digit b
unfolding hex_val
hex_val-digit b = ground arith

hex_pair-two_digits : (h l : Option ℕ) → hex_pair h l ≡ two_digits h l
hex_pair-two_digits none l = refl
hex_pair-two_digits (some h) none = refl
hex_pair-two_digits (some h) (some l) = ap some (omega arith)

-- The bytes that an escape takes, and what is left of the pattern behind it.
escaped-escape :
    (rest : List ℕ) → escape rest ≡ ((escaped rest).0, drop (escaped rest).1 (92 ∷ rest))
unfolding escape escaped parse_hex_byte
escaped-escape [] = refl
escaped-escape (c ∷ []) = refl
escaped-escape (c ∷ h ∷ []) = refl
escaped-escape (c ∷ h ∷ l ∷ rest) = elim (Bool-cases (c == 120)) [
  | inr n ↦ rw n
  | inl y ↦
      rw (y, hex_val-digit h, hex_val-digit l, hex_pair-two_digits (digit h) (digit l))
        (taken (two_digits (digit h) (digit l)))
]
  where
    taken :
        (v : Option ℕ)
        → escape_or c (h ∷ l ∷ rest) rest v
          ≡ ((hex_or c v).0, drop (hex_or c v).1 (92 ∷ c ∷ h ∷ l ∷ rest))
    taken none = refl
    taken (some v) = refl

-- What the code says by a length, as the rest of the pattern.
abbrev left_of : List ℕ → Option (ℕ × ℕ) → Option (ℕ × List ℕ)
left_of p none = none
left_of p (some (b, adv)) = some (b, drop adv p)

next_pat_char-byte : (p : List ℕ) → byte p ≡ left_of p (next_pat_char p)
unfolding byte next_pat_char
next_pat_char-byte [] = refl
next_pat_char-byte (b ∷ rest) = elim (Bool-cases (b == 92)) [
  | inr n ↦ rw n
  | inl y ↦ let e : b ≡ 92 = ground arith in rw (y, escaped-escape rest, e)
]

-- The end of a range.
range_end-range :
    (lo : ℕ) (p : List ℕ) → range lo p ≡ range_from lo p (left_of (drop 1 p) (range_end p))
unfolding range
range_end-range lo [] = refl
range_end-range lo (d ∷ []) = refl
range_end-range lo (d ∷ e ∷ rest) = elim (Bool-cases (d == 45 && not (e == 93))) [
  | inl y ↦ rw (y, next_pat_char-byte (e ∷ rest))
  | inr n ↦ rw n
]

in_range-ends : (x a b : ℕ) → in_range x a b ≡ (leb a x && leb x b) || (leb b x && leb x a)
in_range-ends x a b = ground arith

same-ends : (x a : ℕ) → (a == x) ≡ (leb a x && leb x a) || (leb a x && leb x a)
same-ends x a = ground arith

-- One member: the range is the same, and so is the rest of the pattern.
member-range :
    (ic : Bool) (c lo adv : ℕ) (p : List ℕ)
    → let m = member ic (fold_case ic c) lo adv (range_end (drop adv p)) in
      (m.0 ≡ within ic c (range lo (drop adv p)).0) × (drop m.1 p ≡ (range lo (drop adv p)).1)
member-range ic c lo adv p =
    rw (range_end-range lo (drop adv p)) (one_member (range_end (drop adv p)))
  where
    one_member :
        (r : Option (ℕ × ℕ))
        → let m = member ic (fold_case ic c) lo adv r in
          let s = range_from lo (drop adv p) (left_of (drop 1 (drop adv p)) r) in
          (m.0 ≡ within ic c s.0) × (drop m.1 p ≡ s.1)
    one_member none = (same-ends (fold_case ic c) (fold_case ic lo), refl)
    one_member (some (hi, adv2)) = (
      in_range-ends (fold_case ic c) (fold_case ic lo) (fold_case ic hi),
      sym (
          drop-drop adv2 1 (drop adv p)
          ∙ (drop-drop (1 + adv2) adv p ∙ ap (λ i. drop i p) (omega arith))),
    )

-- The loop over the members and the ranges of a set: both find no bracket, or the same.
abbrev Agrees :
    Bool → ℕ → Bool → List ℕ → Option (Bool × ℕ) → Option (List (ℕ × ℕ) × List ℕ) → Type 0
Agrees ic c matched whole none none = Unit {0}
Agrees ic c matched whole none (some r) = ⊥
Agrees ic c matched whole (some r) none = ⊥
Agrees ic c matched whole (some (b, i)) (some (rs, rest)) =
    (b ≡ matched || any (within ic c) rs) × (drop i whole ≡ rest) × (0 < i)

none_more : (m : Bool) → m ≡ m || false
none_more true = refl
none_more false = refl

or_assoc : (a b c : Bool) → ((a || b) || c) ≡ (a || (b || c))
or_assoc true b c = refl
or_assoc false b c = refl

Agrees-with_range :
    (ic : Bool) (c : ℕ) (matched holds : Bool) (whole : List ℕ) (r : ℕ × ℕ) (x : Option (Bool × ℕ))
    (y : Option (List (ℕ × ℕ) × List ℕ))
    → holds ≡ within ic c r
    → Agrees ic c (matched || holds) whole x y
    → Agrees ic c matched whole x (with_range r y)
Agrees-with_range ic c matched holds whole r none none e a = tt
Agrees-with_range ic c matched holds whole r none (some y) e a = a
Agrees-with_range ic c matched holds whole r (some x) none e a = a
Agrees-with_range ic c matched holds whole r (some (b, i)) (some (rs, rest)) e (f, left, pos) = (
  f
      ∙ (or_assoc matched holds (any (within ic c) rs)
          ∙ ap (λ h. matched || (h || any (within ic c) rs)) e),
  left,
  pos,
)

members-ranges :
    (ic : Bool) (c rounds : ℕ) (whole rest : List ℕ) (i : ℕ) (matched : Bool)
    → drop i whole ≡ rest
    → Agrees ic c matched whole
        (members ic (fold_case ic c) rounds rest i matched)
        (ranges rounds rest)
unfolding members ranges
members-ranges ic c zero whole rest i m at = tt
members-ranges ic c (suc rounds) whole [] i m at = tt
members-ranges ic c (suc rounds) whole (b ∷ rest) i m at = elim (Bool-cases (b == 93)) [
  | inl y ↦ rw (y, Agrees) (none_more m, sym (drop-drop 1 i whole) ∙ ap (drop 1) at, omega arith)
  | inr n ↦ elim (Option-cases (next_pat_char (b ∷ rest))) [
    | inl e ↦ rw (n, next_pat_char-byte (b ∷ rest), e, Agrees) tt
    | inr ((lo, adv), e) ↦
        let (same, left) = member-range ic c lo adv (b ∷ rest) in
        let r = member ic (fold_case ic c) lo adv (range_end (drop adv (b ∷ rest))) in
        let further : drop (i + r.1) whole ≡ drop r.1 (b ∷ rest) =
          sym (drop-drop r.1 i whole) ∙ ap (drop r.1) at in
        rw (n, next_pat_char-byte (b ∷ rest), e, Agrees, ← left)
          (Agrees-with_range ic c m r.0 whole (range lo (drop adv (b ∷ rest))).0
            (members ic (fold_case ic c) rounds (drop r.1 (b ∷ rest)) (i + r.1) (m || r.0))
            (ranges rounds (drop r.1 (b ∷ rest))) same
            (members-ranges ic c rounds whole (drop r.1 (b ∷ rest)) (i + r.1) (m || r.0) further))
  ]
]

-- The rest of the pattern behind a token that accepts the byte.
abbrev after_token : Bool → ℕ → Token × List ℕ → Option (List ℕ)
after_token ic c (t, rest) = if accepts ic t c then some rest else none

-- The branch of the code at a bracket: the set, or the bracket itself.
abbrev at_bracket : ℕ → List ℕ → Bool × ℕ → Option (List ℕ)
at_bracket c rest (matched, next_p) =
    if ltb 0 next_p
    then if matched then some (drop next_p (91 ∷ rest)) else none
    else if c == 91
    then some rest
    else none

lower-bracket : (ic : Bool) (c : ℕ) → (c == 91) ≡ (lower ic 91 == lower ic c)
lower-bracket true c = ground arith
lower-bracket false c = ground arith

bracket_itself :
    (ic : Bool) (c : ℕ) (rest : List ℕ)
    → (if c == 91 then some rest else none) ≡ after_token ic c (one 91, rest)
bracket_itself ic c rest = ap (λ b. if b then some rest else none) (lower-bracket ic c)

at_bracket-set :
    (ic : Bool) (c : ℕ) (rest : List ℕ) (negated : Bool) (x : Option (Bool × ℕ))
    (y : Option (List (ℕ × ℕ) × List ℕ))
    → Agrees ic c false (91 ∷ rest) x y
    → at_bracket c rest (closed_set negated x) ≡ after_token ic c (set_or negated rest y)
at_bracket-set ic c rest negated none none a = bracket_itself ic c rest
at_bracket-set ic c rest negated none (some y) a = absurd a
at_bracket-set ic c rest negated (some x) none a = absurd a
at_bracket-set ic c rest true (some (b, i)) (some (rs, after)) (e, left, pos) =
    let p : ltb 0 i ≡ true = ground arith in rw (p, e, left)
at_bracket-set ic c rest false (some (b, i)) (some (rs, after)) (e, left, pos) =
    let p : ltb 0 i ≡ true = ground arith in rw (p, e, left)

match_bracket-token :
    (ic : Bool) (c : ℕ) (rest : List ℕ)
    → at_bracket c rest (match_bracket rest c ic) ≡ after_token ic c (bracket rest)
unfolding match_bracket bracket
match_bracket-token ic c [] = bracket_itself ic c []
match_bracket-token ic c (b ∷ rest) = elim (Bool-cases (b == 94 || b == 33)) [
  | inl y ↦ rw y (
      at_bracket-set ic c (b ∷ rest) true
        (members ic (fold_case ic c) (suc (length rest)) rest 2 false)
        (ranges (suc (length rest)) rest)
        (members-ranges ic c (suc (length rest)) (91 ∷ b ∷ rest) rest 2 false refl))
  | inr n ↦ rw n (
      at_bracket-set ic c (b ∷ rest) false
        (members ic (fold_case ic c) (suc (length rest)) (b ∷ rest) 1 false)
        (ranges (suc (length rest)) (b ∷ rest))
        (members-ranges ic c (suc (length rest)) (91 ∷ b ∷ rest) (b ∷ rest) 1 false refl))
]

-- One round of the matcher does what the token says.
pub match_head-token :
    (ic : Bool) (h : ℕ) (rest : List ℕ) (c : ℕ)
    → match_head ic h rest c ≡ after_token ic c (token h rest)
unfolding match_head token next_pat_char
match_head-token ic h rest c = elim (Bool-cases (h == 63)) [
  | inl y ↦ rw y
  | inr n63 ↦ elim (Bool-cases (h == 91)) [
    | inl y ↦ let e : h ≡ 91 = ground arith in rw (n63, y, e) (match_bracket-token ic c rest)
    | inr n91 ↦ elim (Bool-cases (h == 92)) [
      | inl y ↦ let e : h ≡ 92 = ground arith in rw (n63, n91, y, escaped-escape rest, e)
      | inr n92 ↦ rw (n63, n91, n92)
    ]
  ]
]
