-- ===== src/Glob.antt =====
-- wedb_pubsub/src/glob.rs: the glob matcher behind PSUBSCRIBE and PUBSUB CHANNELS. An index into the
-- pattern or the key is the rest of it from there on. Bytes are numbers below 256; 42 is `*`, 63 `?`,
-- 91 `[`, 93 `]`, 92 the backslash, 94 `^`, 33 `!`, 45 `-` and 120 `x`.
pub mod Tokens
pub mod TokenLaws
pub mod Head
pub mod Fuel
pub mod Relation
pub mod Decides
mod Tests
use garnet_rust.Common.{
  ℕ, zero, suc, ◌+◌, ◌-◌, ◌*◌, ◌%◌, ◌≤◌, ◌<◌, List, [], ◌∷◌, Option, none, some, Bool, true, false,
  ltb, leb, ◌==◌, ◌&&◌, ◌||◌, not, if◌then◌else◌, length, drop, get_or,
}

abbrev pub between : ℕ → ℕ → ℕ → Bool
between lo hi b = leb lo b && leb b hi

unfoldable pub hex_val : ℕ → Option ℕ
hex_val b =
    if between 48 57 b
    then some (b - 48)
    else if between 97 102 b
    then some (b - 97 + 10)
    else if between 65 70 b
    then some (b - 65 + 10)
    else none

-- `(hi << 4) | lo` of two values below 16
abbrev pub hex_pair : Option ℕ → Option ℕ → Option ℕ
hex_pair (some hi) (some lo) = some (hi * 16 + lo)
hex_pair none lo = none
hex_pair (some hi) none = none

unfoldable pub parse_hex_byte : ℕ → ℕ → Option ℕ
unfolding hex_val
parse_hex_byte h l = hex_pair (hex_val h) (hex_val l)

abbrev pub hex_or : ℕ → Option ℕ → ℕ × ℕ
hex_or c none = (c, 2)
hex_or c (some b) = (b, 4)

-- What follows a backslash: the byte and the bytes of the pattern that it takes, the backslash too.
unfoldable pub escaped : List ℕ → ℕ × ℕ
unfolding parse_hex_byte
escaped [] = (92, 1)
escaped (c ∷ h ∷ l ∷ rest) = if c == 120 then hex_or c (parse_hex_byte h l) else (c, 2)
escaped (c ∷ rest) = (c, 2)

unfoldable pub next_pat_char : List ℕ → Option (ℕ × ℕ)
unfolding escaped
next_pat_char [] = none
next_pat_char (b ∷ rest) = if b == 92 then some (escaped rest) else some (b, 1)

abbrev pub to_ascii_lowercase : ℕ → ℕ
to_ascii_lowercase b = if between 65 90 b then b + 32 else b

abbrev pub fold_case : Bool → ℕ → ℕ
fold_case ignore_case b = if ignore_case then to_ascii_lowercase b else b

-- `eq_ignore_ascii_case`, or equality
abbrev pub same_byte : Bool → ℕ → ℕ → Bool
same_byte ignore_case a b = fold_case ignore_case a == fold_case ignore_case b

-- Whether `target` lies between two bytes, in either order.
abbrev pub in_range : ℕ → ℕ → ℕ → Bool
in_range target a b = if ltb b a then between b a target else between a b target

-- The end of a range `c1-c2`, if the rest of the set after `c1` starts with one.
abbrev pub range_end : List ℕ → Option (ℕ × ℕ)
range_end (d ∷ e ∷ rest) = if d == 45 && not (e == 93) then next_pat_char (e ∷ rest) else none
range_end [] = none
range_end (d ∷ []) = none

-- One member of a set, whose first byte and its length are given: whether it holds the target, and the
-- length of the member.
abbrev pub member : Bool → ℕ → ℕ → ℕ → Option (ℕ × ℕ) → Bool × ℕ
member ignore_case target c1 adv1 none = (fold_case ignore_case c1 == target, adv1)
member ignore_case target c1 adv1 (some (c2, adv2)) =
    (in_range target (fold_case ignore_case c1) (fold_case ignore_case c2), adv1 + 1 + adv2)

-- The loop over the members: `rest` is the pattern from index `i` on. The result is whether a member
-- holds the target and the index after `]`, `none` without one. A round takes a byte or more, so the
-- length of the rest is fuel enough.
unfoldable pub members : Bool → ℕ → ℕ → List ℕ → ℕ → Bool → Option (Bool × ℕ)
unfolding next_pat_char
members ignore_case target zero rest i matched = none
members ignore_case target (suc fuel) [] i matched = none
members ignore_case target (suc fuel) (b ∷ rest) i matched =
    if b == 93 then some (matched, i + 1) else elim (next_pat_char (b ∷ rest)) [
      | none ↦ none
      | some (c1, adv1) ↦
          let (holds, adv) = member ignore_case target c1 adv1 (range_end (drop adv1 (b ∷ rest))) in
          members ignore_case target fuel (drop adv (b ∷ rest)) (i + adv) (matched || holds)
    ]

-- The result of the loop under the set's negation, `(false, 0)` without a closing bracket.
abbrev pub closed_set : Bool → Option (Bool × ℕ) → Bool × ℕ
closed_set negated none = (false, 0)
closed_set negated (some (matched, i)) = (if negated then not matched else matched, i)

abbrev pub is_negation : List ℕ → Bool
is_negation [] = false
is_negation (b ∷ rest) = b == 94 || b == 33

-- `match_bracket` on a pattern that starts with `[`; `rest` follows it.
unfoldable pub match_bracket : List ℕ → ℕ → Bool → Bool × ℕ
unfolding members
match_bracket rest target_byte ignore_case =
    let target = fold_case ignore_case target_byte in
    if is_negation rest
    then closed_set true (members ignore_case target (length rest) (drop 1 rest) 2 false)
    else closed_set false (members ignore_case target (length rest) rest 1 false)

abbrev pub literal : Bool → List ℕ → ℕ → Option (ℕ × ℕ) → Option (List ℕ)
literal ignore_case pat c none = none
literal ignore_case pat c (some (b, adv)) =
    if same_byte ignore_case b c then some (drop adv pat) else none

-- One round at a byte `h` of the pattern other than `*`, which `rest` follows: the rest of the pattern
-- after the match of the key's byte `c`, `none` on a mismatch.
unfoldable pub match_head : Bool → ℕ → List ℕ → ℕ → Option (List ℕ)
unfolding match_bracket next_pat_char
match_head ignore_case h rest c =
    let (matched, next_p) = match_bracket rest c ignore_case in
    if h == 63
    then some rest
    else if h == 91
    then if ltb 0 next_p
      then if matched then some (drop next_p (h ∷ rest)) else none
      else if c == 91
      then some rest
      else none
    else if h == 92
    then literal ignore_case (h ∷ rest) c (next_pat_char (h ∷ rest))
    else if same_byte ignore_case h c
    then some rest
    else none

unfoldable pub skip_stars : List ℕ → List ℕ
skip_stars [] = []
skip_stars (h ∷ p) = if h == 42 then skip_stars p else h ∷ p

abbrev pub is_empty : List ℕ → Bool
is_empty [] = true
is_empty (h ∷ p) = false

-- `star_p + 1` and `star_t`
abbrev pub Star : Type 0
Star = Option (List ℕ × List ℕ)

abbrev pub Round : Type 0
Round = List ℕ → List ℕ → Star → Option Bool

-- After a mismatch the last star takes one more byte of the key.
abbrev pub backtrack : Round → Star → Option Bool
backtrack next none = some false
backtrack next (some (sp, st)) = next sp (drop 1 st) (some (sp, drop 1 st))

abbrev pub onward : Round → List ℕ → Star → Option (List ℕ) → Option Bool
onward next k star none = backtrack next star
onward next k star (some p) = next p k star

-- The loop; `none` is a lack of fuel.
unfoldable pub match_loop : Bool → ℕ → Round
unfolding match_head skip_stars
match_loop ignore_case zero p k star = none
match_loop ignore_case (suc fuel) p [] star = some (is_empty (skip_stars p))
match_loop ignore_case (suc fuel) [] (c ∷ k) star = backtrack (match_loop ignore_case fuel) star
match_loop ignore_case (suc fuel) (h ∷ p) (c ∷ k) star = elim (h == 42) [
  | true ↦ let q = skip_stars p in match_loop ignore_case fuel q (c ∷ k) (some (q, c ∷ k))
  | false ↦ onward (match_loop ignore_case fuel) k star (match_head ignore_case h p c)
]

unfoldable pub glob_match : List ℕ → List ℕ → Bool → Option Bool
unfolding match_loop
glob_match pattern key ignore_case =
    match_loop ignore_case ((length key + 1) * (length pattern + 1)) pattern key none

abbrev pub match_glob : List ℕ → List ℕ → Option Bool
match_glob pattern key = glob_match pattern key false

abbrev pub match_glob_nocase : List ℕ → List ℕ → Option Bool
match_glob_nocase pattern key = glob_match pattern key true
