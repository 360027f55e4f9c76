-- ===== src/Glob/Tokens.antt =====
-- What one place of a pattern of wedb_pubsub/src/glob.rs stands for, told apart from the matcher: any
-- byte, one byte, or a set of ranges of bytes, and which bytes of a key it accepts. Bytes are written as
-- in the parent module.
use garnet_rust.Common.{
  ℕ, zero, suc, ◌+◌, ◌-◌, ◌*◌, List, [], ◌∷◌, Option, none, some, Bool, true, false, leb, ◌==◌,
  ◌&&◌, ◌||◌, not, if◌then◌else◌, length, any,
}

pub data Token : Type 0 where
  any_byte : Token
  one : ℕ → Token
  -- Whether the set is negated, and its ranges.
  set : Bool → List (ℕ × ℕ) → Token

abbrev pub is_digit : ℕ → Bool
is_digit b = leb 48 b && leb b 57

abbrev pub digit : ℕ → Option ℕ
digit b =
    if is_digit b
    then some (b - 48)
    else if leb 97 b && leb b 102
    then some (b - 87)
    else if leb 65 b && leb b 70
    then some (b - 55)
    else none

-- `xhl` with two hexadecimal digits is the byte of that value.
abbrev pub two_digits : Option ℕ → Option ℕ → Option ℕ
two_digits (some h) (some l) = some (16 * h + l)
two_digits none l = none
two_digits (some h) none = none

abbrev pub escape_or : ℕ → List ℕ → List ℕ → Option ℕ → ℕ × List ℕ
escape_or c rest after none = (c, rest)
escape_or c rest after (some v) = (v, after)

-- The byte that a backslash in front of these bytes stands for, and the bytes after it: itself at the
-- end of the pattern, the value of a hexadecimal code, or the next byte.
unfoldable pub escape : List ℕ → ℕ × List ℕ
escape [] = (92, [])
escape (c ∷ h ∷ l ∷ rest) =
    if c == 120
    then escape_or c (h ∷ l ∷ rest) rest (two_digits (digit h) (digit l))
    else (c, h ∷ l ∷ rest)
escape (c ∷ rest) = (c, rest)

-- The first byte of a pattern, an escape taken as what it stands for.
unfoldable pub byte : List ℕ → Option (ℕ × List ℕ)
unfolding escape
byte [] = none
byte (b ∷ rest) = if b == 92 then some (escape rest) else some (b, rest)

abbrev pub range_from : ℕ → List ℕ → Option (ℕ × List ℕ) → (ℕ × ℕ) × List ℕ
range_from lo rest none = ((lo, lo), rest)
range_from lo rest (some (hi, after)) = ((lo, hi), after)

-- A dash before a byte other than `]` makes a range.
unfoldable pub range : ℕ → List ℕ → (ℕ × ℕ) × List ℕ
unfolding byte
range lo (d ∷ e ∷ rest) =
    if d == 45 && not (e == 93)
    then range_from lo (d ∷ e ∷ rest) (byte (e ∷ rest))
    else ((lo, lo), d ∷ e ∷ rest)
range lo rest = ((lo, lo), rest)

abbrev pub with_range : ℕ × ℕ → Option (List (ℕ × ℕ) × List ℕ) → Option (List (ℕ × ℕ) × List ℕ)
with_range r none = none
with_range r (some (rs, rest)) = some (r ∷ rs, rest)

-- The ranges up to the closing bracket and the bytes after it, `none` without one. A range takes a byte
-- or more, so as many rounds as there are bytes are enough.
unfoldable pub ranges : ℕ → List ℕ → Option (List (ℕ × ℕ) × List ℕ)
unfolding byte range
ranges zero rest = none
ranges (suc rounds) [] = none
ranges (suc rounds) (b ∷ rest) = if b == 93 then some ([], rest) else elim (byte (b ∷ rest)) [
  | none ↦ none
  | some (lo, after) ↦ with_range (range lo after).0 (ranges rounds (range lo after).1)
]

-- A set without a closing bracket is the bracket itself.
abbrev pub set_or : Bool → List ℕ → Option (List (ℕ × ℕ) × List ℕ) → Token × List ℕ
set_or negated rest none = (one 91, rest)
set_or negated rest (some (rs, after)) = (set negated rs, after)

unfoldable pub bracket : List ℕ → Token × List ℕ
unfolding ranges
bracket [] = (one 91, [])
bracket (b ∷ rest) =
    if b == 94 || b == 33
    then set_or true (b ∷ rest) (ranges (suc (length rest)) rest)
    else set_or false (b ∷ rest) (ranges (suc (length rest)) (b ∷ rest))

-- The token of a pattern that starts with a byte other than `*`, and the pattern after it.
unfoldable pub token : ℕ → List ℕ → Token × List ℕ
unfolding bracket escape
token h rest =
    if h == 63
    then (any_byte, rest)
    else if h == 91
    then bracket rest
    else if h == 92
    then (one (escape rest).0, (escape rest).1)
    else (one h, rest)

abbrev pub lower : Bool → ℕ → ℕ
lower ignore_case b = if ignore_case then if leb 65 b && leb b 90 then b + 32 else b else b

-- The two ends of a range may come in either order.
abbrev pub within : Bool → ℕ → ℕ × ℕ → Bool
within ignore_case c (a, b) =
    let x = lower ignore_case c in
    let lo = lower ignore_case a in
    let hi = lower ignore_case b in (leb lo x && leb x hi) || (leb hi x && leb x lo)

-- A set accepts a byte of one of its ranges, a negated one any other.
abbrev pub accepts : Bool → Token → ℕ → Bool
accepts ignore_case any_byte c = true
accepts ignore_case (one b) c = lower ignore_case b == lower ignore_case c
accepts ignore_case (set true rs) c = not (any (within ignore_case c) rs)
accepts ignore_case (set false rs) c = any (within ignore_case c) rs
