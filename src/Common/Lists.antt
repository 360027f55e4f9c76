-- ===== src/Common/Lists.antt =====
-- Sequences measured and indexed by native numbers, under the library's names: what the code asks of
-- `Vec`, `VecDeque` and slices.
use Prim.Native.Nat.{ℕ, zero, suc}
use mathlib.Core.Bool.{Bool, true, false, ◌&&◌, ◌||◌}
use mathlib.Core.List.{List, [], ◌∷◌}
use mathlib.Core.Option.{Option, none, some}
use garnet_rust.Common.Tests.{if◌then◌else◌}

module _ {ℓ} {A : Type ℓ} where
  abbrev pub length : List A → ℕ
  length [] = 0
  length (x ∷ xs) = suc (length xs)

  abbrev pub get_elem? : List A → ℕ → Option A
  get_elem? [] i = none
  get_elem? (x ∷ xs) zero = some x
  get_elem? (x ∷ xs) (suc i) = get_elem? xs i

  abbrev pub get_or : List A → ℕ → A → A
  get_or [] i d = d
  get_or (x ∷ xs) zero d = x
  get_or (x ∷ xs) (suc i) d = get_or xs i d

  -- A write out of bounds changes nothing.
  abbrev pub set : List A → ℕ → A → List A
  set [] i v = []
  set (x ∷ xs) zero v = v ∷ xs
  set (x ∷ xs) (suc i) v = x ∷ set xs i v

  abbrev pub take : ℕ → List A → List A
  take zero xs = []
  take (suc n) [] = []
  take (suc n) (x ∷ xs) = x ∷ take n xs

  abbrev pub drop : ℕ → List A → List A
  drop zero xs = xs
  drop (suc n) [] = []
  drop (suc n) (x ∷ xs) = drop n xs

  abbrev pub replicate : ℕ → A → List A
  replicate zero a = []
  replicate (suc n) a = a ∷ replicate n a

  -- The elements that a test keeps.
  abbrev pub keep : (A → Bool) → List A → List A
  keep p [] = []
  keep p (x ∷ xs) = if p x then x ∷ keep p xs else keep p xs

  -- Whether a test holds of every element, and of some.
  abbrev pub all : (A → Bool) → List A → Bool
  all p [] = true
  all p (x ∷ xs) = p x && all p xs

  abbrev pub any : (A → Bool) → List A → Bool
  any p [] = false
  any p (x ∷ xs) = p x || any p xs

  -- `VecDeque::pop_front` and `pop_back`: the end element beside the rest.
  abbrev pub uncons : List A → Option (A × List A)
  uncons [] = none
  uncons (x ∷ xs) = some (x, xs)

  abbrev pub unsnoc_cons : A → Option (A × List A) → A × List A
  unsnoc_cons x none = (x, [])
  unsnoc_cons x (some (l, ys)) = (l, x ∷ ys)

  unfoldable pub unsnoc : List A → Option (A × List A)
  unsnoc [] = none
  unsnoc (x ∷ xs) = some (unsnoc_cons x (unsnoc xs))

  -- `insert` at an index, `none` (a panic) past the end.
  unfoldable pub insert_at : ℕ → A → List A → Option (List A)
  insert_at zero v xs = some (v ∷ xs)
  insert_at (suc i) v [] = none
  insert_at (suc i) v (x ∷ xs) = elim (insert_at i v xs) [ none ↦ none | some ys ↦ some (x ∷ ys) ]

  -- `VecDeque::remove`: the element at an index beside the rest.
  unfoldable pub remove_at : ℕ → List A → Option (A × List A)
  remove_at i [] = none
  remove_at zero (x ∷ xs) = some (x, xs)
  remove_at (suc i) (x ∷ xs) = elim (remove_at i xs) [ none ↦ none | some p ↦ some (p.0, x ∷ p.1) ]

  -- The index of the first element that passes.
  unfoldable pub position : (A → Bool) → List A → Option ℕ
  position p [] = none
  position p (x ∷ xs) =
      if p x then some 0 else elim (position p xs) [ none ↦ none | some i ↦ some (suc i) ]
