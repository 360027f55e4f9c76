-- ===== src/Common/ListLaws.antt =====
-- The laws of the operations on sequences that Lists declares.
use Prim.Native.Nat.{ℕ, zero, suc, ◌+◌, ◌-◌, ◌<◌, ◌≤◌, min}
use mathlib.Core.Path.{◌≡◌, refl, ap, ◌∙◌}
use mathlib.Core.Logic.{◌⊎◌, inl, inr}
use mathlib.Core.List.{List, [], ◌∷◌, ◌++◌, map, reverse, reverse-cons}
use mathlib.Core.Option.{none, some}
use native.Mathlib.Omega.{arith}
use native.Mathlib.Nat.{zero-add, suc-add}
use garnet_rust.Common.Tests.{Option-cases, ◌==◌}
use mathlib.Core.Bool.{false}
use garnet_rust.Common.Lists.{
  length, get_elem?, get_or, set, take, drop, replicate, unsnoc, remove_at,
}

module _ {ℓ} {A : Type ℓ} where
  pub length-append : (xs ys : List A) → length (xs ++ ys) ≡ length xs + length ys
  length-append [] ys = omega arith
  length-append (x ∷ xs) ys = omega (arith, length-append xs ys)

  pub length-set : (xs : List A) (i : ℕ) (v : A) → length (set xs i v) ≡ length xs
  length-set [] i v = refl
  length-set (x ∷ xs) zero v = refl
  length-set (x ∷ xs) (suc i) v = ap suc (length-set xs i v)

  pub length-take : (n : ℕ) (xs : List A) → length (take n xs) ≡ min n (length xs)
  length-take zero xs = omega arith
  length-take (suc n) [] = omega arith
  length-take (suc n) (x ∷ xs) = omega (arith, length-take n xs)

  pub length-drop : (n : ℕ) (xs : List A) → length (drop n xs) ≡ length xs - n
  length-drop zero xs = omega arith
  length-drop (suc n) [] = omega arith
  length-drop (suc n) (x ∷ xs) = omega (arith, length-drop n xs)

  pub length-replicate : (n : ℕ) (a : A) → length (replicate n a) ≡ n
  length-replicate zero a = refl
  length-replicate (suc n) a = ap suc (length-replicate n a)

  pub length-map {κ} : {B : Type κ} (xs : List A) (f : A → B) → length (map f xs) ≡ length xs
  length-map [] f = refl
  length-map (x ∷ xs) f = ap suc (length-map xs f)

  pub take-append-drop : (n : ℕ) (xs : List A) → take n xs ++ drop n xs ≡ xs
  take-append-drop zero xs = refl
  take-append-drop (suc n) [] = refl
  take-append-drop (suc n) (x ∷ xs) = rw (take-append-drop n xs)

  pub take-nil : (n : ℕ) → take {A = A} n [] ≡ []
  take-nil zero = refl
  take-nil (suc n) = refl

  pub drop-nil : (n : ℕ) → drop {A = A} n [] ≡ []
  drop-nil zero = refl
  drop-nil (suc n) = refl

  pub take_all : (n : ℕ) (xs : List A) → length xs ≤ n → take n xs ≡ xs
  take_all zero [] h = refl
  take_all zero (x ∷ xs) h = absurd (omega arith)
  take_all (suc n) [] h = refl
  take_all (suc n) (x ∷ xs) h = ap (◌∷◌ x) (take_all n xs (omega arith))

  pub drop_all : (n : ℕ) (xs : List A) → length xs ≤ n → drop n xs ≡ []
  drop_all zero [] h = refl
  drop_all zero (x ∷ xs) h = absurd (omega arith)
  drop_all (suc n) [] h = refl
  drop_all (suc n) (x ∷ xs) h = drop_all n xs (omega arith)

  pub drop-append_left :
      (n : ℕ) (xs ys : List A) → n ≤ length xs → drop n (xs ++ ys) ≡ drop n xs ++ ys
  drop-append_left zero xs ys h = refl
  drop-append_left (suc n) [] ys h = absurd (omega arith)
  drop-append_left (suc n) (x ∷ xs) ys h = drop-append_left n xs ys (omega arith)

  pub drop-append_right : (n : ℕ) (xs ys : List A) → drop (length xs + n) (xs ++ ys) ≡ drop n ys
  drop-append_right n [] ys = rw zero-add
  drop-append_right n (x ∷ xs) ys = rw suc-add (drop-append_right n xs ys)

  pub take-append_left : (n : ℕ) (xs ys : List A) → n ≤ length xs → take n (xs ++ ys) ≡ take n xs
  take-append_left zero xs ys h = refl
  take-append_left (suc n) [] ys h = absurd (omega arith)
  take-append_left (suc n) (x ∷ xs) ys h = ap (◌∷◌ x) (take-append_left n xs ys (omega arith))

  pub take-append_right :
      (n : ℕ) (xs ys : List A) → take (length xs + n) (xs ++ ys) ≡ xs ++ take n ys
  take-append_right n [] ys = rw zero-add
  take-append_right n (x ∷ xs) ys = rw suc-add (ap (◌∷◌ x) (take-append_right n xs ys))

  pub drop-drop : (m n : ℕ) (xs : List A) → drop m (drop n xs) ≡ drop (n + m) xs
  drop-drop m zero xs = rw zero-add
  drop-drop m (suc n) [] = rw (drop-nil m, drop-nil (suc n + m))
  drop-drop m (suc n) (x ∷ xs) = rw suc-add (drop-drop m n xs)

  pub get_elem?-append_left :
      (xs ys : List A) (i : ℕ) → i < length xs → get_elem? (xs ++ ys) i ≡ get_elem? xs i
  get_elem?-append_left [] ys i h = absurd (omega arith)
  get_elem?-append_left (x ∷ xs) ys zero h = refl
  get_elem?-append_left (x ∷ xs) ys (suc i) h = get_elem?-append_left xs ys i (omega arith)

  pub get_elem?-append_right :
      (xs ys : List A) (i : ℕ) → get_elem? (xs ++ ys) (length xs + i) ≡ get_elem? ys i
  get_elem?-append_right [] ys i = rw zero-add
  get_elem?-append_right (x ∷ xs) ys i = rw suc-add (get_elem?-append_right xs ys i)

  pub get_elem?-none : (xs : List A) (i : ℕ) → length xs ≤ i → get_elem? xs i ≡ none
  get_elem?-none [] i h = refl
  get_elem?-none (x ∷ xs) zero h = absurd (omega arith)
  get_elem?-none (x ∷ xs) (suc i) h = get_elem?-none xs i (omega arith)

  pub get_elem?-some : (xs : List A) (i : ℕ) → i < length xs → (x : A) × (get_elem? xs i ≡ some x)
  get_elem?-some [] i h = absurd (omega arith)
  get_elem?-some (x ∷ xs) zero h = (x, refl)
  get_elem?-some (x ∷ xs) (suc i) h = get_elem?-some xs i (omega arith)

  -- Reading an element starts the suffix from its index.
  pub drop-get_elem? :
      (xs : List A) (i : ℕ) {x : A} → get_elem? xs i ≡ some x → drop i xs ≡ x ∷ drop (suc i) xs
  drop-get_elem? [] i h = cc
  drop-get_elem? (x ∷ xs) zero h = ground arith
  drop-get_elem? (x ∷ xs) (suc i) h = drop-get_elem? xs i h

module _ {ℓ} {A : Type ℓ} where
  pub unsnoc-none : (xs : List A) → unsnoc xs ≡ none → xs ≡ []
  unfolding unsnoc
  unsnoc-none [] h = refl
  unsnoc-none (x ∷ xs) h = cc

  pub unsnoc-some :
      (xs : List A) {l : A} {ys : List A} → unsnoc xs ≡ some (l, ys) → xs ≡ ys ++ l ∷ []
  unfolding unsnoc
  unsnoc-some [] h = cc
  unsnoc-some (x ∷ xs) {l} {ys} h = elim (Option-cases (unsnoc xs)) [
    | inl e ↦ ground (arith, unsnoc-none xs e)
    | inr ((m, zs), e) ↦ ground (arith, unsnoc-some xs e)
  ]

module _ {ℓ} {A : Type ℓ} where
  pub set-append_right :
      (xs ys : List A) (i : ℕ) (v : A) → set (xs ++ ys) (length xs + i) v ≡ xs ++ set ys i v
  set-append_right [] ys i v = rw zero-add
  set-append_right (x ∷ xs) ys i v = rw suc-add (ap (◌∷◌ x) (set-append_right xs ys i v))

  pub set-append_left :
      (xs ys : List A) (i : ℕ) (v : A) → i < length xs → set (xs ++ ys) i v ≡ set xs i v ++ ys
  set-append_left [] ys i v h = absurd (omega arith)
  set-append_left (x ∷ xs) ys zero v h = refl
  set-append_left (x ∷ xs) ys (suc i) v h = ap (◌∷◌ x) (set-append_left xs ys i v (omega arith))

  -- The elements but the one at an index.
  abbrev pub without : ℕ → List A → List A
  without i xs = take i xs ++ drop (suc i) xs

  pub without-append :
      (xs ys zs : List A) (i : ℕ)
      → i < length ys
      → without (length xs + i) (xs ++ (ys ++ zs)) ≡ xs ++ (without i ys ++ zs)
  without-append [] [] zs i h = absurd (omega arith)
  without-append [] (y ∷ ys) zs zero h = refl
  without-append [] (y ∷ ys) zs (suc i) h =
      rw zero-add (ap (◌∷◌ y) (rw zero-add at (without-append [] ys zs i (omega arith))))
  without-append (x ∷ xs) ys zs i h = rw suc-add (ap (◌∷◌ x) (without-append xs ys zs i h))

  pub remove_at-some :
      (xs : List A) (i : ℕ) {x : A}
      → get_elem? xs i ≡ some x
      → remove_at i xs ≡ some (x, without i xs)
  unfolding remove_at
  remove_at-some [] i h = cc
  remove_at-some (x ∷ xs) zero h = ground arith
  remove_at-some (x ∷ xs) (suc i) h = rw (remove_at-some xs i h)

  pub length-without : (xs : List A) (i : ℕ) → i < length xs → length (without i xs) + 1 ≡ length xs
  length-without [] i h = absurd (omega arith)
  length-without (x ∷ xs) zero h = omega arith
  length-without (x ∷ xs) (suc i) h = omega (arith, length-without xs i (omega arith))

  pub drop-append_past :
      (n : ℕ) (xs ys : List A) → length xs ≤ n → drop n (xs ++ ys) ≡ drop (n - length xs) ys
  drop-append_past n xs ys h =
      let e : n ≡ length xs + (n - length xs) = omega arith in
      ap (λ k. drop k (xs ++ ys)) e ∙ drop-append_right (n - length xs) xs ys

  pub take-append_past :
      (n : ℕ) (xs ys : List A) → length xs ≤ n → take n (xs ++ ys) ≡ xs ++ take (n - length xs) ys
  take-append_past n xs ys h =
      let e : n ≡ length xs + (n - length xs) = omega arith in
      ap (λ k. take k (xs ++ ys)) e ∙ take-append_right (n - length xs) xs ys

module _ {ℓ} {A : Type ℓ} where
  pub List-cases : (xs : List A) → (xs ≡ []) ⊎ ((x : A) × (ys : List A) × (xs ≡ x ∷ ys))
  List-cases [] = inl refl
  List-cases (x ∷ xs) = inr (x, xs, refl)

  pub length-reverse : (xs : List A) → length (reverse xs) ≡ length xs
  length-reverse [] = refl
  length-reverse (x ∷ xs) =
      omega (
        arith,
        ap length (reverse-cons x xs),
        length-append (reverse xs) (x ∷ []),
        length-reverse xs,
      )

module _ {ℓ} {A : Type ℓ} where
  pub drop-prefix : (n : ℕ) (xs ys : List A) → length xs ≡ n → drop n (xs ++ ys) ≡ ys
  drop-prefix zero [] ys h = refl
  drop-prefix (suc n) [] ys h = absurd (omega arith)
  drop-prefix zero (x ∷ xs) ys h = absurd (omega arith)
  drop-prefix (suc n) (x ∷ xs) ys h = drop-prefix n xs ys (omega arith)

  pub take-prefix : (n : ℕ) (xs ys : List A) → length xs ≡ n → take n (xs ++ ys) ≡ xs
  take-prefix zero [] ys h = refl
  take-prefix (suc n) [] ys h = absurd (omega arith)
  take-prefix zero (x ∷ xs) ys h = absurd (omega arith)
  take-prefix (suc n) (x ∷ xs) ys h = ap (◌∷◌ x) (take-prefix n xs ys (omega arith))

  pub take-drop-take :
      (m n k : ℕ) (xs : List A) → m + k ≤ n → take k (drop m (take n xs)) ≡ take k (drop m xs)
  take-drop-take zero zero k xs h =
      ap (λ j. take j []) {y = 0} (omega arith) ∙ ap (λ j. take j xs) {x = 0} (omega arith)
  take-drop-take zero (suc n) zero xs h = refl
  take-drop-take zero (suc n) (suc k) [] h = refl
  take-drop-take zero (suc n) (suc k) (x ∷ xs) h =
      ap (◌∷◌ x) (take-drop-take zero n k xs (omega arith))
  take-drop-take (suc m) zero k xs h = absurd (omega arith)
  take-drop-take (suc m) (suc n) k [] h = refl
  take-drop-take (suc m) (suc n) k (x ∷ xs) h = take-drop-take m n k xs (omega arith)

module _ {ℓ} {A : Type ℓ} where
  pub get_or-set_same :
      (xs : List A) (i : ℕ) (v d : A) → i < length xs → get_or (set xs i v) i d ≡ v
  get_or-set_same [] i v d h = absurd (omega arith)
  get_or-set_same (x ∷ xs) zero v d h = refl
  get_or-set_same (x ∷ xs) (suc i) v d h = get_or-set_same xs i v d (omega arith)

  pub get_or-set_other :
      (xs : List A) (i j : ℕ) (v d : A) → (i == j) ≡ false → get_or (set xs i v) j d ≡ get_or xs j d
  get_or-set_other [] i j v d e = refl
  get_or-set_other (x ∷ xs) zero zero v d e = absurd (ground arith)
  get_or-set_other (x ∷ xs) zero (suc j) v d e = refl
  get_or-set_other (x ∷ xs) (suc i) zero v d e = refl
  get_or-set_other (x ∷ xs) (suc i) (suc j) v d e = get_or-set_other xs i j v d (ground arith)
