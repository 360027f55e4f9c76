-- ===== src/Common/Inserted.antt =====
-- Insertion at an index, and equality of byte strings.
use Prim.Native.Nat.{ℕ, zero, suc, ◌+◌, ◌≤◌, ◌<◌}
use mathlib.Core.Path.{◌≡◌, refl, ap, sym}
use mathlib.Core.Logic.{◌↔◌, inl, inr}
use mathlib.Core.Bool.{Bool, true, false, ◌&&◌}
use mathlib.Core.List.{List, [], ◌∷◌, ◌++◌, append_assoc}
use mathlib.Core.Option.{Option, none, some}
use native.Mathlib.Omega.{arith}
use native.Mathlib.Nat.{zero-add}
use garnet_rust.Common.Tests.{Option-cases, ◌==◌}
use garnet_rust.Common.Lists.{length, take, drop, insert_at, position}
use garnet_rust.Common.ListLaws.{
  length-append, length-take, length-drop, take-append_left, take-append_right, drop-append_left,
  drop-append_right,
}

module _ {ℓ} {A : Type ℓ} where
  -- The list with `v` at index `i`.
  abbrev pub inserted : ℕ → A → List A → List A
  inserted i v xs = take i xs ++ v ∷ drop i xs

  pub insert_at-some :
      (i : ℕ) (v : A) (xs : List A) → i ≤ length xs → insert_at i v xs ≡ some (inserted i v xs)
  unfolding insert_at
  insert_at-some zero v xs h = refl
  insert_at-some (suc i) v [] h = absurd (omega arith)
  insert_at-some (suc i) v (x ∷ xs) h = rw (insert_at-some i v xs (omega arith))

  pub inserted-append_right :
      (i : ℕ) (v : A) (xs ys : List A)
      → inserted (length xs + i) v (xs ++ ys) ≡ xs ++ inserted i v ys
  inserted-append_right i v xs ys =
      rw (take-append_right i xs ys, drop-append_right i xs ys)
        (append_assoc xs (take i ys) (v ∷ drop i ys))

  pub inserted-append_left :
      (i : ℕ) (v : A) (xs ys : List A)
      → i ≤ length xs
      → inserted i v (xs ++ ys) ≡ inserted i v xs ++ ys
  inserted-append_left i v xs ys h =
      rw (take-append_left i xs ys h, drop-append_left i xs ys h)
        (sym (append_assoc (take i xs) (v ∷ drop i xs) ys))

  pub length-inserted :
      (i : ℕ) (v : A) (xs : List A) → i ≤ length xs → length (inserted i v xs) ≡ length xs + 1
  length-inserted i v xs h =
      omega (arith, length-append (take i xs) (v ∷ drop i xs), length-take i xs, length-drop i xs)

unfoldable pub bytes_eq : List ℕ → List ℕ → Bool
bytes_eq [] [] = true
bytes_eq [] (y ∷ ys) = false
bytes_eq (x ∷ xs) [] = false
bytes_eq (x ∷ xs) (y ∷ ys) = x == y && bytes_eq xs ys

pub bytes_eq_iff : (xs ys : List ℕ) → (bytes_eq xs ys ≡ true) ↔ (xs ≡ ys)
unfolding bytes_eq
bytes_eq_iff [] [] = (λ h. refl, λ h. refl)
bytes_eq_iff [] (y ∷ ys) = (λ h. cc, λ h. cc)
bytes_eq_iff (x ∷ xs) [] = (λ h. cc, λ h. cc)
bytes_eq_iff (x ∷ xs) (y ∷ ys) =
    (λ h. ground (arith, bytes_eq_iff xs ys), λ h. ground (arith, bytes_eq_iff xs ys))

module _ {ℓ} {A : Type ℓ} (p : A → Bool) where
  abbrev pub shift : ℕ → Option ℕ → Option ℕ
  shift n none = none
  shift n (some i) = some (n + i)

  pub position-lt : (xs : List A) {i : ℕ} → position p xs ≡ some i → i < length xs
  unfolding position
  position-lt [] e = cc
  position-lt (x ∷ xs) e = elim (Option-cases (position p xs)) [
    | inl e' ↦ ground arith
    | inr (j, e') ↦ ground (arith, position-lt xs e')
  ]

  pub position-append_left :
      (xs ys : List A) {i : ℕ} → position p xs ≡ some i → position p (xs ++ ys) ≡ some i
  unfolding position
  position-append_left [] ys e = cc
  position-append_left (x ∷ xs) ys e = elim (Option-cases (position p xs)) [
    | inl e' ↦ ground arith
    | inr (j, e') ↦ ground (arith, position-append_left xs ys e')
  ]

  pub position-append_right :
      (xs ys : List A)
      → position p xs ≡ none
      → position p (xs ++ ys) ≡ shift (length xs) (position p ys)
  unfolding position
  position-append_right [] ys e = elim (Option-cases (position p ys)) [
    | inl e' ↦ rw e'
    | inr (j, e') ↦ rw e' (ap some (sym (zero-add j)))
  ]
  position-append_right (x ∷ xs) ys e = elim (Option-cases (position p xs)) [
    | inl e' ↦ ground (arith, position-append_right xs ys e')
    | inr (j, e') ↦ ground arith
  ]
