-- ===== src/Glob/Relation.antt =====
-- What it means that a pattern of wedb_pubsub/src/glob.rs matches a key: a star takes any bytes, and a token
-- one that it accepts, with no order of search in it.
use native.Mathlib.Omega.{arith}
use garnet_rust.Common.{
  ℕ, ◌≡◌, sym, ◌∙◌, inl, inr, List, [], ◌∷◌, some, Bool, true, false, ◌==◌, Bool-cases,
}
use garnet_rust.Glob.{match_head}
use garnet_rust.Glob.Tokens.{token, accepts}
use garnet_rust.Glob.TokenLaws.{match_head-token}

pub data Matches (ignore_case : Bool) : List ℕ → List ℕ → Type 0 where
  at_end : Matches ignore_case [] []
  star_done :
      {h : ℕ} {p k : List ℕ} → h ≡ 42 → Matches ignore_case p k → Matches ignore_case (h ∷ p) k
  star_more :
      {h c : ℕ} {p k : List ℕ}
      → h ≡ 42
      → Matches ignore_case (h ∷ p) k
      → Matches ignore_case (h ∷ p) (c ∷ k)
  one_byte :
      {h c : ℕ} {p k : List ℕ}
      → (h == 42) ≡ false
      → accepts ignore_case (token h p).0 c ≡ true
      → Matches ignore_case (token h p).1 k
      → Matches ignore_case (h ∷ p) (c ∷ k)

module _ {ic : Bool} where
  -- A byte other than `*` matches one byte of the key.
  pub byte_inv :
      {h c : ℕ} {p k : List ℕ}
      → (h == 42) ≡ false
      → Matches ic (h ∷ p) (c ∷ k)
      → (q : List ℕ) × (match_head ic h p c ≡ some q) × Matches ic q k
  byte_inv n (star_done e m) = absurd (ground arith)
  byte_inv n (star_more e m) = absurd (ground arith)
  byte_inv {h} {c} {p} n (one_byte n' e m) = ((token h p).1, match_head-token ic h p c ∙ rw e, m)

  -- Where the matcher takes a byte, the token accepts it.
  pub byte_step :
      {h c : ℕ} {p q k : List ℕ}
      → (h == 42) ≡ false
      → match_head ic h p c ≡ some q
      → Matches ic q k
      → Matches ic (h ∷ p) (c ∷ k)
  byte_step {h} {c} {p} {q} {k} n e m =
      let f = sym (match_head-token ic h p c) ∙ e in
      elim (Bool-cases (accepts ic (token h p).0 c)) [
        | inl y ↦ let rest : (token h p).1 ≡ q = ground (arith, f, y) in one_byte n y (rw rest m)
        | inr x ↦ absurd (ground (arith, f, x))
      ]

  pub nothing_left : {h : ℕ} {p : List ℕ} → (h == 42) ≡ false → ¬ Matches ic (h ∷ p) []
  nothing_left n (star_done e m) = absurd (ground arith)

  pub no_pattern : {c : ℕ} {k : List ℕ} → ¬ Matches ic [] (c ∷ k)
  no_pattern m = elim m [ ]

  pub star_at_end : {h : ℕ} {p : List ℕ} → h ≡ 42 → Matches ic (h ∷ p) [] → Matches ic p []
  star_at_end e (star_done e' m) = m

  -- A star in front of a pattern that does not match takes a byte.
  pub star_takes :
      {h c : ℕ} {p k : List ℕ}
      → h ≡ 42
      → Matches ic (h ∷ p) (c ∷ k)
      → ¬ Matches ic p (c ∷ k)
      → Matches ic (h ∷ p) k
  star_takes e (star_done e' m) no_match = absurd (no_match m)
  star_takes e (star_more e' m) no_match = m
  star_takes e (one_byte n f m) no_match = absurd (ground arith)

  -- Two stars in a row are one.
  pub two_stars :
      {h g : ℕ} {p k : List ℕ} → h ≡ 42 → g ≡ 42 → Matches ic (h ∷ g ∷ p) k → Matches ic (g ∷ p) k
  two_stars e e' (star_done d m) = m
  two_stars e e' (star_more d m) = star_more e' (two_stars e e' m)
  two_stars e e' (one_byte n f m) = absurd (ground arith)
