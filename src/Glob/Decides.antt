-- ===== src/Glob/Decides.antt =====
-- The loop of wedb_pubsub/src/glob.rs ends and decides whether the pattern matches the key.
use garnet_rust.Common.{
  ℕ, zero, suc, ◌+◌, ◌*◌, ◌≤◌, ◌<◌, ◌≡◌, ◌↔◌, refl, inl, inr, List, [], ◌∷◌, Option, none, some,
  Bool, true, false, ◌==◌, arith, Bool-cases, Option-cases, length,
}
use garnet_rust.Glob.{
  Star, Round, match_head, skip_stars, is_empty, backtrack, match_loop, glob_match,
}
use garnet_rust.Glob.Head.{match_head-same, match_head-shorter}
use garnet_rust.Glob.Relation.{
  Matches, at_end, star_done, star_more, one_byte, byte_step, byte_inv, nothing_left, no_pattern,
  star_at_end, star_takes, two_stars,
}

-- An answer that is right about a question.
abbrev pub Answers : Type 0 → Option Bool → Type 0
Answers G none = ⊥
Answers G (some true) = G
Answers G (some false) = ¬ G

module _ (ic : Bool) where
  -- Where a byte `h` matches any byte of a key and leaves the pattern `q`, the star in front of it can
  -- be moved behind it, at the cost of a byte of the key.
  after_star_byte :
      {h c : ℕ} {p q k : List ℕ} (d : ℕ)
      → (h == 42) ≡ false
      → match_head ic h p d ≡ some q
      → Matches ic (42 ∷ h ∷ p) (c ∷ k)
      → Matches ic (42 ∷ q) k
  after_star_byte {h} {c} {p} {q} d n e (star_done s m) =
      let (q', e', m') = byte_inv n m in
      let same : q' ≡ q = match_head-same ic h p c d e' e in star_done refl (rw (← same) m')
  after_star_byte {k = []} d n e (star_more s m) = absurd (nothing_left n (star_at_end refl m))
  after_star_byte {k = x ∷ k} d n e (star_more s m) = star_more refl (after_star_byte d n e m)
  after_star_byte d n e (one_byte n' f m) = absurd (ground arith)

  skip_stars-Matches : (p k : List ℕ) → Matches ic (42 ∷ skip_stars p) k ↔ Matches ic (42 ∷ p) k
  unfolding skip_stars
  skip_stars-Matches [] k = (λ m. m, λ m. m)
  skip_stars-Matches (h ∷ p) k = elim (Bool-cases (h == 42)) [
    | inr n ↦ rw n (λ m. m, λ m. m)
    | inl y ↦
        let e : h ≡ 42 = ground arith in
        let (to, from) = skip_stars-Matches p k in
        rw y (λ m. more_stars e (to m), λ m. from (two_stars_42 e m))
  ]
    where
      more_stars :
          {h : ℕ} {p k : List ℕ} → h ≡ 42 → Matches ic (42 ∷ p) k → Matches ic (42 ∷ h ∷ p) k
      more_stars e (star_done s m) = star_done refl (star_done e m)
      more_stars e (star_more s m) = star_more refl (more_stars e m)
      more_stars e (one_byte n f m) = absurd (ground arith)

      two_stars_42 :
          {h : ℕ} {p k : List ℕ} → h ≡ 42 → Matches ic (42 ∷ h ∷ p) k → Matches ic (42 ∷ p) k
      two_stars_42 e m = rw e at (two_stars refl e m)

  length-skip_stars : (p : List ℕ) → length (skip_stars p) ≤ length p
  unfolding skip_stars
  length-skip_stars [] = omega arith
  length-skip_stars (h ∷ p) = ground (arith, length-skip_stars p)

  only_stars : (p : List ℕ) → (is_empty (skip_stars p) ≡ true) ↔ Matches ic p []
  unfolding skip_stars
  only_stars [] = (λ e. at_end, λ m. refl)
  only_stars (h ∷ p) = elim (Bool-cases (h == 42)) [
    | inl y ↦
        let e : h ≡ 42 = ground arith in
        let (to, from) = only_stars p in rw y (λ f. star_done e (to f), λ m. from (star_at_end e m))
    | inr n ↦ rw n (λ f. cc, λ m. absurd (nothing_left n m))
  ]

-- `G` is the question that the whole call asks; no pattern on the way is as long as `size`.
module _ (ic : Bool) (G : Type 0) (size : ℕ) where
  -- What the last star is good for: the question is whether the pattern after it, with the star in
  -- front, matches the key from where it has got to, and the state was reached from there.
  abbrev Fallback : ℕ → List ℕ → List ℕ → Star → Type 0
  Fallback rounds p k none = G → Matches ic p k
  Fallback rounds p k (some (sp, st)) =
      (G ↔ Matches ic (42 ∷ sp) st)
      × (Matches ic sp st → Matches ic p k)
      × (length k ≤ length st)
      × (length st ≤ rounds)
      × (length sp < size)

  record Invariant (fuel rounds : ℕ) (p k : List ℕ) (star : Star) : Type 0 where
    sound : Matches ic p k → G
    complete : G → Matches ic (42 ∷ p) k
    fallback : Fallback rounds p k star
    key_left : length k ≤ rounds
    short : length p < size
    enough : rounds * size + length p < fuel

  from_star :
      {fuel rounds : ℕ} (p k : List ℕ)
      → G ↔ Matches ic (42 ∷ p) k
      → length k ≤ rounds
      → length p < size
      → rounds * size + length p < fuel
      → Invariant fuel rounds p k (some (p, k))
  from_star p k e key_left short enough = record {
    sound = λ m. e.1 (star_done refl m);
    complete = e.0;
    fallback = (e, λ m. m, omega arith, key_left, short);
    key_left = key_left;
    short = short;
    enough = enough;
  }

  Answered : ℕ → Round → Type 0
  Answered fuel next =
      (rounds : ℕ) (p k : List ℕ) (star : Star)
      → Invariant fuel rounds p k star
      → Answers G (next p k star)

  backtrack-Answers :
      {fuel c : ℕ} {p k : List ℕ} (rounds : ℕ) (star : Star) (next : Round)
      → Answered fuel next
      → Invariant (suc fuel) rounds p (c ∷ k) star
      → ¬ Matches ic p (c ∷ k)
      → Answers G (backtrack next star)
  unfolding Answered
  backtrack-Answers rounds none next answered i mismatch = λ g. mismatch (i.fallback g)
  backtrack-Answers rounds (some (sp, [])) next answered i mismatch =
      absurd (omega (arith, i.fallback))
  backtrack-Answers zero (some (sp, x ∷ st)) next answered i mismatch =
      absurd (omega (arith, i.fallback))
  backtrack-Answers (suc rounds) (some (sp, x ∷ st)) next answered i mismatch =
      let (e, down, _, _, _) = i.fallback in
      answered rounds sp st (some (sp, st)) (
        from_star sp st
          (λ g. star_takes refl (e.0 g) (λ m. mismatch (down m)), λ m. e.1 (star_more refl m))
          (omega (arith, i.fallback)) (omega (arith, i.fallback))
          (omega (arith, i.fallback, i.enough)))

  step_over :
      {fuel rounds h c : ℕ} {p q k : List ℕ} (star : Star)
      → (h == 42) ≡ false
      → match_head ic h p c ≡ some q
      → Invariant (suc fuel) rounds (h ∷ p) (c ∷ k) star
      → Invariant fuel rounds q k star
  step_over {rounds = rounds} {h} {c} {p} {q} {k} star n e i = record {
    sound = λ m. i.sound (byte_step n e m);
    complete = λ g. after_star_byte ic c n e (i.complete g);
    fallback = moved star i.fallback;
    key_left = omega (arith, i.key_left);
    short = omega (arith, i.short, match_head-shorter ic h p c e);
    enough = omega (arith, i.enough, match_head-shorter ic h p c e);
  }
    where
      reached : Matches ic (h ∷ p) (c ∷ k) → Matches ic q k
      reached m =
          let (q', e', m') = byte_inv n m in
          let same : q' ≡ q = match_head-same ic h p c c e' e in rw (← same) m'

      moved : (star : Star) → Fallback rounds (h ∷ p) (c ∷ k) star → Fallback rounds q k star
      moved none f = λ g. reached (f g)
      moved (some (sp, st)) (e, down, le, rounds_left, short) =
          (e, λ m. reached (down m), omega arith, rounds_left, short)

  loop-Answers : (fuel : ℕ) → Answered fuel (match_loop ic fuel)
  unfolding match_loop Answered
  loop-Answers zero rounds p k star i = absurd (omega (arith, i.enough))
  loop-Answers (suc fuel) rounds p [] star i = elim (Bool-cases (is_empty (skip_stars p))) [
    | inl y ↦ rw y (i.sound ((only_stars ic p).0 y))
    | inr n ↦ rw n (λ g. let y = (only_stars ic p).1 (star_at_end refl (i.complete g)) in cc)
  ]
  loop-Answers (suc fuel) rounds [] (c ∷ k) star i =
      backtrack-Answers rounds star (match_loop ic fuel) (loop-Answers fuel) i no_pattern
  loop-Answers (suc fuel) rounds (h ∷ p) (c ∷ k) star i = elim (Bool-cases (h == 42)) [
    | inl y ↦
        let e : h ≡ 42 = ground arith in
        let q = skip_stars p in
        let (to, from) = skip_stars-Matches ic p (c ∷ k) in
        let le = length-skip_stars ic p in
        rw (y, Answers)
          (loop-Answers fuel rounds q (c ∷ k) (some (q, c ∷ k)) (
            from_star q (c ∷ k)
              (λ g. from (rw e at (two_stars refl e (i.complete g))), λ m. i.sound (rw e (to m)))
              i.key_left (omega (arith, le, i.short)) (omega (arith, le, i.enough))))
    | inr n ↦
        rw (n, Answers)
          (elim (Option-cases (match_head ic h p c)) [
            | inl none_left ↦
                rw (none_left, Answers)
                  (backtrack-Answers rounds star (match_loop ic fuel) (loop-Answers fuel) i
                    (λ m. let (q, e, m') = byte_inv n m in cc))
            | inr (q, e) ↦
                rw (e, Answers) (loop-Answers fuel rounds q k star (step_over star n e i))
          ])
  ]

-- For every pattern and every key, with or without regard to case, the matcher ends within `(length
-- key + 1) * (length pattern + 1)` rounds, and it answers true exactly when the pattern matches the
-- key: a star stands for any bytes, and each other token, a byte, an escape, a question mark or a
-- set of ranges, negated or not, for one byte that it accepts.
pub glob_match-Answers :
    (pattern key : List ℕ) (ignore_case : Bool)
    → Answers (Matches ignore_case pattern key) (glob_match pattern key ignore_case)
unfolding glob_match Answered
glob_match-Answers pattern key ignore_case =
    loop-Answers ignore_case (Matches ignore_case pattern key) (length pattern + 1)
      ((length key + 1) * (length pattern + 1)) (length key) pattern key none
      (record {
        sound = λ m. m;
        complete = λ m. star_done refl m;
        fallback = λ m. m;
        key_left = omega arith;
        short = omega arith;
        enough = omega arith;
      })
