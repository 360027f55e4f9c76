-- ===== src/Cluster/MergeLaws.antt =====
-- What `merge_sender_slots` of wedb_cluster/src/config.rs does to each slot.
use garnet_rust.Common.{
  ℕ, zero, suc, ◌+◌, ◌<◌, ◌≡◌, refl, ap, ap₂, ◌∙◌, inl, inr, List, [], ◌∷◌, Bool, true, false, ltb,
  leb, ◌==◌, ◌&&◌, ◌||◌, not, if◌then◌else◌, arith, Bool-cases, ==_iff, length, get_or, any,
  length-set, get_or-set_same, get_or-set_other,
}
use garnet_rust.Common.Int.{ℤ}
use garnet_rust.Cluster.Slot.{
  total_hash_slots, SlotState, stable, importing, migrating, offline, fail, node, invalid,
  same_state, HashSlot, default_slot, SlotBitmap, set_slot, is_set,
}
use garnet_rust.Cluster.BitmapLaws.{IsValid, set_slot-IsValid, is_set-set_slot}
use garnet_rust.Cluster.Config.{Worker, refused, claim_at, claim, given_up, reclaim, set_all}

-- A slot is in a list of slots.
abbrev pub among : ℕ → List ℕ → Bool
among s ss = any (λ t. t == s) ss

pub set_all-IsValid : (b : SlotBitmap) (ss : List ℕ) → IsValid b → IsValid (set_all b ss)
unfolding set_all
set_all-IsValid b [] v = v
set_all-IsValid b (s ∷ ss) v = set_all-IsValid (set_slot b s) ss (set_slot-IsValid b s v)

in_range : (s t : ℕ) → t < total_hash_slots → (ltb s total_hash_slots && (s == t)) ≡ (s == t)
in_range s t lt = ground arith

or_shift : (a b c : Bool) → (a || (b || c)) ≡ ((b || a) || c)
or_shift true true c = refl
or_shift true false c = refl
or_shift false true c = refl
or_shift false false c = refl

pub is_set-set_all :
    (b : SlotBitmap) (ss : List ℕ) (t : ℕ)
    → IsValid b
    → t < total_hash_slots
    → is_set (set_all b ss) t ≡ among t ss || is_set b t
unfolding set_all
is_set-set_all b [] t v lt = refl
is_set-set_all b (s ∷ ss) t v lt =
    is_set-set_all (set_slot b s) ss t (set_slot-IsValid b s v) lt
    ∙ (ap (λ c. among t ss || c)
          (is_set-set_slot b s t v ∙ ap (λ c. c || is_set b t) (in_range s t lt))
        ∙ or_shift (among t ss) (s == t) (is_set b t))

abbrev pub taken : ℕ → HashSlot
taken sender = record { worker_id = sender; state = stable }

-- A slot after the claims.
abbrev pub after_claims : List Worker → ℕ → ℤ → Bool → HashSlot → HashSlot
after_claims workers sender epoch claims cur =
    if claims && not (refused workers epoch cur) then taken sender else cur

already_taken :
    (sender : ℕ) (cur : HashSlot)
    → (not (cur.worker_id == sender) || not (same_state cur.state stable)) ≡ false
    → cur ≡ taken sender
already_taken sender cur e = elim (Bool-cases (cur.worker_id == sender)) [
  | inr n ↦ let f = rw n at e in cc
  | inl y ↦
      let s = is_stable cur.state (rw y at e) in
      ap₂ (λ w st. let h : HashSlot = record { worker_id = w; state = st } in h)
        ((==_iff cur.worker_id sender).0 y) s
]
  where
    is_stable : (st : SlotState) → not (same_state st stable) ≡ false → st ≡ stable
    is_stable stable e = refl
    is_stable offline e = cc
    is_stable migrating e = cc
    is_stable importing e = cc
    is_stable fail e = cc
    is_stable node e = cc
    is_stable invalid e = cc

module _ (workers : List Worker) (sender : ℕ) (epoch : ℤ) where
  length-claim_at :
      (s : ℕ) (slots : List HashSlot) (u : Bool)
      → length (claim_at workers sender epoch s (slots, u)).0 ≡ length slots
  length-claim_at s slots u =
      let cur = get_or slots s default_slot in
      elim (Bool-cases (leb total_hash_slots s)) [
        | inl y ↦ rw y
        | inr n ↦ elim (Bool-cases (refused workers epoch cur)) [
          | inl y ↦ rw (n, y)
          | inr m ↦
              elim (Bool-cases
                (not (cur.worker_id == sender) || not (same_state cur.state stable))) [
                  | inl y ↦ rw (n, m, y) (length-set slots s (taken sender))
                  | inr k ↦ rw (n, m, k)
                ]
        ]
      ]

  claim_at-other :
      (s t : ℕ) (slots : List HashSlot) (u : Bool)
      → (s == t) ≡ false
      → get_or (claim_at workers sender epoch s (slots, u)).0 t default_slot
        ≡ get_or slots t default_slot
  claim_at-other s t slots u other =
      let cur = get_or slots s default_slot in
      elim (Bool-cases (leb total_hash_slots s)) [
        | inl y ↦ rw y
        | inr n ↦ elim (Bool-cases (refused workers epoch cur)) [
          | inl y ↦ rw (n, y)
          | inr m ↦
              elim (Bool-cases
                (not (cur.worker_id == sender) || not (same_state cur.state stable))) [
                  | inl y ↦
                      rw (n, m, y) (get_or-set_other slots s t (taken sender) default_slot other)
                  | inr k ↦ rw (n, m, k)
                ]
        ]
      ]

  claim_at-same :
      (t : ℕ) (slots : List HashSlot) (u : Bool)
      → t < total_hash_slots
      → length slots ≡ total_hash_slots
      → get_or (claim_at workers sender epoch t (slots, u)).0 t default_slot
        ≡ after_claims workers sender epoch true (get_or slots t default_slot)
  claim_at-same t slots u lt len =
      let cur = get_or slots t default_slot in
      let n : leb total_hash_slots t ≡ false = ground arith in
      elim (Bool-cases (refused workers epoch cur)) [
        | inl y ↦ rw (n, y)
        | inr m ↦
            elim (Bool-cases (not (cur.worker_id == sender) || not (same_state cur.state stable))) [
              | inl y ↦
                  rw (n, m, y)
                    (get_or-set_same slots t (taken sender) default_slot (omega (arith, lt, len)))
              | inr k ↦ rw (n, m, k) (already_taken sender cur k)
            ]
      ]

  claim_at-slot :
      (s t : ℕ) (slots : List HashSlot) (u : Bool)
      → t < total_hash_slots
      → length slots ≡ total_hash_slots
      → get_or (claim_at workers sender epoch s (slots, u)).0 t default_slot
        ≡ after_claims workers sender epoch (s == t) (get_or slots t default_slot)
  claim_at-slot s t slots u lt len = elim (Bool-cases (s == t)) [
    | inr n ↦ rw n (claim_at-other s t slots u n)
    | inl y ↦ let e = (==_iff s t).0 y in rw (y, e) (claim_at-same t slots u lt len)
  ]

  -- Claims in a row are one claim.
  after_claims-twice :
      (a b : Bool) (cur : HashSlot)
      → after_claims workers sender epoch b (after_claims workers sender epoch a cur)
        ≡ after_claims workers sender epoch (a || b) cur
  after_claims-twice false b cur = refl
  after_claims-twice true b cur = elim (Bool-cases (refused workers epoch cur)) [
    | inl y ↦ rw y (elim (Bool-cases b) [ inl z ↦ rw (z, y) | inr z ↦ rw z ])
    | inr n ↦ rw n (elim (Bool-cases (b && not (refused workers epoch (taken sender)))) [
      | inl z ↦ rw z
      | inr z ↦ rw z
    ])
  ]

  pub length-claim :
      (ss : List ℕ) (st : List HashSlot × Bool)
      → length (claim workers sender epoch ss st).0 ≡ length st.0
  unfolding claim
  length-claim [] st = refl
  length-claim (s ∷ ss) (slots, u) =
      length-claim ss (claim_at workers sender epoch s (slots, u)) ∙ length-claim_at s slots u

  pub claim-slot :
      (ss : List ℕ) (t : ℕ) (slots : List HashSlot) (u : Bool)
      → t < total_hash_slots
      → length slots ≡ total_hash_slots
      → get_or (claim workers sender epoch ss (slots, u)).0 t default_slot
        ≡ after_claims workers sender epoch (among t ss) (get_or slots t default_slot)
  unfolding claim
  claim-slot [] t slots u lt len = refl
  claim-slot (s ∷ ss) t slots u lt len =
      let st = claim_at workers sender epoch s (slots, u) in
      claim-slot ss t st.0 st.1 lt (length-claim_at s slots u ∙ len)
      ∙ (ap (after_claims workers sender epoch (among t ss)) (claim_at-slot s t slots u lt len)
          ∙ after_claims-twice (s == t) (among t ss) (get_or slots t default_slot))

pub reclaim-slot :
    (sender : ℕ) (b : SlotBitmap) (from i : ℕ) (slots : List HashSlot) (u : Bool)
    → i < length slots
    → let cur = get_or slots i default_slot in
      get_or (reclaim sender b from (slots, u)).0 i default_slot
      ≡ (if given_up sender b (from + i) cur then default_slot else cur)
unfolding reclaim
reclaim-slot sender b from i [] u lt = absurd (omega (arith, lt))
reclaim-slot sender b from zero (cur ∷ slots) u lt =
    let here : from + 0 ≡ from = omega arith in
    rw here (elim (Bool-cases (given_up sender b from cur)) [ inl y ↦ rw y | inr n ↦ rw n ])
reclaim-slot sender b from (suc i) (cur ∷ slots) u lt =
    let next : from + suc i ≡ from + 1 + i = omega arith in
    let ih = reclaim-slot sender b (from + 1) i slots u (omega (arith, lt)) in
    rw next (elim (Bool-cases (given_up sender b from cur)) [ inl y ↦ rw y ih | inr n ↦ rw n ih ])
