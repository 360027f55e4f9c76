-- ===== src/Cluster/MergeSlots.antt =====
-- `merge_sender_slots` of wedb_cluster/src/config.rs, slot by slot.
use garnet_rust.Common.{
  ℕ, zero, suc, ◌+◌, ◌/◌, ◌%◌, ◌^◌, ◌<◌, ◌≡◌, refl, ap, ◌∙◌, inl, inr, List, Bool, true, false, leb,
  ◌==◌, ◌&&◌, ◌||◌, not, if◌then◌else◌, arith, Bool-cases, length, get_or, replicate,
  length-replicate, Option, none, some, get_elem?,
}
use native.Mathlib.Nat.{zero-div}
use garnet_rust.Common.Int.{ℤ, pos, negsuc, ltb_ℤ}
use garnet_rust.Cluster.Slot.{
  total_hash_slots, slot_words, SlotState, stable, importing, same_state, HashSlot, default_slot,
  SlotBitmap, is_set, test_bit,
}
use garnet_rust.Cluster.Slot
use garnet_rust.Cluster.BitmapLaws.{IsValid}
use garnet_rust.Cluster.Config.{
  Worker, ClusterConfig, slot_at, refused, is_zero, epoch_of, claim, given_up, set_all,
  get_worker_id_from_node_id, merge_sender_slots,
}
use garnet_rust.Cluster.MergeLaws.{
  among, taken, after_claims, set_all-IsValid, is_set-set_all, length-claim, claim-slot,
  reclaim-slot,
}

new-IsValid : IsValid Slot.new
unfolding Slot.new
new-IsValid = length-replicate slot_words (let z : ℕ = 0 in z)

get_or-replicate : (n i : ℕ) → let z : ℕ = 0 in get_or (replicate n z) i z ≡ z
get_or-replicate zero i = refl
get_or-replicate (suc n) zero = refl
get_or-replicate (suc n) (suc i) = get_or-replicate n i

is_set-new : (t : ℕ) → is_set Slot.new t ≡ false
unfolding is_set Slot.new
is_set-new t = elim (Bool-cases (leb total_hash_slots t)) [
  | inl y ↦ rw y
  | inr n ↦ rw (n, get_or-replicate slot_words (t / 64), zero-div (2 ^ (t % 64)))
]

-- The slots that the sender claims or is moving away.
claimed-lem :
    (ss ms : List ℕ) (t : ℕ)
    → t < total_hash_slots
    → is_set (set_all (set_all Slot.new ss) ms) t ≡ among t ms || among t ss
claimed-lem ss ms t lt =
    is_set-set_all (set_all Slot.new ss) ms t (set_all-IsValid Slot.new ss new-IsValid) lt
    ∙ (ap (λ b. among t ms || b)
          (is_set-set_all Slot.new ss t new-IsValid lt ∙ ap (λ b. among t ss || b) (is_set-new t))
        ∙ or_false (among t ms) (among t ss))
  where
    or_false : (a b : Bool) → (a || (b || false)) ≡ a || b
    or_false true b = refl
    or_false false true = refl
    or_false false false = refl

abbrev known_epoch : Option Worker → ℤ
known_epoch none = pos 0
known_epoch (some w) = w.config_epoch

-- A claim under an epoch other than 0 has to be above the epoch of the owner; one under 0 always wins.
abbrev outranked : ℤ → ℤ → Bool
outranked (pos zero) owner = false
outranked (pos (suc n)) (pos k) = leb (suc n) k
outranked (pos (suc n)) (negsuc k) = false
outranked (negsuc n) (pos k) = true
outranked (negsuc n) (negsuc k) = leb k n

refused-outranked :
    (workers : List Worker) (epoch : ℤ) (cur : HashSlot)
    → refused workers epoch cur ≡ outranked epoch (known_epoch (get_elem? workers cur.worker_id))
unfolding refused
refused-outranked workers epoch cur = below epoch (get_elem? workers cur.worker_id)
  where
    ranks : (e owner : ℤ) → (not (is_zero e) && not (ltb_ℤ owner e)) ≡ outranked e owner
    ranks (pos zero) owner = refl
    ranks (pos (suc n)) (pos k) = ground arith
    ranks (pos (suc n)) (negsuc k) = ground arith
    ranks (negsuc n) (pos k) = ground arith
    ranks (negsuc n) (negsuc k) = ground arith

    below :
        (e : ℤ) (w : Option Worker)
        → (not (is_zero e) && not (ltb_ℤ (epoch_of w) e)) ≡ outranked e (known_epoch w)
    below e none = ranks e (pos 0)
    below e (some w) = ranks e w.config_epoch

-- A slot after the merge of what a sender tells: what it claims is its own unless the owner is newer,
-- what it held and tells nothing of is free, and all else stays.
abbrev pub merged_slot : List Worker → ℕ → ℤ → List ℕ → List ℕ → ℕ → HashSlot → HashSlot
merged_slot workers sender epoch sender_slots migrating_slots s cur =
    if among s sender_slots
    then if outranked epoch (known_epoch (get_elem? workers cur.worker_id))
      then cur
      else taken sender
    else if (cur.worker_id == sender)
        && (same_state cur.state stable || same_state cur.state importing)
        && not (among s migrating_slots)
    then default_slot
    else cur

merged_lem :
    (workers : List Worker) (sender : ℕ) (epoch : ℤ) (ss ms : List ℕ) (b : SlotBitmap) (s : ℕ)
    (cur : HashSlot)
    → is_set b s ≡ among s ms || among s ss
    → let after = after_claims workers sender epoch (among s ss) cur in
      (if given_up sender b s after then default_slot else after)
      ≡ merged_slot workers sender epoch ss ms s cur
merged_lem workers sender epoch ss ms b s cur e = elim (Bool-cases (among s ss)) [
  | inl y ↦
      let kept = e ∙ ap (λ c. among s ms || c) y ∙ or_true (among s ms) in
      rw (y, kept, ← refused-outranked workers epoch cur)
        (elim (Bool-cases (refused workers epoch cur)) [
          | inl z ↦ rw (
            z,
            and_false (cur.worker_id == sender)
                (same_state cur.state stable || same_state cur.state importing),
          )
          | inr z ↦ rw (z, and_false (sender == sender) true)
        ])
  | inr n ↦ let told = e ∙ ap (λ c. among s ms || c) n ∙ or_false (among s ms) in rw (n, told)
]
  where
    or_true : (a : Bool) → (a || true) ≡ true
    or_true true = refl
    or_true false = refl

    or_false : (a : Bool) → (a || false) ≡ a
    or_false true = refl
    or_false false = refl

    and_false : (a c : Bool) → (a && c && false) ≡ false
    and_false true true = refl
    and_false true false = refl
    and_false false c = refl

-- In a configuration with all slots, the merge of what a known sender tells changes each slot as
-- follows: a slot that it claims becomes its own and stable, unless its own epoch is not 0 and the
-- epoch of the owner, 0 where there is none, is equal or above; a slot that it held as stable or as
-- the source of an import and neither claims nor is moving away becomes free; every other slot
-- stays.
pub slot_at-merge_sender_slots :
    (c : ClusterConfig) (sender_id : List ℕ) (sender_epoch : ℤ)
    (sender_slots migrating_slots : List ℕ)
    → length c.slot_map ≡ total_hash_slots
    → 0 < length sender_id
    → 0 < get_worker_id_from_node_id c sender_id
    → (s : ℕ) → s < total_hash_slots
    → slot_at (merge_sender_slots c sender_id sender_epoch sender_slots migrating_slots).0 s
      ≡ merged_slot c.workers
          (get_worker_id_from_node_id c sender_id)
          sender_epoch
          sender_slots
          migrating_slots
          s
          (slot_at c s)
unfolding merge_sender_slots
slot_at-merge_sender_slots c sender_id epoch ss ms len named known s lt =
    let sender = get_worker_id_from_node_id c sender_id in
    let b = set_all (set_all Slot.new ss) ms in
    let st = claim c.workers sender epoch ss (c.slot_map, false) in
    let go : ((length sender_id == 0) || (sender == 0)) ≡ false = ground arith in
    let n : length st.0 ≡ total_hash_slots =
      length-claim c.workers sender epoch ss (c.slot_map, false) ∙ len in
    let here : 0 + s ≡ s = omega arith in
    rw go (
      reclaim-slot sender b 0 s st.0 st.1 (omega (arith, n, lt))
      ∙ (ap
            (λ i.
              let cur = get_or st.0 s default_slot in
              if given_up sender b i cur then default_slot else cur)
            here
          ∙ (ap (λ cur. if given_up sender b s cur then default_slot else cur)
                (claim-slot c.workers sender epoch ss s c.slot_map false lt len)
              ∙ merged_lem c.workers sender epoch ss ms b s (slot_at c s)
                  (claimed-lem ss ms s lt))))
