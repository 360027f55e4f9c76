-- ===== src/Cluster/SetSlotLaws.antt =====
-- What a configuration is once wedb_cluster/src/manager.rs has set a slot to migrate or to be imported.
use garnet_rust.Common.{
  ℕ, ◌+◌, ◌≤◌, ◌<◌, ◌≡◌, refl, sym, inl, inr, List, [], ◌∷◌, Option, none, some, Bool, true, false,
  not, leb, ltb, ◌==◌, if◌then◌else◌, arith, Bool-cases, length, get_elem?, drop, Option-cases,
  get_or-set_same, get_or-set_other,
}
use garnet_rust.Common.Result.{Result, ok, err}
use garnet_rust.Cluster.Slot.{
  total_hash_slots, SlotState, default_slot, stable, same_state, migrating, importing,
}
use garnet_rust.Cluster.Config.{
  replica, Worker, ClusterConfig, local_worker_id, slot_at, or_zero, id_of_worker,
  get_node_id_from_slot, same_id, has_id, index_of, get_worker_id_from_node_id, update_slot_state,
}
use garnet_rust.Cluster.Routing.{has_role, is_replica, same_named, is_local, get_state}
use garnet_rust.Cluster.SetSlot.{
  local_node_id, local_node_role, get_node_role_from_node_id, role_of, is_primary_role,
  try_prepare_slot_for_migration, try_prepare_slot_for_import,
}

ok-same : {A E : Type 0} {a b : A} → Path (Result A E) (ok a) (ok b) → a ≡ b
ok-same e = ground arith

-- A guard that lets through did not hold.
guard-ok :
    {A E : Type 0} (b : Bool) (e : E) {r : Result A E} {a : A}
    → (if b then err e else r) ≡ ok a
    → (b ≡ false) × (r ≡ ok a)
guard-ok true e h = cc
guard-ok false e h = (refl, h)

index_of-ge :
    (p : List ℕ → Bool) (i : ℕ) (ws : List Worker) {j : ℕ} → index_of p i ws ≡ some j → i ≤ j
index_of-ge p i [] e = cc
index_of-ge p i (w ∷ ws) e = elim (Bool-cases (has_id p w)) [
  | inl y ↦ let e' = rw y at e in ground arith
  | inr n ↦ let e' = rw n at e in omega (arith, index_of-ge p (i + 1) ws e')
]

pub slot_at-update :
    (c : ClusterConfig) (slot wid : ℕ) (state : SlotState)
    → length c.slot_map ≡ total_hash_slots
    → slot < total_hash_slots
    → slot_at (update_slot_state c slot wid state) slot ≡ record { worker_id = wid; state = state }
slot_at-update c slot wid state len lt =
    let inside : ltb slot total_hash_slots ≡ true = ground arith in
    rw inside (get_or-set_same c.slot_map slot _ default_slot (omega (arith, len)))

pub slot_at-update_other :
    (c : ClusterConfig) (slot wid : ℕ) (state : SlotState) (other : ℕ)
    → (slot == other) ≡ false
    → slot_at (update_slot_state c slot wid state) other ≡ slot_at c other
slot_at-update_other c slot wid state other apart = elim (Bool-cases (ltb slot total_hash_slots)) [
  | inl y ↦ rw y (get_or-set_other c.slot_map slot other _ default_slot apart)
  | inr n ↦ rw n
]

-- A node of another identity than the local one has another index.
first-other :
    (ws : List Worker) (id : List ℕ)
    → same_named (id_of_worker (get_elem? ws 1)) (some id) ≡ false
    → (or_zero (index_of (λ i. same_id i id) 1 (drop 1 ws)) == 1) ≡ false
first-other [] id e = refl
first-other (w ∷ []) id e = refl
first-other (w ∷ v ∷ ws) id e = elim (Option-cases v.node_id) [
  | inl none_there ↦
      rw none_there (later (index_of (λ i. same_id i id) 2 ws) (λ j f. index_of-ge _ 2 ws f))
  | inr (mine, there) ↦
      let differ : same_id mine id ≡ false = rw there at e in
      rw (there, differ) (later (index_of (λ i. same_id i id) 2 ws) (λ j f. index_of-ge _ 2 ws f))
]
  where
    later : (r : Option ℕ) → ((j : ℕ) → r ≡ some j → 2 ≤ j) → (or_zero r == 1) ≡ false
    later none f = refl
    later (some j) f = let le = f j refl in ground (arith, le)

pub not_local :
    (c : ClusterConfig) (id : List ℕ)
    → same_named (local_node_id c) (some id) ≡ false
    → (get_worker_id_from_node_id c id == local_worker_id) ≡ false
unfolding get_worker_id_from_node_id
not_local c id e = first-other c.workers id e

not_replica : (w : Option Worker) → is_primary_role (role_of w) ≡ true → has_role replica w ≡ false
not_replica none e = refl
not_replica (some w) e = ground arith

not-false : (b : Bool) → not b ≡ false → b ≡ true
not-false true e = refl
not-false false e = cc

-- What a slot and the configuration are once the slot has been set to migrate, and to be imported.
pub prepared_migration :
    (c : ClusterConfig) (slot : ℕ) (target_id : List ℕ) {c' : ClusterConfig}
    → try_prepare_slot_for_migration c slot target_id ≡ ok c'
    → (slot < total_hash_slots)
      × ((get_worker_id_from_node_id c target_id == local_worker_id) ≡ false)
      × (c' ≡ update_slot_state c slot (get_worker_id_from_node_id c target_id) migrating)
unfolding try_prepare_slot_for_migration
prepared_migration c slot target_id e =
    let (inside, e1) = guard-ok (leb total_hash_slots slot) _ e in
    let (known, e2) = guard-ok (get_worker_id_from_node_id c target_id == 0) _ e1 in
    let (another, e3) = guard-ok (same_named (local_node_id c) (some target_id)) _ e2 in
    let (role, e4) =
      guard-ok (not (is_primary_role (get_node_role_from_node_id c target_id))) _ e3 in
    let (here, e5) = guard-ok (not (is_local c slot false)) _ e4 in
    let (free, e6) = guard-ok (not (same_state (get_state c slot) stable)) _ e5 in
    (ground arith, not_local c target_id another, sym (ok-same e6))

pub prepared_import :
    (c : ClusterConfig) (slot : ℕ) (source_id : List ℕ) {c' : ClusterConfig}
    → try_prepare_slot_for_import c slot source_id ≡ ok c'
    → (is_replica c ≡ false)
      × (c' ≡ update_slot_state c slot (get_worker_id_from_node_id c source_id) importing)
unfolding try_prepare_slot_for_import
prepared_import c slot source_id e =
    let (inside, e1) = guard-ok (leb total_hash_slots slot) _ e in
    let (known, e2) = guard-ok (get_worker_id_from_node_id c source_id == 0) _ e1 in
    let (role, e3) = guard-ok (not (is_primary_role (local_node_role c))) _ e2 in
    let (away, e4) = guard-ok (is_local c slot false) _ e3 in
    let (owned, e5) =
      guard-ok (not (same_named (get_node_id_from_slot c slot) (some source_id))) _ e4 in
    let (free, e6) = guard-ok (not (same_state (get_state c slot) stable)) _ e5 in
    (
      not_replica (get_elem? c.workers local_worker_id)
          (not-false (is_primary_role (local_node_role c)) role),
      sym (ok-same e6),
    )
