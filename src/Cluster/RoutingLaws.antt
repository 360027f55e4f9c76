-- ===== src/Cluster/RoutingLaws.antt =====
-- The routes of wedb_cluster/src/migration.rs once wedb_cluster/src/manager.rs has set a slot to migrate.
use garnet_rust.Common.{
  ℕ, ◌<◌, ◌≡◌, refl, ◌∙◌, inl, inr, List, ◌∷◌, ◌++◌, some, Bool, true, false, leb, ltb, ◌==◌, ◌&&◌,
  ◌||◌, arith, Bool-cases, bytes_eq, length,
}
use garnet_rust.Common.Result.{ok}
use garnet_rust.Cluster.Slot.{total_hash_slots, SlotState, migrating, importing}
use garnet_rust.Cluster.Config.{
  ClusterConfig, unassigned_address, local_worker_id, slot_at, get_worker_id_from_node_id,
  update_slot_state,
}
use garnet_rust.Cluster.Routing
use garnet_rust.Cluster.Routing.{
  RouteResult, moved, ask, cross_slot, cluster_down, has_role, is_replica, same_named,
  get_worker_address, owner_to_ask, make_endpoint_route, is_local, get_state, local_route,
  remote_route, route_slot_ext,
}
use garnet_rust.Cluster.SetSlot.{
  local_node_id, try_prepare_slot_for_migration, try_prepare_slot_for_import,
}
use garnet_rust.Cluster.SetSlotLaws.{
  slot_at-update, slot_at-update_other, not_local, prepared_migration, prepared_import,
}

-- The node serves the request itself.
abbrev pub serves : RouteResult → Bool
serves (Routing.ok slot) = true
serves (moved slot endpoint) = false
serves (ask slot endpoint) = false
serves cross_slot = false
serves cluster_down = false

leads-update :
    (c : ClusterConfig) (slot wid : ℕ) (state : SlotState)
    → is_replica (update_slot_state c slot wid state) ≡ is_replica c
leads-update c slot wid state = elim (Bool-cases (ltb slot total_hash_slots)) [
  | inl y ↦ rw y
  | inr n ↦ rw n
]

-- A slot that a primary imports is not its own, for whatever session.
elsewhere :
    (c : ClusterConfig) (slot wid : ℕ) (read_only : Bool)
    → slot_at c slot ≡ record { worker_id = wid; state = importing }
    → (wid == local_worker_id) ≡ false
    → is_replica c ≡ false
    → is_local c slot read_only ≡ false
unfolding is_local
elsewhere c slot wid read_only at away leads = elim (Bool-cases (leb total_hash_slots slot)) [
  | inl y ↦ rw y
  | inr n ↦ rw (n, at, away, leads, no_read read_only)
]
  where
    no_read : (b : Bool) → (b && false) ≡ false
    no_read true = refl
    no_read false = refl

importing_there :
    (c : ClusterConfig) (slot wid : ℕ)
    → slot < total_hash_slots
    → slot_at c slot ≡ record { worker_id = wid; state = importing }
    → get_state c slot ≡ importing
unfolding get_state
importing_there c slot wid lt at =
    let inside : leb total_hash_slots slot ≡ false = ground arith in rw (inside, at)

module _ (format : ℕ → List ℕ) where
  redirect-serves :
      (c : ClusterConfig) (wid slot : ℕ) (ctor : ℕ → List ℕ → RouteResult)
      → ((e : List ℕ) → serves (ctor slot e) ≡ false)
      → serves (make_endpoint_route format c wid slot ctor) ≡ false
  unfolding make_endpoint_route
  redirect-serves c wid slot ctor h =
      let (ip, port) = get_worker_address c wid in
      elim (Bool-cases (wid == 0)) [
        | inl y ↦ rw y
        | inr n ↦
            elim (Bool-cases (
              bytes_eq (get_worker_address c wid).0 unassigned_address
              || ((get_worker_address c wid).1 == 0))) [
                | inl y ↦ rw (n, y)
                | inr m ↦
                    rw (n, m)
                      (h ((get_worker_address c wid).0 ++ 58 ∷ format (get_worker_address c wid).1))
              ]
      ]

  migrating-serves :
      (c : ClusterConfig) (slot wid : ℕ) (asking exists read_only : Bool)
      → slot < total_hash_slots
      → slot_at c slot ≡ record { worker_id = wid; state = migrating }
      → (wid == local_worker_id) ≡ false
      → serves (route_slot_ext format c slot asking exists read_only) ≡ exists
  unfolding route_slot_ext is_local get_state
  migrating-serves c slot wid asking exists read_only lt at away =
      let inside : leb total_hash_slots slot ≡ false = ground arith in
      rw (inside, at, away) (kept exists)
    where
      kept : (b : Bool) → serves (local_route format c slot b migrating) ≡ b
      kept true = refl
      kept false = redirect-serves c (slot_at c slot).worker_id slot ask (λ e. refl)

  importing-serves :
      (c : ClusterConfig) (slot wid : ℕ) (asking exists read_only : Bool)
      → slot < total_hash_slots
      → slot_at c slot ≡ record { worker_id = wid; state = importing }
      → (wid == local_worker_id) ≡ false
      → is_replica c ≡ false
      → serves (route_slot_ext format c slot asking exists read_only) ≡ asking
  unfolding route_slot_ext
  importing-serves c slot wid asking exists read_only lt at away leads =
      rw (elsewhere c slot wid read_only at away leads, importing_there c slot wid lt at)
        (sent asking)
    where
      sent : (b : Bool) → serves (remote_route format c slot b importing) ≡ b
      sent true = refl
      sent false = redirect-serves c (owner_to_ask c slot) slot moved (λ e. refl)

  -- Once CLUSTER SETSLOT MIGRATING has succeeded at one node and IMPORTING at another, which does
  -- not have the identity of the named source, both with all slots, every request of every session,
  -- read-only or not, is served by the source exactly when it still has the key and by the importing
  -- node exactly when it comes with ASKING; so none without ASKING is served by both. No other slot
  -- has changed at either.
  pub route_slot_ext-prepared :
      (source target : ClusterConfig) (slot : ℕ) (source_id target_id : List ℕ)
      (source' target' : ClusterConfig)
      → length source.slot_map ≡ total_hash_slots
      → length target.slot_map ≡ total_hash_slots
      → same_named (local_node_id target) (some source_id) ≡ false
      → try_prepare_slot_for_migration source slot target_id ≡ ok source'
      → try_prepare_slot_for_import target slot source_id ≡ ok target'
      → (asking exists exists' read_only : Bool) (other : ℕ) → (slot == other) ≡ false
      → (serves (route_slot_ext format source' slot asking exists read_only) ≡ exists)
        × (serves (route_slot_ext format target' slot asking exists' read_only) ≡ asking)
        × (slot_at source' other ≡ slot_at source other)
        × (slot_at target' other ≡ slot_at target other)
  route_slot_ext-prepared source target slot source_id target_id source' target' ns nt differ es et
        asking exists exists' read_only other apart =
      let (lt, away, e) = prepared_migration source slot target_id es in
      let (leads, f) = prepared_import target slot source_id et in
      let t = get_worker_id_from_node_id source target_id in
      let s = get_worker_id_from_node_id target source_id in
      rw (e, f)
        (
          migrating-serves (update_slot_state source slot t migrating) slot t asking exists
              read_only lt (slot_at-update source slot t migrating ns lt) away,
          importing-serves (update_slot_state target slot s importing) slot s asking exists'
              read_only lt (slot_at-update target slot s importing nt lt)
              (not_local target source_id differ) (leads-update target slot s importing ∙ leads),
          slot_at-update_other source slot t migrating other apart,
          slot_at-update_other target slot s importing other apart,
        )
