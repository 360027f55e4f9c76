-- ===== src/Cluster/Routing.antt =====
-- wedb_cluster/src/migration.rs: where a request for a key goes. The printing of a number (`Buffer` of
-- the crate itoa) and `memchr` are arguments.
use garnet_rust.Common.{
  ℕ, List, ◌∷◌, ◌++◌, Option, none, some, Bool, true, false, ltb, leb, ◌==◌, ◌&&◌, ◌||◌, not,
  if◌then◌else◌, get_elem?, bytes_eq,
}
use garnet_rust.Cluster.Slot.{
  total_hash_slots, SlotState, offline, stable, migrating, importing, fail, node, invalid,
  same_state, effective_worker_id, hash_slot,
}
use garnet_rust.Cluster.Config.{
  NodeRole, replica, Worker, unassigned_address, ClusterConfig, local_worker_id, same_id, slot_at,
  id_of_worker, get_worker_id_from_node_id,
}
use garnet_rust.Cluster.Workers.{role_code}

pub data RouteResult : Type 0 where
  ok : ℕ → RouteResult
  moved : ℕ → List ℕ → RouteResult
  ask : ℕ → List ℕ → RouteResult
  cross_slot : RouteResult
  cluster_down : RouteResult

abbrev pub has_role : NodeRole → Option Worker → Bool
has_role role none = false
has_role role (some w) = role_code w.role == role_code role

abbrev pub is_replica : ClusterConfig → Bool
is_replica c = has_role replica (get_elem? c.workers local_worker_id)

abbrev pub primary_of : Option Worker → Option (List ℕ)
primary_of none = none
primary_of (some w) = w.replica_of_node_id

abbrev pub local_node_primary_id : ClusterConfig → Option (List ℕ)
local_node_primary_id c = primary_of (get_elem? c.workers local_worker_id)

abbrev pub same_named : Option (List ℕ) → Option (List ℕ) → Bool
same_named none b = false
same_named (some a) none = false
same_named (some a) (some b) = same_id a b

unfoldable pub is_local : ClusterConfig → ℕ → Bool → Bool
is_local c slot allow_replica_read =
    let item = slot_at c slot in
    if leb total_hash_slots slot
    then false
    else if item.worker_id == local_worker_id
    then not (is_replica c && not allow_replica_read)
    else if same_state item.state migrating
    then true
    else if allow_replica_read && is_replica c && ltb local_worker_id item.worker_id
    then same_named (id_of_worker (get_elem? c.workers item.worker_id)) (local_node_primary_id c)
    else false

unfoldable pub get_state : ClusterConfig → ℕ → SlotState
get_state c slot = if leb total_hash_slots slot then invalid else (slot_at c slot).state

abbrev pub address_of : Option Worker → List ℕ × ℕ
address_of none = (unassigned_address, 0)
address_of (some w) = (w.address, w.port)

abbrev pub get_worker_address : ClusterConfig → ℕ → List ℕ × ℕ
get_worker_address c worker_id = address_of (get_elem? c.workers worker_id)

-- The owner that a replica points at is its primary, where it knows it.
abbrev pub known_or : ℕ → ℕ → ℕ
known_or owner p_wid = if ltb 0 p_wid then p_wid else owner

abbrev pub through_primary : ClusterConfig → ℕ → Option (List ℕ) → ℕ
through_primary c owner none = owner
through_primary c owner (some pri_id) = known_or owner (get_worker_id_from_node_id c pri_id)

abbrev pub owner_to_ask : ClusterConfig → ℕ → ℕ
owner_to_ask c slot =
    let owner = effective_worker_id (slot_at c slot) in
    if (owner == local_worker_id) && is_replica c
    then through_primary c owner (local_node_primary_id c)
    else owner

module _ (format : ℕ → List ℕ) where
  unfoldable pub make_endpoint_route :
      ClusterConfig → ℕ → ℕ → (ℕ → List ℕ → RouteResult) → RouteResult
  make_endpoint_route c wid slot ctor =
      let (ip, port) = get_worker_address c wid in
      if wid == 0
      then cluster_down
      else if bytes_eq ip unassigned_address || (port == 0)
      then cluster_down
      else ctor slot (ip ++ 58 ∷ format port)

  -- The route at a slot of this node.
  abbrev pub local_route : ClusterConfig → ℕ → Bool → SlotState → RouteResult
  local_route c slot exists stable = ok slot
  local_route c slot exists migrating =
      if exists then ok slot else make_endpoint_route c (slot_at c slot).worker_id slot ask
  local_route c slot exists offline = cluster_down
  local_route c slot exists importing = cluster_down
  local_route c slot exists fail = cluster_down
  local_route c slot exists node = cluster_down
  local_route c slot exists invalid = cluster_down

  abbrev pub remote_route : ClusterConfig → ℕ → Bool → SlotState → RouteResult
  remote_route c slot is_asking importing =
      if is_asking then ok slot else make_endpoint_route c (owner_to_ask c slot) slot moved
  remote_route c slot is_asking stable = make_endpoint_route c (owner_to_ask c slot) slot moved
  remote_route c slot is_asking offline = cluster_down
  remote_route c slot is_asking migrating = cluster_down
  remote_route c slot is_asking fail = cluster_down
  remote_route c slot is_asking node = cluster_down
  remote_route c slot is_asking invalid = cluster_down

  unfoldable pub route_slot_ext : ClusterConfig → ℕ → Bool → Bool → Bool → RouteResult
  unfolding is_local get_state make_endpoint_route
  route_slot_ext c slot is_asking key_exists_locally read_only =
      if is_local c slot read_only
      then local_route c slot key_exists_locally (get_state c slot)
      else remote_route c slot is_asking (get_state c slot)

  abbrev pub route_request_ext :
      (ℕ → List ℕ → Option ℕ) → ClusterConfig → List ℕ → Bool → Bool → Bool → RouteResult
  route_request_ext memchr c key is_asking key_exists_locally read_only =
      route_slot_ext c (hash_slot memchr key) is_asking key_exists_locally read_only

  abbrev pub route_request :
      (ℕ → List ℕ → Option ℕ) → ClusterConfig → List ℕ → Bool → Bool → RouteResult
  route_request memchr c key is_asking key_exists_locally =
      route_request_ext memchr c key is_asking key_exists_locally false
