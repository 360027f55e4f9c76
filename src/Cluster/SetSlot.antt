-- ===== src/Cluster/SetSlot.antt =====
-- wedb_cluster/src/manager.rs: CLUSTER SETSLOT with MIGRATING and IMPORTING, on the configuration that
-- the manager holds under its lock, so that each is one step.
use garnet_rust.Common.{
  ℕ, List, [], ◌∷◌, Option, none, some, Bool, false, leb, ◌==◌, not, if◌then◌else◌, get_elem?,
}
use garnet_rust.Common.Result.{Result, ok, err}
use garnet_rust.Cluster.Slot.{total_hash_slots, stable, migrating, importing, same_state}
use garnet_rust.Cluster.Config.{
  NodeRole, primary, unassigned, Worker, ClusterConfig, local_worker_id, id_of_worker,
  get_worker_id_from_node_id, get_owner_id_from_slot, get_node_id_from_slot, update_slot_state,
}
use garnet_rust.Cluster.Workers.{role_code}
use garnet_rust.Cluster.Routing.{same_named, is_local, get_state}

-- The errors of the two methods; the text of an invalid parameter is left out.
pub data Error : Type 0 where
  slot_out_of_range not_slot_owner : ℕ → Error
  unknown_node target_not_master slot_not_stable slot_already_importing : List ℕ → Error
  migrate_to_myself invalid_param : Error

abbrev pub role_of : Option Worker → NodeRole
role_of none = unassigned
role_of (some w) = w.role

abbrev pub local_node_role : ClusterConfig → NodeRole
local_node_role c = role_of (get_elem? c.workers local_worker_id)

abbrev pub local_node_id : ClusterConfig → Option (List ℕ)
local_node_id c = id_of_worker (get_elem? c.workers local_worker_id)

abbrev pub get_node_role_from_node_id : ClusterConfig → List ℕ → NodeRole
get_node_role_from_node_id c node_id =
    let idx = get_worker_id_from_node_id c node_id in
    if idx == 0 then unassigned else role_of (get_elem? c.workers idx)

abbrev pub is_primary_role : NodeRole → Bool
is_primary_role role = role_code role == role_code primary

-- The bytes of "unknown".
abbrev pub or_unknown : Option (List ℕ) → List ℕ
or_unknown none = 117 ∷ 110 ∷ 107 ∷ 110 ∷ 111 ∷ 119 ∷ 110 ∷ []
or_unknown (some id) = id

unfoldable pub try_prepare_slot_for_migration :
    ClusterConfig → ℕ → List ℕ → Result ClusterConfig Error
try_prepare_slot_for_migration c slot target_node_id =
    let target_worker_id = get_worker_id_from_node_id c target_node_id in
    if leb total_hash_slots slot
    then err (slot_out_of_range slot)
    else if target_worker_id == 0
    then err (unknown_node target_node_id)
    else if same_named (local_node_id c) (some target_node_id)
    then err migrate_to_myself
    else if not (is_primary_role (get_node_role_from_node_id c target_node_id))
    then err (target_not_master target_node_id)
    else if not (is_local c slot false)
    then err (not_slot_owner slot)
    else if not (same_state (get_state c slot) stable)
    then err (slot_not_stable (or_unknown (get_owner_id_from_slot c slot)))
    else ok (update_slot_state c slot target_worker_id migrating)

unfoldable pub try_prepare_slot_for_import : ClusterConfig → ℕ → List ℕ → Result ClusterConfig Error
try_prepare_slot_for_import c slot source_node_id =
    let source_worker_id = get_worker_id_from_node_id c source_node_id in
    if leb total_hash_slots slot
    then err (slot_out_of_range slot)
    else if source_worker_id == 0
    then err (unknown_node source_node_id)
    else if not (is_primary_role (local_node_role c))
    then err invalid_param
    else if is_local c slot false
    then err invalid_param
    else if not (same_named (get_node_id_from_slot c slot) (some source_node_id))
    then err invalid_param
    else if not (same_state (get_state c slot) stable)
    then err (slot_already_importing source_node_id)
    else ok (update_slot_state c slot source_worker_id importing)
