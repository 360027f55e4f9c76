-- ===== src/Cluster/Config.antt =====
-- wedb_cluster/src/config.rs and worker.rs: the configuration of a cluster as a node sees it, its queries
-- and the merging of what other nodes tell. Identities and addresses are bytes; indices of workers stay
-- below 2 ^ 16, so their casts to `u16` keep them.
use garnet_rust.Common.{
  ℕ, zero, suc, ◌+◌, ◌-◌, List, [], ◌∷◌, ◌++◌, Option, none, some, Bool, true, false, ltb, leb,
  ◌==◌, ◌&&◌, ◌||◌, not, if◌then◌else◌, length, get_elem?, get_or, set, drop, take, map, any,
  replicate, bytes_eq,
}
use garnet_rust.Common.Int.{ℤ, pos, negsuc, ltb_ℤ}
use garnet_rust.Glob.{to_ascii_lowercase}
use garnet_rust.Cluster.Slot.{
  total_hash_slots, SlotState, offline, stable, migrating, importing, same_state, HashSlot,
  default_slot, effective_worker_id, SlotBitmap, set_slot, is_set,
}
use garnet_rust.Cluster.Slot

pub data NodeRole : Type 0 where
  primary : NodeRole
  replica : NodeRole
  unassigned : NodeRole

pub data LinkState : Type 0 where
  connected : LinkState
  disconnected : LinkState

pub record Worker : Type 0 where
  pub node_id : Option (List ℕ)
  pub address : List ℕ
  pub port : ℕ
  pub config_epoch : ℤ
  pub role : NodeRole
  pub replica_of_node_id : Option (List ℕ)
  pub replication_offset : ℤ
  pub hostname : Option (List ℕ)
  pub link_state : LinkState
  pub is_pfail : Bool
  pub is_fail : Bool
  pub handshake : Bool

-- The bytes of "unassigned".
abbrev pub unassigned_address : List ℕ
unassigned_address = 117 ∷ 110 ∷ 97 ∷ 115 ∷ 115 ∷ 105 ∷ 103 ∷ 110 ∷ 101 ∷ 100 ∷ []

abbrev pub unassigned_worker : Worker
unassigned_worker = record {
  node_id = none;
  address = unassigned_address;
  port = 0;
  config_epoch = pos 0;
  role = unassigned;
  replica_of_node_id = none;
  replication_offset = pos 0;
  hostname = none;
  link_state = connected;
  is_pfail = false;
  is_fail = false;
  handshake = false;
}

pub record ClusterConfig : Type 0 where
  pub slot_map : List HashSlot
  pub workers : List Worker

abbrev pub local_worker_id : ℕ
local_worker_id = 1

-- The bytes of "127.0.0.1".
abbrev pub local_address : List ℕ
local_address = 49 ∷ 50 ∷ 55 ∷ 46 ∷ 48 ∷ 46 ∷ 48 ∷ 46 ∷ 49 ∷ []

unfoldable pub new : ClusterConfig
new = record {
  slot_map = replicate total_hash_slots default_slot;
  workers = unassigned_worker ∷ record unassigned_worker { address = local_address } ∷ [];
}

abbrev pub num_workers : ClusterConfig → ℕ
num_workers c = length c.workers - 1

abbrev pub has_assigned_slots : ClusterConfig → ℕ → Bool
has_assigned_slots c worker_id = any (λ slot. effective_worker_id slot == worker_id) c.slot_map

-- `eq_ignore_ascii_case`
abbrev pub same_id : List ℕ → List ℕ → Bool
same_id a b = bytes_eq (map to_ascii_lowercase a) (map to_ascii_lowercase b)

abbrev pub has_id : (List ℕ → Bool) → Worker → Bool
has_id p w = elim w.node_id [ none ↦ false | some id ↦ p id ]

-- The first index from `i` on of a worker whose identity passes the test.
abbrev pub index_of : (List ℕ → Bool) → ℕ → List Worker → Option ℕ
index_of p i [] = none
index_of p i (w ∷ ws) = if has_id p w then some i else index_of p (i + 1) ws

abbrev pub or_zero : Option ℕ → ℕ
or_zero none = 0
or_zero (some i) = i

unfoldable pub get_worker_id_from_node_id : ClusterConfig → List ℕ → ℕ
get_worker_id_from_node_id c node_id =
    or_zero (index_of (λ id. same_id id node_id) 1 (drop 1 c.workers))

abbrev pub is_known : ClusterConfig → List ℕ → Bool
is_known c node_id = not (get_worker_id_from_node_id c node_id == 0)

abbrev pub id_of_worker : Option Worker → Option (List ℕ)
id_of_worker none = none
id_of_worker (some w) = w.node_id

-- The slot of a number in range.
abbrev pub slot_at : ClusterConfig → ℕ → HashSlot
slot_at c s = get_or c.slot_map s default_slot

abbrev pub get_owner_id_from_slot : ClusterConfig → ℕ → Option (List ℕ)
get_owner_id_from_slot c s =
    if leb total_hash_slots s
    then none
    else id_of_worker (get_elem? c.workers (effective_worker_id (slot_at c s)))

abbrev pub get_node_id_from_slot : ClusterConfig → ℕ → Option (List ℕ)
get_node_id_from_slot c s =
    if leb total_hash_slots s
    then none
    else id_of_worker (get_elem? c.workers (slot_at c s).worker_id)

abbrev pub update_slot_state : ClusterConfig → ℕ → ℕ → SlotState → ClusterConfig
update_slot_state c s worker_id state =
    if ltb s total_hash_slots
    then record c { slot_map = set c.slot_map s (record { worker_id = worker_id; state = state }) }
    else c

abbrev pub push_worker : ClusterConfig → Worker → ClusterConfig × ℕ
push_worker c worker = (record c { workers = c.workers ++ worker ∷ [] }, length c.workers)

-- The configuration after, and the index of the worker.
unfoldable pub add_worker : ClusterConfig → Worker → ClusterConfig × ℕ
add_worker c worker = elim worker.node_id [
  | none ↦ push_worker c worker
  | some new_id ↦
      let existing = get_worker_id_from_node_id c new_id in
      if existing == 0
      then push_worker c worker
      else (record c { workers = set c.workers existing worker }, existing)
]

-- The slots once the worker at an index is gone.
unfoldable pub without_worker : ℕ → HashSlot → HashSlot
without_worker removed slot =
    if ltb removed slot.worker_id
    then record slot { worker_id = slot.worker_id - 1 }
    else if slot.worker_id == removed
    then if same_state slot.state migrating
      then record { worker_id = local_worker_id; state = stable }
      else record { worker_id = 0; state = offline }
    else slot

-- `none` is the error of an unknown node.
unfoldable pub remove_worker : ClusterConfig → List ℕ → Option ClusterConfig
unfolding without_worker
remove_worker c node_id =
    let idx = get_worker_id_from_node_id c node_id in
    if idx == 0
    then none
    else some (record {
      slot_map = map (without_worker idx) c.slot_map;
      workers = take idx c.workers ++ drop (idx + 1) c.workers;
    })

abbrev pub epoch_of : Option Worker → ℤ
epoch_of none = pos 0
epoch_of (some w) = w.config_epoch

abbrev pub is_zero : ℤ → Bool
is_zero (pos zero) = true
is_zero (pos (suc n)) = false
is_zero (negsuc n) = false

-- The epoch of the owner of a slot is not below the sender's, which is not 0.
unfoldable pub refused : List Worker → ℤ → HashSlot → Bool
refused workers sender_epoch cur =
    not (is_zero sender_epoch)
    && not (ltb_ℤ (epoch_of (get_elem? workers cur.worker_id)) sender_epoch)

-- One claim: the slots, and whether something has changed.
abbrev pub claim_at : List Worker → ℕ → ℤ → ℕ → List HashSlot × Bool → List HashSlot × Bool
claim_at workers sender sender_epoch s (slots, updated) =
    let cur = get_or slots s default_slot in
    if leb total_hash_slots s
    then (slots, updated)
    else if refused workers sender_epoch cur
    then (slots, updated)
    else if not (cur.worker_id == sender) || not (same_state cur.state stable)
    then (set slots s (record { worker_id = sender; state = stable }), true)
    else (slots, updated)

unfoldable pub claim : List Worker → ℕ → ℤ → List ℕ → List HashSlot × Bool → List HashSlot × Bool
unfolding refused
claim workers sender sender_epoch [] st = st
claim workers sender sender_epoch (s ∷ ss) st =
    claim workers sender sender_epoch ss (claim_at workers sender sender_epoch s st)

-- A slot that the sender held and claims no more.
abbrev pub given_up : ℕ → SlotBitmap → ℕ → HashSlot → Bool
given_up sender claimed s cur =
    (cur.worker_id == sender)
    && (same_state cur.state stable || same_state cur.state importing)
    && not (is_set claimed s)

-- The scan from slot `s` on.
unfoldable pub reclaim : ℕ → SlotBitmap → ℕ → List HashSlot × Bool → List HashSlot × Bool
reclaim sender claimed s ([], updated) = ([], updated)
reclaim sender claimed s (cur ∷ slots, updated) =
    let (rest, updated') = reclaim sender claimed (s + 1) (slots, updated) in
    if given_up sender claimed s cur then (default_slot ∷ rest, true) else (cur ∷ rest, updated')

unfoldable pub set_all : SlotBitmap → List ℕ → SlotBitmap
set_all b [] = b
set_all b (s ∷ ss) = set_all (set_slot b s) ss

abbrev pub with_slots : ClusterConfig → List HashSlot × Bool → ClusterConfig × Bool
with_slots c (slots, updated) = (record c { slot_map = slots }, updated)

-- The configuration after, and whether something has changed.
unfoldable pub merge_sender_slots :
    ClusterConfig → List ℕ → ℤ → List ℕ → List ℕ → ClusterConfig × Bool
unfolding claim reclaim set_all
merge_sender_slots c sender_id sender_epoch sender_slots migrating_slots =
    let sender = get_worker_id_from_node_id c sender_id in
    let claimed = set_all (set_all Slot.new sender_slots) migrating_slots in
    if (length sender_id == 0) || (sender == 0)
    then (c, false)
    else with_slots c (
        reclaim sender claimed 0
          (claim c.workers sender sender_epoch sender_slots (c.slot_map, false)))
