-- ===== src/Cluster/Workers.antt =====
-- The merging of worker records in wedb_cluster/src/config.rs, as gossip tells of other nodes.
use garnet_rust.Common.{
  ℕ, List, [], ◌∷◌, ◌++◌, Option, none, some, Bool, true, false, ◌==◌, ◌&&◌, ◌||◌, not,
  if◌then◌else◌, get_or, set, drop, bytes_eq,
}
use garnet_rust.Common.Int.{ℤ, ltb_ℤ}
use garnet_rust.Cluster.Config.{
  NodeRole, primary, replica, unassigned, Worker, unassigned_worker, ClusterConfig, index_of,
}

pub record WorkerMeta : Type 0 where
  pub node_id : Option (List ℕ)
  pub address : List ℕ
  pub port : ℕ
  pub config_epoch : ℤ
  pub role : NodeRole
  pub replica_of : Option (List ℕ)
  pub hostname : Option (List ℕ)

-- What a worker's record tells of it.
abbrev pub meta_of : Worker → WorkerMeta
meta_of w = record {
  node_id = w.node_id;
  address = w.address;
  port = w.port;
  config_epoch = w.config_epoch;
  role = w.role;
  replica_of = w.replica_of_node_id;
  hostname = w.hostname;
}

abbrev pub same_option : Option (List ℕ) → Option (List ℕ) → Bool
same_option none none = true
same_option none (some b) = false
same_option (some a) none = false
same_option (some a) (some b) = bytes_eq a b

abbrev pub role_code : NodeRole → ℕ
role_code primary = 0
role_code replica = 1
role_code unassigned = 2

abbrev pub same_epoch : ℤ → ℤ → Bool
same_epoch a b = not (ltb_ℤ a b) && not (ltb_ℤ b a)

-- A worker that is not known yet.
abbrev pub collected : List ℕ → WorkerMeta → Bool → Worker
collected new_id meta confirm_handshake = record unassigned_worker {
  node_id = some new_id;
  address = meta.address;
  port = meta.port;
  config_epoch = meta.config_epoch;
  role = meta.role;
  replica_of_node_id = meta.replica_of;
  hostname = meta.hostname;
  handshake = not confirm_handshake;
}

-- The record of a known worker is to change.
abbrev pub is_news : WorkerMeta → Bool → Worker → Bool
is_news meta confirm_handshake stored =
    ltb_ℤ stored.config_epoch meta.config_epoch
    || (confirm_handshake && stored.handshake && not (ltb_ℤ meta.config_epoch stored.config_epoch))

abbrev pub differs : WorkerMeta → Worker → Bool
differs meta stored =
    not (same_epoch meta.config_epoch stored.config_epoch)
    || not (bytes_eq meta.address stored.address)
    || not (meta.port == stored.port)
    || not (role_code meta.role == role_code stored.role)
    || not (same_option meta.replica_of stored.replica_of_node_id)
    || not (same_option meta.hostname stored.hostname)

abbrev pub updated : WorkerMeta → Worker → Worker
updated meta stored = record stored {
  config_epoch = meta.config_epoch;
  port = meta.port;
  role = meta.role;
  handshake = false;
  address = meta.address;
  replica_of_node_id = meta.replica_of;
  hostname = meta.hostname;
}

abbrev pub merge_known : ClusterConfig → WorkerMeta → Bool → ℕ → ClusterConfig × Bool
merge_known c meta confirm_handshake idx =
    let stored = get_or c.workers idx unassigned_worker in
    if not (is_news meta confirm_handshake stored)
    then (c, false)
    else (record c { workers = set c.workers idx (updated meta stored) }, differs meta stored)

abbrev pub merge_named :
    ClusterConfig → WorkerMeta → Bool → List ℕ → Option ℕ → ClusterConfig × Bool
merge_named c meta confirm_handshake new_id none =
    (record c { workers = c.workers ++ collected new_id meta confirm_handshake ∷ [] }, true)
merge_named c meta confirm_handshake new_id (some idx) = merge_known c meta confirm_handshake idx

abbrev pub merge_id : ClusterConfig → WorkerMeta → Bool → Option (List ℕ) → ClusterConfig × Bool
merge_id c meta confirm_handshake none = (c, false)
merge_id c meta confirm_handshake (some []) = (c, false)
merge_id c meta confirm_handshake (some (b ∷ id)) =
    merge_named c meta confirm_handshake (b ∷ id)
      (index_of (λ i. bytes_eq i (b ∷ id)) 1 (drop 1 c.workers))

-- The configuration after, and whether something has changed.
unfoldable pub merge_worker_ref : ClusterConfig → WorkerMeta → Bool → ClusterConfig × Bool
merge_worker_ref c meta confirm_handshake = merge_id c meta confirm_handshake meta.node_id

unfoldable pub merge_worker : ClusterConfig → Worker → ClusterConfig × Bool
unfolding merge_worker_ref
merge_worker c worker = merge_worker_ref c (meta_of worker) false
