-- ===== src/Cluster/Tests.antt =====
-- The theorems on hash slots and the configuration of a cluster at concrete keys and configurations.
use garnet_rust.Common.{
  false, true, ℕ, ◌≡◌, refl, ◌∙◌, List, [], ◌∷◌, ◌++◌, Option, some, ◌==◌, arith, length, replicate,
  set, take, drop, map, position, bytes_eq, length-set, length-replicate,
}
use garnet_rust.Common.Int.{pos}
use garnet_rust.Cluster.Slot.{
  total_hash_slots, HashSlot, stable, migrating, importing, default_slot, crc16, hash_slot,
}
use garnet_rust.Cluster.HashSlotLaws.{hash_slot-tag}
use garnet_rust.Cluster.Config.{
  Worker, ClusterConfig, unassigned_worker, primary, slot_at, get_worker_id_from_node_id,
  update_slot_state, get_node_id_from_slot, merge_sender_slots, without_worker, remove_worker,
}
use garnet_rust.Cluster.MergeSlots.{merged_slot, slot_at-merge_sender_slots}
use garnet_rust.Cluster.Workers.{meta_of, merge_worker_ref}
use garnet_rust.Cluster.WorkerLaws.{merge_worker_ref-merge_worker_ref}
use garnet_rust.Cluster.Routing.{route_slot_ext, is_local, get_state}
use garnet_rust.Cluster.RoutingLaws.{serves, route_slot_ext-prepared}
use garnet_rust.Cluster.SetSlot.{try_prepare_slot_for_migration, try_prepare_slot_for_import}
use garnet_rust.Common.Result.{ok}
use garnet_rust.Cluster.RemoveLaws.{owner_left, get_node_id_from_slot-remove_worker}

abbrev memchr : ℕ → List ℕ → Option ℕ
memchr b xs = position (λ x. x == b) xs

-- The check value of this CRC: 0x31C3 for the digits from 1 to 9.
crc16_check : crc16 (49 ∷ 50 ∷ 51 ∷ 52 ∷ 53 ∷ 54 ∷ 55 ∷ 56 ∷ 57 ∷ []) ≡ 12739
unfolding crc16
crc16_check = refl

-- a{bc}d and bc
hash_slot-tag_example :
    hash_slot memchr ((97 ∷ []) ++ 123 ∷ ((98 ∷ 99 ∷ []) ++ 125 ∷ (100 ∷ [])))
    ≡ hash_slot memchr (98 ∷ 99 ∷ [])
hash_slot-tag_example =
    hash_slot-tag memchr (λ b xs. refl) (97 ∷ []) (98 ∷ 99 ∷ []) (100 ∷ []) refl refl refl
      (omega arith)

abbrev peer : List ℕ
peer = 112 ∷ 50 ∷ []

abbrev held : HashSlot
held = record { worker_id = 2; state = stable }

-- A local node and a peer that holds slot 7.
abbrev pair : ClusterConfig
pair = record {
  slot_map = set (replicate total_hash_slots default_slot) 7 held;
  workers =
      unassigned_worker
      ∷ record unassigned_worker {
        node_id = some (112 ∷ 49 ∷ []);
        role = primary;
        config_epoch = pos 1;
      }
      ∷ record unassigned_worker { node_id = some peer; role = primary; config_epoch = pos 2 }
      ∷ [];
}

length-pair : length pair.slot_map ≡ total_hash_slots
length-pair =
    length-set (replicate total_hash_slots default_slot) 7 held
    ∙ length-replicate total_hash_slots default_slot

peer-known : get_worker_id_from_node_id pair peer ≡ 2
unfolding get_worker_id_from_node_id bytes_eq
peer-known = refl

slot_at-merge_sender_slots_example :
    slot_at (merge_sender_slots pair peer (pos 2) (9 ∷ []) []).0 7
    ≡ merged_slot pair.workers
        (get_worker_id_from_node_id pair peer)
        (pos 2)
        (9 ∷ [])
        []
        7
        (slot_at pair 7)
slot_at-merge_sender_slots_example =
    slot_at-merge_sender_slots pair peer (pos 2) (9 ∷ []) [] length-pair (omega arith)
      (omega (arith, peer-known)) 7 (omega arith)

abbrev alone : ClusterConfig
alone = record {
  slot_map = map (without_worker 2) pair.slot_map;
  workers = take 2 pair.workers ++ drop 3 pair.workers;
}

peer-removed : remove_worker pair peer ≡ some alone
unfolding remove_worker
peer-removed = rw peer-known

get_node_id_from_slot-remove_worker_example :
    get_node_id_from_slot alone 7
    ≡ owner_left pair (get_worker_id_from_node_id pair peer) (slot_at pair 7)
get_node_id_from_slot-remove_worker_example =
    get_node_id_from_slot-remove_worker pair peer length-pair (omega (arith, peer-known)) 7
      (omega arith) alone peer-removed

-- The peer with a newer epoch.
abbrev newer_peer : Worker
newer_peer = record unassigned_worker { node_id = some peer; role = primary; config_epoch = pos 5 }

merge_worker_ref-merge_worker_ref_example :
    let c' = (merge_worker_ref pair (meta_of newer_peer) false).0 in
    merge_worker_ref c' (meta_of newer_peer) false ≡ (c', false)
merge_worker_ref-merge_worker_ref_example =
    merge_worker_ref-merge_worker_ref pair (meta_of newer_peer) false (omega arith)

-- The same nodes where the local one holds slot 7.
abbrev holder : ClusterConfig
holder = record pair {
  slot_map =
      set (replicate total_hash_slots default_slot) 7 (record { worker_id = 1; state = stable });
}

length-holder : length holder.slot_map ≡ total_hash_slots
length-holder =
    length-set (replicate total_hash_slots default_slot) 7
      (record { worker_id = 1; state = stable })
    ∙ length-replicate total_hash_slots default_slot

abbrev leaving : ClusterConfig
leaving = update_slot_state holder 7 2 migrating

abbrev coming : ClusterConfig
coming = update_slot_state pair 7 2 importing

migration-prepared : try_prepare_slot_for_migration holder 7 peer ≡ ok leaving
unfolding try_prepare_slot_for_migration get_worker_id_from_node_id is_local get_state bytes_eq
migration-prepared = refl

import-prepared : try_prepare_slot_for_import pair 7 peer ≡ ok coming
unfolding try_prepare_slot_for_import get_worker_id_from_node_id is_local get_state bytes_eq
import-prepared = refl

abbrev no_digits : ℕ → List ℕ
no_digits n = []

-- A read-only session with ASKING.
route_slot_ext-prepared_example :
    (serves (route_slot_ext no_digits leaving 7 true false true) ≡ false)
    × (serves (route_slot_ext no_digits coming 7 true false true) ≡ true)
    × (slot_at leaving 8 ≡ slot_at holder 8)
    × (slot_at coming 8 ≡ slot_at pair 8)
route_slot_ext-prepared_example =
    route_slot_ext-prepared no_digits holder pair 7 peer peer leaving coming length-holder
      length-pair (unfold bytes_eq in refl) migration-prepared import-prepared true false false true
      8 refl
