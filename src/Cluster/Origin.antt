-- ===== src/Cluster/Origin.antt =====
-- cluster/origindiscovery.go: the master's list of nodes, and what a node makes of the lists that
-- masters send. Messages are values in the order of their sending; that they arrive is not claimed.
-- Timers and the retry after a failed call are left out.
pub mod Client
pub mod Collect
pub mod Sync
pub mod Roster
pub mod Requests
pub mod Elsewhere
mod Tests
use origin.Prelude.{
  ℕ, nat_eq, ◌==◌, if◌then◌else◌, Bool, true, false, not, ◌&&◌, ◌||◌, List, [], ◌∷◌, ◌++◌, Option,
  none, some, is_some, lookup, insert, delete, GoString,
}
use origin.Cluster.NodeTtl.{NodeSetTtl, remove_node, add_and_refresh_node}
use origin.Cluster.Nodes.{NodeStatus, normal, NodeInfo, Cluster, Set}
use origin.Cluster.Nodes.Members.{del_node, service_discovery_set_node_info}

-- rpc.NodeInfo, the message.
pub record RpcNodeInfo : Type 0 where
  pub node_id : ℕ
  pub listen_addr : GoString
  pub max_rpc_param_len : ℕ
  pub private_node : Bool
  pub retire : Bool
  pub public_service_list : List GoString

-- `none` is rpc.NodeIdNull.
pub record SubscribeDiscoverNotify : Type 0 where
  pub master_node_id : ℕ
  pub is_full : Bool
  pub del_node_id : Option ℕ
  pub node_info : List RpcNodeInfo

-- GoNode to one node, and CastGo to all.
pub data Message : Type 0 where
  to_node : ℕ → SubscribeDiscoverNotify → Message
  to_all : SubscribeDiscoverNotify → Message

-- The discovery master with the cluster of its node, and the messages that it sent.
pub record OriginDiscoveryMaster : Type 0 where
  pub map_node_info : Set ℕ
  pub node_info : List RpcNodeInfo
  pub ns_ttl : NodeSetTtl
  pub cluster : Cluster
  pub sent : List Message

unfoldable pub is_reg_node : ℕ → OriginDiscoveryMaster → Bool
is_reg_node node ds = is_some (lookup node ds.map_node_info)

-- The first entry of the node gets the new info.
unfoldable pub replace_info : RpcNodeInfo → List RpcNodeInfo → List RpcNodeInfo
replace_info new [] = []
replace_info new (i ∷ is) = if i.node_id == new.node_id then new ∷ is else i ∷ replace_info new is

unfoldable pub update_node_info : RpcNodeInfo → OriginDiscoveryMaster → OriginDiscoveryMaster
update_node_info info ds =
    if is_reg_node info.node_id ds
    then record ds { node_info = replace_info info ds.node_info }
    else ds

abbrev pub is_empty : {A : Type 0} → List A → Bool
is_empty [] = true
is_empty (x ∷ xs) = false

unfoldable pub add_node_info : RpcNodeInfo → OriginDiscoveryMaster → OriginDiscoveryMaster
add_node_info info ds =
    if is_empty info.public_service_list
    then ds
    else if is_reg_node info.node_id ds
    then ds
    else record ds {
      map_node_info = insert info.node_id tt ds.map_node_info;
      node_info = ds.node_info ++ info ∷ [];
    }

-- The first entry of the node goes.
unfoldable pub remove_info : ℕ → List RpcNodeInfo → List RpcNodeInfo
remove_info node [] = []
remove_info node (i ∷ is) = if i.node_id == node then is else i ∷ remove_info node is

unfoldable pub remove_node_info : ℕ → OriginDiscoveryMaster → OriginDiscoveryMaster
remove_node_info node ds =
    if is_reg_node node ds
    then record ds {
      node_info = remove_info node ds.node_info;
      ns_ttl = remove_node node ds.ns_ttl;
      map_node_info = delete node ds.map_node_info;
    }
    else ds

abbrev pub local_id : OriginDiscoveryMaster → ℕ
local_id ds = ds.cluster.local_node_info.node_id

unfoldable pub cast_loop : ℕ → SubscribeDiscoverNotify → Set ℕ → List Message
cast_loop local notify [] = []
cast_loop local notify ((node, _) ∷ rest) =
    let others = cast_loop local notify rest in
    if node == local then others else to_node node notify ∷ others

unfoldable pub rpc_cast_go : SubscribeDiscoverNotify → OriginDiscoveryMaster → OriginDiscoveryMaster
rpc_cast_go notify ds = record ds {
  sent = ds.sent ++ cast_loop (local_id ds) notify ds.map_node_info;
}

-- The full list, as it is sent to a node that connects, to all when nats connects, and in answer to
-- a registration.
abbrev pub full_list : OriginDiscoveryMaster → SubscribeDiscoverNotify
full_list ds = record {
  master_node_id = local_id ds;
  is_full = true;
  del_node_id = none;
  node_info = ds.node_info;
}

abbrev pub news : RpcNodeInfo → OriginDiscoveryMaster → SubscribeDiscoverNotify
news info ds = record {
  master_node_id = local_id ds;
  is_full = false;
  del_node_id = none;
  node_info = info ∷ [];
}

unfoldable pub on_nats_connected : OriginDiscoveryMaster → OriginDiscoveryMaster
on_nats_connected ds = rpc_cast_go (full_list ds) ds

unfoldable pub on_node_connected : ℕ → OriginDiscoveryMaster → OriginDiscoveryMaster
on_node_connected node ds = record ds { sent = ds.sent ++ to_node node (full_list ds) ∷ [] }

unfoldable pub on_node_disconnect : ℕ → OriginDiscoveryMaster → OriginDiscoveryMaster
on_node_disconnect node ds =
    if is_reg_node node ds
    then (let ds' = remove_node_info node ds in
        let notify : SubscribeDiscoverNotify = record {
          master_node_id = local_id ds;
          is_full = false;
          del_node_id = some node;
          node_info = [];
        } in
        record ds' { cluster = del_node node ds'.cluster; sent = ds'.sent ++ to_all notify ∷ [] })
    else ds

-- The nodes that checkTTL found expired.
unfoldable pub expire_all : List ℕ → OriginDiscoveryMaster → OriginDiscoveryMaster
expire_all [] ds = ds
expire_all (node ∷ rest) ds = expire_all rest (on_node_disconnect node ds)

abbrev pub local_info : OriginDiscoveryMaster → RpcNodeInfo
local_info ds =
    let i = ds.cluster.local_node_info in
    record {
      node_id = i.node_id;
      listen_addr = i.listen_addr;
      max_rpc_param_len = i.max_rpc_param_len;
      private_node = i.private_node;
      retire = i.retire;
      public_service_list = i.public_service_list;
    }

unfoldable pub on_start : OriginDiscoveryMaster → OriginDiscoveryMaster
on_start ds = add_node_info (local_info ds) ds

-- The answer, `res.Ok`, and the new state at the time `now`.
unfoldable pub rpc_ping : ℕ → ℕ → OriginDiscoveryMaster → Bool × OriginDiscoveryMaster
rpc_ping now node ds =
    if is_reg_node node ds
    then (true, record ds { ns_ttl = add_and_refresh_node now node ds.ns_ttl })
    else (false, ds)

unfoldable pub rpc_node_retire : RpcNodeInfo → OriginDiscoveryMaster → OriginDiscoveryMaster
rpc_node_retire info ds = let ds' = update_node_info info ds in rpc_cast_go (news info ds') ds'

-- The info for the cluster of the node: its services are those that are public.
abbrev pub to_node_info : RpcNodeInfo → List GoString → NodeInfo
to_node_info i services = record {
  node_id = i.node_id;
  private_node = i.private_node;
  listen_addr = i.listen_addr;
  max_rpc_param_len = i.max_rpc_param_len;
  compress_bytes_len = 0;
  service_list = services;
  public_service_list = services;
  allow_discovery = [];
  status = normal;
  retire = i.retire;
}

unfoldable pub refresh : ℕ → ℕ → OriginDiscoveryMaster → OriginDiscoveryMaster
refresh now node ds =
    if node == local_id ds
    then ds
    else record ds { ns_ttl = add_and_refresh_node now node ds.ns_ttl }

-- The answer, and the new state; `none` is a request without an info, which is an error.
unfoldable pub rpc_reg_service_discover :
    ℕ
    → Option RpcNodeInfo
    → OriginDiscoveryMaster
    → Option (SubscribeDiscoverNotify × OriginDiscoveryMaster)
rpc_reg_service_discover now none ds = none
rpc_reg_service_discover now (some info) ds =
    let refreshed = refresh now info.node_id ds in
    let added = add_node_info info (rpc_cast_go (news info refreshed) refreshed) in
    let c =
      service_discovery_set_node_info (to_node_info info info.public_service_list)
        (del_node info.node_id added.cluster) in
    let ds' = record added { cluster = c } in some (full_list ds', ds')

unfoldable pub rpc_un_reg_service_discover : ℕ → OriginDiscoveryMaster → OriginDiscoveryMaster
rpc_un_reg_service_discover node ds = on_node_disconnect node ds
