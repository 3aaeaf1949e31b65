-- ===== src/Cluster/Origin/Client.antt =====
-- OriginDiscoveryClient of cluster/origindiscovery.go: what a node makes of the lists of nodes that
-- masters send. `text` is the node id as a string, which the patterns are matched against.
use origin.Prelude.{
  ℕ, nat_eq, bytes_eq, ◌==◌, if◌then◌else◌, Bool, true, false, not, ◌&&◌, ◌||◌, List, [], ◌∷◌, ◌++◌,
  Option, none, some, is_some, lookup, insert, put_nested, delete_nested, GoString,
}
use origin.Cluster.Nodes.{NodeInfo, Cluster, is_origin_master_discovery_node}
use origin.Cluster.Nodes.Members.{del_node, discard_node, service_discovery_set_node_info}
use origin.Cluster.Nodes.Allow.{can_discovery_service}
use origin.Cluster.Origin.{RpcNodeInfo, SubscribeDiscoverNotify, to_node_info, is_empty}

abbrev pub Discovered : Type 0
Discovered = List (ℕ × List (ℕ × List GoString))

-- `map_discovery` has the services of a node by master and node.
pub record OriginDiscoveryClient : Type 0 where
  pub local_node_id : ℕ
  pub map_discovery : Discovered
  pub cluster : Cluster

unfoldable pub add_master_node :
    ℕ → ℕ → List GoString → OriginDiscoveryClient → OriginDiscoveryClient
add_master_node master node services dc = record dc {
  map_discovery = put_nested master node services dc.map_discovery;
}

unfoldable pub remove_master_node : ℕ → ℕ → OriginDiscoveryClient → OriginDiscoveryClient
remove_master_node master node dc = record dc {
  map_discovery = delete_nested master node dc.map_discovery;
}

-- OriginDiscoveryClientName
abbrev pub origin_discovery_client_name : GoString
origin_discovery_client_name =
    68 ∷ 105 ∷ 115 ∷ 99 ∷ 111 ∷ 118 ∷ 101 ∷ 114 ∷ 121 ∷ 67 ∷ 108 ∷ 105 ∷ 101 ∷ 110 ∷ 116 ∷ []

abbrev is_only : GoString → List GoString → Bool
is_only name [] = false
is_only name (s ∷ []) = s == name
is_only name (s ∷ t ∷ rest) = false

-- The nodes that are passed over: the local one, and, unless the local node is a master, those that
-- have nothing but the discovery client.
unfoldable pub is_passed_over : OriginDiscoveryClient → RpcNodeInfo → Bool
is_passed_over dc i =
    i.node_id == dc.local_node_id
    || (not (is_origin_master_discovery_node dc.cluster.local_node_info.node_id dc.cluster)
        && is_only origin_discovery_client_name i.public_service_list)

abbrev pub entry_of : RpcNodeInfo → Option RpcNodeInfo → RpcNodeInfo
entry_of i none = record i { public_service_list = [] }
entry_of i (some e) = e

unfoldable pub add_service :
    RpcNodeInfo → GoString → List (ℕ × RpcNodeInfo) → List (ℕ × RpcNodeInfo)
add_service i name m =
    let e = entry_of i (lookup i.node_id m) in
    insert i.node_id (record e { public_service_list = e.public_service_list ++ name ∷ [] }) m

unfoldable pub add_services_of :
    RpcNodeInfo → List GoString → List (ℕ × RpcNodeInfo) → List (ℕ × RpcNodeInfo)
add_services_of i [] m = m
add_services_of i (name ∷ rest) m = add_services_of i rest (add_service i name m)

-- The nodes of a message with their services.
unfoldable pub collect :
    OriginDiscoveryClient → List RpcNodeInfo → List (ℕ × RpcNodeInfo) → List (ℕ × RpcNodeInfo)
collect dc [] m = m
collect dc (i ∷ is) m =
    collect dc is (if is_passed_over dc i then m else add_services_of i i.public_service_list m)

unfoldable pub missing_in : List (ℕ × RpcNodeInfo) → List (ℕ × List GoString) → List ℕ
missing_in m [] = []
missing_in m ((node, _) ∷ rest) =
    let others = missing_in m rest in if is_some (lookup node m) then others else node ∷ others

-- The nodes known from the master that are not in the message.
unfoldable pub full_compare_diff_node : ℕ → List (ℕ × RpcNodeInfo) → OriginDiscoveryClient → List ℕ
full_compare_diff_node master m dc = elim (lookup master dc.map_discovery) [
  | none ↦ []
  | some nodes ↦ missing_in m nodes
]

unfoldable pub named_node : OriginDiscoveryClient → Option ℕ → List ℕ
named_node dc none = []
named_node dc (some node) = if node == dc.local_node_id then [] else node ∷ []

unfoldable pub will_del_node_id :
    SubscribeDiscoverNotify → List (ℕ × RpcNodeInfo) → OriginDiscoveryClient → List ℕ
will_del_node_id req m dc =
    (if req.is_full then full_compare_diff_node req.master_node_id m dc else [])
    ++ named_node dc req.del_node_id

-- One round of the loop that deletes: `funDelNode` is DelNode of the cluster.
unfoldable pub forget_node : ℕ → ℕ → OriginDiscoveryClient → OriginDiscoveryClient
forget_node master node dc =
    remove_master_node master node (record dc { cluster = del_node node dc.cluster })

unfoldable pub forget_nodes : ℕ → List ℕ → OriginDiscoveryClient → OriginDiscoveryClient
forget_nodes master [] dc = dc
forget_nodes master (node ∷ rest) dc = forget_nodes master rest (forget_node master node dc)

module _ (matches : GoString → GoString → Bool) (text : ℕ → GoString) where
  unfoldable pub discoverable : Cluster → ℕ → ℕ → List GoString → List GoString
  discoverable c master node [] = []
  discoverable c master node (name ∷ rest) =
      let others = discoverable c master node rest in
      if can_discovery_service matches c.local_node_info.allow_discovery [] (text master)
        (text node) name
      then name ∷ others
      else others

  -- `funSetNode` is serviceDiscoverySetNodeInfo of the cluster.
  unfoldable pub set_node_info :
      ℕ → RpcNodeInfo → OriginDiscoveryClient → Bool × OriginDiscoveryClient
  set_node_info master i dc =
      if i.private_node || i.node_id == dc.local_node_id
      then (false, dc)
      else (let services = discoverable dc.cluster master i.node_id i.public_service_list in
          if is_empty services then (false, dc) else (
            true,
            record dc {
              cluster = service_discovery_set_node_info (to_node_info i services) dc.cluster;
            },
          ))

  unfoldable pub keep_node : ℕ → RpcNodeInfo → OriginDiscoveryClient → OriginDiscoveryClient
  keep_node master i dc =
      (set_node_info master i (add_master_node master i.node_id i.public_service_list dc)).1

  unfoldable pub keep_nodes :
      ℕ → List (ℕ × RpcNodeInfo) → OriginDiscoveryClient → OriginDiscoveryClient
  keep_nodes master [] dc = dc
  keep_nodes master ((node, i) ∷ rest) dc = keep_nodes master rest (keep_node master i dc)

  unfoldable pub rpc_sub_service_discover :
      SubscribeDiscoverNotify → OriginDiscoveryClient → OriginDiscoveryClient
  rpc_sub_service_discover req dc =
      let m = collect dc req.node_info [] in
      keep_nodes req.master_node_id m
        (forget_nodes req.master_node_id (will_del_node_id req m dc) dc)

unfoldable pub on_node_disconnect : ℕ → OriginDiscoveryClient → OriginDiscoveryClient
on_node_disconnect node dc = record dc { cluster = discard_node node dc.cluster }

-- The masters that are connected at the start.
unfoldable pub add_discovery_master : List NodeInfo → OriginDiscoveryClient → OriginDiscoveryClient
add_discovery_master [] dc = dc
add_discovery_master (i ∷ rest) dc = add_discovery_master rest (
    if i.node_id == dc.cluster.local_node_info.node_id
    then dc
    else record dc { cluster = service_discovery_set_node_info i dc.cluster })
