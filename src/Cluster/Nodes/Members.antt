-- ===== src/Cluster/Nodes/Members.antt =====
-- Nodes that come, change and go in cluster/cluster.go, and the questions about them there and in
-- GetNodeIdByService and GetNodeIdByTemplateService of cluster/parsecfg.go.
use origin.Prelude.{
  ℕ, ◌+◌, nat_eq, bytes_eq, ◌==◌, if◌then◌else◌, Bool, true, false, not, ◌&&◌, ◌||◌, List, [], ◌∷◌,
  ◌++◌, Option, none, some, is_some, lookup, insert, delete, inner, GoString,
}
use origin.Cluster.Nodes.{
  NodeStatus, normal, discard, NodeInfo, NodeRpcInfo, Cluster, Set, trigger_discovery_event,
  del_services, add_services, is_origin_master_discovery_node,
}

-- The part of serviceDiscoverySetNodeInfo that clears what the node offered before.
unfoldable pub clear_last : ℕ → Option NodeRpcInfo → Cluster → Cluster
clear_last node none c = c
clear_last node (some last) c = del_services last.node_info.service_list node c

-- The end of it: the node has its new info, and a client of its own if it is new.
unfoldable pub keep_node : NodeInfo → Option NodeRpcInfo → Cluster → Cluster
keep_node info (some last) c = record c {
  map_rpc = insert info.node_id (record last { node_info = info }) c.map_rpc;
}
keep_node info none c = record c {
  map_rpc = insert info.node_id (record { node_info = info; client = c.next_client }) c.map_rpc;
  next_client = c.next_client + 1;
}

unfoldable pub service_discovery_set_node_info : NodeInfo → Cluster → Cluster
service_discovery_set_node_info info c =
    if info.node_id == c.local_node_info.node_id
    then c
    else let last = lookup info.node_id c.map_rpc in
      let cleared = clear_last info.node_id last c in
      let told = trigger_discovery_event true info.node_id info.public_service_list cleared in
      keep_node info last (add_services [] info.public_service_list info.node_id told)

unfoldable pub drop_node : ℕ → Option NodeRpcInfo → Cluster → Cluster
drop_node node none c = c
drop_node node (some node_rpc) c =
    let services = node_rpc.node_info.service_list in
    let told = trigger_discovery_event false node services c in
    let c' = del_services services node told in
    record c' { map_rpc = delete node c'.map_rpc; closed = c'.closed ++ node_rpc.client ∷ [] }

unfoldable pub del_node : ℕ → Cluster → Cluster
del_node node c =
    if is_origin_master_discovery_node node c || node == c.local_node_info.node_id
    then c
    else drop_node node (lookup node c.map_rpc) c

abbrev pub is_discard : NodeStatus → Bool
is_discard normal = false
is_discard discard = true

unfoldable pub discard_node : ℕ → Cluster → Cluster
discard_node node c = elim (lookup node c.map_rpc) [
  | none ↦ c
  | some r ↦ if is_discard r.node_info.status then del_node node c else c
]

-- The client, and whether the node has retired.
unfoldable pub get_rpc_client : ℕ → Cluster → Option ℕ × Bool
get_rpc_client node c = elim (lookup node c.map_rpc) [
  | none ↦ (none, false)
  | some r ↦ (some r.client, r.node_info.retire)
]

unfoldable pub is_node_retire : ℕ → Cluster → Bool
is_node_retire node c = (get_rpc_client node c).1

unfoldable pub get_node_info : ℕ → Cluster → Option NodeInfo
get_node_info node c = elim (lookup node c.map_rpc) [ none ↦ none | some r ↦ some r.node_info ]

unfoldable pub has_service : ℕ → GoString → Cluster → Bool
has_service node name c = elim (lookup name c.map_service_node) [
  | none ↦ false
  | some nodes ↦ is_some (lookup node nodes)
]

unfoldable pub get_node_by_service_name : GoString → Cluster → Option (Set ℕ)
get_node_by_service_name name c = lookup name c.map_service_node

unfoldable pub keys : {K : Type 0} → Set K → List K
keys [] = []
keys ((k, _) ∷ rest) = k ∷ keys rest

-- A service gets its entry with its first node.
abbrev entry : GoString → List ℕ → List (GoString × List ℕ) → List (GoString × List ℕ)
entry name [] m = m
entry name (node ∷ nodes) m = (name, node ∷ nodes) ∷ m

-- The services of a template with their nodes; a service that no node has ends it with nil.
unfoldable pub nodes_of : Cluster → Set GoString → Option (List (GoString × List ℕ))
nodes_of c [] = some []
nodes_of c ((name, _) ∷ rest) =
    let others = nodes_of c rest in
    elim (lookup name c.map_service_node) [
      | none ↦ none
      | some nodes ↦ elim others [ none ↦ none | some m ↦ some (entry name (keys nodes) m) ]
    ]

unfoldable pub get_node_by_template_service_name :
    GoString → Cluster → Option (List (GoString × List ℕ))
get_node_by_template_service_name template c =
    nodes_of c (inner template c.map_template_service_node)

-- `connected` says for a client whether it is connected.
module _ (connected : ℕ → Bool) where
  unfoldable pub is_node_connected : ℕ → Cluster → Bool
  is_node_connected node c = elim (get_rpc_client node c).0 [
    | none ↦ false
    | some client ↦ connected client
  ]

  -- What the loops over nodes do with one of them.
  unfoldable pub take_client : Bool → Option ℕ × Bool → List ℕ → List ℕ
  take_client filter_retire (none, retire) clients = clients
  take_client filter_retire (some client, retire) clients =
      if connected client && not (filter_retire && retire) then clients ++ client ∷ [] else clients

  unfoldable pub take_clients : Bool → Cluster → Set ℕ → List ℕ → List ℕ
  take_clients filter_retire c [] clients = clients
  take_clients filter_retire c ((node, _) ∷ rest) clients =
      take_clients filter_retire c rest (take_client filter_retire (get_rpc_client node c) clients)

  unfoldable pub get_node_id_by_service : GoString → List ℕ → Bool → Cluster → List ℕ
  get_node_id_by_service name clients filter_retire c =
      take_clients filter_retire c (inner name c.map_service_node) clients

  unfoldable pub template_clients : Bool → Cluster → Set GoString → List ℕ → List ℕ
  template_clients filter_retire c [] clients = clients
  template_clients filter_retire c ((name, _) ∷ rest) clients =
      template_clients filter_retire c rest (get_node_id_by_service name clients filter_retire c)

  unfoldable pub get_node_id_by_template_service : GoString → List ℕ → Bool → Cluster → List ℕ
  get_node_id_by_template_service template clients filter_retire c =
      template_clients filter_retire c (inner template c.map_template_service_node) clients

  -- The text before the first `.`, which is 46; `none` if there is none.
  unfoldable pub before_dot : GoString → Option GoString
  before_dot [] = none
  before_dot (b ∷ s) =
      let rest = before_dot s in
      if b == 46 then some [] else elim rest [ none ↦ none | some name ↦ some (b ∷ name) ]

  -- The function GetRpcClient of the package; a `node` of `none` is NodeIdNull, and the result is
  -- `none` where an error is returned.
  unfoldable pub get_rpc_clients : Option ℕ → GoString → Bool → List ℕ → Cluster → Option (List ℕ)
  get_rpc_clients (some node) method filter_retire clients c =
      let (client, retire) = get_rpc_client node c in
      elim client [
        | none ↦ none
        | some k ↦ if filter_retire && retire then none else some (clients ++ k ∷ [])
      ]
  get_rpc_clients none method filter_retire clients c = elim (before_dot method) [
    | none ↦ none
    | some name ↦ some (get_node_id_by_service name clients filter_retire c)
  ]
