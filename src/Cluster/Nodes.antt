-- ===== src/Cluster/Nodes.antt =====
-- cluster/cluster.go: which nodes there are, which of them offers which service, and which services
-- belong to a template. Node ids and rpc clients are numbers; service names are texts, since the
-- code takes `name:template` apart. A Go map that the code ranges over is gone through in the order
-- of its association list. Locks are left out: each operation holds one from start to end.
pub mod Members
pub mod Tables
pub mod Consistent
pub mod Changes
pub mod Selection
pub mod Allow
mod Tests
use origin.Prelude.{
  ℕ, zero, suc, ◌+◌, nat_eq, bytes_eq, ◌==◌, if◌then◌else◌, Bool, true, false, not, ◌&&◌, ◌||◌,
  List, [], ◌∷◌, ◌++◌, Option, none, some, is_some, lookup, insert, delete, inner, put_nested,
  GoString, split, Comparable,
}

pub data NodeStatus : Type 0 where
  normal : NodeStatus
  discard : NodeStatus

-- The patterns are regular expressions.
pub record AllowDiscovery : Type 0 where
  pub master_node_id : GoString
  pub network_name : GoString
  pub node_id_list : List GoString
  pub service_list : List GoString

pub record NodeInfo : Type 0 where
  pub node_id : ℕ
  pub private_node : Bool
  pub listen_addr : GoString
  pub max_rpc_param_len : ℕ
  pub compress_bytes_len : ℕ
  pub service_list : List GoString
  pub public_service_list : List GoString
  pub allow_discovery : List AllowDiscovery
  pub status : NodeStatus
  pub retire : Bool

pub record NodeRpcInfo : Type 0 where
  pub node_info : NodeInfo
  pub client : ℕ

-- service.DiscoveryServiceEvent
pub record DiscoveryServiceEvent : Type 0 where
  pub is_discovery : Bool
  pub service_name : List GoString
  pub node_id : ℕ

abbrev pub Set : Type 0 → Type 0
Set A = List (A × Unit {0})

-- `services` are the services that service.GetService finds, `notified` is what NotifyEvent was
-- called with, the latest last; the clients below `next_client` are made, and `closed` were closed.
pub record Cluster : Type 0 where
  pub local_node_info : NodeInfo
  pub master_node_list : Option (List NodeInfo)
  pub map_rpc : List (ℕ × NodeRpcInfo)
  pub map_service_node : List (GoString × Set ℕ)
  pub map_template_service_node : List (GoString × Set GoString)
  pub map_service_listen_rpc_event : Set GoString
  pub services : Set GoString
  pub notified : List (GoString × DiscoveryServiceEvent)
  pub next_client : ℕ
  pub closed : List ℕ

-- `splitServiceName`, where it has two parts
abbrev pub parts : GoString → List GoString → GoString × Option GoString
parts full (name ∷ template ∷ []) = (name, some template)
parts full [] = (full, none)
parts full (name ∷ []) = (full, none)
parts full (name ∷ template ∷ more ∷ rest) = (full, none)

-- The name of a service, and its template if it has one; 58 is the colon.
unfoldable pub split_service_name : GoString → GoString × Option GoString
split_service_name full = parts full (split 58 full)

abbrev pub base : GoString → GoString
base full = (split_service_name full).0

unfoldable pub in_list : ℕ → List NodeInfo → Bool
in_list node [] = false
in_list node (i ∷ is) = i.node_id == node || in_list node is

unfoldable pub is_origin_master_discovery_node : ℕ → Cluster → Bool
is_origin_master_discovery_node node c = elim c.master_node_list [
  | none ↦ false
  | some masters ↦ in_list node masters
]

unfoldable pub deliver :
    DiscoveryServiceEvent → Set GoString → Set GoString → List (GoString × DiscoveryServiceEvent)
deliver ev services [] = []
deliver ev services ((name, _) ∷ rest) =
    let others = deliver ev services rest in
    if is_some (lookup name services) then (name, ev) ∷ others else others

unfoldable pub notify_all_service : DiscoveryServiceEvent → Cluster → Cluster
notify_all_service ev c = record c {
  notified = c.notified ++ deliver ev c.services c.map_service_listen_rpc_event;
}

unfoldable pub trigger_discovery_event : Bool → ℕ → List GoString → Cluster → Cluster
trigger_discovery_event found node names c =
    notify_all_service (record { is_discovery = found; service_name = names; node_id = node }) c

unfoldable pub reg_rpc_event : GoString → Cluster → Cluster
reg_rpc_event name c = record c {
  map_service_listen_rpc_event = insert name tt c.map_service_listen_rpc_event;
}

unfoldable pub un_reg_rpc_event : GoString → Cluster → Cluster
un_reg_rpc_event name c = record c {
  map_service_listen_rpc_event = delete name c.map_service_listen_rpc_event;
}

-- `delete(m[k], j)`, and `delete(m, k)` if `m[k]` is then empty; a missing `m[k]` is nil.
abbrev or_drop : {K J : Type 0} ⦃e : Comparable K⦄ → K → Set J → List (K × Set J) → List (K × Set J)
or_drop k [] m = delete k m
or_drop k (x ∷ xs) m = insert k (x ∷ xs) m

unfoldable pub drop_nested :
    {K J : Type 0} ⦃e : Comparable K⦄ ⦃f : Comparable J⦄
    → K
    → J
    → List (K × Set J)
    → List (K × Set J)
drop_nested k j m = or_drop k (delete j (inner k m)) m

-- The template part of delServiceNode.
unfoldable pub leave_template : GoString × Option GoString → Cluster → Cluster
leave_template (name, none) c = c
leave_template (name, some template) c = record c {
  map_template_service_node = drop_nested template name c.map_template_service_node;
}

unfoldable pub del_service_node : GoString → ℕ → Cluster → Cluster
del_service_node full node c =
    if node == c.local_node_info.node_id
    then c
    else let c' = leave_template (split_service_name full) c in
      record c' { map_service_node = drop_nested (base full) node c'.map_service_node }

unfoldable pub del_services : List GoString → ℕ → Cluster → Cluster
del_services [] node c = c
del_services (full ∷ rest) node c = del_services rest node (del_service_node full node c)

unfoldable pub join_template : GoString × Option GoString → Cluster → Cluster
join_template (name, none) c = c
join_template (name, some template) c = record c {
  map_template_service_node = put_nested template name tt c.map_template_service_node;
}

unfoldable pub add_service_node : GoString → ℕ → Cluster → Cluster
add_service_node full node c =
    let c' = join_template (split_service_name full) c in
    record c' { map_service_node = put_nested (base full) node tt c'.map_service_node }

unfoldable pub contains : GoString → List GoString → Bool
contains s [] = false
contains s (t ∷ ts) = t == s || contains s ts

-- The loop that assembles the services anew; `duplicate` are the names that had their turn.
unfoldable pub add_services : List GoString → List GoString → ℕ → Cluster → Cluster
add_services duplicate [] node c = c
add_services duplicate (full ∷ rest) node c =
    let again = contains full duplicate in
    add_services (if again then duplicate else full ∷ duplicate) rest node
      (if again then c else add_service_node full node c)
