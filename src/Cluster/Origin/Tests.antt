-- ===== src/Cluster/Origin/Tests.antt =====
-- Concrete runs of cluster/origindiscovery.go: a client of two masters, and a master with a node.
use origin.Prelude.{
  ℕ, none, some, true, false, ◌≡◌, refl, nat_eq, ◌==◌, if◌then◌else◌, Bool, [], ◌∷◌, arith,
  GoString, lookup, get_nested, inner,
}
use origin.Cluster.Nodes.{Cluster, is_origin_master_discovery_node}
use origin.Cluster.Nodes.Consistent.{IsConsistent}
use origin.Cluster.Nodes.Changes.{known, is_kept}
use origin.Cluster.Origin.{
  RpcNodeInfo, SubscribeDiscoverNotify, OriginDiscoveryMaster, is_reg_node,
  rpc_reg_service_discover, to_node_info,
}
use origin.Cluster.Origin.Client.{OriginDiscoveryClient, rpc_sub_service_discover, is_passed_over}
use origin.Cluster.Origin.Collect.{announced, joined}
use origin.Cluster.Origin.Sync.{heard, or_else, left, rpc_sub_service_discover_lem}
use origin.Cluster.Origin.Elsewhere.{rpc_sub-IsConsistent, dropped_by_one_master}
use origin.Cluster.Origin.Roster.{IsRoster}
use origin.Cluster.Origin.Requests.{
  reg_service_discover, node_disconnected, ping, serve_all, state_of, serve_all-IsRoster,
  registered_again,
}

abbrev s : GoString
s = 115 ∷ []

abbrev info : ℕ → RpcNodeInfo
info node = record {
  node_id = node;
  listen_addr = [];
  max_rpc_param_len = 0;
  private_node = false;
  retire = false;
  public_service_list = s ∷ [];
}

abbrev alone : Cluster
alone = record {
  local_node_info = to_node_info (info 1) [];
  master_node_list = none;
  map_rpc = [];
  map_service_node = [];
  map_template_service_node = [];
  map_service_listen_rpc_event = [];
  services = [];
  notified = [];
  next_client = 0;
  closed = [];
}

-- Node 5 is known by the masters 8 and 9.
abbrev client : OriginDiscoveryClient
client = record {
  local_node_id = 1;
  map_discovery = (8, (5, s ∷ []) ∷ []) ∷ (9, (5, s ∷ []) ∷ []) ∷ [];
  cluster = alone;
}

-- Master 8 has only node 6 any more.
abbrev full : SubscribeDiscoverNotify
full = record { master_node_id = 8; is_full = true; del_node_id = none; node_info = info 6 ∷ [] }

abbrev fits : GoString → GoString → Bool
fits pattern_ text = true

abbrev text : ℕ → GoString
text node = node ∷ []

rpc_sub_service_discover_lem_example :
    heard 8 6 (rpc_sub_service_discover fits text full client) ≡ (
      if full.master_node_id == 8
      then or_else (joined none (announced client full.node_info 6)) (left full client 6)
      else heard 8 6 client)
rpc_sub_service_discover_lem_example = rpc_sub_service_discover_lem fits text full client 8 6

alone-IsConsistent : IsConsistent alone
unfolding lookup get_nested inner
alone-IsConsistent = record { table = λ name n other. refl; covered = λ n r other e. cc }

rpc_sub-IsConsistent_example : IsConsistent (rpc_sub_service_discover fits text full client).cluster
rpc_sub-IsConsistent_example = rpc_sub-IsConsistent fits text full client alone-IsConsistent

by_eight : heard 8 5 client ≡ some (s ∷ [])
unfolding lookup get_nested inner
by_eight = refl

by_nine : heard 9 5 client ≡ some (s ∷ [])
unfolding lookup get_nested inner
by_nine = refl

not_kept : is_kept alone 5 ≡ false
unfolding is_origin_master_discovery_node
not_kept = refl

silent : announced client full.node_info 5 ≡ []
unfolding is_passed_over is_origin_master_discovery_node
silent = refl

dropped_by_one_master_example :
    (heard 9 5 (rpc_sub_service_discover fits text full client) ≡ some (s ∷ []))
    × (known (rpc_sub_service_discover fits text full client).cluster 5 ≡ none)
dropped_by_one_master_example =
    dropped_by_one_master fits text full client 9 5 (s ∷ []) (s ∷ []) refl (omega arith) by_eight
      by_nine silent not_kept

abbrev master : OriginDiscoveryMaster
master = record {
  map_node_info = (5, tt) ∷ [];
  node_info = info 5 ∷ [];
  ns_ttl = record { nodes = []; map_element = []; ttl = 30; next_element = 0 };
  cluster = alone;
  sent = [];
}

master-IsRoster : IsRoster master
unfolding is_reg_node lookup
master-IsRoster = record { agree = λ node. ground arith; distinct = (refl, tt) }

serve_all-IsRoster_example : IsRoster (
    serve_all (reg_service_discover 3 (some (info 6)) ∷ ping 4 5 ∷ node_disconnected 5 ∷ []) master)
serve_all-IsRoster_example =
    serve_all-IsRoster
      (reg_service_discover 3 (some (info 6)) ∷ ping 4 5 ∷ node_disconnected 5 ∷ []) master
      master-IsRoster

is_registered : is_reg_node 5 master ≡ true
unfolding is_reg_node lookup
is_registered = refl

-- Node 5 comes again with its service twice.
abbrev twice : RpcNodeInfo
twice = record (info 5) { public_service_list = s ∷ s ∷ [] }

registered_again_example :
    let ds' = state_of master (rpc_reg_service_discover 3 (some twice) master) in
    (ds'.node_info ≡ info 5 ∷ []) × (known ds'.cluster 5 ≡ some (to_node_info twice (s ∷ s ∷ [])))
registered_again_example = registered_again 3 twice master is_registered (omega arith)
