-- ===== src/Cluster/Origin/Requests.antt =====
-- The discovery master of cluster/origindiscovery.go over a sequence of requests and events, and
-- what registering a second time does.
use origin.Prelude.{
  ℕ, nat_eq, ◌==◌, if◌then◌else◌, Bool, true, false, List, [], ◌∷◌, ◌≡◌, ◌≢◌, refl, ◌∙◌, ap, arith,
  Option, none, some, inl, inr, Bool-cases,
}
use origin.Cluster.Nodes.{NodeInfo}
use origin.Cluster.Nodes.Members.{del_node}
use origin.Cluster.Nodes.Changes.{known, del_node_lem, discovered_lem}
use origin.Cluster.Origin.{
  RpcNodeInfo, SubscribeDiscoverNotify, OriginDiscoveryMaster, is_reg_node, is_empty, add_node_info,
  update_node_info, remove_node_info, local_id, rpc_cast_go, news, on_nats_connected,
  on_node_connected, on_node_disconnect, expire_all, on_start, local_info, rpc_ping,
  rpc_node_retire, to_node_info, refresh, rpc_reg_service_discover, rpc_un_reg_service_discover,
}
use origin.Cluster.Origin.Roster.{
  IsRoster, add_node_info-IsRoster, remove_node_info-IsRoster, update_node_info-IsRoster,
}

-- What comes to a master. A registration and a ping carry the time of their arrival.
pub data Request : Type 0 where
  started : Request
  nats_connected : Request
  node_connected : ℕ → Request
  node_disconnected : ℕ → Request
  expired : List ℕ → Request
  ping : ℕ → ℕ → Request
  node_retire : RpcNodeInfo → Request
  reg_service_discover : ℕ → Option RpcNodeInfo → Request
  un_reg_service_discover : ℕ → Request

abbrev pub state_of :
    OriginDiscoveryMaster
    → Option (SubscribeDiscoverNotify × OriginDiscoveryMaster)
    → OriginDiscoveryMaster
state_of ds none = ds
state_of ds (some (answer, ds')) = ds'

abbrev pub serve : Request → OriginDiscoveryMaster → OriginDiscoveryMaster
serve started ds = on_start ds
serve nats_connected ds = on_nats_connected ds
serve (node_connected node) ds = on_node_connected node ds
serve (node_disconnected node) ds = on_node_disconnect node ds
serve (expired nodes) ds = expire_all nodes ds
serve (ping now node) ds = (rpc_ping now node ds).1
serve (node_retire info) ds = rpc_node_retire info ds
serve (reg_service_discover now info) ds = state_of ds (rpc_reg_service_discover now info ds)
serve (un_reg_service_discover node) ds = rpc_un_reg_service_discover node ds

abbrev pub serve_all : List Request → OriginDiscoveryMaster → OriginDiscoveryMaster
serve_all [] ds = ds
serve_all (r ∷ rest) ds = serve_all rest (serve r ds)

-- The roster does not see the rest of the state.
same_lists :
    (ds es : OriginDiscoveryMaster)
    → es.map_node_info ≡ ds.map_node_info
    → es.node_info ≡ ds.node_info
    → IsRoster ds
    → IsRoster es
unfolding is_reg_node
same_lists ds es e f v = record {
  agree = λ node. rw (e, f) (v.agree node);
  distinct = rw f v.distinct;
}

on_node_disconnect-IsRoster :
    (node : ℕ) (ds : OriginDiscoveryMaster) → IsRoster ds → IsRoster (on_node_disconnect node ds)
unfolding on_node_disconnect
on_node_disconnect-IsRoster node ds v = elim (Bool-cases (is_reg_node node ds)) [
  | inl h ↦
      rw h (same_lists (remove_node_info node ds) _ refl refl (remove_node_info-IsRoster ds v node))
  | inr h ↦ rw h v
]

expire_all-IsRoster :
    (nodes : List ℕ) (ds : OriginDiscoveryMaster) → IsRoster ds → IsRoster (expire_all nodes ds)
unfolding expire_all
expire_all-IsRoster [] ds v = v
expire_all-IsRoster (node ∷ rest) ds v =
    expire_all-IsRoster rest (on_node_disconnect node ds) (on_node_disconnect-IsRoster node ds v)

refresh-IsRoster :
    (now node : ℕ) (ds : OriginDiscoveryMaster) → IsRoster ds → IsRoster (refresh now node ds)
unfolding refresh
refresh-IsRoster now node ds v = elim (Bool-cases (node == local_id ds)) [
  | inl h ↦ rw h v
  | inr h ↦ rw h (same_lists ds _ refl refl v)
]

reg-IsRoster :
    (now : ℕ) (info : Option RpcNodeInfo) (ds : OriginDiscoveryMaster)
    → IsRoster ds
    → IsRoster (state_of ds (rpc_reg_service_discover now info ds))
unfolding rpc_reg_service_discover rpc_cast_go
reg-IsRoster now none ds v = v
reg-IsRoster now (some i) ds v =
    let r = refresh now i.node_id ds in
    same_lists _ _ refl refl (
      add_node_info-IsRoster (rpc_cast_go (news i r) r)
        (same_lists r _ refl refl (refresh-IsRoster now i.node_id ds v)) i)

ping-IsRoster :
    (now node : ℕ) (ds : OriginDiscoveryMaster) → IsRoster ds → IsRoster (rpc_ping now node ds).1
unfolding rpc_ping
ping-IsRoster now node ds v = elim (Bool-cases (is_reg_node node ds)) [
  | inl h ↦ rw h (same_lists ds _ refl refl v)
  | inr h ↦ rw h v
]

serve-IsRoster : (r : Request) (ds : OriginDiscoveryMaster) → IsRoster ds → IsRoster (serve r ds)
unfolding on_start on_nats_connected on_node_connected rpc_cast_go rpc_node_retire
    rpc_un_reg_service_discover
serve-IsRoster started ds v = add_node_info-IsRoster ds v (local_info ds)
serve-IsRoster nats_connected ds v = same_lists ds _ refl refl v
serve-IsRoster (node_connected node) ds v = same_lists ds _ refl refl v
serve-IsRoster (node_disconnected node) ds v = on_node_disconnect-IsRoster node ds v
serve-IsRoster (expired nodes) ds v = expire_all-IsRoster nodes ds v
serve-IsRoster (ping now node) ds v = ping-IsRoster now node ds v
serve-IsRoster (node_retire info) ds v =
    same_lists (update_node_info info ds) _ refl refl (update_node_info-IsRoster ds v info)
serve-IsRoster (reg_service_discover now info) ds v = reg-IsRoster now info ds v
serve-IsRoster (un_reg_service_discover node) ds v = on_node_disconnect-IsRoster node ds v

-- Whatever requests a master serves and in whatever order, its map of registered nodes and the list
-- that it sends out hold the same nodes, and the list holds each of them once, if that is so first.
pub serve_all-IsRoster :
    (rs : List Request) (ds : OriginDiscoveryMaster) → IsRoster ds → IsRoster (serve_all rs ds)
serve_all-IsRoster [] ds v = v
serve_all-IsRoster (r ∷ rs) ds v = serve_all-IsRoster rs (serve r ds) (serve-IsRoster r ds v)

if_same : {A : Type 0} (b : Bool) (a : A) → (if b then a else a) ≡ a
if_same true a = refl
if_same false a = refl

refresh_lem :
    (now node : ℕ) (ds : OriginDiscoveryMaster)
    → ((refresh now node ds).map_node_info ≡ ds.map_node_info)
      × ((refresh now node ds).node_info ≡ ds.node_info)
      × ((refresh now node ds).cluster ≡ ds.cluster)
unfolding refresh
refresh_lem now node ds = elim (Bool-cases (node == local_id ds)) [
  | inl h ↦ rw h (refl, refl, refl)
  | inr h ↦ rw h (refl, refl, refl)
]

add_registered :
    (info : RpcNodeInfo) (ds : OriginDiscoveryMaster)
    → is_reg_node info.node_id ds ≡ true
    → add_node_info info ds ≡ ds
unfolding add_node_info
add_registered info ds reg = rw reg (if_same (is_empty info.public_service_list) ds)

-- A node that registers again, with other services or another address, is in the master's cluster
-- as it now is, while the list that the master answers with and sends to others stays as it was.
pub registered_again :
    (now : ℕ) (info : RpcNodeInfo) (ds : OriginDiscoveryMaster)
    → is_reg_node info.node_id ds ≡ true
    → info.node_id ≢ local_id ds
    → let ds' = state_of ds (rpc_reg_service_discover now (some info) ds) in
      (ds'.node_info ≡ ds.node_info)
      × (known ds'.cluster info.node_id ≡ some (to_node_info info info.public_service_list))
unfolding rpc_reg_service_discover rpc_cast_go is_reg_node
registered_again now info ds reg other =
    let r = refresh now info.node_id ds in
    let (same_map, same_list, same_cluster) = refresh_lem now info.node_id ds in
    let told = rpc_cast_go (news info r) r in
    let old : is_reg_node info.node_id told ≡ true = rw same_map reg in
    let c = del_node info.node_id ds.cluster in
    let (stays, lost) = del_node_lem info.node_id ds.cluster in
    rw (add_registered info told old, same_cluster)
      (
        same_list,
        (discovered_lem (to_node_info info info.public_service_list) c).1 info.node_id
            ∙ ground (arith, ap (λ (i : NodeInfo). i.node_id) stays.local),
      )
