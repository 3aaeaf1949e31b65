-- ===== src/Cluster/Origin/Sync.antt =====
-- RPC_SubServiceDiscover of cluster/origindiscovery.go: what the client knows after a message, and
-- that the cluster stays consistent.
use origin.Prelude.{
  among-append, among, ℕ, nat_eq, ◌==◌, if◌then◌else◌, Bool, true, false, ◌&&◌, not, List, [], ◌∷◌,
  ◌≡◌, refl, ◌∙◌, ap, arith, Option, none, some, is_some, lookup, get_nested, get-put_nested,
  get-delete_nested, get_nested-inner, get_nested-missing, GoString, inl, inr, Bool-cases,
  Option-cases,
}
use origin.Cluster.Origin.{RpcNodeInfo, SubscribeDiscoverNotify}
use origin.Cluster.Origin.Client.{
  OriginDiscoveryClient, add_master_node, remove_master_node, collect, full_compare_diff_node,
  named_node, will_del_node_id, forget_node, forget_nodes, set_node_info, keep_node, keep_nodes,
  rpc_sub_service_discover,
}
use origin.Cluster.Origin.Collect.{
  announced, services_of, services_in, joined, IsKeyed, collect-IsKeyed, services_in-collect,
  among-missing_in,
}

abbrev pub or_else : Option (List GoString) → Option (List GoString) → Option (List GoString)
or_else none o = o
or_else (some xs) o = some xs

-- The services that the client knows of a node by a master.
abbrev pub heard : ℕ → ℕ → OriginDiscoveryClient → Option (List GoString)
heard master node dc = get_nested master node dc.map_discovery

module _ (master s node : ℕ) where
  heard-forget_nodes :
      (gone : List ℕ) (dc : OriginDiscoveryClient)
      → heard s node (forget_nodes master gone dc)
        ≡ (if (master == s) && among node gone then none else heard s node dc)
  unfolding forget_nodes forget_node remove_master_node
  heard-forget_nodes [] dc = ground arith
  heard-forget_nodes (m ∷ rest) dc = ground (
    arith,
    heard-forget_nodes rest (forget_node master m dc),
    get-delete_nested master m s node dc.map_discovery,
  )

  module _ (matches : GoString → GoString → Bool) (text : ℕ → GoString) where
    discovery-set_node_info :
        (i : RpcNodeInfo) (dc : OriginDiscoveryClient)
        → (set_node_info matches text master i dc).1.map_discovery ≡ dc.map_discovery
    unfolding set_node_info
    discovery-set_node_info i dc = ground arith

    heard-keep_node :
        (i : RpcNodeInfo) (dc : OriginDiscoveryClient)
        → heard s node (keep_node matches text master i dc) ≡ (
            if (master == s) && (i.node_id == node)
            then some i.public_service_list
            else heard s node dc)
    unfolding keep_node add_master_node
    heard-keep_node i dc =
        ap (get_nested s node)
          (discovery-set_node_info i (add_master_node master i.node_id i.public_service_list dc))
        ∙ ground
            (arith, get-put_nested master i.node_id s node i.public_service_list dc.map_discovery)

    heard-keep_nodes :
        (m : List (ℕ × RpcNodeInfo)) (dc : OriginDiscoveryClient)
        → IsKeyed m
        → heard s node (keep_nodes matches text master m dc) ≡ (
            if master == s then or_else (services_in m node) (heard s node dc) else heard s node dc)
    unfolding keep_nodes lookup
    heard-keep_nodes [] dc v = ground arith
    heard-keep_nodes ((k, i) ∷ m) dc v = ground (
      arith,
      heard-keep_nodes m (keep_node matches text master i dc) v.2,
      heard-keep_node i dc,
      v.0,
      v.1,
      ap (λ j. lookup j m) {x = k} {y = node},
    )

-- The node that the message names to be deleted; the local one is not.
abbrev pub is_named : OriginDiscoveryClient → Option ℕ → ℕ → Bool
is_named dc none node = false
is_named dc (some k) node = not (k == dc.local_node_id) && (k == node)

among-named_node :
    (dc : OriginDiscoveryClient) (o : Option ℕ) (node : ℕ)
    → among node (named_node dc o) ≡ is_named dc o node
unfolding named_node
among-named_node dc none node = refl
among-named_node dc (some k) node = ground arith

pub among-full_compare :
    (master : ℕ) (m : List (ℕ × RpcNodeInfo)) (dc : OriginDiscoveryClient) (node : ℕ)
    → among node (full_compare_diff_node master m dc)
      ≡ (is_some (heard master node dc) && not (is_some (lookup node m)))
unfolding full_compare_diff_node
among-full_compare master m dc node = elim (Option-cases (lookup master dc.map_discovery)) [
  | inl e ↦ rw (e, full_compare_diff_node, get_nested-missing master node dc.map_discovery e) refl
  | inr (nodes, e) ↦
      rw (e, full_compare_diff_node, get_nested-inner master node dc.map_discovery e)
        (among-missing_in m nodes node)
]

-- What is left of what was known of a node by the master, before the message's own nodes.
abbrev pub left : SubscribeDiscoverNotify → OriginDiscoveryClient → ℕ → Option (List GoString)
left req dc node =
    if req.is_full
    then none
    else if is_named dc req.del_node_id node
    then none
    else heard req.master_node_id node dc

pub is_some-services_of : (o : Option RpcNodeInfo) → is_some o ≡ is_some (services_of o)
is_some-services_of none = refl
is_some-services_of (some i) = refl

cleared_lem :
    (req : SubscribeDiscoverNotify) (dc : OriginDiscoveryClient) (s node : ℕ)
    (new : Option (List GoString))
    → services_in (collect dc req.node_info []) node ≡ new
    → (req.master_node_id == s) ≡ true
    → or_else new (
        heard s node (
          forget_nodes req.master_node_id
            (will_del_node_id req (collect dc req.node_info []) dc)
            dc))
      ≡ or_else new (left req dc node)
unfolding will_del_node_id
cleared_lem req dc s node (some xs) e h = refl
cleared_lem req dc s node none e h =
    let master = req.master_node_id in
    let m = collect dc req.node_info [] in
    let diff = full_compare_diff_node master m dc in
    let named = named_node dc req.del_node_id in
    let same : master ≡ s = ground arith in
    elim (Bool-cases req.is_full) [
      | inl full ↦ ground (
        arith,
        heard-forget_nodes master s node (will_del_node_id req m dc) dc,
        among-append node diff named,
        among-full_compare master m dc node,
        is_some-services_of (lookup node m),
        ap (λ k. heard k node dc) same,
      )
      | inr part ↦ ground (
        arith,
        heard-forget_nodes master s node (will_del_node_id req m dc) dc,
        among-named_node dc req.del_node_id node,
        ap (λ k. heard k node dc) same,
      )
    ]

-- After a message the client knows of each node by the message's master exactly the services that
-- the message announces, entries of the same node joined. A node that is not announced is forgotten
-- by a full message, and by the message that names it, and is as before otherwise. What is known by
-- other masters stays.
pub rpc_sub_service_discover_lem :
    (matches : GoString → GoString → Bool) (text : ℕ → GoString) (req : SubscribeDiscoverNotify)
    (dc : OriginDiscoveryClient) (s node : ℕ)
    → heard s node (rpc_sub_service_discover matches text req dc) ≡ (
        if req.master_node_id == s
        then or_else (joined none (announced dc req.node_info node)) (left req dc node)
        else heard s node dc)
unfolding rpc_sub_service_discover lookup
rpc_sub_service_discover_lem matches text req dc s node =
    let master = req.master_node_id in
    let m = collect dc req.node_info [] in
    let gone = will_del_node_id req m dc in
    let cleared = forget_nodes master gone dc in
    let kept =
      heard-keep_nodes master s node matches text m cleared
        (collect-IsKeyed dc req.node_info [] tt) in
    let told = services_in-collect dc req.node_info [] node in
    kept
    ∙ ground (
      arith,
      ap (λ o. or_else o (heard s node cleared)) told,
      cleared_lem req dc s node (joined none (announced dc req.node_info node)) told,
      heard-forget_nodes master s node gone dc,
    )
