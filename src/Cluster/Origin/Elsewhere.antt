-- ===== src/Cluster/Origin/Elsewhere.antt =====
-- What a message does to the cluster in cluster/origindiscovery.go: nodes and services stay
-- consistent, and a node that one master drops is gone although another master lists it.
use origin.Prelude.{
  among-append, among, ℕ, nat_eq, ◌==◌, if◌then◌else◌, Bool, true, false, ◌||◌, ◌&&◌, not, List, [],
  ◌∷◌, ◌≡◌, ◌≢◌, refl, ◌∙◌, ap, arith, none, some, lookup, GoString, inl, inr, Bool-cases,
}
use origin.Cluster.Nodes.{Cluster}
use origin.Cluster.Nodes.Members.{del_node, service_discovery_set_node_info}
use origin.Cluster.Nodes.Consistent.{
  IsConsistent, set_node_info-IsConsistent, del_node-IsConsistent,
}
use origin.Cluster.Nodes.Changes.{known, is_kept, del_node_lem, discovered_lem, is_kept-Stays}
use origin.Cluster.Origin.{RpcNodeInfo, SubscribeDiscoverNotify, to_node_info, is_empty}
use origin.Cluster.Origin.Client.{
  OriginDiscoveryClient, add_master_node, remove_master_node, collect, will_del_node_id,
  full_compare_diff_node, named_node, forget_node, forget_nodes, set_node_info, keep_node,
  keep_nodes, rpc_sub_service_discover, discoverable,
}
use origin.Cluster.Origin.Collect.{announced, IsKeyed, collect-IsKeyed, services_in-collect}
use origin.Cluster.Origin.Sync.{
  heard, rpc_sub_service_discover_lem, among-full_compare, is_some-services_of,
}

forget_nodes-IsConsistent :
    (master : ℕ) (gone : List ℕ) (dc : OriginDiscoveryClient)
    → IsConsistent dc.cluster
    → IsConsistent (forget_nodes master gone dc).cluster
unfolding forget_nodes forget_node remove_master_node
forget_nodes-IsConsistent master [] dc v = v
forget_nodes-IsConsistent master (m ∷ rest) dc v =
    forget_nodes-IsConsistent master rest (forget_node master m dc)
      (del_node-IsConsistent m dc.cluster v)

known-forget_nodes :
    (master : ℕ) (gone : List ℕ) (dc : OriginDiscoveryClient) (node : ℕ)
    → (is_kept (forget_nodes master gone dc).cluster ≡ is_kept dc.cluster)
      × (known (forget_nodes master gone dc).cluster node ≡ (
          if among node gone && not (is_kept dc.cluster node) then none else known dc.cluster node))
unfolding forget_nodes forget_node remove_master_node
known-forget_nodes master [] dc node = (refl, refl)
known-forget_nodes master (m ∷ rest) dc node =
    let (stays, lost) = del_node_lem m dc.cluster in
    let (kept, ih) = known-forget_nodes master rest (forget_node master m dc) node in
    let same = is_kept-Stays dc.cluster (del_node m dc.cluster) stays in
    (
      kept ∙ same,
      ground
          (arith, ih, lost node, ap (λ k. k node) same, ap (is_kept dc.cluster) {x = m} {y = node}),
    )

module _ (matches : GoString → GoString → Bool) (text : ℕ → GoString) (master : ℕ) where
  -- The client hands infos over whose services are the public ones.
  set_node_info-cluster :
      (i : RpcNodeInfo) (dc : OriginDiscoveryClient) (P : Cluster → Type 0)
      → P dc.cluster
      → ((services : List GoString)
          → P (service_discovery_set_node_info (to_node_info i services) dc.cluster))
      → P (set_node_info matches text master i dc).1.cluster
  unfolding set_node_info
  set_node_info-cluster i dc P same new =
      elim (Bool-cases (i.private_node || i.node_id == dc.local_node_id)) [
        | inl h ↦ rw h same
        | inr h ↦
            elim (Bool-cases (
              is_empty
                (discoverable matches text dc.cluster master i.node_id i.public_service_list))) [
                  | inl g ↦ rw (h, g) same
                  | inr g ↦
                      rw (h, g)
                        (new (
                          discoverable matches text dc.cluster master i.node_id
                            i.public_service_list))
                ]
      ]

  keep_node-IsConsistent :
      (i : RpcNodeInfo) (dc : OriginDiscoveryClient)
      → IsConsistent dc.cluster
      → IsConsistent (keep_node matches text master i dc).cluster
  unfolding keep_node add_master_node
  keep_node-IsConsistent i dc v =
      set_node_info-cluster i (add_master_node master i.node_id i.public_service_list dc)
        IsConsistent v
        (λ services.
          set_node_info-IsConsistent (to_node_info i services) dc.cluster v (λ name h. h))

  keep_nodes-IsConsistent :
      (m : List (ℕ × RpcNodeInfo)) (dc : OriginDiscoveryClient)
      → IsConsistent dc.cluster
      → IsConsistent (keep_nodes matches text master m dc).cluster
  unfolding keep_nodes
  keep_nodes-IsConsistent [] dc v = v
  keep_nodes-IsConsistent ((k, i) ∷ m) dc v =
      keep_nodes-IsConsistent m (keep_node matches text master i dc) (keep_node-IsConsistent i dc v)

  known-keep_node :
      (i : RpcNodeInfo) (dc : OriginDiscoveryClient) (node : ℕ)
      → i.node_id ≢ node
      → known (keep_node matches text master i dc).cluster node ≡ known dc.cluster node
  unfolding keep_node add_master_node
  known-keep_node i dc node other =
      set_node_info-cluster i (add_master_node master i.node_id i.public_service_list dc)
        (λ c. known c node ≡ known dc.cluster node) refl
        (λ services. ground (arith, (discovered_lem (to_node_info i services) dc.cluster).1 node))

  known-keep_nodes :
      (m : List (ℕ × RpcNodeInfo)) (dc : OriginDiscoveryClient) (node : ℕ)
      → IsKeyed m
      → lookup node m ≡ none
      → known (keep_nodes matches text master m dc).cluster node ≡ known dc.cluster node
  unfolding keep_nodes lookup
  known-keep_nodes [] dc node v e = refl
  known-keep_nodes ((k, i) ∷ m) dc node v e =
      known-keep_nodes m (keep_node matches text master i dc) node v.2 (ground arith)
      ∙ known-keep_node i dc node (λ h. ground (arith, v.0))

-- Every message leaves the nodes and the table of services consistent.
pub rpc_sub-IsConsistent :
    (matches : GoString → GoString → Bool) (text : ℕ → GoString) (req : SubscribeDiscoverNotify)
    (dc : OriginDiscoveryClient)
    → IsConsistent dc.cluster
    → IsConsistent (rpc_sub_service_discover matches text req dc).cluster
unfolding rpc_sub_service_discover
rpc_sub-IsConsistent matches text req dc v =
    let m = collect dc req.node_info [] in
    keep_nodes-IsConsistent matches text req.master_node_id m _
      (forget_nodes-IsConsistent req.master_node_id (will_del_node_id req m dc) dc v)

-- A full message without a node that its master had announced takes the node out of the cluster,
-- unless it is the local one or a master, although another master had announced it too and it is
-- still noted with that master's services.
pub dropped_by_one_master :
    (matches : GoString → GoString → Bool) (text : ℕ → GoString) (req : SubscribeDiscoverNotify)
    (dc : OriginDiscoveryClient) (other node : ℕ) (xs ys : List GoString)
    → req.is_full ≡ true
    → req.master_node_id ≢ other
    → heard req.master_node_id node dc ≡ some xs
    → heard other node dc ≡ some ys
    → announced dc req.node_info node ≡ []
    → is_kept dc.cluster node ≡ false
    → (heard other node (rpc_sub_service_discover matches text req dc) ≡ some ys)
      × (known (rpc_sub_service_discover matches text req dc).cluster node ≡ none)
unfolding rpc_sub_service_discover will_del_node_id lookup
dropped_by_one_master matches text req dc other node xs ys full differs here there silent free =
    let master = req.master_node_id in
    let m = collect dc req.node_info [] in
    let gone = will_del_node_id req m dc in
    let diff = full_compare_diff_node master m dc in
    let told = services_in-collect dc req.node_info [] node in
    let missing : lookup node m ≡ none =
      ground (arith, told, silent, is_some-services_of (lookup node m)) in
    (
      ground (arith, rpc_sub_service_discover_lem matches text req dc other node),
      known-keep_nodes matches text master m (forget_nodes master gone dc) node
            (collect-IsKeyed dc req.node_info [] tt) missing
          ∙ ground (
            arith,
            (known-forget_nodes master gone dc node).1,
            among-append node diff (named_node dc req.del_node_id),
            among-full_compare master m dc node,
            missing,
          ),
    )
