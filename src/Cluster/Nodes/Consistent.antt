-- ===== src/Cluster/Nodes/Consistent.antt =====
-- The nodes and the table of services of cluster/cluster.go agree, whatever discovery reports.
use origin.Prelude.{
  ℕ, nat_eq, bytes_eq, ◌==◌, if◌then◌else◌, Bool, true, false, ◌||◌, List, [], ◌≡◌, ◌≢◌, refl, ◌∙◌,
  ap, arith, Option, none, some, lookup, insert, delete, lookup-insert, lookup-delete, GoString,
  inl, inr, Bool-cases, Option-cases,
}
use origin.Cluster.Nodes.{
  NodeInfo, NodeRpcInfo, Cluster, trigger_discovery_event, notify_all_service, del_services,
  add_services, is_origin_master_discovery_node,
}
use origin.Cluster.Nodes.Members.{
  clear_last, keep_node, service_discovery_set_node_info, drop_node, del_node, discard_node,
  is_discard,
}
use origin.Cluster.Nodes.Tables.{
  Frame, Frame-refl, Frame-trans, has, offers, Frame-del_services, Frame-add_services,
  has-del_services, has-add_services, Entered-nil,
}

-- What a node that is known this way offers.
abbrev pub provides : Option NodeRpcInfo → GoString → Bool
provides none name = false
provides (some r) name = offers r.node_info.public_service_list name

-- What a node makes public is among its services.
abbrev pub IsCovered : NodeInfo → Type 0
IsCovered info =
    (name : GoString)
    → offers info.public_service_list name ≡ true
    → offers info.service_list name ≡ true

pub record IsConsistent (c : Cluster) : Type 0 where
  pub table :
      (name : GoString) (n : ℕ)
      → n ≢ c.local_node_info.node_id
      → has name n c ≡ provides (lookup n c.map_rpc) name
  pub covered :
      (n : ℕ) (r : NodeRpcInfo)
      → n ≢ c.local_node_info.node_id
      → lookup n c.map_rpc ≡ some r
      → IsCovered r.node_info

pub Frame-clear_last :
    (node : ℕ) (c : Cluster) (last : Option NodeRpcInfo) → Frame c (clear_last node last c)
unfolding clear_last
Frame-clear_last node c none = Frame-refl c
Frame-clear_last node c (some r) = Frame-del_services node r.node_info.service_list c

pub Frame-trigger_discovery_event :
    (found : Bool) (node : ℕ) (names : List GoString) (c : Cluster)
    → Frame c (trigger_discovery_event found node names c)
unfolding trigger_discovery_event notify_all_service
Frame-trigger_discovery_event found node names c = record {
  local = refl;
  masters = refl;
  nodes = refl;
  clients = refl;
  gone = refl;
}

module _ (info : NodeInfo) (c : Cluster) (v : IsConsistent c) (ok_info : IsCovered info)
    (away : info.node_id ≢ c.local_node_info.node_id) where
  -- Once its last services are cleared, the node stands under no name.
  has-clear_last :
      (last : Option NodeRpcInfo) (name : GoString) (n : ℕ)
      → lookup info.node_id c.map_rpc ≡ last
      → has name n (clear_last info.node_id last c)
        ≡ (if info.node_id == n then false else has name n c)
  unfolding clear_last
  has-clear_last none name n e = ground (arith, v.table name n, e)
  has-clear_last (some r) name n e = ground (
    arith,
    has-del_services info.node_id r.node_info.service_list c name n away,
    v.table name info.node_id away,
    v.covered info.node_id r away e name,
    e,
  )

  abbrev told : Option NodeRpcInfo → Cluster
  told last =
      trigger_discovery_event true info.node_id info.public_service_list
        (clear_last info.node_id last c)

  Frame-told : (last : Option NodeRpcInfo) → Frame c (told last)
  Frame-told last = Frame-trans (Frame-clear_last info.node_id c last) (
      Frame-trigger_discovery_event true info.node_id info.public_service_list
        (clear_last info.node_id last c))

  has-told :
      (last : Option NodeRpcInfo) (name : GoString) (n : ℕ)
      → has name n (told last) ≡ has name n (clear_last info.node_id last c)
  unfolding trigger_discovery_event notify_all_service
  has-told last name n = refl

  abbrev assembled : Option NodeRpcInfo → Cluster
  assembled last = add_services [] info.public_service_list info.node_id (told last)

  Frame-assembled : (last : Option NodeRpcInfo) → Frame c (assembled last)
  Frame-assembled last =
      Frame-trans (Frame-told last)
        (Frame-add_services info.node_id [] info.public_service_list (told last))

  has-assembled :
      (last : Option NodeRpcInfo) (name : GoString) (n : ℕ)
      → lookup info.node_id c.map_rpc ≡ last
      → has name n (assembled last)
        ≡ (if info.node_id == n then offers info.public_service_list name else has name n c)
  has-assembled last name n e = ground (
    arith,
    has-add_services info.node_id [] info.public_service_list (told last) name n
        (Entered-nil info.node_id (told last)),
    has-told last name n,
    has-clear_last last name n e,
  )

  -- The new table and the new list of nodes agree.
  changed-IsConsistent :
      (d : Cluster) (r : NodeRpcInfo)
      → d.local_node_info ≡ c.local_node_info
      → r.node_info ≡ info
      → d.map_rpc ≡ insert info.node_id r c.map_rpc
      → ((name : GoString) (n : ℕ)
          → has name n d
            ≡ (if info.node_id == n then offers info.public_service_list name else has name n c))
      → IsConsistent d
  changed-IsConsistent d r local is_info nodes table = record {
    table = λ name n other.
        let not_local : n ≢ c.local_node_info.node_id = rw local at other in
        rw nodes (
          ground (
            arith,
            table name n,
            lookup-insert info.node_id n r c.map_rpc,
            v.table name n not_local,
            ap (λ (i : NodeInfo). offers i.public_service_list name) is_info,
          ));
    covered = λ n s other e.
        let not_local : n ≢ c.local_node_info.node_id = rw local at other in
        let l = lookup-insert info.node_id n r c.map_rpc in
        let e' : lookup n (insert info.node_id r c.map_rpc) ≡ some s = rw nodes at e in
        elim (Bool-cases (info.node_id == n)) [
          | inl h ↦
              let one : s ≡ r = ground arith in
              let same : s.node_info ≡ info = ap (λ (x : NodeRpcInfo). x.node_info) one ∙ is_info in
              rw same ok_info
          | inr h ↦ v.covered n s not_local (ground arith)
        ];
  }

  kept-IsConsistent :
      (last : Option NodeRpcInfo)
      → lookup info.node_id c.map_rpc ≡ last
      → IsConsistent (keep_node info last (assembled last))
  unfolding keep_node
  kept-IsConsistent none e =
      let f = Frame-assembled none in
      let r : NodeRpcInfo = record { node_info = info; client = (assembled none).next_client } in
      changed-IsConsistent _ r f.local refl (ap (insert info.node_id r) f.nodes)
        (λ name n. has-assembled none name n e)
  kept-IsConsistent (some r) e =
      let f = Frame-assembled (some r) in
      let r' : NodeRpcInfo = record r { node_info = info } in
      changed-IsConsistent _ r' f.local refl (ap (insert info.node_id r') f.nodes)
        (λ name n. has-assembled (some r) name n e)

pub set_node_info-IsConsistent :
    (info : NodeInfo) (c : Cluster)
    → IsConsistent c
    → IsCovered info
    → IsConsistent (service_discovery_set_node_info info c)
unfolding service_discovery_set_node_info
set_node_info-IsConsistent info c v ok_info =
    elim (Bool-cases (info.node_id == c.local_node_info.node_id)) [
      | inl h ↦ rw h v
      | inr h ↦
          rw h
            (kept-IsConsistent info c v ok_info (ground arith) (lookup info.node_id c.map_rpc) refl)
    ]

drop_node-IsConsistent :
    (node : ℕ) (c : Cluster) (last : Option NodeRpcInfo)
    → IsConsistent c
    → node ≢ c.local_node_info.node_id
    → lookup node c.map_rpc ≡ last
    → IsConsistent (drop_node node last c)
unfolding drop_node trigger_discovery_event notify_all_service
drop_node-IsConsistent node c none v away e = v
drop_node-IsConsistent node c (some r) v away e =
    let told = trigger_discovery_event false node r.node_info.service_list c in
    let services = r.node_info.service_list in
    let f = Frame-del_services node services told in
    let nodes : (n : ℕ)
        → lookup n (delete node (del_services services node told).map_rpc)
          ≡ (if node == n then none else lookup n c.map_rpc) =
      λ n. lookup-delete node n _ ∙ ap (λ m. if node == n then none else lookup n m) f.nodes in
    record {
      table = λ name n other.
          let not_local : n ≢ c.local_node_info.node_id = rw f.local at other in
          rw (nodes n) (
            ground (
              arith,
              has-del_services node services told name n away,
              v.table name n not_local,
              v.covered node r away e name,
              v.table name node away,
              e,
            ));
      covered = λ n s other h.
          let not_local : n ≢ c.local_node_info.node_id = rw f.local at other in
          v.covered n s not_local (ground (arith, nodes n));
    }

pub del_node-IsConsistent :
    (node : ℕ) (c : Cluster) → IsConsistent c → IsConsistent (del_node node c)
unfolding del_node
del_node-IsConsistent node c v =
    elim (Bool-cases
      (is_origin_master_discovery_node node c || node == c.local_node_info.node_id)) [
        | inl h ↦ rw h v
        | inr h ↦ rw h (drop_node-IsConsistent node c (lookup node c.map_rpc) v (ground arith) refl)
      ]

pub discard_node-IsConsistent :
    (node : ℕ) (c : Cluster) → IsConsistent c → IsConsistent (discard_node node c)
unfolding discard_node
discard_node-IsConsistent node c v = elim (Option-cases (lookup node c.map_rpc)) [
  | inl none_there ↦ rw (none_there, discard_node) v
  | inr (r, e) ↦
      rw (e, discard_node)
        (elim (Bool-cases (is_discard r.node_info.status)) [
          | inl h ↦ rw h (del_node-IsConsistent node c v)
          | inr h ↦ rw h v
        ])
]
