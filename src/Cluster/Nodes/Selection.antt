-- ===== src/Cluster/Nodes/Selection.antt =====
-- Which clients GetNodeIdByService of cluster/parsecfg.go selects, and what delServiceNode of
-- cluster/cluster.go does to a template.
use origin.Prelude.{
  among, among-append, ℕ, nat_eq, bytes_eq, ◌==◌, Bool, true, false, not, ◌&&◌, ◌||◌, List, [], ◌∷◌,
  ◌≡◌, ◌≢◌, refl, ◌∙◌, sym, ap, arith, Option, none, some, is_some, lookup, inner, get_nested, ◌⊎◌,
  ◌↔◌, GoString, inl, inr, Bool-cases, Option-cases,
}
use origin.Cluster.Nodes.{
  NodeRpcInfo, Cluster, Set, del_service_node, leave_template, split_service_name,
}
use origin.Cluster.Nodes.Members.{
  get_rpc_client, take_client, take_clients, get_node_id_by_service, has_service,
}
use origin.Cluster.Nodes.Tables.{has-del_service_node, get-drop_nested}
use origin.Cluster.Nodes.Changes.{has_service_lem}

module _ (connected : ℕ → Bool) (filter_retire : Bool) (c : Cluster) (k : ℕ) where
  -- The client `k` belongs to the node, is connected, and not passed over as retired.
  pub record Serves (node : ℕ) : Type 0 where
    pub rpc_info : NodeRpcInfo
    pub is_known : lookup node c.map_rpc ≡ some rpc_info
    pub is_client : rpc_info.client ≡ k
    pub is_connected : connected k ≡ true
    pub not_passed : (filter_retire && rpc_info.node_info.retire) ≡ false

  abbrev taken : ℕ → List ℕ → List ℕ
  taken node clients = take_client connected filter_retire (get_rpc_client node c) clients

  taken_missing :
      (node : ℕ) (clients : List ℕ) → lookup node c.map_rpc ≡ none → taken node clients ≡ clients
  unfolding get_rpc_client take_client
  taken_missing node clients e = rw (e, get_rpc_client) refl

  taken_known :
      (node : ℕ) (clients : List ℕ) (r : NodeRpcInfo)
      → lookup node c.map_rpc ≡ some r
      → among k (taken node clients) ≡ (
          among k clients
          || (connected r.client && not (filter_retire && r.node_info.retire) && (r.client == k)))
  unfolding get_rpc_client take_client
  taken_known node clients r e =
      rw (e, get_rpc_client) (ground (arith, among-append k clients (r.client ∷ [])))

  taken_from :
      (node : ℕ) (clients : List ℕ)
      → among k (taken node clients) ≡ true
      → (among k clients ≡ true) ⊎ Serves node
  taken_from node clients h = elim (Option-cases (lookup node c.map_rpc)) [
    | inl e ↦ inl (sym (ap (among k) (taken_missing node clients e)) ∙ h)
    | inr (r, e) ↦ elim (Bool-cases (among k clients)) [
      | inl old ↦ inl old
      | inr new ↦
          let t = taken_known node clients r e in
          inr (record {
            rpc_info = r;
            is_known = e;
            is_client = ground arith;
            is_connected =
                ground (arith, ap connected (let same : r.client ≡ k = ground arith in same));
            not_passed = ground arith;
          })
    ]
  ]

  taken_of_Serves :
      (node : ℕ) (clients : List ℕ) → Serves node → among k (taken node clients) ≡ true
  taken_of_Serves node clients s = ground (
    arith,
    taken_known node clients s.rpc_info s.is_known,
    s.is_client,
    s.is_connected,
    s.not_passed,
    ap connected s.is_client,
  )

  taken_keeps :
      (node : ℕ) (clients : List ℕ) → among k clients ≡ true → among k (taken node clients) ≡ true
  taken_keeps node clients h = elim (Option-cases (lookup node c.map_rpc)) [
    | inl e ↦ ap (among k) (taken_missing node clients e) ∙ h
    | inr (r, e) ↦ ground (arith, taken_known node clients r e)
  ]

  abbrev Selected : Set ℕ → List ℕ → Type 0
  Selected nodes clients =
      (among k clients ≡ true) ⊎ ((node : ℕ) × (is_some (lookup node nodes) ≡ true) × Serves node)

  take_clients_from :
      (nodes : Set ℕ) (clients : List ℕ)
      → among k (take_clients connected filter_retire c nodes clients) ≡ true
      → Selected nodes clients
  unfolding take_clients lookup
  take_clients_from [] clients h = inl h
  take_clients_from ((node, u) ∷ rest) clients h =
      elim (take_clients_from rest (taken node clients) h) [
        | inl t ↦ elim (taken_from node clients t) [
          | inl old ↦ inl old
          | inr s ↦ inr (node, ground arith, s)
        ]
        | inr (m, at, s) ↦ inr (m, ground arith, s)
      ]

  take_clients_keeps :
      (nodes : Set ℕ) (clients : List ℕ)
      → among k clients ≡ true
      → among k (take_clients connected filter_retire c nodes clients) ≡ true
  unfolding take_clients
  take_clients_keeps [] clients h = h
  take_clients_keeps ((node, u) ∷ rest) clients h =
      take_clients_keeps rest (taken node clients) (taken_keeps node clients h)

  take_clients_of_Serves :
      (nodes : Set ℕ) (clients : List ℕ) (node : ℕ)
      → is_some (lookup node nodes) ≡ true
      → Serves node
      → among k (take_clients connected filter_retire c nodes clients) ≡ true
  unfolding take_clients lookup
  take_clients_of_Serves [] clients node h s = cc
  take_clients_of_Serves ((m, u) ∷ rest) clients node h s = elim (Bool-cases (m == node)) [
    | inl e ↦
        let same : m ≡ node = ground arith in
        take_clients_keeps rest (taken m clients) (rw same (taken_of_Serves node clients s))
    | inr e ↦ take_clients_of_Serves rest (taken m clients) node (ground arith) s
  ]

  -- GetNodeIdByService selects a client exactly if it is that of a node which HasService says has
  -- the service, the client is connected, and the node has not retired where retired ones are to
  -- be left out.
  pub get_node_id_by_service_lem :
      (name : GoString)
      → (among k (get_node_id_by_service connected name [] filter_retire c) ≡ true)
        ↔ ((node : ℕ) × (has_service node name c ≡ true) × Serves node)
  unfolding get_node_id_by_service get_nested
  get_node_id_by_service_lem name =
      let nodes = inner name c.map_service_node in
      (
        λ h. elim (take_clients_from nodes [] h) [
          | inl e ↦ absurd (cc)
          | inr (node, at, s) ↦ (node, has_service_lem node name c ∙ at, s)
        ],
        λ (node, at, s).
            take_clients_of_Serves nodes [] node (sym (has_service_lem node name c) ∙ at) s,
      )

-- Whether the service is listed under the template.
abbrev pub has_template : GoString → GoString → Cluster → Bool
has_template template name c = is_some (get_nested template name c.map_template_service_node)

leave_template_lem :
    (p : GoString × Option GoString) (name template : GoString) (c : Cluster)
    → p ≡ (name, some template)
    → has_template template name (leave_template p c) ≡ false
unfolding leave_template
leave_template_lem p name template c e = rw e (
    ground (
      arith,
      get-drop_nested template name template name c.map_template_service_node,
      bytes_eq.same_iff template template,
      bytes_eq.same_iff name name,
    ))

-- When a node with the service `name:template` leaves, no service of the name is listed under the
-- template any more, although every other node that has the service still has it.
pub template_lost :
    (full name template : GoString) (node other : ℕ) (c : Cluster)
    → split_service_name full ≡ (name, some template)
    → node ≢ c.local_node_info.node_id
    → node ≢ other
    → has_service other name c ≡ true
    → (has_service other name (del_service_node full node c) ≡ true)
      × (has_template template name (del_service_node full node c) ≡ false)
unfolding del_service_node
template_lost full name template node other c e away ne h =
    elim (Bool-cases (node == c.local_node_info.node_id)) [
      | inl same ↦ absurd (away (ground arith))
      | inr differs ↦ (
        has_service_lem other name (del_service_node full node c)
            ∙ ground (
              arith,
              has-del_service_node full node c name other away,
              has_service_lem other name c,
              h,
            ),
        rw differs (leave_template_lem (split_service_name full) name template c e),
      )
    ]
