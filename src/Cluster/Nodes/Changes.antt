-- ===== src/Cluster/Nodes/Changes.antt =====
-- Discovery as a sequence of changes, and what the cluster of cluster/cluster.go knows after it.
use origin.Prelude.{
  ℕ, nat_eq, bytes_eq, ◌==◌, if◌then◌else◌, Bool, true, false, ◌||◌, List, [], ◌∷◌, ◌≡◌, ◌≢◌, refl,
  ◌∙◌, ap, fun_ext, arith, Option, none, some, lookup, get_nested-inner, get_nested-missing,
  lookup-insert, lookup-delete, GoString, inl, inr, Bool-cases, Option-cases,
}
use origin.Cluster.Nodes.{
  NodeInfo, NodeRpcInfo, Cluster, trigger_discovery_event, add_services,
  is_origin_master_discovery_node,
}
use origin.Cluster.Nodes.Members.{
  clear_last, keep_node, service_discovery_set_node_info, drop_node, del_node, discard_node,
  has_service, is_discard,
}
use origin.Cluster.Nodes.Tables.{
  Frame, Frame-trans, has, offers, Frame-del_services, Frame-add_services,
}
use origin.Cluster.Nodes.Consistent.{
  provides, IsCovered, IsConsistent, set_node_info-IsConsistent, del_node-IsConsistent,
  discard_node-IsConsistent, Frame-clear_last, Frame-trigger_discovery_event,
}

-- What discovery calls.
pub data Change : Type 0 where
  discovered : NodeInfo → Change
  lost : ℕ → Change
  discarded : ℕ → Change

abbrev pub apply : Change → Cluster → Cluster
apply (discovered info) c = service_discovery_set_node_info info c
apply (lost node) c = del_node node c
apply (discarded node) c = discard_node node c

abbrev pub apply_all : List Change → Cluster → Cluster
apply_all [] c = c
apply_all (ch ∷ rest) c = apply_all rest (apply ch c)

-- The infos that discovery hands over are covered.
abbrev pub AllCovered : List Change → Type 0
AllCovered [] = Unit {0}
AllCovered (discovered info ∷ rest) = IsCovered info × AllCovered rest
AllCovered (lost node ∷ rest) = AllCovered rest
AllCovered (discarded node ∷ rest) = AllCovered rest

apply_all-IsConsistent :
    (chs : List Change) (c : Cluster)
    → IsConsistent c
    → AllCovered chs
    → IsConsistent (apply_all chs c)
apply_all-IsConsistent [] c v a = v
apply_all-IsConsistent (discovered info ∷ chs) c v a =
    apply_all-IsConsistent chs _ (set_node_info-IsConsistent info c v a.0) a.1
apply_all-IsConsistent (lost node ∷ chs) c v a =
    apply_all-IsConsistent chs _ (del_node-IsConsistent node c v) a
apply_all-IsConsistent (discarded node ∷ chs) c v a =
    apply_all-IsConsistent chs _ (discard_node-IsConsistent node c v) a

pub has_service_lem :
    (node : ℕ) (name : GoString) (c : Cluster) → has_service node name c ≡ has name node c
unfolding has_service
has_service_lem node name c = elim (Option-cases (lookup name c.map_service_node)) [
  | inl e ↦ rw (e, has_service, get_nested-missing name node c.map_service_node e) refl
  | inr (m, e) ↦ rw (e, has_service, get_nested-inner name node c.map_service_node e) refl
]

-- The last report of each node.
abbrev pub Known : Type 0
Known = ℕ → Option NodeInfo

abbrev pub info_of : Option NodeRpcInfo → Option NodeInfo
info_of none = none
info_of (some r) = some r.node_info

abbrev pub makes_public : Option NodeInfo → GoString → Bool
makes_public none name = false
makes_public (some i) name = offers i.public_service_list name

abbrev pub known : Cluster → Known
known c node = info_of (lookup node c.map_rpc)

abbrev pub is_kept : Cluster → ℕ → Bool
is_kept c node = is_origin_master_discovery_node node c || node == c.local_node_info.node_id

abbrev pub forget : (ℕ → Bool) → ℕ → Known → Known
forget kept m k n = if kept m then k n else if m == n then none else k n

abbrev pub is_discarded : Option NodeInfo → Bool
is_discarded none = false
is_discarded (some i) = is_discard i.status

-- What a change makes known; `local` is the local node, and the nodes in `kept` are not lost.
abbrev pub learn : ℕ → (ℕ → Bool) → Change → Known → Known
learn local kept (discovered info) k n =
    if info.node_id == local then k n else if info.node_id == n then some info else k n
learn local kept (lost m) k n = forget kept m k n
learn local kept (discarded m) k n = if is_discarded (k m) then forget kept m k n else k n

abbrev pub learn_all : ℕ → (ℕ → Bool) → List Change → Known → Known
learn_all local kept [] k = k
learn_all local kept (ch ∷ rest) k = learn_all local kept rest (learn local kept ch k)

-- What stays, whoever comes and goes.
pub record Stays (c d : Cluster) : Type 0 where
  pub local : d.local_node_info ≡ c.local_node_info
  pub masters : d.master_node_list ≡ c.master_node_list

keep_lem :
    (info : NodeInfo) (c : Cluster) (last : Option NodeRpcInfo) (d : Cluster)
    → Frame c d
    → lookup info.node_id c.map_rpc ≡ last
    → Stays c (keep_node info last d)
      × ((n : ℕ)
          → known (keep_node info last d) n ≡ (if info.node_id == n then some info else known c n))
unfolding keep_node
keep_lem info c none d f e = (
  record { local = f.local; masters = f.masters },
  λ n.
      let r : NodeRpcInfo = record { node_info = info; client = d.next_client } in
      rw f.nodes (ground (arith, lookup-insert info.node_id n r c.map_rpc)),
)
keep_lem info c (some r) d f e = (
  record { local = f.local; masters = f.masters },
  λ n.
      let r' : NodeRpcInfo = record r { node_info = info } in
      rw f.nodes (ground (arith, lookup-insert info.node_id n r' c.map_rpc)),
)

-- After the change, this much stays and this is known.
abbrev pub Learns : Change → Cluster → Cluster → Type 0
Learns ch c d =
    Stays c d × ((n : ℕ) → known d n ≡ learn c.local_node_info.node_id (is_kept c) ch (known c) n)

pub discovered_lem :
    (info : NodeInfo) (c : Cluster) → Learns (discovered info) c (apply (discovered info) c)
unfolding service_discovery_set_node_info
discovered_lem info c = elim (Bool-cases (info.node_id == c.local_node_info.node_id)) [
  | inl h ↦ rw h (record { local = refl; masters = refl }, λ n. refl)
  | inr h ↦
      let last = lookup info.node_id c.map_rpc in
      let cleared = clear_last info.node_id last c in
      let names = info.public_service_list in
      let told = trigger_discovery_event true info.node_id names cleared in
      let f = Frame-trans (Frame-clear_last info.node_id c last) (
        Frame-trans (Frame-trigger_discovery_event true info.node_id names cleared)
          (Frame-add_services info.node_id [] names told)) in
      rw h (keep_lem info c last (add_services [] names info.node_id told) f refl)
]

drop_node_lem :
    (m : ℕ) (c : Cluster) (last : Option NodeRpcInfo)
    → lookup m c.map_rpc ≡ last
    → Stays c (drop_node m last c)
      × ((n : ℕ) → known (drop_node m last c) n ≡ (if m == n then none else known c n))
unfolding drop_node
drop_node_lem m c none e = (record { local = refl; masters = refl }, λ n. ground (arith, e))
drop_node_lem m c (some r) e =
    let services = r.node_info.service_list in
    let told = trigger_discovery_event false m services c in
    let f =
      Frame-trans (Frame-trigger_discovery_event false m services c)
        (Frame-del_services m services told) in
    (
      record { local = f.local; masters = f.masters },
      λ n. rw f.nodes (ground (arith, lookup-delete m n c.map_rpc)),
    )

pub del_node_lem :
    (m : ℕ) (c : Cluster)
    → Stays c (del_node m c) × ((n : ℕ) → known (del_node m c) n ≡ forget (is_kept c) m (known c) n)
unfolding del_node
del_node_lem m c = elim (Bool-cases (is_kept c m)) [
  | inl h ↦ rw h (record { local = refl; masters = refl }, λ n. refl)
  | inr h ↦ rw h (drop_node_lem m c (lookup m c.map_rpc) refl)
]

discarded_lem : (m : ℕ) (c : Cluster) → Learns (discarded m) c (discard_node m c)
unfolding discard_node
discarded_lem m c = elim (Option-cases (lookup m c.map_rpc)) [
  | inl e ↦ rw (e, discard_node) (record { local = refl; masters = refl }, λ n. refl)
  | inr (r, e) ↦
      rw (e, discard_node)
        (elim (Bool-cases (is_discard r.node_info.status)) [
          | inl h ↦ rw h (del_node_lem m c)
          | inr h ↦ rw h (record { local = refl; masters = refl }, λ n. refl)
        ])
]

apply_lem : (ch : Change) (c : Cluster) → Learns ch c (apply ch c)
apply_lem (discovered info) c = discovered_lem info c
apply_lem (lost m) c = del_node_lem m c
apply_lem (discarded m) c = discarded_lem m c

pub is_kept-Stays : (c d : Cluster) → Stays c d → is_kept d ≡ is_kept c
unfolding is_origin_master_discovery_node
is_kept-Stays c d s = fun_ext (λ node. ground (arith, s.masters, s.local))

apply_all_lem :
    (chs : List Change) (c : Cluster)
    → Stays c (apply_all chs c)
      × (known (apply_all chs c) ≡ learn_all c.local_node_info.node_id (is_kept c) chs (known c))
apply_all_lem [] c = (record { local = refl; masters = refl }, refl)
apply_all_lem (ch ∷ chs) c =
    let (stays, learned) = apply_lem ch c in
    let (stays', rest) = apply_all_lem chs (apply ch c) in
    let local = c.local_node_info.node_id in
    let same : (apply ch c).local_node_info.node_id ≡ local =
      ap (λ (i : NodeInfo). i.node_id) stays.local in
    (
      record { local = stays'.local ∙ stays.local; masters = stays'.masters ∙ stays.masters },
      rest
          ∙ ap (λ i. learn_all i (is_kept (apply ch c)) chs (known (apply ch c))) same
          ∙ ap (λ k. learn_all local k chs (known (apply ch c)))
              (is_kept-Stays c (apply ch c) stays)
          ∙ ap (learn_all local (is_kept c) chs) (fun_ext learned),
    )

provides_lem :
    (r : Option NodeRpcInfo) (name : GoString) → provides r name ≡ makes_public (info_of r) name
provides_lem none name = refl
provides_lem (some r) name = refl

-- Whatever discovery reports and in whatever order, HasService says of every node but the local one
-- exactly whether its last report makes a service of that name public: a report counts until the
-- node is lost, or discarded by its status, and masters are never lost. The state is consistent at
-- first, and the services of every report contain its public ones.
pub has_service-apply_all :
    (chs : List Change) (c : Cluster) (node : ℕ) (name : GoString)
    → IsConsistent c
    → AllCovered chs
    → node ≢ c.local_node_info.node_id
    → has_service node name (apply_all chs c)
      ≡ makes_public (learn_all c.local_node_info.node_id (is_kept c) chs (known c) node) name
has_service-apply_all chs c node name v a away =
    let end = apply_all chs c in
    let (stays, learned) = apply_all_lem chs c in
    let other : node ≢ end.local_node_info.node_id =
      λ e. away (e ∙ ap (λ (i : NodeInfo). i.node_id) stays.local) in
    has_service_lem node name end
    ∙ (apply_all-IsConsistent chs c v a).table name node other
    ∙ provides_lem (lookup node end.map_rpc) name
    ∙ ap (λ k. makes_public (k node) name) learned
