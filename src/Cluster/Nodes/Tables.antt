-- ===== src/Cluster/Nodes/Tables.antt =====
-- The table of nodes by service in cluster/cluster.go: what joining and leaving do to one entry.
use origin.Prelude.{
  ℕ, nat_eq, bytes_eq, ◌==◌, if◌then◌else◌, Bool, true, false, not, ◌&&◌, ◌||◌, List, [], ◌∷◌, ◌≡◌,
  ◌≢◌, refl, ◌∙◌, ap, arith, Option, none, some, is_some, lookup, delete, inner, get_nested,
  get-put_nested, lookup-insert, lookup-delete, GoString, Comparable, inl, inr, Bool-cases,
}
use origin.Cluster.Nodes.{
  Cluster, Set, split_service_name, base, or_drop, drop_nested, leave_template, del_service_node,
  del_services, join_template, add_service_node, contains, add_services,
}

module _ {K J : Type 0} ⦃e : Comparable K⦄ ⦃f : Comparable J⦄ where
  get-or_drop :
      (k s : K) (n : J) (m : List (K × Set J)) (rest : Set J)
      → get_nested s n (or_drop k rest m) ≡ (if k == s then lookup n rest else get_nested s n m)
  unfolding get_nested inner lookup
  get-or_drop k s n m [] = ground (arith, lookup-delete k s m)
  get-or_drop k s n m (x ∷ xs) = ground (arith, lookup-insert k s (x ∷ xs) m)

  pub get-drop_nested :
      (k : K) (j : J) (s : K) (n : J) (m : List (K × Set J))
      → get_nested s n (drop_nested k j m)
        ≡ (if k == s then if j == n then none else get_nested s n m else get_nested s n m)
  unfolding drop_nested get_nested
  get-drop_nested k j s n m = elim (Bool-cases (k == s)) [
    | inl h ↦
        let same : k ≡ s = (e.same_iff k s).0 h in
        get-or_drop k s n m (delete j (inner k m))
        ∙ rw (h, lookup-delete j n (inner k m), same) refl
    | inr h ↦ get-or_drop k s n m (delete j (inner k m)) ∙ rw h refl
  ]

-- Whether `node` stands under `name`.
abbrev pub has : GoString → ℕ → Cluster → Bool
has name node c = is_some (get_nested name node c.map_service_node)

-- Whether one of the services has the name, template or not.
abbrev pub offers : List GoString → GoString → Bool
offers [] name = false
offers (full ∷ rest) name = base full == name || offers rest name

-- What the tables of services leave as it is.
pub record Frame (c d : Cluster) : Type 0 where
  pub local : d.local_node_info ≡ c.local_node_info
  pub masters : d.master_node_list ≡ c.master_node_list
  pub nodes : d.map_rpc ≡ c.map_rpc
  pub clients : d.next_client ≡ c.next_client
  pub gone : d.closed ≡ c.closed

pub Frame-refl : (c : Cluster) → Frame c c
Frame-refl c = record { local = refl; masters = refl; nodes = refl; clients = refl; gone = refl }

pub Frame-trans : {c d e : Cluster} → Frame c d → Frame d e → Frame c e
Frame-trans f g = record {
  local = g.local ∙ f.local;
  masters = g.masters ∙ f.masters;
  nodes = g.nodes ∙ f.nodes;
  clients = g.clients ∙ f.clients;
  gone = g.gone ∙ f.gone;
}

module _ (c : Cluster) where
  service_node-join_template :
      (p : GoString × Option GoString) → (join_template p c).map_service_node ≡ c.map_service_node
  unfolding join_template
  service_node-join_template (name, none) = refl
  service_node-join_template (name, some t) = refl

  service_node-leave_template :
      (p : GoString × Option GoString) → (leave_template p c).map_service_node ≡ c.map_service_node
  unfolding leave_template
  service_node-leave_template (name, none) = refl
  service_node-leave_template (name, some t) = refl

  Frame-join_template : (p : GoString × Option GoString) → Frame c (join_template p c)
  unfolding join_template
  Frame-join_template (name, none) = Frame-refl c
  Frame-join_template (name, some t) = record {
    local = refl;
    masters = refl;
    nodes = refl;
    clients = refl;
    gone = refl;
  }

  Frame-leave_template : (p : GoString × Option GoString) → Frame c (leave_template p c)
  unfolding leave_template
  Frame-leave_template (name, none) = Frame-refl c
  Frame-leave_template (name, some t) = record {
    local = refl;
    masters = refl;
    nodes = refl;
    clients = refl;
    gone = refl;
  }

module _ (full : GoString) (m : ℕ) (c : Cluster) where
  pub has-add_service_node :
      (name : GoString) (n : ℕ)
      → has name n (add_service_node full m c)
        ≡ (if base full == name then if m == n then true else has name n c else has name n c)
  unfolding add_service_node
  has-add_service_node name n =
      rw (service_node-join_template c (split_service_name full))
        (ground (arith, get-put_nested (base full) m name n tt c.map_service_node))

  pub has-del_service_node :
      (name : GoString) (n : ℕ)
      → m ≢ c.local_node_info.node_id
      → has name n (del_service_node full m c)
        ≡ (if base full == name then if m == n then false else has name n c else has name n c)
  unfolding del_service_node
  has-del_service_node name n away = elim (Bool-cases (m == c.local_node_info.node_id)) [
    | inl h ↦ absurd (away (ground arith))
    | inr h ↦
        rw (h, service_node-leave_template c (split_service_name full))
          (ground (arith, get-drop_nested (base full) m name n c.map_service_node))
  ]

  pub Frame-add_service_node : Frame c (add_service_node full m c)
  unfolding add_service_node
  Frame-add_service_node =
      let f = Frame-join_template c (split_service_name full) in
      record {
        local = f.local;
        masters = f.masters;
        nodes = f.nodes;
        clients = f.clients;
        gone = f.gone;
      }

  pub Frame-del_service_node : Frame c (del_service_node full m c)
  unfolding del_service_node
  Frame-del_service_node = elim (Bool-cases (m == c.local_node_info.node_id)) [
    | inl h ↦ rw h (Frame-refl c)
    | inr h ↦
        let f = Frame-leave_template c (split_service_name full) in
        rw h (record {
          local = f.local;
          masters = f.masters;
          nodes = f.nodes;
          clients = f.clients;
          gone = f.gone;
        })
  ]

module _ (m : ℕ) where
  pub Frame-del_services : (ss : List GoString) (c : Cluster) → Frame c (del_services ss m c)
  unfolding del_services
  Frame-del_services [] c = Frame-refl c
  Frame-del_services (full ∷ ss) c =
      Frame-trans (Frame-del_service_node full m c)
        (Frame-del_services ss (del_service_node full m c))

  pub has-del_services :
      (ss : List GoString) (c : Cluster) (name : GoString) (n : ℕ)
      → m ≢ c.local_node_info.node_id
      → has name n (del_services ss m c)
        ≡ (if m == n then has name n c && not (offers ss name) else has name n c)
  unfolding del_services
  has-del_services [] c name n away = ground arith
  has-del_services (full ∷ ss) c name n away =
      let f = Frame-del_service_node full m c in
      ground (
        arith,
        has-del_service_node full m c name n away,
        has-del_services ss (del_service_node full m c) name n (rw f.local away),
      )

  pub Frame-add_services :
      (seen ss : List GoString) (c : Cluster) → Frame c (add_services seen ss m c)
  unfolding add_services
  Frame-add_services seen [] c = Frame-refl c
  Frame-add_services seen (full ∷ ss) c = elim (Bool-cases (contains full seen)) [
    | inl h ↦ rw h (Frame-add_services seen ss c)
    | inr h ↦ rw h (
        Frame-trans (Frame-add_service_node full m c)
          (Frame-add_services (full ∷ seen) ss (add_service_node full m c)))
  ]

  -- Names that had their turn are in the table already.
  abbrev pub Entered : List GoString → Cluster → Type 0
  Entered seen c = (full : GoString) → contains full seen ≡ true → has (base full) m c ≡ true

  pub Entered-nil : (c : Cluster) → Entered [] c
  unfolding contains
  Entered-nil c = λ full h. cc

  Entered-cons :
      (seen : List GoString) (full : GoString) (c : Cluster)
      → Entered seen c
      → Entered (full ∷ seen) (add_service_node full m c)
  unfolding contains
  Entered-cons seen full c entered = λ other h. ground (
    arith,
    bytes_eq.same_iff full other,
    bytes_eq.same_iff (base full) (base other),
    has-add_service_node full m c (base other) m,
    entered other,
  )

  pub has-add_services :
      (seen ss : List GoString) (c : Cluster) (name : GoString) (n : ℕ)
      → Entered seen c
      → has name n (add_services seen ss m c)
        ≡ (if m == n then offers ss name || has name n c else has name n c)
  unfolding add_services
  has-add_services seen [] c name n entered = ground arith
  has-add_services seen (full ∷ ss) c name n entered = elim (Bool-cases (contains full seen)) [
    | inl h ↦
        let same : add_services seen (full ∷ ss) m c ≡ add_services seen ss m c = rw h refl in
        ground (
          arith,
          ap (has name n) same,
          has-add_services seen ss c name n entered,
          bytes_eq.same_iff (base full) name,
          entered full h,
        )
    | inr h ↦
        let d = add_service_node full m c in
        let same : add_services seen (full ∷ ss) m c ≡ add_services (full ∷ seen) ss m d =
          rw h refl in
        ground (
          arith,
          ap (has name n) same,
          has-add_services (full ∷ seen) ss d name n (Entered-cons seen full c entered),
          has-add_service_node full m c name n,
        )
  ]
