-- ===== src/Cluster/NodeTtl/Expiry.antt =====
-- The order of the nodes in cluster/nodettl.go, and which of them expire.
use origin.Prelude.{
  ℕ, ◌-◌, ◌≤◌, ◌<◌, ◌≡◌, refl, nat_eq, ◌==◌, ltb, if◌then◌else◌, Bool, true, false, List, [], ◌∷◌,
  ◌++◌, none, lookup, delete, lookup-delete, arith, Bool-cases, Option-cases, inl, inr, ap,
}
use origin.Cluster.NodeTtl.{
  NodeTtl, NodeSetTtl, remove_element, find_element, add_and_refresh_node, check_loop, check_ttl,
}

-- Every refresh time lies between the two bounds.
abbrev pub IsWithin : ℕ → ℕ → List NodeTtl → Type 0
IsWithin lo hi [] = Unit
IsWithin lo hi (n ∷ ns) = (lo ≤ n.refresh_time) × (n.refresh_time ≤ hi) × IsWithin lo hi ns

-- The refresh times ascend, and none is after `hi`.
abbrev pub IsAscending : ℕ → List NodeTtl → Type 0
IsAscending hi [] = Unit
IsAscending hi (n ∷ ns) = (n.refresh_time ≤ hi) × IsWithin n.refresh_time hi ns × IsAscending hi ns

IsWithin-remove_element :
    (lo hi e : ℕ) (ns : List NodeTtl) → IsWithin lo hi ns → IsWithin lo hi (remove_element e ns)
unfolding remove_element
IsWithin-remove_element lo hi e [] w = tt
IsWithin-remove_element lo hi e (n ∷ ns) w = elim (Bool-cases (n.element == e)) [
  | inl this ↦ rw this (w.2)
  | inr other ↦ rw other (w.0, w.1, IsWithin-remove_element lo hi e ns w.2)
]

IsAscending-remove_element :
    (hi e : ℕ) (ns : List NodeTtl) → IsAscending hi ns → IsAscending hi (remove_element e ns)
unfolding remove_element
IsAscending-remove_element hi e [] w = tt
IsAscending-remove_element hi e (n ∷ ns) w = elim (Bool-cases (n.element == e)) [
  | inl this ↦ rw this (w.2)
  | inr other ↦ rw other (
    w.0,
    IsWithin-remove_element n.refresh_time hi e ns w.1,
    IsAscending-remove_element hi e ns w.2,
  )
]

-- A later bound, and a node that was refreshed then.
IsWithin-append :
    (lo hi now : ℕ) (ns : List NodeTtl) (n : NodeTtl)
    → lo ≤ hi
    → hi ≤ now
    → n.refresh_time ≡ now
    → IsWithin lo hi ns
    → IsWithin lo now (ns ++ n ∷ [])
IsWithin-append lo hi now [] n h le e w = (omega arith, omega arith, tt)
IsWithin-append lo hi now (m ∷ ns) n h le e w =
    (w.0, omega (arith, w.1), IsWithin-append lo hi now ns n h le e w.2)

IsAscending-append :
    (hi now : ℕ) (ns : List NodeTtl) (n : NodeTtl)
    → hi ≤ now
    → n.refresh_time ≡ now
    → IsAscending hi ns
    → IsAscending now (ns ++ n ∷ [])
IsAscending-append hi now [] n le e w = (omega arith, tt, tt)
IsAscending-append hi now (m ∷ ns) n le e w = (
  omega (arith, w.0),
  IsWithin-append m.refresh_time hi now ns n w.0 le e w.1,
  IsAscending-append hi now ns n le e w.2,
)

IsWithin-later :
    (lo hi now : ℕ) (ns : List NodeTtl) → hi ≤ now → IsWithin lo hi ns → IsWithin lo now ns
IsWithin-later lo hi now [] le w = tt
IsWithin-later lo hi now (n ∷ ns) le w =
    (w.0, omega (arith, w.1), IsWithin-later lo hi now ns le w.2)

IsAscending-later :
    (hi now : ℕ) (ns : List NodeTtl) → hi ≤ now → IsAscending hi ns → IsAscending now ns
IsAscending-later hi now [] le w = tt
IsAscending-later hi now (n ∷ ns) le w = (
  omega (arith, w.0),
  IsWithin-later n.refresh_time hi now ns le w.1,
  IsAscending-later hi now ns le w.2,
)

-- addAndRefreshNode keeps the nodes in the order of their refresh times, if none of these lies
-- after the present time.
pub refresh-IsAscending :
    (hi now id : ℕ) (ns : NodeSetTtl)
    → hi ≤ now
    → IsAscending hi ns.nodes
    → IsAscending now (add_and_refresh_node now id ns).nodes
unfolding add_and_refresh_node
refresh-IsAscending hi now id ns le w = elim (Option-cases (lookup id ns.map_element)) [
  | inl unknown ↦
      rw (unknown, add_and_refresh_node) (IsAscending-append hi now ns.nodes _ le refl w)
  | inr (ele, known) ↦ elim (Option-cases (find_element ele ns.nodes)) [
    | inl gone ↦ rw (known, gone, add_and_refresh_node) (IsAscending-later hi now ns.nodes le w)
    | inr (n, here) ↦
        rw (known, here, add_and_refresh_node)
          (IsAscending-append hi now (remove_element ele ns.nodes) _ le refl
            (IsAscending-remove_element hi ele ns.nodes w))
  ]
]

abbrev pub ids : List NodeTtl → List ℕ
ids [] = []
ids (n ∷ ns) = n.node_id ∷ ids ns

abbrev pub listed : ℕ → List ℕ → Bool
listed k [] = false
listed k (j ∷ js) = if j == k then true else listed k js

-- Every node was refreshed longer ago than `ttl`, or none was.
abbrev pub IsExpired : ℕ → ℕ → List NodeTtl → Type 0
IsExpired now ttl [] = Unit
IsExpired now ttl (n ∷ ns) = (ttl < now - n.refresh_time) × IsExpired now ttl ns

abbrev pub IsAlive : ℕ → ℕ → List NodeTtl → Type 0
IsAlive now ttl [] = Unit
IsAlive now ttl (n ∷ ns) = (now - n.refresh_time ≤ ttl) × IsAlive now ttl ns

-- What checkTTL makes of the nodes and of the map: the callback gets the nodes `out`.
pub record Checked (now ttl : ℕ) (nodes left : List NodeTtl) (called : List ℕ) (m m' : List (ℕ × ℕ))
    : Type 0 where
  pub out : List NodeTtl
  pub split : nodes ≡ out ++ left
  pub told : called ≡ ids out
  pub expired : IsExpired now ttl out
  pub alive : IsAlive now ttl left
  pub forgotten : (k : ℕ) → lookup k m' ≡ (if listed k called then none else lookup k m)

all-IsAlive :
    (lo hi now ttl : ℕ) (ns : List NodeTtl)
    → now - lo ≤ ttl
    → IsWithin lo hi ns
    → IsAlive now ttl ns
all-IsAlive lo hi now ttl [] h w = tt
all-IsAlive lo hi now ttl (n ∷ ns) h w = (omega (arith, w.0), all-IsAlive lo hi now ttl ns h w.2)

check_loop_lem :
    (hi now ttl : ℕ) (nodes : List NodeTtl) (m : List (ℕ × ℕ))
    → IsAscending hi nodes
    → let r = check_loop now ttl nodes m in Checked now ttl nodes r.1 r.0 m r.2
unfolding check_loop
check_loop_lem hi now ttl [] m w = record {
  out = [];
  split = refl;
  told = refl;
  expired = tt;
  alive = tt;
  forgotten = λ k. refl;
}
check_loop_lem hi now ttl (n ∷ ns) m w = elim (Bool-cases (ltb ttl (now - n.refresh_time))) [
  | inl old ↦
      let c = check_loop_lem hi now ttl ns (delete n.node_id m) w.2 in
      rw (old, check_loop)
        (record {
          out = n ∷ c.out;
          split = ap (◌∷◌ n) c.split;
          told = ap (◌∷◌ n.node_id) c.told;
          expired = (ground arith, c.expired);
          alive = c.alive;
          forgotten = λ k. ground (arith, c.forgotten k, lookup-delete n.node_id k m);
        })
  | inr fresh ↦
      rw (fresh, check_loop)
        (record {
          out = [];
          split = refl;
          told = refl;
          expired = tt;
          alive = (ground arith, all-IsAlive n.refresh_time hi now ttl ns (ground arith) w.1);
          forgotten = λ k. refl;
        })
]

-- On nodes in the order of their refresh times checkTTL takes out exactly the nodes that expired,
-- hands them to the callback in this order, forgets them in the map, and leaves no expired node.
pub check_ttl_lem :
    (hi now : ℕ) (ns : NodeSetTtl)
    → IsAscending hi ns.nodes
    → let r = check_ttl now ns in
      Checked now ns.ttl ns.nodes r.1.nodes r.0 ns.map_element r.1.map_element
unfolding check_ttl
check_ttl_lem hi now ns w = check_loop_lem hi now ns.ttl ns.nodes ns.map_element w
