-- ===== src/Cluster/NodeTtl.antt =====
-- cluster/nodettl.go: the nodes in the order of their last refresh. An element of the list is known
-- by a number, which stands for its pointer, and `next_element` is a number that is not in use.
-- `now` is time.Now(), which does not go back.
pub mod Expiry
use origin.Prelude.{
  ℕ, zero, suc, ◌+◌, ◌-◌, nat_eq, ◌==◌, ltb, if◌then◌else◌, Bool, true, false, List, [], ◌∷◌, ◌++◌,
  Option, none, some, lookup, insert, delete,
}

-- A list element with the nodeTTL that is its value.
pub record NodeTtl : Type 0 where
  pub element : ℕ
  pub node_id : ℕ
  pub refresh_time : ℕ

pub record NodeSetTtl : Type 0 where
  pub nodes : List NodeTtl
  pub map_element : List (ℕ × ℕ)
  pub ttl : ℕ
  pub next_element : ℕ

unfoldable pub init_ttl : ℕ → NodeSetTtl
init_ttl ttl = record { nodes = []; map_element = []; ttl = ttl; next_element = 0 }

-- list.Remove
unfoldable pub remove_element : ℕ → List NodeTtl → List NodeTtl
remove_element e [] = []
remove_element e (n ∷ ns) = if n.element == e then ns else n ∷ remove_element e ns

unfoldable pub find_element : ℕ → List NodeTtl → Option NodeTtl
find_element e [] = none
find_element e (n ∷ ns) = if n.element == e then some n else find_element e ns

unfoldable pub remove_node : ℕ → NodeSetTtl → NodeSetTtl
remove_node id ns = elim (lookup id ns.map_element) [
  | none ↦ ns
  | some ele ↦ record ns {
    nodes = remove_element ele ns.nodes;
    map_element = delete id ns.map_element;
  }
]

-- A known node goes to the back with the new time; MoveToBack ignores an element of no list.
unfoldable pub add_and_refresh_node : ℕ → ℕ → NodeSetTtl → NodeSetTtl
add_and_refresh_node now id ns = elim (lookup id ns.map_element) [
  | none ↦ record ns {
    nodes = ns.nodes ++ record { element = ns.next_element; node_id = id; refresh_time = now } ∷ [];
    map_element = insert id ns.next_element ns.map_element;
    next_element = ns.next_element + 1;
  }
  | some ele ↦ elim (find_element ele ns.nodes) [
    | none ↦ ns
    | some n ↦ record ns {
      nodes = remove_element ele ns.nodes ++ record n { refresh_time = now } ∷ [];
    }
  ]
]

-- The loop of checkTTL on the list that is left, with one reading of the clock: the nodes for the
-- callback, the list and the map.
unfoldable pub check_loop :
    ℕ → ℕ → List NodeTtl → List (ℕ × ℕ) → List ℕ × List NodeTtl × List (ℕ × ℕ)
check_loop now ttl [] m = ([], [], m)
check_loop now ttl (n ∷ ns) m = elim (ltb ttl (now - n.refresh_time)) [
  | true ↦
      let rest = check_loop now ttl ns (delete n.node_id m) in (n.node_id ∷ rest.0, rest.1, rest.2)
  | false ↦ ([], n ∷ ns, m)
]

-- The nodes that the callback gets, which is not called for none.
unfoldable pub check_ttl : ℕ → NodeSetTtl → List ℕ × NodeSetTtl
check_ttl now ns =
    let r = check_loop now ns.ttl ns.nodes ns.map_element in
    (r.0, record ns { nodes = r.1; map_element = r.2 })
