-- ===== src/Cluster/Tests.antt =====
-- Concrete runs of cluster/nodettl.go: two nodes, of which the first has expired.
use origin.Prelude.{[], ◌∷◌, arith}
use origin.Cluster.NodeTtl.{NodeTtl, NodeSetTtl, check_ttl}
use origin.Cluster.NodeTtl.Expiry.{IsAscending, Checked, check_ttl_lem}

abbrev old_node : NodeTtl
old_node = record { element = 0; node_id = 31; refresh_time = 10 }

abbrev new_node : NodeTtl
new_node = record { element = 1; node_id = 32; refresh_time = 90 }

abbrev two_nodes : NodeSetTtl
two_nodes = record {
  nodes = old_node ∷ new_node ∷ [];
  map_element = (31, 0) ∷ (32, 1) ∷ [];
  ttl = 30;
  next_element = 2;
}

two_nodes-IsAscending : IsAscending 95 two_nodes.nodes
two_nodes-IsAscending = (omega arith, (omega arith, omega arith, tt), (omega arith, tt, tt))

check_ttl_lem_example :
    let r = check_ttl 100 two_nodes in
    Checked 100 30 two_nodes.nodes r.1.nodes r.0 two_nodes.map_element r.1.map_element
check_ttl_lem_example = check_ttl_lem 95 100 two_nodes two_nodes-IsAscending
