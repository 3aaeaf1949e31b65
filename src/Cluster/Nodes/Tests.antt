-- ===== src/Cluster/Nodes/Tests.antt =====
-- Concrete runs of cluster/cluster.go: two nodes with a service of the name `s` and the template
-- `t`, seen from a third.
use origin.Prelude.{
  among, ℕ, none, some, true, false, ◌≡◌, ◌↔◌, refl, nat_eq, bytes_eq, [], ◌∷◌, arith, GoString,
  split, lookup, get_nested, inner,
}
use origin.Cluster.Nodes.{NodeInfo, normal, Cluster, split_service_name, del_service_node}
use origin.Cluster.Nodes.Members.{has_service, get_node_id_by_service}
use origin.Cluster.Nodes.Consistent.{IsConsistent}
use origin.Cluster.Nodes.Changes.{
  discovered, lost, apply_all, makes_public, learn_all, is_kept, known, has_service-apply_all,
}
use origin.Cluster.Nodes.Selection.{Serves, get_node_id_by_service_lem, has_template, template_lost}

-- `s:t`
abbrev templated : GoString
templated = 115 ∷ 58 ∷ 116 ∷ []

abbrev name_s : GoString
name_s = 115 ∷ []

abbrev name_t : GoString
name_t = 116 ∷ []

abbrev info : ℕ → NodeInfo
info node = record {
  node_id = node;
  private_node = false;
  listen_addr = [];
  max_rpc_param_len = 0;
  compress_bytes_len = 0;
  service_list = templated ∷ [];
  public_service_list = templated ∷ [];
  allow_discovery = [];
  status = normal;
  retire = false;
}

abbrev alone : Cluster
alone = record {
  local_node_info = info 1;
  master_node_list = none;
  map_rpc = [];
  map_service_node = [];
  map_template_service_node = [];
  map_service_listen_rpc_event = [];
  services = [];
  notified = [];
  next_client = 0;
  closed = [];
}

alone-IsConsistent : IsConsistent alone
unfolding lookup get_nested inner
alone-IsConsistent = record { table = λ name n other. refl; covered = λ n r other e. cc }

has_service-apply_all_example :
    has_service 2 name_s (apply_all (discovered (info 2) ∷ discovered (info 3) ∷ lost 3 ∷ []) alone)
    ≡ makes_public
        (learn_all 1
          (is_kept alone)
          (discovered (info 2) ∷ discovered (info 3) ∷ lost 3 ∷ [])
          (known alone)
          2)
        name_s
has_service-apply_all_example =
    has_service-apply_all (discovered (info 2) ∷ discovered (info 3) ∷ lost 3 ∷ []) alone 2 name_s
      alone-IsConsistent (λ name h. h, (λ name h. h, tt)) (omega arith)

abbrev both : Cluster
both = record alone {
  map_rpc =
      (2, record { node_info = info 2; client = 0 })
      ∷ (3, record { node_info = info 3; client = 1 })
      ∷ [];
  map_service_node = (name_s, (2, tt) ∷ (3, tt) ∷ []) ∷ [];
  map_template_service_node = (name_t, (name_s, tt) ∷ []) ∷ [];
  next_client = 2;
}

get_node_id_by_service_lem_example :
    (among 1 (get_node_id_by_service (λ client. true) name_s [] true both) ≡ true) ↔ (
      (node : ℕ) × (has_service node name_s both ≡ true) × Serves (λ client. true) true both 1 node)
get_node_id_by_service_lem_example = get_node_id_by_service_lem (λ client. true) true both 1 name_s

both_has : has_service 3 name_s both ≡ true
unfolding has_service lookup
both_has = refl

splits : split_service_name templated ≡ (name_s, some name_t)
unfolding split_service_name split
splits = refl

template_lost_example :
    (has_service 3 name_s (del_service_node templated 2 both) ≡ true)
    × (has_template name_t name_s (del_service_node templated 2 both) ≡ false)
template_lost_example =
    template_lost templated name_s name_t 2 3 both splits (omega arith) (omega arith) both_has
