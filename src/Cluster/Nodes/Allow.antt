-- ===== src/Cluster/Nodes/Allow.antt =====
-- CanDiscoveryService of cluster/cluster.go: which services of which nodes the local node is
-- interested in. `matches pattern text` is regexp.MatchString, false where the pattern is no
-- regular expression.
use origin.Prelude.{if◌then◌else◌, Bool, true, false, not, List, [], ◌∷◌, GoString}
use origin.Cluster.Nodes.{AllowDiscovery, base}

-- `len(xs) > 0`
abbrev is_given : {A : Type 0} → List A → Bool
is_given [] = false
is_given (x ∷ xs) = true

module _ (matches : GoString → GoString → Bool) where
  -- The loops that stop at the first pattern that fits.
  unfoldable pub any_match : List GoString → GoString → Bool
  any_match [] text = false
  any_match (pattern_ ∷ rest) text =
      let later = any_match rest text in if matches pattern_ text then true else later

  -- The network is looked at where it is known, or else the master where that is known.
  unfoldable pub match_network : AllowDiscovery → GoString → GoString → Bool
  match_network a network master =
      if is_given network
      then matches a.network_name network
      else if is_given master
      then matches a.master_node_id master
      else true

  unfoldable pub match_node : AllowDiscovery → GoString → Bool
  match_node a node = if is_given a.node_id_list then any_match a.node_id_list node else true

  unfoldable pub match_service : AllowDiscovery → GoString → Bool
  match_service a name = if is_given a.service_list then any_match a.service_list name else true

  -- The loop over the rules, which ends at the first that fits in all three.
  unfoldable pub allow_loop : List AllowDiscovery → GoString → GoString → GoString → GoString → Bool
  allow_loop [] network master node name = false
  allow_loop (a ∷ rest) network master node name =
      let later = allow_loop rest network master node name in
      if not (match_network a network master)
      then later
      else if not (match_node a node)
      then later
      else if not (match_service a name)
      then later
      else true

  unfoldable pub can_discovery_service :
      List AllowDiscovery → GoString → GoString → GoString → GoString → Bool
  can_discovery_service allow network master node full =
      if is_given allow then allow_loop allow network master node (base full) else true
