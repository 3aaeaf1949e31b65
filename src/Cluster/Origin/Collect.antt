-- ===== src/Cluster/Origin/Collect.antt =====
-- How the messages of cluster/origindiscovery.go are taken apart into nodes with services.
use origin.Prelude.{
  among, ℕ, nat_eq, ◌==◌, if◌then◌else◌, ◌&&◌, not, List, [], ◌∷◌, ◌++◌, ◌≡◌, refl, ◌∙◌, sym, ap,
  arith, append_assoc, append-nil, Option, none, some, is_some, lookup, insert, lookup-insert,
  GoString, inl, inr, Bool-cases, Option-cases,
}
use origin.Cluster.Origin.{RpcNodeInfo}
use origin.Cluster.Origin.Client.{
  OriginDiscoveryClient, is_passed_over, entry_of, add_service, add_services_of, collect,
  missing_in,
}

-- The services that a message lists for a node, those that are passed over left out.
abbrev pub announced : OriginDiscoveryClient → List RpcNodeInfo → ℕ → List GoString
announced dc [] node = []
announced dc (i ∷ is) node =
    if is_passed_over dc i
    then announced dc is node
    else if i.node_id == node
    then i.public_service_list ++ announced dc is node
    else announced dc is node

abbrev pub services_of : Option RpcNodeInfo → Option (List GoString)
services_of none = none
services_of (some i) = some i.public_service_list

abbrev pub services_in : List (ℕ × RpcNodeInfo) → ℕ → Option (List GoString)
services_in m node = services_of (lookup node m)

-- Services that come to those which are there.
abbrev pub joined : Option (List GoString) → List GoString → Option (List GoString)
joined none [] = none
joined none (x ∷ xs) = some (x ∷ xs)
joined (some ys) xs = some (ys ++ xs)

joined-nil : (o : Option (List GoString)) → joined o [] ≡ o
joined-nil none = refl
joined-nil (some ys) = ap some (append-nil ys)

joined-joined :
    (o : Option (List GoString)) (x : GoString) (xs zs : List GoString)
    → joined (joined o (x ∷ xs)) zs ≡ joined o (x ∷ (xs ++ zs))
joined-joined none x xs zs = refl
joined-joined (some ys) x xs zs = ap some (append_assoc ys (x ∷ xs) zs)

-- Each node has one entry, which carries its id.
abbrev pub IsKeyed : List (ℕ × RpcNodeInfo) → Type 0
IsKeyed [] = Unit {0}
IsKeyed ((k, i) ∷ m) = (i.node_id ≡ k) × (lookup k m ≡ none) × IsKeyed m

insert-IsKeyed :
    (k : ℕ) (i : RpcNodeInfo) (m : List (ℕ × RpcNodeInfo))
    → i.node_id ≡ k
    → IsKeyed m
    → IsKeyed (insert k i m)
unfolding insert lookup
insert-IsKeyed k i [] e v = (e, refl, tt)
insert-IsKeyed k i ((j, d) ∷ m) e v = elim (Bool-cases (j == k)) [
  | inl h ↦
      rw h (let same : j ≡ k = ground arith in (e, ap (λ x. lookup x m) (sym same) ∙ v.1, v.2))
  | inr h ↦ rw h (v.0, ground (arith, lookup-insert k j i m, v.1), insert-IsKeyed k i m e v.2)
]

lookup-IsKeyed :
    (k : ℕ) (m : List (ℕ × RpcNodeInfo)) (d : RpcNodeInfo)
    → IsKeyed m
    → lookup k m ≡ some d
    → d.node_id ≡ k
unfolding lookup
lookup-IsKeyed k [] d v e = cc
lookup-IsKeyed k ((j, i) ∷ m) d v e = elim (Bool-cases (j == k)) [
  | inl h ↦
      let one : i ≡ d = ground arith in
      ap (λ (x : RpcNodeInfo). x.node_id) (sym one) ∙ v.0 ∙ ground arith
  | inr h ↦ lookup-IsKeyed k m d v.2 (ground arith)
]

node_id-entry_of :
    (i : RpcNodeInfo) (m : List (ℕ × RpcNodeInfo))
    → IsKeyed m
    → (entry_of i (lookup i.node_id m)).node_id ≡ i.node_id
node_id-entry_of i m v = elim (Option-cases (lookup i.node_id m)) [
  | inl e ↦ rw e refl
  | inr (d, e) ↦ rw e (lookup-IsKeyed i.node_id m d v e)
]

services_in-add_service :
    (i : RpcNodeInfo) (name : GoString) (m : List (ℕ × RpcNodeInfo)) (node : ℕ)
    → services_in (add_service i name m) node
      ≡ (if i.node_id == node then joined (services_in m node) (name ∷ []) else services_in m node)
unfolding add_service
services_in-add_service i name m node = elim (Option-cases (lookup i.node_id m)) [
  | inl e ↦
      let d : RpcNodeInfo = record i { public_service_list = name ∷ [] } in
      rw e (ground (arith, e, lookup-insert i.node_id node d m))
  | inr (old, e) ↦
      let d : RpcNodeInfo = record old {
        public_service_list = old.public_service_list ++ name ∷ [];
      } in
      rw e (ground (arith, e, lookup-insert i.node_id node d m))
]

add_service-IsKeyed :
    (i : RpcNodeInfo) (name : GoString) (m : List (ℕ × RpcNodeInfo))
    → IsKeyed m
    → IsKeyed (add_service i name m)
unfolding add_service
add_service-IsKeyed i name m v = insert-IsKeyed i.node_id _ m (node_id-entry_of i m v) v

add_services_of-IsKeyed :
    (i : RpcNodeInfo) (names : List GoString) (m : List (ℕ × RpcNodeInfo))
    → IsKeyed m
    → IsKeyed (add_services_of i names m)
unfolding add_services_of
add_services_of-IsKeyed i [] m v = v
add_services_of-IsKeyed i (name ∷ rest) m v =
    add_services_of-IsKeyed i rest (add_service i name m) (add_service-IsKeyed i name m v)

services_in-add_services_of :
    (i : RpcNodeInfo) (names : List GoString) (m : List (ℕ × RpcNodeInfo)) (node : ℕ)
    → services_in (add_services_of i names m) node
      ≡ (if i.node_id == node then joined (services_in m node) names else services_in m node)
unfolding add_services_of
services_in-add_services_of i [] m node = ground (arith, joined-nil (services_in m node))
services_in-add_services_of i (name ∷ rest) m node = ground (
  arith,
  services_in-add_services_of i rest (add_service i name m) node,
  services_in-add_service i name m node,
  joined-joined (services_in m node) name [] rest,
)

pub collect-IsKeyed :
    (dc : OriginDiscoveryClient) (is : List RpcNodeInfo) (m : List (ℕ × RpcNodeInfo))
    → IsKeyed m
    → IsKeyed (collect dc is m)
unfolding collect
collect-IsKeyed dc [] m v = v
collect-IsKeyed dc (i ∷ is) m v = elim (Bool-cases (is_passed_over dc i)) [
  | inl h ↦ rw h (collect-IsKeyed dc is m v)
  | inr h ↦ rw h (
      collect-IsKeyed dc is (add_services_of i i.public_service_list m)
        (add_services_of-IsKeyed i i.public_service_list m v))
]

joined-append :
    (o : Option (List GoString)) (xs zs : List GoString)
    → joined (joined o xs) zs ≡ joined o (xs ++ zs)
joined-append o [] zs = ap (λ p. joined p zs) (joined-nil o)
joined-append o (x ∷ xs) zs = joined-joined o x xs zs

-- The entries of a message are what it announces for each node.
pub services_in-collect :
    (dc : OriginDiscoveryClient) (is : List RpcNodeInfo) (m : List (ℕ × RpcNodeInfo)) (node : ℕ)
    → services_in (collect dc is m) node ≡ joined (services_in m node) (announced dc is node)
unfolding collect
services_in-collect dc [] m node = sym (joined-nil (services_in m node))
services_in-collect dc (i ∷ is) m node = elim (Bool-cases (is_passed_over dc i)) [
  | inl h ↦ rw h (services_in-collect dc is m node)
  | inr h ↦ rw h (
      let m' = add_services_of i i.public_service_list m in
      services_in-collect dc is m' node
      ∙ ap (λ o. joined o (announced dc is node))
          (services_in-add_services_of i i.public_service_list m node)
      ∙ ground
          (arith, joined-append (services_in m node) i.public_service_list (announced dc is node)))
]

pub among-missing_in :
    (m : List (ℕ × RpcNodeInfo)) (nodes : List (ℕ × List GoString)) (node : ℕ)
    → among node (missing_in m nodes)
      ≡ (is_some (lookup node nodes) && not (is_some (lookup node m)))
unfolding missing_in lookup
among-missing_in m [] node = refl
among-missing_in m ((k, names) ∷ rest) node =
    ground (arith, among-missing_in m rest node, ap (λ j. lookup j m) {x = k} {y = node})
