-- ===== src/Cluster/Origin/Roster.antt =====
-- The discovery master of cluster/origindiscovery.go: its map and its list hold the same nodes,
-- each once, and what a second registration does.
use origin.Prelude.{
  ℕ, nat_eq, ◌==◌, if◌then◌else◌, Bool, false, ◌||◌, List, [], ◌∷◌, ◌++◌, ◌≡◌, refl, ◌∙◌, sym, ap,
  arith, lookup-insert, lookup-delete, inl, inr, Bool-cases,
}
use origin.Cluster.Origin.{
  RpcNodeInfo, OriginDiscoveryMaster, is_reg_node, replace_info, update_node_info, is_empty,
  add_node_info, remove_info, remove_node_info,
}

abbrev pub listed : ℕ → List RpcNodeInfo → Bool
listed node [] = false
listed node (i ∷ is) = i.node_id == node || listed node is

abbrev pub IsDistinct : List RpcNodeInfo → Type 0
IsDistinct [] = Unit {0}
IsDistinct (i ∷ is) = (listed i.node_id is ≡ false) × IsDistinct is

-- The map and the list of a master hold the same nodes, and the list holds each once.
pub record IsRoster (ds : OriginDiscoveryMaster) : Type 0 where
  pub agree : (node : ℕ) → is_reg_node node ds ≡ listed node ds.node_info
  pub distinct : IsDistinct ds.node_info

listed-append :
    (node : ℕ) (is : List RpcNodeInfo) (i : RpcNodeInfo)
    → listed node (is ++ i ∷ []) ≡ (listed node is || (i.node_id == node))
listed-append node [] i = ground arith
listed-append node (j ∷ is) i = ground (arith, listed-append node is i)

append-IsDistinct :
    (is : List RpcNodeInfo) (i : RpcNodeInfo)
    → IsDistinct is
    → listed i.node_id is ≡ false
    → IsDistinct (is ++ i ∷ [])
append-IsDistinct [] i v e = (refl, tt)
append-IsDistinct (j ∷ is) i v e =
    (ground (arith, listed-append j.node_id is i, v.0), append-IsDistinct is i v.1 (ground arith))

listed-replace :
    (node : ℕ) (new : RpcNodeInfo) (is : List RpcNodeInfo)
    → listed node (replace_info new is) ≡ listed node is
unfolding replace_info
listed-replace node new [] = refl
listed-replace node new (i ∷ is) = ground (arith, listed-replace node new is)

replace-IsDistinct :
    (new : RpcNodeInfo) (is : List RpcNodeInfo) → IsDistinct is → IsDistinct (replace_info new is)
unfolding replace_info
replace-IsDistinct new [] v = v
replace-IsDistinct new (i ∷ is) v = elim (Bool-cases (i.node_id == new.node_id)) [
  | inl h ↦
      let same : i.node_id ≡ new.node_id = ground arith in
      rw h (ap (λ k. listed k is) (sym same) ∙ v.0, v.1)
  | inr h ↦ rw h (listed-replace i.node_id new is ∙ v.0, replace-IsDistinct new is v.1)
]

listed-remove :
    (node m : ℕ) (is : List RpcNodeInfo)
    → IsDistinct is
    → listed node (remove_info m is) ≡ (if m == node then false else listed node is)
unfolding remove_info
listed-remove node m [] v = ground arith
listed-remove node m (i ∷ is) v =
    ground
      (arith, listed-remove node m is v.1, v.0, ap (λ k. listed k is) {x = i.node_id} {y = node})

remove-IsDistinct : (m : ℕ) (is : List RpcNodeInfo) → IsDistinct is → IsDistinct (remove_info m is)
unfolding remove_info
remove-IsDistinct m [] v = v
remove-IsDistinct m (i ∷ is) v = elim (Bool-cases (i.node_id == m)) [
  | inl h ↦ rw h v.1
  | inr h ↦ rw h (ground (arith, listed-remove i.node_id m is v.1, v.0), remove-IsDistinct m is v.1)
]

module _ (ds : OriginDiscoveryMaster) (v : IsRoster ds) where
  pub add_node_info-IsRoster : (i : RpcNodeInfo) → IsRoster (add_node_info i ds)
  unfolding add_node_info is_reg_node
  add_node_info-IsRoster i = elim (Bool-cases (is_empty i.public_service_list)) [
    | inl h ↦ rw h v
    | inr h ↦ elim (Bool-cases (is_reg_node i.node_id ds)) [
      | inl g ↦ rw (h, g) v
      | inr g ↦
          rw (h, g)
            (record {
              agree = λ node. ground (
                arith,
                lookup-insert i.node_id node tt ds.map_node_info,
                v.agree node,
                listed-append node ds.node_info i,
              );
              distinct = append-IsDistinct ds.node_info i v.distinct (sym (v.agree i.node_id) ∙ g);
            })
    ]
  ]

  pub remove_node_info-IsRoster : (node : ℕ) → IsRoster (remove_node_info node ds)
  unfolding remove_node_info is_reg_node
  remove_node_info-IsRoster node = elim (Bool-cases (is_reg_node node ds)) [
    | inl h ↦ rw h (record {
      agree = λ k. ground (
        arith,
        lookup-delete node k ds.map_node_info,
        v.agree k,
        listed-remove k node ds.node_info v.distinct,
      );
      distinct = remove-IsDistinct node ds.node_info v.distinct;
    })
    | inr h ↦ rw h v
  ]

  pub update_node_info-IsRoster : (i : RpcNodeInfo) → IsRoster (update_node_info i ds)
  unfolding update_node_info is_reg_node
  update_node_info-IsRoster i = elim (Bool-cases (is_reg_node i.node_id ds)) [
    | inl h ↦ rw h (record {
      agree = λ k. v.agree k ∙ sym (listed-replace k i ds.node_info);
      distinct = replace-IsDistinct i ds.node_info v.distinct;
    })
    | inr h ↦ rw h v
  ]
