-- ===== src/Service/Add.antt =====
-- AddModule of service/module.go: what it does to the tree, with an OnInit that fails too.
use mathlib.Core.Path.{subst}
use origin.Prelude.{
  ℕ, ◌≡◌, refl, ◌∙◌, sym, ap, arith, nat_eq, ◌==◌, if◌then◌else◌, ◌+◌, ◌%◌, ◌^◌, is_some, Bool,
  true, false, [], ◌∷◌, ◌++◌, Option, none, some, lookup, ◌⊎◌, Bool-cases, Option-cases, inl, inr,
}
use origin.Service.{
  Ancestor, Receiver, new_module_id, child_of, own_id, joined, add_as, add_module, is_in_tree,
}
use origin.Service.Tree.{is_receiver, child_of_stable, in_tree_stable}
use origin.Service.Join.{Fails, Succeeds, IsUndone, joined-Fails, listed, listed_lem, lookup-listed}

-- A receiver in the tree is another module than one that is not.
other_module :
    (r : Receiver) (id : ℕ) (w : Ancestor)
    → is_in_tree r w ≡ true
    → lookup id w.descendants ≡ none
    → is_receiver r id ≡ false
unfolding is_in_tree
other_module none id w here fresh = refl
other_module (some m) id w here fresh =
    ground (arith, ap (λ k. lookup k w.descendants) {x = m} {y = id}, here, fresh)

undone :
    (r : Receiver) (w w1 : Ancestor)
    → w1.descendants ≡ w.descendants
    → w1.child ≡ w.child
    → IsUndone r w (none, w1)
undone r w w1 same same_child =
    (refl, child_of_stable r w1 w same_child same, λ j away. ap (lookup j) same)

-- The state with the next id taken, or as it is.
own_id_lem :
    (id : ℕ) (w : Ancestor)
    → ((own_id id w).1.descendants ≡ w.descendants) × ((own_id id w).1.child ≡ w.child)
unfolding new_module_id
own_id_lem id w = ground arith

add_module_ready :
    (r : Receiver) (module_id : ℕ) (on_init : Ancestor → Bool × Ancestor) (w : Ancestor)
    → w.has_event_processor ≡ true
    → add_module r module_id on_init w
      ≡ add_as r (own_id module_id w).0 on_init (own_id module_id w).1
unfolding add_module
add_module_ready r module_id on_init w ready = rw ready refl

add_module_bare :
    (r : Receiver) (module_id : ℕ) (on_init : Ancestor → Bool × Ancestor) (w : Ancestor)
    → w.has_event_processor ≡ false
    → add_module r module_id on_init w ≡ (none, w)
unfolding add_module
add_module_bare r module_id on_init w bare = rw bare refl

add_as-Fails :
    (r : Receiver) (id : ℕ) (on_init : Ancestor → Bool × Ancestor) (w : Ancestor)
    → Fails on_init
    → is_in_tree r w ≡ true
    → IsUndone r w (add_as r id on_init w)
unfolding add_as
add_as-Fails r id on_init w fails here = elim (Option-cases (lookup id w.descendants)) [
  | inr (e, taken) ↦ rw taken (undone r w w refl refl)
  | inl fresh ↦
      rw fresh (joined-Fails r id on_init w fails here (other_module r id w here fresh) fresh)
]

-- The module `id` is new, and the receiver's last child; the other modules are as they were.
abbrev pub IsAdded : Receiver → ℕ → Ancestor → Ancestor → Type 0
IsAdded r id w w' =
    (lookup id w.descendants ≡ none)
    × (lookup id w'.descendants ≡ some (record { parent = r; child = [] }))
    × (child_of r w' ≡ child_of r w ++ id ∷ [])
    × ((j : ℕ)
        → is_receiver r j ≡ false
        → (id == j) ≡ false
        → lookup j w'.descendants ≡ lookup j w.descendants)

add_as-Succeeds :
    (r : Receiver) (id : ℕ) (on_init : Ancestor → Bool × Ancestor) (w : Ancestor)
    → Succeeds on_init
    → is_in_tree r w ≡ true
    → lookup id w.descendants ≡ none
    → ((add_as r id on_init w).0 ≡ some id) × IsAdded r id w (add_as r id on_init w).1
unfolding add_as joined
add_as-Succeeds r id on_init w succeeds here fresh =
    let l = listed r id w in
    let (fine, same, same_child) = succeeds l in
    let at = listed_lem r id w here (other_module r id w here fresh) in
    rw (fresh, fine)
      (
        refl,
        (
          refl,
          ap (lookup id) same ∙ at.0,
          child_of_stable r (on_init l).1 l same_child same ∙ at.1,
          λ j away other. ap (lookup j) same ∙ lookup-listed r id w j away other,
        ),
      )

-- The id under which AddModule adds: the module's own, or else the next of the seed.
abbrev pub id_for : ℕ → Ancestor → ℕ
id_for module_id w = if module_id == 0 then (w.seed_module_id + 1) % 2 ^ 32 else module_id

-- With an event processor and an id that is free the module is added, and otherwise nothing is.
abbrev pub AddsOrNot : Receiver → ℕ → Ancestor → Option ℕ × Ancestor → Type 0
AddsOrNot r module_id w result =
    let id = id_for module_id w in
    ((w.has_event_processor ≡ true)
      × (lookup id w.descendants ≡ none)
      × (result.0 ≡ some id)
      × IsAdded r id w result.1)
    ⊎ (((w.has_event_processor ≡ false) ⊎ (is_some (lookup id w.descendants) ≡ true))
        × IsUndone r w result)

own_id-eq-id_for : (module_id : ℕ) (w : Ancestor) → (own_id module_id w).0 ≡ id_for module_id w
unfolding new_module_id
own_id-eq-id_for module_id w = ground arith

add_as_taken :
    (r : Receiver) (id : ℕ) (on_init : Ancestor → Bool × Ancestor) (w : Ancestor)
    → is_some (lookup id w.descendants) ≡ true
    → add_as r id on_init w ≡ (none, w)
unfolding add_as
add_as_taken r id on_init w taken = rw taken refl

module _ (r : Receiver) (module_id : ℕ) (on_init : Ancestor → Bool × Ancestor) (w : Ancestor)
    (here : is_in_tree r w ≡ true) where
  abbrev w1 : Ancestor
  w1 = (own_id module_id w).1

  tree1 : is_in_tree r w1 ≡ true
  tree1 = in_tree_stable r w w1 (own_id_lem module_id w).0 here

  -- AddModule with an OnInit that fails and leaves the tree as it found it undoes all, whether it
  -- stops for want of an event processor, at an id that is taken, or after OnInit; the receiver is
  -- in the tree.
  pub add_module-Fails : Fails on_init → IsUndone r w (add_module r module_id on_init w)
  add_module-Fails fails =
      let (same, same_child) = own_id_lem module_id w in
      elim (Bool-cases w.has_event_processor) [
        | inr bare ↦
            subst (IsUndone r w) (sym (add_module_bare r module_id on_init w bare))
              (undone r w w refl refl)
        | inl ready ↦
            let u = add_as-Fails r (own_id module_id w).0 on_init w1 fails tree1 in
            subst (IsUndone r w) (sym (add_module_ready r module_id on_init w ready)) (
              u.0,
              u.1 ∙ child_of_stable r w1 w same_child same,
              λ j away. u.2 j away ∙ ap (lookup j) same,
            )
      ]

  added_ready :
      Succeeds on_init
      → w.has_event_processor ≡ true
      → AddsOrNot r module_id w (add_as r (own_id module_id w).0 on_init w1)
  added_ready succeeds ready =
      let (same, same_child) = own_id_lem module_id w in
      let id = (own_id module_id w).0 in
      let named = own_id-eq-id_for module_id w in
      elim (Option-cases (lookup id w1.descendants)) [
        | inr (e, taken) ↦
            let held : is_some (lookup id w1.descendants) ≡ true = ap is_some taken in
            inr (
              inr (
                  ap (λ k. is_some (lookup k w.descendants)) (sym named)
                  ∙ ap (λ d. is_some (lookup id d)) (sym same)
                  ∙ held),
              subst (IsUndone r w) (sym (add_as_taken r id on_init w1 held))
                  (undone r w w1 same same_child),
            )
        | inl fresh ↦
            let (e, a) = add_as-Succeeds r id on_init w1 succeeds tree1 fresh in
            let free = sym (ap (lookup id) same) ∙ fresh in
            inl (
              subst
                (λ k.
                  (w.has_event_processor ≡ true)
                  × (lookup k w.descendants ≡ none)
                  × ((add_as r id on_init w1).0 ≡ some k)
                  × IsAdded r k w (add_as r id on_init w1).1)
                named
                (
                  ready,
                  free,
                  e,
                  (
                    free,
                    a.1,
                    a.2 ∙ ap (λ c. c ++ id ∷ []) (child_of_stable r w1 w same_child same),
                    λ j away other. a.3 j away other ∙ ap (lookup j) same,
                  ),
                ))
      ]

  -- AddModule with an OnInit that succeeds and leaves the tree as it found it, called on a module of
  -- the tree or on the service: with an event processor, and if no module has the id of the new one
  -- (its own, or else the next of the seed), it returns that id, and the module is there below the
  -- receiver, as its last child, with the other modules as they were. Without one, or if the id is
  -- taken, it returns no id and adds nothing.
  pub add_module-Succeeds :
      Succeeds on_init → AddsOrNot r module_id w (add_module r module_id on_init w)
  add_module-Succeeds succeeds = elim (Bool-cases w.has_event_processor) [
    | inr bare ↦
        subst (AddsOrNot r module_id w) (sym (add_module_bare r module_id on_init w bare))
          (inr (inl bare, undone r w w refl refl))
    | inl ready ↦
        subst (AddsOrNot r module_id w) (sym (add_module_ready r module_id on_init w ready))
          (added_ready succeeds ready)
  ]
