-- ===== src/Service/Tests.antt =====
-- Concrete runs of service/module.go: module 11 has the children 12 and 13, and 12 has 14.
use origin.Prelude.{
  ℕ, ◌≡◌, refl, arith, nat_eq, true, false, List, [], ◌∷◌, Option, none, some, lookup, delete, ok,
  panic, Ends,
}
use origin.Service.{
  Entry, Ancestor, add_module, is_in_tree, release_module, release_each, take_out, update_child,
  delete_func, get_module, init,
}
use origin.Service.Tree.{Forest, nil, node, Represents, IsDistinct, Released}
use origin.Service.Release.{release_module_lem, stale_child}
use origin.Service.Join.{IsUndone}
use origin.Service.Add.{AddsOrNot, add_module-Fails, add_module-Succeeds}

abbrev entry : Option ℕ → List ℕ → Entry
entry parent child = record { parent = parent; child = child }

abbrev four : Ancestor
four = record init {
  child = 11 ∷ [];
  descendants =
      (11, entry none (12 ∷ 13 ∷ []))
      ∷ (12, entry (some 11) (14 ∷ []))
      ∷ (13, entry (some 11) [])
      ∷ (14, entry (some 12) [])
      ∷ [];
}

abbrev below : Forest
below = node 13 nil (node 12 (node 14 nil nil) nil)

four-Represents : Represents four.descendants (node 11 below nil)
unfolding lookup
four-Represents = (
  (entry none (12 ∷ 13 ∷ []), refl, refl),
  (
    (entry (some 11) [], refl, refl),
    tt,
    ((entry (some 11) (14 ∷ []), refl, refl), ((entry (some 12) [], refl, refl), tt, tt), tt),
  ),
  tt,
)

four-IsDistinct : IsDistinct (node 11 below nil)
four-IsDistinct = (
  refl,
  refl,
  λ j h. refl,
  (
    refl,
    refl,
    λ j h. absurd (cc),
    tt,
    (refl, refl, λ j h. refl, (refl, refl, λ j h. refl, tt, tt), tt),
  ),
  tt,
)

here : is_in_tree none four ≡ true
unfolding is_in_tree
here = refl

release_module_lem_example :
    Ends (Released none (node 11 below nil) four) (release_module 5 none 11 four)
release_module_lem_example =
    release_module_lem none 5 11 below four (omega arith) here four-Represents four-IsDistinct
      (λ j h. refl)

four_released :
    release_module 5 none 11 four
    ≡ ok (record init { released = 11 ∷ 13 ∷ 12 ∷ 14 ∷ []; destroyed = 13 ∷ 14 ∷ 12 ∷ 11 ∷ [] })
unfolding release_module release_each take_out update_child delete_func get_module is_in_tree lookup
    delete
four_released = refl

-- Module 14 is released by the service, which is not its parent.
leaf-Represents : Represents four.descendants (node 14 nil nil)
unfolding lookup
leaf-Represents = ((entry (some 12) [], refl, refl), tt, tt)

leaf-IsDistinct : IsDistinct (node 14 nil nil)
leaf-IsDistinct = (refl, refl, λ j h. refl, tt, tt)

twelve : lookup 12 four.descendants ≡ some (entry (some 11) (14 ∷ []))
unfolding lookup
twelve = refl

stale_child_example :
    Ends (λ w'. release_module 4 none 12 w' ≡ panic) (release_module 3 none 14 four)
stale_child_example =
    stale_child none 3 2 14 12 nil four (entry (some 11) (14 ∷ [])) [] (omega arith) here
      leaf-Represents leaf-IsDistinct (λ j h. refl) twelve refl refl refl

add_module-Fails_example : IsUndone none four (add_module none 0 (λ w. (true, w)) four)
add_module-Fails_example =
    add_module-Fails none 0 (λ w. (true, w)) four here (λ w. (refl, refl, refl))

add_module-Succeeds_example : AddsOrNot none 0 four (add_module none 0 (λ w. (false, w)) four)
add_module-Succeeds_example =
    add_module-Succeeds none 0 (λ w. (false, w)) four here (λ w. (refl, refl, refl))
