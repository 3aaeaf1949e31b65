-- ===== src/Service/Join.antt =====
-- The steps of AddModule of service/module.go, with an OnInit that fails.
use mathlib.Core.Path.{subst}
use origin.Prelude.{
  ℕ, ◌-◌, ◌≡◌, refl, ◌∙◌, sym, ap, arith, nat_eq, ◌==◌, Bool, true, false, List, [], ◌∷◌, ◌++◌,
  length, length-append, take, take-append, Option, none, some, is_some, lookup, insert, delete,
  lookup-insert, lookup-delete, Bool-cases, Option-cases, inl, inr,
}
use origin.Service.{
  Entry, Ancestor, Receiver, children_in, child_of, update_child, joined, is_in_tree,
}
use origin.Service.Tree.{is_receiver, child_of_stable, child_of_entry, in_tree_stable}

-- What `update_child` leaves as it is, and what it does.
pub lookup-update_child :
    (r : Receiver) (f : List ℕ → List ℕ) (w : Ancestor) (j : ℕ)
    → is_receiver r j ≡ false
    → lookup j (update_child r f w).descendants ≡ lookup j w.descendants
unfolding update_child
lookup-update_child none f w j away = refl
lookup-update_child (some m) f w j away = elim (Option-cases (lookup m w.descendants)) [
  | inl e ↦ rw (e, update_child) refl
  | inr (en, e) ↦
      let new : Entry = record en { child = f en.child } in
      rw (e, update_child) (ground (arith, lookup-insert m j new w.descendants))
]

pub child_of-update_child :
    (r : Receiver) (f : List ℕ → List ℕ) (w : Ancestor)
    → is_in_tree r w ≡ true
    → child_of r (update_child r f w) ≡ f (child_of r w)
unfolding update_child child_of is_in_tree
child_of-update_child none f w here = refl
child_of-update_child (some m) f w here = elim (Option-cases (lookup m w.descendants)) [
  | inl e ↦ absurd (let no_entry : is_some (lookup m w.descendants) ≡ false = ap is_some e in cc)
  | inr (en, e) ↦
      let new : Entry = record en { child = f en.child } in
      let d = insert m new w.descendants in
      let w' : Ancestor = record w { descendants = d } in
      let there : lookup m d ≡ some new = ground (arith, lookup-insert m m new w.descendants) in
      let same : update_child (some m) f w ≡ w' = rw (e, update_child) refl in
      ap (child_of (some m)) same
      ∙ child_of_entry m w' new there
      ∙ ap f (sym (child_of_entry m w en e))
]

take_last : (c : List ℕ) (id : ℕ) → take (length (c ++ id ∷ []) - 1) (c ++ id ∷ []) ≡ c
take_last c id =
    let e : length (c ++ id ∷ []) - 1 ≡ length c = omega (arith, length-append c (id ∷ [])) in
    ap (λ n. take n (c ++ id ∷ [])) e ∙ take-append c (id ∷ [])

-- An OnInit that fails and leaves the tree as it found it.
abbrev pub Fails : (Ancestor → Bool × Ancestor) → Type 0
Fails on_init =
    (w : Ancestor)
    → ((on_init w).0 ≡ true)
      × ((on_init w).1.descendants ≡ w.descendants)
      × ((on_init w).1.child ≡ w.child)

-- An OnInit that succeeds and leaves the tree as it found it.
abbrev pub Succeeds : (Ancestor → Bool × Ancestor) → Type 0
Succeeds on_init =
    (w : Ancestor)
    → ((on_init w).0 ≡ false)
      × ((on_init w).1.descendants ≡ w.descendants)
      × ((on_init w).1.child ≡ w.child)

-- The state in which OnInit is called.
abbrev pub listed : Receiver → ℕ → Ancestor → Ancestor
listed r id w =
    update_child r (λ c. c ++ id ∷ [])
      (record w { descendants = insert id (record { parent = r; child = [] }) w.descendants })

in_tree_insert :
    (r : Receiver) (id : ℕ) (e : Entry) (w : Ancestor)
    → is_in_tree r w ≡ true
    → is_in_tree r (record w { descendants = insert id e w.descendants }) ≡ true
unfolding is_in_tree
in_tree_insert none id e w here = refl
in_tree_insert (some m) id e w here = ground (arith, lookup-insert id m e w.descendants)

child_of-insert :
    (r : Receiver) (id : ℕ) (e : Entry) (w : Ancestor)
    → is_receiver r id ≡ false
    → child_of r (record w { descendants = insert id e w.descendants }) ≡ child_of r w
unfolding child_of
child_of-insert none id e w away = refl
child_of-insert (some m) id e w away =
    let same : lookup m (insert id e w.descendants) ≡ lookup m w.descendants =
      ground (arith, lookup-insert id m e w.descendants) in
    ap children_in same

-- A module is in the tree below the receiver, as its last child, when OnInit is called.
pub listed_lem :
    (r : Receiver) (id : ℕ) (w : Ancestor)
    → is_in_tree r w ≡ true
    → is_receiver r id ≡ false
    → (lookup id (listed r id w).descendants ≡ some (record { parent = r; child = [] }))
      × (child_of r (listed r id w) ≡ child_of r w ++ id ∷ [])
listed_lem r id w here away =
    let e : Entry = record { parent = r; child = [] } in
    let w1 : Ancestor = record w { descendants = insert id e w.descendants } in
    (
      lookup-update_child r (λ c. c ++ id ∷ []) w1 id away
          ∙ ground (arith, lookup-insert id id e w.descendants),
      child_of-update_child r (λ c. c ++ id ∷ []) w1 (in_tree_insert r id e w here)
          ∙ ap (λ c. c ++ id ∷ []) (child_of-insert r id e w away),
    )

delete_stays :
    (r : Receiver) (id : ℕ) (w : Ancestor)
    → is_receiver r id ≡ false
    → is_in_tree r w ≡ true
    → (is_in_tree r (record w { descendants = delete id w.descendants }) ≡ true)
      × (child_of r (record w { descendants = delete id w.descendants }) ≡ child_of r w)
unfolding is_in_tree child_of
delete_stays none id w away here = (refl, refl)
delete_stays (some m) id w away here =
    let same : lookup m (delete id w.descendants) ≡ lookup m w.descendants =
      ground (arith, lookup-delete id m w.descendants) in
    (ap is_some same ∙ here, ap children_in same)

update_stays :
    (r : Receiver) (f : List ℕ → List ℕ) (w : Ancestor)
    → is_in_tree r w ≡ true
    → is_in_tree r (update_child r f w) ≡ true
unfolding is_in_tree update_child
update_stays none f w here = refl
update_stays (some m) f w here = elim (Option-cases (lookup m w.descendants)) [
  | inl e ↦ absurd (let no_entry : is_some (lookup m w.descendants) ≡ false = ap is_some e in cc)
  | inr (en, e) ↦
      let new : Entry = record en { child = f en.child } in
      rw (e, update_child) (ground (arith, lookup-insert m m new w.descendants))
]

listed_stays :
    (r : Receiver) (id : ℕ) (w : Ancestor)
    → is_in_tree r w ≡ true
    → is_in_tree r (listed r id w) ≡ true
listed_stays r id w here =
    let e : Entry = record { parent = r; child = [] } in
    update_stays r (λ c. c ++ id ∷ []) (record w { descendants = insert id e w.descendants })
      (in_tree_insert r id e w here)

pub lookup-listed :
    (r : Receiver) (id : ℕ) (w : Ancestor) (j : ℕ)
    → is_receiver r j ≡ false
    → (id == j) ≡ false
    → lookup j (listed r id w).descendants ≡ lookup j w.descendants
lookup-listed r id w j away other =
    let e : Entry = record { parent = r; child = [] } in
    lookup-update_child r (λ c. c ++ id ∷ []) (record w { descendants = insert id e w.descendants })
      j away
    ∙ ground (arith, lookup-insert id j e w.descendants)

-- The tree is as it was: no module is added, and the receiver's children are the same.
abbrev pub IsUndone : Receiver → Ancestor → Option ℕ × Ancestor → Type 0
IsUndone r w result =
    (result.0 ≡ none)
    × (child_of r result.1 ≡ child_of r w)
    × ((j : ℕ) → is_receiver r j ≡ false → lookup j result.1.descendants ≡ lookup j w.descendants)

pub joined-Fails :
    (r : Receiver) (id : ℕ) (on_init : Ancestor → Bool × Ancestor) (w : Ancestor)
    → Fails on_init
    → is_in_tree r w ≡ true
    → is_receiver r id ≡ false
    → lookup id w.descendants ≡ none
    → IsUndone r w (joined r id on_init w)
unfolding joined
joined-Fails r id on_init w fails here away fresh =
    let l = listed r id w in
    let (failed, same, same_child) = fails l in
    let w2 = (on_init l).1 in
    let w3 : Ancestor = record w2 { descendants = delete id w2.descendants } in
    let cut = λ (c : List ℕ). take (length c - 1) c in
    let end : joined r id on_init w ≡ (none, update_child r cut w3) = rw failed refl in
    let tree2 = in_tree_stable r l w2 same (listed_stays r id w here) in
    let (tree3, child3) = delete_stays r id w2 away tree2 in
    subst (IsUndone r w) (sym end) (
      refl,
      child_of-update_child r cut w3 tree3
          ∙ ap cut
              (child3 ∙ child_of_stable r w2 l same_child same ∙ (listed_lem r id w here away).1)
          ∙ take_last (child_of r w) id,
      λ j apart.
          lookup-update_child r cut w3 j apart
          ∙ lookup-delete id j w2.descendants
          ∙ elim (Bool-cases (id == j)) [
            | inl e ↦
                rw e
                  (sym (ap (λ k. lookup k w.descendants) {x = j} {y = id} (ground arith) ∙ fresh))
            | inr e ↦ rw e (ap (lookup j) same ∙ lookup-listed r id w j apart e)
          ],
    )
