-- ===== src/Service/Tree.antt =====
-- Modules below modules, as the map of service/module.go has them, and what ReleaseModule should do.
use origin.Prelude.{
  ℕ, suc, ◌+◌, ◌≡◌, refl, ◌∙◌, ap, arith, nat_eq, ◌==◌, Bool, true, false, List, [], ◌∷◌, ◌++◌,
  none, some, is_some, lookup, among, among-append,
}
use mathlib.Core.List.{reverse}
use origin.Service.{Entry, Ancestor, Receiver, children_in, child_of, delete_func, is_in_tree}

-- Modules that are siblings, the last one first, each with those below it.
pub data Forest : Type 0 where
  nil : Forest
  node : ℕ → Forest → Forest → Forest

abbrev pub roots : Forest → List ℕ
roots nil = []
roots (node id kids rest) = id ∷ roots rest

-- The order of OnRelease: a module before those below it.
abbrev pub before : Forest → List ℕ
before nil = []
before (node id kids rest) = id ∷ (before kids ++ before rest)

-- The order in which modules are taken out: a module after those below it.
abbrev pub after : Forest → List ℕ
after nil = []
after (node id kids rest) = after kids ++ (id ∷ after rest)

abbrev pub size : Forest → ℕ
size nil = 0
size (node id kids rest) = suc (size kids + size rest)

-- The forest is what hangs together in the map.
abbrev pub Represents : List (ℕ × Entry) → Forest → Type 0
Represents d nil = Unit {0}
Represents d (node id kids rest) =
    ((e : Entry) × (lookup id d ≡ some e) × (reverse e.child ≡ roots kids))
    × Represents d kids
    × Represents d rest

-- No module stands twice in it.
abbrev pub IsDistinct : Forest → Type 0
IsDistinct nil = Unit {0}
IsDistinct (node id kids rest) =
    (among id (after kids) ≡ false)
    × (among id (after rest) ≡ false)
    × ((j : ℕ) → among j (after kids) ≡ true → among j (after rest) ≡ false)
    × IsDistinct kids
    × IsDistinct rest

abbrev pub is_receiver : Receiver → ℕ → Bool
is_receiver none j = false
is_receiver (some m) j = m == j

abbrev pub IsOutside : Receiver → Forest → Type 0
IsOutside r f = (j : ℕ) → among j (after f) ≡ true → is_receiver r j ≡ false

abbrev pub without : List ℕ → List ℕ → List ℕ
without [] xs = xs
without (id ∷ ids) xs = without ids (delete_func id xs)

pub without-append : (is js xs : List ℕ) → without (is ++ js) xs ≡ without js (without is xs)
without-append [] js xs = refl
without-append (i ∷ is) js xs = without-append is js (delete_func i xs)

-- From `w` to `w'` exactly the modules of the forest are taken out.
pub record Released (r : Receiver) (f : Forest) (w w' : Ancestor) : Type 0 where
  pub gone : (j : ℕ) → among j (after f) ≡ true → lookup j w'.descendants ≡ none
  pub kept :
      (j : ℕ)
      → among j (after f) ≡ false
      → is_receiver r j ≡ false
      → lookup j w'.descendants ≡ lookup j w.descendants
  pub children : child_of r w' ≡ without (after f) (child_of r w)
  pub stays : is_in_tree r w' ≡ true
  pub released_all : w'.released ≡ w.released ++ before f
  pub destroyed_all : w'.destroyed ≡ w.destroyed ++ after f

pub Represents-stable :
    (f : Forest) (d d' : List (ℕ × Entry))
    → ((j : ℕ) → among j (after f) ≡ true → lookup j d' ≡ lookup j d)
    → Represents d f
    → Represents d' f
Represents-stable nil d d' same v = tt
Represents-stable (node id kids rest) d d' same ((e, at, order), k, r) =
    let l = λ (j : ℕ). among-append j (after kids) (id ∷ after rest) in
    (
      (e, same id (ground (arith, l id)) ∙ at, order),
      Represents-stable kids d d' (λ j h. same j (ground (arith, l j))) k,
      Represents-stable rest d d' (λ j h. same j (ground (arith, l j))) r,
    )

pub in_tree_stable :
    (r : Receiver) (w w' : Ancestor)
    → w'.descendants ≡ w.descendants
    → is_in_tree r w ≡ true
    → is_in_tree r w' ≡ true
unfolding is_in_tree
in_tree_stable none w w' e h = refl
in_tree_stable (some m) w w' e h = ap (λ d. is_some (lookup m d)) e ∙ h

pub child_of_stable :
    (r : Receiver) (w w' : Ancestor)
    → w.child ≡ w'.child
    → w.descendants ≡ w'.descendants
    → child_of r w ≡ child_of r w'
unfolding child_of
child_of_stable none w w' e f = e
child_of_stable (some m) w w' e f = ap (λ d. children_in (lookup m d)) f

pub child_of_entry :
    (m : ℕ) (w : Ancestor) (e : Entry)
    → lookup m w.descendants ≡ some e
    → child_of (some m) w ≡ e.child
unfolding child_of
child_of_entry m w e h = ap children_in h
