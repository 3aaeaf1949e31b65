-- ===== src/Service.antt =====
-- service/module.go and service/service.go: the tree of modules of a service. A module is known by
-- its id; `receiver` is the object that a method is called on, for AddModule one that is in the tree. OnInit is an argument, OnRelease,
-- the handler's Destroy and the cancelled timers are noted in the order of the calls.

pub mod Tree
pub mod TakeOut
pub mod Release
pub mod Join
pub mod Add
mod Tests
use origin.Prelude.{
  ℕ, zero, suc, ◌+◌, ◌^◌, ◌%◌, nat_eq, ◌==◌, if◌then◌else◌, Bool, true, false, List, [], ◌∷◌, ◌++◌,
  Option, none, some, is_some, lookup, insert, delete, length, take, ◌-◌, Outcome, ok, panic,
  out_of_fuel, ◌>>=◌,
}
use mathlib.Core.List.{reverse}

-- A module in the tree.
pub record Entry : Type 0 where
  pub parent : Option ℕ
  pub child : List ℕ

-- The service's part: it is the ancestor of its modules. `child` are its own.
pub record Ancestor : Type 0 where
  pub has_event_processor : Bool
  pub seed_module_id : ℕ
  pub child : List ℕ
  pub descendants : List (ℕ × Entry)
  pub released : List ℕ
  pub destroyed : List ℕ

-- `none` is the service itself.
abbrev pub Receiver : Type 0
Receiver = Option ℕ

-- InitModuleId
abbrev pub init_module_id : ℕ
init_module_id = 1000000000

-- Service.Init
abbrev pub init : Ancestor
init = record {
  has_event_processor = true;
  seed_module_id = init_module_id;
  child = [];
  descendants = [];
  released = [];
  destroyed = [];
}

unfoldable pub new_module_id : Ancestor → ℕ × Ancestor
new_module_id w = let id = (w.seed_module_id + 1) % 2 ^ 32 in (id, record w { seed_module_id = id })

unfoldable pub get_module : ℕ → Ancestor → Option Entry
get_module id w = lookup id w.descendants

abbrev pub children_in : Option Entry → List ℕ
children_in none = []
children_in (some e) = e.child

unfoldable pub child_of : Receiver → Ancestor → List ℕ
child_of none w = w.child
child_of (some m) w = children_in (lookup m w.descendants)

-- `m.child = f(m.child)`
unfoldable pub update_child : Receiver → (List ℕ → List ℕ) → Ancestor → Ancestor
update_child none f w = record w { child = f w.child }
update_child (some m) f w = elim (lookup m w.descendants) [
  | none ↦ w
  | some e ↦ record w { descendants = insert m (record e { child = f e.child }) w.descendants }
]

abbrev pub own_id : ℕ → Ancestor → ℕ × Ancestor
own_id id w = if id == 0 then new_module_id w else (id, w)

-- `on_init` is OnInit of the module that is added, which may add modules of its own, and says
-- whether it failed; it does not empty the receiver's list of children, which would panic here.
unfoldable pub joined : Receiver → ℕ → (Ancestor → Bool × Ancestor) → Ancestor → Option ℕ × Ancestor
joined receiver id on_init w =
    let listed =
      update_child receiver (λ c. c ++ id ∷ [])
        (record w {
          descendants = insert id (record { parent = receiver; child = [] }) w.descendants;
        }) in
    let (failed, w') = on_init listed in
    if failed
    then (
      none,
      update_child receiver (λ c. take (length c - 1) c)
          (record w' { descendants = delete id w'.descendants }),
    )
    else (some id, w')

unfoldable pub add_as : Receiver → ℕ → (Ancestor → Bool × Ancestor) → Ancestor → Option ℕ × Ancestor
add_as receiver id on_init w =
    if is_some (lookup id w.descendants) then (none, w) else joined receiver id on_init w

-- `module_id` is the id of the module if one was set before, or 0.
unfoldable pub add_module :
    Receiver → ℕ → (Ancestor → Bool × Ancestor) → Ancestor → Option ℕ × Ancestor
add_module receiver module_id on_init w =
    if w.has_event_processor
    then add_as receiver (own_id module_id w).0 on_init (own_id module_id w).1
    else (none, w)

-- slices.DeleteFunc
unfoldable pub delete_func : ℕ → List ℕ → List ℕ
delete_func id [] = []
delete_func id (c ∷ cs) = let rest = delete_func id cs in if c == id then rest else c ∷ rest

-- The children from the last to the first.
unfoldable pub release_each :
    (ℕ → Ancestor → Outcome Ancestor) → List ℕ → Ancestor → Outcome Ancestor
release_each release [] w = ok w
release_each release (c ∷ cs) w = release c w >>= λ w'. release_each release cs w'

-- A module that was released has no ancestor any more.
unfoldable pub is_in_tree : Receiver → Ancestor → Bool
is_in_tree none w = true
is_in_tree (some m) w = is_some (lookup m w.descendants)

-- The end of ReleaseModule, when the children are released.
unfoldable pub take_out : Receiver → ℕ → Ancestor → Outcome Ancestor
take_out receiver id w =
    if is_in_tree receiver w
    then (let w' =
          update_child receiver (delete_func id)
            (record w { destroyed = w.destroyed ++ id ∷ [] }) in
        ok (record w' { descendants = delete id w'.descendants }))
    else panic

-- GetModule of an unknown id is nil, and its getBaseModule panics; so does every use of the nil
-- ancestor of a receiver that was released. The fuel bounds the depth.
unfoldable pub release_module : ℕ → Receiver → ℕ → Ancestor → Outcome Ancestor
release_module zero receiver id w = out_of_fuel
release_module (suc fuel) receiver id w =
    if is_in_tree receiver w
    then elim (get_module id w) [
      | none ↦ panic
      | some e ↦
          release_each (release_module fuel receiver) (reverse e.child)
            (record w { released = w.released ++ id ∷ [] })
          >>= take_out receiver id
    ]
    else panic

-- Release of the service, without the hook OnRelease.
unfoldable pub release_service : ℕ → Ancestor → Outcome Ancestor
release_service fuel w = release_each (release_module fuel none) (reverse w.child) w
