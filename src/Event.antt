-- ===== src/Event.antt =====
-- event/event.go: handlers and processors of events. They refer to one another by pointer, so a
-- `World` maps each identity to its object. Event types, handlers, processors and callbacks are
-- numbers of which only the identity matters. The locks make each method one step; the order in
-- which Go ranges over a map is that of the association list.
pub mod Balance
pub mod Registration
pub mod Teardown
mod Tests
use origin.Prelude.{
  ℕ, zero, suc, ◌+◌, ◌-◌, nat_eq, ◌==◌, leb, if◌then◌else◌, Bool, true, false, List, [], ◌∷◌, ◌++◌,
  map, Option, none, some, is_some, lookup, insert, delete, inner, get_nested, put_nested,
  delete_nested,
}

-- EventHandler. The values of the inner maps are nil.
pub record EventHandler : Type 0 where
  pub event_processor : ℕ
  pub map_reg_event : List (ℕ × List (ℕ × Unit {0}))

-- EventProcessor: listeners with the number of their registrations, and the callbacks.
pub record EventProcessor : Type 0 where
  pub map_listener_event : List (ℕ × List (ℕ × ℕ))
  pub map_bind_handler_event : List (ℕ × List (ℕ × ℕ))

pub record World : Type 0 where
  pub handlers : ℕ → EventHandler
  pub processors : ℕ → EventProcessor

abbrev pub update {ℓ} : {A : Type ℓ} → ℕ → (A → A) → (ℕ → A) → ℕ → A
update k f s j = if k == j then f (s j) else s j

abbrev pub on_handler : ℕ → (EventHandler → EventHandler) → World → World
on_handler h f w = record w { handlers = update h f w.handlers }

abbrev pub on_processor : ℕ → (EventProcessor → EventProcessor) → World → World
on_processor p f w = record w { processors = update p f w.processors }

abbrev pub get_event_processor : World → ℕ → ℕ
get_event_processor w h = (w.handlers h).event_processor

unfoldable pub init_handler : ℕ → ℕ → World → World
init_handler h p = on_handler h (λ e. record e { event_processor = p; map_reg_event = [] })

unfoldable pub add_reg_info : ℕ → ℕ → ℕ → World → World
add_reg_info h t p =
    on_handler h (λ e. record e { map_reg_event = put_nested t p tt e.map_reg_event })

unfoldable pub remove_reg_info : ℕ → ℕ → ℕ → World → World
remove_reg_info h t p =
    on_handler h (λ e. record e { map_reg_event = delete_nested t p e.map_reg_event })

unfoldable pub add_bind_event : ℕ → ℕ → ℕ → ℕ → World → World
add_bind_event p t receiver callback = on_processor p (λ e. record e {
  map_bind_handler_event = put_nested t receiver callback e.map_bind_handler_event;
})

unfoldable pub remove_bind_event : ℕ → ℕ → ℕ → World → World
remove_bind_event p t receiver =
    on_processor p
      (λ e. record e { map_bind_handler_event = delete_nested t receiver e.map_bind_handler_event })

-- A missing count reads as 0.
abbrev pub count : Option ℕ → ℕ
count none = 0
count (some n) = n

unfoldable pub add_listen : ℕ → ℕ → ℕ → World → World
add_listen q t receiver w =
    let p = get_event_processor w receiver in
    on_processor q
      (λ e. record e {
        map_listener_event =
            put_nested t p (count (get_nested t p e.map_listener_event) + 1) e.map_listener_event;
      })
      w

-- `m[t][p] -= 1`, and the entry goes if that is not above 0, so if it was at most 1.
unfoldable pub drop_listener : ℕ → ℕ → List (ℕ × List (ℕ × ℕ)) → List (ℕ × List (ℕ × ℕ))
drop_listener t p m = elim (lookup t m) [
  | none ↦ m
  | some i ↦
      if leb (count (lookup p i)) 1
      then delete_nested t p m
      else put_nested t p (count (lookup p i) - 1) m
]

unfoldable pub remove_listen : ℕ → ℕ → ℕ → World → World
unfolding drop_listener
remove_listen q t receiver w =
    let p = get_event_processor w receiver in
    on_processor q (λ e. record e { map_listener_event = drop_listener t p e.map_listener_event }) w

unfoldable pub reg_event_receiver_func : ℕ → ℕ → ℕ → ℕ → World → World
reg_event_receiver_func q t receiver callback w =
    let w1 = add_reg_info receiver t q w in
    let w2 = add_bind_event (get_event_processor w1 receiver) t receiver callback w1 in
    add_listen q t receiver w2

unfoldable pub un_reg_event_receiver_fun : ℕ → ℕ → ℕ → World → World
un_reg_event_receiver_fun q t receiver w =
    let w1 = remove_listen q t receiver w in
    let w2 = remove_bind_event (get_event_processor w1 receiver) t receiver w1 in
    remove_reg_info receiver t q w2

-- The registrations that Destroy ranges over. UnRegEventReceiverFun deletes the current one
-- while the loop runs, and no other.
abbrev pub processors_of : ℕ → List (ℕ × Unit {0}) → List (ℕ × ℕ)
processors_of t [] = []
processors_of t ((p, _) ∷ ps) = (t, p) ∷ processors_of t ps

abbrev pub registrations : List (ℕ × List (ℕ × Unit {0})) → List (ℕ × ℕ)
registrations [] = []
registrations ((t, ps) ∷ m) = processors_of t ps ++ registrations m

unfoldable pub un_reg_all : ℕ → List (ℕ × ℕ) → World → World
un_reg_all h [] w = w
un_reg_all h ((t, q) ∷ rs) w = un_reg_all h rs (un_reg_event_receiver_fun q t h w)

unfoldable pub destroy : ℕ → World → World
destroy h w = un_reg_all h (registrations (w.handlers h).map_reg_event) w

-- The callbacks that EventHandler calls for an event of type `t`: one that panics is the last.
unfoldable pub run_callbacks : (ℕ → Bool) → List (ℕ × ℕ) → List ℕ
run_callbacks panics [] = []
run_callbacks panics ((_, callback) ∷ cs) =
    callback ∷ (if panics callback then [] else run_callbacks panics cs)

unfoldable pub event_handler : (ℕ → Bool) → ℕ → ℕ → World → List ℕ
event_handler panics p t w = run_callbacks panics (inner t (w.processors p).map_bind_handler_event)

-- The processors to whose channel castEvent pushes an event of type `t`.
abbrev pub keys : List (ℕ × ℕ) → List ℕ
keys [] = []
keys ((k, _) ∷ m) = k ∷ keys m

unfoldable pub cast_event : ℕ → ℕ → World → List ℕ
cast_event q t w = keys (inner t (w.processors q).map_listener_event)

unfoldable pub notify_event : ℕ → ℕ → World → List ℕ
notify_event h t w = cast_event (get_event_processor w h) t w
