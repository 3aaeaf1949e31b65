-- ===== src/Event/Tests.antt =====
-- Concrete runs of event/event.go: handler 1 of processor 10 and handler 2 of processor 20, which
-- is registered for events of type 5 at processor 10.
use origin.Prelude.{
  ℕ, ◌≡◌, refl, nat_eq, ◌==◌, if◌then◌else◌, true, false, List, [], ◌∷◌, none, arith, lookup,
  get_nested, inner,
}
use origin.Event.{World, get_event_processor, destroy}
use origin.Event.Balance.{listening, bound, registered}
use origin.Event.Registration.{IsBalanced}
use origin.Event.Teardown.{IsNestedMap, Destroyed, destroy_lem}

abbrev world : World
world = record {
  handlers = λ h.
      if h == 2
      then record { event_processor = 20; map_reg_event = (5, (10, tt) ∷ []) ∷ [] }
      else record { event_processor = 10; map_reg_event = [] };
  processors = λ p.
      if p == 10
      then record { map_listener_event = (5, (20, 1) ∷ []) ∷ []; map_bind_handler_event = [] }
      else if p == 20
      then record { map_listener_event = []; map_bind_handler_event = (5, (2, 77) ∷ []) ∷ [] }
      else record { map_listener_event = []; map_bind_handler_event = [] };
}

abbrev both : List ℕ
both = 1 ∷ 2 ∷ []

world-IsBalanced : IsBalanced both world
unfolding listening registered lookup get_nested inner
world-IsBalanced q t p = ground arith

not_registered : registered world 1 5 10 ≡ false
unfolding registered lookup get_nested inner
not_registered = refl

was_registered : registered world 2 5 10 ≡ true
unfolding registered lookup get_nested inner
was_registered = refl

not_bound : bound world (get_event_processor world 1) 5 1 ≡ none
unfolding bound lookup get_nested inner
not_bound = refl

is_map : IsNestedMap (world.handlers 2).map_reg_event
unfolding lookup
is_map = (refl, (refl, tt), tt)

destroy_lem_example : Destroyed both 2 world (destroy 2 world)
destroy_lem_example = destroy_lem both 2 world refl world-IsBalanced is_map
