-- ===== src/Event/Balance.antt =====
-- The listener counts of event/event.go, read through the world.
use origin.Prelude.{
  ℕ, ◌+◌, ◌-◌, ◌≡◌, nat_eq, ◌==◌, leb, if◌then◌else◌, Bool, true, false, List, Option, none, some,
  is_some, lookup, get_nested, get-put_nested, get-delete_nested, get_nested-missing,
  get_nested-inner, Option-cases, Bool-cases, inl, inr, arith, ◌&&◌,
}
use origin.Event.{
  World, get_event_processor, count, add_reg_info, remove_reg_info, add_bind_event,
  remove_bind_event, add_listen, drop_listener, remove_listen, reg_event_receiver_func,
  un_reg_event_receiver_fun,
}

-- How often the handlers of processor `p` are registered for events of type `t` at `q`.
unfoldable pub listening : World → ℕ → ℕ → ℕ → ℕ
listening w q t p = count (get_nested t p (w.processors q).map_listener_event)

-- The callback that processor `p` calls for handler `h` on events of type `t`.
unfoldable pub bound : World → ℕ → ℕ → ℕ → Option ℕ
bound w p t h = get_nested t h (w.processors p).map_bind_handler_event

-- Handler `h` has noted that it is registered for events of type `t` at `q`.
unfoldable pub registered : World → ℕ → ℕ → ℕ → Bool
registered w h t q = is_some (get_nested t q (w.handlers h).map_reg_event)

pub count-drop_listener :
    (t p s j : ℕ) (m : List (ℕ × List (ℕ × ℕ)))
    → count (get_nested s j (drop_listener t p m)) ≡ (
        if t == s
        then if p == j then count (get_nested s j m) - 1 else count (get_nested s j m)
        else count (get_nested s j m))
unfolding drop_listener
count-drop_listener t p s j m = elim (Option-cases (lookup t m)) [
  | inl e ↦ rw (e, drop_listener) (ground (arith, get_nested-missing t j m e))
  | inr (i, e) ↦
      let same = get_nested-inner t p m e in
      rw (e, drop_listener)
        (elim (Bool-cases (leb (count (lookup p i)) 1)) [
          | inl few ↦ rw few (ground (arith, same, get-delete_nested t p s j m))
          | inr more ↦
              rw more (ground (arith, same, get-put_nested t p s j (count (lookup p i) - 1) m))
        ])
]

module _ (w : World) (q t h cb : ℕ) where
  abbrev after_reg : World
  after_reg = reg_event_receiver_func q t h cb w

  pub listening-reg :
      (s u p : ℕ)
      → listening after_reg s u p ≡ (
          if q == s && t == u && get_event_processor w h == p
          then listening w s u p + 1
          else listening w s u p)
  unfolding listening reg_event_receiver_func add_reg_info add_bind_event add_listen
  listening-reg s u p =
      let p' = get_event_processor w h in
      let m = (w.processors s).map_listener_event in
      ground (arith, get-put_nested t p' u p (count (get_nested t p' m) + 1) m)

  pub bound-reg :
      (p u j : ℕ)
      → bound after_reg p u j
        ≡ (if get_event_processor w h == p && t == u && h == j then some cb else bound w p u j)
  unfolding bound reg_event_receiver_func add_reg_info add_bind_event add_listen
  bound-reg p u j =
      ground (arith, get-put_nested t h u j cb (w.processors p).map_bind_handler_event)

  pub registered-reg :
      (j u s : ℕ)
      → registered after_reg j u s
        ≡ (if h == j && t == u && q == s then true else registered w j u s)
  unfolding registered reg_event_receiver_func add_reg_info add_bind_event add_listen
  registered-reg j u s = ground (arith, get-put_nested t q u s tt (w.handlers j).map_reg_event)

  pub processor-reg : (j : ℕ) → get_event_processor after_reg j ≡ get_event_processor w j
  unfolding reg_event_receiver_func add_reg_info add_bind_event add_listen
  processor-reg j = ground arith

module _ (w : World) (q t h : ℕ) where
  abbrev after_unreg : World
  after_unreg = un_reg_event_receiver_fun q t h w

  pub listening-unreg :
      (s u p : ℕ)
      → listening after_unreg s u p ≡ (
          if q == s && t == u && get_event_processor w h == p
          then listening w s u p - 1
          else listening w s u p)
  unfolding listening un_reg_event_receiver_fun remove_reg_info remove_bind_event remove_listen
  listening-unreg s u p = ground (
    arith,
    count-drop_listener t (get_event_processor w h) u p (w.processors s).map_listener_event,
  )

  pub bound-unreg :
      (p u j : ℕ)
      → bound after_unreg p u j
        ≡ (if get_event_processor w h == p && t == u && h == j then none else bound w p u j)
  unfolding bound un_reg_event_receiver_fun remove_reg_info remove_bind_event remove_listen
  bound-unreg p u j =
      ground (arith, get-delete_nested t h u j (w.processors p).map_bind_handler_event)

  pub registered-unreg :
      (j u s : ℕ)
      → registered after_unreg j u s
        ≡ (if h == j && t == u && q == s then false else registered w j u s)
  unfolding registered un_reg_event_receiver_fun remove_reg_info remove_bind_event remove_listen
  registered-unreg j u s = ground (arith, get-delete_nested t q u s (w.handlers j).map_reg_event)

  pub processor-unreg : (j : ℕ) → get_event_processor after_unreg j ≡ get_event_processor w j
  unfolding un_reg_event_receiver_fun remove_reg_info remove_bind_event remove_listen
  processor-unreg j = ground arith
