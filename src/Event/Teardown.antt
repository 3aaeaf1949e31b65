-- ===== src/Event/Teardown.antt =====
-- Destroy of event/event.go.
use origin.Prelude.{
  ℕ, ◌≡◌, ◌≢◌, refl, nat_eq, ◌==◌, if◌then◌else◌, Bool, true, false, List, [], ◌∷◌, ◌++◌, none,
  is_some, lookup, inner, get_nested, get_nested-missing, Bool-cases, inl, inr, arith, ◌&&◌, ◌∙◌,
  sym,
}
use origin.Event.{
  World, get_event_processor, processors_of, registrations, un_reg_event_receiver_fun, un_reg_all,
  destroy,
}
use origin.Event.Balance.{bound, registered, registered-unreg, bound-unreg, processor-unreg}
use origin.Event.Registration.{IsBalanced, occurs, unreg-IsBalanced}

abbrev Inner : Type 0
Inner = List (ℕ × Unit {0})

-- A Go map has a key at most once.
abbrev pub IsMap : List (ℕ × Unit {0}) → Type 0
IsMap [] = Unit
IsMap ((k, _) ∷ m) = (lookup k m ≡ none) × IsMap m

abbrev pub IsNestedMap : List (ℕ × List (ℕ × Unit {0})) → Type 0
IsNestedMap [] = Unit
IsNestedMap ((t, i) ∷ m) = (lookup t m ≡ none) × IsMap i × IsNestedMap m

abbrev has : ℕ → ℕ → List (ℕ × ℕ) → Bool
has t q [] = false
has t q ((u, s) ∷ rs) = if u == t && s == q then true else has t q rs

abbrev IsDistinct : List (ℕ × ℕ) → Type 0
IsDistinct [] = Unit
IsDistinct ((t, q) ∷ rs) = (has t q rs ≡ false) × IsDistinct rs

has-append :
    (t q : ℕ) (rs ss : List (ℕ × ℕ))
    → has t q (rs ++ ss) ≡ (if has t q rs then true else has t q ss)
has-append t q [] ss = refl
has-append t q ((u, s) ∷ rs) ss = ground (arith, has-append t q rs ss)

has-processors_of :
    (t q u : ℕ) (i : Inner)
    → has t q (processors_of u i) ≡ (if u == t then is_some (lookup q i) else false)
unfolding lookup
has-processors_of t q u [] = ground arith
has-processors_of t q u ((p, _) ∷ i) = ground (arith, has-processors_of t q u i)

-- The list of registrations has exactly the entries of the nested map.
has-registrations :
    (t q : ℕ) (m : List (ℕ × Inner))
    → IsNestedMap m
    → has t q (registrations m) ≡ is_some (get_nested t q m)
unfolding lookup get_nested inner
has-registrations t q [] n = refl
has-registrations t q ((u, i) ∷ m) n =
    let ih = has-registrations t q m n.2 in
    let split = has-append t q (processors_of u i) (registrations m) in
    elim (Bool-cases (u == t)) [
      | inl e ↦
          let f : u ≡ t = ground arith in ground (arith, ih, split, has-processors_of t q u i, n.0)
      | inr e ↦ ground (arith, ih, split, has-processors_of t q u i)
    ]

IsDistinct-append :
    (rs ss : List (ℕ × ℕ))
    → IsDistinct rs
    → IsDistinct ss
    → ((t q : ℕ) → has t q rs ≡ true → has t q ss ≡ false)
    → IsDistinct (rs ++ ss)
IsDistinct-append [] ss d e apart = e
IsDistinct-append ((t, q) ∷ rs) ss d e apart = (
  ground (arith, has-append t q rs ss, d.0, apart t q),
  IsDistinct-append rs ss d.1 e (λ u s h. apart u s (ground arith)),
)

IsDistinct-processors_of : (t : ℕ) (i : Inner) → IsMap i → IsDistinct (processors_of t i)
IsDistinct-processors_of t [] m = tt
IsDistinct-processors_of t ((p, _) ∷ i) m =
    (ground (arith, has-processors_of t p t i, m.0), IsDistinct-processors_of t i m.1)

IsDistinct-registrations : (m : List (ℕ × Inner)) → IsNestedMap m → IsDistinct (registrations m)
IsDistinct-registrations [] n = tt
IsDistinct-registrations ((u, i) ∷ m) n =
    IsDistinct-append (processors_of u i) (registrations m) (IsDistinct-processors_of u i n.1)
      (IsDistinct-registrations m n.2)
      λ t q h.
        ground (arith, has-processors_of t q u i, has-registrations t q m n.2, missing t q u m n.0)
  where
    missing :
        (t q u : ℕ) (m : List (ℕ × Inner))
        → lookup u m ≡ none
        → (u == t) ≡ true
        → get_nested t q m ≡ none
    missing t q u m e f = let g : u ≡ t = ground arith in rw (← g) (get_nested-missing u q m e)

-- What Destroy does to the world `w`, where `hs` are its handlers.
pub record Destroyed (hs : List ℕ) (h : ℕ) (w w' : World) : Type 0 where
  pub balanced : IsBalanced hs w'
  pub gone : (t q : ℕ) → registered w' h t q ≡ false
  pub others : (j t q : ℕ) → j ≢ h → registered w' j t q ≡ registered w j t q
  pub callbacks : (p t j : ℕ) → j ≢ h → bound w' p t j ≡ bound w p t j
  pub silent : (t q : ℕ) → registered w h t q ≡ true → bound w' (get_event_processor w h) t h ≡ none
  pub unheard : (p t : ℕ) → ((q : ℕ) → registered w h t q ≡ false) → bound w' p t h ≡ bound w p t h

-- A callback that is gone stays gone.
none_stays :
    (h p u : ℕ) (rs : List (ℕ × ℕ)) (w : World)
    → bound w p u h ≡ none
    → bound (un_reg_all h rs w) p u h ≡ none
unfolding un_reg_all
none_stays h p u [] w e = e
none_stays h p u ((t, q) ∷ rs) w e =
    none_stays h p u rs (un_reg_event_receiver_fun q t h w)
      (ground (arith, e, bound-unreg w q t h p u h))

un_reg_all_lem :
    (hs : List ℕ) (h : ℕ) (rs : List (ℕ × ℕ)) (w : World)
    → occurs h hs ≡ 1
    → IsBalanced hs w
    → IsDistinct rs
    → ((t q : ℕ) → registered w h t q ≡ has t q rs)
    → Destroyed hs h w (un_reg_all h rs w)
unfolding un_reg_all
un_reg_all_lem hs h [] w once b d all = record {
  balanced = b;
  gone = all;
  others = λ j t q ne. refl;
  callbacks = λ p t j ne. refl;
  silent = λ t q e. absurd (ground (arith, all t q));
  unheard = λ p t e. refl;
}
un_reg_all_lem hs h ((t, q) ∷ rs) w once b d all =
    let w' = un_reg_event_receiver_fun q t h w in
    let rest =
      un_reg_all_lem hs h rs w' once (unreg-IsBalanced hs w q t h once b (ground (arith, all t q)))
        d.1 (λ u s. ground (arith, all u s, registered-unreg w q t h h u s, d.0)) in
    record {
      balanced = rest.balanced;
      gone = rest.gone;
      others =
          λ j u s ne. rest.others j u s ne ∙ ground (arith, ne, registered-unreg w q t h j u s);
      callbacks =
          λ p u j ne. rest.callbacks p u j ne ∙ ground (arith, ne, bound-unreg w q t h p u j);
      silent = λ u s e. elim (Bool-cases (t == u && q == s)) [
        | inl this ↦
            none_stays h (get_event_processor w h) u rs w'
              (ground (arith, this, bound-unreg w q t h (get_event_processor w h) u h))
        | inr other ↦ ground (
          arith,
          rest.silent u s,
          other,
          e,
          registered-unreg w q t h h u s,
          processor-unreg w q t h h,
        )
      ];
      unheard = λ p u e.
          rest.unheard p u (λ s. ground (arith, e s, registered-unreg w q t h h u s))
          ∙ ground (arith, e q, all t q, bound-unreg w q t h p u h);
    }

-- Where the listener counts agree with the notes of the handlers `hs`, of which `h` is one, once,
-- and its notes have each entry once, Destroy of `h` leaves it noted nowhere, and without a callback
-- for any type of event for which it was noted; it keeps the balance between the counts and the
-- handlers' notes, the notes and the callbacks of the other handlers, and the callbacks of `h` for
-- other types.
pub destroy_lem :
    (hs : List ℕ) (h : ℕ) (w : World)
    → occurs h hs ≡ 1
    → IsBalanced hs w
    → IsNestedMap (w.handlers h).map_reg_event
    → Destroyed hs h w (destroy h w)
unfolding destroy registered
destroy_lem hs h w once b n =
    un_reg_all_lem hs h (registrations m) w once b (IsDistinct-registrations m n)
      (λ t q. sym (has-registrations t q m n))
  where
    m : List (ℕ × Inner)
    m = (w.handlers h).map_reg_event
