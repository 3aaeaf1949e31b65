-- ===== src/Event/Registration.antt =====
-- RegEventReceiverFunc and UnRegEventReceiverFun of event/event.go, the listener counts of the
-- processors, and what the handlers have noted.
use origin.Prelude.{
  ℕ, ◌+◌, ◌≡◌, ◌≢◌, nat_eq, ◌==◌, if◌then◌else◌, true, false, List, [], ◌∷◌, none, Bool-cases, inl,
  inr, arith, ◌&&◌, ◌*◌,
}
use origin.Event.{World, get_event_processor, reg_event_receiver_func, un_reg_event_receiver_fun}
use origin.Event.Balance.{
  listening, bound, registered, listening-reg, bound-reg, registered-reg, processor-reg,
  listening-unreg, bound-unreg, registered-unreg, processor-unreg,
}

-- To register a handler that is not registered there and has no callback, and to unregister it again, leaves the counts,
-- the callbacks and the handlers' notes as they were.
pub un_reg-reg :
    (w : World) (q t h cb : ℕ)
    → registered w h t q ≡ false
    → bound w (get_event_processor w h) t h ≡ none
    → let w' = un_reg_event_receiver_fun q t h (reg_event_receiver_func q t h cb w) in
      ((s u p : ℕ) → listening w' s u p ≡ listening w s u p)
      × ((p u j : ℕ) → bound w' p u j ≡ bound w p u j)
      × ((j u s : ℕ) → registered w' j u s ≡ registered w j u s)
un_reg-reg w q t h cb not_yet unbound =
    let v = reg_event_receiver_func q t h cb w in
    let same = processor-reg w q t h cb h in
    (
      λ s u p. ground (arith, same, listening-unreg v q t h s u p, listening-reg w q t h cb s u p),
      λ p u j. ground (arith, same, unbound, bound-unreg v q t h p u j, bound-reg w q t h cb p u j),
      λ j u s.
          ground (arith, not_yet, registered-unreg v q t h j u s, registered-reg w q t h cb j u s),
    )

-- How many of the handlers `hs` belong to processor `p` and are registered for `t` at `q`.
abbrev pub here : World → ℕ → ℕ → ℕ → ℕ → ℕ
here w q t p h = if get_event_processor w h == p && registered w h t q then 1 else 0

abbrev pub registered_at : World → List ℕ → ℕ → ℕ → ℕ → ℕ
registered_at w [] q t p = 0
registered_at w (h ∷ hs) q t p = here w q t p h + registered_at w hs q t p

abbrev pub occurs : ℕ → List ℕ → ℕ
occurs h [] = 0
occurs h (j ∷ hs) = (if j == h then 1 else 0) + occurs h hs

-- Every count is the number of handlers that noted the registration.
abbrev pub IsBalanced : List ℕ → World → Type 0
IsBalanced hs w = (q t p : ℕ) → listening w q t p ≡ registered_at w hs q t p

-- Only handler `h` differs between the two worlds.
registered_at-change :
    (w w' : World) (hs : List ℕ) (q t p h : ℕ)
    → ((j : ℕ) → j ≢ h → here w' q t p j ≡ here w q t p j)
    → registered_at w' hs q t p + occurs h hs * here w q t p h
      ≡ registered_at w hs q t p + occurs h hs * here w' q t p h
registered_at-change w w' [] q t p h same = omega arith
registered_at-change w w' (j ∷ hs) q t p h same =
    let ih = registered_at-change w w' hs q t p h same in
    elim (Bool-cases (j == h)) [
      | inl e ↦ let f : j ≡ h = ground arith in rw (e, f) (grind (arith, ih))
      | inr e ↦ rw e (omega (arith, ih, same j (ground arith)))
    ]

module _ (hs : List ℕ) (w : World) (q t h : ℕ) (once : occurs h hs ≡ 1) (b : IsBalanced hs w) where
  -- RegEventReceiverFunc keeps the agreement of the listener counts with the notes of the
  -- handlers `hs`, for one of them that is not registered there yet.
  pub reg-IsBalanced :
      (cb : ℕ) → registered w h t q ≡ false → IsBalanced hs (reg_event_receiver_func q t h cb w)
  reg-IsBalanced cb not_yet s u p =
      let w' = reg_event_receiver_func q t h cb w in
      let change =
        registered_at-change w w' hs s u p h
          λ j ne. ground (arith, registered-reg w q t h cb j u s, processor-reg w q t h cb j) in
      ground (
        arith,
        b s u p,
        once,
        not_yet,
        rw once at change,
        listening-reg w q t h cb s u p,
        registered-reg w q t h cb h u s,
        processor-reg w q t h cb h,
      )

  -- UnRegEventReceiverFun keeps the agreement of the listener counts with the notes of the
  -- handlers `hs`, for one of them that is registered there.
  pub unreg-IsBalanced :
      registered w h t q ≡ true → IsBalanced hs (un_reg_event_receiver_fun q t h w)
  unreg-IsBalanced was s u p =
      let w' = un_reg_event_receiver_fun q t h w in
      let change =
        registered_at-change w w' hs s u p h
          λ j ne. ground (arith, registered-unreg w q t h j u s, processor-unreg w q t h j) in
      ground (
        arith,
        b s u p,
        once,
        was,
        rw once at change,
        listening-unreg w q t h s u p,
        registered-unreg w q t h h u s,
        processor-unreg w q t h h,
      )
