-- ===== src/MessageQueue/BiSearch/Found.antt =====
-- What the binary search of util/algorithms/BiSearch.go finds in a sorted slice.
use origin.Prelude.{
  ℕ, zero, suc, ◌+◌, ◌-◌, ◌/◌, ◌≤◌, ◌<◌, ◌≡◌, ◌≢◌, refl, nat_eq, ◌==◌, ltb, leb, true, false, List,
  Option, none, some, length, get_elem?, get_or, get_elem?-eq-get_or, ok, Ends, ends, Ends-bind,
  Bool-cases, inl, inr, ◌⊎◌, arith, ◌∙◌,
}
use origin.MessageQueue.BiSearch.{
  MatchUp, equal, left, right, Halt, hit, miss, search_loop, match_up_at, bi_search,
}

abbrev pub nth : List ℕ → ℕ → ℕ
nth xs i = get_or xs i 0

abbrev pub IsSorted : List ℕ → Type 0
IsSorted xs = (i j : ℕ) → i ≤ j → j < length xs → nth xs i ≤ nth xs j

-- `value` lies between the elements before `low` and those from `above` on.
pub record Between (xs : List ℕ) (value low above : ℕ) : Type 0 where
  pub below : (j : ℕ) → j < low → nth xs j < value
  pub beyond : (j : ℕ) → above ≤ j → j < length xs → value < nth xs j

-- No element equals `value`; the last one that was looked at is next to its place.
pub record Missed (xs : List ℕ) (value mid : ℕ) : Type 0 where
  pub gap : ℕ
  pub between : Between xs value gap gap
  pub near : (gap ≡ mid) ⊎ (gap ≡ mid + 1)
  pub inside : mid < length xs
  pub most : gap ≤ length xs

abbrev pub Halted : List ℕ → ℕ → Halt → Type 0
Halted xs value (hit mid) = (mid < length xs) × (nth xs mid ≡ value)
Halted xs value (miss mid) = Missed xs value mid

-- The range is not empty, or the last element that was looked at is next to it.
abbrev IsNear : List ℕ → ℕ → ℕ → ℕ → Type 0
IsNear xs low above mid = (low < above) ⊎ ((mid < length xs) × ((low ≡ mid) ⊎ (low ≡ mid + 1)))

shorter :
    (xs : List ℕ) (low above mid : ℕ)
    → low ≤ above
    → mid < length xs
    → (above ≡ mid) ⊎ (low ≡ mid + 1)
    → IsNear xs low above mid
shorter xs low above mid le inside at = elim (Bool-cases (ltb low above)) [
  | inl more ↦ inl (ground arith)
  | inr done ↦ inr (inside, next_to (ground arith) at)
]
  where
    next_to : low ≡ above → (above ≡ mid) ⊎ (low ≡ mid + 1) → (low ≡ mid) ⊎ (low ≡ mid + 1)
    next_to e (inl f) = inl (e ∙ f)
    next_to e (inr f) = inr f

at_end :
    (xs : List ℕ) (value low above mid : ℕ)
    → Between xs value low above
    → above ≤ low
    → IsNear xs low above mid
    → low ≤ above
    → above ≤ length xs
    → Missed xs value mid
at_end xs value low above mid b done (inl more) le within = absurd (omega arith)
at_end xs value low above mid b done (inr (inside, near)) le within = record {
  gap = low;
  between = record { below = b.below; beyond = λ j p q. b.beyond j (omega arith) q };
  near = near;
  inside = inside;
  most = omega arith;
}

module _ (fuel : ℕ) (xs : List ℕ) (value low above mid x : ℕ) (more : ltb low above ≡ true)
    (read : get_elem? xs (low + (above - 1 - low) / 2) ≡ some x) where
  to_left :
      ltb value x ≡ true
      → search_loop (suc fuel) xs value low above mid
        ≡ search_loop fuel xs value low (low + (above - 1 - low) / 2) (low + (above - 1 - low) / 2)
  unfolding search_loop
  to_left larger = ground (arith, more, read, larger)

  to_right :
      ltb value x ≡ false
      → ltb x value ≡ true
      → search_loop (suc fuel) xs value low above mid
        ≡ search_loop fuel xs value
            (low + (above - 1 - low) / 2 + 1)
            above
            (low + (above - 1 - low) / 2)
  unfolding search_loop
  to_right not_larger smaller = ground (arith, more, read, not_larger, smaller)

  to_hit :
      ltb value x ≡ false
      → ltb x value ≡ false
      → search_loop (suc fuel) xs value low above mid ≡ ok (hit (low + (above - 1 - low) / 2))
  unfolding search_loop
  to_hit not_larger not_smaller = ground (arith, more, read, not_larger, not_smaller)

search_loop_lem :
    (fuel : ℕ) (xs : List ℕ) (value low above mid : ℕ)
    → IsSorted xs
    → Between xs value low above
    → low ≤ above
    → above ≤ length xs
    → above - low < fuel
    → IsNear xs low above mid
    → Ends (Halted xs value) (search_loop fuel xs value low above mid)
unfolding search_loop
search_loop_lem zero xs value low above mid sorted b le within enough start = absurd (omega arith)
search_loop_lem (suc fuel) xs value low above mid sorted b le within enough start =
    elim (Bool-cases (ltb low above)) [
      | inr done ↦
          rw (done, search_loop)
            (ends (at_end xs value low above mid b (ground arith) start le within))
      | inl more ↦
          let mid' = low + (above - 1 - low) / 2 in
          let inside : mid' < above = ground arith in
          let read = get_elem?-eq-get_or xs mid' 0 (omega (arith, within)) in
          let x = nth xs mid' in
          (elim (Bool-cases (ltb value (nth xs mid'))) [
            | inl larger ↦ rw (to_left fuel xs value low above mid x more read larger) (
                search_loop_lem fuel xs value low mid' mid' sorted
                  (record { below = b.below; beyond = λ j p q. ground (arith, sorted mid' j p q) })
                  (omega arith) (omega (arith, within)) (omega (arith, enough))
                  (shorter xs low mid' mid' (omega arith) (omega (arith, within)) (inl refl)))
            | inr not_larger ↦ (elim (Bool-cases (ltb (nth xs mid') value)) [
              | inl smaller ↦
                  rw (to_right fuel xs value low above mid x more read not_larger smaller) (
                    search_loop_lem fuel xs value (mid' + 1) above mid' sorted
                      (record {
                        below = λ j p.
                            ground (arith, sorted j mid' (omega arith) (omega (arith, within)));
                        beyond = b.beyond;
                      })
                      (omega arith) within (omega (arith, enough))
                      (shorter xs (mid' + 1) above mid' (omega arith) (omega (arith, within))
                        (inr refl)))
              | inr not_smaller ↦
                  rw (to_hit fuel xs value low above mid x more read not_larger not_smaller)
                    (ends (omega (arith, within), ground arith))
            ])
          ])
    ]

-- What a search for an element from `value` on, or up to `value`, or equal to it, should return.
abbrev pub Sought : MatchUp → List ℕ → ℕ → Option ℕ → Type 0
Sought equal xs value none = (j : ℕ) → j < length xs → nth xs j ≢ value
Sought right xs value none = (j : ℕ) → j < length xs → nth xs j < value
Sought left xs value none = (j : ℕ) → j < length xs → value < nth xs j
Sought equal xs value (some i) = (i < length xs) × (nth xs i ≡ value)
Sought right xs value (some i) =
    (i < length xs)
    × (value ≤ nth xs i)
    × ((nth xs i ≡ value) ⊎ ((j : ℕ) → j < i → nth xs j < value))
Sought left xs value (some i) =
    (i < length xs)
    × (nth xs i ≤ value)
    × ((nth xs i ≡ value) ⊎ ((j : ℕ) → i < j → j < length xs → value < nth xs j))

hit_lem :
    (m : MatchUp) (xs : List ℕ) (value i : ℕ)
    → i < length xs
    → nth xs i ≡ value
    → Sought m xs value (some i)
hit_lem equal xs value i h e = (h, e)
hit_lem right xs value i h e = (h, omega arith, inl e)
hit_lem left xs value i h e = (h, omega arith, inl e)

miss_lem :
    (m : MatchUp) (xs : List ℕ) (value mid : ℕ)
    → Missed xs value mid
    → Ends (Sought m xs value) (match_up_at m xs value mid)
unfolding match_up_at
miss_lem equal xs value mid f = ends (λ j h e. elim (Bool-cases (ltb j f.gap)) [
  | inl low ↦ absurd (omega (arith, f.between.below j (ground arith)))
  | inr high ↦ absurd (omega (arith, f.between.beyond j (ground arith) h))
])
miss_lem right xs value mid f =
    rw (get_elem?-eq-get_or xs mid 0 f.inside) (elim (Bool-cases (ltb (nth xs mid) value)) [
      | inl smaller ↦
          let after : f.gap ≡ mid + 1 = ground (arith, f.near, f.between.beyond mid) in
          rw smaller (elim (Bool-cases (leb (length xs) (mid + 1))) [
            | inl past ↦ rw past (ends (λ j h. f.between.below j (ground arith)))
            | inr here ↦ rw here (
                ends (
                  ground arith,
                  omega (arith, f.between.beyond (mid + 1) (omega arith) (ground arith)),
                  inr (λ j h. f.between.below j (omega arith)),
                ))
          ])
      | inr larger ↦
          let at : f.gap ≡ mid = ground (arith, f.near, f.between.below mid) in
          rw larger (ends (f.inside, ground arith, inr (λ j h. f.between.below j (omega arith))))
    ])
miss_lem left xs value mid f =
    rw (get_elem?-eq-get_or xs mid 0 f.inside) (elim (Bool-cases (ltb value (nth xs mid))) [
      | inl larger ↦
          let at : f.gap ≡ mid = ground (arith, f.near, f.between.below mid) in
          rw larger (elim (Bool-cases (mid == 0)) [
            | inl first ↦ rw first (ends (λ j h. f.between.beyond j (ground arith) h))
            | inr later ↦ rw later (
                ends (
                  omega (arith, f.inside),
                  omega (arith, f.between.below (mid - 1) (ground arith)),
                  inr (λ j h p. f.between.beyond j (omega arith) p),
                ))
          ])
      | inr smaller ↦
          let after : f.gap ≡ mid + 1 = ground (arith, f.near, f.between.beyond mid) in
          rw smaller
            (ends (f.inside, ground arith, inr (λ j h p. f.between.beyond j (omega arith) p)))
    ])

-- In a sorted slice the search ends without a panic. For 0 it finds an element that equals `value`
-- if there is one. For 1 it finds an equal element, or the first one above `value`; for -1 an equal
-- one, or the last one below; and -1 is the answer only if there is none.
pub bi_search_lem :
    (xs : List ℕ) (value : ℕ) (m : MatchUp)
    → IsSorted xs
    → Ends (Sought m xs value) (bi_search xs value m)
unfolding bi_search
bi_search_lem xs value m sorted = elim (Bool-cases (length xs == 0)) [
  | inl empty ↦ rw empty (ends (nothing m (ground arith)))
  | inr some_left ↦ rw some_left (
      Ends-bind
        (search_loop_lem (length xs + 1) xs value 0 (length xs) 0 sorted
          (record { below = λ j h. absurd (omega arith); beyond = λ j p q. absurd (omega arith) })
          (omega arith) (omega arith) (omega arith) (inl (ground arith)))
        λ halt h. by_halt halt h)
]
  where
    nothing : (m : MatchUp) → length xs ≡ 0 → Sought m xs value none
    nothing equal e = λ j h. absurd (omega arith)
    nothing right e = λ j h. absurd (omega arith)
    nothing left e = λ j h. absurd (omega arith)

    by_halt :
        (halt : Halt)
        → Halted xs value halt
        → Ends
            (Sought m xs value)
            (elim halt [ hit mid ↦ ok (some mid) | miss mid ↦ match_up_at m xs value mid ])
    by_halt (hit mid) h = ends (hit_lem m xs value mid h.0 h.1)
    by_halt (miss mid) f = miss_lem m xs value mid f
