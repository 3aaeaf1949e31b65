-- ===== src/MessageQueue/BiSearch.antt =====
-- util/algorithms/BiSearch.go: binary search in a slice whose elements stand for their values.
pub mod Found
use origin.Prelude.{
  ℕ, zero, suc, ◌+◌, ◌-◌, ◌/◌, ◌≤◌, ◌<◌, nat_eq, ◌==◌, ltb, leb, if◌then◌else◌, Bool, true, false,
  List, [], ◌∷◌, Option, none, some, length, get_elem?, Outcome, ok, panic, out_of_fuel, ◌>>=◌,
  or_panic,
}

-- The argument `matchUp`: 0, -1 or 1.
pub data MatchUp : Type 0 where
  equal left right : MatchUp

-- Where the loop ended, with its last `mid`: at an equal element, or not.
pub data Halt : Type 0 where
  hit miss : ℕ → Halt

-- The loop, with `above = high + 1`, for `high` may be -1.
unfoldable pub search_loop : ℕ → List ℕ → ℕ → ℕ → ℕ → ℕ → Outcome Halt
search_loop zero xs value low above mid = out_of_fuel
search_loop (suc fuel) xs value low above mid = elim (ltb low above) [
  | false ↦ ok (miss mid)
  | true ↦
      let mid' = low + (above - 1 - low) / 2 in
      or_panic (get_elem? xs mid') >>= λ x. elim (ltb value x) [
        | true ↦ search_loop fuel xs value low mid' mid'
        | false ↦ elim (ltb x value) [
          | true ↦ search_loop fuel xs value (mid' + 1) above mid'
          | false ↦ ok (hit mid')
        ]
      ]
]

-- The `switch` behind the loop; `none` is -1.
unfoldable pub match_up_at : MatchUp → List ℕ → ℕ → ℕ → Outcome (Option ℕ)
match_up_at equal xs value mid = ok none
match_up_at right xs value mid = or_panic (get_elem? xs mid) >>= λ x.
    if ltb x value
    then (if leb (length xs) (mid + 1) then ok none else ok (some (mid + 1)))
    else ok (some mid)
match_up_at left xs value mid = or_panic (get_elem? xs mid) >>= λ x.
    if ltb value x then (if mid == 0 then ok none else ok (some (mid - 1))) else ok (some mid)

-- Every round of the loop makes the range shorter, so that its length and one rounds are enough.
unfoldable pub bi_search : List ℕ → ℕ → MatchUp → Outcome (Option ℕ)
bi_search xs value match_up =
    if length xs == 0
    then ok none
    else (search_loop (length xs + 1) xs value 0 (length xs) 0 >>= λ halt. elim halt [
      | hit mid ↦ ok (some mid)
      | miss mid ↦ match_up_at match_up xs value mid
    ])
