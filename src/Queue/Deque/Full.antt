-- ===== src/Queue/Deque/Full.antt =====
-- Rotate of util/queue/deque.go where the buffer is full: only head and tail move.
use Prim.Native.Nat.{bit_and}
use native.Mathlib.Nat.{mod-add-mod, mod-eq_of_lt, mul-add-mod_self_left}
use origin.Prelude.{
  ℕ, zero, suc, ◌+◌, ◌-◌, ◌*◌, ◌%◌, ◌^◌, ◌≤◌, ◌<◌, ◌≡◌, nat_eq, leb, [], ◌∷◌, ◌++◌, get_or, arith,
  inl, inr, ◌∙◌, sym, ap, Bool-cases, tabulate, tabulate_eq, tabulate_last,
}
use origin.Queue.Mask.{power, power_pos, power_le, power-add, bit_and-mask}
use origin.Queue.Deque.{Deque}
use origin.Queue.Deque.Shape.{IsRing, cell, contents}
use origin.Queue.Deque.Turns.{turn}

-- A function that comes round after `n`.
abbrev IsPeriodic : {T : Type 0} → ℕ → (ℕ → T) → Type 0
IsPeriodic n g = (i : ℕ) → g (n + i) ≡ g i

turn-tabulate :
    {T : Type 0} (s n : ℕ) (g : ℕ → T)
    → IsPeriodic (suc n) g
    → turn s (tabulate (suc n) g) ≡ tabulate (suc n) (λ i. g (s + i))
turn-tabulate zero n g p = tabulate_eq (suc n) g (λ i. g (0 + i)) (λ i h. ap g (omega arith))
turn-tabulate (suc s) n g p =
    let g' = λ (i : ℕ). g (suc i) in
    let again : g 0 ≡ g' n = sym (p 0) ∙ ap g (omega arith) in
    ap (λ x. turn s (tabulate n g' ++ x ∷ [])) again
    ∙ ap (turn s) (sym (tabulate_last n g'))
    ∙ turn-tabulate s n g' (λ i. ap g (omega arith) ∙ p (suc i))
    ∙ tabulate_eq (suc n) (λ i. g' (s + i)) (λ i. g (suc s + i)) (λ i h. ap g (omega arith))

module _ {T : Type 0} (z : T) where
  abbrev pub spun : ℕ → Deque T → Deque T
  spun h q = record q { head = h; tail = h }

  -- A full buffer is turned by its head alone.
  pub spun-contents :
      (k : ℕ) (q : Deque T) (steps : ℕ)
      → IsRing k q
      → q.count ≡ power k
      → contents z (spun ((q.head + steps) % power k) q) ≡ turn steps (contents z q)
  spun-contents k q steps r full =
      let n = power k - 1 in
      let as_suc : power k ≡ suc n = omega (arith, power_pos k) in
      let count_suc : q.count ≡ suc n = full ∙ as_suc in
      let g = λ (i : ℕ). get_or q.buf ((q.head + i) % power k) z in
      let here : (i : ℕ) → i < q.count → cell z q i ≡ g i =
        λ i h. ap (λ j. get_or q.buf j z) (rw (r.size) (bit_and-mask k (q.head + i))) in
      let there : (i : ℕ)
          → i < q.count
          → cell z (spun ((q.head + steps) % power k) q) i ≡ g (steps + i) =
        λ i h.
          ap (λ j. get_or q.buf j z)
            (rw (r.size) (bit_and-mask k ((q.head + steps) % power k + i))
              ∙ mod-add-mod (q.head + steps) (power k) i
              ∙ ap (λ j. j % power k) (omega arith)) in
      tabulate_eq q.count (cell z (spun ((q.head + steps) % power k) q)) (λ i. g (steps + i)) there
      ∙ ap (λ c. tabulate c (λ i. g (steps + i))) count_suc
      ∙ sym (
          turn-tabulate steps n g (λ i.
            let round : q.head + (suc n + i) ≡ power k * 1 + (q.head + i) = omega (arith, as_suc) in
            ap (λ j. get_or q.buf j z)
              (ap (λ j. j % power k) round ∙ mul-add-mod_self_left (power k) 1 (q.head + i))))
      ∙ ap (λ c. turn steps (tabulate c g)) (sym count_suc)
      ∙ ap (turn steps) (sym (tabulate_eq q.count (cell z q) g here))

  pub spun-IsRing :
      (k h : ℕ) (q : Deque T) → IsRing k q → q.count ≡ power k → h < power k → IsRing k (spun h q)
  spun-IsRing k h q r full inside = record {
    small = r.small;
    size = r.size;
    head_in = inside;
    tail_in = inside;
    count_in = r.count_in;
    spans = inr (omega (arith, full));
  }

  -- `(head - steps) & modBits` and `steps` more is the head again.
  pub back_lem :
      (k head steps : ℕ)
      → k ≤ 61
      → head < power k
      → steps ≤ power k
      → (bit_and ((head + 2 ^ 64 - steps) % 2 ^ 64) (power k - 1) + steps) % power k ≡ head
  back_lem k head steps small inside few =
      let v = (head + 2 ^ 64 - steps) % 2 ^ 64 in
      let bound : power k ≤ power 61 = power_le k 61 small in
      ap (λ j. (j + steps) % power k) (bit_and-mask k v)
      ∙ mod-add-mod v (power k) steps
      ∙ elim (Bool-cases (leb steps head)) [
        | inl ahead ↦
            let e : v + steps ≡ head = ground arith in ap (λ j. j % power k) e ∙ mod-eq_of_lt inside
        | inr round ↦
            let sum : k + (64 - k) ≡ 64 = omega arith in
            let whole : power k * power (64 - k) ≡ 2 ^ 64 =
              sym (power-add k (64 - k)) ∙ ap power sum in
            let e : v + steps ≡ 2 ^ 64 + head = ground arith in
            ap (λ j. j % power k) (e ∙ ap (λ j. j + head) (sym whole))
            ∙ mul-add-mod_self_left (power k) (power (64 - k)) head
            ∙ mod-eq_of_lt inside
      ]
