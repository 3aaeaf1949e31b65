-- ===== src/Timers/Lawful.antt =====
-- The heap of timers of util/timer/heap.go keeps the laws of heap.Interface, and holds the same
-- timers after a swap.
use origin.Prelude.{
  ℕ, ◌≤◌, ◌<◌, ◌≡◌, nat_eq, ◌==◌, ltb, if◌then◌else◌, List, length, get_or, set, ok, arith,
  length-set, get_elem?-eq-get_or, get_or-set, count, count-swap, ◌∙◌,
}
use origin.Heap.Order.{IsLawful}
use origin.Timers.{less, swap, timers}

abbrev pub entry : List ℕ → ℕ → ℕ
entry h i = get_or h i 0

abbrev pub swapped : List ℕ → ℕ → ℕ → List ℕ
swapped h i j = set (set h i (entry h j)) j (entry h i)

pub len-swapped : (h : List ℕ) (i j : ℕ) → length (swapped h i j) ≡ length h
len-swapped h i j = length-set (set h i (entry h j)) j (entry h i) ∙ length-set h i (entry h j)

pub swap_ok : (h : List ℕ) (i j : ℕ) → i < length h → j < length h → swap h i j ≡ ok (swapped h i j)
unfolding swap
swap_ok h i j hi hj = rw (get_elem?-eq-get_or h i 0 hi, get_elem?-eq-get_or h j 0 hj)

-- The same timers, as often.
abbrev pub Same : List ℕ → List ℕ → Type 0
Same h k = (t : ℕ) → count t h ≡ count t k

pub entry-swapped :
    (h : List ℕ) (i j c : ℕ)
    → i < length h
    → j < length h
    → entry (swapped h i j) c
      ≡ (if j == c then entry h i else if i == c then entry h j else entry h c)
entry-swapped h i j c hi hj = ground (
  arith,
  get_or-set (set h i (entry h j)) j c (entry h i) 0,
  get_or-set h i c (entry h j) 0,
  length-set h i (entry h j),
)

-- The timers of `whole`, and entry `n` as there.
pub record Kept (whole : List ℕ) (n : ℕ) (h : List ℕ) : Type 0 where
  pub same : Same h whole
  pub size : length h ≡ length whole
  pub behind : entry h n ≡ entry whole n

pub swapped-Kept :
    (whole : List ℕ) (n : ℕ) (h : List ℕ) (i j : ℕ)
    → i < n
    → j < n
    → n ≤ length whole
    → Kept whole n h
    → Kept whole n (swapped h i j)
swapped-Kept whole n h i j p q le g =
    let hi : i < length h = omega (arith, g.size) in
    let hj : j < length h = omega (arith, g.size) in
    record {
      same = λ t. count-swap t h i j 0 hi hj ∙ g.same t;
      size = len-swapped h i j ∙ g.size;
      behind = ground (arith, entry-swapped h i j n hi hj, g.behind);
    }

module _ (fire : ℕ → ℕ) where
  pub less_ok :
      (h : List ℕ) (i j : ℕ)
      → i < length h
      → j < length h
      → less fire h i j ≡ ok (ltb (fire (entry h i)) (fire (entry h j)))
  unfolding less
  less_ok h i j hi hj = rw (get_elem?-eq-get_or h i 0 hi, get_elem?-eq-get_or h j 0 hj)

  pub key-swapped :
      (h : List ℕ) (i j c : ℕ)
      → i < length h
      → j < length h
      → fire (entry (swapped h i j) c) ≡ (
          if j == c
          then fire (entry h i)
          else if i == c
          then fire (entry h j)
          else fire (entry h c))
  key-swapped h i j c hi hj = ground (arith, entry-swapped h i j c hi hj)

  -- The key of an entry is its fire time, and swaps among the first `n` entries keep the rest.
  abbrev pub lawful :
      (whole : List ℕ) (n : ℕ) → n ≤ length whole → IsLawful (timers fire) (Kept whole n) n
  lawful whole n le = record {
    key = λ h i. fire (entry h i);
    swapped = swapped;
    less_ok = less_ok;
    swap_ok = swap_ok;
    len-swapped = len-swapped;
    key-swapped = key-swapped;
    swapped-Good = λ h i j p q g. swapped-Kept whole n h i j p q le g;
  }
