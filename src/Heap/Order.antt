-- ===== src/Heap/Order.antt =====
-- The laws of an implementation of heap.Interface, and the order of a heap.
use origin.Prelude.{ℕ, ◌-◌, ◌/◌, ◌≤◌, ◌<◌, ◌≡◌, ◌≢◌, nat_eq, ◌==◌, ltb, if◌then◌else◌, ok}
use origin.Heap.{HeapInterface}

-- Less compares by the number `key s i`, Swap trades two entries, and swaps among the first `n`
-- entries keep `Good`.
pub record IsLawful {S X Y : Type 0} (h : HeapInterface S X Y) (Good : S → Type 0) (n : ℕ)
    : Type 0 where
  pub key : S → ℕ → ℕ
  pub swapped : S → ℕ → ℕ → S
  pub less_ok :
      (s : S) (i j : ℕ) → i < h.len s → j < h.len s → h.less s i j ≡ ok (ltb (key s i) (key s j))
  pub swap_ok : (s : S) (i j : ℕ) → i < h.len s → j < h.len s → h.swap s i j ≡ ok (swapped s i j)
  pub len-swapped : (s : S) (i j : ℕ) → h.len (swapped s i j) ≡ h.len s
  pub key-swapped :
      (s : S) (i j c : ℕ)
      → i < h.len s
      → j < h.len s
      → key (swapped s i j) c ≡ (if j == c then key s i else if i == c then key s j else key s c)
  pub swapped-Good : (s : S) (i j : ℕ) → i < n → j < n → Good s → Good (swapped s i j)

abbrev pub parent : ℕ → ℕ
parent c = (c - 1) / 2

module _ {S X Y : Type 0} {h : HeapInterface S X Y} {Good : S → Type 0} {limit : ℕ}
    (l : IsLawful h Good limit) where
  open l use {key}

  -- The first `n` entries are in heap order.
  abbrev pub IsHeap : ℕ → S → Type 0
  IsHeap n s = (c : ℕ) → 0 < c → c < n → key s (parent c) ≤ key s c

  -- All edges are in order but those at `i`, and those hold past `i`.
  pub record IsHeapBut (n : ℕ) (s : S) (i : ℕ) : Type 0 where
    pub edges : (c : ℕ) → 0 < c → c < n → c ≢ i → parent c ≢ i → key s (parent c) ≤ key s c
    pub past : (c : ℕ) → 0 < c → c < n → parent c ≡ i → 0 < i → key s (parent i) ≤ key s c

  -- Only the edges below `i` may be out of order.
  pub record IsHeapAbove (n : ℕ) (s : S) (i : ℕ) : Type 0 where
    pub edges : (c : ℕ) → 0 < c → c < n → parent c ≢ i → key s (parent c) ≤ key s c
    pub past : (c : ℕ) → 0 < c → c < n → parent c ≡ i → 0 < i → key s (parent i) ≤ key s c

  -- Only the edge above `i` may be out of order.
  pub record IsHeapBelow (n : ℕ) (s : S) (i : ℕ) : Type 0 where
    pub edges : (c : ℕ) → 0 < c → c < n → c ≢ i → key s (parent c) ≤ key s c
    pub past : (c : ℕ) → 0 < c → c < n → parent c ≡ i → 0 < i → key s (parent i) ≤ key s c

  -- A heap over the first `n` entries, of a good state of unchanged length.
  abbrev pub IsSifted : ℕ → ℕ → S → Type 0
  IsSifted n len s = IsHeap n s × Good s × (h.len s ≡ len)
