-- ===== src/Heap/Ops.antt =====
-- Push, Pop, Remove and Fix of container/heap, and the heap order.
use origin.Prelude.{ℕ, zero, suc, ◌+◌, ◌-◌, ◌≤◌, ◌<◌, ◌≡◌, nat_eq, arith, Ends, Ends-map}
use origin.Heap.{HeapInterface, down, push, settle, fix}
use origin.Heap.Order.{IsLawful, parent, IsHeap, IsHeapBut, IsSifted}
use origin.Heap.Sift.{up_restores, settle_restores, down_root}

module _ {S X Y : Type 0} {h : HeapInterface S X Y} {Good : S → Type 0} {limit : ℕ}
    (l : IsLawful h Good limit) where
  open l use {key, swapped, swap_ok, len-swapped, key-swapped}

  root_least_below : (k n : ℕ) (s : S) (i : ℕ) → IsHeap l n s → i < k → i < n → key s 0 ≤ key s i
  root_least_below zero n s i o f p = absurd (omega arith)
  root_least_below (suc k) n s i o f p = ground (arith, o i, root_least_below k n s (parent i) o)

  -- The root has the least key.
  pub root_least : (n : ℕ) (s : S) (i : ℕ) → IsHeap l n s → i < n → key s 0 ≤ key s i
  root_least n s i o p = root_least_below (suc i) n s i o (omega arith) p

  -- Push, where the state with the entry behind the last one is good and keeps the others' keys.
  pub push_restores :
      (s : S) (x : X)
      → let t = h.append s x in
        IsHeap l (h.len s) s
        → Good t
        → h.len t ≡ h.len s + 1
        → h.len t ≡ limit
        → ((c : ℕ) → c < h.len s → key t c ≡ key s c)
        → Ends (IsSifted l limit (h.len t)) (push h s x)
  unfolding push
  push_restores s x o g e el same =
      let t = h.append s x in
      up_restores l t (h.len t - 1) (omega arith) (omega arith) g (record {
        edges = λ c p q r. ground (arith, o c, same c, same (parent c));
        past = λ c p q r. absurd (omega arith);
      })

  -- The last entry takes the place of entry `i`, and the rest is put in order again.
  pub unhook_restores :
      (s : S) (i : ℕ)
      → h.len s ≡ suc limit
      → i < limit
      → IsHeap l (h.len s) s
      → Good (swapped s i limit)
      → Ends (IsSifted l limit (h.len s)) (settle h (swapped s i limit) i limit)
  unhook_restores s i e lt o g =
      let at = λ (c : ℕ). key-swapped s i limit c (omega arith) (omega arith) in
      let same = len-swapped s i limit in
      Ends-map
        (settle_restores l (swapped s i limit) i (omega arith) lt g (record {
          edges = λ c p q r t. ground (arith, at c, at (parent c), o c);
          past = λ c p q r t. ground (arith, at c, at (parent i), o c, o i);
        }))
        λ t (a, b, c). (a, b, omega arith)

  -- Pop: the least entry goes behind the others, which are put in order again.
  pub unroot_restores :
      (s : S)
      → h.len s ≡ suc limit
      → IsHeap l (h.len s) s
      → Good (swapped s 0 limit)
      → Ends (λ r. IsSifted l limit (h.len s) r.1) (down h (swapped s 0 limit) 0 limit)
  unroot_restores s e o g =
      let at = λ (c : ℕ). key-swapped s 0 limit c (omega arith) (omega arith) in
      let same = len-swapped s 0 limit in
      Ends-map
        (down_root l (swapped s 0 limit) (omega arith) g (record {
          edges = λ c p q r t. ground (arith, at c, at (parent c), o c);
          past = λ c p q r t. absurd (omega arith);
        }))
        λ t (a, b, c). (a, b, omega arith)

  -- Fix, after the key at `i` was changed.
  pub fix_restores :
      (s : S) (i : ℕ)
      → i < h.len s
      → h.len s ≡ limit
      → Good s
      → IsHeapBut l limit s i
      → Ends (IsSifted l limit limit) (fix h s i)
  unfolding fix
  fix_restores s i lt e g b = rw e (
      Ends-map (settle_restores l s i (omega arith) (omega arith) g b)
        λ t (a, c, d). (a, c, omega arith))
