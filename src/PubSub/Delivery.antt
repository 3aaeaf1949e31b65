-- ===== src/PubSub/Delivery.antt =====
-- Who hears an event, in util/pattern/pubsub/pubsub.go, when the set of subscribers changes.
use origin.Prelude.{
  ℕ, ◌+◌, ◌-◌, ◌≤◌, ◌≡◌, ◌≢◌, refl, nat_eq, ◌==◌, if◌then◌else◌, true, false, List, [], ◌∷◌, ◌++◌,
  none, some, lookup, insert, delete, lookup-insert, lookup-delete, arith, Bool-cases, Option-cases,
  inl, inr, ap, ◌∙◌, sym,
}
use origin.PubSub.{KeyData, heard, delete_all, remove_key}

abbrev pub occurs : ℕ → List ℕ → ℕ
occurs k [] = 0
occurs k (j ∷ js) = (if j == k then 1 else 0) + occurs k js

pub occurs-append : (k : ℕ) (js ks : List ℕ) → occurs k (js ++ ks) ≡ occurs k js + occurs k ks
occurs-append k [] ks = omega arith
occurs-append k (j ∷ js) ks = omega (arith, occurs-append k js ks)

pub heard-append :
    (subs : List (ℕ × KeyData)) (js ks : List ℕ)
    → heard subs (js ++ ks) ≡ heard subs js ++ heard subs ks
unfolding heard
heard-append subs [] ks = refl
heard-append subs (j ∷ js) ks = elim (Option-cases (lookup j subs)) [
  | inl missing ↦ rw (missing, heard) (heard-append subs js ks)
  | inr (d, found) ↦ rw (found, heard) (ap (◌∷◌ d.subscriber) (heard-append subs js ks))
]

-- Only the subscribers of the keys matter.
pub heard-same :
    (subs subs' : List (ℕ × KeyData)) (ks : List ℕ)
    → ((k : ℕ) → occurs k ks ≢ 0 → lookup k subs ≡ lookup k subs')
    → heard subs ks ≡ heard subs' ks
unfolding heard
heard-same subs subs' [] same = refl
heard-same subs subs' (k ∷ ks) same =
    let rest = heard-same subs subs' ks (λ j h. same j (ground (arith, h))) in
    let this : lookup k subs ≡ lookup k subs' = same k (ground arith) in
    elim (Option-cases (lookup k subs')) [
      | inl missing ↦ rw (this ∙ missing, missing, heard) rest
      | inr (d, found) ↦ rw (this ∙ found, found, heard) (ap (◌∷◌ d.subscriber) rest)
    ]

pub lookup-delete_all :
    (j : ℕ) (ks : List ℕ) (subs : List (ℕ × KeyData))
    → lookup j (delete_all ks subs) ≡ (if occurs j ks == 0 then lookup j subs else none)
unfolding delete_all
lookup-delete_all j [] subs = refl
lookup-delete_all j (k ∷ ks) subs =
    ground (arith, lookup-delete_all j ks (delete k subs), lookup-delete k j subs)

pub occurs-remove_key :
    (k j : ℕ) (ks : List ℕ)
    → occurs j (remove_key k ks) ≡ (if k == j then occurs j ks - 1 else occurs j ks)
unfolding remove_key
occurs-remove_key k j [] = ground arith
occurs-remove_key k j (i ∷ ks) = ground (arith, occurs-remove_key k j ks)

-- The keys but one.
abbrev pub without : ℕ → List ℕ → List ℕ
without k [] = []
without k (j ∷ js) = if j == k then without k js else j ∷ without k js

pub without_absent : (k : ℕ) (js : List ℕ) → occurs k js ≡ 0 → without k js ≡ js
without_absent k [] h = refl
without_absent k (j ∷ js) h = ground (arith, without_absent k js)

-- Where a key stands once, to remove it is to keep the others.
pub remove_key-without : (k : ℕ) (js : List ℕ) → occurs k js ≤ 1 → remove_key k js ≡ without k js
unfolding remove_key
remove_key-without k [] h = refl
remove_key-without k (j ∷ js) h = ground (arith, remove_key-without k js, without_absent k js)

pub heard-insert :
    (key : ℕ) (d : KeyData) (subs : List (ℕ × KeyData)) (js : List ℕ)
    → occurs key js ≡ 0
    → heard (insert key d subs) js ≡ heard subs js
heard-insert key d subs js fresh = heard-same (insert key d subs) subs js (λ k h.
    let other : (key == k) ≡ false = not_key k h in lookup-insert key k d subs ∙ rw other refl)
  where
    not_key : (k : ℕ) → occurs k js ≢ 0 → (key == k) ≡ false
    not_key k h = elim (Bool-cases (key == k)) [
      | inl this ↦
          let same : key ≡ k = ground arith in absurd (h (sym (ap (λ i. occurs i js) same) ∙ fresh))
      | inr other ↦ other
    ]

pub heard-insert_one :
    (key : ℕ) (d : KeyData) (subs : List (ℕ × KeyData))
    → heard (insert key d subs) (key ∷ []) ≡ d.subscriber ∷ []
unfolding heard
heard-insert_one key d subs =
    let this : (key == key) ≡ true = ground arith in
    let found : lookup key (insert key d subs) ≡ some d =
      lookup-insert key key d subs ∙ rw this refl in
    rw (found, heard) refl

occurs-without : (k : ℕ) (js : List ℕ) → occurs k (without k js) ≡ 0
occurs-without k [] = refl
occurs-without k (j ∷ js) = ground (arith, occurs-without k js)

-- A key that is not listed any more may leave the set of subscribers.
pub heard-delete :
    (key : ℕ) (subs : List (ℕ × KeyData)) (js : List ℕ)
    → heard (delete key subs) (without key js) ≡ heard subs (without key js)
heard-delete key subs js = heard-same (delete key subs) subs (without key js) (λ k h.
    let other : (key == k) ≡ false = not_key k h in lookup-delete key k subs ∙ rw other refl)
  where
    not_key : (k : ℕ) → occurs k (without key js) ≢ 0 → (key == k) ≡ false
    not_key k h = elim (Bool-cases (key == k)) [
      | inl this ↦
          let same : key ≡ k = ground arith in
          absurd (h (sym (ap (λ i. occurs i (without key js)) same) ∙ occurs-without key js))
      | inr other ↦ other
    ]
