-- ===== src/Prelude/Endings.antt =====
-- How a piece of Go code ends, and the rules for code that ends well.
use mathlib.Core.Path.{◌≡◌, refl}
use mathlib.Core.Bool.{Bool, true, false}
use mathlib.Core.Option.{Option, none, some}
use origin.Prelude.Tests.{if◌then◌else◌}

-- A result, a run-time panic, or a loop for which the model's fuel was too small.
pub data Outcome {ℓ} (A : Type ℓ) : Type ℓ where
  ok : A → Outcome A
  panic out_of_fuel : Outcome A

infixl 5 ◌>>=◌
abbrev pub ◌>>=◌ {ℓ κ} : {A : Type ℓ} {B : Type κ} → Outcome A → (A → Outcome B) → Outcome B
ok a >>= f = f a
panic >>= f = panic
out_of_fuel >>= f = out_of_fuel

-- A slice index out of range panics.
abbrev pub or_panic {ℓ} : {A : Type ℓ} → Option A → Outcome A
or_panic none = panic
or_panic (some a) = ok a

-- The code ends with a result, and the result satisfies `P`.
pub data Ends {ℓ κ} {A : Type ℓ} (P : A → Type κ) : Outcome A → Type (ℓ ⊔ κ) where
  ends : {a : A} → P a → Ends P (ok a)

module _ {ℓ κ} {A : Type ℓ} {P : A → Type κ} where
  pub Ends-bind {ℓ' κ'} :
      {B : Type ℓ'} {Q : B → Type κ'} {r : Outcome A} {f : A → Outcome B}
      → Ends P r
      → ((a : A) → P a → Ends Q (f a))
      → Ends Q (r >>= f)
  Ends-bind (ends p) k = k _ p

  pub Ends-map {κ'} :
      {Q : A → Type κ'} {r : Outcome A} → Ends P r → ((a : A) → P a → Q a) → Ends Q r
  Ends-map (ends p) k = ends (k _ p)

  pub Ends-if :
      {x y : Outcome A} (b : Bool)
      → (b ≡ true → Ends P x)
      → (b ≡ false → Ends P y)
      → Ends P (if b then x else y)
  Ends-if true p q = p refl
  Ends-if false p q = q refl

  pub Ends-inv : {r : Outcome A} → Ends P r → (a : A) × (r ≡ ok a) × P a
  Ends-inv (ends p) = (_, refl, p)

module _ {ℓ κ κ'} {A : Type ℓ} {P : A → Type κ} {Q : A → Type κ'} where
  pub Ends-and : {r : Outcome A} → Ends P r → Ends Q r → Ends (λ a. P a × Q a) r
  Ends-and (ends p) (ends q) = ends (p, q)

-- If the code ends with a result, then the result satisfies `P`.
pub data IfOk {ℓ κ} {A : Type ℓ} (P : A → Type κ) : Outcome A → Type (ℓ ⊔ κ) where
  on_ok : {a : A} → P a → IfOk P (ok a)
  on_panic : IfOk P panic
  on_fuel : IfOk P out_of_fuel

module _ {ℓ κ} {A : Type ℓ} {P : A → Type κ} where
  pub IfOk-bind {ℓ'} :
      {B : Type ℓ'} (r : Outcome B) {f : B → Outcome A}
      → ((b : B) → IfOk P (f b))
      → IfOk P (r >>= f)
  IfOk-bind (ok b) k = k b
  IfOk-bind panic k = on_panic
  IfOk-bind out_of_fuel k = on_fuel

  pub IfOk-then {ℓ' κ'} :
      {B : Type ℓ'} {Q : B → Type κ'} {r : Outcome B} {f : B → Outcome A}
      → IfOk Q r
      → ((b : B) → Q b → IfOk P (f b))
      → IfOk P (r >>= f)
  IfOk-then (on_ok q) k = k _ q
  IfOk-then on_panic k = on_panic
  IfOk-then on_fuel k = on_fuel

  pub IfOk-map {κ'} :
      {Q : A → Type κ'} {r : Outcome A} → IfOk P r → ((a : A) → P a → Q a) → IfOk Q r
  IfOk-map (on_ok p) k = on_ok (k _ p)
  IfOk-map on_panic k = on_panic
  IfOk-map on_fuel k = on_fuel

  pub Ends-IfOk {κ'} :
      {Q : A → Type κ'} {r : Outcome A} → Ends Q r → IfOk P r → Ends (λ a. Q a × P a) r
  Ends-IfOk (ends q) (on_ok p) = ends (q, p)
