-- ===== src/Prelude/Strings.antt =====
-- Go strings as lists of bytes, with strings.Split at a separator of one byte.
use Prim.Native.Nat.{ℕ}
use mathlib.Core.Path.{◌≡◌, refl}
use mathlib.Core.Logic.{◌↔◌}
use mathlib.Core.Bool.{Bool, true, false, ◌&&◌}
use mathlib.Core.List.{List, [], ◌∷◌}
use native.Mathlib.Omega.{arith}
use origin.Prelude.Tests.{Comparable, ◌==◌, if◌then◌else◌, nat_eq}

abbrev pub GoString : Type 0
GoString = List ℕ

abbrev pub same_bytes : GoString → GoString → Bool
same_bytes [] [] = true
same_bytes [] (b ∷ t) = false
same_bytes (a ∷ s) [] = false
same_bytes (a ∷ s) (b ∷ t) = (a == b) && same_bytes s t

same_bytes_sound : (s t : GoString) → same_bytes s t ≡ true → s ≡ t
same_bytes_sound [] [] h = refl
same_bytes_sound [] (b ∷ t) h = cc
same_bytes_sound (a ∷ s) [] h = cc
same_bytes_sound (a ∷ s) (b ∷ t) h = ground (arith, same_bytes_sound s t)

same_bytes_refl : (s : GoString) → same_bytes s s ≡ true
same_bytes_refl [] = refl
same_bytes_refl (a ∷ s) = ground (arith, same_bytes_refl s)

pub same_bytes_iff : (s t : GoString) → (same_bytes s t ≡ true) ↔ (s ≡ t)
same_bytes_iff s t = (same_bytes_sound s t, λ e. rw e (same_bytes_refl t))

instance abbrev pub bytes_eq : Comparable GoString
bytes_eq = record { same = same_bytes; same_iff = same_bytes_iff }

-- The first part of a text gets one more byte.
abbrev extend : ℕ → List GoString → List GoString
extend c [] = (c ∷ []) ∷ []
extend c (part ∷ parts) = (c ∷ part) ∷ parts

unfoldable pub split : ℕ → GoString → List GoString
split sep [] = [] ∷ []
split sep (c ∷ s) = let rest = split sep s in if c == sep then [] ∷ rest else extend c rest
