-- ===== src/Base/Bytes.antt =====
-- Go strings as lists of bytes: equality, prefixes, the first index of a byte, trimming, maps.
use Prim.Native.Nat.{ℕ}
use Prim.Native.Char.{code}
use Prim.Native.String.{String}
use mathlib.Core.Path.{◌≡◌, refl}
use mathlib.Core.Logic.{◌↔◌}
use mathlib.Core.Bool.{Bool, true, false, ◌&&◌, ◌||◌}
use mathlib.Core.List.{List, [], ◌∷◌}
use mathlib.Core.Option.{Option, none, some}
use native.Mathlib.Omega.{arith}
use astreo_gateway.Base.Tests.{◌==◌, if◌then◌else◌}

abbrev pub Text : Type 0
Text = List ℕ

-- The bytes of an ASCII literal. `String` has its own `[]` and `∷`.
abbrev pub codes : String → Text
codes String.[] = []
codes (String.◌∷◌ c s) = code c ∷ codes s

infix 50 ◌≐◌
unfoldable pub ◌≐◌ : Text → Text → Bool
[] ≐ [] = true
[] ≐ (y ∷ ys) = false
(x ∷ xs) ≐ [] = false
(x ∷ xs) ≐ (y ∷ ys) = x == y && xs ≐ ys

pub ≐_sound : (a b : Text) → (a ≐ b) ≡ true → a ≡ b
unfolding ◌≐◌
≐_sound [] [] h = refl
≐_sound [] (y ∷ ys) h = cc
≐_sound (x ∷ xs) [] h = cc
≐_sound (x ∷ xs) (y ∷ ys) h = ground (arith, ≐_sound xs ys)

pub ≐_refl : (a : Text) → (a ≐ a) ≡ true
unfolding ◌≐◌
≐_refl [] = refl
≐_refl (x ∷ xs) = ground (arith, ≐_refl xs)

pub ≐_iff : (a b : Text) → ((a ≐ b) ≡ true) ↔ (a ≡ b)
≐_iff a b = (≐_sound a b, λ e. rw e (≐_refl b))

-- `s == ""`
abbrev pub is_empty : Text → Bool
is_empty [] = true
is_empty (_ ∷ _) = false

-- `strings.HasPrefix(s, p)`
unfoldable pub has_prefix : Text → Text → Bool
has_prefix s [] = true
has_prefix [] (p ∷ ps) = false
has_prefix (c ∷ s) (p ∷ ps) = c == p && has_prefix s ps

-- `strings.Contains(s, sub)`
unfoldable pub contains : Text → Text → Bool
unfolding has_prefix
contains [] sub = has_prefix [] sub
contains (c ∷ s) sub = has_prefix (c ∷ s) sub || contains s sub

-- puts a byte before the first part of a pair of parts
abbrev pub cons_first : ℕ → Option (Text × Text) → Option (Text × Text)
cons_first c none = none
cons_first c (some (a, b)) = some (c ∷ a, b)

-- `s` cut at the first byte `sep`: what is before it and what is after it
unfoldable pub cut : ℕ → Text → Option (Text × Text)
cut sep [] = none
cut sep (c ∷ s) = if c == sep then some ([], s) else cons_first c (cut sep s)
