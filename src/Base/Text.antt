-- ===== src/Base/Text.antt =====
-- Text as its bytes, for code that walks a text or compares two by their order.
use Prim.Native.Nat.{ℕ}
use Prim.Native.Char.{code}
use Prim.Native.String.{String}
use mathlib.Core.Path.{◌≡◌, refl}
use native.Mathlib.Omega.{arith}
use mathlib.Core.Bool.{Bool, true, false}
use mathlib.Core.List.{List, [], ◌∷◌}
use go_driftlessaf.Base.Tests.{ltb, ◌==◌, if◌then◌else◌}

abbrev pub Bytes : Type 0
Bytes = List ℕ

abbrev pub ascii : String → Bytes
ascii String.[] = []
ascii (String.◌∷◌ c s) = code c ∷ ascii s

-- `s < t`: the order of Go's strings.
unfoldable pub less : Bytes → Bytes → Bool
less [] [] = false
less [] (b ∷ t) = true
less (a ∷ s) [] = false
less (a ∷ s) (b ∷ t) =
    let rest = less s t in if ltb a b then true else if ltb b a then false else rest

-- `s == t`
unfoldable pub same : Bytes → Bytes → Bool
same [] [] = true
same [] (b ∷ t) = false
same (a ∷ s) [] = false
same (a ∷ s) (b ∷ t) = let rest = same s t in if a == b then rest else false

pub less_asym : (s t : Bytes) → less s t ≡ true → less t s ≡ false
unfolding less
less_asym [] [] h = refl
less_asym [] (b ∷ t) h = refl
less_asym (a ∷ s) [] h = cc
less_asym (a ∷ s) (b ∷ t) h = ground (arith, less_asym s t)

pub less_below : (s t u : Bytes) → less s t ≡ true → less u t ≡ false → less u s ≡ false
unfolding less
less_below [] [] u h k = cc
less_below [] (b ∷ t) [] h k = refl
less_below [] (b ∷ t) (c ∷ u) h k = refl
less_below (a ∷ s) [] u h k = cc
less_below (a ∷ s) (b ∷ t) [] h k = cc
less_below (a ∷ s) (b ∷ t) (c ∷ u) h k = ground (arith, less_below s t u)

pub less_total : (s t u : Bytes) → less s t ≡ false → less t u ≡ false → less s u ≡ false
unfolding less
less_total [] [] u h k = k
less_total [] (b ∷ t) u h k = cc
less_total (a ∷ s) t [] h k = refl
less_total (a ∷ s) [] (c ∷ u) h k = cc
less_total (a ∷ s) (b ∷ t) (c ∷ u) h k = ground (arith, less_total s t u)
