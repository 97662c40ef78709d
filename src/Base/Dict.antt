-- ===== src/Base/Dict.antt =====
-- A Go `map[string]V` as an association list: `m[k]`, `m[k] = v` and `delete(m, k)`.
use Prim.Native.String.{String}
use mathlib.Core.Path.{◌≡◌, refl, ◌∙◌}
use mathlib.Core.Logic.{inl, inr}
use mathlib.Core.Bool.{Bool, true, false}
use mathlib.Core.List.{List, [], ◌∷◌}
use mathlib.Core.Option.{Option, none, some}
use native.Mathlib.Omega.{arith}
use text.Mathlib.Text.{◌==◌ as str_eq}
use text.Mathlib.TextEquality.{eq_iff}
use text.Mathlib.TextPositions.{eq_refl}
use go_driftlessaf.Base.Tests.{if◌then◌else◌, Bool-cases}

abbrev pub is_some {ℓ} : {A : Type ℓ} → Option A → Bool
is_some none = false
is_some (some a) = true

abbrev pub get_or {ℓ} : {A : Type ℓ} → Option A → A → A
get_or none d = d
get_or (some a) d = a

module _ {ℓ} {Val : Type ℓ} where
  unfoldable pub lookup : String → List (String × Val) → Option Val
  lookup k [] = none
  lookup k ((j, v) ∷ es) = if str_eq j k then some v else lookup k es

  unfoldable pub insert : String → Val → List (String × Val) → List (String × Val)
  insert k v [] = (k, v) ∷ []
  insert k v ((j, w) ∷ es) = if str_eq j k then (k, v) ∷ es else (j, w) ∷ insert k v es

  unfoldable pub remove : String → List (String × Val) → List (String × Val)
  remove k [] = []
  remove k ((j, w) ∷ es) = if str_eq j k then remove k es else (j, w) ∷ remove k es

  pub lookup-insert :
      (k j : String) (v : Val) (es : List (String × Val))
      → lookup j (insert k v es) ≡ (if str_eq k j then some v else lookup j es)
  unfolding lookup insert
  lookup-insert k j v [] = refl
  lookup-insert k j v ((i, w) ∷ es) =
      ground (arith, eq_iff k j, eq_iff i k, eq_iff i j, lookup-insert k j v es)

  pub lookup-remove :
      (k j : String) (es : List (String × Val))
      → lookup j (remove k es) ≡ (if str_eq k j then none else lookup j es)
  unfolding lookup remove
  lookup-remove k j [] = ground arith
  lookup-remove k j ((i, w) ∷ es) =
      ground (arith, eq_iff k j, eq_iff i k, eq_iff i j, lookup-remove k j es)

  -- Each key stands once, as in a Go map.
  abbrev pub UniqueKeys : List (String × Val) → Type ℓ
  UniqueKeys [] = Unit
  UniqueKeys ((k, v) ∷ es) = (lookup k es ≡ none) × UniqueKeys es

  pub insert-UniqueKeys :
      (k : String) (v : Val) (es : List (String × Val)) → UniqueKeys es → UniqueKeys (insert k v es)
  unfolding insert lookup
  insert-UniqueKeys k v [] u = (refl, tt)
  insert-UniqueKeys k v ((j, w) ∷ es) u = elim (Bool-cases (str_eq j k)) [
    | inl e ↦ rw (e, ← (eq_iff j k).0 e) u
    | inr e ↦ rw e (
      lookup-insert k j v es ∙ ground (arith, eq_iff j k, eq_iff k j, u.0),
      insert-UniqueKeys k v es u.1,
    )
  ]

  pub remove-UniqueKeys :
      (k : String) (es : List (String × Val)) → UniqueKeys es → UniqueKeys (remove k es)
  unfolding remove
  remove-UniqueKeys k [] u = tt
  remove-UniqueKeys k ((j, w) ∷ es) u = elim (Bool-cases (str_eq j k)) [
    | inl e ↦ rw e (remove-UniqueKeys k es u.1)
    | inr e ↦ rw e (
      lookup-remove k j es ∙ ground (arith, eq_iff j k, eq_iff k j, u.0),
      remove-UniqueKeys k es u.1,
    )
  ]

pub ruleset dict_laws = (lookup-insert, lookup-remove, eq_refl)
