-- ===== src/Prelude/Maps.antt =====
-- Go maps with string keys, as association lists: `lookup` is m[k] with its second result.
use mathlib.Core.Path.{◌≡◌, refl}
use mathlib.Core.Option.{Option, none, some}
use mathlib.Core.List.{List, [], ◌∷◌}
use native.Mathlib.Omega.{arith}
use package.openconveyor.Prelude.Tests.{if◌then◌else◌}
use package.openconveyor.Prelude.Texts.{Text, text_eq, text_eq_iff}

abbrev pub Map {ℓ} : Type ℓ → Type ℓ
Map V = List (Text × V)

module _ {ℓ} {V : Type ℓ} where
  unfoldable pub lookup : Text → Map V → Option V
  lookup k [] = none
  lookup k ((j, v) ∷ m) = if text_eq j k then some v else lookup k m

  -- m[k] = v
  unfoldable pub store : Text → V → Map V → Map V
  store k v [] = (k, v) ∷ []
  store k v ((j, w) ∷ m) = if text_eq j k then (k, v) ∷ m else (j, w) ∷ store k v m

  -- maps.Copy(m, n)
  unfoldable pub copy : Map V → Map V → Map V
  unfolding store
  copy m [] = m
  copy m ((k, v) ∷ n) = copy (store k v m) n

  pub lookup-store :
      (k j : Text) (v : V) (m : Map V)
      → lookup j (store k v m) ≡ (if text_eq k j then some v else lookup j m)
  unfolding lookup store
  lookup-store k j v [] = refl
  lookup-store k j v ((i, w) ∷ m) =
      ground (arith, text_eq_iff k j, text_eq_iff i k, text_eq_iff i j, lookup-store k j v m)

-- m[k] of a map of strings: the empty string for a key that is not there
unfoldable pub lookup_text : Text → Map Text → Text
unfolding lookup
lookup_text k m = elim (lookup k m) [ none ↦ [] | some v ↦ v ]
