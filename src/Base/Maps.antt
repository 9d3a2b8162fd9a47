-- ===== src/Base/Maps.antt =====
-- Go's map with string keys: its entries, in the order in which a `range` visits them.
use mathlib.Core.Bool.{Bool, true, false}
use Prim.Native.String.{String}
use mathlib.Core.Path.{◌≡◌, refl}
use mathlib.Core.Option.{Option, none, some}
use mathlib.Core.List.{List, [], ◌∷◌, map}
use native.Mathlib.Omega.{arith}
use text.Mathlib.TextEquality.{eq_iff}
use sdbx.Base.Tests.{◌==◌, if◌then◌else◌}

abbrev pub Map {ℓ} : Type ℓ → Type ℓ
Map V = List (String × V)

module _ {ℓ} {V : Type ℓ} where
  unfoldable pub lookup : String → Map V → Option V
  lookup k [] = none
  lookup k ((j, v) ∷ m) = if j == k then some v else lookup k m

  -- m[k] = v
  unfoldable pub insert : String → V → Map V → Map V
  insert k v [] = (k, v) ∷ []
  insert k v ((j, w) ∷ m) = let rest = insert k v m in if j == k then (k, v) ∷ m else (j, w) ∷ rest

  pub lookup-insert :
      (stored wanted : String) (x : V) (entries : Map V)
      → lookup wanted (insert stored x entries)
        ≡ (if stored == wanted then some x else lookup wanted entries)
  unfolding lookup insert
  lookup-insert stored wanted x ((key, old) ∷ rest) =
      let tail = lookup-insert stored wanted x rest in
      ground (arith, tail, eq_iff key stored, eq_iff stored wanted, eq_iff key wanted)
  lookup-insert stored wanted x [] = refl

  abbrev pub keys : Map V → List String
  keys m = map (λ e. e.0) m

-- _, ok := m[k]
abbrev pub is_some {ℓ} : {A : Type ℓ} → Option A → Bool
is_some none = false
is_some (some a) = true

abbrev pub has {ℓ} : {V : Type ℓ} → String → Map V → Bool
has k m = is_some (lookup k m)
