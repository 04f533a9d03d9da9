-- ===== src/Prelude/Dict.antt =====
-- A Go map with text keys, as an association list in the order of first insertion.
use Prim.Native.String.{String}
use mathlib.Core.Path.{◌≡◌, refl}
use mathlib.Core.Bool.{Bool}
use mathlib.Core.Option.{Option, none, some}
use mathlib.Core.List.{List, [], ◌∷◌}
use native.Mathlib.Omega.{arith}
use text.Mathlib.Text.{◌==◌}
use text.Mathlib.TextEquality.{eq_iff}
use config_srl.Prelude.Tests.{if◌then◌else◌, is_some}

abbrev pub Dict {ℓ} : Type ℓ → Type ℓ
Dict V = List (String × V)

module _ {ℓ} {V : Type ℓ} where
  -- `v, ok := d[key]`
  unfoldable pub lookup : String → Dict V → Option V
  lookup key [] = none
  lookup key ((name, value) ∷ rest) = if name == key then some value else lookup key rest

  -- `_, ok := d[key]`
  abbrev pub contains : String → Dict V → Bool
  contains key d = is_some (lookup key d)

  -- `d[key] = value`
  unfoldable pub insert : String → V → Dict V → Dict V
  insert key value [] = (key, value) ∷ []
  insert key value ((name, old) ∷ rest) =
      if name == key then (key, value) ∷ rest else (name, old) ∷ insert key value rest

  pub lookup-insert :
      (key wanted : String) (value : V) (d : Dict V)
      → lookup wanted (insert key value d) ≡ (if key == wanted then some value else lookup wanted d)
  unfolding insert lookup
  lookup-insert key wanted value [] = refl
  lookup-insert key wanted value ((name, old) ∷ rest) = ground (
    arith,
    lookup-insert key wanted value rest,
    eq_iff name key,
    eq_iff name wanted,
    eq_iff key wanted,
  )
