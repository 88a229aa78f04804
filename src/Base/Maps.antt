-- ===== src/Base/Maps.antt =====
-- Go's `map[string]T` as an association list. A later write to a key replaces the earlier one, and
-- the order of the list is the order in which a `range` loop meets the keys.
use Prim.Native.String.{String}
use mathlib.Core.Path.{◌≡◌, refl}
use mathlib.Core.Option.{Option, none, some}
use mathlib.Core.List.{List, [], ◌∷◌}
use native.Mathlib.Omega.{arith}
use text.Mathlib.Text.{◌==◌}
use text.Mathlib.TextEquality.{eq_iff}
use text.Mathlib.TextPositions.{eq_refl}
use criteria_go_adapter_sdk.Base.Tests.{if◌then◌else◌}

module _ {ℓ} {T : Type ℓ} where
  -- A missing key reads `none`: the second result of `v, ok := m[key]`.
  abbrev pub lookup : String → List (String × T) → Option T
  lookup key [] = none
  lookup key ((name, value) ∷ rest) = if name == key then some value else lookup key rest

  abbrev pub delete : String → List (String × T) → List (String × T)
  delete key [] = []
  delete key ((name, value) ∷ rest) =
      if name == key then delete key rest else (name, value) ∷ delete key rest

  abbrev pub insert : String → T → List (String × T) → List (String × T)
  insert key new [] = (key, new) ∷ []
  insert key new ((name, old) ∷ rest) =
      if name == key then (key, new) ∷ rest else (name, old) ∷ insert key new rest

  pub lookup-delete :
      (gone key : String) (m : List (String × T))
      → lookup key (delete gone m) ≡ (if gone == key then none else lookup key m)
  lookup-delete gone key [] = ground arith
  lookup-delete gone key ((name, value) ∷ rest) =
      ground
        (arith, lookup-delete gone key rest, eq_iff name gone, eq_iff name key, eq_iff gone key)

  pub lookup-insert :
      (at key : String) (new : T) (m : List (String × T))
      → lookup key (insert at new m) ≡ (if at == key then some new else lookup key m)
  lookup-insert at key new [] = refl
  lookup-insert at key new ((name, old) ∷ rest) =
      ground (arith, lookup-insert at key new rest, eq_iff name at, eq_iff name key, eq_iff at key)

  pub lookup-delete_self : (key : String) (m : List (String × T)) → lookup key (delete key m) ≡ none
  lookup-delete_self key m = simp (lookup-delete, eq_refl)

  pub lookup-insert_self :
      (key : String) (new : T) (m : List (String × T)) → lookup key (insert key new m) ≡ some new
  lookup-insert_self key new m = simp (lookup-insert, eq_refl)
