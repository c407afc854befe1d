-- ===== src/Prelude/Maps.antt =====
-- Go's `map[string]V` as an association list.
use Prim.Native.String.{String}
use mathlib.Core.Path.{◌≡◌, refl, ap}
use mathlib.Core.Bool.{true, false}
use mathlib.Core.Option.{Option, none, some}
use mathlib.Core.List.{List, [], ◌∷◌}
use native.Mathlib.Omega.{arith}
use text.Mathlib.Text.{◌==◌ as str_eq}
use text.Mathlib.TextEquality.{eq_iff}
use migration_planner.Prelude.Tests.{if◌then◌else◌}

abbrev pub Dict {ℓ} : Type ℓ → Type ℓ
Dict V = List (String × V)

module _ {ℓ} {V : Type ℓ} where
  -- value, found := entries[key]
  unfoldable pub lookup : String → Dict V → Option V
  lookup key [] = none
  lookup key ((name, value) ∷ entries) = if str_eq key name then some value else lookup key entries

  -- entries[key] = value
  unfoldable pub insert : String → V → Dict V → Dict V
  insert key value [] = (key, value) ∷ []
  insert key value ((name, old) ∷ entries) =
      let rest = insert key value entries in
      if str_eq key name then (name, value) ∷ entries else (name, old) ∷ rest

  pub lookup-insert :
      (key other : String) (value : V) (entries : Dict V)
      → lookup other (insert key value entries)
        ≡ (if str_eq other key then some value else lookup other entries)
  unfolding lookup insert
  lookup-insert key other value [] = refl
  lookup-insert key other value ((name, old) ∷ entries) =
      let rest = lookup-insert key other value entries in
      ground (arith, eq_iff key name, eq_iff other name, eq_iff other key, rest)

  pub insert_here :
      (key name : String) (value old : V) (entries : Dict V)
      → str_eq key name ≡ true
      → insert key value ((name, old) ∷ entries) ≡ (name, value) ∷ entries
  unfolding insert
  insert_here key name value old entries h =
      ap (λ b. if b then (name, value) ∷ entries else (name, old) ∷ insert key value entries) h

  pub insert_there :
      (key name : String) (value old : V) (entries : Dict V)
      → str_eq key name ≡ false
      → insert key value ((name, old) ∷ entries) ≡ (name, old) ∷ insert key value entries
  unfolding insert
  insert_there key name value old entries h =
      ap (λ b. if b then (name, value) ∷ entries else (name, old) ∷ insert key value entries) h

  pub lookup_here :
      (key name : String) (old : V) (entries : Dict V)
      → str_eq key name ≡ true
      → lookup key ((name, old) ∷ entries) ≡ some old
  unfolding lookup
  lookup_here key name old entries h = ap (λ b. if b then some old else lookup key entries) h

  pub lookup_there :
      (key name : String) (old : V) (entries : Dict V)
      → str_eq key name ≡ false
      → lookup key ((name, old) ∷ entries) ≡ lookup key entries
  unfolding lookup
  lookup_there key name old entries h = ap (λ b. if b then some old else lookup key entries) h
