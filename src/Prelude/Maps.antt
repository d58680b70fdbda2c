-- ===== src/Prelude/Maps.antt =====
-- A Go map with string keys as an association list. The order of its entries is never read.
use Prim.Native.String.{String}
use mathlib.Core.Path.{◌≡◌, refl}
use mathlib.Core.List.{List, [], ◌∷◌}
use mathlib.Core.Option.{Option, none, some}
use native.Mathlib.Omega.{arith}
use text.Mathlib.Text.{◌==◌}
use text.Mathlib.TextEquality.{eq_iff}
use git_sync_core.Prelude.Tests.{if◌then◌else◌}

abbrev pub Table {ℓ} : Type ℓ → Type ℓ
Table V = List (String × V)

module _ {ℓ} {V : Type ℓ} where
  -- `delete(table, key)`
  unfoldable pub remove : String → Table V → Table V
  remove key [] = []
  remove key ((name, value) ∷ table) =
      let rest = remove key table in if name == key then rest else (name, value) ∷ rest

  -- `value, ok := table[key]`
  unfoldable pub lookup : String → Table V → Option V
  lookup key [] = none
  lookup key ((name, value) ∷ table) = if name == key then some value else lookup key table

  pub lookup-remove :
      (key other : String) (table : Table V)
      → lookup other (remove key table) ≡ (if key == other then none else lookup other table)
  unfolding lookup remove
  lookup-remove key other [] = ground arith
  lookup-remove key other ((name, value) ∷ table) =
      ground
        (arith, lookup-remove key other table, eq_iff name key, eq_iff name other, eq_iff key other)

  -- `table[key] = value`
  unfoldable pub insert : String → V → Table V → Table V
  insert key value [] = (key, value) ∷ []
  insert key value ((name, old) ∷ table) =
      if name == key then (key, value) ∷ table else (name, old) ∷ insert key value table

  pub lookup-insert :
      (key other : String) (value : V) (table : Table V)
      → lookup other (insert key value table)
        ≡ (if key == other then some value else lookup other table)
  unfolding lookup insert
  lookup-insert key other value [] = refl
  lookup-insert key other value ((name, old) ∷ table) = ground (
    arith,
    lookup-insert key other value table,
    eq_iff name key,
    eq_iff name other,
    eq_iff key other,
  )
