-- ===== src/Prelude/Maps.antt =====
-- A Go map with integer keys as an association list in which every key stands once.
use Prim.Native.Nat.{ℕ}
use mathlib.Core.Path.{◌≡◌, refl}
use mathlib.Core.List.{List, [], ◌∷◌}
use mathlib.Core.Option.{Option, none, some}
use native.Mathlib.Omega.{arith}
use yig.Prelude.Tests.{◌==◌, if◌then◌else◌}

abbrev pub Map {ℓ} : Type ℓ → Type ℓ
Map V = List (ℕ × V)

module _ {ℓ} {V : Type ℓ} where
  -- `m[key]`, with `ok`
  abbrev pub lookup : ℕ → Map V → Option V
  lookup key [] = none
  lookup key (entry ∷ rest) = if entry.0 == key then some entry.1 else lookup key rest

  -- `m[key] = value`
  abbrev pub insert : ℕ → V → Map V → Map V
  insert key value [] = (key, value) ∷ []
  insert key value (entry ∷ rest) =
      if entry.0 == key then (key, value) ∷ rest else entry ∷ insert key value rest

  pub lookup-insert :
      (at other : ℕ) (value : V) (m : Map V)
      → lookup other (insert at value m) ≡ (if at == other then some value else lookup other m)
  lookup-insert at other value [] = refl
  lookup-insert at other value (entry ∷ rest) = ground (arith, lookup-insert at other value rest)
