-- ===== src/Prelude/Maps.antt =====
-- A Go map with string keys, as an association list: the newest entry of a key counts.
use mathlib.Core.Bool.{Bool}
use mathlib.Core.List.{List, [], ◌∷◌}
use mathlib.Core.Option.{Option, none, some}
use go_mutants.Prelude.Tests.{Bytes, str_eq, if◌then◌else◌}

abbrev pub Map {ℓ} : Type ℓ → Type ℓ
Map V = List (Bytes × V)

module _ {ℓ} {V : Type ℓ} where
  abbrev pub get : Bytes → Map V → Option V
  get k [] = none
  get k ((j, v) ∷ m) = let rest = get k m in if str_eq j k then some v else rest

  abbrev pub put : Bytes → V → Map V → Map V
  put k v m = (k, v) ∷ m

-- `m[k]` where the zero value of the map's type is the empty list.
abbrev pub get_list {ℓ} : {A : Type ℓ} → Bytes → Map (List A) → List A
get_list k m = elim (get k m) [ none ↦ [] | some l ↦ l ]

-- A Go map whose keys are structs, with the test of their equality.
abbrev pub get_by {ℓ κ} : {K : Type ℓ} {V : Type κ} → (K → K → Bool) → K → List (K × V) → Option V
get_by eq k [] = none
get_by eq k ((j, v) ∷ m) = let rest = get_by eq k m in if eq j k then some v else rest
