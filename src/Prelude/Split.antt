-- ===== src/Prelude/Split.antt =====
-- `strings.Split(s, sep)` for a separator of one byte, and joining again.
use Prim.Native.Nat.{ℕ}
use mathlib.Core.List.{List, [], ◌∷◌, ◌++◌}
use go_mutants.Prelude.Tests.{Bytes, ◌==◌, if◌then◌else◌}

-- A byte goes in front of the first part.
abbrev pub push_byte : ℕ → List Bytes → List Bytes
push_byte c [] = (c ∷ []) ∷ []
push_byte c (part ∷ parts) = (c ∷ part) ∷ parts

unfoldable pub split : ℕ → Bytes → List Bytes
split sep [] = [] ∷ []
split sep (c ∷ s) = let parts = split sep s in if c == sep then [] ∷ parts else push_byte c parts

abbrev pub join : ℕ → List Bytes → Bytes
join sep [] = []
join sep (part ∷ []) = part
join sep (part ∷ part' ∷ parts) = part ++ sep ∷ join sep (part' ∷ parts)
