-- ===== src/Prelude/Ints.antt =====
-- Go's integers of 64 bits, where they may be negative.
use go_mutants.Prelude.Tests.{leb, if◌then◌else◌}
use Prim.Native.Nat.{ℕ, zero, suc, ◌+◌, ◌-◌, compare, Ordering}
use mathlib.Core.Bool.{Bool, false}

-- `negsuc n` is -(n + 1).
pub data ℤ : Type 0 where
  pos : ℕ → ℤ
  negsuc : ℕ → ℤ

abbrev pub compare_ℤ : ℤ → ℤ → Ordering
compare_ℤ (pos a) (pos b) = compare a b
compare_ℤ (pos a) (negsuc b) = Ordering.gt
compare_ℤ (negsuc a) (pos b) = Ordering.lt
compare_ℤ (negsuc a) (negsuc b) = compare b a

abbrev pub max_ℤ : ℤ → ℤ → ℤ
max_ℤ (pos a) (pos b) = if leb a b then pos b else pos a
max_ℤ (pos a) (negsuc b) = pos a
max_ℤ (negsuc a) (pos b) = pos b
max_ℤ (negsuc a) (negsuc b) = if leb b a then negsuc b else negsuc a

-- `n - 1 <= z`, with no wrapping, since `n` is not negative.
abbrev pub before_leb : ℕ → ℤ → Bool
before_leb n (pos a) = leb n (a + 1)
before_leb n (negsuc zero) = leb n 0
before_leb n (negsuc (suc a)) = false

-- A sum of 64 bits, below 2 ^ 64.
unfoldable pub wrapped : ℕ → ℤ
wrapped n = if leb n 9223372036854775807 then pos n else negsuc (18446744073709551615 - n)
