-- ===== src/Prelude/Perms.antt =====
-- Rearrangements of appended lists.
use mathlib.Core.List.{List, [], ◌∷◌, ◌++◌, append_assoc, Perm, perm_middle, perm_append_comm}
use mathlib.Core.List.Perm

module _ {ℓ} {A : Type ℓ} where
  pub Perm-exchange : (a b c d : List A) → Perm ((a ++ b) ++ (c ++ d)) ((a ++ c) ++ (b ++ d))
  Perm-exchange a b c d = simp append_assoc (
      Perm.append_left a (
        rw (← append_assoc b c d, ← append_assoc c b d)
          (Perm.append_right d (perm_append_comm b c))))

  -- A member moves in front of a block.
  pub Perm-lift : (a b c : List A) (x : A) → Perm (((a ++ x ∷ []) ++ b) ++ c) ((a ++ b) ++ x ∷ c)
  Perm-lift a b c x = simp append_assoc (Perm.append_left a (Perm.symm (perm_middle b c)))
