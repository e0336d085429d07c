-- ===== src/Coverage/Grouping/Entries.antt =====
-- Where a mutant stands in the groups of files, as mutants join them.
use go_mutants.Prelude.{
  ℕ, zero, suc, ◌≡◌, refl, sym, ap, ◌∙◌, true, false, some, some-inj, List, [], ◌∷◌, ◌++◌,
  append-nil, append_assoc, Bytes, ◌==◌, get_elem?, if◌then◌else◌,
}
use go_mutants.Prelude.Arrays.{modify}
use go_mutants.Coverage.Grouping.{PlacedMutant, FileGroup, join_group}

-- The entries of the mutant at position `i` in a group and in all groups, each with its path.
abbrev pub own : ℕ → Bytes → List PlacedMutant → List (Bytes × PlacedMutant)
own i path [] = []
own i path (p ∷ ps) = (if p.at == i then (path, p) ∷ [] else []) ++ own i path ps

abbrev pub entries : ℕ → List FileGroup → List (Bytes × PlacedMutant)
entries i [] = []
entries i (g ∷ gs) = own i g.path g.mutants ++ entries i gs

own-append :
    (i : ℕ) (path : Bytes) (ps qs : List PlacedMutant)
    → own i path (ps ++ qs) ≡ own i path ps ++ own i path qs
own-append i path [] qs = refl
own-append i path (p ∷ ps) qs =
    ap (λ l. (if p.at == i then (path, p) ∷ [] else []) ++ l) (own-append i path ps qs)
    ∙ sym (append_assoc (if p.at == i then (path, p) ∷ [] else []) (own i path ps) (own i path qs))

pub entries-append :
    (i : ℕ) (gs hs : List FileGroup) → entries i (gs ++ hs) ≡ entries i gs ++ entries i hs
entries-append i [] hs = refl
entries-append i (g ∷ gs) hs =
    ap (λ l. own i g.path g.mutants ++ l) (entries-append i gs hs)
    ∙ sym (append_assoc (own i g.path g.mutants) (entries i gs) (entries i hs))

pub append_empty {ℓ} : {A : Type ℓ} (xs ys : List A) → xs ++ ys ≡ [] → (xs ≡ []) × (ys ≡ [])
append_empty [] ys h = (refl, h)
append_empty (x ∷ xs) ys h = absurd (cc)

module _ (i : ℕ) (p : PlacedMutant) where
  -- The entry of another position changes nothing.
  pub other_entry : (path : Bytes) → p.at == i ≡ false → own i path (p ∷ []) ≡ []
  other_entry path d = rw d refl

  pub own_entry : (path : Bytes) → p.at == i ≡ true → own i path (p ∷ []) ≡ (path, p) ∷ []
  own_entry path e = rw e refl

  pub entries-modify_other :
      (gs : List FileGroup) (k : ℕ)
      → p.at == i ≡ false
      → entries i (modify gs k (join_group p)) ≡ entries i gs
  entries-modify_other [] k d = refl
  entries-modify_other (g ∷ gs) zero d =
      ap (λ l. l ++ entries i gs)
        (own-append i g.path g.mutants (p ∷ [])
          ∙ (ap (λ l. own i g.path g.mutants ++ l) (other_entry g.path d)
              ∙ append-nil (own i g.path g.mutants)))
  entries-modify_other (g ∷ gs) (suc k) d =
      ap (λ l. own i g.path g.mutants ++ l) (entries-modify_other gs k d)

  pub entries-modify_own :
      (gs : List FileGroup) (k : ℕ) (g : FileGroup)
      → p.at == i ≡ true
      → entries i gs ≡ []
      → get_elem? gs k ≡ some g
      → entries i (modify gs k (join_group p)) ≡ (g.path, p) ∷ []
  entries-modify_own [] k g e h at = absurd (cc)
  entries-modify_own (x ∷ gs) zero g e h at =
      let (a, b) = append_empty (own i x.path x.mutants) (entries i gs) h in
      ap (λ l. l ++ entries i gs) (own-append i x.path x.mutants (p ∷ []))
      ∙ (ap (λ l. (l ++ own i x.path (p ∷ [])) ++ entries i gs) a
          ∙ (ap (λ l. own i x.path (p ∷ []) ++ l) b
              ∙ (append-nil (own i x.path (p ∷ []))
                  ∙ (own_entry x.path e ∙ ap (λ y. (y.path, p) ∷ []) (some-inj at)))))
  entries-modify_own (x ∷ gs) (suc k) g e h at =
      let (a, b) = append_empty (own i x.path x.mutants) (entries i gs) h in
      ap (λ l. l ++ entries i (modify gs k (join_group p))) a ∙ entries-modify_own gs k g e b at
