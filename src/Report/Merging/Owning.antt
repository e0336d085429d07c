-- ===== src/Report/Merging/Owning.antt =====
-- The owners that `completeSet` finds.
use go_mutants.Prelude.{
  ℕ, zero, suc, ◌≤◌, ◌≡◌, refl, sym, ap, ◌∙◌, inl, inr, true, false, Bool-cases, Option, none, some,
  List, [], ◌∷◌, ◌++◌, append-nil, ◌==◌, ==_iff, keep, arith,
}
use go_mutants.Prelude.Checks.{ok, ok_eq}
use go_mutants.Report.Merging.{
  Part, Owners, owner, is_absent, is_nil, collect, missing, complete_set,
}

-- The parts of one index.
abbrev pub of_index : ℕ → List Part → List Part
of_index i parts = keep (λ (p : Part). p.shard.index == i) parts

abbrev pub as_list {ℓ} : {A : Type ℓ} → Option A → List A
as_list none = []
as_list (some a) = a ∷ []

is_absent-none {ℓ} : {A : Type ℓ} (o : Option A) → is_absent o ≡ true → o ≡ none
is_absent-none none h = refl
is_absent-none (some a) h = absurd (cc)

collect-step :
    (total : ℕ) (owners owners' : Owners) (p : Part) (ps : List Part)
    → collect total owners (p ∷ ps) ≡ ok owners'
    → (owner p.shard.index owners ≡ none)
      × (collect total ((p.shard.index, p) ∷ owners) ps ≡ ok owners')
      × (1 ≤ total)
unfolding collect
collect-step total owners owners' p ps e =
    (is_absent-none _ (ground arith), ground arith, ground arith)

add_owner :
    (i : ℕ) (owners : Owners) (p : Part) (ps : List Part)
    → owner p.shard.index owners ≡ none
    → as_list (owner i ((p.shard.index, p) ∷ owners)) ++ of_index i ps
      ≡ as_list (owner i owners) ++ of_index i (p ∷ ps)
add_owner i owners p ps absent = elim (Bool-cases (p.shard.index == i)) [
  | inr f ↦ rw f refl
  | inl t ↦
      rw
        (
          t,
          ap (λ (k : ℕ). as_list (owner k owners)) (sym ((==_iff p.shard.index i).0 t))
              ∙ ap as_list absent,
        )
        refl
]

-- The owner of an index is the one part of that index.
collect-of_index :
    (total : ℕ) (owners owners' : Owners) (parts : List Part)
    → collect total owners parts ≡ ok owners'
    → (i : ℕ) → as_list (owner i owners') ≡ as_list (owner i owners) ++ of_index i parts
unfolding collect
collect-of_index total owners owners' [] e i =
    ap (λ (o : Owners). as_list (owner i o)) (sym (ok_eq e))
    ∙ sym (append-nil (as_list (owner i owners)))
collect-of_index total owners owners' (p ∷ ps) e i =
    let (absent, rest, _) = collect-step total owners owners' p ps e in
    collect-of_index total _ owners' ps rest i ∙ add_owner i owners p ps absent

append_is_nil {ℓ} : {A : Type ℓ} (xs ys : List A) → xs ++ ys ≡ [] → (xs ≡ []) × (ys ≡ [])
append_is_nil [] ys e = (refl, e)
append_is_nil (x ∷ xs) ys e = absurd (cc)

missing-none :
    (owners : Owners) (n : ℕ)
    → missing owners n ≡ []
    → (i : ℕ) → 1 ≤ i
    → i ≤ n
    → is_absent (owner i owners) ≡ false
unfolding missing
missing-none owners zero e i h k = absurd (omega arith)
missing-none owners (suc n) e i h k =
    let (before, here) = append_is_nil (missing owners n) _ e in
    elim (Bool-cases (i == suc n)) [
      | inl t ↦ rw ((==_iff i (suc n)).0 t) (ground arith)
      | inr f ↦ missing-none owners n before i h (ground arith)
    ]

present {ℓ} : {A : Type ℓ} (o : Option A) → is_absent o ≡ false → (a : A) × (o ≡ some a)
present none h = absurd (cc)
present (some a) h = (a, refl)

nil_there {ℓ} : {A : Type ℓ} (xs : List A) → is_nil xs ≡ true → xs ≡ []
nil_there [] h = refl
nil_there (x ∷ xs) h = absurd (cc)

module _ (room total : ℕ) (p : Part) (ps : List Part) (owners : Owners)
    (complete : complete_set room (p ∷ ps) total ≡ ok owners) where
  complete_parts : (collect total [] (p ∷ ps) ≡ ok owners) × (is_nil (missing owners total) ≡ true)
  unfolding complete_set
  complete_parts = (ground arith, ground arith)

  -- There is at least one shard.
  pub complete_set-total : 1 ≤ total
  complete_set-total = (collect-step total [] owners p ps complete_parts.0).2

  -- Every index of the run has an owner, and its owner is the one part of that index.
  pub complete_set-owner :
      (i : ℕ)
      → 1 ≤ i
      → i ≤ total
      → (q : Part) × (owner i owners ≡ some q) × (of_index i (p ∷ ps) ≡ q ∷ [])
  complete_set-owner i h k =
      let (q, e) = present _ (missing-none owners total (nil_there _ complete_parts.1) i h k) in
      (q, e, sym (collect-of_index total [] owners (p ∷ ps) complete_parts.0 i) ∙ ap as_list e)
