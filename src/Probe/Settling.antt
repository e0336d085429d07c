-- ===== src/Probe/Settling.antt =====
-- Which mutants a probed run settles.
use mathlib.Core.List.{Perm}
use go_mutants.Prelude.{
  ℕ, ◌≡◌, refl, sym, ap, ◌∙◌, subst, inl, inr, Bool, true, Bool-cases, Option-cases, not, ◌&&◌,
  ◌||◌, Option, none, some, List, [], ◌∷◌, ◌++◌, map, append_assoc, append-nil, ◌==◌, keep, any,
  if◌then◌else◌, arith,
}
use go_mutants.Prelude.Checks.{ok, guard, bind-ok, ok_eq}
use go_mutants.Prelude.Maps.{get_by}
use go_mutants.Prelude.Sorting.{sort_by, sort_by-perm, compare_bytes}
use go_mutants.Probe.{
  Candidate, Pass, Decision, is_nil, known, check_named, Measured, measure, may_reach, settle_one,
  settle_from, settle, nothing_to_probe,
}

-- The last infection log of a test binary.
abbrev pub last_log : ℕ → List Pass → Option (List ℕ)
last_log b [] = none
last_log b (p ∷ ps) = elim (last_log b ps) [
  | some named ↦ some named
  | none ↦ if p.binary == b then p.infected else none
]

-- The binary left no log, or its last log names the mutant.
abbrev pub reaches : List Pass → ℕ → ℕ → Bool
reaches passes index binary = elim (last_log binary passes) [
  | none ↦ true
  | some named ↦ any (λ i. i == index) named
]

-- The mutant was probed and covered, and none of the binaries that cover it reaches it.
abbrev pub spent : List Pass → Candidate → Bool
spent passes c =
    c.probed && (not (is_nil c.binaries) && not (any (reaches passes c.index) c.binaries))

abbrev or_else : Option (List ℕ) → Option (List ℕ) → Option (List ℕ)
or_else none o = o
or_else (some x) o = some x

measure-last_log :
    (k : ℕ → Bool) (m : Measured) (ps : List Pass) (m' : Measured) (b : ℕ)
    → measure k m ps ≡ ok m'
    → get_by (λ x y. x == y) b m' ≡ or_else (last_log b ps) (get_by (λ x y. x == y) b m)
unfolding measure
measure-last_log k m [] m' b h = ap (get_by (λ x y. x == y) b) (sym (ok_eq h))
measure-last_log k m (p ∷ ps) m' b h = elim (Option-cases p.infected) [
  | inl e ↦
      let later = measure-last_log k m ps m' b (rw (e, measure) at h) in ground (arith, later, e)
  | inr (named, e) ↦
      let (_, _, h₁) = bind-ok (check_named k p.binary named) _ (rw (e, measure) at h) in
      let later = measure-last_log k ((p.binary, named) ∷ m) ps m' b h₁ in ground (arith, later, e)
]

may_reach-measured :
    (k : ℕ → Bool) (ps : List Pass) (m : Measured) (i b : ℕ)
    → measure k [] ps ≡ ok m
    → may_reach m i b ≡ reaches ps i b
unfolding may_reach
may_reach-measured k ps m i b h = ground (arith, measure-last_log k [] ps m b h)

is_nil-keep : (p : ℕ → Bool) (xs : List ℕ) → is_nil (keep p xs) ≡ not (any p xs)
is_nil-keep p [] = refl
is_nil-keep p (x ∷ xs) = ground (arith, is_nil-keep p xs)

any-cong : (p q : ℕ → Bool) (xs : List ℕ) → ((x : ℕ) → p x ≡ q x) → any p xs ≡ any q xs
any-cong p q [] e = refl
any-cong p q (x ∷ xs) e = ground (arith, e x, any-cong p q xs e)

settle_one-settled :
    (passes : List Pass) (m : Measured) (d : Decision) (c : Candidate)
    → ((i b : ℕ) → may_reach m i b ≡ reaches passes i b)
    → (settle_one m d c).settled ≡ (if spent passes c then d.settled ++ c.id ∷ [] else d.settled)
unfolding settle_one
settle_one-settled passes m d c e =
    let left : is_nil (keep (may_reach m c.index) c.binaries)
        ≡ not (any (reaches passes c.index) c.binaries) =
      is_nil-keep (may_reach m c.index) c.binaries
      ∙ ap not (any-cong (may_reach m c.index) (reaches passes c.index) c.binaries (e c.index)) in
    elim (Bool-cases (any (reaches passes c.index) c.binaries)) [
      | inl t ↦ rw (left, t) (ground arith)
      | inr t ↦ rw (left, t) (ground arith)
    ]

settle_from-settled :
    (passes : List Pass) (m : Measured) (d : Decision) (cs : List Candidate)
    → ((i b : ℕ) → may_reach m i b ≡ reaches passes i b)
    → (settle_from m d cs).settled ≡ d.settled ++ map (λ c. c.id) (keep (spent passes) cs)
unfolding settle_from
settle_from-settled passes m d [] e = sym (append-nil d.settled)
settle_from-settled passes m d (c ∷ cs) e =
    let later = settle_from-settled passes m (settle_one m d c) cs e in
    let now = settle_one-settled passes m d c e in
    elim (Bool-cases (spent passes c)) [
      | inl t ↦ later ∙ rw (now, t) (append_assoc d.settled (c.id ∷ []) _)
      | inr t ↦ later ∙ rw (now, t) refl
    ]

-- When `Settle` returns a decision, the settled ids are, in some order, those of the candidates that
-- were probed, are covered by some test binary, and that no binary covering them reaches, where a
-- binary reaches a mutant unless it left a log of infections and its last one does not name it.
pub settle-Perm :
    (candidates : List Candidate) (passes : List Pass) (d : Decision)
    → settle candidates passes ≡ ok d
    → Perm d.settled (map (λ c. c.id) (keep (spent passes) candidates))
unfolding settle
settle-Perm candidates passes d h =
    let (_, _, h₁) =
      bind-ok (guard (not (is_nil candidates || is_nil passes)) nothing_to_probe) _ h in
    let (m, hm, h₂) = bind-ok (measure (known candidates) [] passes) _ h₁ in
    let reach : (i b : ℕ) → may_reach m i b ≡ reaches passes i b =
      λ i b. may_reach-measured (known candidates) passes m i b hm in
    let found =
      settle_from-settled passes m (record { settled = []; narrowed = [] }) candidates reach in
    subst (λ x. Perm x.settled (map (λ c. c.id) (keep (spent passes) candidates))) (ok_eq h₂)
      (subst
        (λ l.
          Perm
            (sort_by compare_bytes
              (settle_from m (record { settled = []; narrowed = [] }) candidates).settled)
            l)
        found (sort_by-perm compare_bytes _))
