-- ===== src/Probe.antt =====
-- internal/probe/settle.go: what a probed run says of the mutants that no test infected. Go maps
-- with number keys are association lists, the newest entry first.
use go_mutants.Prelude.{
  ℕ, Bool, true, false, not, ◌&&◌, ◌||◌, Option, none, some, List, [], ◌∷◌, ◌++◌, map, Bytes, ltb,
  ◌==◌, length, keep, any, if◌then◌else◌,
}
use go_mutants.Prelude.Checks.{Checks, ok, err, ◌>>=◌, ◌>>◌, guard}
use go_mutants.Prelude.Maps.{get_by}
use go_mutants.Prelude.Sorting.{sort_by, compare_bytes}
pub mod Settling

pub record Candidate : Type 0 where
  pub id : Bytes
  pub index : ℕ
  pub probed : Bool
  pub binaries : List ℕ

-- `none` for the infected mutants is a nil slice.
pub record Pass : Type 0 where
  pub binary : ℕ
  pub infected : Option (List ℕ)

pub record Decision : Type 0 where
  pub settled : List Bytes
  pub narrowed : List (Bytes × List ℕ)

pub data ProbeError : Type 0 where
  nothing_to_probe : ProbeError
  inconsistent : ℕ → ℕ → ProbeError

abbrev pub is_nil {ℓ} : {A : Type ℓ} → List A → Bool
is_nil [] = true
is_nil (_ ∷ _) = false

abbrev pub known : List Candidate → ℕ → Bool
known candidates index = any (λ c. c.index == index) candidates

-- The loop over the indices that one pass names.
pub check_named : (ℕ → Bool) → ℕ → List ℕ → Checks ProbeError (Unit {0})
check_named is_known binary [] = ok tt
check_named is_known binary (i ∷ is) = do
  guard (is_known i) (inconsistent binary i)
  check_named is_known binary is

abbrev pub Measured : Type 0
Measured = List (ℕ × List ℕ)

-- The loop over the passes.
pub measure : (ℕ → Bool) → Measured → List Pass → Checks ProbeError Measured
measure is_known measured [] = ok measured
measure is_known measured (p ∷ ps) = elim p.infected [
  | none ↦ measure is_known measured ps
  | some named ↦ do
    check_named is_known p.binary named
    measure is_known ((p.binary, named) ∷ measured) ps
]

-- `!ran || named[candidate.Index]`
pub may_reach : Measured → ℕ → ℕ → Bool
may_reach measured index binary = elim (get_by (λ a b. a == b) binary measured) [
  | none ↦ true
  | some named ↦ any (λ i. i == index) named
]

-- The body of the loop over the candidates; `narrowed` is a map in the source.
pub settle_one : Measured → Decision → Candidate → Decision
settle_one measured d c =
    let left = keep (may_reach measured c.index) c.binaries in
    let settled : Decision = record d { settled = d.settled ++ c.id ∷ [] } in
    let narrowed : Decision = record d { narrowed = (c.id, left) ∷ d.narrowed } in
    if not c.probed || is_nil c.binaries
    then d
    else if is_nil left
    then settled
    else if ltb (length left) (length c.binaries)
    then narrowed
    else d

pub settle_from : Measured → Decision → List Candidate → Decision
settle_from measured d [] = d
settle_from measured d (c ∷ cs) = settle_from measured (settle_one measured d c) cs

unfoldable pub settle : List Candidate → List Pass → Checks ProbeError Decision
unfolding settle_from settle_one measure check_named may_reach
settle candidates passes = do
  guard (not (is_nil candidates || is_nil passes)) nothing_to_probe
  measured ← measure (known candidates) [] passes
  let d = settle_from measured (record { settled = []; narrowed = [] }) candidates
  ok (record d { settled = sort_by compare_bytes d.settled })
