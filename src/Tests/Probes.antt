-- ===== src/Tests/Probes.antt =====
-- Three mutants and two test binaries, of which the second left no log.
use mathlib.Core.List.{Perm}
use go_mutants.Prelude.{ℕ, ◌≡◌, refl, true, none, some, List, [], ◌∷◌, map, codes, keep, Bytes}
use go_mutants.Prelude.Checks.{ok}
use go_mutants.Prelude.Sorting.{sort_by, compare_bytes}
use go_mutants.Probe.{Candidate, Pass, Decision, settle}
use go_mutants.Probe.Settling.{spent, settle-Perm}

abbrev candidate : Bytes → ℕ → List ℕ → Candidate
candidate id index binaries = record { id = id; index = index; probed = true; binaries = binaries }

abbrev candidates : List Candidate
candidates =
    candidate (codes "b") 0 (1 ∷ [])
    ∷ candidate (codes "a") 1 (1 ∷ [])
    ∷ candidate (codes "c") 2 (1 ∷ 2 ∷ [])
    ∷ candidate (codes "d") 3 (1 ∷ [])
    ∷ []

abbrev passes : List Pass
passes =
    record { binary = 1; infected = some (1 ∷ []) } ∷ record { binary = 2; infected = none } ∷ []

abbrev decision : Decision
decision = record { settled = codes "b" ∷ codes "d" ∷ []; narrowed = (codes "c", 2 ∷ []) ∷ [] }

settle-candidates : settle candidates passes ≡ ok decision
unfolding settle sort_by compare_bytes
settle-candidates = refl

settle-Perm_example : Perm decision.settled (map (λ c. c.id) (keep (spent passes) candidates))
settle-Perm_example = settle-Perm candidates passes decision settle-candidates
