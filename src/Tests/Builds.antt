-- ===== src/Tests/Builds.antt =====
-- A batch of eight mutants of which two break the build.
use go_mutants.Prelude.{ℕ, ◌≡◌, refl, ◌⊎◌, inr, Bool, ◌||◌, List, [], ◌∷◌, ◌==◌, ◌&&◌, Bytes, any}
use go_mutants.Validate.Bisect.{Run, ok, Verdict, Condemned, isolate}
use go_mutants.Validate.Bisect.Post.{Ensures}
use go_mutants.Validate.Bisect.Split.{Splits, isolate-Splits}
use go_mutants.Validate.Bisect.Exact.{Returns, Exact, isolate-Exact}

abbrev breaks : ℕ → Bool
breaks m = m == 3 || m == 6

abbrev probe : List ℕ → Bytes ⊎ Verdict
probe s = inr (record { failed = any breaks s; output = []; exec_seq = 0; blamed = [] })

-- Here a build fails when two mutants meet that each build alone.
abbrev clash : List ℕ → Bytes ⊎ Verdict
clash s = inr (record {
  failed = any (λ m. m == 2) s && any (λ m. m == 7) s;
  output = [];
  exec_seq = 0;
  blamed = [];
})

abbrev batch : List ℕ
batch = 1 ∷ 2 ∷ 3 ∷ 4 ∷ 5 ∷ 6 ∷ 7 ∷ 8 ∷ []

abbrev accepted : Run (List ℕ × List (Condemned ℕ)) Bytes → List ℕ
accepted (ok r) = r.0
accepted _ = []

isolate-batch : accepted (isolate probe batch) ≡ 1 ∷ 2 ∷ 4 ∷ 5 ∷ 7 ∷ 8 ∷ []
unfolding isolate
isolate-batch = refl

isolate-clash : accepted (isolate clash batch) ≡ 1 ∷ 2 ∷ 3 ∷ 4 ∷ 5 ∷ 6 ∷ 8 ∷ []
unfolding isolate
isolate-clash = refl

isolate-Splits_example : Ensures (Splits clash batch) (isolate clash batch)
isolate-Splits_example = isolate-Splits clash batch

probe_alone : (s : List ℕ) → (v : Verdict) × (probe s ≡ inr v) × (v.failed ≡ any breaks s)
probe_alone s = (_, refl, refl)

isolate-Exact_example : Returns (Exact probe breaks probe_alone batch) (isolate probe batch)
isolate-Exact_example = isolate-Exact probe breaks probe_alone batch
