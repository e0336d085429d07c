-- ===== src/Drift.antt =====
-- internal/drift/drift.go: the changes to a snapshot that instrumentation does not explain. What
-- `Redigest` found is an argument.
use go_mutants.Prelude.{
  Bool, true, false, ◌&&◌, ◌||◌, List, [], ◌∷◌, ◌++◌, map, Bytes, codes, str_eq, any, if◌then◌else◌,
}
use go_mutants.Prelude.Text.{has_prefix}

pub data Kind : Type 0 where
  changed added removed : Kind

pub record Change : Type 0 where
  pub rel_path : Bytes
  pub kind : Kind

-- The fields of `instrument.Result` that are read here.
pub record Instrumented : Type 0 where
  pub files : List Bytes
  pub runtime_dir : Bytes

abbrev pub is_changed : Kind → Bool
is_changed changed = true
is_changed _ = false

abbrev pub is_added : Kind → Bool
is_added added = true
is_added _ = false

abbrev pub under_any : Bytes → List Bytes → Bool
under_any path prefixes = any (λ p. has_prefix p path) prefixes

abbrev pub runtime_prefix : Bytes → List Bytes
runtime_prefix [] = []
runtime_prefix (c ∷ s) = ((c ∷ s) ++ codes "/") ∷ []

abbrev pub prefixes : Instrumented → List Bytes → List Bytes
prefixes i generated = runtime_prefix i.runtime_dir ++ map (λ d. d ++ codes "/") generated

-- The two cases of the switch that explain a change.
unfoldable pub is_expected : Instrumented → List Bytes → Change → Bool
is_expected i generated c =
    is_changed c.kind && any (λ f. str_eq f c.rel_path) i.files
    || is_added c.kind && under_any c.rel_path (prefixes i generated)

-- `UnexpectedDrifts`, of the drifts that were found.
pub unexpected_drifts : List Change → Instrumented → List Bytes → List Change
unexpected_drifts [] i generated = []
unexpected_drifts (c ∷ drifts) i generated =
    let rest = unexpected_drifts drifts i generated in
    if is_expected i generated c then rest else c ∷ rest
