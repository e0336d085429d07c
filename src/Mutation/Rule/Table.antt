-- ===== src/Mutation/Rule/Table.antt =====
-- internal/mutation/rule.go: the canonical table, and the registry made of it.
use go_mutants.Prelude.{List, [], ◌∷◌, ◌++◌, map, Bytes, codes, Option, none, some}
use go_mutants.Mutation.Rule.{
  Tier, tier_balanced, tier_strong, tier_all, Rule, Registry, ok, err, new_registry,
}

pub record FamilyDef : Type 0 where
  pub family : Bytes
  pub tier : Tier
  pub rules : List Bytes

abbrev pub canonical_table : List FamilyDef
canonical_table =
    record {
      family = codes "boolean-literal";
      tier = tier_balanced;
      rules = codes "true-to-false" ∷ codes "false-to-true" ∷ [];
    }
    ∷ record {
      family = codes "condition-negation";
      tier = tier_balanced;
      rules =
          codes "negate-condition" ∷ codes "negate-loop-condition" ∷ codes "remove-negation" ∷ [];
    }
    ∷ record {
      family = codes "boolean-connective";
      tier = tier_balanced;
      rules = codes "and-to-or" ∷ codes "or-to-and" ∷ [];
    }
    ∷ record {
      family = codes "comparison";
      tier = tier_balanced;
      rules =
          codes "eq-to-neq"
          ∷ codes "neq-to-eq"
          ∷ codes "lt-to-le"
          ∷ codes "le-to-lt"
          ∷ codes "gt-to-ge"
          ∷ codes "ge-to-gt"
          ∷ [];
    }
    ∷ record {
      family = codes "integer-arithmetic";
      tier = tier_balanced;
      rules =
          codes "add-to-sub"
          ∷ codes "sub-to-add"
          ∷ codes "mul-to-div"
          ∷ codes "div-to-mul"
          ∷ codes "rem-to-mul"
          ∷ [];
    }
    ∷ record {
      family = codes "float-arithmetic";
      tier = tier_balanced;
      rules =
          codes "fadd-to-fsub"
          ∷ codes "fsub-to-fadd"
          ∷ codes "fmul-to-fdiv"
          ∷ codes "fdiv-to-fmul"
          ∷ [];
    }
    ∷ record {
      family = codes "return-replacement";
      tier = tier_balanced;
      rules =
          codes "return-zero-numeric"
          ∷ codes "return-empty-string"
          ∷ codes "return-true"
          ∷ codes "return-false"
          ∷ codes "return-nil"
          ∷ [];
    }
    ∷ record {
      family = codes "error-swallowing";
      tier = tier_balanced;
      rules = codes "return-err-to-nil" ∷ codes "nil-error-branch" ∷ [];
    }
    ∷ record {
      family = codes "neutral-value";
      tier = tier_strong;
      rules = codes "return-empty-slice" ∷ codes "return-empty-map" ∷ [];
    }
    ∷ record {
      family = codes "branch-replacement";
      tier = tier_strong;
      rules =
          codes "condition-to-true"
          ∷ codes "condition-to-false"
          ∷ codes "loop-condition-to-false"
          ∷ [];
    }
    ∷ record {
      family = codes "bitwise";
      tier = tier_strong;
      rules =
          codes "band-to-bor"
          ∷ codes "bor-to-band"
          ∷ codes "xor-to-band"
          ∷ codes "shl-to-shr"
          ∷ codes "shr-to-shl"
          ∷ codes "andnot-to-band"
          ∷ [];
    }
    ∷ record {
      family = codes "arithmetic-assignment";
      tier = tier_strong;
      rules =
          codes "add-assign-to-sub-assign"
          ∷ codes "sub-assign-to-add-assign"
          ∷ codes "incr-to-decr"
          ∷ codes "decr-to-incr"
          ∷ [];
    }
    ∷ record {
      family = codes "labeled-branch";
      tier = tier_all;
      rules = codes "drop-break-label" ∷ codes "drop-continue-label" ∷ [];
    }
    ∷ record {
      family = codes "statement-deletion";
      tier = tier_all;
      rules =
          codes "delete-call-statement" ∷ codes "delete-assignment" ∷ codes "delete-incdec" ∷ [];
    }
    ∷ []

abbrev pub rules_of_def : FamilyDef → List Rule
rules_of_def def =
    map (λ n. record { family = def.family; name = n; version = 1; tier = def.tier }) def.rules

-- The list that `mustRegistry` builds its registry of.
abbrev pub rules_of_table : List FamilyDef → List Rule
rules_of_table [] = []
rules_of_table (def ∷ defs) = rules_of_def def ++ rules_of_table defs

-- `mustRegistry`; `none` is its panic.
unfoldable pub must_registry : List FamilyDef → Option Registry
must_registry table = elim (new_registry (rules_of_table table)) [ err e ↦ none | ok r ↦ some r ]
