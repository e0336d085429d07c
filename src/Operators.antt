-- ===== src/Operators.antt =====
-- internal/operatorselect/operatorselect.go: the rules that a tier or a list of names chooses. The
-- registry is an argument; the source takes the canonical one.
use go_mutants.Prelude.{
  Bool, true, false, Option, none, some, List, [], ◌∷◌, Bytes, keep, if◌then◌else◌,
}
use go_mutants.Prelude.Maps.{Map, get, put}
use go_mutants.Mutation.Rule.{
  Tier, Rule, Registry, family_position, family_rules_of, lookup_rule, select_tier, is_some,
}
pub mod Naming
pub mod Choosing

-- The chosen rules, or the first name that is unknown.
pub data Selection : Type 0 where
  chosen : List Rule → Selection
  unknown : Bytes → Selection

unfoldable pub resolve : Registry → Bytes → Option (List Rule)
unfolding family_position family_rules_of lookup_rule
resolve r name =
    let single : Option (List Rule) = elim (lookup_rule r name) [
      | none ↦ none
      | some rule ↦ some (rule ∷ [])
    ] in
    if is_some (family_position r name) then some (family_rules_of r name) else single

-- `selected[rule.Name] = true` for every rule.
pub mark : List Rule → Map Bool → Map Bool
mark [] selected = selected
mark (x ∷ xs) selected = mark xs (put x.name true selected)

abbrev pub is_marked : Map Bool → Rule → Bool
is_marked selected rule = elim (get rule.name selected) [ none ↦ false | some b ↦ b ]

pub select_from : Registry → Map Bool → List Bytes → Selection
select_from r selected [] = chosen (keep (is_marked selected) r.rules)
select_from r selected (name ∷ names) = elim (resolve r name) [
  | none ↦ unknown name
  | some named ↦ select_from r (mark named selected) names
]

unfoldable pub select : Registry → Tier → List Bytes → Selection
unfolding select_from mark resolve select_tier
select r tier [] = chosen (select_tier r tier)
select r tier (name ∷ names) = select_from r [] (name ∷ names)
