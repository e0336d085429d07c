-- ===== src/Tests/Registries.antt =====
-- The canonical rules.
use go_mutants.Prelude.{◌≡◌, refl, List, length, [], ◌∷◌, Bytes, codes, map}
use go_mutants.Mutation.Rule.{Registry, Checked, new_registry, ok, err, fresh, Rule, tier_balanced}
use go_mutants.Operators.{Selection, chosen, unknown, select}
use go_mutants.Operators.Choosing.{Chooses, select-Chooses}
use go_mutants.Mutation.Rule.Registered.{Serves, new_registry-Serves}
use go_mutants.Mutation.Rule.Table.{canonical_table, rules_of_table}

abbrev registered : Checked Registry → Registry
registered (ok r) = r
registered (err e) = fresh []

abbrev canonical_rules : List Rule
canonical_rules = rules_of_table canonical_table

abbrev canonical : Registry
canonical = registered (new_registry canonical_rules)

-- The canonical table is consistent: 49 rules in 14 families.
new_registry-canonical : new_registry canonical_rules ≡ ok canonical
unfolding new_registry
new_registry-canonical = refl

canonical_sizes : length canonical.rules ∷ length canonical.families ∷ [] ≡ 49 ∷ 14 ∷ []
unfolding new_registry
canonical_sizes = refl

new_registry-Serves_example : Serves canonical_rules canonical
new_registry-Serves_example = new_registry-Serves canonical_rules canonical new_registry-canonical

abbrev names_of : Selection → List Bytes
names_of (chosen rules) = map (λ r. r.name) rules
names_of (unknown name) = name ∷ []

abbrev wanted : List Bytes
wanted = codes "boolean-connective" ∷ codes "true-to-false" ∷ []

select-wanted :
    names_of (select canonical tier_balanced wanted)
    ≡ codes "true-to-false" ∷ codes "and-to-or" ∷ codes "or-to-and" ∷ []
unfolding new_registry select
select-wanted = refl

select-Chooses_example :
    Chooses canonical_rules tier_balanced wanted (select canonical tier_balanced wanted)
select-Chooses_example =
    select-Chooses canonical_rules canonical tier_balanced wanted new_registry-canonical
