-- ===== src/Mutation/Rule/Registered.antt =====
-- What a registry that was built knows of its rules.
use go_mutants.Prelude.{
  some_eq, ℕ, suc, ◌≡◌, ◌↔◌, refl, sym, ap, ◌∙◌, inl, inr, Bool, true, false, Bool-cases,
  Option-cases, Option, none, some, List, [], ◌∷◌, Bytes, str_eq, str_eq→≡, str_eq_self, any, keep,
  get_elem?, arith,
}
use go_mutants.Mutation.Rule.{
  Rule, RuleError, ok, guard, Registry, fresh, new_registry, position, lookup_rule, verify, rule_eq,
  family_rules_of, family_position, is_some, rule_mismatch,
}
use go_mutants.Mutation.Rule.Entering.{index_of, Knows, enter_all-Knows}

-- The registry keeps the rules, and answers by them: a rule is found by its name, at its position;
-- whatever is found has the name asked for; a family is known if a rule is of it, and its rules are
-- those of the family, in order; and exactly the registered rules are verified.
pub record Serves (rules : List Rule) (r : Registry) : Type 0 where
  pub kept : r.rules ≡ rules
  pub placed :
      (i : ℕ) (x : Rule)
      → get_elem? rules i ≡ some x
      → (position r x.name ≡ some i) × (lookup_rule r x.name ≡ some x)
  pub found :
      (n : Bytes) (x : Rule)
      → lookup_rule r n ≡ some x
      → (x.name ≡ n) × ((i : ℕ) × (get_elem? rules i ≡ some x))
  pub grouped : (f : Bytes) → family_rules_of r f ≡ keep (λ x. str_eq x.family f) rules
  pub families : (f : Bytes) → is_some (family_position r f) ≡ any (λ x. str_eq x.family f) rules
  pub verified : (x : Rule) → (verify r x ≡ ok tt) ↔ ((i : ℕ) × (get_elem? rules i ≡ some x))

index_of-some :
    (n : Bytes) (rs : List Rule) (i : ℕ)
    → index_of n rs ≡ some i
    → (x : Rule) × (get_elem? rs i ≡ some x) × (x.name ≡ n)
index_of-some n [] i h = cc
index_of-some n (r ∷ rs) i h = elim (Bool-cases (str_eq r.name n)) [
  | inl e ↦ let z : 0 ≡ i = some_eq (rw e at h) in rw (← z) (r, refl, str_eq→≡ r.name n e)
  | inr e ↦ later (index_of n rs) refl (rw e at h) (index_of-some n rs)
]
  where
    later :
        (o : Option ℕ)
        → index_of n rs ≡ o
        → elim o [ none ↦ none | some j ↦ some (suc j) ] ≡ some i
        → ((j : ℕ) → index_of n rs ≡ some j → (x : Rule) × (get_elem? rs j ≡ some x) × (x.name ≡ n))
        → (x : Rule) × (get_elem? (r ∷ rs) i ≡ some x) × (x.name ≡ n)
    later none q k ih = cc
    later (some j) q k ih = let z : suc j ≡ i = some_eq k in rw (← z) (ih j q)

pub rule_eq→≡ : (a b : Rule) → rule_eq a b ≡ true → a ≡ b
rule_eq→≡ a b h = ground (arith, str_eq→≡ a.family b.family, str_eq→≡ a.name b.name)

pub rule_eq_self : (a : Rule) → rule_eq a a ≡ true
rule_eq_self a = ground (arith, str_eq_self a.family, str_eq_self a.name)

guard_passed : (b : Bool) (e : RuleError) → guard b e ≡ ok tt → b ≡ true
guard_passed true e h = refl
guard_passed false e h = cc

module _ (rules : List Rule) (r : Registry) (k : Knows rules r) (same : r.rules ≡ rules) where
  placed_position : (i : ℕ) (x : Rule) → get_elem? rules i ≡ some x → position r x.name ≡ some i
  unfolding position
  placed_position i x h = k.indexed x.name ∙ k.distinct i x h

  placed_lookup : (i : ℕ) (x : Rule) → get_elem? rules i ≡ some x → lookup_rule r x.name ≡ some x
  unfolding lookup_rule
  placed_lookup i x h = rw (k.indexed x.name ∙ k.distinct i x h, lookup_rule) (rw same h)

  found_lookup :
      (n : Bytes) (x : Rule)
      → lookup_rule r n ≡ some x
      → (x.name ≡ n) × ((i : ℕ) × (get_elem? rules i ≡ some x))
  unfolding lookup_rule
  found_lookup n x h = elim (Option-cases (index_of n rules)) [
    | inl e ↦ absurd (missing (rw (k.indexed n ∙ e, lookup_rule) at h))
    | inr (i, e) ↦
        let (y, at, name) = index_of-some n rules i e in
        let g : get_elem? rules i ≡ some x = rw same at (rw (k.indexed n ∙ e, lookup_rule) at h) in
        (ap (λ z. z.name) (some_eq (sym g ∙ at)) ∙ name, (i, g))
  ]
    where
      missing : none ≡ some x → ⊥
      missing e = cc

  verified_verify : (x : Rule) → (verify r x ≡ ok tt) ↔ ((i : ℕ) × (get_elem? rules i ≡ some x))
  unfolding verify
  verified_verify x = elim (Option-cases (lookup_rule r x.name)) [
    | inl e ↦ rw (e, verify) (λ h. cc, λ p. absurd (unregistered e p.0 p.1))
    | inr (y, e) ↦
        let (name, (i, at)) = found_lookup x.name y e in
        rw (e, verify)
          (
            λ h. (i, at ∙ ap some (rule_eq→≡ y x (guard_passed (rule_eq y x) rule_mismatch h))),
            λ p.
                let same_rule : y ≡ x = some_eq (sym e ∙ placed_lookup p.0 x p.1) in
                rw (same_rule, rule_eq_self x) refl,
          )
  ]
    where
      some_or_none : none ≡ some x → ⊥
      some_or_none e = cc

      unregistered : lookup_rule r x.name ≡ none → (i : ℕ) → get_elem? rules i ≡ some x → ⊥
      unregistered e i at = some_or_none (sym e ∙ placed_lookup i x at)

  Knows-Serves : Serves rules r
  unfolding family_rules_of family_position
  Knows-Serves = record {
    kept = same;
    placed = λ i x h. (placed_position i x h, placed_lookup i x h);
    found = found_lookup;
    grouped = k.grouped;
    families = λ f. k.ranked f ∙ k.tiered f;
    verified = verified_verify;
  }

-- A registry that could be built serves the rules that it was built of.
pub new_registry-Serves :
    (rules : List Rule) (r : Registry) → new_registry rules ≡ ok r → Serves rules r
unfolding new_registry
new_registry-Serves rules r h =
    let (k, same) =
      enter_all-Knows [] rules (fresh rules) r
        (record {
          indexed = λ n. refl;
          grouped = λ f. refl;
          distinct = λ i x e. cc;
          tiered = λ f. refl;
          ranked = λ f. refl;
        })
        h in
    Knows-Serves rules r k same
