-- ===== src/Operators/Choosing.antt =====
-- Which rules `Select` chooses.
use go_mutants.Prelude.{
  ◌≡◌, ◌≢◌, refl, sym, ap, ◌∙◌, subst, inl, inr, Bool, true, false, ◌||◌, Bool-cases, none, some,
  Option-cases, List, [], ◌∷◌, ◌++◌, Bytes, keep, any, All, str_eq, if◌then◌else◌, ℕ, suc,
  get_elem?, All-map, ltb, arith,
}
use go_mutants.Prelude.Maps.{Map, put}
use go_mutants.Mutation.Rule.{
  Tier, Rule, Registry, select_tier, tier_includes, is_some, new_registry, ok,
}
use go_mutants.Mutation.Rule.Registered.{Serves, new_registry-Serves}
use go_mutants.Operators.Naming.{
  stands_for, is_known, among, named_by, resolve-is_known, named_by-stands_for,
}
use go_mutants.Operators.{Selection, chosen, unknown, resolve, mark, is_marked, select_from, select}

abbrev IsKnown : Registry → Bytes → Type 0
IsKnown r name = is_some (resolve r name) ≡ true

or_true : (b : Bool) → (b || true) ≡ true
or_true true = refl
or_true false = refl

or_swap : (a b c : Bool) → ((if a then true else b) || c) ≡ (b || (a || c))
or_swap true true c = refl
or_swap true false c = refl
or_swap false b c = refl

put_other :
    (x : Rule) (selected : Map Bool) (rule : Rule)
    → str_eq x.name rule.name ≡ false
    → is_marked (put x.name true selected) rule ≡ is_marked selected rule
put_other x selected rule e = rw (e, is_marked) refl

is_marked-mark :
    (rules : List Rule) (selected : Map Bool) (rule : Rule)
    → is_marked (mark rules selected) rule
      ≡ (any (λ x. str_eq x.name rule.name) rules || is_marked selected rule)
unfolding mark
is_marked-mark [] selected rule = refl
is_marked-mark (x ∷ xs) selected rule = elim (Bool-cases (str_eq x.name rule.name)) [
  | inl e ↦ rw e (
      is_marked-mark xs (put x.name true selected) rule
      ∙ (ap (λ b. any (λ y. str_eq y.name rule.name) xs || b) (rw (e, is_marked) refl) ∙ or_true _))
  | inr e ↦ rw e (
      is_marked-mark xs (put x.name true selected) rule
      ∙ ap (λ b. any (λ y. str_eq y.name rule.name) xs || b) (put_other x selected rule e))
]

-- From the rules that are selected already.
data Picks (r : Registry) (selected : Map Bool) (names : List Bytes) : Selection → Type 0 where
  all_known :
      All (IsKnown r) names
      → Picks r selected names
          (chosen (keep (λ rule. any (named_by r rule) names || is_marked selected rule) r.rules))
  not_known :
      (before after : List Bytes) (name : Bytes)
      → names ≡ before ++ name ∷ after
      → All (IsKnown r) before
      → resolve r name ≡ none
      → Picks r selected names (unknown name)

-- A name that is known adds its rules.
Picks-cons :
    (r : Registry) (selected : Map Bool) (name : Bytes) (rules : List Rule) (names : List Bytes)
    (s : Selection)
    → resolve r name ≡ some rules
    → Picks r (mark rules selected) names s
    → Picks r selected (name ∷ names) s
Picks-cons r selected name rules names s e (all_known k) =
    subst (λ l. Picks r selected (name ∷ names) (chosen l))
      (ap (λ p. keep p r.rules) (λ i rule. same rule i)) (all_known (ap is_some e, k))
  where
    same :
        (rule : Rule)
        → (any (named_by r rule) (name ∷ names) || is_marked selected rule)
          ≡ (any (named_by r rule) names || is_marked (mark rules selected) rule)
    same rule =
        or_swap (named_by r rule name) (any (named_by r rule) names) (is_marked selected rule)
        ∙ (ap (λ a. any (named_by r rule) names || (a || is_marked selected rule))
              (rw (e, among) refl)
            ∙ ap (λ b. any (named_by r rule) names || b) (sym (is_marked-mark rules selected rule)))
Picks-cons r selected name rules names s e (not_known before after n split k none_found) =
    not_known (name ∷ before) after n (ap (λ l. name ∷ l) split) (ap is_some e, k) none_found

select_from-Picks :
    (r : Registry) (selected : Map Bool) (names : List Bytes)
    → Picks r selected names (select_from r selected names)
unfolding select_from
select_from-Picks r selected [] = all_known tt
select_from-Picks r selected (name ∷ names) = elim (Option-cases (resolve r name)) [
  | inl e ↦ rw (e, select_from) (not_known [] names name refl tt e)
  | inr (rules, e) ↦
      rw (e, select_from)
        (Picks-cons r selected name rules names _ e
          (select_from-Picks r (mark rules selected) names))
]

or_false : (b : Bool) → (b || false) ≡ b
or_false true = refl
or_false false = refl

-- The rule is of the tier or of one below it.
abbrev pub within : Tier → Rule → Bool
within tier rule = if ltb tier rule.tier then false else true

-- What `Select` answers for a tier and names, of the rules of its registry.
pub data Chooses (rules : List Rule) (tier : Tier) (names : List Bytes) : Selection → Type 0 where
  by_tier : names ≡ [] → Chooses rules tier names (chosen (keep (within tier) rules))
  by_names :
      names ≢ []
      → All (λ name. is_known rules name ≡ true) names
      → Chooses rules tier names (chosen (keep (λ rule. any (stands_for rules rule) names) rules))
  at_unknown :
      (before after : List Bytes) (name : Bytes)
      → names ≡ before ++ name ∷ after
      → All (λ n. is_known rules n ≡ true) before
      → is_known rules name ≡ false
      → Chooses rules tier names (unknown name)

keep_eq :
    (p q : Rule → Bool) (rules : List Rule)
    → ((i : ℕ) (x : Rule) → get_elem? rules i ≡ some x → p x ≡ q x)
    → keep p rules ≡ keep q rules
keep_eq p q [] h = refl
keep_eq p q (x ∷ rules) h =
    let later = keep_eq p q rules (λ i y at. h (suc i) y at) in
    elim (Bool-cases (q x)) [
      | inl t ↦ rw (h 0 x refl ∙ t, t) (ap (λ l. x ∷ l) later)
      | inr f ↦ rw (h 0 x refl ∙ f, f) later
    ]

any_eq :
    (p q : Bytes → Bool) (names : List Bytes)
    → ((n : Bytes) → p n ≡ q n)
    → any p names ≡ (any q names || false)
any_eq p q [] h = refl
any_eq p q (n ∷ names) h = ground (arith, h n, any_eq p q names h)

module _ (rules : List Rule) (r : Registry) (s : Serves rules r) where
  tier_chosen : (tier : Tier) → select_tier r tier ≡ keep (within tier) rules
  unfolding select_tier
  tier_chosen tier =
      ap (keep (λ x. tier_includes tier x.tier)) s.kept
      ∙ keep_eq _ (within tier) rules (λ i x at. ground arith)

  known_before :
      (names : List Bytes) → All (IsKnown r) names → All (λ n. is_known rules n ≡ true) names
  known_before names k = All-map _ _ names (λ n e. sym (resolve-is_known rules r s n) ∙ e) k

  names_chosen :
      (names : List Bytes)
      → keep (λ rule. any (named_by r rule) names || is_marked [] rule) r.rules
        ≡ keep (λ rule. any (stands_for rules rule) names) rules
  names_chosen names =
      ap (keep (λ rule. any (named_by r rule) names || is_marked [] rule)) s.kept
      ∙ keep_eq _ _ rules (λ i rule at. sym (
          any_eq (stands_for rules rule) (named_by r rule) names
            (λ n. sym (named_by-stands_for rules r s i rule n at))))

  Chooses-Picks :
      (tier : Tier) (names : List Bytes) (o : Selection)
      → names ≢ []
      → Picks r [] names o
      → Chooses rules tier names o
  Chooses-Picks tier names o d (all_known k) =
      subst (λ l. Chooses rules tier names (chosen l)) (sym (names_chosen names))
        (by_names d (known_before names k))
  Chooses-Picks tier names o d (not_known before after n split k e) =
      at_unknown before after n split (known_before before k)
        (sym (resolve-is_known rules r s n) ∙ ap is_some e)

  select_from-Chooses :
      (tier : Tier) (names : List Bytes) → Chooses rules tier names (select r tier names)
  unfolding select
  select_from-Chooses tier [] =
      subst (λ l. Chooses rules tier [] (chosen l)) (sym (tier_chosen tier)) (by_tier refl)
  select_from-Chooses tier (name ∷ names) =
      Chooses-Picks tier (name ∷ names) _ (λ e. absurd (cc)) (select_from-Picks r [] (name ∷ names))

-- With a registry that was built of rules, `Select` without names chooses the rules whose tier is not
-- above the one given. With names, if each is that of a family or of a rule, it chooses, in the order of
-- the rules, exactly those that some name stands for: the rules of the family of that name, or, if
-- there is no such family, the rule of that name. Otherwise it answers the first name that is neither.
pub select-Chooses :
    (rules : List Rule) (r : Registry) (tier : Tier) (names : List Bytes)
    → new_registry rules ≡ ok r
    → Chooses rules tier names (select r tier names)
select-Chooses rules r tier names built =
    select_from-Chooses rules r (new_registry-Serves rules r built) tier names
