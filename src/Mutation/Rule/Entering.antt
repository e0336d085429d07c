-- ===== src/Mutation/Rule/Entering.antt =====
-- The loop of `NewRegistry`: what a registry knows after some of its rules.
use go_mutants.Prelude.{
  ℕ, zero, suc, ◌≡◌, refl, sym, ap, ◌∙◌, subst, ◌⊎◌, inl, inr, Bool, not, Bool-cases, Option-cases,
  Option, none, some, List, [], ◌∷◌, ◌++◌, append-nil, append_assoc, Bytes, str_eq, str_eq→≡,
  str_eq_self, if◌then◌else◌, true, any, keep, get_elem?, length, length-append, arith,
}
use go_mutants.Prelude.Maps.{get, put, get_list}
use go_mutants.Mutation.Rule.{
  Tier, Rule, RuleError, Checked, ok, err, ◌>>=◌, guard, rule_validate, Registry, enter_family,
  enter_rule, enter_all, is_some, duplicate_rule,
}

-- The position of the first rule of a name.
abbrev pub index_of : Bytes → List Rule → Option ℕ
index_of n [] = none
index_of n (r ∷ rs) =
    if str_eq r.name n then some 0 else elim (index_of n rs) [ none ↦ none | some i ↦ some (suc i) ]

index_of-snoc :
    (n : Bytes) (rs : List Rule) (r : Rule)
    → index_of n (rs ++ r ∷ []) ≡ elim (index_of n rs) [
      | some i ↦ some i
      | none ↦ if str_eq r.name n then some (length rs) else none
    ]
index_of-snoc n [] r = ground arith
index_of-snoc n (x ∷ rs) r = ground (arith, index_of-snoc n rs r)

keep-snoc :
    (p : Rule → Bool) (rs : List Rule) (r : Rule)
    → keep p (rs ++ r ∷ []) ≡ (if p r then keep p rs ++ r ∷ [] else keep p rs)
keep-snoc p [] r = refl
keep-snoc p (x ∷ rs) r = ground (arith, keep-snoc p rs r)

get_elem?-snoc :
    (rs : List Rule) (r x : Rule) (i : ℕ)
    → get_elem? (rs ++ r ∷ []) i ≡ some x
    → (get_elem? rs i ≡ some x) ⊎ ((i ≡ length rs) × (r ≡ x))
get_elem?-snoc [] r x zero h = inr (refl, cc)
get_elem?-snoc [] r x (suc i) h = cc
get_elem?-snoc (y ∷ rs) r x zero h = inl h
get_elem?-snoc (y ∷ rs) r x (suc i) h = elim (get_elem?-snoc rs r x i h) [
  | inl e ↦ inl e
  | inr e ↦ inr (ap suc e.0, e.1)
]

-- A registry that has entered the rules `done`.
pub record Knows (done : List Rule) (r : Registry) : Type 0 where
  pub indexed : (n : Bytes) → get n r.rule_index ≡ index_of n done
  pub grouped : (f : Bytes) → get_list f r.family_rules ≡ keep (λ x. str_eq x.family f) done
  pub distinct : (i : ℕ) (x : Rule) → get_elem? done i ≡ some x → index_of x.name done ≡ some i
  pub tiered : (f : Bytes) → is_some (get f r.family_tier) ≡ any (λ x. str_eq x.family f) done
  pub ranked : (f : Bytes) → is_some (get f r.family_index) ≡ is_some (get f r.family_tier)

-- What entering one rule changes.
record Enters (i : ℕ) (rule : Rule) (r r' : Registry) : Type 0 where
  is_new : get rule.name r.rule_index ≡ none
  index_put : r'.rule_index ≡ put rule.name i r.rule_index
  family_put :
      r'.family_rules
      ≡ put rule.family (get_list rule.family r.family_rules ++ rule ∷ []) r.family_rules
  same_rules : r'.rules ≡ r.rules
  tier_put :
      (f : Bytes)
      → is_some (get f r'.family_tier)
        ≡ (if str_eq rule.family f then true else is_some (get f r.family_tier))
  rank_put :
      (f : Bytes)
      → is_some (get f r.family_index) ≡ is_some (get f r.family_tier)
      → is_some (get f r'.family_index) ≡ is_some (get f r'.family_tier)

any-snoc :
    (p : Rule → Bool) (rs : List Rule) (r : Rule)
    → any p (rs ++ r ∷ []) ≡ (if p r then true else any p rs)
any-snoc p [] r = refl
any-snoc p (x ∷ rs) r = ground (arith, any-snoc p rs r)

enter_family-keeps :
    (i : ℕ) (rule : Rule) (r : Registry) {r' : Registry}
    → enter_family i rule r ≡ ok r'
    → (r'.rule_index ≡ r.rule_index) × (r'.family_rules ≡ r.family_rules) × (r'.rules ≡ r.rules)
unfolding enter_family
enter_family-keeps i rule r h = ground arith

-- What a family's part of the step does to the families that are known.
abbrev Tiered : Rule → Registry → Registry → Bytes → Type 0
Tiered rule r r' f =
    is_some (get f r'.family_tier)
    ≡ (if str_eq rule.family f then true else is_some (get f r.family_tier))

abbrev Ranked : Registry → Registry → Bytes → Type 0
Ranked r r' f =
    is_some (get f r.family_index) ≡ is_some (get f r.family_tier)
    → is_some (get f r'.family_index) ≡ is_some (get f r'.family_tier)

enter_family-known :
    (i : ℕ) (rule : Rule) (r : Registry) {r' : Registry} {tier : Tier}
    → get rule.family r.family_tier ≡ some tier
    → enter_family i rule r ≡ ok r'
    → (r'.family_tier ≡ r.family_tier) × (r'.family_index ≡ r.family_index)
unfolding enter_family
enter_family-known i rule r e h = ground arith

enter_family-new :
    (i : ℕ) (rule : Rule) (r : Registry) {r' : Registry}
    → get rule.family r.family_tier ≡ none
    → enter_family i rule r ≡ ok r'
    → (r'.family_tier ≡ put rule.family rule.tier r.family_tier)
      × (r'.family_index ≡ put rule.family (length r.families) r.family_index)
unfolding enter_family
enter_family-new i rule r e h = ground arith

enter_family-Families :
    (i : ℕ) (rule : Rule) (r : Registry) {r' : Registry}
    → enter_family i rule r ≡ ok r'
    → (f : Bytes) → Tiered rule r r' f × Ranked r r' f
enter_family-Families i rule r h f = elim (Option-cases (get rule.family r.family_tier)) [
  | inl e ↦
      let (tiers, ranks) = enter_family-new i rule r e h in
      rw (tiers, ranks)
        (elim (Bool-cases (str_eq rule.family f)) [
          | inl t ↦ rw t (refl, λ k. refl)
          | inr t ↦ rw t (refl, λ k. k)
        ])
  | inr (tier, e) ↦
      let (tiers, ranks) = enter_family-known i rule r e h in
      rw (tiers, ranks)
        (elim (Bool-cases (str_eq rule.family f)) [
          | inl t ↦
              let known : get f r.family_tier ≡ some tier =
                ap (λ k. get k r.family_tier) (sym (str_eq→≡ rule.family f t)) ∙ e in
              rw (t, known) (refl, λ k. k)
          | inr t ↦ rw t (refl, λ k. k)
        ])
]

>>=-ok {ℓ κ} :
    {A : Type ℓ} {B : Type κ} (m : Checked A) (f : A → Checked B) {b : B}
    → (m >>= f) ≡ ok b
    → (a : A) × (m ≡ ok a) × (f a ≡ ok b)
>>=-ok (ok a) f h = (a, refl, h)
>>=-ok (err e) f h = cc

ok-injective {ℓ} : {A : Type ℓ} {a b : A} → ok a ≡ ok b → a ≡ b
ok-injective h = cc

guard_new :
    {A : Type 0} (o : Option A) (e : RuleError) {u : Unit {0}}
    → guard (not (is_some o)) e ≡ ok u
    → o ≡ none
guard_new none e h = refl
guard_new (some a) e h = cc

enter_rule-Enters :
    (i : ℕ) (rule : Rule) (r : Registry) {r' : Registry}
    → enter_rule i rule r ≡ ok r'
    → Enters i rule r r'
unfolding enter_rule
enter_rule-Enters i rule r h =
    let (_, _, h₁) = >>=-ok (rule_validate rule) _ h in
    let (_, g, h₂) =
      >>=-ok (guard (not (is_some (get rule.name r.rule_index))) duplicate_rule) _ h₁ in
    let (r₁, e, h₃) = >>=-ok (enter_family i rule _) _ h₂ in
    let (a, b, c) = enter_family-keeps i rule _ e in
    let steps = enter_family-Families i rule _ e in
    let same = ok-injective h₃ in
    record {
      is_new = guard_new (get rule.name r.rule_index) duplicate_rule g;
      index_put = ground arith;
      family_put = ground arith;
      same_rules = ground arith;
      tier_put = λ f. subst (λ (s : Registry). Tiered rule r s f) same (steps f).0;
      rank_put = λ f. subst (λ (s : Registry). Ranked r s f) same (steps f).1;
    }

module _ (done : List Rule) (rule : Rule) (r r' : Registry) (k : Knows done r)
    (e : Enters (length done) rule r r') where
  unknown_before : index_of rule.name done ≡ none
  unknown_before = sym (k.indexed rule.name) ∙ e.is_new

  indexed_after : (n : Bytes) → get n r'.rule_index ≡ index_of n (done ++ rule ∷ [])
  indexed_after n =
      rw e.index_put (
        ground
          (arith, k.indexed n, index_of-snoc n done rule, unknown_before, str_eq→≡ rule.name n))

  grouped_after :
      (f : Bytes) → get_list f r'.family_rules ≡ keep (λ x. str_eq x.family f) (done ++ rule ∷ [])
  grouped_after f =
      rw (e.family_put, keep-snoc (λ x. str_eq x.family f) done rule)
        (elim (Bool-cases (str_eq rule.family f)) [
          | inl t ↦
              rw (t, get_list)
                (ap (λ l. l ++ rule ∷ [])
                  (ap (λ x. get_list x r.family_rules) (str_eq→≡ rule.family f t) ∙ k.grouped f))
          | inr t ↦ rw (t, get_list) (k.grouped f)
        ])

  distinct_after :
      (i : ℕ) (x : Rule)
      → get_elem? (done ++ rule ∷ []) i ≡ some x
      → index_of x.name (done ++ rule ∷ []) ≡ some i
  distinct_after i x h = elim (get_elem?-snoc done rule x i h) [
    | inl old ↦ index_of-snoc x.name done rule ∙ rw (k.distinct i x old) refl
    | inr (p, q) ↦
        subst (λ y. index_of y.name (done ++ rule ∷ []) ≡ some i) q
          (index_of-snoc rule.name done rule
            ∙ rw (unknown_before, str_eq_self rule.name) (ap some (sym p)))
  ]

  tiered_after :
      (f : Bytes)
      → is_some (get f r'.family_tier) ≡ any (λ x. str_eq x.family f) (done ++ rule ∷ [])
  tiered_after f =
      e.tier_put f
      ∙ (ap (λ b. if str_eq rule.family f then true else b) (k.tiered f)
          ∙ sym (any-snoc (λ x. str_eq x.family f) done rule))

  Enters-Knows : Knows (done ++ rule ∷ []) r'
  Enters-Knows = record {
    indexed = indexed_after;
    grouped = grouped_after;
    distinct = distinct_after;
    tiered = tiered_after;
    ranked = λ f. e.rank_put f (k.ranked f);
  }

pub enter_all-Knows :
    (done todo : List Rule) (r r' : Registry)
    → Knows done r
    → enter_all (length done) todo r ≡ ok r'
    → Knows (done ++ todo) r' × (r'.rules ≡ r.rules)
unfolding enter_all
enter_all-Knows done [] r r' k h =
    let e : r ≡ r' = ok-injective h in
    (subst (λ x. Knows (done ++ []) x) e (rw append-nil k), sym (ap (λ x. x.rules) e))
enter_all-Knows done (rule ∷ todo) r r' k h =
    let (r₁, e, h₁) = >>=-ok (enter_rule (length done) rule r) _ h in
    let enters = enter_rule-Enters (length done) rule r e in
    let longer : length (done ++ rule ∷ []) ≡ suc (length done) =
      omega (arith, length-append {0} done (rule ∷ [])) in
    let (k₂, same) =
      enter_all-Knows (done ++ rule ∷ []) todo r₁ r' (Enters-Knows done rule r r₁ k enters)
        (rw longer h₁) in
    (rw append_assoc at k₂, same ∙ enters.same_rules)
