-- ===== src/Operators/Naming.antt =====
-- What a name stands for, and that `Resolve` finds it in a registry that serves its rules.
use go_mutants.Prelude.{
  ℕ, zero, suc, ◌≡◌, refl, sym, ap, ◌∙◌, inl, inr, Bool, true, false, Bool-cases, Option, none,
  some, Option-cases, some-inj, List, [], ◌∷◌, Bytes, keep, any, str_eq, str_eq→≡, str_eq_self,
  str_eq_flip, get_elem?, if◌then◌else◌, arith,
}
use go_mutants.Mutation.Rule.{Rule, Registry, lookup_rule, is_some}
use go_mutants.Mutation.Rule.Registered.{Serves}
use go_mutants.Operators.{resolve}

-- Some rule is of the family.
abbrev pub has_family : List Rule → Bytes → Bool
has_family rules name = any (λ x. str_eq x.family name) rules

-- Some rule has the name.
abbrev pub has_rule : List Rule → Bytes → Bool
has_rule rules name = any (λ x. str_eq x.name name) rules

-- The name stands for the rule: as that of its family, or, where no family has the name, as its own.
abbrev pub stands_for : List Rule → Rule → Bytes → Bool
stands_for rules rule name =
    if has_family rules name then str_eq rule.family name else str_eq rule.name name

-- The name is that of a family or of a rule.
abbrev pub is_known : List Rule → Bytes → Bool
is_known rules name = if has_family rules name then true else has_rule rules name

abbrev pub among : Rule → Option (List Rule) → Bool
among rule none = false
among rule (some rules) = any (λ x. str_eq x.name rule.name) rules

-- The rule is among those that `Resolve` finds.
abbrev pub named_by : Registry → Rule → Bytes → Bool
named_by r rule name = among rule (resolve r name)

abbrev single : Option Rule → Option (List Rule)
single none = none
single (some x) = some (x ∷ [])

str_eq_comm : (s t : Bytes) → str_eq s t ≡ str_eq t s
str_eq_comm s t = elim (Bool-cases (str_eq s t)) [
  | inl e ↦ ap (λ x. str_eq x t) (str_eq→≡ s t e) ∙ ap (λ x. str_eq t x) (sym (str_eq→≡ s t e))
  | inr e ↦ e ∙ sym (str_eq_flip s t e)
]

any-at :
    (p : Rule → Bool) (rules : List Rule) (i : ℕ) (x : Rule)
    → get_elem? rules i ≡ some x
    → p x ≡ true
    → any p rules ≡ true
any-at p [] i x at h = absurd (cc)
any-at p (y ∷ rules) zero x at h = let here : p y ≡ true = ap p (some-inj at) ∙ h in rw here refl
any-at p (y ∷ rules) (suc i) x at h = ground (arith, any-at p rules i x at h)

any-found :
    (p : Rule → Bool) (rules : List Rule)
    → any p rules ≡ true
    → (i : ℕ) × (x : Rule) × (get_elem? rules i ≡ some x) × (p x ≡ true)
any-found p [] h = absurd (cc)
any-found p (y ∷ rules) h = elim (Bool-cases (p y)) [
  | inl t ↦ (0, y, refl, t)
  | inr f ↦ let (i, x, at, e) = any-found p rules (rw f at h) in (suc i, x, at, e)
]

any-keep :
    (p q : Rule → Bool) (rules : List Rule)
    → any p (keep q rules) ≡ true
    → any (λ x. if q x then p x else false) rules ≡ true
any-keep p q [] h = absurd (cc)
any-keep p q (y ∷ rules) h = elim (Bool-cases (q y)) [
  | inl t ↦ elim (Bool-cases (p y)) [
    | inl e ↦ rw (t, e) refl
    | inr e ↦ rw (t, e) (any-keep p q rules (rw (t, e) at h))
  ]
  | inr f ↦ rw f (any-keep p q rules (rw f at h))
]

keep-any :
    (p q : Rule → Bool) (rules : List Rule) (i : ℕ) (x : Rule)
    → get_elem? rules i ≡ some x
    → q x ≡ true
    → p x ≡ true
    → any p (keep q rules) ≡ true
keep-any p q [] i x at h k = absurd (cc)
keep-any p q (y ∷ rules) zero x at h k =
    let kept : q y ≡ true = ap q (some-inj at) ∙ h in
    let passes : p y ≡ true = ap p (some-inj at) ∙ k in rw (kept, passes) refl
keep-any p q (y ∷ rules) (suc i) x at h k =
    let later = keep-any p q rules i x at h k in
    elim (Bool-cases (q y)) [
      | inl t ↦ elim (Bool-cases (p y)) [ inl e ↦ rw (t, e) refl | inr e ↦ rw (t, e) later ]
      | inr f ↦ rw f later
    ]

same_bool : (a b : Bool) → (a ≡ true → b ≡ true) → (b ≡ true → a ≡ true) → a ≡ b
same_bool true b h k = sym (h refl)
same_bool false true h k = k refl
same_bool false false h k = refl

module _ (rules : List Rule) (r : Registry) (s : Serves rules r) where
  -- Rules of one name are one rule.
  one_rule :
      (i j : ℕ) (x y : Rule)
      → get_elem? rules i ≡ some x
      → get_elem? rules j ≡ some y
      → x.name ≡ y.name
      → x ≡ y
  one_rule i j x y at_i at_j e =
      some-inj (sym (s.placed i x at_i).1 ∙ (ap (λ n. lookup_rule r n) e ∙ (s.placed j y at_j).1))

  family-resolve :
      (name : Bytes)
      → has_family rules name ≡ true
      → resolve r name ≡ some (keep (λ x. str_eq x.family name) rules)
  unfolding resolve
  family-resolve name h = rw (s.families name ∙ h) (ap some (s.grouped name))

  single-resolve :
      (name : Bytes) → has_family rules name ≡ false → resolve r name ≡ single (lookup_rule r name)
  unfolding resolve
  single-resolve name h =
      rw (s.families name ∙ h)
        (elim (Option-cases (lookup_rule r name)) [ inl e ↦ rw e refl | inr (x, e) ↦ rw e refl ])

  has_rule-lookup : (name : Bytes) → is_some (lookup_rule r name) ≡ has_rule rules name
  has_rule-lookup name = elim (Option-cases (lookup_rule r name)) [
    | inl e ↦ elim (Bool-cases (has_rule rules name)) [
      | inr f ↦ rw (e, f) refl
      | inl t ↦
          let (i, x, at, same) = any-found (λ x. str_eq x.name name) rules t in
          absurd
            (cc (e, (s.placed i x at).1, ap (λ n. lookup_rule r n) (str_eq→≡ x.name name same)))
    ]
    | inr (x, e) ↦
        let (same, (i, at)) = s.found name x e in
        let here : str_eq x.name name ≡ true = ap (λ n. str_eq n name) same ∙ str_eq_self name in
        rw e (sym (any-at (λ y. str_eq y.name name) rules i x at here))
  ]

  -- `Resolve` knows the names of families and of rules.
  pub resolve-is_known : (name : Bytes) → is_some (resolve r name) ≡ is_known rules name
  resolve-is_known name = elim (Bool-cases (has_family rules name)) [
    | inl t ↦ rw (family-resolve name t, t) refl
    | inr f ↦ elim (Option-cases (lookup_rule r name)) [
      | inl e ↦ rw (single-resolve name f, e, f) (sym (ap is_some e) ∙ has_rule-lookup name)
      | inr (x, e) ↦ rw (single-resolve name f, e, f) (sym (ap is_some e) ∙ has_rule-lookup name)
    ]
  ]

  named_by-family :
      (i : ℕ) (rule : Rule) (name : Bytes)
      → get_elem? rules i ≡ some rule
      → any (λ x. str_eq x.name rule.name) (keep (λ x. str_eq x.family name) rules)
        ≡ str_eq rule.family name
  named_by-family i rule name at =
      same_bool _ _
        (λ h.
          let (j, x, at_j, both) =
            any-found (λ x. if str_eq x.family name then str_eq x.name rule.name else false) rules
              (any-keep (λ x. str_eq x.name rule.name) (λ x. str_eq x.family name) rules h) in
          let (of_family, same_name) = split (str_eq x.family name) _ both in
          ap (λ (y : Rule). str_eq y.family name)
            (sym (one_rule j i x rule at_j at (str_eq→≡ x.name rule.name same_name)))
          ∙ of_family)
        (λ h.
          keep-any (λ x. str_eq x.name rule.name) (λ x. str_eq x.family name) rules i rule at h
            (str_eq_self rule.name))
    where
      split : (a b : Bool) → (if a then b else false) ≡ true → (a ≡ true) × (b ≡ true)
      split true b h = (refl, h)
      split false b h = absurd (cc)

  -- What `Resolve` finds is what the name stands for.
  pub named_by-stands_for :
      (i : ℕ) (rule : Rule) (name : Bytes)
      → get_elem? rules i ≡ some rule
      → named_by r rule name ≡ stands_for rules rule name
  named_by-stands_for i rule name at = elim (Bool-cases (has_family rules name)) [
    | inl t ↦ rw (family-resolve name t, t) (named_by-family i rule name at)
    | inr f ↦ rw (single-resolve name f, f) (alone (lookup_rule r name) refl)
  ]
    where
      or_false : (b : Bool) → (if b then true else false) ≡ b
      or_false true = refl
      or_false false = refl

      alone :
          (o : Option Rule) → lookup_rule r name ≡ o → among rule (single o) ≡ str_eq rule.name name
      alone none e = elim (Bool-cases (str_eq rule.name name)) [
        | inr g ↦ sym g
        | inl g ↦
            absurd (
              cc (e, (s.placed i rule at).1, ap (λ n. lookup_rule r n) (str_eq→≡ rule.name name g)))
      ]
      alone (some x) e =
          let (same, _) = s.found name x e in
          or_false (str_eq x.name rule.name)
          ∙ (ap (λ n. str_eq n rule.name) same ∙ str_eq_comm name rule.name)
