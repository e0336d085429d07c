-- ===== src/Mutation/Rule.antt =====
-- internal/mutation/rule.go: mutation rules, and the registry that gives them their order.
use go_mutants.Prelude.{
  ℕ, zero, suc, ◌-◌, Bool, true, false, not, ◌&&◌, ◌||◌, Option, none, some, List, [], ◌∷◌, ◌++◌,
  map, Bytes, codes, leb, ltb, ◌==◌, str_eq, if◌then◌else◌, keep, get_elem?, length,
}
use go_mutants.Prelude.Decimal.{itoa}
use go_mutants.Prelude.Maps.{Map, get, put, get_list}
mod Entering
pub mod Registered
pub mod Table

-- A tier is its uint8; higher tiers include lower ones.
abbrev pub Tier : Type 0
Tier = ℕ

abbrev pub tier_balanced : Tier
tier_balanced = 0

abbrev pub tier_strong : Tier
tier_strong = 1

abbrev pub tier_all : Tier
tier_all = 2

abbrev pub tier_valid : Tier → Bool
tier_valid t = leb t tier_all

abbrev pub tier_includes : Tier → Tier → Bool
tier_includes t other = leb other t

unfoldable pub tier_string : Tier → Bytes
tier_string t =
    if t == tier_balanced
    then codes "balanced"
    else if t == tier_strong
    then codes "strong"
    else if t == tier_all
    then codes "all"
    else codes "tier(" ++ itoa t ++ codes ")"

abbrev pub tiers : List Tier
tiers = tier_balanced ∷ tier_strong ∷ tier_all ∷ []

-- The loop of `ParseTier`.
pub parse_among_tiers : Bytes → List Tier → Option Tier
parse_among_tiers s [] = none
parse_among_tiers s (t ∷ ts) = if str_eq (tier_string t) s then some t else parse_among_tiers s ts

-- `none` is `ErrUnknownTier`.
unfoldable pub parse_tier : Bytes → Option Tier
unfolding parse_among_tiers tier_string
parse_tier s = parse_among_tiers s tiers

-- The version is an int; those below 1 are all refused alike, so zero stands for them.
pub record Rule : Type 0 where
  pub family : Bytes
  pub name : Bytes
  pub version : ℕ
  pub tier : Tier

pub data RuleError : Type 0 where
  invalid_rule_name invalid_rule_version unknown_tier duplicate_rule : RuleError
  family_tier_conflict family_split unknown_rule rule_mismatch : RuleError

pub data Checked {ℓ} (A : Type ℓ) : Type ℓ where
  ok : A → Checked A
  err : RuleError → Checked A

infixl 5 ◌>>=◌ ◌>>◌
abbrev pub ◌>>=◌ {ℓ κ} : {A : Type ℓ} {B : Type κ} → Checked A → (A → Checked B) → Checked B
ok a >>= f = f a
err e >>= f = err e

abbrev pub ◌>>◌ {ℓ} : {B : Type ℓ} → Checked (Unit {0}) → Checked B → Checked B
m >> k = m >>= λ _. k

abbrev pub guard : Bool → RuleError → Checked (Unit {0})
guard true e = ok tt
guard false e = err e

abbrev pub is_empty : Bytes → Bool
is_empty [] = true
is_empty (_ ∷ _) = false

unfoldable pub rule_validate : Rule → Checked (Unit {0})
rule_validate r = do
  guard (not (is_empty r.family)) invalid_rule_name
  guard (not (is_empty r.name)) invalid_rule_name
  guard (leb 1 r.version) invalid_rule_version
  guard (tier_valid r.tier) unknown_tier

-- `registered == rule`
abbrev pub rule_eq : Rule → Rule → Bool
rule_eq a b =
    str_eq a.family b.family
    && (str_eq a.name b.name && (a.version == b.version && a.tier == b.tier))

pub record Registry : Type 0 where
  pub rules : List Rule
  pub families : List Bytes
  pub family_tier : Map Tier
  pub rule_index : Map ℕ
  pub family_index : Map ℕ
  pub family_rules : Map (List Rule)

-- The family of the rule before position `i`, if there is one.
abbrev pub follows : List Rule → ℕ → Bytes → Bool
follows all zero family = false
follows all (suc i) family = elim (get_elem? all i) [
  | none ↦ false
  | some before ↦ str_eq before.family family
]

-- The family's part of the loop body: a known family must keep its tier and go on directly.
pub enter_family : ℕ → Rule → Registry → Checked Registry
enter_family i rule r = elim (get rule.family r.family_tier) [
  | some tier ↦ do
    guard (tier == rule.tier) family_tier_conflict
    guard (follows r.rules i rule.family) family_split
    ok r
  | none ↦ ok (record r {
    family_tier = put rule.family rule.tier r.family_tier;
    family_index = put rule.family (length r.families) r.family_index;
    families = r.families ++ rule.family ∷ [];
  })
]

abbrev pub is_some {ℓ} : {A : Type ℓ} → Option A → Bool
is_some none = false
is_some (some _) = true

-- The loop body of `NewRegistry` at position `i`.
pub enter_rule : ℕ → Rule → Registry → Checked Registry
enter_rule i rule r = do
  rule_validate rule
  guard (not (is_some (get rule.name r.rule_index))) duplicate_rule
  r' ← enter_family i rule (record r { rule_index = put rule.name i r.rule_index })
  ok (record r' {
    family_rules =
        put rule.family (get_list rule.family r'.family_rules ++ rule ∷ []) r'.family_rules;
  })

pub enter_all : ℕ → List Rule → Registry → Checked Registry
enter_all i [] r = ok r
enter_all i (rule ∷ rules) r = do r' ← enter_rule i rule r; enter_all (suc i) rules r'

abbrev pub fresh : List Rule → Registry
fresh rules = record {
  rules = rules;
  families = [];
  family_tier = [];
  rule_index = [];
  family_index = [];
  family_rules = [];
}

unfoldable pub new_registry : List Rule → Checked Registry
unfolding enter_all enter_rule enter_family rule_validate
new_registry rules = enter_all 0 rules (fresh rules)

unfoldable pub position : Registry → Bytes → Option ℕ
position r name = get name r.rule_index

unfoldable pub lookup_rule : Registry → Bytes → Option Rule
lookup_rule r name = elim (get name r.rule_index) [ none ↦ none | some i ↦ get_elem? r.rules i ]

unfoldable pub family_position : Registry → Bytes → Option ℕ
family_position r f = get f r.family_index

unfoldable pub family_rules_of : Registry → Bytes → List Rule
family_rules_of r f = get_list f r.family_rules

unfoldable pub select_tier : Registry → Tier → List Rule
select_tier r t = keep (λ rule. tier_includes t rule.tier) r.rules

unfoldable pub verify : Registry → Rule → Checked (Unit {0})
verify r rule = elim (lookup_rule r rule.name) [
  | none ↦ err unknown_rule
  | some registered ↦ guard (rule_eq registered rule) rule_mismatch
]
