-- ===== src/Mutation/Catalog/Duplicates.antt =====
-- What makes two entries one change, and what a duplicate says of them.

use go_mutants.Prelude.{
  ◌≡◌, ◌↔◌, refl, ap, inl, inr, true, false, Bool-cases, List, [], ◌∷◌, All, ◌⊎◌, str_eq→≡,
  str_eq_self, arith,
}
use go_mutants.Prelude.Subseq.{Subseq}
use go_mutants.Mutation.Span.{Span, same}
use go_mutants.Mutation.Rule.{rule_eq}
use go_mutants.Mutation.Rule.Registered.{rule_eq→≡, rule_eq_self}
use go_mutants.Mutation.Catalog.{
  Entry, Duplicate, DedupKey, dedup_key, dedup_eq, duplicate_of, duplicate_identical,
}

-- The two entries replace the same bytes of the same file by the same text.
pub record SameChange (w e : Entry) : Type 0 where
  pub same_module : w.candidate.module_path ≡ e.candidate.module_path
  pub same_path : w.candidate.path ≡ e.candidate.path
  pub same_span : w.candidate.span ≡ e.candidate.span
  pub same_text : w.candidate.replacement ≡ e.candidate.replacement

-- No entry makes the change of one before it.
abbrev pub Distinct : List Entry → Type 0
Distinct [] = Unit
Distinct (e ∷ es) = All (λ f. ¬ SameChange e f) es × Distinct es

-- The entry is in the list.
abbrev pub Among : Entry → List Entry → Type 0
Among w [] = ⊥
Among w (e ∷ es) = (w ≡ e) ⊎ Among w es

-- The duplicate names the dropped entry and the winner, and tells whether they are of one rule.
pub record Says (w e : Entry) (d : Duplicate) : Type 0 where
  pub dropped : d.dropped ≡ e.candidate
  pub dropped_id : d.dropped_id ≡ e.id
  pub winner_id : d.winner_id ≡ w.id
  pub winner_rule : d.winner_rule ≡ w.candidate.rule
  pub reason : (d.reason ≡ duplicate_identical) ↔ (w.candidate.rule ≡ e.candidate.rule)

-- The dropped entry makes the change of a kept one that stands before it, and the duplicate says so.
pub record Explained (sorted kept : List Entry) (e : Entry) (d : Duplicate) : Type 0 where
  pub winner : Entry
  pub is_kept : Among winner kept
  pub earlier : Subseq (winner ∷ e ∷ []) sorted
  pub same_change : SameChange winner e
  pub says : Says winner e d

-- Each dropped entry with its duplicate.
abbrev pub Each : (Entry → Duplicate → Type 0) → List Entry → List Duplicate → Type 0
Each R [] [] = Unit
Each R [] (d ∷ ds) = ⊥
Each R (e ∷ es) [] = ⊥
Each R (e ∷ es) (d ∷ ds) = R e d × Each R es ds

pub Each-map :
    (R S : Entry → Duplicate → Type 0) (es : List Entry) (ds : List Duplicate)
    → ((e : Entry) (d : Duplicate) → R e d → S e d)
    → Each R es ds
    → Each S es ds
Each-map R S [] [] f h = tt
Each-map R S [] (d ∷ ds) f h = absurd h
Each-map R S (e ∷ es) [] f h = absurd h
Each-map R S (e ∷ es) (d ∷ ds) f h = (f e d h.0, Each-map R S es ds f h.1)

same→≡ : (s t : Span) → same s t ≡ true → s ≡ t
same→≡ s t h = ground arith

same_self : (s : Span) → same s s ≡ true
same_self s = ground arith

pub SameChange-of : (w e : Entry) → dedup_eq (dedup_key w) (dedup_key e) ≡ true → SameChange w e
SameChange-of w e h = record {
  same_module = str_eq→≡ _ _ (ground arith);
  same_path = str_eq→≡ _ _ (ground arith);
  same_span = same→≡ w.candidate.span e.candidate.span (ground arith);
  same_text = str_eq→≡ _ _ (ground arith);
}

dedup_eq_self : (k : DedupKey) → dedup_eq k k ≡ true
dedup_eq_self ((m, p), s, r) =
    ground (arith, str_eq_self m, str_eq_self p, same_self s, str_eq_self r)

SameChange-key : (w e : Entry) → SameChange w e → dedup_key w ≡ dedup_key e
SameChange-key w e h = λ i. ((h.same_module i, h.same_path i), h.same_span i, h.same_text i)

pub other_change : (w e : Entry) → dedup_eq (dedup_key w) (dedup_key e) ≡ false → ¬ SameChange w e
other_change w e h = λ s.
    absurd (cc (h, ap (dedup_eq (dedup_key w)) (SameChange-key w e s), dedup_eq_self (dedup_key w)))

pub duplicate_of-Says : (w e : Entry) → Says w e (duplicate_of w e)
duplicate_of-Says w e = record {
  dropped = refl;
  dropped_id = refl;
  winner_id = refl;
  winner_rule = refl;
  reason = elim (Bool-cases (rule_eq w.candidate.rule e.candidate.rule)) [
    | inl t ↦ rw t (λ h. rule_eq→≡ w.candidate.rule e.candidate.rule t, λ h. refl)
    | inr f ↦ rw f (
      λ h. absurd (cc h),
      λ h. absurd (cc (f, ap (rule_eq w.candidate.rule) h, rule_eq_self w.candidate.rule)),
    )
  ];
}
