-- ===== src/Mutation/Catalog/Dedup.antt =====
-- What the removal of duplicates keeps, and how it explains what it drops.
use mathlib.Core.List.{Perm, perm_middle}
use mathlib.Core.List.Perm
use go_mutants.Prelude.{
  ◌≡◌, refl, sym, ap, ◌∙◌, inl, inr, true, Bool-cases, Option-cases, none, some, List, [], ◌∷◌,
  ◌++◌, map, some_eq, subst, All, All-map, ◌⊎◌,
}
use go_mutants.Prelude.Maps.{get_by}
use go_mutants.Prelude.Subseq.{Subseq, Subseq-nil}
use go_mutants.Mutation.Catalog.Duplicates.{
  SameChange, Distinct, Among, Says, Explained, Each, Each-map, SameChange-of, other_change,
  duplicate_of-Says,
}
use go_mutants.Mutation.Catalog.{Entry, Duplicate, DedupKey, dedup_key, dedup_eq, dedup_from, dedup}

abbrev Winners : Type 0
Winners = List (DedupKey × Entry)

abbrev Fresh : Winners → Entry → Type 0
Fresh winners e = get_by dedup_eq (dedup_key e) winners ≡ none

-- Every winner stands under its own key.
abbrev Keyed : Winners → Type 0
Keyed winners = All (λ p. p.0 ≡ dedup_key p.1) winners

abbrev entries : Winners → List Entry
entries = map (λ p. p.1)

-- The winner was known before, or is one of the entries that are left.
record Dropped (winners : Winners) (sorted kept : List Entry) (e : Entry) (d : Duplicate)
    : Type 0 where
  winner : Entry
  inside : Subseq (e ∷ []) sorted
  place : Among winner (entries winners) ⊎ (Among winner kept × Subseq (winner ∷ e ∷ []) sorted)
  same_change : SameChange winner e
  says : Says winner e d

record Dedups (winners : Winners) (sorted : List Entry) (r : List Entry × List Duplicate)
    : Type 0 where
  fresh : All (Fresh winners) r.0
  distinct : Distinct r.0
  ordered : Subseq r.0 sorted
  lost : List Entry
  lost_ordered : Subseq lost sorted
  explained : Each (Dropped winners sorted r.0) lost r.1
  whole : Perm (r.0 ++ lost) sorted

get_by-winner :
    (winners : Winners) (e w : Entry)
    → Keyed winners
    → get_by dedup_eq (dedup_key e) winners ≡ some w
    → Among w (entries winners) × SameChange w e
get_by-winner [] e w k h = cc
get_by-winner ((j, v) ∷ ws) e w k h = elim (Bool-cases (dedup_eq j (dedup_key e))) [
  | inl t ↦
      let v_is_w : v ≡ w = some_eq (rw t at h) in
      let under : dedup_eq (dedup_key v) (dedup_key e) ≡ true =
        ap (λ i. dedup_eq i (dedup_key e)) (sym k.0) ∙ t in
      (inl (sym v_is_w), subst (λ x. SameChange x e) v_is_w (SameChange-of v e under))
  | inr t ↦ let (m, found) = get_by-winner ws e w k.1 (rw t at h) in (inr m, found)
]

Fresh-cons :
    (v e : Entry) (ws : Winners) → Fresh ((dedup_key v, v) ∷ ws) e → (¬ SameChange v e) × Fresh ws e
Fresh-cons v e ws h = elim (Bool-cases (dedup_eq (dedup_key v) (dedup_key e))) [
  | inl t ↦ absurd (cc (rw t at h))
  | inr t ↦ (other_change v e t, rw t at h)
]

-- The entry in front is kept, and becomes a winner.
Dropped-take :
    (winners : Winners) (f : Entry) (sorted kept : List Entry) (e : Entry) (d : Duplicate)
    → Dropped ((dedup_key f, f) ∷ winners) sorted kept e d
    → Dropped winners (f ∷ sorted) (f ∷ kept) e d
Dropped-take winners f sorted kept e d x = record {
  winner = x.winner;
  inside = Subseq.skip x.inside;
  place = elim x.place [
    | inl (inl p) ↦
        inr (inl p, subst (λ w. Subseq (w ∷ e ∷ []) (f ∷ sorted)) (sym p) (Subseq.take x.inside))
    | inl (inr m) ↦ inl m
    | inr (m, s) ↦ inr (inr m, Subseq.skip s)
  ];
  same_change = x.same_change;
  says = x.says;
}

Dropped-skip :
    (winners : Winners) (f : Entry) (sorted kept : List Entry) (e : Entry) (d : Duplicate)
    → Dropped winners sorted kept e d
    → Dropped winners (f ∷ sorted) kept e d
Dropped-skip winners f sorted kept e d x = record {
  winner = x.winner;
  inside = Subseq.skip x.inside;
  place = elim x.place [ inl m ↦ inl m | inr (m, s) ↦ inr (m, Subseq.skip s) ];
  same_change = x.same_change;
  says = x.says;
}

dedup_from-Dedups :
    (winners : Winners) (sorted : List Entry)
    → Keyed winners
    → Dedups winners sorted (dedup_from winners sorted)
unfolding dedup_from
dedup_from-Dedups winners [] k = record {
  fresh = tt;
  distinct = tt;
  ordered = Subseq.done;
  lost = [];
  lost_ordered = Subseq.done;
  explained = tt;
  whole = Perm.refl [];
}
dedup_from-Dedups winners (e ∷ es) k = elim (Option-cases (get_by dedup_eq (dedup_key e) winners)) [
  | inl none_yet ↦
      let later = dedup_from-Dedups ((dedup_key e, e) ∷ winners) es (refl, k) in
      rw (none_yet, dedup_from)
        (record {
          fresh = (none_yet, All-map _ _ _ (λ f h. (Fresh-cons e f winners h).1) later.fresh);
          distinct =
              (All-map _ _ _ (λ f h. (Fresh-cons e f winners h).0) later.fresh, later.distinct);
          ordered = Subseq.take later.ordered;
          lost = later.lost;
          lost_ordered = Subseq.skip later.lost_ordered;
          explained = Each-map _ _ _ _ (Dropped-take winners e es _) later.explained;
          whole = Perm.cons e later.whole;
        })
  | inr (w, found) ↦
      let later = dedup_from-Dedups winners es k in
      let (m, change) = get_by-winner winners e w k found in
      rw (found, dedup_from)
        (record {
          fresh = later.fresh;
          distinct = later.distinct;
          ordered = Subseq.skip later.ordered;
          lost = e ∷ later.lost;
          lost_ordered = Subseq.take later.lost_ordered;
          explained = (
            record {
              winner = w;
              inside = Subseq.take (Subseq-nil es);
              place = inl m;
              same_change = change;
              says = duplicate_of-Says w e;
            },
            Each-map _ _ _ _ (Dropped-skip winners e es _) later.explained,
          );
          whole = Perm.trans (perm_middle _ _) (Perm.cons e later.whole);
        })
]

-- The kept entries, the duplicates, and the entries that were dropped for them.
pub record Deduplicates (sorted : List Entry) (r : List Entry × List Duplicate) : Type 0 where
  pub distinct : Distinct r.0
  pub ordered : Subseq r.0 sorted
  pub lost : List Entry
  pub lost_ordered : Subseq lost sorted
  pub explained : Each (Explained sorted r.0) lost r.1
  pub whole : Perm (r.0 ++ lost) sorted

-- No two of the kept entries make the same change (to the same file and span, by the same text); the
-- kept ones and the dropped ones stand in the order given, and together are the entries given. There
-- is one duplicate for each dropped entry, in that order: a kept entry stands before the dropped one
-- and makes the same change, and the duplicate has the dropped candidate and its id, the id and the
-- rule of that kept one, and the reason identical exactly if both are of one rule.
pub dedup-Deduplicates : (sorted : List Entry) → Deduplicates sorted (dedup sorted)
unfolding dedup
dedup-Deduplicates sorted =
    let d = dedup_from-Dedups [] sorted tt in
    record {
      distinct = d.distinct;
      ordered = d.ordered;
      lost = d.lost;
      lost_ordered = d.lost_ordered;
      explained =
          Each-map _ _ _ _
            (λ e p x. record {
              winner = x.winner;
              is_kept = elim x.place [ inl nowhere ↦ absurd nowhere | inr (m, s) ↦ m ];
              earlier = elim x.place [ inl nowhere ↦ absurd nowhere | inr (m, s) ↦ s ];
              same_change = x.same_change;
              says = x.says;
            })
            d.explained;
      whole = d.whole;
    }
