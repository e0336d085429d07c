-- ===== src/Report/Merging/Agreeing.antt =====
-- What the parts of a run agree on when `congruent` accepts them.
use go_mutants.Prelude.{
  ℕ, ◌≡◌, refl, sym, ap, ◌∙◌, Option, none, some, Bool, true, false, List, [], ◌∷◌, Bytes, str_eq→≡,
  get_elem?, All, some-inj, arith,
}
use go_mutants.Prelude.Checks.{Checks, ok, err, ◌>>◌, guard}
use go_mutants.Prelude.Decimal.{itoa-injective}
use go_mutants.Report.Merging.{
  MergeError, Part, ids, comparison, ref_text, all_equal, same_length, same_catalog, congruent,
}

equal_of-all_equal :
    (xs ys : List Bytes) → same_length xs ys ≡ true → all_equal xs ys ≡ true → xs ≡ ys
equal_of-all_equal [] [] h k = refl
equal_of-all_equal [] (y ∷ ys) h k = absurd (cc)
equal_of-all_equal (x ∷ xs) [] h k = absurd (cc)
equal_of-all_equal (x ∷ xs) (y ∷ ys) h k =
    cc (str_eq→≡ x y (ground arith), equal_of-all_equal xs ys h (ground arith))

-- The ref that a selection names, where no ref and an empty one are the same.
abbrev pub ref_named : Option Bytes → Bytes
ref_named none = []
ref_named (some ref) = ref

-- A part is of the first one's run: made by the same version of the program, from the same workspace
-- and module, of as many shards that are assigned in the same way, by the same selection; and it has
-- the first one's mutants and rejected mutants.
pub record Agrees (first p : Part) : Type 0 where
  pub same_version : first.report.tool_version ≡ p.report.tool_version
  pub same_workspace : first.report.workspace_digest ≡ p.report.workspace_digest
  pub same_module : first.report.module_path ≡ p.report.module_path
  pub same_total : first.shard.total ≡ p.shard.total
  pub same_assignment : first.shard.assignment ≡ p.shard.assignment
  pub same_ref :
      ref_named first.report.selection.changed_ref ≡ ref_named p.report.selection.changed_ref
  pub same_mode : first.report.selection.mode ≡ p.report.selection.mode
  pub same_ids : ids first ≡ ids p
  pub same_rejected : first.report.rejected ≡ p.report.rejected

pub Agrees-self : (p : Part) → Agrees p p
Agrees-self p = record {
  same_version = refl;
  same_workspace = refl;
  same_module = refl;
  same_total = refl;
  same_assignment = refl;
  same_ref = refl;
  same_mode = refl;
  same_ids = refl;
  same_rejected = refl;
}

same_catalog-lists :
    (first p : Part) {u : Unit {0}}
    → same_catalog first p ≡ ok u
    → (ids first ≡ ids p) × (first.report.rejected ≡ p.report.rejected)
unfolding same_catalog
same_catalog-lists first p e = (
  equal_of-all_equal (ids first) (ids p) (ground arith) (ground arith),
  equal_of-all_equal first.report.rejected p.report.rejected (ground arith) (ground arith),
)

ref_text-named : (ref : Option Bytes) → ref_text ref ≡ ref_named ref
ref_text-named none = refl
ref_text-named (some r) = refl

Agrees-of :
    (first p : Part) {u : Unit {0}}
    → all_equal (comparison first) (comparison p) ≡ true
    → same_catalog first p ≡ ok u
    → Agrees first p
Agrees-of first p h e =
    let (same, rejected) = same_catalog-lists first p e in
    let at : (k : ℕ) → get_elem? (comparison first) k ≡ get_elem? (comparison p) k =
      λ k. ap (λ l. get_elem? l k) (equal_of-all_equal (comparison first) (comparison p) refl h) in
    record {
      same_version = some-inj (at 0);
      same_workspace = some-inj (at 1);
      same_module = some-inj (at 2);
      same_total = itoa-injective _ _ (some-inj (at 3));
      same_assignment = some-inj (at 4);
      same_ref =
          sym (ref_text-named first.report.selection.changed_ref)
          ∙ (some-inj (at 5) ∙ ref_text-named p.report.selection.changed_ref);
      same_mode = some-inj (at 6);
      same_ids = same;
      same_rejected = rejected;
    }

all_three :
    (t : Bool) (e : MergeError) (m k : Checks MergeError (Unit {0})) {u : Unit {0}}
    → (guard t e >> (m >> k)) ≡ ok u
    → (t ≡ true) × (m ≡ ok tt) × (k ≡ ok tt)
all_three true e (ok x) (ok y) h = (refl, refl, refl)
all_three true e (ok x) (err f) h = absurd (cc)
all_three true e (err f) k h = absurd (cc)
all_three false e m k h = absurd (cc)

congruent-step :
    (first p : Part) (ps : List Part) {u : Unit {0}}
    → congruent first (p ∷ ps) ≡ ok u
    → (all_equal (comparison first) (comparison p) ≡ true)
      × (same_catalog first p ≡ ok tt)
      × (congruent first ps ≡ ok tt)
unfolding congruent
congruent-step first p ps e = all_three _ _ _ _ e

pub congruent-Agrees :
    (first : Part) (ps : List Part) {u : Unit {0}}
    → congruent first ps ≡ ok u
    → All (Agrees first) ps
congruent-Agrees first [] e = tt
congruent-Agrees first (p ∷ ps) e =
    let (compared, catalog, rest) = congruent-step first p ps e in
    (Agrees-of first p compared catalog, congruent-Agrees first ps rest)
