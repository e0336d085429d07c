-- ===== src/Report/Merging/Calm.antt =====
-- When `MergeShards` takes no report or a row that is not there.
use go_mutants.Prelude.{
  ℕ, ◌≤◌, ◌≡◌, ◌≢◌, refl, ◌∙◌, subst, Bool, true, false, Option, none, some, List, [], ◌∷◌, Bytes,
  get_elem?, All, arith,
}
use go_mutants.Prelude.Checks.{Checks, ok, err, ◌>>=◌, ◌>>◌, guard, bind-ok, ok_eq}
use go_mutants.Report.Merging.{
  MergeError, Shard, Mutant, Report, Part, Owners, congruent, same_catalog, collect, complete_set,
  ownership, owns_row, owns_rows, span_from, build_merged, merge_owned, merge_parts, part_of,
  parts_of, merge_shards, tallied,
}
use go_mutants.Report.Merging.Agreeing.{Agrees, Agrees-self, congruent-Agrees}
use go_mutants.Report.Merging.Rows.{ownership-Honest, merge_rows-RowsOf}

-- Ends by no panic.
abbrev pub IsCalm {ℓ} : {A : Type ℓ} → Checks MergeError A → Type ℓ
IsCalm c = c ≢ err MergeError.panicked

guarded-IsCalm :
    (t : Bool) (e : MergeError) (m k : Checks MergeError (Unit {0}))
    → e ≢ MergeError.panicked
    → IsCalm m
    → IsCalm k
    → IsCalm (guard t e >> (m >> k))
guarded-IsCalm true e (ok x) k h i j q = j q
guarded-IsCalm true e (err f) k h i j q = i q
guarded-IsCalm false e m k h i j q = h (cc)

same_catalog-IsCalm : (first p : Part) → IsCalm (same_catalog first p)
unfolding same_catalog
same_catalog-IsCalm first p e = ground arith

congruent-IsCalm : (first : Part) (ps : List Part) → IsCalm (congruent first ps)
unfolding congruent
congruent-IsCalm first [] e = absurd (cc)
congruent-IsCalm first (p ∷ ps) e =
    guarded-IsCalm _ _ _ _ (λ k. absurd (cc)) (same_catalog-IsCalm first p)
      (congruent-IsCalm first ps) e

collect-IsCalm : (total : ℕ) (owners : Owners) (ps : List Part) → IsCalm (collect total owners ps)
unfolding collect
collect-IsCalm total owners [] e = absurd (cc)
collect-IsCalm total owners (p ∷ ps) e =
    ground (arith, collect-IsCalm total ((p.shard.index, p) ∷ owners) ps)

complete_set-IsCalm :
    (room : ℕ) (ps : List Part) (total : ℕ) → total ≤ room → IsCalm (complete_set room ps total)
unfolding complete_set
complete_set-IsCalm room ps total h e = ground (arith, collect-IsCalm total [] ps)

tallied-IsCalm : (ms : List Mutant) → IsCalm (tallied ms)
unfolding tallied
tallied-IsCalm [] e = absurd (cc)
tallied-IsCalm (m ∷ ms) e = ground (arith, tallied-IsCalm ms)

module _ (sha256 : Bytes → Bytes) where
  owns_row-IsCalm : (s : Shard) (m : Mutant) → IsCalm (owns_row sha256 s m)
  unfolding owns_row
  owns_row-IsCalm s m e = ground arith

  owns_rows-IsCalm : (s : Shard) (ms : List Mutant) → IsCalm (owns_rows sha256 s ms)
  unfolding owns_rows
  owns_rows-IsCalm s [] e = absurd (cc)
  owns_rows-IsCalm s (m ∷ ms) e = ground (arith, owns_row-IsCalm s m, owns_rows-IsCalm s ms)

  ownership-IsCalm : (ps : List Part) → IsCalm (ownership sha256 ps)
  unfolding ownership
  ownership-IsCalm [] e = absurd (cc)
  ownership-IsCalm (p ∷ ps) e =
      ground (arith, owns_rows-IsCalm p.shard p.report.mutants, ownership-IsCalm ps)

part_of-IsCalm : (r : Option Report) → IsCalm (part_of r)
part_of-IsCalm r e = ground arith

parts_of-IsCalm : (rs : List (Option Report)) → IsCalm (parts_of rs)
unfolding parts_of
parts_of-IsCalm [] e = absurd (cc)
parts_of-IsCalm (r ∷ rs) e = ground (arith, part_of-IsCalm r, parts_of-IsCalm rs)

span_from-IsCalm :
    (parse_time : Bytes → Option ℕ) (started finished : ℕ) (ps : List Part)
    → IsCalm (span_from parse_time started finished ps)
unfolding span_from
span_from-IsCalm parse_time started finished [] e = absurd (cc)
span_from-IsCalm parse_time started finished (p ∷ ps) e =
    grind (arith, λ (a b : ℕ). span_from-IsCalm parse_time a b ps)

module _ (sha256 : Bytes → Bytes) (parse_time : Bytes → Option ℕ) (room : ℕ) (run_id : Bytes)
    (first : Part) (others : List Part) where
  build_merged-IsCalm :
      (rows : List Mutant) → IsCalm (build_merged sha256 parse_time room run_id first others rows)
  unfolding build_merged
  build_merged-IsCalm rows e =
      ground (arith, span_from-IsCalm parse_time 0 0 (first ∷ others), tallied-IsCalm rows)

  -- Where the rows of all parts are as they should be, the merge finds each row that it takes.
  merge_owned-IsCalm :
      (owners : Owners)
      → complete_set room (first ∷ others) first.shard.total ≡ ok owners
      → All (Agrees first) (first ∷ others)
      → (c : Checks MergeError (Unit {0})) → ownership sha256 (first ∷ others) ≡ c
      → IsCalm (merge_owned sha256 parse_time room run_id first others owners)
  unfolding merge_owned
  merge_owned-IsCalm owners complete agree (err f) o e =
      ground (arith, ownership-IsCalm sha256 (first ∷ others))
  merge_owned-IsCalm owners complete agree (ok x) o e =
      let (rows, taken, placed) =
        merge_rows-RowsOf sha256 room first others owners complete agree
          (ownership-Honest sha256 (first ∷ others) o) 0 first.report.mutants
          (λ j m g. subst (λ i. get_elem? first.report.mutants i ≡ some m) (omega arith) g) in
      ground (arith, build_merged-IsCalm rows)

  merge_parts-IsCalm :
      (c : Checks MergeError (Unit {0})) (d : Checks MergeError Owners)
      → congruent first others ≡ c
      → complete_set room (first ∷ others) first.shard.total ≡ d
      → first.shard.total ≤ room
      → IsCalm (merge_parts sha256 parse_time room run_id first others)
  unfolding merge_parts
  merge_parts-IsCalm (err f) d g h fits e = ground (arith, congruent-IsCalm first others)
  merge_parts-IsCalm (ok x) (err f) g h fits e =
      ground (arith, complete_set-IsCalm room (first ∷ others) first.shard.total fits)
  merge_parts-IsCalm (ok x) (ok owners) g h fits e =
      let calm =
        merge_owned-IsCalm owners h (Agrees-self first, congruent-Agrees first others g)
          (ownership sha256 (first ∷ others)) refl in
      ground (arith, calm)

-- The number of shards that the report names is one that `make` takes.
abbrev pub FitsRoom : ℕ → Option Report → Type 0
FitsRoom room none = Unit
FitsRoom room (some r) = elim r.shard [ none ↦ Unit {0} | some s ↦ s.total ≤ room ]

part_of-FitsRoom :
    (room : ℕ) (r : Option Report) (p : Part)
    → FitsRoom room r
    → part_of r ≡ ok p
    → p.shard.total ≤ room
part_of-FitsRoom room none p h e = absurd (cc)
part_of-FitsRoom room (some r) p h e = ground arith

parts_of-FitsRoom :
    (room : ℕ) (shards : List (Option Report)) (first : Part) (others : List Part)
    → All (FitsRoom room) shards
    → parts_of shards ≡ ok (first ∷ others)
    → first.shard.total ≤ room
unfolding parts_of
parts_of-FitsRoom room [] first others h e = absurd (cc (ok_eq e))
parts_of-FitsRoom room (r ∷ rs) first others h e =
    let (p, here, e₁) = bind-ok (part_of r) (λ q. parts_of rs >>= λ qs. ok (q ∷ qs)) e in
    let (ps, there, e₂) = bind-ok (parts_of rs) (λ qs. ok (p ∷ qs)) e₁ in
    let fits = part_of-FitsRoom room r p h.0 here in
    let same : p ≡ first = cc (ok_eq e₂) in subst (λ (q : Part). q.shard.total ≤ room) same fits

of_parts-IsCalm :
    (sha256 : Bytes → Bytes) (parse_time : Bytes → Option ℕ) (room : ℕ) (run_id : Bytes)
    (shards : List (Option Report)) (parts : Checks MergeError (List Part))
    → parts_of shards ≡ parts
    → All (FitsRoom room) shards
    → IsCalm (
        parts >>= λ l. elim l [
          | [] ↦ err MergeError.no_shard_reports
          | first ∷ others ↦ merge_parts sha256 parse_time room run_id first others
        ])
of_parts-IsCalm sha256 parse_time room run_id shards (err f) p h e =
    parts_of-IsCalm shards (p ∙ cc e)
of_parts-IsCalm sha256 parse_time room run_id shards (ok []) p h e = absurd (cc)
of_parts-IsCalm sha256 parse_time room run_id shards (ok (first ∷ others)) p h e =
    merge_parts-IsCalm sha256 parse_time room run_id first others (congruent first others)
      (complete_set room (first ∷ others) first.shard.total) refl refl
      (parts_of-FitsRoom room shards first others h p) e

-- If no report names more shards than a slice of strings can have room for, the merge ends by its
-- result or by an error that it names: it never takes a report from under an index that has none, nor
-- a row that is not there.
pub merge_shards-IsCalm :
    (sha256 : Bytes → Bytes) (parse_time : Bytes → Option ℕ) (room : ℕ) (run_id : Bytes)
    (shards : List (Option Report))
    → All (FitsRoom room) shards
    → IsCalm (merge_shards sha256 parse_time room run_id shards)
unfolding merge_shards
merge_shards-IsCalm sha256 parse_time room run_id shards h =
    of_parts-IsCalm sha256 parse_time room run_id shards (parts_of shards) refl h
