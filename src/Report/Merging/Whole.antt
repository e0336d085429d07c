-- ===== src/Report/Merging/Whole.antt =====
-- `MergeShards` as a whole.
use go_mutants.Prelude.{
  ℕ, ◌≤◌, ◌≡◌, refl, sym, ◌∙◌, subst, Option, none, some, List, [], ◌∷◌, map, Bytes, get_elem?, All,
  arith,
}
use go_mutants.Prelude.Checks.{Checks, ok, err, ◌>>=◌, ◌>>◌, guard, bind-ok, ok_eq}
use go_mutants.Report.Merging.{
  MergeError, Report, Part, Merged, ids, congruent, complete_set, ownership, merge_rows, span_from,
  build_merged, merged_report, merge_owned, merge_parts, part_of, parts_of, merge_shards, is_run_id,
  tallied,
}
use go_mutants.Report.Merging.Owning.{of_index, complete_set-owner}
use go_mutants.Report.Merging.Agreeing.{Agrees, Agrees-self, congruent-Agrees}
use go_mutants.Report.Merging.Rows.{RowsOf, ownership-Honest, merge_rows-RowsOf}

module _ (sha256 : Bytes → Bytes) where
  -- The parts that a merge was made of: the reports that were given, of one run, one for each of its
  -- shards, and the rows of the result, each from the part that owns its mutant.
  pub record Merges (shards : List (Option Report)) (merged : Merged) : Type 0 where
    pub first : Part
    pub others : List Part
    pub reports : map (λ (p : Part). some p.report) (first ∷ others) ≡ shards
    pub tagged : All (λ (p : Part). p.report.shard ≡ some p.shard) (first ∷ others)
    pub agree : All (Agrees first) (first ∷ others)
    pub each :
        (i : ℕ) → 1 ≤ i → i ≤ merged.shards → (p : Part) × (of_index i (first ∷ others) ≡ p ∷ [])
    pub rows : RowsOf sha256 merged.shards (first ∷ others) 0 (ids first) merged.mutants

  part_of-report :
      (r : Option Report) (p : Part)
      → part_of r ≡ ok p
      → (some p.report ≡ r) × (p.report.shard ≡ some p.shard)
  part_of-report none p e = absurd (cc)
  part_of-report (some r) p e = ground arith

  parts_of-reports :
      (shards : List (Option Report)) (parts : List Part)
      → parts_of shards ≡ ok parts
      → (map (λ (p : Part). some p.report) parts ≡ shards)
        × All (λ (p : Part). p.report.shard ≡ some p.shard) parts
  unfolding parts_of
  parts_of-reports [] parts e =
      subst
        (λ (l : List Part).
          (map (λ (p : Part). some p.report) l ≡ [])
          × All (λ (p : Part). p.report.shard ≡ some p.shard) l)
        (ok_eq e) (refl, tt)
  parts_of-reports (r ∷ rs) parts e =
      let (p, here, e1) = bind-ok (part_of r) (λ q. parts_of rs >>= λ qs. ok (q ∷ qs)) e in
      let (ps, there, e2) = bind-ok (parts_of rs) (λ qs. ok (p ∷ qs)) e1 in
      let (report, tag) = part_of-report r p here in
      let (reports, tags) = parts_of-reports rs ps there in
      subst
        (λ (l : List Part).
          (map (λ (q : Part). some q.report) l ≡ r ∷ rs)
          × All (λ (q : Part). q.report.shard ≡ some q.shard) l)
        (ok_eq e2) (cc, (tag, tags))

  parts-Merges :
      (parse_time : Bytes → Option ℕ) (room : ℕ) (run_id : Bytes) (shards : List (Option Report))
      (first : Part) (others : List Part) (merged : Merged)
      → parts_of shards ≡ ok (first ∷ others)
      → merge_parts sha256 parse_time room run_id first others ≡ ok merged
      → Merges shards merged
  unfolding merge_parts merge_owned build_merged
  parts-Merges parse_time room run_id shards first others merged p e =
      let (x, agreed, e1) =
        bind-ok (congruent first others)
          (λ _.
            complete_set room (first ∷ others) first.shard.total
            >>= merge_owned sha256 parse_time room run_id first others)
          e in
      let (owners, complete, e2) =
        bind-ok (complete_set room (first ∷ others) first.shard.total)
          (merge_owned sha256 parse_time room run_id first others) e1 in
      let (y, owned, e3) =
        bind-ok (ownership sha256 (first ∷ others))
          (λ _.
            merge_rows sha256 owners first.shard.total 0 first.report.mutants
            >>= build_merged sha256 parse_time room run_id first others)
          e2 in
      let (rows, taken, e4) =
        bind-ok (merge_rows sha256 owners first.shard.total 0 first.report.mutants)
          (build_merged sha256 parse_time room run_id first others) e3 in
      let (times, spanned, e5) =
        bind-ok (span_from parse_time 0 0 (first ∷ others))
          (λ t.
            guard (is_run_id run_id) MergeError.invalid_run_id
            >> (tallied rows >> ok (merged_report run_id first others rows t)))
          e4 in
      let (u, named, e6) =
        bind-ok (guard (is_run_id run_id) MergeError.invalid_run_id)
          (λ _. tallied rows >> ok (merged_report run_id first others rows times)) e5 in
      let (v, counted, e7) =
        bind-ok (tallied rows) (λ _. ok (merged_report run_id first others rows times)) e6 in
      let (reports, tagged) = parts_of-reports shards (first ∷ others) p in
      let agree : All (Agrees first) (first ∷ others) =
        (Agrees-self first, congruent-Agrees first others agreed) in
      let (rows', taken', placed) =
        merge_rows-RowsOf sha256 room first others owners complete agree
          (ownership-Honest sha256 (first ∷ others) owned) 0 first.report.mutants
          (λ j m g. subst (λ i. get_elem? first.report.mutants i ≡ some m) (omega arith) g) in
      subst (Merges shards) (ok_eq e7) (record {
        first = first;
        others = others;
        reports = reports;
        tagged = tagged;
        agree = agree;
        each = λ i lo hi.
            let (q, o, sole) =
              complete_set-owner room first.shard.total first others owners complete i lo hi in
            (q, sole);
        rows =
            subst (RowsOf sha256 first.shard.total (first ∷ others) 0 (ids first))
              (ok_eq (sym taken' ∙ taken)) placed;
      })

  of_parts :
      (parse_time : Bytes → Option ℕ) (room : ℕ) (run_id : Bytes) (shards : List (Option Report))
      (merged : Merged) (parts : Checks MergeError (List Part))
      → parts_of shards ≡ parts
      → (parts >>= λ l. elim l [
        | [] ↦ err MergeError.no_shard_reports
        | first ∷ others ↦ merge_parts sha256 parse_time room run_id first others
      ])
        ≡ ok merged
      → Merges shards merged
  of_parts parse_time room run_id shards merged (err f) p e = absurd (cc)
  of_parts parse_time room run_id shards merged (ok []) p e = absurd (cc)
  of_parts parse_time room run_id shards merged (ok (first ∷ others)) p e =
      parts-Merges parse_time room run_id shards first others merged p e

  -- A merge that succeeds was given reports that agree on the program's version, the workspace, the
  -- module, the number of shards, their assignment, the changed ref, the mode of the selection, the
  -- mutants and the rejected mutants, exactly one for each shard. It has for each of those mutants, in
  -- their order, the row of the one report whose shard owns the mutant, which is not a row that leaves
  -- the mutant to another shard.
  pub merge_shards-Merges :
      (parse_time : Bytes → Option ℕ) (room : ℕ) (run_id : Bytes) (shards : List (Option Report))
      (merged : Merged)
      → merge_shards sha256 parse_time room run_id shards ≡ ok merged
      → Merges shards merged
  unfolding merge_shards
  merge_shards-Merges parse_time room run_id shards merged e =
      of_parts parse_time room run_id shards merged (parts_of shards) refl e
