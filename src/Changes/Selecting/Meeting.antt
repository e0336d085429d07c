-- ===== src/Changes/Selecting/Meeting.antt =====
-- What a selection selects, in terms of the paths and ranges as they were given.
use go_mutants.Prelude.{
  ◌≡◌, refl, sym, ap, ◌∙◌, inl, inr, Bool, true, false, Bool-cases, ◌||◌, Option, some, List, [],
  ◌∷◌, ◌++◌, append-nil, append_assoc, Bytes, ltb, str_eq, str_eq→≡, All, All-append, arith,
}
use go_mutants.Prelude.Maps.{Map, put, get_list}
use go_mutants.Prelude.Text.{clean_relative}
use go_mutants.Prelude.Fields.{is_empty}
use go_mutants.Prelude.Sorting.{sort_by}
use go_mutants.Prelude.Checks.{ok, ◌>>=◌, bind-ok, ok_eq}
use go_mutants.Changes.{Range, max, min, merge, touches}
use go_mutants.Changes.Touching.{Proper, meets, touches-merge}
use go_mutants.Changes.Selecting.{
  selection_path, check_line_range, append_ranges, clean_paths, merge_lines, sorted_paths,
  normalise_selection, Mutant, select_mutant,
}

abbrev when : Bool → List Range → List Range
when true rs = rs
when false rs = []

-- The ranges of the given paths that stand for a path.
abbrev pub given_for : Bytes → Map (List Range) → List Bytes → List Range
given_for path selected [] = []
given_for path selected (raw ∷ raws) =
    when (str_eq (clean_relative raw) path) (get_list raw selected) ++ given_for path selected raws

selection_path-clean :
    (raw cleaned : Bytes) → selection_path raw ≡ ok cleaned → clean_relative raw ≡ cleaned
unfolding selection_path
selection_path-clean raw cleaned e = ground arith

check_line_range-Proper :
    (raw : Bytes) (r : Range) {u : Unit {0}} → check_line_range raw r ≡ ok u → Proper r
unfolding check_line_range
check_line_range-Proper raw r e = ground arith

when-nil : (b : Bool) → when b [] ≡ []
when-nil true = refl
when-nil false = refl

put_range :
    (cleaned path : Bytes) (r : Range) (rs : List Range) (lines : Map (List Range))
    → get_list path (put cleaned (get_list cleaned lines ++ r ∷ []) lines)
        ++ when (str_eq cleaned path) rs
      ≡ get_list path lines ++ when (str_eq cleaned path) (r ∷ rs)
put_range cleaned path r rs lines = elim (Bool-cases (str_eq cleaned path)) [
  | inr f ↦ rw (f, get_list) refl
  | inl t ↦
      rw (t, get_list)
        (ap (λ (k : Bytes). (get_list k lines ++ r ∷ []) ++ rs) (str_eq→≡ cleaned path t)
          ∙ append_assoc (get_list path lines) (r ∷ []) rs)
]

append_ranges-get :
    (raw cleaned path : Bytes) (rs : List Range) (lines lines' : Map (List Range))
    → append_ranges raw cleaned rs lines ≡ ok lines'
    → (get_list path lines' ≡ get_list path lines ++ when (str_eq cleaned path) rs) × All Proper rs
unfolding append_ranges
append_ranges-get raw cleaned path [] lines lines' e = (
  ap (get_list path) (sym (ok_eq e))
      ∙ sym (ap (λ l. get_list path lines ++ l) (when-nil (str_eq cleaned path)) ∙ append-nil _),
  tt,
)
append_ranges-get raw cleaned path (r ∷ rs) lines lines' e =
    let (u, fine, rest) =
      bind-ok (check_line_range raw r)
        (λ _. append_ranges raw cleaned rs (put cleaned (get_list cleaned lines ++ r ∷ []) lines))
        e in
    let (same, proper) = append_ranges-get raw cleaned path rs _ lines' rest in
    (same ∙ put_range cleaned path r rs lines, (check_line_range-Proper raw r fine, proper))

when-All : (b : Bool) (rs : List Range) → All Proper rs → All Proper (when b rs)
when-All true rs p = p
when-All false rs p = tt

clean_paths-get :
    (selected : Map (List Range)) (path : Bytes) (raws : List Bytes)
    (lines lines' : Map (List Range))
    → clean_paths selected raws lines ≡ ok lines'
    → (get_list path lines' ≡ get_list path lines ++ given_for path selected raws)
      × All Proper (given_for path selected raws)
unfolding clean_paths
clean_paths-get selected path [] lines lines' e =
    (ap (get_list path) (sym (ok_eq e)) ∙ sym (append-nil _), tt)
clean_paths-get selected path (raw ∷ raws) lines lines' e =
    let (cleaned, known, e1) =
      bind-ok (selection_path raw)
        (λ c.
          append_ranges raw c (get_list raw selected) lines >>= λ l. clean_paths selected raws l)
        e in
    let (next, appended, rest) =
      bind-ok (append_ranges raw cleaned (get_list raw selected) lines)
        (λ l. clean_paths selected raws l) e1 in
    let (here, proper) =
      append_ranges-get raw cleaned path (get_list raw selected) lines next appended in
    let (there, others) = clean_paths-get selected path raws next lines' rest in
    let same = selection_path-clean raw cleaned known in
    (
      there
          ∙ ap (λ l. l ++ given_for path selected raws) here
          ∙ append_assoc (get_list path lines) _ _
          ∙ ap
              (λ (c : Bytes).
                get_list path lines
                ++ (when (str_eq c path) (get_list raw selected) ++ given_for path selected raws))
              (sym same),
      All-append Proper (when (str_eq (clean_relative raw) path) (get_list raw selected))
          (given_for path selected raws) (when-All _ _ proper) others,
    )

merge-nil : merge [] ≡ []
unfolding merge sort_by
merge-nil = refl

get_list-merge_lines :
    (path : Bytes) (lines : Map (List Range))
    → get_list path (merge_lines lines) ≡ merge (get_list path lines)
get_list-merge_lines path [] = sym merge-nil
get_list-merge_lines path ((k, rs) ∷ lines) = elim (Bool-cases (str_eq k path)) [
  | inl t ↦ rw (t, get_list) refl
  | inr f ↦ rw (f, get_list) (get_list-merge_lines path lines)
]

-- A normalised selection selects a mutant exactly if it has no place, or if one of the ranges that
-- were given for its file, under whatever spelling of the path, has a line of it.
pub normalise_selection-Selects :
    (selected : Map (List Range)) (out : Option (Map (List Range))) (m : Mutant)
    → normalise_selection (some selected) ≡ ok out
    → (select_mutant out m).selected ≡ (
        is_empty m.path
        || (ltb m.line 1
            || meets
                (min m.line m.end_line)
                (max m.line m.end_line)
                (given_for m.path selected (sorted_paths selected))))
unfolding normalise_selection select_mutant
normalise_selection-Selects selected out m e =
    let (lines, cleaned, result) =
      bind-ok (clean_paths selected (sorted_paths selected) []) (λ l. ok (some (merge_lines l)))
        e in
    let (given, proper) =
      clean_paths-get selected m.path (sorted_paths selected) [] lines cleaned in
    ap (λ (o : Option (Map (List Range))). (select_mutant o m).selected) (sym (ok_eq result))
    ∙ ap (λ (t : Bool). is_empty m.path || (ltb m.line 1 || t))
        (ap (λ (rs : List Range). touches rs m.line m.end_line)
            (get_list-merge_lines m.path lines ∙ ap merge given)
          ∙ (touches-merge (given_for m.path selected (sorted_paths selected)) m.line m.end_line
              proper).0)
