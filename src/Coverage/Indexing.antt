-- ===== src/Coverage/Indexing.antt =====
-- The index of a profile: the intervals that it holds for a file.
use go_mutants.Prelude.{
  ℕ, ◌≤◌, ◌<◌, ◌≡◌, refl, sym, ap, ◌∙◌, inl, inr, Bool, true, false, not, Bool-cases, ◌&&◌, none,
  Option-cases, List, [], ◌∷◌, ◌++◌, append-nil, append_assoc, Bytes, str_eq, str_eq→≡, leb, any,
  if◌then◌else◌, All,
}
use go_mutants.Prelude.Maps.{get, put, get_list}
use go_mutants.Changes.Touching.{Proper, meets}
use go_mutants.Coverage.Overlapping.{Ends, overlaps-meets}
use go_mutants.Coverage.{
  Block, Profile, is_covered, Interval, FileIndex, merge, overlaps, covers, covered_interval,
  place_block, index_blocks, merge_all, new_file_index, max_int,
}

-- The block is of the file, and ran.
abbrev pub counts_for : Bytes → Block → Bool
counts_for path b = not (str_eq b.file []) && (str_eq b.file path && is_covered b)

abbrev intervals_of : Bytes → List Block → List Interval
intervals_of path [] = []
intervals_of path (b ∷ bs) =
    (if counts_for path b then covered_interval b ∷ [] else []) ++ intervals_of path bs

-- A block of the profile that ran, of the file, has one of the lines.
abbrev pub reaches : Profile → Bytes → ℕ → ℕ → Bool
reaches p path start end =
    any (λ b. counts_for path b && (leb b.start_line end && leb start b.end_line)) p.blocks

-- The block does not end before it starts, as `ParseTextfmt` checks, nor on the line of the largest
-- int, which it lets pass.
abbrev pub InLine : Block → Type 0
InLine b = (b.start_line ≤ b.end_line) × (b.end_line < max_int)

pub get_list-put :
    (path file : Bytes) (is : List Interval) (index : FileIndex)
    → get_list path (put file is index) ≡ (if str_eq file path then is else get_list path index)
get_list-put path file is index = elim (Bool-cases (str_eq file path)) [
  | inl e ↦ rw (e, get_list) refl
  | inr e ↦ rw (e, get_list) refl
]

get_list-none :
    (path file : Bytes) (index : FileIndex)
    → get file index ≡ none
    → str_eq file path ≡ true
    → get_list path index ≡ []
get_list-none path file index g e =
    sym (ap (λ k. get_list k index) (str_eq→≡ file path e)) ∙ rw (g, get_list) refl

-- What a block adds to the intervals of a file.
get_list-place_block :
    (path : Bytes) (b : Block) (index : FileIndex)
    → str_eq b.file [] ≡ false
    → get_list path (place_block b index)
      ≡ get_list path index ++ (if counts_for path b then covered_interval b ∷ [] else [])
get_list-place_block path b index named = elim (Bool-cases (is_covered b)) [
  | inl c ↦ elim (Bool-cases (str_eq b.file path)) [
    | inl e ↦
        rw (c, named, e)
          (get_list-put path b.file _ index
            ∙ rw e (ap (λ k. get_list k index ++ covered_interval b ∷ []) (str_eq→≡ b.file path e)))
    | inr e ↦
        rw (c, named, e)
          (get_list-put path b.file _ index ∙ rw e (sym (append-nil (get_list path index))))
  ]
  | inr c ↦ elim (Option-cases (get b.file index)) [
    | inr (is, g) ↦ rw (c, g) (nothing_more (get_list path index))
    | inl g ↦ elim (Bool-cases (str_eq b.file path)) [
      | inl e ↦
          rw (c, g)
            (get_list-put path b.file [] index
              ∙ rw (e, named)
                  (sym (append-nil (get_list path index) ∙ get_list-none path b.file index g e)))
      | inr e ↦
          rw (c, g)
            (get_list-put path b.file [] index
              ∙ rw (e, named) (sym (append-nil (get_list path index))))
    ]
  ]
]
  where
    nothing_more :
        (is : List Interval)
        → is
          ≡ is
            ++ (if not (str_eq b.file []) && (str_eq b.file path && false)
                then covered_interval b ∷ []
                else [])
    nothing_more is = rw named (elim (Bool-cases (str_eq b.file path)) [
      | inl e ↦ rw e (sym (append-nil is))
      | inr e ↦ rw e (sym (append-nil is))
    ])

get_list-index_blocks :
    (modules : List Bytes) (path : Bytes) (bs : List Block) (index : FileIndex)
    (matched : List Bytes)
    → get_list path (index_blocks modules bs (index, matched)).0
      ≡ get_list path index ++ intervals_of path bs
unfolding index_blocks
get_list-index_blocks modules path [] index matched = sym (append-nil (get_list path index))
get_list-index_blocks modules path (b ∷ bs) index matched = elim (Bool-cases (str_eq b.file [])) [
  | inl e ↦ rw (e, index_blocks) (get_list-index_blocks modules path bs index matched)
  | inr e ↦
      rw (e, index_blocks)
        (get_list-index_blocks modules path bs (place_block b index) _
          ∙ (ap (λ is. is ++ intervals_of path bs) (get_list-place_block path b index e)
              ∙ rw e (append_assoc (get_list path index) _ (intervals_of path bs))))
]

get_list-merge_all :
    (path : Bytes) (index : FileIndex)
    → get_list path (merge_all index) ≡ merge (get_list path index)
unfolding merge
get_list-merge_all path [] = refl
get_list-merge_all path ((file, is) ∷ index) = elim (Bool-cases (str_eq file path)) [
  | inl e ↦ rw (e, get_list) refl
  | inr e ↦ rw (e, get_list) (get_list-merge_all path index)
]

meets-intervals_of :
    (path : Bytes) (start end : ℕ) (bs : List Block)
    → meets start end (intervals_of path bs)
      ≡ any (λ b. counts_for path b && (leb b.start_line end && leb start b.end_line)) bs
meets-intervals_of path start end [] = refl
meets-intervals_of path start end (b ∷ bs) = elim (Bool-cases (counts_for path b)) [
  | inl e ↦ rw e (
      ap (λ t. if leb b.start_line end && leb start b.end_line then true else t)
        (meets-intervals_of path start end bs))
  | inr e ↦ rw e (meets-intervals_of path start end bs)
]

intervals_of-Proper :
    (path : Bytes) (bs : List Block) → All InLine bs → All Proper (intervals_of path bs)
intervals_of-Proper path [] h = tt
intervals_of-Proper path (b ∷ bs) h = elim (Bool-cases (counts_for path b)) [
  | inl e ↦ rw e (h.0.0, intervals_of-Proper path bs h.1)
  | inr e ↦ rw e (intervals_of-Proper path bs h.1)
]

intervals_of-Ends :
    (path : Bytes) (bs : List Block) → All InLine bs → All Ends (intervals_of path bs)
intervals_of-Ends path [] h = tt
intervals_of-Ends path (b ∷ bs) h = elim (Bool-cases (counts_for path b)) [
  | inl e ↦ rw e (h.0.1, intervals_of-Ends path bs h.1)
  | inr e ↦ rw e (intervals_of-Ends path bs h.1)
]

-- An index answers for a file and a range of lines whether a block of the profile that ran, of that
-- file, has one of the lines, as long as the blocks are in line.
pub covers-new_file_index :
    (p : Profile) (modules matched : List Bytes) (path : Bytes) (start end : ℕ)
    → All InLine p.blocks
    → start ≤ end
    → covers (new_file_index p modules matched).0 path start end ≡ reaches p path start end
unfolding covers new_file_index
covers-new_file_index p modules matched path start end h order =
    let merged = get_list-merge_all path (index_blocks modules p.blocks ([], matched)).0 in
    let held = get_list-index_blocks modules path p.blocks [] matched in
    ap (λ is. overlaps is start end) (merged ∙ ap merge held)
    ∙ (overlaps-meets (intervals_of path p.blocks) start end order
          (intervals_of-Proper path p.blocks h) (intervals_of-Ends path p.blocks h)
        ∙ meets-intervals_of path start end p.blocks)
