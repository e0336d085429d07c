-- ===== src/Report/Locating.antt =====
-- The line and the column of an offset.
use go_mutants.Prelude.{
  ℕ, zero, suc, ◌+◌, ◌-◌, ◌≤◌, ◌<◌, ◌≡◌, refl, sym, ap, ◌∙◌, inl, inr, Bool, false, Bool-cases,
  none, some, List, [], ◌∷◌, ◌++◌, append-nil, append_assoc, Bytes, leb, ◌==◌, length,
  length-append, take, drop, get_elem?, All, All-map, if◌then◌else◌, arith,
}
use go_mutants.Prelude.Search.{Rises, search_list, first_index, search_list-first_index}
use go_mutants.Instrument.Splice.{count_lines}
use go_mutants.Instrument.Splice.Rewriting.{drop-append_le}
use go_mutants.Report.{
  Position, SourceIndex, starts_from, new_source_index, utf16_units, line_at, start_of, clamp,
  position, offset_at,
}

-- The text after the last line feed, of a text that goes on from `acc`.
abbrev last_line_from : Bytes → Bytes → Bytes
last_line_from acc [] = acc
last_line_from acc (c ∷ s) = last_line_from (if c == 10 then [] else acc ++ c ∷ []) s

abbrev pub last_line : Bytes → Bytes
last_line s = last_line_from [] s

starts_above : (n i : ℕ) (s : Bytes) → n ≤ i → All (λ k. n < k) (starts_from i s)
starts_above n i [] h = tt
starts_above n i (c ∷ s) h = elim (Bool-cases (c == 10)) [
  | inl e ↦ rw e (omega arith, starts_above n (suc i) s (omega arith))
  | inr e ↦ rw e (starts_above n (suc i) s (omega arith))
]

-- Where the line of an offset `n` bytes further starts, if the one of offset `i` starts at `start`.
abbrev line_start : ℕ → ℕ → ℕ → Bytes → ℕ
line_start zero i start s = start
line_start (suc n) i start [] = start
line_start (suc n) i start (c ∷ s) = line_start n (suc i) (if c == 10 then suc i else start) s

abbrev start_at : ℕ → List ℕ → ℕ
start_at i l = elim (get_elem? l i) [ none ↦ 0 | some k ↦ k ]

module _ (offset : ℕ) where
  abbrev past : ℕ → Bool
  past start = leb (suc offset) start

  starts_Rises : (i : ℕ) (s : Bytes) → Rises past (starts_from i s)
  starts_Rises i [] = tt
  starts_Rises i (c ∷ s) = elim (Bool-cases (c == 10)) [
    | inl e ↦ rw e (
      λ h.
          All-map _ _ (starts_from (suc i) s) (λ k q. ground (arith, h, q))
            (starts_above (suc i) (suc i) s (omega arith)),
      starts_Rises (suc i) s,
    )
    | inr e ↦ rw e (starts_Rises (suc i) s)
  ]

  none_before : (l : List ℕ) → All (λ k. offset < k) l → first_index past l ≡ 0
  none_before [] h = refl
  none_before (k ∷ l) h = ground (arith, h.0)

  -- How many lines start up to the offset.
  first_index-starts :
      (n i : ℕ) (s : Bytes)
      → n + i ≡ offset
      → first_index past (starts_from i s) ≡ count_lines (take n s)
  first_index-starts zero i s h =
      none_before (starts_from i s) (starts_above offset i s (omega arith))
  first_index-starts (suc n) i [] h = refl
  first_index-starts (suc n) i (c ∷ s) h = elim (Bool-cases (c == 10)) [
    | inl e ↦ rw e (ground (arith, h, first_index-starts n (suc i) s (omega arith)))
    | inr e ↦ rw e (first_index-starts n (suc i) s (omega arith) ∙ omega arith)
  ]

  later : (i n : ℕ) → suc n + i ≡ offset → past (suc i) ≡ false
  later i n h = ground arith

  start_at-starts :
      (n i start : ℕ) (s : Bytes)
      → n + i ≡ offset
      → start_at (first_index past (starts_from i s)) (start ∷ starts_from i s)
        ≡ line_start n i start s
  start_at-starts zero i start s h =
      rw (none_before (starts_from i s) (starts_above offset i s (omega arith))) refl
  start_at-starts (suc n) i start [] h = refl
  start_at-starts (suc n) i start (c ∷ s) h = elim (Bool-cases (c == 10)) [
    | inl e ↦ rw (e, later i n h) (start_at-starts n (suc i) (suc i) s (omega arith))
    | inr e ↦ rw e (start_at-starts n (suc i) start s (omega arith))
  ]

drop-all : (n : ℕ) (s : Bytes) → length s ≡ n → drop n s ≡ []
drop-all zero [] h = refl
drop-all zero (c ∷ s) h = absurd (omega arith)
drop-all (suc n) [] h = refl
drop-all (suc n) (c ∷ s) h = drop-all n s (omega arith)

drop-line_start :
    (n i start : ℕ) (s pre acc : Bytes)
    → length pre ≡ i
    → start ≤ i
    → drop start pre ≡ acc
    → drop (line_start n i start s) (pre ++ take n s) ≡ last_line_from acc (take n s)
drop-line_start zero i start s pre acc l b d = ap (drop start) (append-nil pre) ∙ d
drop-line_start (suc n) i start [] pre acc l b d = ap (drop start) (append-nil pre) ∙ d
drop-line_start (suc n) i start (c ∷ s) pre acc l b d =
    let pre' = pre ++ c ∷ [] in
    let longer : length pre' ≡ suc i = omega (arith, length-append pre (c ∷ []), l) in
    let same = sym (append_assoc pre (c ∷ []) (take n s)) in
    elim (Bool-cases (c == 10)) [
      | inl e ↦
          rw (e, last_line_from)
            (ap (drop (line_start n (suc i) (suc i) s)) same
              ∙ drop-line_start n (suc i) (suc i) s pre' [] longer (omega arith)
                  (drop-all (suc i) pre' longer))
      | inr e ↦
          rw (e, last_line_from)
            (ap (drop (line_start n (suc i) start s)) same
              ∙ drop-line_start n (suc i) start s pre' (acc ++ c ∷ []) longer (omega arith) (
                  drop-append_le start pre (c ∷ []) (omega (arith, l, b))
                  ∙ ap (λ a. a ++ c ∷ []) d))
    ]

-- The line that the binary search answers, counted from zero, and where it starts.
line_at-count :
    (src : Bytes) (offset : ℕ)
    → (line_at (new_source_index src) offset ≡ count_lines (take offset src))
      × (start_of (new_source_index src) (line_at (new_source_index src) offset)
          ≡ line_start offset 0 0 src)
unfolding line_at
line_at-count src offset =
    let starts = starts_from 0 src in
    let rises : Rises (past offset) (0 ∷ starts) =
      (λ h. absurd (ground (arith, h)), starts_Rises offset 0 src) in
    let found : search_list (past offset) (0 ∷ starts) ≡ suc (first_index (past offset) starts) =
      search_list-first_index (past offset) (0 ∷ starts) rises
      ∙ first_second (first_index (past offset) starts) in
    let line : line_at (new_source_index src) offset ≡ first_index (past offset) starts =
      rw (found, line_at) (one_back (first_index (past offset) starts)) in
    (
      line ∙ first_index-starts offset offset 0 src (omega arith),
      ap (start_of (new_source_index src)) line
          ∙ start_at-starts offset offset 0 0 src (omega arith),
    )
  where
    first_second : (n : ℕ) → (if past offset 0 then 0 else suc n) ≡ suc n
    first_second n = ground arith

    one_back : (n : ℕ) → (if leb (suc n) 0 then 0 else suc n - 1) ≡ n
    one_back n = ground arith

-- The position behind a text: its lines, and the UTF-16 code units of its last line.
abbrev pub position_behind : Bytes → Position
position_behind before = record {
  line = count_lines before + 1;
  column = 1 + utf16_units (last_line before);
}

-- The position of an offset has one more than the line feeds in front of it as its line, and one more
-- than the UTF-16 code units after the last of them as its column; that of an offset behind the text
-- is the position of the text's end.
pub position-Counts :
    (src : Bytes) (offset : ℕ)
    → position (new_source_index src) offset
      ≡ position_behind (take (clamp offset (length src)) src)
unfolding position
position-Counts src offset =
    let at = clamp offset (length src) in
    let found = line_at-count src at in
    λ i. record {
      line = found.0 i + 1;
      column =
          1
          + utf16_units (
              (ap (λ k. drop k (take at src)) found.1
                  ∙ drop-line_start at 0 0 src [] [] refl (omega arith) refl)
                i);
    }

line_start-within : (n i start : ℕ) (s : Bytes) → start ≤ i → line_start n i start s ≤ n + i
line_start-within zero i start s h = omega arith
line_start-within (suc n) i start [] h = omega arith
line_start-within (suc n) i start (c ∷ s) h = elim (Bool-cases (c == 10)) [
  | inl e ↦ rw e (omega (arith, line_start-within n (suc i) (suc i) s (omega arith)))
  | inr e ↦ rw e (omega (arith, line_start-within n (suc i) start s (omega arith)))
]

first_index-within : (p : ℕ → Bool) (l : List ℕ) → first_index p l ≤ length l
first_index-within p [] = omega arith
first_index-within p (k ∷ l) = ground (arith, first_index-within p l)

chosen_line :
    (size line : ℕ)
    → line < size
    → (if leb size (line + 1 - 1) then size - 1 else line + 1 - 1) ≡ line
chosen_line size line h = ground arith

clamp_back :
    (start offset size : ℕ)
    → start ≤ offset
    → offset ≤ size
    → clamp (start + (offset - start + 1 - 1)) size ≡ offset
clamp_back start offset size h k = ground arith

offset_at-back :
    (x : SourceIndex) (line offset : ℕ)
    → line < length x.line_starts
    → start_of x line ≤ offset
    → offset ≤ length x.src
    → offset_at x (line + 1) (offset - start_of x line + 1) ≡ offset
unfolding offset_at
offset_at-back x line offset h k l =
    ap (λ k. clamp (start_of x k + (offset - start_of x line + 1 - 1)) (length x.src))
      (chosen_line (length x.line_starts) line h)
    ∙ clamp_back (start_of x line) offset (length x.src) k l

-- An offset in the text comes back from its line, counted from one, and its column in bytes.
pub offset_at-line_at :
    (src : Bytes) (offset : ℕ)
    → offset ≤ length src
    → (let x = new_source_index src in
        offset_at x (line_at x offset + 1) (offset - start_of x (line_at x offset) + 1) ≡ offset)
offset_at-line_at src offset h =
    let x = new_source_index src in
    let found = line_at-count src offset in
    let start : start_of x (line_at x offset) ≤ offset =
      omega (arith, found.1, line_start-within offset 0 0 src (omega arith)) in
    let lines : line_at x offset < length x.line_starts = omega (
      arith,
      found.0,
      first_index-starts offset offset 0 src (omega arith),
      first_index-within (past offset) (starts_from 0 src),
    ) in
    offset_at-back x (line_at x offset) offset lines start h
