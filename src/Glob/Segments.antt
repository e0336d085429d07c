-- ===== src/Glob/Segments.antt =====
-- `Match` decides an inductive relation on the segments of a path.
use go_mutants.Prelude.{
  ◌≡◌, ◌≢◌, ◌↔◌, refl, ◌⊎◌, inl, inr, Bool, true, false, List, [], ◌∷◌, Bytes, str_eq_iff,
  Bool-cases, any,
}
use go_mutants.Prelude.Split.{split}
use go_mutants.Glob.{
  Element, literal, wildcard, double_star, Pattern, slash, is_empty, match_element, first_cell,
  double_row, single_row, element_row, end_row, rows, match,
}
use go_mutants.Glob.Wildcard.{Wild, match_wildcard_iff, Says, via, Says-or, Says-and}

-- An element other than `**` matches one segment.
abbrev pub One : Element → Bytes → Type 0
One (literal text) segment = text ≡ segment
One (wildcard text) segment = Wild text segment
One double_star segment = ⊥

-- The elements cover the segments: `**` any number of them, any other element one.
pub data Covers : List Element → List Bytes → Type 0 where
  done : Covers [] []
  one :
      {e : Element} {es : List Element} {s : Bytes} {ss : List Bytes}
      → One e s
      → Covers es ss
      → Covers (e ∷ es) (s ∷ ss)
  none : {es : List Element} {ss : List Bytes} → Covers es ss → Covers (double_star ∷ es) ss
  more :
      {es : List Element} {s : Bytes} {ss : List Bytes}
      → Covers (double_star ∷ es) ss
      → Covers (double_star ∷ es) (s ∷ ss)

match_element-Says :
    (e : Element) (s : Bytes) → e ≢ double_star → Says (match_element e s) (One e s)
unfolding match_element
match_element-Says (literal text) s n = str_eq_iff text s
match_element-Says (wildcard text) s n = match_wildcard_iff text s
match_element-Says double_star s n = absurd (n refl)

-- The cells of a row behind its first one answer for the proper suffixes of the segments.
abbrev TailSays : List Element → List Bool → List Bytes → Type 0
TailSays es [] [] = Unit
TailSays es (c ∷ row) (s ∷ ss) = Says c (Covers es ss) × TailSays es row ss
TailSays es _ _ = ⊥

abbrev RowSays : List Element → List Bool → List Bytes → Type 0
RowSays es [] ss = ⊥
RowSays es (c ∷ row) ss = Says c (Covers es ss) × TailSays es row ss

RowSays-tail :
    (es : List Element) (row : List Bool) (s : Bytes) (ss : List Bytes)
    → RowSays es row ss
    → TailSays es row (s ∷ ss)
RowSays-tail es [] s ss h = absurd h
RowSays-tail es (c ∷ row) s ss h = h

Tail-row :
    (es : List Element) (row : List Bool) (s : Bytes) (ss : List Bytes)
    → TailSays es row (s ∷ ss)
    → RowSays es row ss
Tail-row es [] s ss h = absurd h
Tail-row es (c ∷ row) s ss h = h

first_cell-Says :
    (es : List Element) (row : List Bool) (ss : List Bytes)
    → RowSays es row ss
    → Says (first_cell row) (Covers es ss)
first_cell-Says es [] ss h = absurd h
first_cell-Says es (c ∷ row) ss h = h.0

end_row-RowSays : (ss : List Bytes) → RowSays [] (end_row ss) ss
end_row-RowSays [] = ((λ e. done, λ h. refl), tt)
end_row-RowSays (s ∷ ss) =
    ((λ e. cc, λ h. elim h [ ]), RowSays-tail [] (end_row ss) s ss (end_row-RowSays ss))

Covers-star_end : (es : List Element) → Covers (double_star ∷ es) [] ↔ Covers es []
Covers-star_end es = (split_end, none)
  where
    split_end : Covers (double_star ∷ es) [] → Covers es []
    split_end (none h) = h

Covers-star :
    (es : List Element) (s : Bytes) (ss : List Bytes)
    → Covers (double_star ∷ es) (s ∷ ss) ↔ (Covers es (s ∷ ss) ⊎ Covers (double_star ∷ es) ss)
Covers-star es s ss = (split_star, λ c. elim c [ inl h ↦ none h | inr h ↦ more h ])
  where
    split_star :
        Covers (double_star ∷ es) (s ∷ ss) → Covers es (s ∷ ss) ⊎ Covers (double_star ∷ es) ss
    split_star (none h) = inl h
    split_star (more h) = inr h
    split_star (one h k) = absurd h

Covers-One_inv :
    {e : Element} {es : List Element} {s : Bytes} {ss : List Bytes}
    → e ≢ double_star
    → Covers (e ∷ es) (s ∷ ss)
    → Covers es ss × One e s
Covers-One_inv n (one h k) = (k, h)
Covers-One_inv n (none h) = absurd (n refl)
Covers-One_inv n (more h) = absurd (n refl)

Covers-One :
    (e : Element) (es : List Element) (s : Bytes) (ss : List Bytes)
    → e ≢ double_star
    → Covers (e ∷ es) (s ∷ ss) ↔ (Covers es ss × One e s)
Covers-One e es s ss n = (Covers-One_inv n, λ h. one h.1 h.0)

Covers-One_end : (e : Element) (es : List Element) → e ≢ double_star → ¬ (Covers (e ∷ es) [])
Covers-One_end e es n (none h) = n refl

double_row-RowSays :
    (es : List Element) (row : List Bool) (ss : List Bytes)
    → RowSays es row ss
    → RowSays (double_star ∷ es) (double_row row) ss
unfolding double_row
double_row-RowSays es [] ss h = absurd h
double_row-RowSays es (c ∷ []) [] h = (via (Covers-star_end es) h.0, tt)
double_row-RowSays es (c ∷ []) (s ∷ ss) h = absurd h.1
double_row-RowSays es (c ∷ d ∷ row) [] h = absurd h.1
double_row-RowSays es (c ∷ d ∷ row) (s ∷ ss) h =
    let rest = double_row-RowSays es (d ∷ row) ss h.1 in
    (
      via (Covers-star es s ss)
          (Says-or h.0 (first_cell-Says (double_star ∷ es) (double_row (d ∷ row)) ss rest)),
      RowSays-tail (double_star ∷ es) (double_row (d ∷ row)) s ss rest,
    )

single_row-RowSays :
    (e : Element) (es : List Element) (row : List Bool) (ss : List Bytes)
    → e ≢ double_star
    → RowSays es row ss
    → RowSays (e ∷ es) (single_row e ss row) ss
unfolding single_row
single_row-RowSays e es [] ss n h = absurd h
single_row-RowSays e es (c ∷ row) [] n h = ((λ f. cc, λ k. absurd (Covers-One_end e es n k)), tt)
single_row-RowSays e es (c ∷ row) (s ∷ ss) n h =
    let tail : RowSays es row ss = Tail-row es row s ss h.1 in
    (
      via (Covers-One e es s ss n)
          (Says-and (first_cell-Says es row ss tail) (match_element-Says e s n)),
      RowSays-tail (e ∷ es) (single_row e ss row) s ss (single_row-RowSays e es row ss n tail),
    )

element_row-RowSays :
    (e : Element) (es : List Element) (row : List Bool) (ss : List Bytes)
    → RowSays es row ss
    → RowSays (e ∷ es) (element_row e ss row) ss
unfolding element_row
element_row-RowSays double_star es row ss h = double_row-RowSays es row ss h
element_row-RowSays (literal text) es row ss h =
    single_row-RowSays (literal text) es row ss (λ e. cc) h
element_row-RowSays (wildcard text) es row ss h =
    single_row-RowSays (wildcard text) es row ss (λ e. cc) h

rows-RowSays : (es : List Element) (ss : List Bytes) → RowSays es (rows es ss) ss
unfolding rows
rows-RowSays [] ss = end_row-RowSays ss
rows-RowSays (e ∷ es) ss = element_row-RowSays e es (rows es ss) ss (rows-RowSays es ss)

-- A pattern matches exactly the paths that have no empty segment and whose segments its elements
-- cover.
pub match_iff :
    (p : Pattern) (path : Bytes)
    → (match p path ≡ true)
      ↔ ((any is_empty (split slash path) ≡ false) × Covers p.elements (split slash path))
unfolding match
match_iff p path = elim (Bool-cases (any is_empty (split slash path))) [
  | inl bad ↦ rw bad (λ e. cc, λ h. cc)
  | inr good ↦ rw good (
      let says = first_cell-Says p.elements _ _ (rows-RowSays p.elements (split slash path)) in
      (λ e. (refl, says.0 e), λ h. says.1 h.1))
]
