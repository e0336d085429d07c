-- ===== src/Glob.antt =====
-- internal/glob/glob.go: the patterns that decide which files are mutated. Paths and patterns are
-- their bytes. An array of the dynamic programs is the list of its cells.
use go_mutants.Prelude.{
  ℕ, zero, suc, ◌+◌, Bool, true, false, ◌&&◌, ◌||◌, Option, none, some, List, [], ◌∷◌, ◌++◌, Bytes,
  codes, ◌==◌, str_eq, any, length, if◌then◌else◌,
}
use go_mutants.Prelude.Split.{split}
pub mod Wildcard
pub mod Segments
pub mod Compiling

pub data Message : Type 0 where
  empty_pattern leading_slash trailing_slash empty_element : Message

pub record SyntaxError : Type 0 where
  pub pattern_text : Bytes
  pub column : ℕ
  pub message : Message

-- The struct `element`, split by kind.
pub data Element : Type 0 where
  literal : Bytes → Element
  wildcard : Bytes → Element
  double_star : Element

pub record Pattern : Type 0 where
  pub source : Bytes
  pub elements : List Element

pub data Compiled : Type 0 where
  ok : Pattern → Compiled
  err : SyntaxError → Compiled

abbrev pub slash : ℕ
slash = b'/'

-- `strings.ContainsAny(part, "*?")`
abbrev pub has_wildcard : Bytes → Bool
has_wildcard part = any (λ c. c == b'*' || c == b'?') part

unfoldable pub classify : Bytes → Element
classify part =
    if str_eq part (codes "**")
    then double_star
    else if has_wildcard part
    then wildcard part
    else literal part

-- The last byte of a text that is not empty.
abbrev pub last_byte : Bytes → Option ℕ
last_byte [] = none
last_byte (c ∷ []) = some c
last_byte (c ∷ d ∷ s) = last_byte (d ∷ s)

abbrev pub is_byte : ℕ → Option ℕ → Bool
is_byte c none = false
is_byte c (some d) = d == c

abbrev pub first_byte : Bytes → Option ℕ
first_byte [] = none
first_byte (c ∷ s) = some c

abbrev pub is_empty : Bytes → Bool
is_empty [] = true
is_empty (_ ∷ _) = false

-- The loop over the parts: the elements, or the column of an empty part.
pub data Classified : Type 0 where
  elements : List Element → Classified
  empty_at : ℕ → Classified

abbrev then_cons : Element → Classified → Classified
then_cons e (elements es) = elements (e ∷ es)
then_cons e (empty_at column) = empty_at column

unfoldable pub classify_all : ℕ → List Bytes → Classified
classify_all column [] = elements []
classify_all column (part ∷ parts) =
    let rest = then_cons (classify part) (classify_all (column + (length part + 1)) parts) in
    if is_empty part then empty_at column else rest

unfoldable pub compile : Bytes → Compiled
compile pattern =
    let fail = λ (column : ℕ) (m : Message).
      err (record { pattern_text = pattern; column = column; message = m }) in
    if is_empty pattern
    then fail 1 empty_pattern
    else if is_byte slash (first_byte pattern)
    then fail 1 leading_slash
    else if is_byte slash (last_byte pattern)
    then fail (length pattern) trailing_slash
    else elim (classify_all 1 (split slash pattern)) [
      | empty_at column ↦ fail column empty_element
      | elements es ↦ ok (record { source = pattern; elements = es })
    ]

-- One round of `matchWildcard` from the second cell on: `left` is `previous[j-1]` and `done` is
-- `current[j-1]`.
pub row_from : ℕ → Bool → Bool → List Bool → Bytes → List Bool
row_from b left done [] segment = []
row_from b left done (p ∷ ps) [] = []
row_from b left done (p ∷ ps) (x ∷ xs) =
    let cell = if b == b'*' then p || done else if b == b'?' then left else left && x == b in
    cell ∷ row_from b p cell ps xs

pub wildcard_row : ℕ → List Bool → Bytes → List Bool
wildcard_row b [] segment = []
wildcard_row b (p ∷ ps) segment =
    let first = b == b'*' && p in first ∷ row_from b p first ps segment

abbrev pub falses : Bytes → List Bool
falses [] = []
falses (x ∷ xs) = false ∷ falses xs

abbrev pub last_cell : List Bool → Bool
last_cell [] = false
last_cell (b ∷ []) = b
last_cell (b ∷ c ∷ row) = last_cell (c ∷ row)

pub wildcard_rows : Bytes → List Bool → Bytes → List Bool
wildcard_rows [] row segment = row
wildcard_rows (b ∷ pattern) row segment = wildcard_rows pattern (wildcard_row b row segment) segment

unfoldable pub match_wildcard : Bytes → Bytes → Bool
unfolding wildcard_rows wildcard_row row_from
match_wildcard pattern segment = last_cell (wildcard_rows pattern (true ∷ falses segment) segment)

-- `element.match`; a double star is never asked.
pub match_element : Element → Bytes → Bool
match_element (literal text) segment = str_eq text segment
match_element (wildcard text) segment = match_wildcard text segment
match_element double_star segment = match_wildcard [] segment

abbrev pub first_cell : List Bool → Bool
first_cell [] = false
first_cell (b ∷ _) = b

-- The round of `Match` for `**`, from the last cell to the first.
pub double_row : List Bool → List Bool
double_row [] = []
double_row (n ∷ []) = n ∷ []
double_row (n ∷ n' ∷ next) =
    let current = double_row (n' ∷ next) in (n || first_cell current) ∷ current

-- The round for any other element: `next[j+1] && e.match(segments[j])`, and `false` at the end.
pub single_row : Element → List Bytes → List Bool → List Bool
single_row e [] next = false ∷ []
single_row e (s ∷ segments) [] = []
single_row e (s ∷ segments) (n ∷ next) =
    (first_cell next && match_element e s) ∷ single_row e segments next

pub element_row : Element → List Bytes → List Bool → List Bool
element_row double_star segments next = double_row next
element_row (literal text) segments next = single_row (literal text) segments next
element_row (wildcard text) segments next = single_row (wildcard text) segments next

-- `next` before the first round: only its last cell is true.
abbrev pub end_row : List Bytes → List Bool
end_row [] = true ∷ []
end_row (_ ∷ segments) = false ∷ end_row segments

-- The rounds, for the last element first.
pub rows : List Element → List Bytes → List Bool
rows [] segments = end_row segments
rows (e ∷ es) segments = element_row e segments (rows es segments)

unfoldable pub match : Pattern → Bytes → Bool
unfolding rows element_row single_row double_row match_element match_wildcard split
match p path =
    let segments = split slash path in
    if any is_empty segments then false else first_cell (rows p.elements segments)
