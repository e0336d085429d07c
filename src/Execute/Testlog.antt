-- ===== src/Execute/Testlog.antt =====
-- internal/testlog: the action log that a Go test binary writes.
use go_mutants.Prelude.{
  Bool, true, false, Option, none, some, List, [], ◌∷◌, ◌++◌, Bytes, codes, ◌==◌,
}
use go_mutants.Prelude.Fields.{cut, cut_prefix}
pub mod Parsing

abbrev pub header : Bytes
header = codes "# test log\n"

pub record Entry : Type 0 where
  pub op : Bytes
  pub name : Bytes

pub record Log : Type 0 where
  pub entries : List Entry
  pub complete : Bool

-- `strings.Cut(line, " ")`, whose third result is dropped.
abbrev pub entry_of : Bytes → Entry
entry_of line = elim (cut (codes " ") line) [
  | none ↦ record { op = line; name = [] }
  | some (op, name) ↦ record { op = op; name = name }
]

abbrev add_line : Bytes → List Entry → List Entry
add_line [] entries = entries
add_line (c ∷ line) entries = entry_of (c ∷ line) ∷ entries

-- The loop over the body, with the line that is being read: what follows the last line feed is
-- dropped.
pub entries_from : Bytes → Bytes → List Entry
entries_from line [] = []
entries_from line (c ∷ body) =
    let next = entries_from [] body in
    let more = entries_from (line ++ c ∷ []) body in
    elim (c == 10) [ true ↦ add_line line next | false ↦ more ]

abbrev ends_line : Bytes → Bool
ends_line [] = false
ends_line (c ∷ []) = c == 10
ends_line (c ∷ d ∷ s) = ends_line (d ∷ s)

-- `Parse` of the bytes that were read; none is `ErrNoHeader`.
unfoldable pub parse : Bytes → Option Log
unfolding entries_from
parse bytes = elim (cut_prefix header bytes) [
  | none ↦ none
  | some body ↦ some (record { entries = entries_from [] body; complete = ends_line bytes })
]
