-- ===== src/Execute/Testlog/Parsing.antt =====
-- What the parser reads back of a log that a test binary wrote, whole or cut off.
use go_mutants.Prelude.{
  ℕ, ◌≡◌, ◌≢◌, refl, ap, ◌∙◌, false, some, List, [], ◌∷◌, ◌++◌, append-nil, append_assoc, Bytes,
  codes, ◌==◌, All, arith,
}
use go_mutants.Prelude.Fields.{cut, is_empty}
use go_mutants.Execute.Testlog.{Entry, header, entry_of, add_line, entries_from, ends_line, parse}

-- The line of an entry, as package testing writes it, and all of them.
abbrev pub line_of : Entry → Bytes
line_of e = e.op ++ 32 ∷ e.name

abbrev pub write : List Entry → Bytes
write [] = []
write (e ∷ entries) = line_of e ++ 10 ∷ write entries

abbrev pub Without : ℕ → Bytes → Type 0
Without byte s = All (λ c. c ≢ byte) s

-- An operation is one word, and neither it nor a name holds a line feed.
abbrev pub IsPlain : Entry → Type 0
IsPlain e = Without 10 (line_of e) × Without 32 e.op

ne-eq : (c d : ℕ) → c ≢ d → (c == d) ≡ false
ne-eq c d n = ground arith

cut_space : (op name : Bytes) → Without 32 op → cut (codes " ") (op ++ 32 ∷ name) ≡ some (op, name)
unfolding cut
cut_space [] name w = refl
cut_space (c ∷ op) name w = rw (ne-eq c 32 w.0, cut_space op name w.1) refl

entries_from-line :
    (line w rest : Bytes)
    → Without 10 w
    → entries_from line (w ++ 10 ∷ rest) ≡ add_line (line ++ w) (entries_from [] rest)
unfolding entries_from
entries_from-line line [] rest h = rw (append-nil line) refl
entries_from-line line (c ∷ w) rest h =
    rw (ne-eq c 10 h.0, entries_from)
      (entries_from-line (line ++ c ∷ []) w rest h.1
        ∙ ap (λ l. add_line l (entries_from [] rest)) (append_assoc line (c ∷ []) w))

entries_from-rest : (line w : Bytes) → Without 10 w → entries_from line w ≡ []
unfolding entries_from
entries_from-rest line [] h = refl
entries_from-rest line (c ∷ w) h =
    rw (ne-eq c 10 h.0, entries_from) (entries_from-rest (line ++ c ∷ []) w h.1)

entry_of-line :
    (op name : Bytes) → Without 32 op → entry_of (op ++ 32 ∷ name) ≡ record { op = op; name = name }
entry_of-line op name w = rw (cut_space op name w, entry_of) refl

add_line-entry :
    (op name : Bytes) (entries : List Entry)
    → Without 32 op
    → add_line (op ++ 32 ∷ name) entries ≡ record { op = op; name = name } ∷ entries
add_line-entry [] name entries w = ap (λ e. e ∷ entries) (entry_of-line [] name w)
add_line-entry (c ∷ op) name entries w = ap (λ e. e ∷ entries) (entry_of-line (c ∷ op) name w)

entries_from-write :
    (entries : List Entry) (partial : Bytes)
    → All IsPlain entries
    → Without 10 partial
    → entries_from [] (write entries ++ partial) ≡ entries
entries_from-write [] partial h w = entries_from-rest [] partial w
entries_from-write (e ∷ entries) partial h w =
    ap (entries_from []) (append_assoc (line_of e) (10 ∷ write entries) partial)
    ∙ entries_from-line [] (line_of e) (write entries ++ partial) h.0.0
    ∙ ap (add_line (line_of e)) (entries_from-write entries partial h.1 w)
    ∙ add_line-entry e.op e.name entries h.0.1

ends_line-line :
    (c : ℕ) (line rest : Bytes) → ends_line (c ∷ (line ++ 10 ∷ rest)) ≡ ends_line (10 ∷ rest)
ends_line-line c [] rest = refl
ends_line-line c (d ∷ line) rest = ends_line-line d line rest

ends_line-rest :
    (c : ℕ) (partial : Bytes) → Without 10 (c ∷ partial) → ends_line (c ∷ partial) ≡ false
ends_line-rest c [] w = ne-eq c 10 w.0
ends_line-rest c (d ∷ partial) w = ends_line-rest d partial w.1

ends_line-write :
    (entries : List Entry) (partial : Bytes)
    → Without 10 partial
    → ends_line (10 ∷ (write entries ++ partial)) ≡ is_empty partial
ends_line-write [] [] w = refl
ends_line-write [] (d ∷ partial) w = ends_line-rest d partial w
ends_line-write (e ∷ entries) partial w =
    ap (λ l. ends_line (10 ∷ l)) (append_assoc (line_of e) (10 ∷ write entries) partial)
    ∙ ends_line-line 10 (line_of e) (write entries ++ partial)
    ∙ ends_line-write entries partial w

-- What a test binary wrote is read back entry by entry, in order, also from a log that was cut off
-- in the middle of a line: that line is dropped, and the log is complete exactly when there is none.
pub parse-write :
    (entries : List Entry) (partial : Bytes)
    → All IsPlain entries
    → Without 10 partial
    → parse (header ++ write entries ++ partial)
      ≡ some (record { entries = entries; complete = is_empty partial })
unfolding parse
parse-write entries partial h w =
    rw (entries_from-write entries partial h w, ends_line-write entries partial w) refl
