-- ===== src/Prelude/Text.antt =====
-- What the code uses of the packages strings, path and encoding, on byte strings.
use go_mutants.Prelude.Tests.{Bytes, codes, ltb, ◌==◌, str_eq, if◌then◌else◌}
use go_mutants.Prelude.Lists.{any}
use go_mutants.Prelude.Split.{split, join}
use Prim.Native.Nat.{ℕ, ◌+◌, ◌/◌, ◌%◌}
use mathlib.Core.Bool.{Bool, true, false, ◌&&◌, ◌||◌}
use mathlib.Core.List.{List, [], ◌∷◌, map, reverse}

-- `strings.HasPrefix(s, prefix)`, the prefix first.
abbrev pub has_prefix : Bytes → Bytes → Bool
has_prefix [] s = true
has_prefix (p ∷ ps) [] = false
has_prefix (p ∷ ps) (c ∷ s) = c == p && has_prefix ps s

-- `strings.ContainsAny(s, chars)`, the characters first.
abbrev pub contains_any : Bytes → Bytes → Bool
contains_any chars s = any (λ c. any (λ d. c == d) chars) s

-- `strings.ReplaceAll` of one byte by one.
abbrev pub replace_byte : ℕ → ℕ → Bytes → Bytes
replace_byte old new s = map (λ c. if c == old then new else c) s

-- The stack of `path.Clean`, its top first: an empty part and `.` vanish, and `..` takes back the
-- part before it, unless there is none or that is `..` itself.
clean_part : List Bytes → Bytes → List Bytes
clean_part stack part =
    if str_eq part [] || str_eq part (codes ".")
    then stack
    else if str_eq part (codes "..")
    then (elim stack [
      | [] ↦ part ∷ []
      | top ∷ rest ↦ if str_eq top (codes "..") then part ∷ top ∷ rest else rest
    ])
    else part ∷ stack

clean_parts : List Bytes → List Bytes → List Bytes
clean_parts stack [] = reverse stack
clean_parts stack (part ∷ parts) = clean_parts (clean_part stack part) parts

abbrev dot_for_nothing : Bytes → Bytes
dot_for_nothing [] = codes "."
dot_for_nothing (c ∷ s) = c ∷ s

-- `path.Clean` of a path that does not begin with a slash.
unfoldable pub clean_relative : Bytes → Bytes
unfolding clean_parts clean_part split
clean_relative p = dot_for_nothing (join b'/' (clean_parts [] (split b'/' p)))

-- One hexadecimal digit, as `encoding/hex` writes it.
abbrev pub hex_digit : ℕ → ℕ
hex_digit n = if ltb n 10 then 48 + n else 87 + n

-- `hex.EncodeToString`
unfoldable pub hex : Bytes → Bytes
hex [] = []
hex (b ∷ s) = hex_digit (b / 16) ∷ hex_digit (b % 16) ∷ hex s
