-- ===== src/Mutation/Span.antt =====
-- internal/mutation/span.go: half-open byte ranges of a source file.
use go_mutants.Prelude.{
  ℕ, ◌-◌, ◌≤◌, ◌<◌, Bool, not, ◌&&◌, List, Ordering, ltb, leb, ◌==◌, if◌then◌else◌, length, take,
  drop,
}

-- The two fields are uint32 in the source; no operation here wraps.
pub record Span : Type 0 where
  pub start_byte : ℕ
  pub end_byte : ℕ

pub data SpanError : Type 0 where
  span_reversed span_out_of_range : SpanError

pub data SpanResult {ℓ} (A : Type ℓ) : Type ℓ where
  ok : A → SpanResult A
  err : SpanError → SpanResult A

infixl 5 ◌>>=◌ ◌>>◌
abbrev ◌>>=◌ {ℓ κ} : {A : Type ℓ} {B : Type κ} → SpanResult A → (A → SpanResult B) → SpanResult B
ok a >>= f = f a
err e >>= f = err e

abbrev ◌>>◌ {ℓ} : {B : Type ℓ} → SpanResult (Unit {0}) → SpanResult B → SpanResult B
m >> k = m >>= λ _. k

unfoldable pub validate : Span → SpanResult (Unit {0})
validate s = if ltb s.end_byte s.start_byte then err span_reversed else ok tt

unfoldable pub new_span : ℕ → ℕ → SpanResult Span
unfolding validate
new_span start end = do
  let s : Span = record { start_byte = start; end_byte = end }
  validate s
  ok s

unfoldable pub len : Span → ℕ
len s = if ltb s.end_byte s.start_byte then 0 else s.end_byte - s.start_byte

unfoldable pub is_empty : Span → Bool
unfolding len
is_empty s = len s == 0

unfoldable pub contains : Span → Span → Bool
contains s other = leb s.start_byte other.start_byte && leb other.end_byte s.end_byte

-- `s == other`
abbrev pub same : Span → Span → Bool
same s other = s.start_byte == other.start_byte && s.end_byte == other.end_byte

unfoldable pub strictly_contains : Span → Span → Bool
unfolding contains
strictly_contains s other = contains s other && not (same s other)

unfoldable pub overlaps : Span → Span → Bool
overlaps s other = ltb s.start_byte other.end_byte && ltb other.start_byte s.end_byte

-- The sign of the result: -1 is `lt`, 0 is `eq` and 1 is `gt`.
unfoldable pub span_compare : Span → Span → Ordering
span_compare s other =
    if not (s.start_byte == other.start_byte)
    then if ltb s.start_byte other.start_byte then Ordering.lt else Ordering.gt
    else if not (s.end_byte == other.end_byte)
    then if ltb s.end_byte other.end_byte then Ordering.lt else Ordering.gt
    else Ordering.eq

unfoldable pub in_range {ℓ} : {A : Type ℓ} → Span → List A → SpanResult (List A)
in_range s src =
    if ltb (length src) s.end_byte
    then err span_out_of_range
    else ok (take (s.end_byte - s.start_byte) (drop s.start_byte src))

-- `src[start:end]`, after the two checks.
unfoldable pub slice {ℓ} : {A : Type ℓ} → Span → List A → SpanResult (List A)
unfolding validate in_range
slice s src = do validate s; in_range s src

abbrev pub IsValid : Span → Type 0
IsValid s = s.start_byte ≤ s.end_byte

-- The byte at offset `x` lies in the span.
abbrev pub In : ℕ → Span → Type 0
In x s = (s.start_byte ≤ x) × (x < s.end_byte)
