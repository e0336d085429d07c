-- ===== src/Mutation/Identity.antt =====
-- internal/mutation/id.go: what identifies a mutant, and the id made of it. SHA-256 is a parameter:
-- a function from the bytes written to the hash to the bytes of its sum.
use go_mutants.Prelude.{
  ℕ, zero, suc, ◌+◌, ◌/◌, ◌%◌, ◌^◌, Bool, true, false, not, ◌&&◌, ◌||◌, List, [], ◌∷◌, ◌++◌, Bytes,
  codes, leb, ltb, ◌==◌, str_eq, if◌then◌else◌, length, take, any,
}
use go_mutants.Prelude.Decimal.{itoa}
use go_mutants.Prelude.Text.{has_prefix, contains_any, replace_byte, clean_relative, hex}
use go_mutants.Mutation.Span.{Span, validate}
use go_mutants.Mutation.Span
pub mod Encoding
pub mod Injective

pub data IdError : Type 0 where
  empty_path absolute_path escaping_path unnormalized_path invalid_rule_name : IdError
  invalid_module_path invalid_rule_version invalid_digest field_too_long : IdError
  invalid_id span_reversed : IdError

pub data Checked {ℓ} (A : Type ℓ) : Type ℓ where
  ok : A → Checked A
  err : IdError → Checked A

infixl 5 ◌>>=◌ ◌>>◌
abbrev pub ◌>>=◌ {ℓ κ} : {A : Type ℓ} {B : Type κ} → Checked A → (A → Checked B) → Checked B
ok a >>= f = f a
err e >>= f = err e

abbrev pub ◌>>◌ {ℓ} : {B : Type ℓ} → Checked (Unit {0}) → Checked B → Checked B
m >> k = m >>= λ _. k

abbrev pub guard : Bool → IdError → Checked (Unit {0})
guard true e = ok tt
guard false e = err e

-- The version is an int; those below 1 are all refused alike, so zero stands for them.
pub record Identity : Type 0 where
  pub path : Bytes
  pub rule_name : Bytes
  pub rule_version : ℕ
  pub span : Span
  pub source_digest : Bytes
  pub original_digest : Bytes
  pub replacement_digest : Bytes
  pub module_path : Bytes

abbrev pub id_domain : Bytes
id_domain = codes "go-mutants-id-v1"

abbrev pub id_domain_workspace : Bytes
id_domain_workspace = codes "go-mutants-workspace-id-v1"

abbrev pub id_hex_length : ℕ
id_hex_length = 64

abbrev pub display_id_length : ℕ
display_id_length = 20

abbrev pub min_prefix_length : ℕ
min_prefix_length = 4

abbrev pub is_empty : Bytes → Bool
is_empty [] = true
is_empty (_ ∷ _) = false

is_ascii_letter : ℕ → Bool
is_ascii_letter c = leb b'a' c && leb c b'z' || leb b'A' c && leb c b'Z'

-- `len(s) >= 2 && s[1] == ':' && isASCIILetter(s[0])`
has_volume : Bytes → Bool
unfolding is_ascii_letter
has_volume (c ∷ d ∷ s) = d == b':' && is_ascii_letter c
has_volume _ = false

unfoldable pub normalize_path : Bytes → Checked Bytes
unfolding has_volume clean_relative
normalize_path p = do
  guard (not (is_empty p)) empty_path
  guard (not (any (λ c. c == 0) p)) empty_path
  let slashed = replace_byte 92 b'/' p
  guard (not (has_prefix (codes "/") slashed)) absolute_path
  guard (not (has_volume slashed)) absolute_path
  let cleaned = clean_relative slashed
  guard (not (has_volume cleaned)) absolute_path
  guard
      (not (
        str_eq cleaned (codes ".")
        || str_eq cleaned (codes "..")
        || has_prefix (codes "../") cleaned))
      escaping_path
  ok cleaned

abbrev pub is_lower_hex_byte : ℕ → Bool
is_lower_hex_byte c = leb b'0' c && leb c b'9' || leb b'a' c && leb c b'f'

unfoldable pub is_lower_hex_prefix : Bytes → Bool
is_lower_hex_prefix [] = true
is_lower_hex_prefix (c ∷ s) = if is_lower_hex_byte c then is_lower_hex_prefix s else false

unfoldable pub is_lower_hex : Bytes → ℕ → Bool
unfolding is_lower_hex_prefix
is_lower_hex s n = length s == n && is_lower_hex_prefix s

abbrev pub is_id : Bytes → Bool
is_id s = is_lower_hex s id_hex_length

abbrev pub is_digest : Bytes → Bool
is_digest s = is_lower_hex s id_hex_length

-- Space, tab, carriage return, newline and `@`.
abbrev name_breakers : Bytes
name_breakers = 32 ∷ 9 ∷ 13 ∷ 10 ∷ b'@' ∷ []

abbrev of_span : Span.SpanResult (Unit {0}) → Checked (Unit {0})
of_span (Span.ok u) = ok u
of_span (Span.err e) = err span_reversed

unfoldable pub identity_validate : Identity → Checked (Unit {0})
unfolding normalize_path is_lower_hex validate
identity_validate id = do
  normalized ← normalize_path id.path
  guard (str_eq normalized id.path) unnormalized_path
  guard (not (is_empty id.rule_name)) invalid_rule_name
  guard (not (contains_any name_breakers id.rule_name)) invalid_rule_name
  guard (leb 1 id.rule_version) invalid_rule_version
  of_span (validate id.span)
  guard (is_digest id.source_digest) invalid_digest
  guard (is_digest id.original_digest) invalid_digest
  guard (is_digest id.replacement_digest) invalid_digest
  guard (is_empty id.module_path || not (contains_any (0 ∷ name_breakers) id.module_path))
      invalid_module_path

-- `binary.BigEndian.PutUint32`
abbrev pub put_uint32 : ℕ → Bytes
put_uint32 n = n / 16777216 % 256 ∷ n / 65536 % 256 ∷ n / 256 % 256 ∷ n % 256 ∷ []

abbrev pub uint32_mod : ℕ
uint32_mod = 4294967296

-- What has been written to the hash, with the field behind its length.
pub write_length_prefixed : Bytes → Bytes → Checked Bytes
write_length_prefixed h s = do
  guard (ltb (length s) uint32_mod) field_too_long
  ok (h ++ (put_uint32 (length s) ++ s))

pub write_all : Bytes → List Bytes → Checked Bytes
write_all h [] = ok h
write_all h (f ∷ fs) = do h' ← write_length_prefixed h f; write_all h' fs

unfoldable pub id_fields : Identity → List Bytes
id_fields id =
    let common =
      id.path
      ∷ id.rule_name
      ∷ itoa id.rule_version
      ∷ itoa id.span.start_byte
      ∷ itoa id.span.end_byte
      ∷ id.source_digest
      ∷ id.original_digest
      ∷ id.replacement_digest
      ∷ [] in
    if is_empty id.module_path
    then id_domain ∷ common
    else id_domain_workspace ∷ (common ++ id.module_path ∷ [])

module _ (sha256 : Bytes → Bytes) where
  unfoldable pub identity_id : Identity → Checked Bytes
  unfolding identity_validate write_all write_length_prefixed id_fields itoa hex
  identity_id id = do identity_validate id; h ← write_all [] (id_fields id); ok (hex (sha256 h))

unfoldable pub display_id_of : Bytes → Checked Bytes
unfolding is_lower_hex
display_id_of full = do guard (is_id full) invalid_id; ok (take display_id_length full)
