-- ===== src/Mutation/Identity/Injective.antt =====
-- internal/mutation/id.go, Identity.ID: one id for two identities takes a collision of the hash.
use go_mutants.Prelude.{
  ◌≡◌, ◌≢◌, ◌⊎◌, refl, sym, ap, ◌∙◌, inl, inr, List, [], ◌∷◌, ◌++◌, Bytes, length, All, Bool-cases,
  arith, if◌then◌else◌, str_eq, str_eq→≡, str_eq_self,
}
use go_mutants.Prelude.Decimal.{itoa, itoa-injective}
use go_mutants.Prelude.Text.{hex}
use go_mutants.Mutation.Span.{Span}
use go_mutants.Mutation.Identity.{
  Identity, Checked, ok, err, ◌>>=◌, is_empty, id_domain, id_domain_workspace, id_fields,
  identity_validate, write_all, identity_id,
}
use go_mutants.Mutation.Identity.Encoding.{
  hex-injective, ok-injective, IsShort, frames, write_all-frames, frames-injective, cons-injective,
  append-split,
}

-- The bytes that are hashed for the two identities are different and have one sum.
pub record Collide (sha256 : Bytes → Bytes) (a b : Identity) : Type 0 where
  pub written_a : Bytes
  pub written_b : Bytes
  pub writes_a : write_all [] (id_fields a) ≡ ok written_a
  pub writes_b : write_all [] (id_fields b) ≡ ok written_b
  pub differ : written_a ≢ written_b
  pub one_sum : sha256 written_a ≡ sha256 written_b

common_fields : Identity → List Bytes
common_fields id =
    id.path
    ∷ id.rule_name
    ∷ itoa id.rule_version
    ∷ itoa id.span.start_byte
    ∷ itoa id.span.end_byte
    ∷ id.source_digest
    ∷ id.original_digest
    ∷ id.replacement_digest
    ∷ []

same_span : (a b : Span) → a.start_byte ≡ b.start_byte → a.end_byte ≡ b.end_byte → a ≡ b
same_span a b e f = ground arith

layout : Bytes → List Bytes → List Bytes
layout m common =
    if is_empty m then id_domain ∷ common else id_domain_workspace ∷ (common ++ m ∷ [])

layout-injective :
    (m m' : Bytes) (c c' : List Bytes)
    → length c ≡ length c'
    → layout m c ≡ layout m' c'
    → (m ≡ m') × (c ≡ c')
unfolding layout
layout-injective [] [] c c' n e = (refl, (cons-injective _ _ _ _ e).1)
layout-injective [] (y ∷ m') c c' n e =
    absurd (cc (ap (str_eq id_domain) (cons-injective _ _ _ _ e).0))
layout-injective (x ∷ m) [] c c' n e =
    absurd (cc (ap (str_eq id_domain_workspace) (cons-injective _ _ _ _ e).0))
layout-injective (x ∷ m) (y ∷ m') c c' n e =
    let (common, last) = append-split c c' _ _ n (cons-injective _ _ _ _ e).1 in
    ((cons-injective _ _ _ _ last).0, common)

common_fields-injective :
    (a b : Identity) → common_fields a ≡ common_fields b → a.module_path ≡ b.module_path → a ≡ b
unfolding common_fields
common_fields-injective a b e m =
    let version = itoa-injective a.rule_version b.rule_version (cc e) in
    let start = itoa-injective a.span.start_byte b.span.start_byte (cc e) in
    let finish = itoa-injective a.span.end_byte b.span.end_byte (cc e) in
    let place = same_span a.span b.span start finish in cc

id_fields-injective : (a b : Identity) → id_fields a ≡ id_fields b → a ≡ b
unfolding id_fields layout common_fields
id_fields-injective a b e =
    let (m, c) =
      layout-injective a.module_path b.module_path (common_fields a) (common_fields b) refl e in
    common_fields-injective a b c m

>>=-ok {ℓ κ} :
    {A : Type ℓ} {B : Type κ} (m : Checked A) (f : A → Checked B) {b : B}
    → (m >>= f) ≡ ok b
    → (a : A) × (m ≡ ok a) × (f a ≡ ok b)
>>=-ok (ok a) f h = (a, refl, h)
>>=-ok (err e) f h = cc

sum_of_fields :
    (sha256 : Bytes → Bytes) (id : Identity) (h : Bytes)
    → identity_id sha256 id ≡ ok h
    → All IsShort (id_fields id)
      × (write_all [] (id_fields id) ≡ ok (frames (id_fields id)))
      × (h ≡ hex (sha256 (frames (id_fields id))))
unfolding identity_id
sum_of_fields sha256 id h e =
    let (_, _, e₁) = >>=-ok (identity_validate id) _ e in
    let (x, w, e₂) = >>=-ok (write_all [] (id_fields id)) _ e₁ in
    let (all, k) = write_all-frames [] (id_fields id) x w in
    (all, w ∙ ap ok k, sym (ok-injective e₂) ∙ ap (λ s. hex (sha256 s)) k)

-- Two identities that get one id are equal in every field, or the two byte strings that were
-- written to the hash for them are different and have one SHA-256 sum.
pub identity_id-Distinguishes :
    (sha256 : Bytes → Bytes) (a b : Identity) (h : Bytes)
    → identity_id sha256 a ≡ ok h
    → identity_id sha256 b ≡ ok h
    → (a ≡ b) ⊎ Collide sha256 a b
identity_id-Distinguishes sha256 a b h ea eb =
    let (short_a, writes_a, sum_a) = sum_of_fields sha256 a h ea in
    let (short_b, writes_b, sum_b) = sum_of_fields sha256 b h eb in
    let sums = hex-injective _ _ (sym sum_a ∙ sum_b) in
    elim (Bool-cases (str_eq (frames (id_fields a)) (frames (id_fields b)))) [
      | inl same ↦
          inl (id_fields-injective a b (frames-injective _ _ short_a short_b (str_eq→≡ _ _ same)))
      | inr differ ↦ inr (record {
        written_a = frames (id_fields a);
        written_b = frames (id_fields b);
        writes_a = writes_a;
        writes_b = writes_b;
        differ = λ p. cc (differ, str_eq_self (frames (id_fields a)), p);
        one_sum = sums;
      })
    ]
