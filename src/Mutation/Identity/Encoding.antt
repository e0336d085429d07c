-- ===== src/Mutation/Identity/Encoding.antt =====
-- What internal/mutation/id.go writes to the hash tells the fields apart: the length in front of
-- each makes the encoding prefix-free, and hexadecimal text gives its bytes back.
use go_mutants.Prelude.{
  ℕ, ◌/◌, ◌%◌, ◌<◌, ◌≡◌, refl, sym, ap, ◌∙◌, inl, inr, List, [], ◌∷◌, ◌++◌, append-nil,
  append_assoc, Bytes, ltb, length, All, Bool-cases, ltb→lt, arith,
}
use go_mutants.Prelude.Text.{hex_digit, hex}
use go_mutants.Mutation.Identity.{
  ok, err, ◌>>=◌, ◌>>◌, IdError, field_too_long, guard, put_uint32, uint32_mod,
  write_length_prefixed, write_all,
}

hex_digit-injective : (m n : ℕ) → hex_digit m ≡ hex_digit n → m ≡ n
hex_digit-injective m n e = ground arith

pub hex-injective : (s t : Bytes) → hex s ≡ hex t → s ≡ t
unfolding hex
hex-injective [] [] e = refl
hex-injective [] (c ∷ t) e = absurd (cc)
hex-injective (b ∷ s) [] e = absurd (cc)
hex-injective (b ∷ s) (c ∷ t) e =
    let high : b / 16 ≡ c / 16 = hex_digit-injective (b / 16) (c / 16) (cc) in
    let low : b % 16 ≡ c % 16 = hex_digit-injective (b % 16) (c % 16) (cc) in
    let same : b ≡ c = omega (arith, high, low) in let rest : s ≡ t = hex-injective s t (cc) in cc

pub ok-injective {ℓ} : {A : Type ℓ} {a b : A} → ok a ≡ ok b → a ≡ b
ok-injective h = cc

pub err≢ok {ℓ} : {A : Type ℓ} {a : A} {e : IdError} → err e ≡ ok a → ⊥
err≢ok h = cc

pub IsShort : Bytes → Type 0
IsShort s = length s < uint32_mod

pub frames : List Bytes → Bytes
frames [] = []
frames (f ∷ fs) = put_uint32 (length f) ++ (f ++ frames fs)

pub write_all-frames :
    (h : Bytes) (fs : List Bytes) (x : Bytes)
    → write_all h fs ≡ ok x
    → All IsShort fs × (x ≡ h ++ frames fs)
unfolding write_all write_length_prefixed IsShort frames
write_all-frames h [] x e = (tt, sym (ok-injective e) ∙ sym (append-nil h))
write_all-frames h (f ∷ fs) x e = elim (Bool-cases (ltb (length f) uint32_mod)) [
  | inl short ↦
      let next : Bytes = h ++ (put_uint32 (length f) ++ f) in
      let (all, k) =
        write_all-frames next fs x (
          sym (ap (λ b. (guard b field_too_long >> ok next) >>= λ h'. write_all h' fs) short)
          ∙ e) in
      ((ltb→lt _ _ short, all), k ∙ append_assoc h (put_uint32 (length f) ++ f) (frames fs))
  | inr long ↦ absurd (
      err≢ok (
        sym (
          ap
            (λ b. (guard b field_too_long >> ok (h ++ (put_uint32 (length f) ++ f))) >>= λ h'.
              write_all h' fs)
            long)
        ∙ e))
]

pub cons-injective {ℓ} : {A : Type ℓ} (a b : A) (s t : List A) → a ∷ s ≡ b ∷ t → (a ≡ b) × (s ≡ t)
cons-injective a b s t e = (cc, cc)

pub append-split {ℓ} :
    {A : Type ℓ} (f g r s : List A) → length f ≡ length g → f ++ r ≡ g ++ s → (f ≡ g) × (r ≡ s)
append-split [] [] r s n e = (refl, e)
append-split [] (c ∷ g) r s n e = absurd (omega (arith, n))
append-split (b ∷ f) [] r s n e = absurd (omega (arith, n))
append-split (b ∷ f) (c ∷ g) r s n e =
    let (l, k) = append-split f g r s (omega arith) (cc) in ((cc), k)

put_uint32-injective :
    (m n : ℕ) (r s : Bytes)
    → m < uint32_mod
    → n < uint32_mod
    → put_uint32 m ++ r ≡ put_uint32 n ++ s
    → (m ≡ n) × (r ≡ s)
put_uint32-injective m n r s hm hn e =
    let (b3, e3) = cons-injective _ _ _ _ e in
    let (b2, e2) = cons-injective _ _ _ _ e3 in
    let (b1, e1) = cons-injective _ _ _ _ e2 in
    let (b0, e0) = cons-injective _ _ _ _ e1 in (omega (arith, b0, b1, b2, b3), e0)

pub frames-injective :
    (fs gs : List Bytes) → All IsShort fs → All IsShort gs → frames fs ≡ frames gs → fs ≡ gs
unfolding frames IsShort
frames-injective [] [] hf hg e = refl
frames-injective [] (g ∷ gs) hf hg e = absurd (cc)
frames-injective (f ∷ fs) [] hf hg e = absurd (cc)
frames-injective (f ∷ fs) (g ∷ gs) hf hg e =
    let (n, k) = put_uint32-injective (length f) (length g) _ _ hf.0 hg.0 e in
    let (first, rest) = append-split f g (frames fs) (frames gs) n k in
    let later = frames-injective fs gs hf.1 hg.1 rest in cc
