-- ===== src/Prelude/Checks.antt =====
-- A result or an error, for the functions of the source that return an `error` as well.
use mathlib.Core.Path.{◌≡◌, refl, ap}
use mathlib.Core.Bool.{Bool, true, false}

pub data Checks {ℓ κ} (E : Type κ) (A : Type ℓ) : Type (ℓ ⊔ κ) where
  ok : A → Checks E A
  err : E → Checks E A

infixl 5 ◌>>=◌ ◌>>◌
abbrev pub ◌>>=◌ {κ ℓ μ} :
    {E : Type κ} {A : Type ℓ} {B : Type μ} → Checks E A → (A → Checks E B) → Checks E B
ok a >>= f = f a
err e >>= f = err e

abbrev pub ◌>>◌ {κ ℓ} : {E : Type κ} {B : Type ℓ} → Checks E (Unit {0}) → Checks E B → Checks E B
m >> k = m >>= λ _. k

abbrev pub guard {κ} : {E : Type κ} → Bool → E → Checks E (Unit {0})
guard true e = ok tt
guard false e = err e

pub bind-ok {κ ℓ μ} :
    {E : Type κ} {A : Type ℓ} {B : Type μ} (m : Checks E A) (f : A → Checks E B) {b : B}
    → (m >>= f) ≡ ok b
    → (a : A) × (m ≡ ok a) × (f a ≡ ok b)
bind-ok (ok a) f h = (a, refl, h)
bind-ok (err e) f h = cc

pub guard-ok {κ} : {E : Type κ} (t : Bool) (e : E) {u : Unit {0}} → guard t e ≡ ok u → t ≡ true
guard-ok true e h = refl
guard-ok false e h = cc

value {κ ℓ} : {E : Type κ} {A : Type ℓ} → A → Checks E A → A
value a (ok b) = b
value a (err e) = a

pub ok_eq {κ ℓ} : {E : Type κ} {A : Type ℓ} {a b : A} → ◌≡◌ {A = Checks E A} (ok a) (ok b) → a ≡ b
unfolding value
ok_eq {a = a} h = ap (value a) h
