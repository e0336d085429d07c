-- ===== src/Execute/Narrowing/Environment.antt =====
-- The environment that a mutant's processes are given.
use go_mutants.Prelude.{
  ◌≡◌, refl, sym, append-nil, ap, ◌∙◌, Bool, true, Bool-cases, inl, inr, List, [], ◌∷◌, ◌++◌, Bytes,
  keep, All,
}
use go_mutants.Prelude.Text.{has_prefix}
use go_mutants.Prelude.Fields.{cut}
use go_mutants.Execute.Narrowing.{
  Platform, env_prefix, env_key, active_env, loop_limits_env, temp_keys, dropped, kept, binding,
  scratch_entries, base_env_from, mutant_env_from, with_loop_limits,
}

-- Whether the entry is one of those that a generated runtime reads.
abbrev pub is_own : Platform → Bytes → Bool
is_own p entry = has_prefix env_prefix (p.to_upper (env_key entry))

abbrev pub own_keys : List Bytes
own_keys = active_env ∷ loop_limits_env ∷ temp_keys

abbrev pub limits_entries : Bytes → List Bytes
limits_entries [] = []
limits_entries (c ∷ limits) = binding loop_limits_env (c ∷ limits) ∷ []

keep-append {ℓ} :
    {A : Type ℓ} (f : A → Bool) (xs ys : List A) → keep f (xs ++ ys) ≡ keep f xs ++ keep f ys
keep-append f [] ys = refl
keep-append f (x ∷ xs) ys = elim (Bool-cases (f x)) [
  | inl t ↦ rw (t, keep-append f xs ys) refl
  | inr e ↦ rw (e, keep-append f xs ys) refl
]

module _ (p : Platform) where
  kept-own : (scratch : Bytes) (source : List Bytes) → keep (is_own p) (kept p scratch source) ≡ []
  unfolding kept dropped
  kept-own scratch [] = refl
  kept-own scratch (entry ∷ source) = elim (Bool-cases (is_own p entry)) [
    | inl t ↦ rw (t, kept-own scratch source) refl
    | inr e ↦ elim (Bool-cases (dropped p scratch entry)) [
      | inl d ↦ rw (d, kept) (kept-own scratch source)
      | inr d ↦ rw (d, kept, e) (kept-own scratch source)
    ]
  ]

  -- `strings.ToUpper` leaves the upper case names as they are.
  module _ (upper : All (λ k. p.to_upper k ≡ k) own_keys) where
    active-own : (id : Bytes) → is_own p (binding active_env id) ≡ true
    unfolding cut
    active-own id = rw (upper.0) refl

    limits-own : (id : Bytes) → is_own p (binding loop_limits_env id) ≡ true
    unfolding cut
    limits-own id = rw (upper.1.0) refl

    scratch-own : (scratch : Bytes) → keep (is_own p) (scratch_entries scratch) ≡ []
    unfolding cut
    scratch-own [] = refl
    scratch-own (c ∷ scratch) = rw (upper.1.1.0, upper.1.1.1.0, upper.1.1.1.1.0) refl

    base-own :
        (source : List Bytes) (scratch : Bytes)
        → keep (is_own p) (base_env_from p source scratch) ≡ []
    unfolding base_env_from
    base-own source scratch =
        keep-append (is_own p) (kept p scratch source) (scratch_entries scratch)
        ∙ rw (kept-own scratch source) (scratch-own scratch)

    append-own :
        (limits : Bytes) (env : List Bytes)
        → keep (is_own p) (with_loop_limits limits env)
          ≡ keep (is_own p) env ++ limits_entries limits
    unfolding with_loop_limits
    append-own [] env = sym (append-nil _)
    append-own (c ∷ limits) env =
        keep-append (is_own p) env (binding loop_limits_env (c ∷ limits) ∷ [])
        ∙ rw (limits-own (c ∷ limits)) refl

    own-active :
        (source : List Bytes) (active scratch : Bytes)
        → keep (is_own p) (base_env_from p source scratch ++ binding active_env active ∷ [])
          ≡ binding active_env active ∷ []
    own-active source active scratch =
        keep-append (is_own p) (base_env_from p source scratch) (binding active_env active ∷ [])
        ∙ rw (base-own source scratch, active-own active) refl

    -- Whatever the environment of go-mutants itself holds, also when it is run on itself, a mutant's
    -- process finds of the variables of a generated runtime the one that names the mutant, once, and
    -- behind it the limits on loops where there are any.
    pub mutant_env_from-Own :
        (source : List Bytes) (active scratch limits : Bytes)
        → keep (is_own p) (with_loop_limits limits (mutant_env_from p source active scratch))
          ≡ binding active_env active ∷ limits_entries limits
    unfolding mutant_env_from
    mutant_env_from-Own source active scratch limits =
        append-own limits (base_env_from p source scratch ++ binding active_env active ∷ [])
        ∙ ap (λ l. l ++ limits_entries limits) (own-active source active scratch)
