-- ===== src/Glob/Wildcard.antt =====
-- `matchWildcard` decides an inductive relation.
use mathlib.Core.List.{reverse, reverse-append, reverse-reverse, reverse-cons}
use mathlib.Core.Bool.{false≢true}
use go_mutants.Prelude.{
  ℕ, ◌≡◌, ◌≢◌, ◌↔◌, refl, sym, ap, ◌⊎◌, inl, inr, Bool, true, false, ◌&&◌, ◌||◌, List, [], ◌∷◌,
  ◌++◌, Bytes, ◌==◌, ==_iff, Bool-cases, append_assoc, append-nil, arith, if◌then◌else◌,
}
use go_mutants.Glob.{row_from, wildcard_row, falses, last_cell, wildcard_rows, match_wildcard}

-- A pattern matches a text: `*` any bytes, `?` one byte, any other byte itself.
pub data Wild : Bytes → Bytes → Type 0 where
  empty : Wild [] []
  skip : {b : ℕ} {p s : Bytes} → b ≡ b'*' → Wild p s → Wild (b ∷ p) s
  more : {b x : ℕ} {p s : Bytes} → b ≡ b'*' → Wild (b ∷ p) s → Wild (b ∷ p) (x ∷ s)
  any_byte : {b x : ℕ} {p s : Bytes} → b ≡ b'?' → Wild p s → Wild (b ∷ p) (x ∷ s)
  same : {b x : ℕ} {p s : Bytes} → b ≢ b'*' → b ≢ b'?' → x ≡ b → Wild p s → Wild (b ∷ p) (x ∷ s)

Wild-append : {p s q t : Bytes} → Wild p s → Wild q t → Wild (p ++ q) (s ++ t)
Wild-append empty k = k
Wild-append (skip e h) k = skip e (Wild-append h k)
Wild-append (more e h) k = more e (Wild-append h k)
Wild-append (any_byte e h) k = any_byte e (Wild-append h k)
Wild-append (same n m e h) k = same n m e (Wild-append h k)

-- A star alone matches every text.
Wild-star : {b : ℕ} (s : Bytes) → b ≡ b'*' → Wild (b ∷ []) s
Wild-star [] e = skip e empty
Wild-star (x ∷ s) e = more e (Wild-star s e)

-- The first byte of a pattern matches a piece at the front, in either direction.
Wild-chunk :
    {b : ℕ} {p s : Bytes}
    → Wild (b ∷ p) s
    → (u v : Bytes) × (s ≡ u ++ v) × Wild (b ∷ []) (reverse u) × Wild p v
Wild-chunk {s} (skip e h) = ([], s, refl, skip e empty, h)
Wild-chunk (more {x} e h) =
    let (u, v, q, _, k) = Wild-chunk h in (x ∷ u, v, ap (◌∷◌ x) q, Wild-star (reverse (x ∷ u)) e, k)
Wild-chunk (any_byte {x} {s} e h) = (x ∷ [], s, refl, any_byte e empty, h)
Wild-chunk (same {x} {s} n m e h) = (x ∷ [], s, refl, same n m e empty, h)

Wild-nil : {s : Bytes} → Wild [] s → s ≡ []
Wild-nil empty = refl

-- Matching does not depend on the direction.
Wild-reverse : (p : Bytes) {s : Bytes} → Wild p s → Wild (reverse p) (reverse s)
Wild-reverse [] h = rw (Wild-nil h) empty
Wild-reverse (b ∷ p) h =
    let (u, v, q, k, l) = Wild-chunk h in
    rw (q, reverse-append u v, reverse-cons b p) (Wild-append (Wild-reverse p l) k)

Wild-reverse_iff : (p s : Bytes) → Wild p s ↔ Wild (reverse p) (reverse s)
Wild-reverse_iff p s =
    (Wild-reverse p, λ h. rw (reverse-reverse p, reverse-reverse s) at (Wild-reverse (reverse p) h))

-- A cell is true exactly if the statement holds.
abbrev pub Says : Bool → Type 0 → Type 0
Says b P = (b ≡ true) ↔ P

pub via : {b : Bool} {P Q : Type 0} → (Q ↔ P) → Says b P → Says b Q
via e h = (λ t. e.1 (h.0 t), λ q. h.1 (e.0 q))

pub Says-or : {a b : Bool} {P Q : Type 0} → Says a P → Says b Q → Says (a || b) (P ⊎ Q)
Says-or {a = true} h k = (λ e. inl (h.0 refl), λ d. refl)
Says-or {a = false} h k =
    (λ e. inr (k.0 e), λ d. elim d [ inl x ↦ absurd (false≢true (h.1 x)) | inr y ↦ k.1 y ])

pub Says-and : {a b : Bool} {P Q : Type 0} → Says a P → Says b Q → Says (a && b) (P × Q)
Says-and {a = true} h k = (λ e. (h.0 refl, k.0 e), λ d. k.1 d.1)
Says-and {a = false} h k = (λ e. absurd (false≢true e), λ d. h.1 d.0)

abbrev next_cell : ℕ → ℕ → Bool → Bool → Bool → Bool
next_cell b x p done left =
    if b == b'*' then p || done else if b == b'?' then left else left && x == b

module _ (b x : ℕ) (p s : Bytes) where
  star_cell : b ≡ b'*' → Wild (b ∷ p) (x ∷ s) ↔ (Wild p (x ∷ s) ⊎ Wild (b ∷ p) s)
  star_cell e = (split, λ c. elim c [ inl h ↦ skip e h | inr h ↦ more e h ])
    where
      split : Wild (b ∷ p) (x ∷ s) → Wild p (x ∷ s) ⊎ Wild (b ∷ p) s
      split (skip _ h) = inl h
      split (more _ h) = inr h
      split (any_byte e' h) = absurd (omega arith)
      split (same n m e' h) = absurd (n e)

  any_cell : b ≡ b'?' → Wild (b ∷ p) (x ∷ s) ↔ Wild p s
  any_cell e = (split, any_byte e)
    where
      split : Wild (b ∷ p) (x ∷ s) → Wild p s
      split (skip e' h) = absurd (omega arith)
      split (more e' h) = absurd (omega arith)
      split (any_byte _ h) = h
      split (same n m e' h) = h

  same_cell : b ≢ b'*' → b ≢ b'?' → Wild (b ∷ p) (x ∷ s) ↔ (Wild p s × (x ≡ b))
  same_cell n m = (split, λ h. same n m h.1 h.0)
    where
      split : Wild (b ∷ p) (x ∷ s) → Wild p s × (x ≡ b)
      split (skip e' h) = absurd (n e')
      split (more e' h) = absurd (n e')
      split (any_byte e' h) = absurd (m e')
      split (same _ _ e' h) = (h, e')

  next_cell-Says :
      (c done left : Bool)
      → Says left (Wild p s)
      → Says done (Wild (b ∷ p) s)
      → Says c (Wild p (x ∷ s))
      → Says (next_cell b x c done left) (Wild (b ∷ p) (x ∷ s))
  next_cell-Says c done left l d h = elim (Bool-cases (b == b'*')) [
    | inl star ↦ rw star (via (star_cell (ground arith)) (Says-or h d))
    | inr plain ↦ rw plain (elim (Bool-cases (b == b'?')) [
      | inl any ↦ rw any (via (any_cell (ground arith)) l)
      | inr other ↦
          rw other (via (same_cell (ground arith) (ground arith)) (Says-and l (==_iff x b)))
    ])
  ]

-- The cells of a row behind its first one, for the prefixes of a text that are longer than `s`.
-- Patterns and prefixes are written backwards.
abbrev RestSays : Bytes → Bytes → List Bool → Bytes → Type 0
RestSays p s [] [] = Unit
RestSays p s (c ∷ row) (x ∷ xs) = Says c (Wild p (x ∷ s)) × RestSays p (x ∷ s) row xs
RestSays p s _ _ = ⊥

abbrev RowSays : Bytes → List Bool → Bytes → Type 0
RowSays p [] xs = ⊥
RowSays p (c ∷ row) xs = Says c (Wild p []) × RestSays p [] row xs

row_from-RestSays :
    (b : ℕ) (left done : Bool) (p s : Bytes) (row : List Bool) (xs : Bytes)
    → Says left (Wild p s)
    → Says done (Wild (b ∷ p) s)
    → RestSays p s row xs
    → RestSays (b ∷ p) s (row_from b left done row xs) xs
unfolding row_from
row_from-RestSays b left done p s [] [] l d h = tt
row_from-RestSays b left done p s [] (x ∷ xs) l d h = absurd h
row_from-RestSays b left done p s (c ∷ row) [] l d h = absurd h
row_from-RestSays b left done p s (c ∷ row) (x ∷ xs) l d h =
    let cell = next_cell-Says b x p s c done left l d h.0 in
    (cell, row_from-RestSays b c (next_cell b x c done left) p (x ∷ s) row xs h.0 cell h.1)

first_cell-Says :
    (b : ℕ) (c : Bool) (p : Bytes) → Says c (Wild p []) → Says (b == b'*' && c) (Wild (b ∷ p) [])
first_cell-Says b c p h = via (split, λ d. skip d.0 d.1) (Says-and (==_iff b b'*') h)
  where
    split : Wild (b ∷ p) [] → (b ≡ b'*') × Wild p []
    split (skip e k) = (e, k)

wildcard_row-RowSays :
    (b : ℕ) (p : Bytes) (row : List Bool) (xs : Bytes)
    → RowSays p row xs
    → RowSays (b ∷ p) (wildcard_row b row xs) xs
unfolding wildcard_row
wildcard_row-RowSays b p [] xs h = absurd h
wildcard_row-RowSays b p (c ∷ row) xs h =
    let first = first_cell-Says b c p h.0 in
    (first, row_from-RestSays b c (b == b'*' && c) p [] row xs h.0 first h.1)

-- A list put backwards in front of another.
abbrev onto : Bytes → Bytes → Bytes
onto [] t = t
onto (b ∷ s) t = onto s (b ∷ t)

onto-reverse : (s t : Bytes) → onto s t ≡ reverse s ++ t
onto-reverse [] t = refl
onto-reverse (b ∷ s) t =
    rw (onto-reverse s (b ∷ t), reverse-cons b s) (sym (append_assoc (reverse s) (b ∷ []) t))

wildcard_rows-RowSays :
    (pattern p : Bytes) (row : List Bool) (xs : Bytes)
    → RowSays p row xs
    → RowSays (onto pattern p) (wildcard_rows pattern row xs) xs
unfolding wildcard_rows
wildcard_rows-RowSays [] p row xs h = h
wildcard_rows-RowSays (b ∷ pattern) p row xs h =
    wildcard_rows-RowSays pattern (b ∷ p) (wildcard_row b row xs) xs
      (wildcard_row-RowSays b p row xs h)

falses-RestSays : (s xs : Bytes) → RestSays [] s (falses xs) xs
falses-RestSays s [] = tt
falses-RestSays s (x ∷ xs) = ((λ e. cc, λ h. elim h [ ]), falses-RestSays (x ∷ s) xs)

last_cell-Says :
    (p s : Bytes) (c : Bool) (row : List Bool) (xs : Bytes)
    → Says c (Wild p s)
    → RestSays p s row xs
    → Says (last_cell (c ∷ row)) (Wild p (onto xs s))
last_cell-Says p s c [] [] h k = h
last_cell-Says p s c [] (x ∷ xs) h k = absurd k
last_cell-Says p s c (d ∷ row) [] h k = absurd k
last_cell-Says p s c (d ∷ row) (x ∷ xs) h k = last_cell-Says p (x ∷ s) d row xs k.0 k.1

RowSays-last :
    (p : Bytes) (row : List Bool) (xs : Bytes)
    → RowSays p row xs
    → Says (last_cell row) (Wild p (onto xs []))
RowSays-last p [] xs h = absurd h
RowSays-last p (c ∷ row) xs h = last_cell-Says p [] c row xs h.0 h.1

-- The table of `matchWildcard` answers true exactly on the texts that the pattern matches.
pub match_wildcard_iff :
    (pattern segment : Bytes) → (match_wildcard pattern segment ≡ true) ↔ Wild pattern segment
unfolding match_wildcard
match_wildcard_iff pattern segment =
    let start : RowSays [] (true ∷ falses segment) segment =
      ((λ e. empty, λ h. refl), falses-RestSays [] segment) in
    let end =
      RowSays-last (onto pattern []) (wildcard_rows pattern (true ∷ falses segment) segment) segment
        (wildcard_rows-RowSays pattern [] (true ∷ falses segment) segment start) in
    via (Wild-reverse_iff pattern segment) (simp (onto-reverse, append-nil) at end)
