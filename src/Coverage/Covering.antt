-- ===== src/Coverage/Covering.antt =====
-- What `Map` answers for each mutant.
use mathlib.Core.List.{Perm}
use go_mutants.Prelude.{
  some-inj, str_eq_flip, ℕ, suc, zero, ◌≤◌, ◌≡◌, refl, sym, ap, ◌∙◌, subst, inl, inr, Bool, true,
  false, Bool-cases, some, List, [], ◌∷◌, ◌++◌, append-nil, append_assoc, map, Bytes, str_eq,
  str_eq→≡, str_eq_self, keep, if◌then◌else◌, get_elem?, All, All-map,
}
use go_mutants.Prelude.Maps.{Map, put, get_list}
use go_mutants.Prelude.Sorting.{sort_by, compare_bytes, sort_by-perm}
use go_mutants.Coverage.{
  Mutant, Profile, FileIndex, Options, Result, covers, new_file_index, profile_of, profile_path,
  modules_of, index_all, covering_binaries, note, note_all, map_coverage, covering_of,
}
use go_mutants.Coverage.Indexing.{reaches, InLine, covers-new_file_index}

-- The binary's entry is the index of its profile.
abbrev Indexed : Map Profile → List Bytes → Map FileIndex → Bytes → Type 0
Indexed profiles modules indexes b =
    (matched : List Bytes) × (get_list b indexes
      ≡ (new_file_index (profile_of profiles b) modules matched).0)

module _ (profiles : Map Profile) (modules : List Bytes) where
  put-Indexed :
      (b c : Bytes) (indexes : Map FileIndex) (matched : List Bytes)
      → Indexed profiles modules indexes b
      → Indexed profiles modules
          (put c (new_file_index (profile_of profiles c) modules matched).0 indexes)
          b
  put-Indexed b c indexes matched h = elim (Bool-cases (str_eq c b)) [
    | inl e ↦ (
      matched,
      rw (e, get_list)
          (ap (λ k. (new_file_index (profile_of profiles k) modules matched).0) (str_eq→≡ c b e)),
    )
    | inr e ↦ (h.0, rw (e, get_list) h.1)
  ]

  first-Indexed :
      (b : Bytes) (indexes : Map FileIndex) (matched : List Bytes)
      → Indexed profiles modules
          (put b (new_file_index (profile_of profiles b) modules matched).0 indexes)
          b
  first-Indexed b indexes matched = (matched, rw (str_eq_self b, get_list) refl)

  index_all-keeps :
      (b : Bytes) (bs : List Bytes) (indexes : Map FileIndex) (matched : List Bytes)
      → Indexed profiles modules indexes b
      → Indexed profiles modules (index_all profiles modules bs (indexes, matched)).0 b
  unfolding index_all
  index_all-keeps b [] indexes matched h = h
  index_all-keeps b (c ∷ bs) indexes matched h =
      index_all-keeps b bs _ _ (put-Indexed b c indexes matched h)

  index_all-Indexed :
      (bs : List Bytes) (indexes : Map FileIndex) (matched : List Bytes)
      → All (Indexed profiles modules (index_all profiles modules bs (indexes, matched)).0) bs
  unfolding index_all
  index_all-Indexed [] indexes matched = tt
  index_all-Indexed (c ∷ bs) indexes matched =
      (index_all-keeps c bs _ _ (first-Indexed c indexes matched), index_all-Indexed bs _ _)

keep_eq {ℓ} :
    {A : Type ℓ} (p q : A → Bool) (bs : List A) → All (λ b. p b ≡ q b) bs → keep p bs ≡ keep q bs
keep_eq p q [] h = refl
keep_eq p q (b ∷ bs) h = elim (Bool-cases (q b)) [
  | inl e ↦ rw (h.0, e) (ap (λ l. b ∷ l) (keep_eq p q bs h.1))
  | inr e ↦ rw (h.0, e) (keep_eq p q bs h.1)
]

-- No two mutants have one id.
abbrev pub Distinct : List Mutant → Type 0
Distinct [] = Unit
Distinct (m ∷ ms) = All (λ n. str_eq m.id n.id ≡ false) ms × Distinct ms

abbrev pub is_nil : List Bytes → Bool
is_nil [] = true
is_nil (b ∷ bs) = false

abbrev Notes : Type 0
Notes = Map (List Bytes) × List Bytes

note-uncovered :
    (m : Mutant) (bs : List Bytes) (acc : Notes)
    → (note m bs acc).1 ≡ acc.1 ++ (if is_nil bs then m.id ∷ [] else [])
note-uncovered m [] (c, u) = refl
note-uncovered m (b ∷ bs) (c, u) = sym (append-nil u)

note-other :
    (m : Mutant) (bs : List Bytes) (acc : Notes) (id : Bytes)
    → str_eq m.id id ≡ false
    → get_list id (note m bs acc).0 ≡ get_list id acc.0
note-other m [] (c, u) id d = refl
note-other m (b ∷ bs) (c, u) id d = rw (d, get_list) refl

note-own :
    (m : Mutant) (bs : List Bytes) (acc : Notes)
    → get_list m.id acc.0 ≡ []
    → get_list m.id (note m bs acc).0 ≡ bs
note-own m [] (c, u) h = h
note-own m (b ∷ bs) (c, u) h = rw (str_eq_self m.id, get_list) refl

module _ (of : Mutant → List Bytes) where
  note_all-uncovered :
      (ms : List Mutant) (acc : Notes)
      → (note_all of ms acc).1 ≡ acc.1 ++ map (λ m. m.id) (keep (λ m. is_nil (of m)) ms)
  note_all-uncovered [] acc = sym (append-nil acc.1)
  note_all-uncovered (m ∷ ms) acc = elim (Bool-cases (is_nil (of m))) [
    | inl e ↦ rw e (
        note_all-uncovered ms (note m (of m) acc)
        ∙ (ap (λ u. u ++ map (λ m. m.id) (keep (λ m. is_nil (of m)) ms))
              (note-uncovered m (of m) acc)
            ∙ rw e (append_assoc acc.1 (m.id ∷ []) _)))
    | inr e ↦ rw e (
        note_all-uncovered ms (note m (of m) acc)
        ∙ ap (λ u. u ++ map (λ m. m.id) (keep (λ m. is_nil (of m)) ms))
            (note-uncovered m (of m) acc ∙ rw e (append-nil acc.1)))
  ]

  note_all-other :
      (ms : List Mutant) (acc : Notes) (id : Bytes)
      → All (λ n. str_eq id n.id ≡ false) ms
      → get_list id (note_all of ms acc).0 ≡ get_list id acc.0
  note_all-other [] acc id h = refl
  note_all-other (m ∷ ms) acc id h =
      note_all-other ms (note m (of m) acc) id h.1
      ∙ note-other m (of m) acc id (str_eq_flip id m.id h.0)

  untouched :
      (n : Mutant) (acc : Notes) (ms : List Mutant)
      → All (λ m. get_list m.id acc.0 ≡ []) ms
      → All (λ m. str_eq n.id m.id ≡ false) ms
      → All (λ m. get_list m.id (note n (of n) acc).0 ≡ []) ms
  untouched n acc [] h d = tt
  untouched n acc (m ∷ ms) h d =
      (note-other n (of n) acc m.id d.0 ∙ h.0, untouched n acc ms h.1 d.1)

  note_all-own :
      (ms : List Mutant) (acc : Notes)
      → Distinct ms
      → All (λ m. get_list m.id acc.0 ≡ []) ms
      → (i : ℕ) (m : Mutant) → get_elem? ms i ≡ some m
      → get_list m.id (note_all of ms acc).0 ≡ of m
  note_all-own [] acc d h i m at = absurd (cc)
  note_all-own (n ∷ ms) acc d h zero m at =
      subst (λ k. get_list k.id (note_all of ms (note n (of n) acc)).0 ≡ of k) (some-inj at)
        (note_all-other ms (note n (of n) acc) n.id d.0 ∙ note-own n (of n) acc h.0)
  note_all-own (n ∷ ms) acc d h (suc i) m at =
      note_all-own ms (note n (of n) acc) d.1 (untouched n acc ms h.1 d.0) i m at

-- The binaries of which a block that ran has one of the mutant's lines.
abbrev pub reaching : Options → List Bytes → Mutant → List Bytes
reaching opts binaries m =
    keep
      (λ b.
        reaches (profile_of opts.profiles b) (profile_path opts.module_path m) m.start_line
          m.end_line)
      binaries

covering-reaching :
    (opts : Options) (binaries : List Bytes) (m : Mutant)
    → ((b : Bytes) → All InLine (profile_of opts.profiles b).blocks)
    → m.start_line ≤ m.end_line
    → covering_binaries opts.module_path binaries
        (index_all opts.profiles (modules_of opts.module_path opts.mutants) binaries ([], [])).0
        m
      ≡ reaching opts binaries m
covering-reaching opts binaries m h order =
    let modules = modules_of opts.module_path opts.mutants in
    keep_eq _ _ binaries (
      All-map _ _ binaries
        (λ b e.
          ap (λ x. covers x (profile_path opts.module_path m) m.start_line m.end_line) e.1
          ∙ covers-new_file_index (profile_of opts.profiles b) modules e.0
              (profile_path opts.module_path m) m.start_line m.end_line (h b) order)
        (index_all-Indexed opts.profiles modules binaries [] []))

pub record Reached (opts : Options) (r : Result) : Type 0 where
  pub binaries : Perm r.binaries (map (λ p. p.0) opts.profiles)
  pub covering :
      (i : ℕ) (m : Mutant)
      → get_elem? opts.mutants i ≡ some m
      → covering_of r m.id ≡ reaching opts r.binaries m
  pub uncovered :
      r.uncovered ≡ map (λ m. m.id) (keep (λ m. is_nil (reaching opts r.binaries m)) opts.mutants)

All-get {ℓ κ} :
    {A : Type ℓ} (P : A → Type κ) (xs : List A) (i : ℕ) (x : A)
    → All P xs
    → get_elem? xs i ≡ some x
    → P x
All-get P [] i x h e = absurd (cc)
All-get P (y ∷ ys) zero x h e = subst P (some-inj e) h.0
All-get P (y ∷ ys) (suc i) x h e = All-get P ys i x h.1 e

-- If no two mutants have one id, no mutant ends before it starts, and no block of a profile ends before
-- it starts or on line 2 ^ 63 - 1, then `Map` lists the binaries that have a profile; it gives each mutant those binaries, in their order,
-- of whose profile a block that ran, of the mutant's file, has one of its lines; and it lists as
-- uncovered, in their order, exactly the mutants that no binary reaches.
pub map_coverage-Reached :
    (opts : Options)
    → Distinct opts.mutants
    → All (λ m. m.start_line ≤ m.end_line) opts.mutants
    → ((b : Bytes) → All InLine (profile_of opts.profiles b).blocks)
    → Reached opts (map_coverage opts)
unfolding map_coverage
map_coverage-Reached opts d placed h =
    let binaries = sort_by compare_bytes (map (λ p. p.0) opts.profiles) in
    let indexes =
      (index_all opts.profiles (modules_of opts.module_path opts.mutants) binaries ([], [])).0 in
    let of : Mutant → List Bytes = covering_binaries opts.module_path binaries indexes in
    record {
      binaries = sort_by-perm compare_bytes (map (λ p. p.0) opts.profiles);
      covering = λ i m at.
          note_all-own of opts.mutants ([], []) d (nothing_yet opts.mutants) i m at
          ∙ covering-reaching opts binaries m h
              (All-get (λ m. m.start_line ≤ m.end_line) opts.mutants i m placed at);
      uncovered =
          note_all-uncovered of opts.mutants ([], [])
          ∙ ap (map (λ m. m.id)) (
              keep_eq (λ m. is_nil (of m)) (λ m. is_nil (reaching opts binaries m)) opts.mutants
                (All-map _ _ opts.mutants
                  (λ m order. ap is_nil (covering-reaching opts binaries m h order)) placed));
    }
  where
    nothing_yet : (ms : List Mutant) → All (λ m. ◌≡◌ {A = List Bytes} (get_list m.id []) []) ms
    nothing_yet [] = tt
    nothing_yet (m ∷ ms) = (refl, nothing_yet ms)
