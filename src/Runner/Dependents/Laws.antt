-- ===== src/Runner/Dependents/Laws.antt =====
-- internal/runner/deps.go: the map of `parseTestDependents` beside the lines.
use kanly.Base.{
  ◌≡◌, refl, sym, ap, ap₂, beq_refl, codes, ◌∙◌, Bool, true, false, not, ◌&&◌, ◌||◌, Text, List, [],
  ◌∷◌, ◌++◌, Option, none, some, ◌==◌, text_eq, text_beq, text_beq_iff, contains, any, any-snoc,
  arith, Bool-cases, inl, inr,
}
use kanly.Base.Map.{Map, lookup, lookup-update}
use kanly.Base.Sort.Laws.{any-sort}
use kanly.Base.Strings.{split_byte, fields, has_prefix}
use kanly.Runner.Dependents.Suffix.{cut_suffix-append, cut_suffix-eq-some}
use kanly.Runner.Dependents.{
  Dependent, ListedPackage, read_entries, or_no_dependents, add_dependent, passes_over, add_deps,
  cut_suffix, test_package, add_entries, by_import_path, sort_all, paths_of, parse_test_dependents,
}

abbrev is_dependent : Text → Text → Dependent → Bool
is_dependent test_pkg dir d = d.import_path == test_pkg && d.dir == dir

-- The map has the test package, in its directory, under the package.
abbrev pub depends : Text → Text → Text → Map Text (List Dependent) → Bool
depends pkg test_pkg dir result =
    any (is_dependent test_pkg dir) (or_no_dependents (lookup pkg result))

depends-add :
    (dep pkg test_pkg dir : Text) (d : Dependent) (result : Map Text (List Dependent))
    → depends pkg test_pkg dir (add_dependent dep d result)
      ≡ (depends pkg test_pkg dir result || (dep == pkg && is_dependent test_pkg dir d))
depends-add dep pkg test_pkg dir d result =
    rw (lookup-update dep pkg (λ old. or_no_dependents old ++ d ∷ []) result)
      (elim (Bool-cases (text_beq dep pkg)) [
        | inl b ↦
            let e = (text_beq_iff dep pkg).0 b in
            rw (b, sym e)
              (any-snoc (is_dependent test_pkg dir) (or_no_dependents (lookup dep result)) d)
        | inr b ↦ rw b (ground arith)
      ])

-- One test binary's dependencies name the package.
abbrev pub names_dep : List Text → Text → Text → List Text → Bool
names_dep modules test_pkg pkg deps = contains deps pkg && not (passes_over modules test_pkg pkg)

passed_over :
    (h a p s k q : Bool)
    → (q ≡ true → (p || s) ≡ true)
    → (h || a && ((k && not p) && not s)) ≡ (h || a && (((q || k) && not p) && not s))
passed_over h a p s k q e = ground arith

taken :
    (h a p s k q : Bool)
    → (q ≡ true → (p || s) ≡ false)
    → ((h || q && a) || a && ((k && not p) && not (q || s)))
      ≡ (h || a && (((q || k) && not p) && not s))
taken h a p s k q e = ground arith

depends-add_deps :
    (modules : List Text) (d : Dependent) (seen deps : List Text)
    (result : Map Text (List Dependent)) (pkg test_pkg dir : Text)
    → depends pkg test_pkg dir (add_deps modules d seen deps result) ≡ (
        depends pkg test_pkg dir result
        || (is_dependent test_pkg dir d
            && (names_dep modules d.import_path pkg deps && not (contains seen pkg))))
unfolding add_deps
depends-add_deps modules d seen [] result pkg test_pkg dir = ground arith
depends-add_deps modules d seen (dep ∷ deps) result pkg test_pkg dir =
    elim (Bool-cases (passes_over modules d.import_path dep || contains seen dep)) [
      | inl b ↦ rw b (
          depends-add_deps modules d seen deps result pkg test_pkg dir
          ∙ passed_over (depends pkg test_pkg dir result) (is_dependent test_pkg dir d)
              (passes_over modules d.import_path pkg) (contains seen pkg) (contains deps pkg)
              (text_beq dep pkg)
              (λ c.
                ap (λ x. passes_over modules d.import_path x || contains seen x)
                  (sym ((text_beq_iff dep pkg).0 c))
                ∙ b))
      | inr b ↦ rw b (
          depends-add_deps modules d (dep ∷ seen) deps (add_dependent dep d result) pkg test_pkg dir
          ∙ rw (depends-add dep pkg test_pkg dir d result) (
              taken (depends pkg test_pkg dir result) (is_dependent test_pkg dir d)
                (passes_over modules d.import_path pkg) (contains seen pkg) (contains deps pkg)
                (text_beq dep pkg)
                (λ c.
                  ap (λ x. passes_over modules d.import_path x || contains seen x)
                    (sym ((text_beq_iff dep pkg).0 c))
                  ∙ b)))
    ]

-- The entry adds the test package to the dependents of the package.
abbrev counts_as : List Text → Text → Text → Text → ListedPackage → Bool
counts_as modules pkg test_pkg dir e = elim (test_package modules e) [
  | none ↦ false
  | some t ↦ (t == test_pkg && e.dir == dir) && names_dep modules t pkg (fields e.deps)
]

depends-add_entries :
    (modules : List Text) (entries : List ListedPackage) (result : Map Text (List Dependent))
    (pkg test_pkg dir : Text)
    → depends pkg test_pkg dir (add_entries modules entries result)
      ≡ (depends pkg test_pkg dir result || any (counts_as modules pkg test_pkg dir) entries)
unfolding add_entries
depends-add_entries modules [] result pkg test_pkg dir = ground arith
depends-add_entries modules (e ∷ entries) result pkg test_pkg dir =
    step (test_package modules e) refl (λ r. depends-add_entries modules entries r pkg test_pkg dir)
  where
    step :
        (t : Option Text)
        → test_package modules e ≡ t
        → ((r : Map Text (List Dependent))
            → depends pkg test_pkg dir (add_entries modules entries r)
              ≡ (depends pkg test_pkg dir r || any (counts_as modules pkg test_pkg dir) entries))
        → depends pkg test_pkg dir (add_entries modules (e ∷ entries) result) ≡ (
            depends pkg test_pkg dir result
            || (counts_as modules pkg test_pkg dir e
                || any (counts_as modules pkg test_pkg dir) entries))
    step none h ih = rw (h, add_entries, counts_as) (ih result)
    step (some t) h ih =
        rw (h, add_entries, counts_as)
          (ih (add_deps modules (record { import_path = t; dir = e.dir }) [] (fields e.deps) result)
            ∙ rw
                (depends-add_deps modules (record { import_path = t; dir = e.dir }) []
                  (fields e.deps) result pkg test_pkg dir)
                (ground arith))

-- The entry is the test binary of the test package, both are listed, and it depends on the package,
-- which is a listed one too, is another one and has no name in brackets.
abbrev pub imports : List Text → Text → Text → Text → ListedPackage → Bool
imports modules pkg test_pkg dir e =
    e.path == test_pkg ++ codes ".test"
    && e.dir == dir
    && (contains modules test_pkg
        && ((contains (fields e.deps) pkg && contains modules pkg)
            && not (pkg == test_pkg || has_prefix pkg (codes "["))))

binary_name :
    (path test_pkg : Text)
    → (elim (cut_suffix path (codes ".test")) [ none ↦ false | some t ↦ t == test_pkg ])
      ≡ (path == test_pkg ++ codes ".test")
binary_name path test_pkg = elim (Bool-cases (text_beq path (test_pkg ++ codes ".test"))) [
  | inl b ↦
      rw
        (
          ap (λ p. cut_suffix p (codes ".test")) ((text_beq_iff path _).0 b)
              ∙ cut_suffix-append test_pkg (codes ".test"),
          b,
        )
        (beq_refl test_pkg)
  | inr b ↦ by_suffix b (cut_suffix path (codes ".test")) refl
]
  where
    by_suffix :
        text_beq path (test_pkg ++ codes ".test") ≡ false
        → (o : Option Text) → cut_suffix path (codes ".test") ≡ o
        → (elim (cut_suffix path (codes ".test")) [ none ↦ false | some t ↦ t == test_pkg ])
          ≡ (path == test_pkg ++ codes ".test")
    by_suffix b none e = rw (e, b) refl
    by_suffix b (some t) e = elim (Bool-cases (text_beq t test_pkg)) [
      | inl c ↦ absurd (
          ground (
            arith,
            (text_beq_iff path (test_pkg ++ codes ".test")).1 (
                cut_suffix-eq-some path (codes ".test") t e
                ∙ ap (λ x. x ++ codes ".test") ((text_beq_iff t test_pkg).0 c)),
          ))
      | inr c ↦ rw (e, b) c
    ]

counts_as-listed :
    (modules : List Text) (pkg test_pkg dir t : Text) (e : ListedPackage)
    → cut_suffix e.path (codes ".test") ≡ some t
    → counts_as modules pkg test_pkg dir e ≡ (
        contains modules t
        && ((t == test_pkg && e.dir == dir) && names_dep modules t pkg (fields e.deps)))
counts_as-listed modules pkg test_pkg dir t e h = elim (Bool-cases (contains modules t)) [
  | inl b ↦ rw (h, counts_as, b) refl
  | inr b ↦ rw (h, counts_as, b) refl
]

counts_as-imports :
    (modules : List Text) (pkg test_pkg dir : Text) (e : ListedPackage)
    → counts_as modules pkg test_pkg dir e ≡ imports modules pkg test_pkg dir e
counts_as-imports modules pkg test_pkg dir e = by_suffix (cut_suffix e.path (codes ".test")) refl
  where
    name_test : Option Text → Bool
    name_test o = elim o [ none ↦ false | some t ↦ t == test_pkg ]

    by_suffix :
        (o : Option Text)
        → cut_suffix e.path (codes ".test") ≡ o
        → counts_as modules pkg test_pkg dir e ≡ imports modules pkg test_pkg dir e
    by_suffix none h =
        let n : text_beq e.path (test_pkg ++ codes ".test") ≡ false =
          sym (binary_name e.path test_pkg) ∙ ap name_test h in
        rw (h, counts_as, n) refl
    by_suffix (some t) h =
        let n : text_beq e.path (test_pkg ++ codes ".test") ≡ text_beq t test_pkg =
          sym (binary_name e.path test_pkg) ∙ ap name_test h in
        counts_as-listed modules pkg test_pkg dir t e h ∙ elim (Bool-cases (text_beq t test_pkg)) [
          | inl c ↦ rw (n, (text_beq_iff t test_pkg).0 c, beq_refl test_pkg) (ground arith)
          | inr c ↦ rw (n, c) (ground arith)
        ]

any-imports :
    (modules : List Text) (pkg test_pkg dir : Text) (entries : List ListedPackage)
    → any (counts_as modules pkg test_pkg dir) entries
      ≡ any (imports modules pkg test_pkg dir) entries
any-imports modules pkg test_pkg dir [] = refl
any-imports modules pkg test_pkg dir (e ∷ entries) =
    ap₂ (λ x y. x || y) (counts_as-imports modules pkg test_pkg dir e)
      (any-imports modules pkg test_pkg dir entries)

depends-sort_all :
    (m : Map Text (List Dependent)) (pkg test_pkg dir : Text)
    → depends pkg test_pkg dir (sort_all m) ≡ depends pkg test_pkg dir m
unfolding lookup
depends-sort_all [] pkg test_pkg dir = refl
depends-sort_all ((k, ds) ∷ m) pkg test_pkg dir = elim (Bool-cases (text_beq k pkg)) [
  | inl b ↦ rw b (any-sort by_import_path (is_dependent test_pkg dir) ds)
  | inr b ↦ rw b (depends-sort_all m pkg test_pkg dir)
]

-- The dependents of a package are those that the entries call for.
pub depends-read_entries :
    (out pkg test_pkg dir : Text)
    → depends pkg test_pkg dir (parse_test_dependents out)
      ≡ any
          (imports (paths_of (read_entries (split_byte 10 out))) pkg test_pkg dir)
          (read_entries (split_byte 10 out))
unfolding parse_test_dependents lookup
depends-read_entries out pkg test_pkg dir =
    let entries = read_entries (split_byte 10 out) in
    depends-sort_all (add_entries (paths_of entries) entries []) pkg test_pkg dir
    ∙ depends-add_entries (paths_of entries) entries [] pkg test_pkg dir
    ∙ any-imports (paths_of entries) pkg test_pkg dir entries
