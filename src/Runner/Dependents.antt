-- ===== src/Runner/Dependents.antt =====
-- internal/runner/deps.go: `parseTestDependents`, which packages have tests that import a package.
pub mod Suffix
pub mod Laws
pub mod Printed
use kanly.Base.{
  Bool, true, false, not, ◌&&◌, ◌||◌, Text, codes, List, [], ◌∷◌, ◌++◌, Option, none, some, ◌==◌,
  text_eq, contains, map, if◌then◌else◌,
}
use kanly.Base.Map.{Map, update}
use kanly.Base.Sort.{sort}
use kanly.Base.Strings.{text_le, has_prefix, split_byte, fields}

pub record Dependent : Type 0 where
  pub import_path : Text
  pub dir : Text

-- The `entry` of a line.
pub record ListedPackage : Type 0 where
  pub path : Text
  pub dir : Text
  pub deps : Text

abbrev add_listed : List Text → List ListedPackage → List ListedPackage
add_listed (path ∷ dir ∷ deps ∷ []) entries =
    record { path = path; dir = dir; deps = deps } ∷ entries
add_listed _ entries = entries

unfoldable pub read_entries : List Text → List ListedPackage
read_entries [] = []
read_entries (line ∷ lines) = add_listed (split_byte 9 line) (read_entries lines)

-- `strings.CutSuffix`.
unfoldable pub cut_suffix : Text → Text → Option Text
cut_suffix [] suf = if [] == suf then some [] else none
cut_suffix (c ∷ s) suf =
    let rest = cut_suffix s suf in
    if (c ∷ s) == suf then some [] else elim rest [ none ↦ none | some pre ↦ some (c ∷ pre) ]

abbrev pub or_no_dependents : Option (List Dependent) → List Dependent
or_no_dependents none = []
or_no_dependents (some ds) = ds

abbrev pub add_dependent : Text → Dependent → Map Text (List Dependent) → Map Text (List Dependent)
add_dependent dep d result = update dep (λ old. or_no_dependents old ++ d ∷ []) result

-- Dependencies that no map entry is made for; `modules` are the listed paths.
abbrev pub passes_over : List Text → Text → Text → Bool
passes_over modules test_pkg dep =
    has_prefix dep (codes "[") || (dep == test_pkg || not (contains modules dep))

-- The loop over the dependencies of a test binary.
unfoldable pub add_deps :
    List Text
    → Dependent
    → List Text
    → List Text
    → Map Text (List Dependent)
    → Map Text (List Dependent)
add_deps modules d seen [] result = result
add_deps modules d seen (dep ∷ deps) result =
    let skip = passes_over modules d.import_path dep || contains seen dep in
    add_deps modules d (if skip then seen else dep ∷ seen) deps
      (if skip then result else add_dependent dep d result)

abbrev pub test_package : List Text → ListedPackage → Option Text
test_package modules e = elim (cut_suffix e.path (codes ".test")) [
  | none ↦ none
  | some test_pkg ↦ if contains modules test_pkg then some test_pkg else none
]

unfoldable pub add_entries :
    List Text → List ListedPackage → Map Text (List Dependent) → Map Text (List Dependent)
add_entries modules [] result = result
add_entries modules (e ∷ entries) result =
    let skipped = add_entries modules entries result in
    elim (test_package modules e) [
      | none ↦ skipped
      | some test_pkg ↦ add_entries modules entries (
          add_deps modules (record { import_path = test_pkg; dir = e.dir }) [] (fields e.deps)
            result)
    ]

abbrev by_import_path : Dependent → Dependent → Bool
by_import_path a b = text_le a.import_path b.import_path

abbrev pub sort_all : Map Text (List Dependent) → Map Text (List Dependent)
sort_all [] = []
sort_all ((k, ds) ∷ m) = (k, sort by_import_path ds) ∷ sort_all m

abbrev pub paths_of : List ListedPackage → List Text
paths_of entries = map (λ e. e.path) entries

unfoldable pub parse_test_dependents : Text → Map Text (List Dependent)
parse_test_dependents out =
    let entries = read_entries (split_byte 10 out) in
    sort_all (add_entries (paths_of entries) entries [])
