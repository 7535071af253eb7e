-- ===== src/Runner/Tests.antt =====
-- Example coverage and durations.
use kanly.Base.{
  true, ℕ, ◌+◌, ◌*◌, ◌≤◌, ◌≡◌, refl, Text, codes, List, [], ◌∷◌, ◌++◌, map, Option, none, some,
  arith, text_eq, nat_eq, nat_beq, text_beq, Distinct, if◌then◌else◌,
}
use kanly.Runner.Names.{TestHit, FileLine}
use kanly.Base.Attempt.{done}
use kanly.Base.Int.{pos}
use kanly.Runner.CoverProfile.{parse_cover_profile}
use kanly.Runner.CoverProfile.Laws.{ProfileLine, print, parse_cover_profile-print}
use kanly.Base.Map.{update}
use kanly.Base.Sort.{sort, insert}
use kanly.Base.Strings.{cut_prefix, split_byte, fields_from, is_space}
use kanly.Runner.Dependents.{read_entries, cut_suffix, add_deps, add_entries, parse_test_dependents}
use kanly.Runner.Dependents.Laws.{depends}
use kanly.Runner.Dependents.Printed.{Row, listed, skipped, print_rows, parse_test_dependents-print}
use kanly.Runner.Timing.{Baseline, mutant_timeout, mutant_timeout-wall}

abbrev test_names : List Text
test_names = codes "TestB" ∷ codes "TestA" ∷ codes "TestB" ∷ []

-- Line 4 holds the switch, and line 6 one of its cases.
abbrev coverage : FileLine → Option (List TestHit)
coverage (file, line) =
    if nat_beq line 4
    then some (record { name = codes "TestA"; count = 2 } ∷ [])
    else if nat_beq line 6
    then some (
        record { name = codes "TestA"; count = 1 }
        ∷ record { name = codes "TestB"; count = 1 }
        ∷ [])
    else none

abbrev baseline : Baseline
baseline = record {
  tests = codes "TestA" ∷ codes "TestB" ∷ [];
  durations = (codes "TestA", 30) ∷ (codes "TestB", 50) ∷ [];
  wall = 100;
}

tests-Distinct : Distinct baseline.tests
unfolding text_beq
tests-Distinct = (refl, (refl, tt))

twice_or_more : (n : ℕ) → n ≤ 2 * n
twice_or_more n = omega arith

mutant_timeout-wall_example : 100 + 7 ≤ mutant_timeout (λ n. 2 * n) baseline [] 7
mutant_timeout-wall_example =
    mutant_timeout-wall (λ n. 2 * n) baseline 7 twice_or_more (refl, (refl, tt)) tests-Distinct

abbrev profile_line : ℕ → ℕ → ProfileLine
profile_line from n = record {
  file = codes "m/a.go";
  start_line = from;
  start_col = 24;
  end_line = from + 2;
  end_col = 2;
  stmts = 1;
  count = n;
}

-- The first block was not run.
abbrev profile : List ProfileLine
profile = profile_line 3 0 ∷ profile_line 7 12 ∷ []

parse_cover_profile-print_example :
    parse_cover_profile ((codes "mode:" ++ codes " count") ∷ map print profile)
    ≡ done (
        (record { file = codes "m/a.go"; start_line = pos 7; end_line = pos 9; count = pos 12 })
        ∷ [])
parse_cover_profile-print_example =
    parse_cover_profile-print (codes " count") profile
      ((omega arith, (omega arith, omega arith)), ((omega arith, (omega arith, omega arith)), tt))

-- Package m/a with its test binary, which imports m/b.
abbrev list_output : Text
list_output = codes "m/a\t/m/a\tfmt\nm/b\t/m/b\tfmt\nm/a.test\t/m/a\tfmt m/a m/b [m/a.test] m/b\n"

abbrev package_row : Text → Text → Text → Row
package_row path dir deps = listed (record { path = path; dir = dir; deps = deps })

abbrev rows : List Row
rows =
    package_row (codes "m/a") (codes "/m/a") (codes "fmt")
    ∷ package_row (codes "m/b") (codes "/m/b") (codes "fmt")
    ∷ skipped (codes "go: warning")
    ∷ package_row (codes "m/a.test") (codes "/m/a") (codes "fmt m/a m/b [m/a.test] m/b")
    ∷ []

parse_test_dependents-print_example :
    depends (codes "m/b") (codes "m/a") (codes "/m/a") (parse_test_dependents (print_rows rows))
    ≡ true
unfolding text_beq fields_from cut_prefix
parse_test_dependents-print_example =
    parse_test_dependents-print rows (codes "m/b") (codes "m/a") (codes "/m/a") (
      (refl, refl, refl, refl),
      ((refl, refl, refl, refl), ((refl, refl), ((refl, refl, refl, refl), tt))),
    )

one_dependent :
    map {B = Text × List Text}
      (λ (k, ds). (k, map (λ d. d.import_path) ds))
      (parse_test_dependents list_output)
    ≡ (codes "m/b", codes "m/a" ∷ []) ∷ []
unfolding parse_test_dependents read_entries cut_suffix add_deps add_entries split_byte fields_from
    is_space sort insert update text_beq cut_prefix
one_dependent = refl
