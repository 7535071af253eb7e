-- ===== src/Report/Tests.antt =====
-- Example results.
use mathlib.Core.List.{Perm}
use kanly.Base.{
  ℕ, ◌+◌, ◌≡◌, refl, true, false, Text, codes, List, [], map, ◌∷◌, ◌++◌, some, arith, length, All,
  Distinct, contains, text_beq, text_eq,
}
use kanly.Base.Int.{pos}
use kanly.Base.Map.{Map, lookup, update}
use kanly.Mutation.{
  Status, killed, survived, timeout, not_covered, Mutation, Result, FunctionSurvivors, TestStats,
}
use kanly.Report.{overall, per_package}
use kanly.Report.Totals.{per_package-overall}
use kanly.Report.Survivors.{group_by_function}
use kanly.Report.Survivors.Laws.{flatten, wanted, Uniform, group_by_function_lem}
use kanly.Report.TestAxis.{
  key_eq, kill_hash, or_no_names, by_hash, redundant, build_tests, ensure_all, ensure_names,
  add_results, add_kills, zero_kill,
}
use kanly.Base.Decimal.{itoa}
use kanly.Base.Sort.{sort, insert}
use kanly.Base.Strings.{text_le, join, contains_text, cut_prefix}
use kanly.Report.TestAxis.Presence.{tests_of}
use kanly.Report.TestAxis.Redundant.{by_hash_lem}
use kanly.Report.TestAxis.Laws.{Counted, build_tests_lem}
use kanly.Report.Budget.{LlmBudget, take, Fits, NextIsOver, total_size, take_lem}

abbrev mutant : Text → ℕ → ℕ → Mutation
mutant pkg id line = record {
  id = id;
  pkg = pkg;
  file = codes "/m/a.go";
  line = line;
  column = 3;
  function = codes "F";
  operator_name = codes "int_arith";
  original = codes "+";
  mutant = codes "-";
  fingerprint = codes "0123456789ab";
  package_init = false;
  cover_line = 0;
}

abbrev result : Mutation → Status → Result
result m status = record {
  mutation = m;
  status = status;
  killing_tests = [];
  covering_tests = [];
  duration = 5;
  note = [];
  cached = false;
}

abbrev results : List Result
results =
    result (mutant (codes "m/a") 1 9) survived
    ∷ result (mutant (codes "m/b") 1 4) killed
    ∷ result (mutant (codes "m/a") 2 7) survived
    ∷ result (mutant (codes "m/a") 3 8) timeout
    ∷ result (mutant (codes "m/b") 2 5) not_covered
    ∷ []

per_package-overall_example :
    lookup (codes "m/b") (per_package [] results)
    ≡ some (
        overall (
          result (mutant (codes "m/b") 1 4) killed
          ∷ result (mutant (codes "m/b") 2 5) not_covered
          ∷ []))
unfolding text_beq
per_package-overall_example = per_package-overall results (codes "m/b")

group_by_function_lem_example :
    Perm (flatten (group_by_function results survived)) (wanted survived results)
    × All Uniform (group_by_function results survived)
group_by_function_lem_example = group_by_function_lem results survived

abbrev group : Text → List Mutation → FunctionSurvivors
group function mutations = record { pkg = codes "m/a"; function = function; mutations = mutations }

abbrev groups : List FunctionSurvivors
groups =
    group (codes "F") (mutant (codes "m/a") 1 9 ∷ mutant (codes "m/a") 2 7 ∷ [])
    ∷ group (codes "G") (mutant (codes "m/a") 3 8 ∷ [])
    ∷ []

-- A brief of two mutants.
abbrev brief : LlmBudget
brief = record { left = pos 2; listed = 0; limit = true }

take_lem_example :
    ((take brief groups).kept ++ (take brief groups).omitted ≡ groups)
    × (Fits 2 0 groups (take brief groups).kept
        × NextIsOver 2 (0 + total_size (take brief groups).kept) (take brief groups).omitted)
take_lem_example = take_lem 2 brief groups refl refl (omega arith, (omega arith, tt))

abbrev killed_by : List Text → Result → Result
killed_by tests r = record r { status = killed; killing_tests = tests }

-- A test kills the mutants 2 and 1, another one kills 1, and a third kills none.
abbrev kill_results : List Result
kill_results =
    killed_by (codes "TestA" ∷ []) (result (mutant (codes "m/a") 2 9) killed)
    ∷ killed_by (codes "TestA" ∷ codes "TestB" ∷ []) (result (mutant (codes "m/a") 1 4) killed)
    ∷ []

abbrev inventory : Map Text (List Text)
inventory = (codes "m/a", codes "TestB" ∷ codes "TestC" ∷ []) ∷ []

build_tests_lem_example :
    All (Counted kill_results) (build_tests kill_results inventory)
    × (Distinct (tests_of (build_tests kill_results inventory))
        × (contains (tests_of (build_tests kill_results inventory)) (codes "m/a", codes "TestC")
            ≡ true))
unfolding text_beq
build_tests_lem_example = build_tests_lem kill_results inventory (codes "m/a", codes "TestC")

-- The test with two kills comes first, and its kills are in order.
kill_tests :
    map {B = Text × List ℕ}
      (λ ts. (ts.name, ts.killed_mutants))
      (build_tests kill_results inventory)
    ≡ (codes "TestA", 1 ∷ 2 ∷ []) ∷ (codes "TestB", 1 ∷ []) ∷ (codes "TestC", []) ∷ []
unfolding build_tests ensure_all ensure_names add_results add_kills update sort insert text_beq
kill_tests = refl

kill_zero : zero_kill (build_tests kill_results inventory) ≡ codes "m/a.TestC" ∷ []
unfolding zero_kill build_tests ensure_all ensure_names add_results add_kills update sort insert
    text_beq contains_text cut_prefix
kill_zero = refl

abbrev test_stats : Text → List ℕ → TestStats
test_stats name ids = record {
  pkg = codes "m/a";
  name = name;
  kill_count = length ids;
  killed_mutants = ids;
}

-- Two tests that kill the mutants 1 and 12, and one that kills 11 and 2.
abbrev twins : List TestStats
twins =
    test_stats (codes "TestA") (1 ∷ 12 ∷ [])
    ∷ test_stats (codes "TestB") (11 ∷ 2 ∷ [])
    ∷ test_stats (codes "TestC") (1 ∷ 12 ∷ [])
    ∷ []

by_hash_lem_example :
    or_no_names (lookup (kill_hash (test_stats (codes "TestC") (1 ∷ 12 ∷ []))) (by_hash twins []))
    ≡ codes "m/a.TestA" ∷ codes "m/a.TestC" ∷ []
unfolding text_beq contains_text cut_prefix
by_hash_lem_example =
    by_hash_lem (test_stats (codes "TestC") (1 ∷ 12 ∷ [])) twins (refl, refl) refl
      ((refl, refl), ((refl, refl), ((refl, refl), tt)))

redundant-twins : redundant twins ≡ (codes "m/a.TestA" ∷ codes "m/a.TestC" ∷ []) ∷ []
unfolding redundant by_hash update sort insert text_beq text_le contains_text cut_prefix join itoa
redundant-twins = refl
