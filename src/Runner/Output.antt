-- ===== src/Runner/Output.antt =====
-- internal/runner/runner.go: what is read from the output of a test binary, and the runs that read it.
pub mod Laws
pub mod Tests
use kanly.Base.{
  ℕ, Bool, true, false, not, ◌||◌, Text, codes, List, [], ◌∷◌, ◌++◌, Option, none, some, map, keep,
  contains, nat_eq, nat_beq, if◌then◌else◌,
}
use kanly.Base.Strings.{cut_prefix, has_prefix, is_text, trim_space, split_byte, join}
use kanly.Base.Decimal.{itoa}
use kanly.Base.Attempt.{Attempt, done, failed}
use kanly.Mutation.{Status, killed, survived, timeout}
use kanly.Runner.Names.{dedupe, filter_env}

-- The lines that a `bufio.Scanner` gives: without a final "\r", and no empty one at the end.
abbrev without_return : Text → Text
without_return [] = []
without_return (c ∷ s) = elim s [
  | [] ↦ if nat_beq c 13 then [] else c ∷ []
  | d ∷ t ↦ c ∷ without_return s
]

abbrev without_last : List Text → List Text
without_last [] = []
without_last (l ∷ ls) = elim ls [
  | [] ↦ if is_text l then l ∷ [] else []
  | m ∷ ms ↦ l ∷ without_last ls
]

unfoldable pub scan_lines : Text → List Text
unfolding split_byte
scan_lines out = map without_return (without_last (split_byte 10 out))

-- The text before the first `sub`, or all of it.
unfoldable pub before_text : Text → Text → Text
unfolding cut_prefix
before_text sub [] = []
before_text sub (c ∷ s) =
    let rest = before_text sub s in if has_prefix (c ∷ s) sub then [] else c ∷ rest

-- The name on a line with one of the prefixes.
unfoldable pub name_on : List Text → Text → List Text
unfolding cut_prefix before_text trim_space
name_on [] line = []
name_on (p ∷ prefixes) line = elim (cut_prefix line p) [
  | none ↦ name_on prefixes line
  | some rest ↦ trim_space (before_text (codes " (") rest) ∷ []
]

unfoldable pub names_on : List Text → List Text → List Text
unfolding name_on
names_on prefixes [] = []
names_on prefixes (line ∷ lines) = name_on prefixes line ++ names_on prefixes lines

-- `parseTestNames`.
unfoldable pub parse_test_names : Text → List Text → List Text
unfolding names_on scan_lines
parse_test_names out prefixes = names_on prefixes (scan_lines out)

abbrev fail_prefix : Text
fail_prefix = codes "--- FAIL: "

-- `strings.TrimRight(out, "\n")`.
abbrev trim_newlines : Text → Text
trim_newlines [] = []
trim_newlines (c ∷ s) = elim (trim_newlines s) [
  | [] ↦ if nat_beq c 10 then [] else c ∷ []
  | d ∷ t ↦ c ∷ d ∷ t
]

abbrev trim_spaces : Text → Text
trim_spaces [] = []
trim_spaces (c ∷ s) = if nat_beq c 32 then trim_spaces s else c ∷ s

abbrev is_progress : Text → Bool
is_progress trimmed =
    has_prefix trimmed (codes "=== ")
    || has_prefix trimmed (codes "--- PASS: ")
    || has_prefix trimmed (codes "--- SKIP: ")

unfoldable pub failure_output : Text → Text
unfolding split_byte cut_prefix join
failure_output out =
    join (codes "\n")
      (keep (λ line. not (is_progress (trim_spaces line))) (split_byte 10 (trim_newlines out)))

-- `regexp.QuoteMeta`.
abbrev quote_meta : Text → Text
quote_meta [] = []
quote_meta (c ∷ s) =
    let rest = quote_meta s in
    if contains (codes "\\.+*?()|[]{}^$") c then 92 ∷ c ∷ rest else c ∷ rest

unfoldable pub build_run_regex : List Text → Text
unfolding join
build_run_regex names = codes "^(" ++ (join (codes "|") (map quote_meta names) ++ codes ")$")

abbrev run_flag : List Text → List Text
run_flag [] = []
run_flag (n ∷ names) = (codes "-test.run=" ++ build_run_regex (n ∷ names)) ∷ []

-- How a run ended: whether its time was over, and the error of the command.
pub record Ended : Type 0 where
  pub out : Text
  pub timed_out : Bool
  pub err : Option Text

pub data RunError : Type 0 where
  over_time : RunError
  outside_tests : Text → RunError

-- A test binary: its arguments and its environment to the end of the run.
abbrev pub TestBinary : Type 0
TestBinary = List Text → List Text → Ended

abbrev mutant_verdict : Ended → Status × List Text
mutant_verdict e =
    let killing = parse_test_names e.out (fail_prefix ∷ []) in
    if e.timed_out
    then (timeout, [])
    else elim e.err [ none ↦ (survived, []) | some msg ↦ (killed, killing) ]

abbrev or_outside : Text → List Text → Attempt RunError (List Text)
or_outside out [] = failed (outside_tests (failure_output out))
or_outside out (n ∷ names) = done (n ∷ names)

abbrev tests_verdict : Ended → Attempt RunError (List Text)
tests_verdict e =
    let reported = or_outside e.out (dedupe (parse_test_names e.out (fail_prefix ∷ []))) in
    if e.timed_out then failed over_time else elim e.err [ none ↦ done [] | some msg ↦ reported ]

module _ (binary : TestBinary) (env test_args : List Text) where
  -- The process that `RunMutant` runs.
  unfoldable pub mutant_run : ℕ → List Text → Ended
  unfolding build_run_regex itoa
  mutant_run id filter =
      binary ((codes "-test.v" ∷ []) ++ (run_flag filter ++ test_args))
        (env ++ (codes "KANLY_MUTANT=" ++ itoa id) ∷ [])

  -- `RunMutant`, without the time that it measures.
  unfoldable pub run_mutant : ℕ → List Text → Status × List Text
  unfolding parse_test_names mutant_run
  run_mutant id filter = mutant_verdict (mutant_run id filter)

  -- The process that `RunTests` runs.
  unfoldable pub tests_run : List Text → Ended
  unfolding build_run_regex filter_env
  tests_run names =
      binary ((codes "-test.v" ∷ []) ++ (run_flag names ++ test_args))
        (filter_env env (codes "KANLY_MUTANT"))

  -- `RunTests`.
  unfoldable pub run_tests : List Text → Attempt RunError (List Text)
  unfolding parse_test_names dedupe failure_output tests_run
  run_tests names = tests_verdict (tests_run names)
