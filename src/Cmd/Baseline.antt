-- ===== src/Cmd/Baseline.antt =====
-- cmd/kanly/main.go: `establishBaseline`. A test binary is a function of the tests to skip or to run, and
-- of what happened before.
pub mod Laws
pub mod Tests
use kanly.Base.{
  ℕ, zero, suc, Bool, true, false, not, ◌&&◌, ◌||◌, Text, codes, List, [], ◌∷◌, ◌++◌, map, contains,
  text_eq, if◌then◌else◌,
}
use kanly.Base.Attempt.{Attempt, done, failed}
use kanly.Runner.Timing.{Baseline}

pub record ExcludedTest : Type 0 where
  pub test : Text
  pub reason : Text

-- What `RunBaseline` returns: a `TestFailure` carries the tests that failed and the output.
pub data BaselineRun : Type 0 where
  passed : Baseline → BaselineRun
  test_failure : List Text → Text → BaselineRun
  other_error : Text → BaselineRun

pub data Binary : Type 0 where
  original schema : Binary

pub data BaselineError : Type 0 where
  every_test_fails : BaselineError
  kanly_bug tests_fail : Text → BaselineError
  run_error : Text → BaselineError

abbrev pub max_baseline_rounds : ℕ
max_baseline_rounds = 3

abbrev pub is_empty : {A : Type 0} → List A → Bool
is_empty [] = true
is_empty (x ∷ xs) = false

-- `RunTests`: the tests that failed, and whether there is an error.
abbrev pub TestRun : Type 0
TestRun = List Text × Bool

unfoldable pub reason : TestRun → TestRun → Text → Text
reason (orig_failed, orig_err) (schema_failed, schema_err) name =
    if orig_err || contains orig_failed name
    then codes "fails on the unmodified code"
    else if schema_err || contains schema_failed name
    then codes
        "fails only under Kanly's rewritten code; it may depend on allocations, call stacks or timing, otherwise please report it as a Kanly bug"
    else codes
        "failed in the baseline but passed when re-run alone: flaky, or depends on another test"

abbrev pub excluded_test : TestRun → TestRun → Text → ExcludedTest
excluded_test orig sch name = record { test = name; reason = reason orig sch name }

module _ {W : Type 0} (run_baseline : List Text → W → BaselineRun × W)
    (run_tests : Binary → List Text → W → TestRun × W) where
  abbrev pub Established : Type 0
  Established = Attempt BaselineError (Baseline × List ExcludedTest) × W

  -- `explainBaselineFailure` of a test failure; no names stand for all tests.
  unfoldable pub explain_baseline_failure : Text → W → Established
  explain_baseline_failure output w =
      let ((orig_failed, orig_err), w') = run_tests original [] w in
      (failed (if orig_err then tests_fail output else kanly_bug output), w')

  -- One round, by its run; `retry` goes on with the tests that failed.
  unfoldable pub settle_round :
      (List Text → Text → W → Established)
      → List Text
      → List ExcludedTest
      → BaselineRun × W
      → Established
  unfolding explain_baseline_failure
  settle_round retry skip excluded (passed b, w) = (
    if is_empty b.tests && not (is_empty skip) then failed every_test_fails else done (b, excluded),
    w,
  )
  settle_round retry skip excluded (other_error msg, w) = (failed (run_error msg), w)
  settle_round retry skip excluded (test_failure [] output, w) = explain_baseline_failure output w
  settle_round retry skip excluded (test_failure (t ∷ ts) output, w) = retry (t ∷ ts) output w

  -- The loop, with the number of rounds left.
  unfoldable pub rounds : ℕ → List Text → List ExcludedTest → W → Established
  unfolding settle_round reason
  rounds zero skip excluded w =
      settle_round (λ tests output w'. explain_baseline_failure output w') skip excluded
        (run_baseline skip w)
  rounds (suc left) skip excluded w =
      settle_round
        (λ tests output w1.
          let (orig, w2) = run_tests original tests w1 in
          let (sch, w3) = run_tests schema tests w2 in
          rounds left (skip ++ tests) (excluded ++ map (excluded_test orig sch) tests) w3)
        skip excluded (run_baseline skip w)

  unfoldable pub establish_baseline : W → Established
  unfolding rounds
  establish_baseline w = rounds max_baseline_rounds [] [] w
