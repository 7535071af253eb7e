-- ===== src/Cmd/Baseline/Tests.antt =====
-- cmd/kanly/main.go: a package where a test that panics hides one that fails.
use kanly.Base.{
  ℕ, ◌+◌, ◌≤◌, ◌<◌, ◌≡◌, refl, ◌⊎◌, true, false, Text, codes, List, [], ◌∷◌, contains, text_eq,
  text_beq, if◌then◌else◌,
}
use kanly.Base.Attempt.{done, failed}
use kanly.Runner.Timing.{Baseline}
use kanly.Cmd.Baseline.{
  BaselineRun, passed, test_failure, Binary, BaselineError, ExcludedTest, TestRun, reason, rounds,
  settle_round, establish_baseline, max_baseline_rounds,
}
use kanly.Cmd.Baseline.Laws.{names, establish_baseline-layers, establish_baseline-excluded}

abbrev test_a : Text
test_a = codes "TestA"

abbrev test_b : Text
test_b = codes "TestB"

abbrev rest : Baseline
rest = record { tests = codes "TestC" ∷ []; durations = []; wall = 5 }

-- The number of runs of a binary so far is the state.
abbrev run_baseline : List Text → ℕ → BaselineRun × ℕ
run_baseline skip n =
    if contains skip test_b
    then (passed rest, n + 1)
    else if contains skip test_a
    then (test_failure (test_b ∷ []) (codes "FAIL"), n + 1)
    else (test_failure (test_a ∷ []) (codes "panic"), n + 1)

abbrev run_tests : Binary → List Text → ℕ → TestRun × ℕ
run_tests binary tests n = ((tests, true), n + 1)

two_layers : (n : ℕ) → (n' : ℕ) × (run_baseline (test_a ∷ test_b ∷ []) n ≡ (passed rest, n'))
unfolding text_beq
two_layers n = (n + 1, refl)

establish_baseline-layers_example :
    ((2 ≤ max_baseline_rounds)
      × ((excluded : List ExcludedTest) × (n : ℕ) × (establish_baseline run_baseline run_tests 0
            ≡ (done (rest, excluded), n))
          × (names excluded ≡ test_a ∷ test_b ∷ [])))
    ⊎ ((max_baseline_rounds < 2)
        × ((e : BaselineError) × (n : ℕ) × (establish_baseline run_baseline run_tests 0
              ≡ (failed e, n))))
unfolding text_beq
establish_baseline-layers_example =
    establish_baseline-layers run_baseline run_tests rest ((test_a ∷ []) ∷ (test_b ∷ []) ∷ []) 0
      refl
      (
        refl,
        (λ n. (codes "panic", n + 1, refl)),
        (refl, (λ n. (codes "FAIL", n + 1, refl)), two_layers),
      )

abbrev unmodified : Text
unmodified = codes "fails on the unmodified code"

established : establish_baseline run_baseline run_tests 0 ≡ (
  done (
    rest,
    record { test = test_a; reason = unmodified }
        ∷ record { test = test_b; reason = unmodified }
        ∷ [],
  ),
  7,
)
unfolding establish_baseline text_beq rounds settle_round reason
established = refl

establish_baseline-excluded_example :
    (n : ℕ) × (run_baseline (test_a ∷ test_b ∷ []) n ≡ (passed rest, 7)) × (false ≡ false)
establish_baseline-excluded_example =
    establish_baseline-excluded run_baseline run_tests 0 7 rest
      (record { test = test_a; reason = unmodified }
        ∷ record { test = test_b; reason = unmodified }
        ∷ [])
      established
