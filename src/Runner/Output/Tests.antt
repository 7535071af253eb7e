-- ===== src/Runner/Output/Tests.antt =====
-- internal/runner/runner.go: a run of two tests, one of which fails.
use kanly.Base.{◌≡◌, refl, false, Text, codes, List, [], ◌∷◌, some, nat_eq}
use kanly.Base.Strings.{cut_prefix, split_byte, is_space}
use kanly.Mutation.{killed}
use kanly.Runner.Output.{
  TestBinary, scan_lines, mutant_run, run_mutant, failure_output, build_run_regex,
}
use kanly.Runner.Output.Laws.{RunLine, failure, other, run_mutant-failures}

abbrev lines : List RunLine
lines =
    other (codes "=== RUN   TestA")
    ∷ failure (codes "TestA") (codes "0.01s")
    ∷ other (codes "--- PASS: TestB (0.00s)")
    ∷ other (codes "FAIL")
    ∷ []

abbrev output : Text
output = codes "=== RUN   TestA\n--- FAIL: TestA (0.01s)\n--- PASS: TestB (0.00s)\nFAIL\n"

abbrev failing : TestBinary
failing args env = record { out = output; timed_out = false; err = some (codes "exit status 1") }

run_mutant-failures_example :
    run_mutant failing [] [] 7 (codes "TestA" ∷ codes "TestB" ∷ []) ≡ (killed, codes "TestA" ∷ [])
unfolding mutant_run scan_lines cut_prefix is_space split_byte
run_mutant-failures_example =
    run_mutant-failures failing [] [] (codes "TestA" ∷ codes "TestB" ∷ []) 7 lines
      (refl, ((refl, refl), (refl, (refl, tt)))) refl

failed_output : failure_output output ≡ codes "--- FAIL: TestA (0.01s)\nFAIL"
unfolding failure_output
failed_output = refl

escaped_regex : build_run_regex (codes "TestA" ∷ codes "Test.B" ∷ []) ≡ codes "^(TestA|Test\\.B)$"
unfolding build_run_regex
escaped_regex = refl
