-- ===== src/Runner/Output/Laws.antt =====
-- internal/runner/runner.go: the tests that a run reports as failed.
use kanly.Base.{
  ℕ, ◌≡◌, refl, ap, ◌∙◌, true, false, Text, codes, List, [], ◌∷◌, ◌++◌, none, some, map, All,
  nat_eq, nat_beq, arith, if◌then◌else◌,
}
use kanly.Base.Strings.{cut_prefix, is_text, is_space, trim_left, trim_right, trim_space, Avoids}
use kanly.Mutation.{killed, survived, timeout}
use kanly.Runner.Output.{
  scan_lines, before_text, name_on, names_on, parse_test_names, TestBinary, mutant_run, run_mutant,
}

-- A line of an output: a failed test with its time, or another line.
pub data RunLine : Type 0 where
  failure : Text → Text → RunLine
  other : Text → RunLine

abbrev pub print_line : RunLine → Text
print_line (failure name time) = codes "--- FAIL: " ++ (name ++ (codes " (" ++ (time ++ codes ")")))
print_line (other line) = line

-- A test has a name without white space, and another line reports no failure.
abbrev pub IsReadable : RunLine → Type 0
IsReadable (failure name time) = (is_text name ≡ true) × Avoids is_space name
IsReadable (other line) = cut_prefix line (codes "--- FAIL: ") ≡ none

abbrev pub failures : List RunLine → List Text
failures [] = []
failures (failure name time ∷ lines) = name ∷ failures lines
failures (other line ∷ lines) = failures lines

before_text-name :
    (name rest : Text)
    → Avoids is_space name
    → before_text (codes " (") (name ++ (codes " (" ++ rest)) ≡ name
unfolding before_text cut_prefix is_space
before_text-name [] rest h = refl
before_text-name (c ∷ name) rest h =
    let n : nat_beq c 32 ≡ false = ground arith in
    rw (n, before_text-name name rest (ground arith)) refl

trim_right-name : (name : Text) → Avoids is_space name → trim_right name ≡ name
unfolding trim_right
trim_right-name [] h = refl
trim_right-name (c ∷ []) h = ground arith
trim_right-name (c ∷ d ∷ s) h = rw (trim_right-name (d ∷ s) (ground arith)) refl

trim_space-name :
    (name : Text) → is_text name ≡ true → Avoids is_space name → trim_space name ≡ name
unfolding trim_space trim_left
trim_space-name [] t h = refl
trim_space-name (c ∷ s) t h =
    let e : is_space c ≡ false = ground arith in rw e (trim_right-name (c ∷ s) h)

name_on-printed :
    (line : RunLine)
    → IsReadable line
    → name_on (codes "--- FAIL: " ∷ []) (print_line line) ≡ failures (line ∷ [])
unfolding name_on cut_prefix
name_on-printed (failure name time) (t, a) =
    ap (λ n. n ∷ [])
      (ap trim_space (before_text-name name (time ++ codes ")") a) ∙ trim_space-name name t a)
name_on-printed (other line) h = rw (name_on, h) refl

failures-cons :
    (line : RunLine) (lines : List RunLine)
    → failures (line ∷ []) ++ failures lines ≡ failures (line ∷ lines)
failures-cons (failure name time) lines = refl
failures-cons (other line) lines = refl

names_on-printed :
    (lines : List RunLine)
    → All IsReadable lines
    → names_on (codes "--- FAIL: " ∷ []) (map print_line lines) ≡ failures lines
unfolding names_on
names_on-printed [] a = refl
names_on-printed (line ∷ lines) (h, a) =
    rw (name_on-printed line h, names_on-printed lines a) (failures-cons line lines)

parse_test_names-printed :
    (out : Text) (lines : List RunLine)
    → All IsReadable lines
    → scan_lines out ≡ map print_line lines
    → parse_test_names out (codes "--- FAIL: " ∷ []) ≡ failures lines
unfolding parse_test_names
parse_test_names-printed out lines a e = rw e (names_on-printed lines a)

-- A mutant whose run is over its time is timed out, whatever the run printed. Otherwise it is killed
-- exactly where the run ends with an error, by the tests that the output reports as failed, in their
-- order, and survives elsewhere; for an output of lines that name a failed test and its time, and of
-- lines that do not start as one.
pub run_mutant-failures :
    (binary : TestBinary) (env test_args filter : List Text) (id : ℕ) (lines : List RunLine)
    → All IsReadable lines
    → scan_lines (mutant_run binary env test_args id filter).out ≡ map print_line lines
    → run_mutant binary env test_args id filter ≡ (
        if (mutant_run binary env test_args id filter).timed_out
        then (timeout, [])
        else elim (mutant_run binary env test_args id filter).err [
          | none ↦ (survived, [])
          | some msg ↦ (killed, failures lines)
        ])
unfolding run_mutant
run_mutant-failures binary env test_args filter id lines a e =
    let end = mutant_run binary env test_args id filter in
    ap
      (λ killing.
        if end.timed_out
        then (timeout, [])
        else elim end.err [ none ↦ (survived, []) | some msg ↦ (killed, killing) ])
      (parse_test_names-printed end.out lines a e)
