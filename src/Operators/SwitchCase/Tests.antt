-- ===== src/Operators/SwitchCase/Tests.antt =====
-- internal/operators/switch_case.go: a switch of three clauses, whose case expressions count their
-- evaluations.
use kanly.Base.{ℕ, ◌+◌, ◌≡◌, codes, List, [], ◌∷◌, none, some, nat_beq, arith}
use kanly.Base.Int.{pos}
use kanly.Go.{value}
use kanly.Operators.SwitchCase.{Test, Clause, Switch, run_switch, rewrite_group}
use kanly.Operators.SwitchCase.Collect.{Mutant, drop, swap, positions, candidates}
use kanly.Operators.SwitchCase.Laws.{rewrite_group-run_switch}

abbrev equals : ℕ → Test ℕ ℕ
equals n v s = value (nat_beq v n, s + 1)

-- case 1, 4: …; default: …; case 2: …
abbrev three_clauses : List (Clause ℕ ℕ ℕ)
three_clauses =
    record { pos = 10; tests = some (equals 1 ∷ equals 4 ∷ []); body = 100 }
    ∷ record { pos = 20; tests = none; body = 200 }
    ∷ record { pos = 30; tests = some (equals 2 ∷ []); body = 300 }
    ∷ []

abbrev pub example_switch : Switch ℕ ℕ ℕ
example_switch = record { tag = λ s. value (2, s + 10); clauses = three_clauses }

abbrev three_mutants : List Mutant
three_mutants = drop 0 5 ∷ swap (codes "case 2") 1 6 ∷ drop 2 7 ∷ []

-- With mutant 6 active, the switch on 2 runs the default's body after all three comparisons.
rewrite_group-run_switch_example :
    run_switch
      (rewrite_group (pos 6) example_switch (candidates (positions three_clauses) three_mutants))
      0
    ≡ value (some 200, 13)
unfolding run_switch
rewrite_group-run_switch_example =
    rewrite_group-run_switch (pos 6) example_switch three_mutants 0 (ground arith) (ground arith)
      (ground arith) (ground arith) (ground arith)

-- With mutant 7 active, the comparison with 2 is left out.
dropped-clause :
    run_switch
      (rewrite_group (pos 7) example_switch (candidates (positions three_clauses) three_mutants))
      0
    ≡ value (some 200, 12)
unfolding run_switch
dropped-clause =
    rewrite_group-run_switch (pos 7) example_switch three_mutants 0 (ground arith) (ground arith)
      (ground arith) (ground arith) (ground arith)
