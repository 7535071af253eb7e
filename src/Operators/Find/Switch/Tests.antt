-- ===== src/Operators/Find/Switch/Tests.antt =====
-- internal/operators/switch_case.go: the mutants of a switch of three clauses, and what it runs when it
-- is rewritten with them.
use kanly.Base.{ℕ, ◌+◌, ◌≡◌, refl, Text, codes, [], ◌∷◌, none, some, nat_eq, arith, text_beq}
use kanly.Base.Int.{pos}
use kanly.Go.{value}
use kanly.Operators.Tree.{
  Meta, Node, no_node, node, Nodes, nil, cons, ident, expr_stmt, case_clause,
}
use kanly.Operators.Types.{Info}
use kanly.Operators.SwitchCase.{run_switch, rewrite_group}
use kanly.Operators.SwitchCase.Tests.{example_switch}
use kanly.Operators.Check.{contains_recover}
use kanly.Operators.Find.Switch.{switch_case_at}
use kanly.Operators.Find.Switch.Mutants.{numbered}
use kanly.Operators.Find.Switch.Rewritten.{switch_node, switch_case_at-run_switch}

abbrev no_info : Info
no_info = record {
  types = λ n. none;
  object_of = λ n. none;
  results = λ n. none;
  callee = λ n. none;
}

abbrev at : ℕ → Text → Meta
at n text = record { id = n; pos = n; op_pos = n; text = text }

abbrev expr : ℕ → Text → Node
expr n text = node (at n text) (ident text) nil nil

abbrev stmt : ℕ → Text → Node
stmt n text = node (at n text) expr_stmt (cons (expr (n + 1) text) nil) nil

-- case 1, 4: f(); default: g(); case 2: h()
abbrev clauses : Nodes
clauses =
    cons
      (node (at 10 (codes "case 1, 4: f()")) case_clause
        (cons (expr 11 (codes "1")) (cons (expr 12 (codes "4")) nil))
        (cons (stmt 13 (codes "f()")) nil))
      (cons (node (at 20 (codes "default: g()")) case_clause nil (cons (stmt 21 (codes "g()")) nil))
        (cons
          (node (at 30 (codes "case 2: h()")) case_clause (cons (expr 31 (codes "2")) nil)
            (cons (stmt 32 (codes "h()")) nil))
          nil))

abbrev example_node : Node
example_node = switch_node (at 1 []) no_node (expr 2 (codes "x")) (at 3 []) clauses

found_positions :
    numbered (switch_case_at no_info example_node) (5 ∷ 6 ∷ 7 ∷ 8 ∷ [])
    ≡ (record { pos = 10; mutant = [] }, 5)
      ∷ (record { pos = 30; mutant = [] }, 6)
      ∷ (record { pos = 10; mutant = codes "swap with default" }, 7)
      ∷ (record { pos = 20; mutant = codes "swap with case 2" }, 8)
      ∷ []
unfolding switch_case_at contains_recover text_beq
found_positions = refl

-- With mutant 8 active, the switch on 2 runs the default's body after all three comparisons.
switch_case_at-run_switch_example :
    run_switch
      (rewrite_group
        (pos 8)
        example_switch
        (numbered (switch_case_at no_info example_node) (5 ∷ 6 ∷ 7 ∷ 8 ∷ [])))
      0
    ≡ value (some 200, 13)
unfolding run_switch switch_case_at contains_recover text_beq
switch_case_at-run_switch_example =
    switch_case_at-run_switch (pos 8) no_info (at 1 []) (at 3 []) no_node (expr 2 (codes "x"))
      clauses example_switch (5 ∷ 6 ∷ 7 ∷ 8 ∷ []) 0 refl (ground arith) (ground arith) refl
      (ground arith)
