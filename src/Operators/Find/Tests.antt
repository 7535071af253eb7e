-- ===== src/Operators/Find/Tests.antt =====
-- internal/operators: the function `func f(n int) bool { g(); return n+1 < 10 && !done }`, with what
-- the type checker says of it.
use kanly.Base.{
  ℕ, ◌+◌, ◌*◌, ◌≡◌, refl, true, false, Text, codes, List, [], ◌∷◌, Option, none, some, map, arith,
  ◌≢◌, nat_beq, Distinct, nat_eq, if◌then◌else◌,
}
use kanly.Base.Int.{pos}
use kanly.Base.Attempt.{failed}
use kanly.Schema.Rewrite.{SourceFile, Options}
use kanly.Schema.Rewrite.Run.{conflict, rewrite_with}
use kanly.Operators.IntLiteral.{int}
use kanly.Operators.Binary.{add, lss, land, token_string}
use kanly.Operators.Tree.{
  Meta, Node, no_node, node, nil, cons, ident, basic_lit, int_lit, binary_expr, unary_expr, not_op,
  call_expr, expr_stmt, return_stmt, block_stmt, func_decl, other_node, inspect, node_id,
}
use kanly.Operators.Types.{
  bool_basic, integer, basic_type, literal, tuple, declared, TypeAndValue, Info, GoType,
}
use kanly.Operators.Check.{
  int_operands, operands_inferable, has_own_type, is_plain_bool_result, bool_operands, bool_operand,
  bool_result_inferable, contains_recover,
}
use kanly.Operators.Find.Keys.{nodes}
use kanly.Operators.Find.{Candidate, int_arith_at, int_cmp_boundary_at, bool_logic_at, bool_not_at}
use kanly.Operators.Find.Statements.{call_delete_at}
use kanly.Operators.Find.Register.{registered, Position, as_operator}
use kanly.Operators.Find.Conflicts.Registered.{registered-composes}

abbrev at : ℕ → Meta
at n = record { id = n; pos = 10 * n; op_pos = 10 * n + 1; text = [] }

abbrev leaf : ℕ → Text → Node
leaf n name = node (at n) (ident name) nil nil

abbrev sum : Node
sum =
    node (at 8) (binary_expr add) (cons (leaf 9 (codes "n")) nil)
      (cons (node (at 10) (basic_lit int_lit (codes "1") (some (pos 1))) nil nil) nil)

abbrev less : Node
less =
    node (at 7) (binary_expr lss) (cons sum nil)
      (cons (node (at 11) (basic_lit int_lit (codes "10") (some (pos 10))) nil nil) nil)

abbrev both : Node
both =
    node (at 6) (binary_expr land) (cons less nil)
      (cons (node (at 12) (unary_expr not_op) (cons (leaf 13 (codes "done")) nil) nil) nil)

abbrev call_stmt : Node
call_stmt =
    node (at 14) expr_stmt (cons (node (at 15) call_expr (cons (leaf 16 (codes "g")) nil) nil) nil)
      nil

abbrev func_f : Node
func_f = node (at 1) func_decl (cons no_node (cons (leaf 2 (codes "f")) nil)) (
    cons (node (at 3) other_node nil nil) (
      cons
        (node (at 4) block_stmt
          (cons call_stmt (cons (node (at 5) return_stmt nil (cons both nil)) nil)) nil)
        nil))

abbrev variable : GoType → Option TypeAndValue
variable t = some (record { go_type = some t; has_value = false; is_type = false })

abbrev constant : GoType → Option TypeAndValue
constant t = some (record { go_type = some t; has_value = true; is_type = false })

abbrev example_types : ℕ → Option TypeAndValue
example_types n =
    if nat_beq n 9
    then variable (basic_type (integer int))
    else if nat_beq n 8
    then variable (basic_type (integer int))
    else if nat_beq n 10
    then constant (basic_type (integer int))
    else if nat_beq n 11
    then constant (basic_type (integer int))
    else if nat_beq n 7
    then variable (basic_type bool_basic)
    else if nat_beq n 6
    then variable (basic_type bool_basic)
    else if nat_beq n 12
    then variable (basic_type bool_basic)
    else if nat_beq n 13
    then variable (basic_type bool_basic)
    else if nat_beq n 15
    then variable (literal 1 (tuple 0))
    else none

abbrev example_info : Info
example_info = record {
  types = example_types;
  object_of = λ n.
      if nat_beq n 13
      then some (declared (basic_type bool_basic))
      else if nat_beq n 9
      then some (declared (basic_type (integer int)))
      else none;
  results = λ n. if nat_beq n 2 then some (basic_type bool_basic ∷ []) else none;
  callee = λ n. none;
}

abbrev found_ids : (Node → List Candidate) → List (ℕ × Text)
found_ids f = pairs (inspect (λ stack n. f n) func_f)
  where
    pairs : List Candidate → List (ℕ × Text)
    pairs [] = []
    pairs (c ∷ cs) = (c.node_id, c.mutant) ∷ pairs cs

func_f-Distinct : Distinct (map node_id (nodes func_f))
unfolding nodes
func_f-Distinct = ground arith

sum-found : found_ids (int_arith_at example_info) ≡ (8, codes "-") ∷ []
unfolding inspect int_arith_at int_operands operands_inferable has_own_type token_string
sum-found = refl

less-found : found_ids (int_cmp_boundary_at example_info) ≡ (7, codes "<=") ∷ []
unfolding inspect int_cmp_boundary_at int_operands operands_inferable has_own_type token_string
    is_plain_bool_result
less-found = refl

both-found : found_ids (bool_logic_at example_info) ≡ (6, codes "||") ∷ []
unfolding inspect bool_logic_at bool_operands bool_result_inferable token_string contains_recover
both-found = refl

not-found : found_ids (bool_not_at example_info) ≡ (12, []) ∷ []
unfolding inspect bool_not_at bool_operand bool_result_inferable
not-found = refl

call-found : found_ids (call_delete_at example_info) ≡ (15, []) ∷ []
unfolding inspect call_delete_at
call-found = refl

abbrev source_file : SourceFile
source_file = record {
  path = codes "/m/f.go";
  base = codes "f.go";
  generated = false;
  comments = [];
  lines = some (codes "func f(n int) bool {" ∷ codes "g()" ∷ codes "return n+1 < 10 && !done" ∷ []);
  decls = [];
  lit_spans = [];
  case_spans = [];
}

abbrev everything : Options
everything = record { filter = none; operators = none; accepted = [] }

abbrev line_3 : SourceFile → ℕ → Position
line_3 file p = record { line = 3; column = p; raw_line = 3; raw_column = p }

registered-composes_example :
    rewrite_with
      (λ s. s)
      (codes "m")
      (map (as_operator line_3 example_info (λ file. func_f)) registered)
      []
      everything
      (source_file ∷ [])
    ≢ failed conflict
registered-composes_example =
    registered-composes (λ s. s) (codes "m") everything [] line_3 example_info (λ file. func_f)
      (source_file ∷ []) (λ file. func_f-Distinct)
