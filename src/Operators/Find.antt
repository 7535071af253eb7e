-- ===== src/Operators/Find.antt =====
-- internal/operators: the candidates that the operators on binary and unary expressions find
-- (arithmetic.go, bitwise.go, comparison.go, float.go, boolean.go).
pub mod Statements
pub mod Switch
pub mod Literals
pub mod Returns
pub mod Register
pub mod Keys
pub mod Conflicts
pub mod Tests
use kanly.Base.{
  ℕ, Bool, true, false, not, ◌&&◌, Text, codes, List, [], ◌∷◌, Option, none, some, if◌then◌else◌,
}
use kanly.Operators.Binary.{
  Token, add, sub, mul, quo, token_string, sibling, bitwise_sibling, boundary_sibling, negate_map,
  bool_sibling,
}
use kanly.Operators.Tree.{Meta, Node, node, nil, cons, binary_expr, unary_expr, not_op}
use kanly.Operators.Types.{GoType, Info}
use kanly.Operators.Check.{
  int_operands, float_operands, bool_operands, bool_operand, is_plain_bool_result,
  bool_result_inferable, contains_recover,
}

pub record Candidate : Type 0 where
  pub node_id : ℕ
  pub pos : ℕ
  pub original : Text
  pub mutant : Text
  pub go_type : Option GoType

abbrev pub new_candidate : ℕ → ℕ → Text → Text → Candidate
new_candidate n p original mutant = record {
  node_id = n;
  pos = p;
  original = original;
  mutant = mutant;
  go_type = none;
}

unfoldable pub float_sibling : Token → Option Token
float_sibling add = some sub
float_sibling sub = some add
float_sibling mul = some quo
float_sibling quo = some mul
float_sibling _ = none

-- The candidate of a binary expression whose operator the table has, if the operands pass.
abbrev pub replaced : Meta → Token → Option Token → Bool → List Candidate
replaced m op (some mut_op) true =
    new_candidate m.id m.op_pos (token_string op) (token_string mut_op) ∷ []
replaced m op _ _ = []

module _ (info : Info) where
  unfoldable pub int_arith_at : Node → List Candidate
  unfolding sibling
  int_arith_at (node m (binary_expr op) (cons x nil) (cons y nil)) =
      replaced m op (sibling op) (int_operands info x y)
  int_arith_at _ = []

  unfoldable pub int_bitwise_at : Node → List Candidate
  unfolding bitwise_sibling
  int_bitwise_at (node m (binary_expr op) (cons x nil) (cons y nil)) =
      replaced m op (bitwise_sibling op) (int_operands info x y)
  int_bitwise_at _ = []

  -- The operands are integers, and the comparison is a plain bool.
  abbrev int_cmp_fits : Node → Node → Node → Bool
  int_cmp_fits e x y = int_operands info x y && is_plain_bool_result info e

  unfoldable pub int_cmp_boundary_at : Node → List Candidate
  unfolding boundary_sibling
  int_cmp_boundary_at (node m (binary_expr op) (cons x nil) (cons y nil)) =
      replaced m op (boundary_sibling op)
        (int_cmp_fits (node m (binary_expr op) (cons x nil) (cons y nil)) x y)
  int_cmp_boundary_at _ = []

  unfoldable pub int_cmp_negate_at : Node → List Candidate
  unfolding negate_map
  int_cmp_negate_at (node m (binary_expr op) (cons x nil) (cons y nil)) =
      replaced m op (negate_map op)
        (int_cmp_fits (node m (binary_expr op) (cons x nil) (cons y nil)) x y)
  int_cmp_negate_at _ = []

  unfoldable pub float_arith_at : Node → List Candidate
  unfolding float_sibling
  float_arith_at (node m (binary_expr op) (cons x nil) (cons y nil)) =
      replaced m op (float_sibling op) (float_operands info x y)
  float_arith_at _ = []

  -- `findFloatCmp`, with its table of mutants.
  unfoldable pub find_float_cmp : (Token → Option Token) → Node → List Candidate
  find_float_cmp mutants (node m (binary_expr op) (cons x nil) (cons y nil)) =
      replaced m op (mutants op) (
        float_operands info x y
        && is_plain_bool_result info (node m (binary_expr op) (cons x nil) (cons y nil)))
  find_float_cmp mutants _ = []

  unfoldable pub bool_logic_at : Node → List Candidate
  unfolding bool_sibling
  bool_logic_at (node m (binary_expr op) (cons x nil) (cons y nil)) =
      replaced m op (bool_sibling op) (
        bool_operands info x y
        && bool_result_inferable info (node m (binary_expr op) (cons x nil) (cons y nil)) x
        && not (contains_recover info y))
  bool_logic_at _ = []

  unfoldable pub bool_not_at : Node → List Candidate
  bool_not_at (node m (unary_expr not_op) (cons x nil) nil) =
      if bool_operand info x
        && bool_result_inferable info (node m (unary_expr not_op) (cons x nil) nil) x
      then new_candidate m.id m.op_pos (codes "!") [] ∷ []
      else []
  bool_not_at _ = []
